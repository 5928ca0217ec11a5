-- ===== src/Keyboard/Tests.antt =====
-- The keyboard at concrete inputs.
use nyaux.Base.{ℕ}
use nyaux.Keyboard.{KeyboardEvent, special, key_unknown}
use nyaux.Keyboard.Strokes.{Stroke, key_stroke}
use mathlib.Core.Bool.{true, false}

abbrev blank : ℕ → ℕ
blank i = 0

abbrev no_events : ℕ → KeyboardEvent
no_events i = special key_unknown false

-- The release of A.
abbrev a_up : Stroke
a_up = key_stroke 30 true
