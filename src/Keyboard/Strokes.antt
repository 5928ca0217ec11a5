-- ===== src/Keyboard/Strokes.antt =====
-- What the codes of whole keys do.
use nyaux.Base.{
  ℕ, Bool, ◌+◌, ◌%◌, ◌<◌, ◌≢◌, true, false, Option, none, some, List, [], ◌∷◌, ◌==◌, ltb,
  if◌then◌else◌,
}
use nyaux.Keyboard.{
  key_unknown, key_printscrn, key_pause, KeyboardEvent, Keyboard, put_event, key_of, ps2_handler,
  character,
}
use nyaux.Keyboard.Layout.{key_event}

-- Codes one after the other, up to a panic.
unfoldable pub feed : (ℕ → ℕ) → List ℕ → Keyboard → Option Keyboard
feed beyond [] kb = some kb
feed beyond (c ∷ cs) kb = elim (ps2_handler beyond c kb) [
  | some kb1 ↦ feed beyond cs kb1
  | none ↦ none
]

-- A keyboard with an empty buffer.
abbrev pub idle : (ℕ → ℕ) → (ℕ → KeyboardEvent) → ℕ → Keyboard
idle buf es n = record { key_buf = buf; key_buf_count = 0; events = es; event_count = n }

-- The event of a key with a code of one byte.
abbrev pub plain_event : (beyond : ℕ → ℕ) → ℕ → KeyboardEvent
plain_event beyond c = record {
  printable = character beyond (c % 128);
  key = if character beyond (c % 128) == 0 then key_of (c % 128) else key_unknown;
  released = ltb 127 (c % 256);
}

-- Keys pressed or released: one of the layout, an extended one, print screen; and pause, which has no release.
pub data Stroke : Type 0 where
  key_stroke extended_stroke : (code : ℕ) → (up : Bool) → Stroke
  print_screen_stroke : (up : Bool) → Stroke
  pause_stroke : Stroke

-- The codes that the keyboard sends.
abbrev pub sent : ℕ → Bool → ℕ
sent code false = code
sent code true = code + 128

abbrev pub codes : Stroke → List ℕ
codes (key_stroke code up) = sent code up ∷ []
codes (extended_stroke code up) = 0xE0 ∷ sent code up ∷ []
codes (print_screen_stroke false) = 0xE0 ∷ 0x2A ∷ 0xE0 ∷ 0x37 ∷ []
codes (print_screen_stroke true) = 0xE0 ∷ 0xB7 ∷ 0xE0 ∷ 0xAA ∷ []
codes pause_stroke = 0xE1 ∷ 0x1D ∷ 0x45 ∷ 0xE1 ∷ 0x9D ∷ 0xC5 ∷ []

-- The codes of keys of the layout. Print screen begins with the code 0x2A for an extended key, and its release
-- with 0xB7, which is that of 0x37; an extended key with the first stays in the buffer for ever, as one with the
-- second does until two more codes come.
abbrev pub IsStroke : Stroke → Type 0
IsStroke (key_stroke code up) = code < 89
IsStroke (extended_stroke code up) = (code < 128) × (code ≢ 0x2A) × (code ≢ 0x37)
IsStroke (print_screen_stroke up) = Unit {0}
IsStroke pause_stroke = Unit {0}

abbrev pub reports : Stroke → List KeyboardEvent
reports (key_stroke code up) = key_event code up ∷ []
reports (extended_stroke code up) = record { printable = 0; key = key_unknown; released = up } ∷ []
reports (print_screen_stroke up) = record { printable = 0; key = key_printscrn; released = up } ∷ []
reports pause_stroke =
    record { printable = 0; key = key_pause; released = false }
    ∷ record { printable = 0; key = key_pause; released = true }
    ∷ []

-- Events stored from place `n` on.
unfoldable pub put_events : (ℕ → KeyboardEvent) → ℕ → List KeyboardEvent → ℕ → KeyboardEvent
put_events es n [] = es
put_events es n (e ∷ more) = put_events (put_event es n e) (n + 1) more
