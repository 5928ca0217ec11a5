-- ===== src/Console/Colours.antt =====
-- The colours of the terminal, and what reaches the serial port (kernel/src/main.c: write_color).
use nyaux.Base.{
  ℕ, zero, suc, ◌+◌, ◌<◌, ◌≡◌, refl, false, ltb, if◌then◌else◌, Option, none, some, List, [], ◌∷◌,
  arith, ◌==◌, map, length, ne→==,
}
use nyaux.Machine.{Mem}
use nyaux.Libc.Strings.{IsString}
use nyaux.Console.{
  Call, literal, message, set_text_fg_rgb, set_text_bg_rgb, set_text_fg_default,
  set_text_bg_default, write_color, print_charserial, serial_print,
}

-- The colours that are set, `none` for the default.
pub record Colours : Type 0 where
  pub foreground : Option ℕ
  pub background : Option ℕ

abbrev pub plain : Colours
plain = record { foreground = none; background = none }

-- What a call of the terminal does to the colours.
abbrev pub set_by : Call → Colours → Colours
set_by (literal words) c = c
set_by (message buf) c = c
set_by (set_text_fg_rgb rgb) c = record c { foreground = some rgb }
set_by (set_text_bg_rgb rgb) c = record c { background = some rgb }
set_by set_text_fg_default c = record c { foreground = none }
set_by set_text_bg_default c = record c { background = none }

-- The colours after the calls.
abbrev pub colours : List Call → Colours → Colours
colours [] c = c
colours (x ∷ xs) c = colours xs (set_by x c)

-- The messages among the calls, each with the colours that it has.
abbrev pub messages : List Call → Colours → List (Colours × List ℕ)
messages [] c = []
messages (literal words ∷ xs) c = messages xs c
messages (message buf ∷ xs) c = (c, buf) ∷ messages xs c
messages (set_text_fg_rgb rgb ∷ xs) c = messages xs (set_by (set_text_fg_rgb rgb) c)
messages (set_text_bg_rgb rgb ∷ xs) c = messages xs (set_by (set_text_bg_rgb rgb) c)
messages (set_text_fg_default ∷ xs) c = messages xs (set_by set_text_fg_default c)
messages (set_text_bg_default ∷ xs) c = messages xs (set_by set_text_bg_default c)

-- The colours of the message itself: a background for a panic, else the plain ones.
abbrev pub message_colours : ℕ → Colours
message_colours type =
    if type == 4 then record { foreground = none; background = some 0xFF6961 } else plain

-- From plain colours `write_color` leaves plain colours, whatever the type, and prints the
-- message once, in the colours of its type; for a type beyond 4 it prints nothing.
pub write_color-plain :
    (buf : List ℕ) (type : ℕ)
    → (colours (write_color buf type) plain ≡ plain)
      × (messages (write_color buf type) plain
          ≡ (if ltb 4 type then [] else (message_colours type, buf) ∷ []))
unfolding write_color
write_color-plain buf type = (ground arith, ground arith)

-- `serial_print` sends the bytes of a string to the port, in order, and ends: one round more than the
-- string has bytes is enough.
pub serial_print_lem :
    (fuel str : ℕ) (m : Mem) (xs : List ℕ)
    → IsString m str xs
    → length xs < fuel
    → serial_print fuel str m ≡ some (map print_charserial xs)
unfolding serial_print
serial_print_lem zero str m xs is enough = absurd (omega arith)
serial_print_lem (suc fuel) str m [] is enough = rw is refl
serial_print_lem (suc fuel) str m (x ∷ xs) (at, pos, small, rest) enough =
    let more : (x == 0) ≡ false = ne→== x 0 (omega arith) in
    rw (at, more, serial_print_lem fuel (str + 1) m xs rest (omega arith)) (rw at refl)
