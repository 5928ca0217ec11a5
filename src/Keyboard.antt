-- ===== src/Keyboard.antt =====
-- The keyboard interrupt of kernel/src/drivers/ps2.c: scan codes are collected in a buffer until they make
-- up a key, whose event is stored for the thread that reads events.
pub mod Layout
pub mod Strokes
pub mod Tests
use nyaux.Base.{
  ℕ, zero, suc, ◌+◌, ◌-◌, ◌%◌, ◌/◌, Bool, true, false, ◌&&◌, Option, none, some, List, [], ◌∷◌,
  get_or, ◌==◌, ltb, if◌then◌else◌,
}
use nyaux.Machine.{write}

-- `enum KEYKEY`, in its order.
pub data Key : Type 0 where
  key_escape key_backspace key_tab key_enter key_lctrl key_lshift : Key
  key_rshift key_lalt key_capslock key_f1 key_f2 key_f3 : Key
  key_f4 key_f5 key_f6 key_f7 key_f8 key_f9 : Key
  key_f10 key_f11 key_f12 key_numlock key_scrllock key_keypad7 : Key
  key_keypad8 key_keypad9 key_keypadminus key_keypad4 key_keypad5 key_keypad6 : Key
  key_keypadplus key_keypad1 key_keypad2 key_keypad3 key_keypad0 key_keypaddot : Key
  key_keypadenter key_printscrn key_pause key_unknown : Key

pub record KeyboardEvent : Type 0 where
  pub printable : ℕ
  pub key : Key
  pub released : Bool

-- `key_buf_count` is a `uint8_t`. The buffer has 8 bytes, but no bound is checked.
pub record Keyboard : Type 0 where
  pub key_buf : ℕ → ℕ
  pub key_buf_count : ℕ
  pub events : ℕ → KeyboardEvent
  pub event_count : ℕ

abbrev pub put_event : (ℕ → KeyboardEvent) → ℕ → KeyboardEvent → ℕ → KeyboardEvent
put_event es n e k = if k == n then e else es k

-- `kassert(event_count < 32)`, whose failure is a panic (`none`), and the event.
abbrev pub add_event : Keyboard → KeyboardEvent → Option Keyboard
add_event kb e =
    if ltb kb.event_count 32
    then some (record kb {
      events = put_event kb.events kb.event_count e;
      event_count = kb.event_count + 1;
    })
    else none

-- `key_buf_count -= n`, a `uint8_t`
abbrev pub drop_codes : ℕ → Keyboard → Keyboard
drop_codes n kb = record kb { key_buf_count = (kb.key_buf_count + 256 - n) % 256 }

-- `memcmp(key_buf, codes, n) == 0`, from byte `i` on
unfoldable pub buffer_is : (ℕ → ℕ) → (i : ℕ) → List ℕ → Bool
buffer_is buf i [] = true
buffer_is buf i (c ∷ cs) = (buf i == c) && buffer_is buf (i + 1) cs

abbrev pub special : Key → Bool → KeyboardEvent
special k up = record { printable = 0; key = k; released = up }

-- A key that is not printable, by its code without the release bit.
unfoldable pub key_of : ℕ → Key
key_of c =
    if c == 0x01
    then key_escape
    else if c == 0x0E
    then key_backspace
    else if c == 0x0F
    then key_tab
    else if c == 0x1C
    then key_enter
    else if c == 0x1D
    then key_lctrl
    else if c == 0x2A
    then key_lshift
    else if c == 0x36
    then key_rshift
    else key_unknown

-- After 0xE0.
unfoldable pub extended_code : Keyboard → Option Keyboard
extended_code kb =
    let pressed = add_event (drop_codes 4 kb) (special key_printscrn false) in
    let up = add_event (drop_codes 4 kb) (special key_printscrn true) in
    let unknown =
      add_event (drop_codes 2 kb) (special key_unknown (ltb 127 (kb.key_buf 1 % 256))) in
    if ltb 1 kb.key_buf_count
    then (if kb.key_buf 1 == 0x2A
        then (if ltb 3 kb.key_buf_count && buffer_is kb.key_buf 0 (0xE0 ∷ 0x2A ∷ 0xE0 ∷ 0x37 ∷ [])
            then pressed
            else some kb)
        else if kb.key_buf 1 == 0xB7
        then (if ltb 3 kb.key_buf_count && buffer_is kb.key_buf 0 (0xE0 ∷ 0xB7 ∷ 0xE0 ∷ 0xAA ∷ [])
            then up
            else some kb)
        else unknown)
    else some kb

-- After 0xE1: two events, for which there must be room.
abbrev pub pause_events : Keyboard → Option Keyboard
pause_events kb =
    if ltb (kb.event_count + 1) 32
    then some (record kb {
      events =
          put_event (put_event kb.events kb.event_count (special key_pause false))
            (kb.event_count + 1) (special key_pause true);
      event_count = kb.event_count + 2;
    })
    else none

unfoldable pub pause_code : Keyboard → Option Keyboard
pause_code kb =
    if ltb 5 kb.key_buf_count
      && buffer_is kb.key_buf 0 (0xE1 ∷ 0x1D ∷ 0x45 ∷ 0xE1 ∷ 0x9D ∷ 0xC5 ∷ [])
    then pause_events (drop_codes 6 kb)
    else some kb

-- The characters of the codes, 0 for none.
abbrev pub us_qwerty_keyboard : List ℕ
us_qwerty_keyboard =
    0 ∷ 0 ∷ 49 ∷ 50 ∷ 51 ∷ 52 ∷ 53 ∷ 54 ∷ 55 ∷ 56 ∷ 57 ∷ 48 ∷ 45 ∷ 61 ∷ 0 ∷ 0 ∷ 81 ∷ 87 ∷ 69 ∷ 82
    ∷ 84 ∷ 89 ∷ 85 ∷ 73 ∷ 79 ∷ 80 ∷ 91 ∷ 93 ∷ 0 ∷ 0 ∷ 65 ∷ 83 ∷ 68 ∷ 70 ∷ 71 ∷ 72 ∷ 74 ∷ 75 ∷ 76
    ∷ 59 ∷ 39 ∷ 96 ∷ 0 ∷ 92 ∷ 90 ∷ 88 ∷ 67 ∷ 86 ∷ 66 ∷ 78 ∷ 77 ∷ 44 ∷ 46 ∷ 47 ∷ 0 ∷ 42 ∷ 0 ∷ 0 ∷ 0
    ∷ 0 ∷ 0 ∷ 0 ∷ 0 ∷ 0 ∷ 0 ∷ 0 ∷ 0 ∷ 0 ∷ 0 ∷ 0 ∷ 0 ∷ 0 ∷ 0 ∷ 0 ∷ 0 ∷ 0 ∷ 0 ∷ 0 ∷ 0 ∷ 0 ∷ 0 ∷ 0 ∷ 0
    ∷ 0 ∷ 0 ∷ 0 ∷ 0 ∷ 0 ∷ 0 ∷ []

-- The table has 89 entries for 128 codes; past them is `beyond`, what stands behind it.
abbrev pub character : (beyond : ℕ → ℕ) → ℕ → ℕ
character beyond code = get_or us_qwerty_keyboard code (beyond code)

-- A key with a code of one byte.
unfoldable pub plain_code : (beyond : ℕ → ℕ) → Keyboard → Option Keyboard
plain_code beyond kb =
    let code = kb.key_buf 0 % 128 in
    add_event (drop_codes 1 kb) (record {
      printable = character beyond code;
      key = if character beyond code == 0 then key_of code else key_unknown;
      released = ltb 127 (kb.key_buf 0 % 256);
    })

-- The code is read from the port by the caller.
unfoldable pub ps2_handler : (beyond : ℕ → ℕ) → (code : ℕ) → Keyboard → Option Keyboard
ps2_handler beyond code kb0 =
    let kb : Keyboard = record kb0 {
      key_buf = write kb0.key_buf kb0.key_buf_count code;
      key_buf_count = (kb0.key_buf_count + 1) % 256;
    } in
    let extended = extended_code kb in
    let pause = pause_code kb in
    let plain = plain_code beyond kb in
    if kb.key_buf 0 == 0xE0 then extended else if kb.key_buf 0 == 0xE1 then pause else plain
