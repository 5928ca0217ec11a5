-- ===== src/Keyboard/Layout.antt =====
-- The keys of a US keyboard (kernel/src/drivers/ps2.c: us_qwerty_keyboard and the codes of other keys), described
-- by rows of keys.
use nyaux.Base.{
  ℕ, zero, suc, ◌+◌, ◌-◌, ◌<◌, ◌≡◌, Bool, List, [], ◌∷◌, get_or, ◌==◌, ltb, if◌then◌else◌, length,
  refl, arith,
}
use mathlib.Core.Path.{subst}
use nyaux.Keyboard.{
  Key, key_escape, key_backspace, key_tab, key_enter, key_lctrl, key_lshift, key_rshift,
  key_unknown, KeyboardEvent, key_of, character,
}

-- A US keyboard by its rows: the code of the first key of a row, and the characters on its keys.
abbrev pub rows : List (ℕ × List ℕ)
rows =
    (2, 49 ∷ 50 ∷ 51 ∷ 52 ∷ 53 ∷ 54 ∷ 55 ∷ 56 ∷ 57 ∷ 48 ∷ 45 ∷ 61 ∷ [])
    ∷ (16, 81 ∷ 87 ∷ 69 ∷ 82 ∷ 84 ∷ 89 ∷ 85 ∷ 73 ∷ 79 ∷ 80 ∷ 91 ∷ 93 ∷ [])
    ∷ (30, 65 ∷ 83 ∷ 68 ∷ 70 ∷ 71 ∷ 72 ∷ 74 ∷ 75 ∷ 76 ∷ 59 ∷ 39 ∷ 96 ∷ [])
    ∷ (43, 92 ∷ 90 ∷ 88 ∷ 67 ∷ 86 ∷ 66 ∷ 78 ∷ 77 ∷ 44 ∷ 46 ∷ 47 ∷ [])
    ∷ (55, 42 ∷ [])
    ∷ []

-- Its other keys.
abbrev pub named_keys : List (ℕ × Key)
named_keys =
    (1, key_escape)
    ∷ (14, key_backspace)
    ∷ (15, key_tab)
    ∷ (28, key_enter)
    ∷ (29, key_lctrl)
    ∷ (42, key_lshift)
    ∷ (54, key_rshift)
    ∷ []

-- The character of a code, 0 if it is in no row.
unfoldable pub printed_in : List (ℕ × List ℕ) → (code : ℕ) → ℕ
printed_in [] code = 0
printed_in ((first, row) ∷ more) code =
    if ltb code first
    then 0
    else if ltb code (first + length row)
    then get_or row (code - first) 0
    else printed_in more code

abbrev pub printed : (code : ℕ) → ℕ
printed code = printed_in rows code

unfoldable pub named_in : List (ℕ × Key) → (code : ℕ) → Key
named_in [] code = key_unknown
named_in ((c, k) ∷ more) code = if code == c then k else named_in more code

abbrev pub named : (code : ℕ) → Key
named code = named_in named_keys code

-- The event of the key with a code, which the keyboard adds 128 to when the key goes up.
abbrev pub key_event : (code : ℕ) → (up : Bool) → KeyboardEvent
key_event code up = record { printable = printed code; key = named code; released = up }

-- What the handler takes for a code: the character, and the key if it has none.
abbrev pub taken : (beyond : ℕ → ℕ) → (code : ℕ) → ℕ × Key
taken beyond code =
    (character beyond code, if character beyond code == 0 then key_of code else key_unknown)

-- For `n` codes from `i` on, what is taken and what is on the keyboard.
all_taken : (beyond : ℕ → ℕ) → (n i : ℕ) → List (ℕ × Key)
all_taken beyond zero i = []
all_taken beyond (suc n) i = taken beyond i ∷ all_taken beyond n (i + 1)

all_keys : (n i : ℕ) → List (ℕ × Key)
all_keys zero i = []
all_keys (suc n) i = (printed i, named i) ∷ all_keys n (i + 1)

all_right : (beyond : ℕ → ℕ) → all_taken beyond 89 0 ≡ all_keys 89 0
unfolding all_taken all_keys key_of printed_in named_in
all_right beyond = refl

right_at :
    (beyond : ℕ → ℕ) (n i k : ℕ)
    → all_taken beyond n i ≡ all_keys n i
    → k < n
    → taken beyond (i + k) ≡ (printed (i + k), named (i + k))
unfolding all_taken all_keys
right_at beyond zero i k all low = absurd (omega arith)
right_at beyond (suc n) i zero all low =
    subst (λ (x : ℕ). taken beyond x ≡ (printed x, named x)) {x = i} (omega arith) (cc)
right_at beyond (suc n) i (suc k) all low =
    let rest : all_taken beyond n (i + 1) ≡ all_keys n (i + 1) = cc in
    subst (λ (x : ℕ). taken beyond x ≡ (printed x, named x)) {x = i + 1 + k} (omega arith)
      (right_at beyond n (i + 1) k rest (omega arith))

pub taken_lem :
    (beyond : ℕ → ℕ) (code : ℕ) → code < 89 → taken beyond code ≡ (printed code, named code)
taken_lem beyond code low =
    subst (λ (x : ℕ). taken beyond x ≡ (printed x, named x)) {y = code} (omega arith)
      (right_at beyond 89 0 code (all_right beyond) low)
