-- ===== src/Word.antt =====
-- Arithmetic of `uint64_t` and `size_t`: a value is a number below 2 ^ 64, and a sum or a
-- difference wraps. Pointers are such values, with NULL as 0.
use nyaux.Base.{ℕ, ◌+◌, ◌-◌, ◌*◌, ◌%◌, ◌^◌, ◌≤◌, ◌<◌, ◌≡◌, arith, ltb, if◌then◌else◌}

abbrev pub word_mod : ℕ
word_mod = 2 ^ 64

abbrev pub add64 : ℕ → ℕ → ℕ
add64 a b = (a + b) % 2 ^ 64

abbrev pub sub64 : ℕ → ℕ → ℕ
sub64 a b = (a + 2 ^ 64 - b) % 2 ^ 64

abbrev pub mul64 : ℕ → ℕ → ℕ
mul64 a b = a * b % 2 ^ 64

-- An `int` as a 64-bit value.
abbrev pub sign_extend : ℕ → ℕ
sign_extend i = if ltb i (2 ^ 31) then i else 2 ^ 64 - 2 ^ 32 + i

pub add64_small : (a b : ℕ) → a + b < word_mod → add64 a b ≡ a + b
add64_small a b h = omega arith

pub sub64_small : (a b : ℕ) → b ≤ a → a < word_mod → sub64 a b ≡ a - b
sub64_small a b h k = omega arith

pub sub64-add64 : (a b : ℕ) → a < word_mod → b < word_mod → sub64 (add64 a b) b ≡ a
sub64-add64 a b h k = omega arith

pub add64-sub64 : (a b : ℕ) → a < word_mod → b < word_mod → add64 (sub64 a b) b ≡ a
add64-sub64 a b h k = omega arith
