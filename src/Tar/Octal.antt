-- ===== src/Tar/Octal.antt =====
-- `getsize` of kernel/src/fs/tar.c.
use nyaux.Base.{ℕ, zero, suc, ◌+◌, ◌-◌, ◌*◌, ◌%◌, ◌^◌, ◌≤◌, ◌<◌, ◌≡◌, arith, ◌∙◌}
use nyaux.Machine.{Mem}
use nyaux.Libc.{char, char_diff}
use nyaux.Tar.{add_digits, getsize}

-- The number that the first `n` digits at `at` spell in base 8.
abbrev pub octal : (n at : ℕ) → Mem → ℕ
octal zero at m = 0
octal (suc n) at m = 8 * octal n at m + (m (at + n) - 48)

-- Digits '0' to '7'.
abbrev pub AreOctal : (n at : ℕ) → Mem → Type 0
AreOctal zero at m = Unit
AreOctal (suc n) at m = (48 ≤ m (at + n)) × (m (at + n) < 56) × AreOctal n at m

digit_value : (c : ℕ) → 48 ≤ c → c < 56 → char_diff (char c) 48 ≡ c - 48
digit_value c low high = ground arith

-- One more digit, with the count that the loop has wrapped around.
spread : (count d v : ℕ) → count * (8 * v + d) ≡ 8 * (count * v) + count * d
spread count d v = grind arith

small_count : (count d : ℕ) → 0 < d → count * d < 2 ^ 32 → count < 2 ^ 32
small_count count (suc d) pos fits = omega (arith, fits)
small_count count zero pos fits = absurd (omega arith)

round_sum :
    (size count d v : ℕ)
    → size + count * (8 * v + d) < 2 ^ 32
    → (size + d * (count % 2 ^ 32)) % 2 ^ 32 ≡ size + count * d
round_sum size count zero v fits = omega (arith, spread count 0 v)
round_sum size count (suc d) v fits =
    let small : count % 2 ^ 32 ≡ count =
      omega
        (arith, small_count count (suc d) (omega arith) (omega (arith, spread count (suc d) v))) in
    rw small (omega (arith, spread count (suc d) v))

regroup : (count v : ℕ) → count * 8 * v ≡ 8 * (count * v)
regroup count v = grind arith

pub add_digits_lem :
    (j at size count : ℕ) (m : Mem)
    → AreOctal j at m
    → size + count * octal j at m < 2 ^ 32
    → add_digits j at size (count % 2 ^ 32) m ≡ size + count * octal j at m
unfolding add_digits
add_digits_lem zero at size count m are fits = omega arith
add_digits_lem (suc j) at size count m (low, high, are) fits =
    let d = m (at + j) - 48 in
    let v = octal j at m in
    let wrap : count % 2 ^ 32 * 8 % 2 ^ 32 ≡ count * 8 % 2 ^ 32 = omega arith in
    rw (digit_value (m (at + j)) low high, round_sum size count d v fits, wrap)
      (add_digits_lem j at (size + count * d) (count * 8) m are
          (omega (arith, fits, spread count d v, regroup count v))
        ∙ omega (arith, spread count d v, regroup count v))

-- `getsize` reads a number of 11 octal digits, if it fits in 32 bits.
pub getsize_lem :
    (at : ℕ) (m : Mem) → AreOctal 11 at m → octal 11 at m < 2 ^ 32 → getsize at m ≡ octal 11 at m
unfolding getsize
getsize_lem at m are fits = add_digits_lem 11 at 0 1 m are (omega (arith, fits)) ∙ omega arith
