-- ===== src/Bits.antt =====
-- Laws of `&` and `|` with the masks that the kernel uses, at every width.
mod Digit
use Digit.{bit_and_halves, bit_or_halves}
use native.Mathlib.Nat.{pow-suc, one-le-pow}
use nyaux.Base.{
  ℕ, zero, suc, ◌+◌, ◌-◌, ◌*◌, ◌/◌, ◌%◌, ◌^◌, ◌≤◌, ◌<◌, ◌≡◌, refl, arith, bit_and, bit_or, ap, sym,
  ◌∙◌,
}

bit_or-zero_fuel : (n x : ℕ) → x ≤ n → bit_or x 0 ≡ x
bit_or-zero_fuel n zero h = refl
bit_or-zero_fuel zero (suc x) h = absurd (omega arith)
bit_or-zero_fuel (suc n) (suc x) h =
    omega (arith, bit_or_halves (suc x) 0, bit_or-zero_fuel n (suc x / 2) (omega arith))

pub bit_or-zero : (x : ℕ) → bit_or x 0 ≡ x
bit_or-zero x = bit_or-zero_fuel x x (omega arith)

bit_and-zero_fuel : (n x : ℕ) → x ≤ n → bit_and x 0 ≡ 0
bit_and-zero_fuel n zero h = refl
bit_and-zero_fuel zero (suc x) h = absurd (omega arith)
bit_and-zero_fuel (suc n) (suc x) h =
    omega (arith, bit_and_halves (suc x) 0, bit_and-zero_fuel n (suc x / 2) (omega arith))

pub bit_and-zero : (x : ℕ) → bit_and x 0 ≡ 0
bit_and-zero x = bit_and-zero_fuel x x (omega arith)

double : (q k : ℕ) → q * 2 ^ suc k ≡ 2 * (q * 2 ^ k)
double q k = omega (arith, ap (λ (t : ℕ). q * t) (pow-suc 2 k))

bit_and_remainder : (w q r : ℕ) → r < 2 ^ w → bit_and (q * 2 ^ w + r) (2 ^ w - 1) ≡ r
bit_and_remainder zero q r h = rw bit_and-zero (omega arith)
bit_and_remainder (suc w) q r h = ground (
  arith,
  bit_and_halves (q * 2 ^ suc w + r) (2 ^ suc w - 1),
  double q w,
  pow-suc 2 w,
  bit_and_remainder w q (r / 2) (omega arith),
)

-- `x & ((1 << w) - 1)` is a remainder.
pub bit_and_low : (w x : ℕ) → bit_and x (2 ^ w - 1) ≡ x % 2 ^ w
bit_and_low w x = ground (arith, one-le-pow w 2, bit_and_remainder w (x / 2 ^ w) (x % 2 ^ w))

-- A mask with `k` low zeros takes the bits above them.
bit_and_shifted :
    (k v r m : ℕ) → r < 2 ^ k → bit_and (v * 2 ^ k + r) (m * 2 ^ k) ≡ bit_and v m * 2 ^ k
bit_and_shifted zero v r m h = let z : r ≡ 0 = omega arith in rw z (ground arith)
bit_and_shifted (suc k) v r m h = ground (
  arith,
  bit_and_halves (v * 2 ^ suc k + r) (m * 2 ^ suc k),
  double v k,
  double m k,
  double (bit_and v m) k,
  pow-suc 2 k,
  bit_and_shifted k v (r / 2) m (omega arith),
)

pub bit_and_high : (k x m : ℕ) → bit_and x (m * 2 ^ k) ≡ bit_and (x / 2 ^ k) m * 2 ^ k
bit_and_high k x m = ground (arith, one-le-pow k 2, bit_and_shifted k (x / 2 ^ k) (x % 2 ^ k) m)

-- A mask of `w` ones above `k` zeros.
pub bit_and_field : (k w x : ℕ) → bit_and x ((2 ^ w - 1) * 2 ^ k) ≡ x / 2 ^ k % 2 ^ w * 2 ^ k
bit_and_field k w x =
    bit_and_high k x (2 ^ w - 1) ∙ ap (λ (t : ℕ). t * 2 ^ k) (bit_and_low w (x / 2 ^ k))

-- Disjoint fields are joined by a sum.
pub bit_or_fields : (k q r : ℕ) → r < 2 ^ k → bit_or (q * 2 ^ k) r ≡ q * 2 ^ k + r
bit_or_fields zero q r h = let z : r ≡ 0 = omega arith in rw (z, bit_or-zero) (omega arith)
bit_or_fields (suc k) q r h =
    ground
      (arith, bit_or_halves (q * 2 ^ suc k) r, double q k, bit_or_fields k q (r / 2) (omega arith))

bit_or-zero_left : (n y : ℕ) → y ≤ n → bit_or 0 y ≡ y
bit_or-zero_left n zero h = refl
bit_or-zero_left zero (suc y) h = absurd (omega arith)
bit_or-zero_left (suc n) (suc y) h =
    ground (arith, bit_or_halves 0 (suc y), bit_or-zero_left n (suc y / 2) (omega arith))

bit_or_comm_fuel : (n x y : ℕ) → x ≤ n → bit_or x y ≡ bit_or y x
bit_or_comm_fuel n zero y p = rw bit_or-zero (bit_or-zero_left y y (omega arith))
bit_or_comm_fuel zero (suc x) y p = absurd (omega arith)
bit_or_comm_fuel (suc n) (suc x) y p = ground (
  arith,
  bit_or_halves (suc x) y,
  bit_or_halves y (suc x),
  bit_or_comm_fuel n (suc x / 2) (y / 2) (omega arith),
)

pub bit_or_comm : (x y : ℕ) → bit_or x y ≡ bit_or y x
bit_or_comm x y = bit_or_comm_fuel x x y (omega arith)

-- `&` distributes over `|`.
bit_and-bit_or_fuel :
    (n x y m : ℕ) → m ≤ n → bit_and (bit_or x y) m ≡ bit_or (bit_and x m) (bit_and y m)
bit_and-bit_or_fuel n x y zero p = simp bit_and-zero
bit_and-bit_or_fuel zero x y (suc m) p = absurd (omega arith)
bit_and-bit_or_fuel (suc n) x y (suc m) p = ground (
  arith,
  bit_and_halves (bit_or x y) (suc m),
  bit_or_halves x y,
  bit_and_halves x (suc m),
  bit_and_halves y (suc m),
  bit_or_halves (bit_and x (suc m)) (bit_and y (suc m)),
  bit_and-bit_or_fuel n (x / 2) (y / 2) (suc m / 2) (omega arith),
)

pub bit_and-bit_or : (x y m : ℕ) → bit_and (bit_or x y) m ≡ bit_or (bit_and x m) (bit_and y m)
bit_and-bit_or x y m = bit_and-bit_or_fuel m x y m (omega arith)
