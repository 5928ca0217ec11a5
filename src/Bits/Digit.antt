-- ===== src/Bits/Digit.antt =====
-- The lowest binary digit of `&` and `|`, and of their halves.
use Prim.Native.Nat.{digits, bitwise, bit_and-bitwise, bit_or-bitwise}
use nyaux.Base.{ℕ, zero, suc, ◌+◌, ◌*◌, ◌/◌, ◌%◌, ◌≤◌, ◌≡◌, refl, arith, bit_and, bit_or, min, max}

module _ (rest : ℕ → ℕ) (op : ℕ → ℕ → ℕ) where
  -- Any fuel from the first operand on gives the same digits.
  digits_enough : (k l x y : ℕ) → x ≤ k → x ≤ l → digits rest op k x y ≡ digits rest op l x y
  digits_enough zero zero x y p q = refl
  digits_enough zero (suc l) zero y p q = refl
  digits_enough zero (suc l) (suc x) y p q = absurd (omega arith)
  digits_enough (suc k) zero zero y p q = refl
  digits_enough (suc k) zero (suc x) y p q = absurd (omega arith)
  digits_enough (suc k) (suc l) zero y p q = refl
  digits_enough (suc k) (suc l) (suc x) y p q =
      rw (digits_enough k l (suc x / 2) (y / 2) (omega arith) (omega arith))

  bitwise_halves :
      (x y : ℕ)
      → bitwise rest op (suc x) y ≡ bitwise rest op (suc x / 2) (y / 2) * 2 + op (suc x % 2) (y % 2)
  bitwise_halves x y =
      omega (arith, digits_enough x (suc x / 2) (suc x / 2) (y / 2) (omega arith) (omega arith))

pub bit_and_halves : (x y : ℕ) → bit_and x y ≡ bit_and (x / 2) (y / 2) * 2 + min (x % 2) (y % 2)
bit_and_halves zero y = simp bit_and-bitwise (omega arith)
bit_and_halves (suc x) y = simp bit_and-bitwise (bitwise_halves (λ _. 0) min x y)

pub bit_or_halves : (x y : ℕ) → bit_or x y ≡ bit_or (x / 2) (y / 2) * 2 + max (x % 2) (y % 2)
bit_or_halves zero y = simp bit_or-bitwise (omega arith)
bit_or_halves (suc x) y = simp bit_or-bitwise (bitwise_halves (λ d. d) max x y)
