-- ===== src/Vmm/Align.antt =====
-- `align_down` and `align_up` of kernel/src/vmm.c.
use native.Mathlib.Nat.{
  pow-suc, one-le-pow, add-zero, mod-eq_of_lt, pow-le-pow_right, mul-mod_left, div-mul-le_self,
  div-add-mod', mod-lt,
}
use nyaux.Base.{ℕ, zero, suc, ◌+◌, ◌-◌, ◌*◌, ◌/◌, ◌%◌, ◌^◌, ◌≤◌, ◌<◌, ◌≡◌, arith, bit_and, ap}
use nyaux.Word.{word_mod, add64, sub64}
use nyaux.Bits.{bit_and_field}

-- `~x` of a `uint64_t`.
abbrev pub not64 : ℕ → ℕ
not64 x = 2 ^ 64 - 1 - x

unfoldable pub align_down : ℕ → ℕ → ℕ
align_down addr page_size = bit_and addr (not64 (sub64 page_size 1))

unfoldable pub align_up : ℕ → ℕ → ℕ
align_up addr page_size = bit_and (add64 addr (sub64 page_size 1)) (not64 (sub64 page_size 1))

pow_split : (j k : ℕ) → 2 ^ (j + k) ≡ 2 ^ j * 2 ^ k
pow_split j zero = rw add-zero (omega arith)
pow_split j (suc k) =
    let e : j + suc k ≡ suc (j + k) = omega arith in
    rw e (
      omega (
        arith,
        pow-suc 2 (j + k),
        pow-suc 2 k,
        pow_split j k,
        ap (λ (t : ℕ). 2 ^ j * t) (pow-suc 2 k),
      ))

-- The mask of a power of two.
mask_product : (p q : ℕ) → 0 < q → suc p * q ≡ word_mod → not64 (sub64 q 1) ≡ p * q
mask_product p q pos whole = let sum : p * q + q ≡ word_mod = omega arith in omega arith

mask_ones : (j k : ℕ) → j + k ≡ 64 → not64 (sub64 (2 ^ k) 1) ≡ (2 ^ j - 1) * 2 ^ k
mask_ones j k e =
    let whole : 2 ^ j * 2 ^ k ≡ word_mod = rw (← pow_split j k, e) in
    let one_more : suc (2 ^ j - 1) ≡ 2 ^ j = omega (arith, one-le-pow j 2) in
    mask_product (2 ^ j - 1) (2 ^ k) (one-le-pow k 2 (omega arith)) (rw one_more whole)

-- The mask rounds down to a multiple.
mask_rounds :
    (j k x : ℕ)
    → j + k ≡ 64
    → x < word_mod
    → bit_and x (not64 (sub64 (2 ^ k) 1)) ≡ x / 2 ^ k * 2 ^ k
mask_rounds j k x e lt =
    let whole : 2 ^ j * 2 ^ k ≡ 2 ^ 64 = rw (← pow_split j k, e) in
    let small : x / 2 ^ k < 2 ^ j = grind arith in
    rw (mask_ones j k e, bit_and_field k j x, mod-eq_of_lt small)

pub align_down_lem :
    (k addr : ℕ) → k ≤ 64 → addr < word_mod → align_down addr (2 ^ k) ≡ addr / 2 ^ k * 2 ^ k
unfolding align_down
align_down_lem k addr h lt = mask_rounds (64 - k) k addr (omega arith) lt

pub align_up_lem :
    (k addr : ℕ)
    → k ≤ 63
    → addr + 2 ^ k ≤ word_mod
    → align_up addr (2 ^ k) ≡ (addr + (2 ^ k - 1)) / 2 ^ k * 2 ^ k
unfolding align_up
align_up_lem k addr h lt =
    let below : 2 ^ k ≤ 2 ^ 63 = pow-le-pow_right (omega arith) h in
    let pos : 1 ≤ 2 ^ k = one-le-pow k 2 (omega arith) in
    let sum : add64 addr (sub64 (2 ^ k) 1) ≡ addr + (2 ^ k - 1) = omega arith in
    rw sum (mask_rounds (64 - k) k (addr + (2 ^ k - 1)) (omega arith) (omega arith))

rounded : (n q : ℕ) → 0 < q → (n / q * q % q ≡ 0) × (n / q * q ≤ n) × (n < n / q * q + q)
rounded n q pos =
    (mul-mod_left (n / q) q, div-mul-le_self n q, omega (arith, div-add-mod' n q, mod-lt n pos))

-- For a page size of 2 ^ k, `align_down` gives the greatest multiple of it that is not above the
-- address.
pub align_down_greatest :
    (k addr : ℕ)
    → k ≤ 64
    → addr < word_mod
    → (align_down addr (2 ^ k) % 2 ^ k ≡ 0)
      × (align_down addr (2 ^ k) ≤ addr)
      × (addr < align_down addr (2 ^ k) + 2 ^ k)
align_down_greatest k addr h lt =
    let pos : 1 ≤ 2 ^ k = one-le-pow k 2 (omega arith) in
    rw (align_down_lem k addr h lt) (rounded _ (2 ^ k) pos)

-- For a page size of 2 ^ k, `align_up` gives the least multiple of it that is not below the
-- address, if rounding up does not leave the address space.
pub align_up_least :
    (k addr : ℕ)
    → k ≤ 63
    → addr + 2 ^ k ≤ word_mod
    → (align_up addr (2 ^ k) % 2 ^ k ≡ 0)
      × (addr ≤ align_up addr (2 ^ k))
      × (align_up addr (2 ^ k) < addr + 2 ^ k)
align_up_least k addr h lt =
    let pos : 1 ≤ 2 ^ k = one-le-pow k 2 (omega arith) in
    let r = rounded (addr + (2 ^ k - 1)) (2 ^ k) pos in
    rw (align_up_lem k addr h lt) (r.0, omega arith, omega arith)
