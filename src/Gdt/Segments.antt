-- ===== src/Gdt/Segments.antt =====
-- What the processor reads in the descriptors of kernel/src/gdt.c.
use nyaux.Base.{ℕ, ◌+◌, ◌-◌, ◌*◌, ◌/◌, ◌%◌, ◌^◌, ◌<◌, ◌≡◌, refl, arith, bit_and, bit_or, ◌∙◌, ap}
use nyaux.Word.{word_mod}
use nyaux.Bits.{bit_and_low, bit_and_field, bit_and-bit_or, bit_or-zero, bit_or_fields}
use nyaux.Gdt.{tss_size, tss_low, tss_high}

-- Bits `k` to `k + w - 1`.
abbrev pub field : (k w d : ℕ) → ℕ
field k w d = bit_and d ((2 ^ w - 1) * 2 ^ k) / 2 ^ k

-- The base address of a system descriptor of two words.
abbrev pub base_of : (low high : ℕ) → ℕ
base_of low high =
    field 16 16 low + field 32 8 low * 2 ^ 16 + field 56 8 low * 2 ^ 24 + high % 2 ^ 32 * 2 ^ 32

-- The parts of the lower half.
field_or :
    (k w a b : ℕ)
    → bit_and (bit_or a b) ((2 ^ w - 1) * 2 ^ k)
      ≡ bit_or (bit_and a ((2 ^ w - 1) * 2 ^ k)) (bit_and b ((2 ^ w - 1) * 2 ^ k))
field_or k w a b = bit_and-bit_or a b ((2 ^ w - 1) * 2 ^ k)

module _ (ts : ℕ) where
  low_part : bit_and ts 0xFFFF ≡ ts % 2 ^ 16
  low_part = bit_and_low 16 ts

  mid_part : bit_and (ts / 2 ^ 16) 0xFF ≡ ts / 2 ^ 16 % 2 ^ 8
  mid_part = bit_and_low 8 (ts / 2 ^ 16)

  high_part : bit_and (ts / 2 ^ 24) 0xFF ≡ ts / 2 ^ 24 % 2 ^ 8
  high_part = bit_and_low 8 (ts / 2 ^ 24)

  -- The constant bits, and the three parts of the address, behind a mask.
  masked :
      (k w : ℕ)
      → bit_and (tss_low ts) ((2 ^ w - 1) * 2 ^ k)
        ≡ bit_or
            (bit_or
              (bit_or
                (bit_and 0x89000000005C ((2 ^ w - 1) * 2 ^ k))
                (ts % 2 ^ 16 * 2 ^ 16 / 2 ^ k % 2 ^ w * 2 ^ k))
              (ts / 2 ^ 16 % 2 ^ 8 * 2 ^ 32 / 2 ^ k % 2 ^ w * 2 ^ k))
            (ts / 2 ^ 24 % 2 ^ 8 * 2 ^ 56 / 2 ^ k % 2 ^ w * 2 ^ k)
  unfolding tss_low
  masked k w =
      rw (low_part, mid_part, high_part)
        (rw (field_or, field_or, field_or)
          (rw
            (
              bit_and_field k w (ts % 2 ^ 16 * 2 ^ 16),
              bit_and_field k w (ts / 2 ^ 16 % 2 ^ 8 * 2 ^ 32),
              bit_and_field k w (ts / 2 ^ 24 % 2 ^ 8 * 2 ^ 56),
            )
            refl))

join :
    (a b c d o p q r : ℕ)
    → a ≡ o
    → b ≡ p
    → c ≡ q
    → d ≡ r
    → bit_or (bit_or (bit_or a b) c) d ≡ bit_or (bit_or (bit_or o p) q) r
join a b c d o p q r ea eb ec ed = rw (ea, eb, ec, ed)

zero_or : (p : ℕ) → p < 2 ^ 64 → bit_or 0 p ≡ p
zero_or p low = bit_or_fields 64 0 p low ∙ omega arith

first_only : (p : ℕ) → p < 2 ^ 64 → bit_or (bit_or (bit_or 0 p) 0) 0 ≡ p
first_only p low = rw (bit_or-zero, bit_or-zero) (zero_or p low)

second_only : (p : ℕ) → p < 2 ^ 64 → bit_or (bit_or (bit_or 0 0) p) 0 ≡ p
second_only p low = rw (bit_or-zero, bit_or-zero) (zero_or p low)

third_only : (p : ℕ) → p < 2 ^ 64 → bit_or (bit_or (bit_or 0 0) 0) p ≡ p
third_only p low = rw (bit_or-zero, bit_or-zero) (zero_or p low)

-- The processor reads in the descriptor of the task state segment its address, whatever it is, the type of an
-- available 64-bit segment (9), that it is present, and 92 for its limit.
pub base_of-tss :
    (ts : ℕ)
    → ts < word_mod
    → (base_of (tss_low ts) (tss_high ts) ≡ ts)
      × (field 40 4 (tss_low ts) ≡ 9)
      × (field 47 1 (tss_low ts) ≡ 1)
      × (field 0 16 (tss_low ts) ≡ tss_size)
base_of-tss ts low =
    let low_address : bit_and (tss_low ts) ((2 ^ 16 - 1) * 2 ^ 16) ≡ ts % 2 ^ 16 * 2 ^ 16 =
      masked ts 16 16
      ∙ join _ _ _ _ 0 (ts % 2 ^ 16 * 2 ^ 16) 0 0 refl (omega arith) (omega arith) (omega arith)
      ∙ first_only (ts % 2 ^ 16 * 2 ^ 16) (omega arith) in
    let mid_address : bit_and (tss_low ts) ((2 ^ 8 - 1) * 2 ^ 32) ≡ ts / 2 ^ 16 % 2 ^ 8 * 2 ^ 32 =
      masked ts 32 8
      ∙ join _ _ _ _ 0 0 (ts / 2 ^ 16 % 2 ^ 8 * 2 ^ 32) 0 refl (omega arith) (omega arith)
          (omega arith)
      ∙ second_only (ts / 2 ^ 16 % 2 ^ 8 * 2 ^ 32) (omega arith) in
    let high_address : bit_and (tss_low ts) ((2 ^ 8 - 1) * 2 ^ 56) ≡ ts / 2 ^ 24 % 2 ^ 8 * 2 ^ 56 =
      masked ts 56 8
      ∙ join _ _ _ _ 0 0 0 (ts / 2 ^ 24 % 2 ^ 8 * 2 ^ 56) refl (omega arith) (omega arith)
          (omega arith)
      ∙ third_only (ts / 2 ^ 24 % 2 ^ 8 * 2 ^ 56) (omega arith) in
    let constant = λ (k w : ℕ) (b c d : ℕ) (eb : b ≡ 0) (ec : c ≡ 0) (ed : d ≡ 0).
      join (bit_and 0x89000000005C ((2 ^ w - 1) * 2 ^ k)) b c d
        (bit_and 0x89000000005C ((2 ^ w - 1) * 2 ^ k)) 0 0 0 refl eb ec ed
      ∙ bit_or-zero _
      ∙ bit_or-zero _
      ∙ bit_or-zero _ in
    (
      omega (arith, low_address, mid_address, high_address),
      ap (λ d. d / 2 ^ 40)
          (masked ts 40 4 ∙ constant 40 4 _ _ _ (omega arith) (omega arith) (omega arith)),
      ap (λ d. d / 2 ^ 47)
          (masked ts 47 1 ∙ constant 47 1 _ _ _ (omega arith) (omega arith) (omega arith)),
      ap (λ d. d / 2 ^ 0)
          (masked ts 0 16 ∙ constant 0 16 _ _ _ (omega arith) (omega arith) (omega arith)),
    )
