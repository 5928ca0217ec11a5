-- ===== src/Apic/Redirection.antt =====
-- What `route_irq` of kernel/src/drivers/apic.c writes, by the fields of a redirection entry.
use nyaux.Base.{
  ℕ, ◌+◌, ◌*◌, ◌/◌, ◌%◌, ◌^◌, ◌<◌, ◌≡◌, ◌⊎◌, inl, inr, none, some, ◌==◌, if◌then◌else◌, arith, ap,
  ◌∙◌, Bool-cases, bit_and, bit_or,
}
use nyaux.Bits.{bit_and_low, bit_or_comm, bit_or_fields}
use nyaux.Apic.{Iso, Apic, redirection}

-- The interrupt of a line, and its flags: those of its override, or the line itself.
abbrev pub IsLine : Apic → (irq gsi flags : ℕ) → Type 0
IsLine apic irq gsi flags =
    ((apic.isos irq ≡ none) × (gsi ≡ irq) × (flags ≡ 0))
    ⊎ ((iso : Iso) × (apic.isos irq ≡ some iso) × (gsi ≡ iso.gsi % 256) × (flags ≡ iso.flags))

-- In the flags of an override the bits 0 and 1 are 3 for active low, and the bits 2 and 3 are 3 for level
-- triggered.
abbrev pub active_low : (flags : ℕ) → ℕ
active_low flags = if flags % 4 == 3 then 1 else 0

abbrev pub level_triggered : (flags : ℕ) → ℕ
level_triggered flags = if flags / 4 % 4 == 3 then 1 else 0

-- The low half of an entry: the vector, in bits 0 to 7, bit 13 for active low, bit 15 for level triggered.
abbrev pub low_half : (vec flags : ℕ) → ℕ
low_half vec flags = vec + active_low flags * 8192 + level_triggered flags * 32768

-- The high half: the processor, in bits 24 to 31.
abbrev pub high_half : (lapic_id : ℕ) → ℕ
high_half lapic_id = lapic_id * 16777216

-- A bit above a number.
add_bit : (k x : ℕ) → x < 2 ^ k → bit_or x (2 ^ k) ≡ x + 2 ^ k
add_bit k x low =
    bit_or_comm x (2 ^ k)
    ∙ ap (λ (t : ℕ). bit_or t x) {y = 1 * 2 ^ k} (omega arith)
    ∙ bit_or_fields k 1 x low
    ∙ omega arith

with_polarity : (vec flags : ℕ) → ℕ
with_polarity vec flags = if bit_and flags 3 == 3 then bit_or vec (2 ^ 13) else vec

with_polarity_lem :
    (vec flags : ℕ) → vec < 256 → with_polarity vec flags ≡ vec + active_low flags * 8192
unfolding with_polarity
with_polarity_lem vec flags low = elim (Bool-cases (flags % 4 == 3)) [
  | inl is ↦ rw (bit_and_low 2 flags, is) (add_bit 13 vec (omega arith) ∙ omega arith)
  | inr is_not ↦ rw (bit_and_low 2 flags, is_not) (omega arith)
]

with_trigger : (x flags : ℕ) → ℕ
with_trigger x flags = if bit_and (flags / 4) 3 == 3 then bit_or x (2 ^ 15) else x

with_trigger_lem :
    (x flags : ℕ) → x < 2 ^ 15 → with_trigger x flags ≡ x + level_triggered flags * 32768
unfolding with_trigger
with_trigger_lem x flags low = elim (Bool-cases (flags / 4 % 4 == 3)) [
  | inl is ↦ rw (bit_and_low 2 (flags / 4), is) (add_bit 15 x (omega arith) ∙ omega arith)
  | inr is_not ↦ rw (bit_and_low 2 (flags / 4), is_not) (omega arith)
]

active_low_bit : (flags : ℕ) → active_low flags < 2
active_low_bit flags = ground arith

level_triggered_bit : (flags : ℕ) → level_triggered flags < 2
level_triggered_bit flags = ground arith

redirection_sum :
    (vec flags lapic_id : ℕ)
    → vec < 256
    → lapic_id < 256
    → redirection vec flags lapic_id ≡ lapic_id * 2 ^ 56 + low_half vec flags
unfolding redirection with_polarity with_trigger
redirection_sum vec flags lapic_id vec_low id_low =
    let both : with_trigger (with_polarity vec flags) flags ≡ low_half vec flags =
      ap (λ (x : ℕ). with_trigger x flags) (with_polarity_lem vec flags vec_low)
      ∙ with_trigger_lem (vec + active_low flags * 8192) flags
          (omega (arith, active_low_bit flags)) in
    let id : lapic_id * 2 ^ 56 % 2 ^ 64 ≡ lapic_id * 2 ^ 56 = omega arith in
    ap (λ (x : ℕ). bit_or x (lapic_id * 2 ^ 56 % 2 ^ 64)) both
    ∙ ap (bit_or (low_half vec flags)) id
    ∙ bit_or_comm (low_half vec flags) (lapic_id * 2 ^ 56)
    ∙ bit_or_fields 56 lapic_id (low_half vec flags)
        (omega (arith, active_low_bit flags, level_triggered_bit flags))

pub redirection_low :
    (vec flags lapic_id : ℕ)
    → vec < 256
    → lapic_id < 256
    → redirection vec flags lapic_id % 2 ^ 32 ≡ low_half vec flags
redirection_low vec flags lapic_id vec_low id_low = omega (
  arith,
  redirection_sum vec flags lapic_id vec_low id_low,
  active_low_bit flags,
  level_triggered_bit flags,
)

pub redirection_high :
    (vec flags lapic_id : ℕ)
    → vec < 256
    → lapic_id < 256
    → redirection vec flags lapic_id / 2 ^ 32 % 2 ^ 32 ≡ high_half lapic_id
redirection_high vec flags lapic_id vec_low id_low = omega (
  arith,
  redirection_sum vec flags lapic_id vec_low id_low,
  active_low_bit flags,
  level_triggered_bit flags,
)
