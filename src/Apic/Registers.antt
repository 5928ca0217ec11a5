-- ===== src/Apic/Registers.antt =====
-- The registers of an I/O APIC (kernel/src/drivers/apic.c), as the writes to its register select and its window
-- leave them.
use nyaux.Base.{
  ℕ, ◌+◌, ◌-◌, ◌*◌, ◌/◌, ◌%◌, ◌^◌, ◌≡◌, ◌≢◌, Bool, false, ◌&&◌, Option, none, some, [], ◌∷◌, ◌==◌,
  if◌then◌else◌, arith, refl, ap, ◌∙◌, ne→==, ==_iff,
}
use nyaux.Word.{add64}
use nyaux.Apic.{Ioapic, Writes, Apic, program}

-- The register that an I/O APIC whose registers stand at `select` and `window` has selected.
abbrev pub selected : (select : ℕ) → Writes → Option ℕ
selected select [] = none
selected select ((a, v) ∷ ws) = if a == select then some v else selected select ws

abbrev pub holds : ℕ → Option ℕ → Bool
holds reg none = false
holds reg (some r) = r == reg

-- What was stored last in one of its registers.
abbrev pub register : (select window reg : ℕ) → Writes → Option ℕ
register select window reg [] = none
register select window reg ((a, v) ∷ ws) =
    let before = register select window reg ws in
    if (a == window) && holds reg (selected select ws) then some v else before

abbrev pub select_of : Apic → Ioapic → ℕ
select_of apic e = add64 e.address apic.hhdm

abbrev pub window_of : Apic → Ioapic → ℕ
window_of apic e = add64 ((e.address + 0x10) % 2 ^ 32) apic.hhdm

-- Two controllers have no register address in common.
abbrev pub AreApart : Apic → Ioapic → Ioapic → Type 0
AreApart apic e f =
    (select_of apic e ≢ select_of apic f)
    × (select_of apic e ≢ window_of apic f)
    × (window_of apic e ≢ select_of apic f)
    × (window_of apic e ≢ window_of apic f)

-- The registers of the entry of an interrupt.
abbrev pub low_register : Ioapic → (gsi : ℕ) → ℕ
low_register e gsi = (0x10 + (gsi - e.gsi_base) * 2) % 2 ^ 8

abbrev pub high_register : Ioapic → (gsi : ℕ) → ℕ
high_register e gsi = (0x10 + (gsi - e.gsi_base) * 2 + 1) % 2 ^ 8

-- Two writes, to the register select and to the window.
register_two :
    (select window reg r v : ℕ) (ws : Writes)
    → select ≢ window
    → register select window reg ((window, v) ∷ (select, r) ∷ ws)
      ≡ (if r == reg then some v else register select window reg ws)
register_two select window reg r v ws apart =
    rw ((==_iff window window).1 refl, (==_iff select select).1 refl, ne→== select window apart)
      refl

register_four :
    (select window reg r1 v1 r2 v2 : ℕ) (ws : Writes)
    → select ≢ window
    → register select window reg ((window, v2) ∷ (select, r2) ∷ (window, v1) ∷ (select, r1) ∷ ws)
      ≡ (if r2 == reg
          then some v2
          else if r1 == reg
          then some v1
          else register select window reg ws)
register_four select window reg r1 v1 r2 v2 ws apart =
    register_two select window reg r2 v2 ((window, v1) ∷ (select, r1) ∷ ws) apart
    ∙ ap (λ (o : Option ℕ). if r2 == reg then some v2 else o)
        (register_two select window reg r1 v1 ws apart)

-- Writes to the registers of another controller.
pub register_elsewhere :
    (select window reg a b v1 v2 v3 v4 : ℕ) (ws : Writes)
    → a ≢ select
    → a ≢ window
    → b ≢ select
    → b ≢ window
    → register select window reg ((b, v4) ∷ (a, v3) ∷ (b, v2) ∷ (a, v1) ∷ ws)
      ≡ register select window reg ws
register_elsewhere select window reg a b v1 v2 v3 v4 ws a_s a_w b_s b_w =
    rw (ne→== a window a_w, ne→== b window b_w) refl

-- The registers after the four writes.
pub register-program :
    (apic : Apic) (e : Ioapic) (gsi meow reg : ℕ)
    → select_of apic e ≢ window_of apic e
    → register (select_of apic e) (window_of apic e) reg (program apic e gsi meow).writes ≡ (
        if high_register e gsi == reg
        then some (meow / 2 ^ 32 % 2 ^ 32)
        else if low_register e gsi == reg
        then some (meow % 2 ^ 32)
        else register (select_of apic e) (window_of apic e) reg apic.writes)
register-program apic e gsi meow reg apart =
    let high : high_register e gsi % 2 ^ 32 ≡ high_register e gsi = omega arith in
    let low : low_register e gsi % 2 ^ 32 ≡ low_register e gsi = omega arith in
    let word : meow % 2 ^ 32 % 2 ^ 32 ≡ meow % 2 ^ 32 = omega arith in
    register_four (select_of apic e) (window_of apic e) reg (low_register e gsi % 2 ^ 32)
      (meow % 2 ^ 32 % 2 ^ 32) (high_register e gsi % 2 ^ 32) (meow / 2 ^ 32 % 2 ^ 32) apic.writes
      apart
    ∙ rw (high, low, word) refl
