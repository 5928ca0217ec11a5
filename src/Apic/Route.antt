-- ===== src/Apic/Route.antt =====
-- `route_irq` of kernel/src/drivers/apic.c, seen from the I/O APIC.
use nyaux.Base.{
  ℕ, ◌+◌, ◌^◌, ◌≤◌, ◌<◌, ◌≡◌, ◌≢◌, Bool, true, false, Option, some, List, All, get_elem?,
}
use nyaux.Apic.Registers.{AreApart, register, select_of, window_of, low_register, high_register}
use nyaux.Apic.{Ioapic, Apic, covers}

-- What the loop over the controllers finds.
data Find (es : List Ioapic) (gsi : ℕ) (he r : Option Ioapic) : Type 0 where
  nothing : All (λ (e : Ioapic). covers e gsi ≡ false) es → r ≡ he → Find es gsi he r
  something :
      (e : Ioapic) (i : ℕ)
      → get_elem? es i ≡ some e
      → covers e gsi ≡ true
      → r ≡ some e
      → Find es gsi he r

-- The interrupts of a controller.
abbrev pub InRange : Ioapic → (gsi : ℕ) → Type 0
InRange e gsi = (e.gsi_base ≤ gsi) × (gsi < e.gsi_base + e.max_gsi)

-- A controller whose window is below 2 ^ 32, and whose interrupts are numbered without wrapping.
abbrev pub IsPlaced : Ioapic → Type 0
IsPlaced e = (e.address + 16 < 2 ^ 32) × (e.gsi_base + e.max_gsi < 2 ^ 64)

-- How an interrupt is routed: no controller has it, and nothing is written; or one does, whose two registers
-- for it then hold `low` and `high`, while its other registers and all registers of controllers at other
-- addresses hold what they held, and the tables are as before.
pub data Routes (apic : Apic) (gsi low high : ℕ) (r : Bool × Apic) : Type 0 where
  no_controller :
      All (λ (e : Ioapic). ¬ (InRange e gsi)) apic.ioapics
      → r ≡ (false, apic)
      → Routes apic gsi low high r
  controller :
      (e : Ioapic) (i : ℕ)
      → get_elem? apic.ioapics i ≡ some e
      → InRange e gsi
      → r.0 ≡ true
      → register (select_of apic e) (window_of apic e) (low_register e gsi) r.1.writes ≡ some low
      → register (select_of apic e) (window_of apic e) (high_register e gsi) r.1.writes ≡ some high
      → ((reg : ℕ)
          → reg ≢ low_register e gsi
          → reg ≢ high_register e gsi
          → register (select_of apic e) (window_of apic e) reg r.1.writes
            ≡ register (select_of apic e) (window_of apic e) reg apic.writes)
      → ((f : Ioapic) (reg : ℕ)
          → AreApart apic e f
          → register (select_of apic f) (window_of apic f) reg r.1.writes
            ≡ register (select_of apic f) (window_of apic f) reg apic.writes)
      → r.1 ≡ record apic { writes = r.1.writes }
      → Routes apic gsi low high r
