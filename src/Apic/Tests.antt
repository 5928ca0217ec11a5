-- ===== src/Apic/Tests.antt =====
-- Two controllers, a MADT with an override and one of them, and a clock.
use nyaux.Base.{
  ℕ, List, ◌+◌, ◌*◌, ◌<◌, ◌≤◌, ◌≡◌, ◌^◌, none, some, [], ◌∷◌, ◌==◌, if◌then◌else◌, arith, refl,
}
use nyaux.Apic.{Apic, Device, Entry, interrupt_source_override, ioapic, other_entry, scan_madt}
use nyaux.Apic.Timer.{ksleep}
use nyaux.Apic.Timer.Sleep.{Counts, elapsed, ksleep_lem}
use nyaux.Apic.Scan.{scanned, scan_madt_lem}

-- Line 0 is interrupt 2, active low and level triggered.
abbrev two_ioapics : Apic
two_ioapics = record {
  hhdm = 2 ^ 40;
  lapic_addr = 0xfee00000;
  ioapics =
      record { address = 0xfec00000; gsi_base = 0; max_gsi = 23 }
      ∷ record { address = 0xfec01000; gsi_base = 24; max_gsi = 23 }
      ∷ [];
  isos = λ k. if k == 0 then some (record { gsi = 2; flags = 15 }) else none;
  writes = [];
}

abbrev no_ioapics : Apic
no_ioapics = record { hhdm = 2 ^ 40; lapic_addr = 0; ioapics = []; isos = λ k. none; writes = [] }

-- A controller with 24 lines.
abbrev device : Device
device ws a = 0x170011

abbrev madt : ℕ → Entry × ℕ
madt offset =
    if offset == 0
    then (interrupt_source_override 0 2 0, 10)
    else if offset == 10
    then (ioapic 0xfec00000 0, 12)
    else (other_entry, 0)

abbrev madt_entries : List (Entry × ℕ)
madt_entries = (interrupt_source_override 0 2 0, 10) ∷ (ioapic 0xfec00000 0, 12) ∷ []

scan_madt_lem_example :
    scan_madt 3 device madt 22 0 no_ioapics ≡ some (scanned device no_ioapics madt_entries)
scan_madt_lem_example =
    scan_madt_lem 3 device madt 22 0 no_ioapics madt_entries (omega arith)
      (
        omega arith,
        refl,
        omega arith,
        omega arith,
        (omega arith, refl, omega arith, omega arith, omega arith),
      )
      (omega arith) (omega arith)

-- The counter goes up by 1000 between two reads, and a tick is 10 nanoseconds.
abbrev clock : ℕ → ℕ
clock n = 50 + 1000 * n

clock-Counts : Counts clock 10 (10 * 1000000 + 1)
clock-Counts = record {
  ticks = omega arith;
  advances = λ n. omega arith;
  no_wrap = λ n low. omega arith;
}

ksleep_lem_example :
    (k : ℕ) × (ksleep clock 20000000 10 10 ≡ some k)
    × (k ≤ 10 * 1000000 + 1)
    × (10 * 1000000 ≤ elapsed clock 10 k)
    × ((j : ℕ) → 1 ≤ j → j < k → elapsed clock 10 j < 10 * 1000000)
ksleep_lem_example = ksleep_lem clock 20000000 10 10 clock-Counts (omega arith) (omega arith)
