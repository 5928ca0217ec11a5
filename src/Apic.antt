-- ===== src/Apic.antt =====
-- The interrupt controllers in kernel/src/drivers/apic.c: the scan of the MADT and `route_irq`. The devices
-- are seen through the 32-bit writes that reach them, the newest first; what a device answers to a read is
-- a parameter that may depend on them. The layout of a MADT entry comes from a header outside the
-- repository, so an entry is a value of `Entry`.
pub mod Redirection
pub mod Registers
pub mod Route
pub mod Scan
pub mod Timer
mod Tests
use nyaux.Base.{
  ℕ, zero, suc, ◌+◌, ◌-◌, ◌*◌, ◌/◌, ◌%◌, ◌^◌, Bool, true, false, ◌&&◌, Option, none, some, List, [],
  ◌∷◌, ◌++◌, length, ◌==◌, ltb, leb, if◌then◌else◌, bit_and, bit_or,
}
use nyaux.Word.{add64}

-- `struct ioapic`, with what `ioapic_info` points to.
pub record Ioapic : Type 0 where
  pub address : ℕ
  pub gsi_base : ℕ
  pub max_gsi : ℕ

-- What `iso` of a `struct iso` points to.
pub record Iso : Type 0 where
  pub gsi : ℕ
  pub flags : ℕ

-- A write of a value to an address, and the writes so far.
abbrev pub Writes : Type 0
Writes = List (ℕ × ℕ)

-- The globals of the file. `ioapics` are the first `ioapiccount` of the array, in its order.
pub record Apic : Type 0 where
  pub hhdm : ℕ
  pub lapic_addr : ℕ
  pub ioapics : List Ioapic
  pub isos : ℕ → Option Iso
  pub writes : Writes

-- A read of an address.
abbrev pub Device : Type 0
Device = Writes → ℕ → ℕ

abbrev pub put32 : Apic → (address value : ℕ) → Apic
put32 apic address value = record apic { writes = (address, value % 2 ^ 32) ∷ apic.writes }

abbrev pub select_ioapic_register : Apic → Ioapic → (ioapic_reg : ℕ) → Apic
select_ioapic_register apic e ioapic_reg =
    put32 apic (add64 e.address apic.hhdm) (ioapic_reg % 2 ^ 8)

abbrev pub write_ioapic_selectedregister : Apic → Ioapic → (value : ℕ) → Apic
write_ioapic_selectedregister apic e value =
    put32 apic (add64 ((e.address + 0x10) % 2 ^ 32) apic.hhdm) value

abbrev pub read_ioapic_selectedregister : Device → Apic → Ioapic → ℕ
read_ioapic_selectedregister device apic e =
    device apic.writes (add64 ((e.address + 0x10) % 2 ^ 32) apic.hhdm) % 2 ^ 32

abbrev pub get_ioapic_maxgsi : Device → Apic → Ioapic → ℕ × Apic
get_ioapic_maxgsi device apic e =
    let selected = select_ioapic_register apic e 1 in
    (read_ioapic_selectedregister device selected e / 2 ^ 16 % 256, selected)

abbrev pub read_lapic_register : Device → Apic → (lapic_base reg_offset : ℕ) → ℕ
read_lapic_register device apic lapic_base reg_offset =
    device apic.writes (add64 ((lapic_base + reg_offset) % 2 ^ 32) apic.hhdm) % 2 ^ 32

abbrev pub write_lapic_register : Apic → (lapic_base reg_offset value : ℕ) → Apic
write_lapic_register apic lapic_base reg_offset value =
    put32 apic (add64 ((lapic_base + reg_offset) % 2 ^ 32) apic.hhdm) value

abbrev pub send_lapic_eoi : Apic → Apic
send_lapic_eoi apic = write_lapic_register apic apic.lapic_addr 0xb0 0

abbrev pub get_lapic_id : Device → Apic → ℕ
get_lapic_id device apic = read_lapic_register device apic apic.lapic_addr 0x20

-- `gsi_base <= gsi && (gsi_base + max_gsi) > gsi`
abbrev pub covers : Ioapic → ℕ → Bool
covers e gsi = leb e.gsi_base gsi && ltb gsi (add64 e.gsi_base e.max_gsi)

-- The loop of `route_irq`, which keeps the last controller that it finds; `he` is the one so far.
unfoldable pub find_ioapic : List Ioapic → (gsi : ℕ) → Option Ioapic → Option Ioapic
find_ioapic [] gsi he = he
find_ioapic (e ∷ es) gsi he = find_ioapic es gsi (if covers e gsi then some e else he)

abbrev pub gsi_of : (irq : ℕ) → Option Iso → ℕ
gsi_of irq none = irq
gsi_of irq (some iso) = iso.gsi % 2 ^ 8

abbrev pub flags_of : Option Iso → ℕ
flags_of none = 0
flags_of (some iso) = iso.flags

-- `meow`: the vector, active low, level triggered, and the processor.
unfoldable pub redirection : (vec flags lapic_id : ℕ) → ℕ
redirection vec flags lapic_id =
    let low = if bit_and flags 3 == 3 then bit_or vec (2 ^ 13) else vec in
    let both = if bit_and (flags / 4) 3 == 3 then bit_or low (2 ^ 15) else low in
    bit_or both (lapic_id * 2 ^ 56 % 2 ^ 64)

-- The four writes.
abbrev pub program : Apic → Ioapic → (gsi meow : ℕ) → Apic
program apic e gsi meow =
    let reg = 0x10 + (gsi - e.gsi_base) * 2 in
    let a1 = select_ioapic_register apic e reg in
    let a2 = write_ioapic_selectedregister a1 e (meow % 2 ^ 32) in
    let a3 = select_ioapic_register a2 e (reg + 1) in
    write_ioapic_selectedregister a3 e (meow / 2 ^ 32)

abbrev pub route_to : Apic → (gsi meow : ℕ) → Option Ioapic → Bool × Apic
route_to apic gsi meow none = (false, apic)
route_to apic gsi meow (some e) = (true, program apic e gsi meow)

unfoldable pub route_irq : Apic → (irq lapic_id vec : ℕ) → Bool × Apic
unfolding find_ioapic redirection
route_irq apic irq lapic_id vec =
    let gsi = gsi_of irq (apic.isos irq) in
    route_to apic gsi (redirection vec (flags_of (apic.isos irq)) lapic_id)
      (find_ioapic apic.ioapics gsi none)

-- An entry of the MADT.
pub data Entry : Type 0 where
  interrupt_source_override : (source gsi flags : ℕ) → Entry
  ioapic : (address gsi_base : ℕ) → Entry
  other_entry : Entry

-- The body of the loop of `apic_init`. The source does not test that `ioapics`, of 16 elements, has room: `none`,
-- the store is past the array.
unfoldable pub read_entry : Device → Apic → Entry → Option Apic
read_entry device apic (interrupt_source_override source gsi flags) = some (record apic {
  isos = λ k. if k == source then some (record { gsi = gsi; flags = flags }) else apic.isos k;
})
read_entry device apic (ioapic address gsi_base) =
    let found =
      get_ioapic_maxgsi device apic
        (record { address = address; gsi_base = gsi_base; max_gsi = 0 }) in
    if ltb (length apic.ioapics) 16
    then some (record found.1 {
      ioapics =
          apic.ioapics
          ++ (record { address = address; gsi_base = gsi_base; max_gsi = found.0 } ∷ []);
    })
    else none
read_entry device apic other_entry = some apic

-- The loop over the entries, which `entry` gives with their lengths by their offsets. An entry of length
-- 0 is read for ever: `none`.
unfoldable pub scan_madt :
    (fuel : ℕ)
    → Device
    → (entry : ℕ → Entry × ℕ) → (length_of_entries : ℕ) → (offset : ℕ) → Apic
    → Option Apic
unfolding read_entry
scan_madt zero device entry length_of_entries offset apic = none
scan_madt (suc fuel) device entry length_of_entries offset apic =
    let rest : Option Apic = elim (read_entry device apic (entry offset).0) [
      | some read ↦
          scan_madt fuel device entry length_of_entries (add64 offset (entry offset).1) read
      | none ↦ none
    ] in
    if ltb offset length_of_entries then rest else some apic
