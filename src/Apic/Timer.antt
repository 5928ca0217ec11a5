-- ===== src/Apic/Timer.antt =====
-- The timer in kernel/src/drivers/apic.c: `ksleep`, and the end of `apic_init`, which measures the timer of the
-- local controller against the HPET. Reads of the main counter are a function of how often it was read.
pub mod Sleep
use nyaux.Base.{
  ℕ, zero, suc, ◌+◌, ◌-◌, ◌*◌, ◌/◌, ◌%◌, ◌^◌, Option, none, some, List, [], ◌∷◌, ◌==◌, ltb, not,
  if◌then◌else◌, bit_and, bit_or,
}
use nyaux.Word.{add64, sub64, mul64}
use nyaux.Apic.{Apic, Device, put32, read_lapic_register, write_lapic_register}

-- The loop of `ksleep` from read `n` on: the read at which it ends.
unfoldable pub poll : (ℕ → ℕ) → (fuel n poll_start time_per_tick_hpet ms : ℕ) → Option ℕ
poll counter zero n poll_start time_per_tick_hpet ms = none
poll counter (suc fuel) n poll_start time_per_tick_hpet ms =
    let rest = poll counter fuel (n + 1) poll_start time_per_tick_hpet ms in
    if ltb (mul64 (sub64 (counter n) poll_start) time_per_tick_hpet) (mul64 ms 1000000)
    then rest
    else some n

unfoldable pub ksleep : (ℕ → ℕ) → (fuel time_per_tick_hpet ms : ℕ) → Option ℕ
ksleep counter fuel time_per_tick_hpet ms = poll counter fuel 1 (counter 0) time_per_tick_hpet ms

-- The address in the HPET table, and the kind of it.
pub record Hpet : Type 0 where
  pub address_space_id : ℕ
  pub address : ℕ

-- How `apic_init` ends: it gives up, `ksleep` does not end, or the timer runs, with the two globals that it
-- sets (the second one is a local of the same name).
pub data Timer : Type 0 where
  gives_up : Timer
  waits : Timer
  runs : Apic → (time_per_tick_hpet lapic_ticks_per_10ms : ℕ) → Timer

-- `write_lapic_register(lapic_addr, ...)`
abbrev pub lapic : Apic → (reg_offset value : ℕ) → Apic
lapic apic reg_offset value = write_lapic_register apic apic.lapic_addr reg_offset value

-- The local controller is enabled; its timer is masked.
unfoldable pub enable_lapic : Apic → Apic
enable_lapic apic =
    let enabled = lapic apic 0xf0 (bit_or 0x100 33) in
    let divided = lapic enabled 0x3e0 1 in lapic divided 0x320 (bit_or 34 (2 ^ 16))

-- `if (config_reg & 1)`, else the counter is enabled.
abbrev pub run_hpet : Device → (hpet_base : ℕ) → Apic → Apic
run_hpet device hpet_base apic =
    let at = add64 (add64 hpet_base apic.hhdm) 0x010 in
    if bit_and (device apic.writes at) 1 == 0 then put32 apic at 1 else apic

-- The period in the upper half of the first register, in nanoseconds.
abbrev pub time_per_tick : Device → (hpet_base : ℕ) → Apic → ℕ
time_per_tick device hpet_base apic =
    device apic.writes (add64 hpet_base apic.hhdm) / 2 ^ 32 % 2 ^ 32 / 1000000

-- Ten milliseconds pass, and the timer is started with the ticks that they took.
unfoldable pub start_timer : Device → (ℕ → ℕ) → (fuel per_tick : ℕ) → Apic → Timer
start_timer device counter fuel per_tick apic =
    let counting = lapic apic 0x380 0xffffffff in
    let left = read_lapic_register device counting counting.lapic_addr 0x390 in
    let ticks = 0xffffffff - left in
    let periodic = lapic (lapic counting 0x380 ticks) 0x320 (bit_or 32 (2 ^ 17)) in
    elim (ksleep counter fuel per_tick 10) [ none ↦ waits | some n ↦ runs periodic per_tick ticks ]

-- From the enabling of the local controller on. `acpi_as_id_sys_mem` is a constant of the ACPI library, and
-- `hpet` what it finds.
unfoldable pub init_timer :
    (acpi_as_id_sys_mem : ℕ) → Device → (ℕ → ℕ) → (fuel : ℕ) → Option Hpet → Apic → Timer
init_timer acpi_as_id_sys_mem device counter fuel none apic = gives_up
init_timer acpi_as_id_sys_mem device counter fuel (some hpet) apic =
    let enabled = enable_lapic apic in
    let counted = run_hpet device hpet.address enabled in
    let capable = bit_and (device enabled.writes (add64 hpet.address apic.hhdm)) (2 ^ 13) in
    let started =
      start_timer device counter fuel (time_per_tick device hpet.address counted) counted in
    if not (hpet.address_space_id == acpi_as_id_sys_mem)
    then gives_up
    else if capable == 0
    then gives_up
    else started
