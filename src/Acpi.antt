-- ===== src/Acpi.antt =====
-- The callbacks of kernel/src/ACPI/uacpi.c that reach memory and ports for the ACPI interpreter, which is
-- outside the repository. An access to a port is a value; what a port read gives is not part of it.
pub mod Widths
pub mod Ports
pub mod Callbacks
mod Tests
use nyaux.Base.{
  ℕ, zero, suc, ◌+◌, ◌-◌, ◌*◌, ◌/◌, ◌%◌, ◌^◌, Bool, true, false, ◌&&◌, not, Option, none, some,
  ◌==◌, ltb, leb, if◌then◌else◌,
}
use nyaux.Word.{add64}
use nyaux.Machine.{Mem, write}

-- The values of `uacpi_status` that the file returns.
pub data Status : Type 0 where
  ok invalid_argument unimplemented : Status

-- `n` bytes at `a`, the lowest first.
unfoldable pub load : (n a : ℕ) → Mem → ℕ
load zero a m = 0
load (suc n) a m = m a + 256 * load n (a + 1) m

unfoldable pub store : (n a value : ℕ) → Mem → Mem
store zero a value m = m
store (suc n) a value m = store n (a + 1) (value / 256) (write m a (value % 256))

-- The status and `*out_value`, if it is set.
unfoldable pub uacpi_kernel_raw_memory_read :
    (hhdm address byte_width : ℕ) → Mem → Status × Option ℕ
unfolding load
uacpi_kernel_raw_memory_read hhdm address byte_width m =
    let virt = add64 address hhdm in
    if byte_width == 1
    then (ok, some (load 1 virt m))
    else if byte_width == 2
    then (ok, some (load 2 virt m))
    else if byte_width == 4
    then (ok, some (load 4 virt m))
    else if byte_width == 8
    then (ok, some (load 8 virt m))
    else (invalid_argument, none)

unfoldable pub uacpi_kernel_raw_memory_write :
    (hhdm address byte_width in_value : ℕ) → Mem → Status × Mem
unfolding store
uacpi_kernel_raw_memory_write hhdm address byte_width in_value m =
    let virt = add64 address hhdm in
    if byte_width == 1
    then (ok, store 1 virt in_value m)
    else if byte_width == 2
    then (ok, store 2 virt in_value m)
    else if byte_width == 4
    then (ok, store 4 virt in_value m)
    else if byte_width == 8
    then (ok, store 8 virt in_value m)
    else (invalid_argument, m)

-- `__builtin_ctzll`, for a number below 2 ^ `n`; it is not defined for 0.
unfoldable pub count_zeros : (n num : ℕ) → ℕ
count_zeros zero num = 0
count_zeros (suc n) num = let rest = count_zeros n (num / 2) in if num % 2 == 1 then 0 else suc rest

-- `isPower2` of a byte that is not 0: its lowest bit is cleared.
unfoldable pub is_power2 : (num : ℕ) → Bool
unfolding count_zeros
is_power2 num = num - 2 ^ count_zeros 8 num == 0

-- An access to a port.
pub data Access : Type 0 where
  reads : (address width : ℕ) → Access
  writes : (address width value : ℕ) → Access

-- The status and the access, if there is one. A port number has 16 bits.
unfoldable pub uacpi_kernel_raw_io_read : (address byte_width : ℕ) → Status × Option Access
unfolding is_power2
uacpi_kernel_raw_io_read address byte_width =
    let at = address % 2 ^ 16 in
    if not (is_power2 byte_width)
    then (invalid_argument, none)
    else if ltb 8 byte_width
    then (invalid_argument, none)
    else if byte_width == 1
    then (ok, some (reads at 1))
    else if byte_width == 2
    then (ok, some (reads at 2))
    else if byte_width == 4
    then (ok, some (reads at 4))
    else if byte_width == 8
    then (invalid_argument, none)
    else (ok, none)

unfoldable pub uacpi_kernel_raw_io_write :
    (address byte_width in_value : ℕ) → Status × Option Access
unfolding is_power2
uacpi_kernel_raw_io_write address byte_width in_value =
    let at = address % 2 ^ 16 in
    if not (is_power2 byte_width)
    then (invalid_argument, none)
    else if ltb 8 byte_width
    then (invalid_argument, none)
    else if byte_width == 1
    then (ok, some (writes at 1 (in_value % 2 ^ 8)))
    else if byte_width == 2
    then (ok, some (writes at 2 (in_value % 2 ^ 16)))
    else if byte_width == 4
    then (ok, some (writes at 4 (in_value % 2 ^ 32)))
    else if byte_width == 8
    then (invalid_argument, none)
    else (ok, none)

pub record IoRange : Type 0 where
  pub base : ℕ
  pub len : ℕ

abbrev pub uacpi_kernel_io_map : (base len : ℕ) → Status × IoRange
uacpi_kernel_io_map base len = (ok, record { base = base; len = len })

unfoldable pub uacpi_kernel_io_read : IoRange → (offset byte_width : ℕ) → Status × Option Access
uacpi_kernel_io_read rng offset byte_width =
    if leb rng.len offset
    then (invalid_argument, none)
    else uacpi_kernel_raw_io_read (add64 rng.base offset) byte_width

unfoldable pub uacpi_kernel_io_write :
    IoRange → (offset byte_width value : ℕ) → Status × Option Access
uacpi_kernel_io_write rng offset byte_width value =
    if leb rng.len offset
    then (invalid_argument, none)
    else uacpi_kernel_raw_io_write (add64 rng.base offset) byte_width value

abbrev pub uacpi_kernel_map : (hhdm addr : ℕ) → ℕ
uacpi_kernel_map hhdm addr = add64 addr hhdm
