-- ===== src/Acpi/Callbacks.antt =====
-- The other callbacks of kernel/src/ACPI/uacpi.c: memory from `kmalloc`, waiting, and those that answer the ACPI
-- interpreter with a constant. A handle is a number.
use nyaux.Base.{ℕ, ◌*◌, ◌%◌, ◌^◌, Bool, true, Option}
use nyaux.Word.{mul64}
use nyaux.Machine.{Cmd, pure, ◌>>=◌, ◌>>◌, memset_zero}
use nyaux.Kmalloc.{kmalloc, kfree}
use nyaux.Apic.Timer.{ksleep}
use nyaux.Acpi.{Status, unimplemented}

pub uacpi_kernel_alloc : (fuel kernel_pagemap size : ℕ) → Cmd ℕ
uacpi_kernel_alloc = kmalloc

-- The product may wrap.
pub uacpi_kernel_calloc : (fuel kernel_pagemap count size : ℕ) → Cmd ℕ
uacpi_kernel_calloc fuel kernel_pagemap count size = do
  man ← kmalloc fuel kernel_pagemap (mul64 count size)
  memset_zero man (mul64 count size)
  pure man

pub uacpi_kernel_free : (fuel kernel_pagemap mem size_hint : ℕ) → Cmd (Unit {0})
uacpi_kernel_free = kfree

-- A `struct io_range` has 16 bytes.
pub uacpi_kernel_io_unmap : (fuel kernel_pagemap handle : ℕ) → Cmd (Unit {0})
uacpi_kernel_io_unmap fuel kernel_pagemap handle = kfree fuel kernel_pagemap handle 16

-- The read of the counter at which the wait ends. `usec` is a byte, the product an `int`.
abbrev pub uacpi_kernel_stall : (ℕ → ℕ) → (fuel time_per_tick_hpet usec : ℕ) → Option ℕ
uacpi_kernel_stall counter fuel time_per_tick_hpet usec =
    ksleep counter fuel time_per_tick_hpet (usec % 2 ^ 8 * 1000)

abbrev pub uacpi_kernel_get_ticks : ℕ
uacpi_kernel_get_ticks = 46644

abbrev pub uacpi_kernel_get_thread_id : ℕ
uacpi_kernel_get_thread_id = 0

-- Mutexes, events and locks are not kept: every handle is 1.
abbrev pub uacpi_kernel_create_mutex : ℕ
uacpi_kernel_create_mutex = 1

abbrev pub uacpi_kernel_create_event : ℕ
uacpi_kernel_create_event = 1

abbrev pub uacpi_kernel_create_spinlock : ℕ
uacpi_kernel_create_spinlock = 1

abbrev pub uacpi_kernel_spinlock_lock : (handle : ℕ) → ℕ
uacpi_kernel_spinlock_lock handle = 1

abbrev pub uacpi_kernel_acquire_mutex : (handle timeout : ℕ) → Bool
uacpi_kernel_acquire_mutex handle timeout = true

abbrev pub uacpi_kernel_wait_for_event : (handle timeout : ℕ) → Bool
uacpi_kernel_wait_for_event handle timeout = true

-- What is refused.
abbrev pub uacpi_kernel_pci_read : (address offset byte_width : ℕ) → Status
uacpi_kernel_pci_read address offset byte_width = unimplemented

abbrev pub uacpi_kernel_pci_write : (address offset byte_width value : ℕ) → Status
uacpi_kernel_pci_write address offset byte_width value = unimplemented

abbrev pub uacpi_kernel_handle_firmware_request : (request : ℕ) → Status
uacpi_kernel_handle_firmware_request request = unimplemented

abbrev pub uacpi_kernel_install_interrupt_handler : (irq handler ctx : ℕ) → Status
uacpi_kernel_install_interrupt_handler irq handler ctx = unimplemented

abbrev pub uacpi_kernel_uninstall_interrupt_handler : (handler irq_handle : ℕ) → Status
uacpi_kernel_uninstall_interrupt_handler handler irq_handle = unimplemented

abbrev pub uacpi_kernel_schedule_work : (type handler ctx : ℕ) → Status
uacpi_kernel_schedule_work type handler ctx = unimplemented

abbrev pub uacpi_kernel_wait_for_work_completion : Status
uacpi_kernel_wait_for_work_completion = unimplemented
