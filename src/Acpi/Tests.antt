-- ===== src/Acpi/Tests.antt =====
-- Memory and ports at concrete inputs.
use nyaux.Base.{◌≡◌, ◌%◌, ◌*◌, ◌^◌, ◌&&◌, not, leb, arith}
use nyaux.Word.{add64}
use nyaux.Machine.{Mem}
use nyaux.Acpi.{IoRange, reads, writes, uacpi_kernel_io_read, uacpi_kernel_io_write}
use nyaux.Acpi.Widths.{Written, raw_memory_read-write}
use nyaux.Acpi.Ports.{is_port_width, if_allowed, uacpi_kernel_io_lem}

abbrev zeros : Mem
zeros a = 0

raw_memory_read-write_example : Written (2 ^ 40) 4096 4 0x1234567890 zeros
raw_memory_read-write_example = raw_memory_read-write (2 ^ 40) 4096 4 0x1234567890 zeros

-- The ports of a keyboard controller.
abbrev ports : IoRange
ports = record { base = 0x60; len = 5 }

uacpi_kernel_io_lem_example :
    (uacpi_kernel_io_read ports 4 1
      ≡ if_allowed (not (leb 5 4) && is_port_width 1) (reads (add64 0x60 4 % 2 ^ 16) 1))
    × (uacpi_kernel_io_write ports 4 1 300
        ≡ if_allowed
            (not (leb 5 4) && is_port_width 1)
            (writes (add64 0x60 4 % 2 ^ 16) 1 (300 % 2 ^ (8 * 1))))
uacpi_kernel_io_lem_example = uacpi_kernel_io_lem ports 4 1 300 (omega arith)
