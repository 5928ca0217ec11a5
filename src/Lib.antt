-- ===== src/Lib.antt =====
-- The Nyaux kernel: its memory managers, its in-memory file system and the system calls on it.
--
-- The program. Nyaux is an x86-64 kernel (kernel/src). At boot it builds a list of free pages from the
-- bootloader's memory map, sets up slabs for small objects, maps the kernel and makes address-space
-- regions for bigger ones. Then it unpacks a ramdisk into an in-memory file system and starts threads,
-- whose system calls open, read and seek files and ask for memory. The physical pages feed the slabs and
-- the page tables; slabs and regions together are `kmalloc`, on which all the rest stands.
--
-- The files.
--   Base, Word, Bits    shared names, 64-bit arithmetic, laws of masks.
--   Machine             the kernel's memory and globals, and commands over them.
--   Pmm                 kernel/src/pmm.c: pmm_init, pmm_alloc_singlep, pmm_free_singlep.
--   Slab                kernel/src/pmm.c: init_cache, make_slab, next_pow2, slab_alloc, free and the small
--                       case of kmalloc.
--   Vmm.Align, Vmm.Paging, Vmm.Region
--                       kernel/src/vmm.c: alignment; map, unmap, virt_to_phys; the region functions,
--                       mmap_range and new_pagemap.
--   Vmm.Boot            kernel/src/vmm.c: vmm_init and vmm_region_setup.
--   Kmalloc             kernel/src/pmm.c: kmalloc, kfree, krealloc.
--   Libc                kernel/src/main.c: memory and string functions, itoa; strchr of kernel/src/fs/vfs.c.
--   Fs                  kernel/src/fs/tmpfs.c, and the descriptor bitmap of kernel/src/fs/vfs.c.
--   Path                kernel/src/fs/vfs.c: vnode_path_lookup and vfs_create.
--   Tar                 kernel/src/fs/tar.c: the initial ramdisk.
--   Sched               kernel/src/sched/sched.c: switch_task, the making of threads, sched_init.
--   Idt                 kernel/src/idt.c: the interrupt descriptors.
--   Apic                kernel/src/drivers/apic.c: route_irq, the scan of the MADT, ksleep and the timer.
--   Elf                 kernel/src/elf/elf.c: the loading of a program and its first stack.
--   Gdt                 kernel/src/gdt.c: the segment descriptors; kernel/src/main.c: the registers for system
--                       calls.
--   Console             kernel/src/main.c: write_color and kputc; kernel/src/drivers/serial.c.
--   Bump                kernel/src/bump.c.
--   Acpi                kernel/src/ACPI/uacpi.c: the callbacks of the ACPI interpreter.
--   Keyboard            kernel/src/drivers/ps2.c: ps2_handler.
--   Syscall             kernel/src/syscall/syscall.c.
-- A C function has the definition of its name; a loop, or a part that is used alone, is a definition of
-- its own. A module's theorems stand in its child modules, and what they say at concrete inputs in Tests.
--
-- Memory. The memory managers store pointers in naturally aligned 64-bit fields of pages, so for them
-- memory is a function from addresses to 64-bit words; an access through NULL is a page fault, which
-- stops the kernel. For Libc, Fs, Path, Tar and Acpi memory is a function from addresses to bytes, and the
-- first stack of a program is one of words. `memset` and `memcpy` are given over words by the memory that
-- they leave, and over bytes by their loops. Devices are seen through the accesses that reach them. Values
-- of `uint64_t` and pointers are numbers below 2 ^ 64 whose sums wrap as they do in C; an `int` is a number
-- below 2 ^ 32, so -1 is 2 ^ 32 - 1. The bootloader's answers are fields of the machine (`hhdm`) or
-- arguments.
--
-- Fuel. A walk over a linked list in memory stops with `out_of_fuel` once it has gone through more nodes
-- than its fuel, as the C code would go on for ever on a cyclic list; one more than the number of nodes is
-- enough. A walk over a string gives `none`; one more than its length is enough. A path lookup is on fuel
-- because a symbolic link may lead to itself; the loop over the archive has one round for each header, of
-- 512 bytes or more, and the scan of the MADT one for each entry. `itoa` has 21 rounds, as a 64-bit number
-- has at most 20 digits. `ksleep` has one round for each read of the clock, of which one more than
-- the nanoseconds to wait is enough if the clock goes up between reads; the loading of a program has one
-- for each interpreter that has an interpreter.
--
-- Not modelled. Formatted printing (the terminal and printf are copies of other projects), panics, the saving of
-- the FPU state, assembly stubs, and libraries outside the repository (the boot protocol, the ACPI
-- interpreter).
-- What a call with a descriptor number of 256 or more does to the memory behind the table is not either.
-- Locks are not: the kernel runs on one processor and has none.
pub mod Base
pub mod Word
pub mod Bits
pub mod Machine
pub mod Pmm
pub mod Slab
pub mod Vmm
pub mod Kmalloc
pub mod Libc
pub mod Fs
pub mod Path
pub mod Tar
pub mod Sched
pub mod Apic
pub mod Acpi
pub mod Idt
pub mod Elf
pub mod Bump
pub mod Keyboard
pub mod Console
pub mod Gdt
pub mod Syscall
