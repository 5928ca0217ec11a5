-- ===== src/Vmm/Boot.antt =====
-- The kernel's first page tables and regions: `vmm_init` and `vmm_region_setup` of kernel/src/vmm.c. The
-- load of cr3 and the messages are left out.
use nyaux.Base.{ℕ, zero, suc, ◌+◌, ◌*◌, ◌/◌, ◌^◌, ltb, if◌then◌else◌, List, [], ◌∷◌}
use nyaux.Word.{add64}
use nyaux.Machine.{Cmd, pure, ◌>>=◌, ◌>>◌, store, offset, memset_zero}
use nyaux.Pmm.{
  pmm_alloc_singlep, EntryType, usable, bootloader_reclaimable, kernel_and_modules, reserved,
  framebuffer, acpi_nvs, acpi_reclaimable, other, MemmapEntry,
}
use nyaux.Slab.{kmalloc_slab}
use nyaux.Vmm.Align.{align_up}
use nyaux.Vmm.Paging.{map}
use nyaux.Vmm.Region.{region_size}

-- The rounds of a loop that goes up to `length` in steps of a page.
abbrev pub pages_of : ℕ → ℕ
pages_of length = (length + 4095) / 4096

-- `n` pages are mapped to consecutive pages, from page `i` on, present and writable (3).
pub map_linear : (n i pml4 virt phys : ℕ) → Cmd (Unit {0})
map_linear zero i pml4 virt phys = pure tt
map_linear (suc n) i pml4 virt phys = do
  map pml4 (add64 virt (i * 0x1000)) (add64 phys (i * 0x1000)) 3
  map_linear n (i + 1) pml4 virt phys

-- The same into the higher half, with the bytes that are counted: those at offsets below 4 GiB.
pub map_entry : (n i pml4 phys hhdm_pages : ℕ) → Cmd ℕ
map_entry zero i pml4 phys hhdm_pages = pure hhdm_pages
map_entry (suc n) i pml4 phys hhdm_pages = do
  hhdm ← offset
  map pml4 (add64 hhdm (add64 phys (i * 0x1000))) (add64 phys (i * 0x1000)) 3
  map_entry n (i + 1) pml4 phys
      (if ltb (i * 0x1000) (2 ^ 32) then add64 hhdm_pages 0x1000 else hhdm_pages)

-- How much of an entry is mapped, by its type.
pub mapped_length : EntryType → ℕ → ℕ
mapped_length usable length = length
mapped_length bootloader_reclaimable length = length
mapped_length kernel_and_modules length = align_up length 4096
mapped_length reserved length = align_up length 4096
mapped_length framebuffer length = align_up length 4096
mapped_length acpi_nvs length = align_up length 4096
mapped_length acpi_reclaimable length = align_up length 4096
mapped_length other length = 0

pub map_entries : (pml4 : ℕ) → List MemmapEntry → (hhdm_pages : ℕ) → Cmd ℕ
unfolding mapped_length map_entry
map_entries pml4 [] hhdm_pages = pure hhdm_pages
map_entries pml4 (e ∷ es) hhdm_pages = do
  counted ← map_entry (pages_of (mapped_length e.type e.length)) 0 pml4 e.base hhdm_pages
  map_entries pml4 es counted

-- The kernel's first two regions: the direct map and the kernel. The size of the kernel is the address of
-- `THE_REAL`; what is returned is `kerneL_higher_half_size`.
pub vmm_region_setup : (fuel kernel_pagemap hhdm_pages virtual_base the_real : ℕ) → Cmd ℕ
vmm_region_setup fuel kernel_pagemap hhdm_pages virtual_base the_real = do
  node ← kmalloc_slab fuel region_size
  hhdm ← offset
  store node 0 hhdm
  store node 8 hhdm_pages
  store node 16 3
  store kernel_pagemap 0 node
  kernel_region ← kmalloc_slab fuel region_size
  store kernel_region 0 virtual_base
  store kernel_region 8 the_real
  store node 24 kernel_region
  pure (add64 virtual_base the_real)

-- `vmm_init`, for the kernel's addresses and the memory map that the bootloader gives. The first 4 GiB are
-- mapped last, whatever the memory map says of them.
pub vmm_init :
    (fuel kernel_pagemap virtual_base physical_base the_real : ℕ) → List MemmapEntry → Cmd ℕ
unfolding map_linear map_entries map_entry vmm_region_setup
vmm_init fuel kernel_pagemap virtual_base physical_base the_real entries = do
  pml4 ← pmm_alloc_singlep
  store kernel_pagemap 8 pml4
  hhdm ← offset
  memset_zero (add64 pml4 hhdm) 4096
  map_linear (pages_of (align_up the_real 4096)) 0 (add64 pml4 hhdm) virtual_base physical_base
  counted ← map_entries (add64 pml4 hhdm) entries 0
  hhdm_pages ← map_entry (pages_of (2 ^ 32)) 0 (add64 pml4 hhdm) 0 counted
  vmm_region_setup fuel kernel_pagemap hhdm_pages virtual_base the_real
