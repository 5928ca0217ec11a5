-- ===== src/Vmm/Region.antt =====
-- The address-space regions of kernel/src/vmm.c. `struct vmm_region` has `base` at offset 0, `length`
-- at 8, `flags` at 16, `next` at 24; `struct pagemap` has `head` at 0 and `pml4` at 8. The kernel's own
-- pagemap and that of a process go through the same code, which the source writes twice.
pub mod Nodes
pub mod Insert
pub mod Spacing
mod Tests
use nyaux.Base.{ℕ, zero, suc, ◌+◌, ◌-◌, ◌*◌, ◌/◌, ◌==◌, leb, if◌then◌else◌, ◌&&◌, ltb}
use nyaux.Word.{add64, sub64}
use nyaux.Machine.{
  Mem, Cmd, Run, ok, stop, no_free_region, no_such_region, out_of_fuel, pure, and_then, ◌>>=◌, ◌>>◌,
  load, store, offset,
}
use nyaux.Pmm.{pmm_alloc_singlep, pmm_free_singlep}
use nyaux.Slab.{kmalloc_slab, free}
use nyaux.Vmm.Align.{align_up}
use nyaux.Vmm.Paging.{page_offset, page_count, rounds_below, map_pages, unmap, get_phys_from_entry}

-- `sizeof(struct vmm_region)` and `sizeof(struct pagemap)`
abbrev pub region_size : ℕ
region_size = 32

abbrev pub pagemap_size : ℕ
pagemap_size = 16

-- The loop of `vmm_region_alloc`: the first two neighbours between which `size` bytes and a page
-- fit, after the first region is skipped. `fuel` bounds the number of regions.
pub find_gap : (fuel size prev cur : ℕ) → Cmd (ℕ × ℕ)
find_gap zero size prev cur s = stop out_of_fuel
find_gap (suc fuel) size prev cur s =
    let skip : Run (ℕ × ℕ) = and_then (load cur 24 s) (λ next. find_gap fuel size cur next) in
    let test : Run (ℕ × ℕ) =
      (do
        cur_base ← load cur 0
        prev_base ← load prev 0
        prev_length ← load prev 8
        if leb (add64 (align_up size 4096) 0x1000) (sub64 cur_base (add64 prev_base prev_length))
            then pure (prev, cur)
            else λ _. skip)
        s in
    if cur == 0 then stop no_free_region else if prev == 0 then skip else test

-- The new region after `prev` and before `cur`; returns its base.
pub link_region : (new_guy prev cur size : ℕ) → Cmd ℕ
link_region new_guy prev cur size = do
  prev_base ← load prev 0
  prev_length ← load prev 8
  store new_guy 0 (add64 prev_base prev_length)
  store new_guy 8 (align_up size 4096)
  store prev 24 new_guy
  store new_guy 24 cur
  pure (add64 prev_base prev_length)

-- `vmm_region_alloc_user`, and `vmm_region_alloc` with the kernel's pagemap.
pub vmm_region_alloc_user : (fuel user_map size flags : ℕ) → Cmd ℕ
unfolding find_gap link_region
vmm_region_alloc_user fuel user_map size flags = do
  head ← load user_map 0
  (prev, cur) ← find_gap fuel size 0 head
  new_guy ← kmalloc_slab fuel region_size
  base ← link_region new_guy prev cur size
  pml4 ← load user_map 8
  hhdm ← offset
  map_pages (rounds_below (page_count (align_up size 4096))) 0 (add64 pml4 hhdm) base flags
  pure base

-- The loop of `vmm_region_dealloc`: the region at `base` and the one before it, 0 for none.
pub find_region : (fuel base prev cur : ℕ) → Cmd (ℕ × ℕ)
find_region zero base prev cur s = stop out_of_fuel
find_region (suc fuel) base prev cur s =
    let skip : Run (ℕ × ℕ) = and_then (load cur 24 s) (λ next. find_region fuel base cur next) in
    let test : Run (ℕ × ℕ) =
      and_then (load cur 0 s) (λ b _. if b == base then ok (prev, cur) s else skip) in
    if cur == 0 then stop no_such_region else test

-- `if (cur_node->next) prev_prev_node->next = cur_node->next;`
pub unlink_region : (prev cur : ℕ) → Cmd (Unit {0})
unlink_region prev cur = do next ← load cur 24; if next == 0 then pure tt else store prev 24 next

-- Every page of a region is unmapped and given back, `n` pages from page `i` on.
pub free_pages : (n i pml4 base : ℕ) → Cmd (Unit {0})
free_pages zero i pml4 base = pure tt
free_pages (suc n) i pml4 base = do
  phys ← unmap pml4 (add64 base (page_offset i))
  hhdm ← offset
  pmm_free_singlep (add64 (get_phys_from_entry phys) hhdm)
  free_pages n (i + 1) pml4 base

-- `vmm_region_dealloc_user`, and `vmm_region_dealloc` with the kernel's pagemap.
pub vmm_region_dealloc_user : (fuel user_map base : ℕ) → Cmd (Unit {0})
unfolding find_region unlink_region free_pages
vmm_region_dealloc_user fuel user_map base = do
  head ← load user_map 0
  (prev, cur) ← find_region fuel base 0 head
  unlink_region prev cur
  length ← load cur 8
  pml4 ← load user_map 8
  hhdm ← offset
  cur_base ← load cur 0
  free_pages (rounds_below (page_count length)) 0 (add64 pml4 hhdm) cur_base
  free fuel cur

-- `mmap_range` returns the address that it was given. Its loop has `i != num_of_pages`, so `i` comes to a negative
-- count by wrapping.
pub mmap_range : (user_map base_virt size_in_bytes flags : ℕ) → Cmd ℕ
mmap_range user_map base_virt size_in_bytes flags = do
  pml4 ← load user_map 8
  hhdm ← offset
  map_pages (page_count (align_up size_in_bytes 4096)) 0 (add64 pml4 hhdm) base_virt flags
  pure base_virt

-- `memcpy` of `n` bytes over whole words, given as the memory that it leaves.
abbrev pub copy_words : Mem → (dst src n : ℕ) → Mem
copy_words m dst src n b = if leb dst b && ltb b (dst + n) then m (src + (b - dst)) else m b

abbrev pub copy_half : (dst src : ℕ) → Cmd (Unit {0})
copy_half dst src s = ok tt (record s { mem = copy_words s.mem dst src 2048 })

-- The pagemap of a new process: the upper half of the kernel's top-level table, an empty region at 0
-- and one for the kernel. `kernel_pml4` is `kernel_pagemap.pml4`.
pub new_pagemap : (fuel kernel_pml4 kernel_higher_half_size : ℕ) → Cmd ℕ
new_pagemap fuel kernel_pml4 kernel_higher_half_size = do
  new_guy ← kmalloc_slab fuel pagemap_size
  pml4 ← pmm_alloc_singlep
  store new_guy 8 pml4
  hhdm ← offset
  copy_half (add64 (add64 pml4 hhdm) 2048) (add64 (add64 kernel_pml4 hhdm) 2048)
  part ← kmalloc_slab fuel region_size
  store part 0 0
  store part 8 0
  store part 16 7
  kernel ← kmalloc_slab fuel region_size
  store kernel 0 hhdm
  store kernel 8 kernel_higher_half_size
  store part 24 kernel
  store new_guy 0 part
  pure new_guy

-- The same code with the kernel's pagemap, which is at `kernel_pagemap`.
pub vmm_region_alloc : (fuel kernel_pagemap size flags : ℕ) → Cmd ℕ
vmm_region_alloc = vmm_region_alloc_user

pub vmm_region_dealloc : (fuel kernel_pagemap base : ℕ) → Cmd (Unit {0})
vmm_region_dealloc = vmm_region_dealloc_user
