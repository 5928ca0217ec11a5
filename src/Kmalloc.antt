-- ===== src/Kmalloc.antt =====
-- `kmalloc`, `kfree` and `krealloc` of kernel/src/pmm.c: sizes below 1024 are for the slabs, others
-- for whole regions of the kernel's pagemap.
use nyaux.Base.{ℕ, ◌&&◌, not, ◌==◌, ltb, if◌then◌else◌}
use nyaux.Machine.{Cmd, ok, pure, ◌>>=◌, ◌>>◌}
use nyaux.Slab.{kmalloc_slab, free}
use nyaux.Vmm.Align.{align_up}
use nyaux.Vmm.Region.{vmm_region_alloc, vmm_region_dealloc, copy_words}

-- `NYA_OS_VMM_PRESENT | NYA_OS_VMM_RW` is 3.
pub kmalloc : (fuel kernel_pagemap size : ℕ) → Cmd ℕ
kmalloc fuel kernel_pagemap size =
    let small = kmalloc_slab fuel size in
    let region = vmm_region_alloc fuel kernel_pagemap (align_up size 4096) 3 in
    if ltb size 1024 then small else region

pub kfree : (fuel kernel_pagemap addr size : ℕ) → Cmd (Unit {0})
kfree fuel kernel_pagemap addr size =
    let small = free fuel addr in
    let region = vmm_region_dealloc fuel kernel_pagemap addr in
    if addr == 0 then pure tt else if ltb size 1024 then small else region

-- `memcpy` of an object of whole words.
abbrev copy_object : (dst src n : ℕ) → Cmd (Unit {0})
copy_object dst src n s = ok tt (record s { mem = copy_words s.mem dst src n })

pub krealloc : (fuel kernel_pagemap addr oldsz newsz : ℕ) → Cmd ℕ
krealloc fuel kernel_pagemap addr oldsz newsz = do
  new_shit ← kmalloc fuel kernel_pagemap newsz
  if not (addr == 0) && ltb 0 oldsz
      then (do copy_object new_shit addr oldsz; kfree fuel kernel_pagemap addr oldsz; pure new_shit)
      else pure new_shit
