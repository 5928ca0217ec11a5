-- ===== src/Slab/HeapTests.antt =====
-- A small request of `kmalloc` (kernel/src/pmm.c) at a concrete machine.
use nyaux.Base.{ap, none, ℕ, zero, suc, ◌+◌, ◌*◌, ◌≤◌, ◌<◌, ◌≡◌, refl, some, [], ◌∷◌, arith}
use nyaux.Machine.{Cache, Machine, write}
use nyaux.Slab.Alloc.{allocate}
use nyaux.Slab.Live.{IsAllocator, Given}
use nyaux.Slab.Request.{IsHeap, kmalloc_slab_refines}
use nyaux.Slab.{kmalloc_slab, right_cache, cache}
use nyaux.Slab.Sizes.{kmalloc_caches}

-- Eight caches with a full slab each, and a free page.
abbrev slab_at : ℕ → ℕ
slab_at i = 0x100000 + 0x1000 * i

abbrev full_slabs : Machine
full_slabs = record {
  mem =
      write
        (write
          (write
            (write
              (write (write (write (write (λ _. 0) 0x100000 8) 0x101000 16) 0x102000 32) 0x103000
                64)
              0x104000 128)
            0x105000 256)
          0x106000 512)
        0x107000 1024;
  hhdm = 0x10000;
  head = 0x40000;
  kmalloc_cache = kmalloc_caches slab_at;
}

full_slab-IsAllocator :
    (i size : ℕ)
    → i < 8
    → cache (kmalloc_caches slab_at) i ≡ record { slabs = slab_at i; size = size }
    → full_slabs.mem (slab_at i) ≡ size
    → right_cache 0 (kmalloc_caches slab_at) size none ≡ some i
    → 8 ≤ size
    → size ≤ 4072
    → IsAllocator size full_slabs i ((slab_at i, []) ∷ []) (0x40000 ∷ []) []
full_slab-IsAllocator i size low is header found at_least at_most =
    let size_is = ap (λ (c : Cache). c.size) is in
    record {
      is_cache = record {
        slabs = (ap (λ (c : Cache). c.slabs) is, omega arith, ground arith, ground arith);
        apart = (omega arith, refl, tt, tt, tt);
        sized = rw size_is (header, tt);
        found = rw size_is found;
        at_least = rw size_is at_least;
        at_most = rw size_is at_most;
        some_slab = omega arith;
        holds = record { chain = (refl, omega arith, refl); nodup = (refl, tt) };
        frames = (omega arith, tt);
        no_slab = (ground arith, tt);
      };
      size_is = size_is;
      slots = (tt, tt);
      in_memory = (omega arith, tt);
      used = tt;
      nodup = tt;
    }

full_slabs-allocators :
    (i : ℕ)
    → i < 8
    → IsAllocator
        (cache (kmalloc_caches slab_at) i).size
        full_slabs
        i
        ((slab_at i, []) ∷ [])
        (0x40000 ∷ [])
        []
unfolding right_cache
full_slabs-allocators zero low =
    full_slab-IsAllocator 0 8 (omega arith) refl refl refl (omega arith) (omega arith)
full_slabs-allocators (suc zero) low =
    full_slab-IsAllocator 1 16 (omega arith) refl refl refl (omega arith) (omega arith)
full_slabs-allocators (suc (suc zero)) low =
    full_slab-IsAllocator 2 32 (omega arith) refl refl refl (omega arith) (omega arith)
full_slabs-allocators (suc (suc (suc zero))) low =
    full_slab-IsAllocator 3 64 (omega arith) refl refl refl (omega arith) (omega arith)
full_slabs-allocators (suc (suc (suc (suc zero)))) low =
    full_slab-IsAllocator 4 128 (omega arith) refl refl refl (omega arith) (omega arith)
full_slabs-allocators (suc (suc (suc (suc (suc zero))))) low =
    full_slab-IsAllocator 5 256 (omega arith) refl refl refl (omega arith) (omega arith)
full_slabs-allocators (suc (suc (suc (suc (suc (suc zero)))))) low =
    full_slab-IsAllocator 6 512 (omega arith) refl refl refl (omega arith) (omega arith)
full_slabs-allocators (suc (suc (suc (suc (suc (suc (suc zero))))))) low =
    full_slab-IsAllocator 7 1024 (omega arith) refl refl refl (omega arith) (omega arith)
full_slabs-allocators (suc (suc (suc (suc (suc (suc (suc (suc n)))))))) low = absurd (omega arith)

full_slabs-IsHeap : IsHeap full_slabs slab_at (λ i. (slab_at i, []) ∷ []) (0x40000 ∷ []) (λ _. [])
full_slabs-IsHeap = record { caches = refl; allocators = full_slabs-allocators }

kmalloc_slab_refines_example :
    (i : ℕ) × (i < 8)
    × (100 ≤ (cache (kmalloc_caches slab_at) i).size)
    × (8 < (cache (kmalloc_caches slab_at) i).size
        → (cache (kmalloc_caches slab_at) i).size < 2 * 100)
    × Given
        (cache (kmalloc_caches slab_at) i).size
        i
        []
        (allocate (cache (kmalloc_caches slab_at) i).size ((slab_at i, []) ∷ []) (0x40000 ∷ []))
        (kmalloc_slab 2 100 full_slabs)
kmalloc_slab_refines_example =
    kmalloc_slab_refines 2 100 full_slabs slab_at (λ i. (slab_at i, []) ∷ []) (0x40000 ∷ [])
      (λ _. []) full_slabs-IsHeap (omega arith) (λ i low. omega arith)
