-- ===== src/Slab/Request.antt =====
-- A request for fewer than 1024 bytes (kernel/src/pmm.c: kmalloc), from the choice of a cache to the object.
use nyaux.Base.{
  ℕ, ◌+◌, ◌*◌, ◌≤◌, ◌<◌, ◌≡◌, refl, List, [], ◌∷◌, Option, none, some, arith, length, leb,
  Bool-cases, inl, inr, ap, ◌∙◌, sym,
}
use mathlib.Core.Path.{subst}
use nyaux.Machine.{Machine, Cache, Cmd, ok}
use nyaux.Slab.{cache, next_pow2, search_from, search_for_bigenoughcache, slab_alloc, kmalloc_slab}
use nyaux.Slab.Layout.{Slab}
use nyaux.Slab.Sizes.{kmalloc_caches, kmalloc_class}
use nyaux.Slab.Alloc.{allocate}
use nyaux.Slab.Live.{IsAllocator, Given, slab_alloc_refines}

search_from-lt :
    (k i size : ℕ) (cs : List Cache) → search_from k cs size ≡ some i → i < k + length cs
unfolding search_from
search_from-lt k i size [] e = absurd (cc)
search_from-lt k i size (c ∷ cs) e = elim (Bool-cases (leb size c.size)) [
  | inl fits ↦
      (let same : some k ≡ some i = rw fits at e in let eq : k ≡ i = cc in omega (arith, eq))
  | inr small ↦ omega (arith, search_from-lt (k + 1) i size cs (rw small at e))
]

search-lt :
    (i size : ℕ) (first : ℕ → ℕ)
    → search_for_bigenoughcache (kmalloc_caches first) size ≡ some i
    → i < 8
unfolding search_for_bigenoughcache
search-lt i size first e = omega (arith, search_from-lt 0 i size (kmalloc_caches first) e)

-- The caches that `init_slabs` sets up, each with its slabs and the objects in use; the free pages are for all.
pub record IsHeap (s : Machine) (first : ℕ → ℕ) (bs : ℕ → List Slab) (pages : List ℕ)
    (live : ℕ → List ℕ) : Type 0 where
  pub caches : s.kmalloc_cache ≡ kmalloc_caches first
  pub allocators :
      (i : ℕ) → i < 8 → IsAllocator (cache (kmalloc_caches first) i).size s i (bs i) pages (live i)

abbrev pub serve : (fuel : ℕ) → Option ℕ → Cmd ℕ
serve fuel none s = ok 0 s
serve fuel (some i) s = slab_alloc fuel i s

kmalloc_slab-serve :
    (fuel size : ℕ) (s : Machine) (o : Option ℕ)
    → search_for_bigenoughcache s.kmalloc_cache (next_pow2 size) ≡ o
    → kmalloc_slab fuel size s ≡ serve fuel o s
unfolding kmalloc_slab
kmalloc_slab-serve fuel size s none e = rw (kmalloc_slab, e) refl
kmalloc_slab-serve fuel size s (some i) e = rw (kmalloc_slab, e) refl

-- A request for fewer than 1024 bytes is served from a cache whose objects have room for it, and for less than
-- twice as much if they are not the smallest; the object is in no use and apart from all that are, as the
-- allocator of the cache says, or the kernel is out of memory. Fuel beyond the number of slabs of any cache
-- is enough.
pub kmalloc_slab_refines :
    (fuel size : ℕ) (s : Machine) (first : ℕ → ℕ) (bs : ℕ → List Slab) (pages : List ℕ)
    (live : ℕ → List ℕ)
    → IsHeap s first bs pages live
    → size < 1024
    → ((i : ℕ) → i < 8 → length (bs i) < fuel)
    → (i : ℕ) × (i < 8)
      × (size ≤ (cache (kmalloc_caches first) i).size)
      × (8 < (cache (kmalloc_caches first) i).size
          → (cache (kmalloc_caches first) i).size < 2 * size)
      × Given
          (cache (kmalloc_caches first) i).size
          i
          (live i)
          (allocate (cache (kmalloc_caches first) i).size (bs i) pages)
          (kmalloc_slab fuel size s)
kmalloc_slab_refines fuel size s first bs pages live heap small enough =
    let (i, e, fits, tight) = kmalloc_class first size small in
    let low : i < 8 = search-lt i (next_pow2 size) first e in
    let here : search_for_bigenoughcache s.kmalloc_cache (next_pow2 size) ≡ some i =
      ap (λ (cs : List Cache). search_for_bigenoughcache cs (next_pow2 size)) heap.caches ∙ e in
    let n = (cache (kmalloc_caches first) i).size in
    (
      i,
      low,
      fits,
      tight,
      subst (Given n i (live i) (allocate n (bs i) pages))
          (sym (kmalloc_slab-serve fuel size s (some i) here))
          (slab_alloc_refines fuel n i s (bs i) pages (live i) (heap.allocators i low)
            (enough i low)),
    )
