-- ===== src/Slab.antt =====
-- kernel/src/pmm.c: the slab caches behind `kmalloc`. A `struct cache *` is the index of a cache in
-- `kmalloc_cache`. A slab is a page: `struct Header` at its start (`size` at offset 0, `next` at 8,
-- `freelist` at 16), then the objects, the free ones linked at their first word.
pub mod Sizes
pub mod Objects
pub mod Layout
pub mod Scan
pub mod Abstract
pub mod Free
pub mod Taking
pub mod Extend
pub mod Alloc
pub mod Grow
pub mod Used
pub mod Live
pub mod Return
pub mod Writing
pub mod Calls
pub mod Request
mod Tests
mod HeapTests
use nyaux.Base.{
  ℕ, zero, suc, ◌+◌, ◌-◌, ◌*◌, ◌/◌, ◌^◌, Option, none, some, List, [], ◌∷◌, Bool, true, false,
  bit_and, bit_or, ◌==◌, ltb, leb, if◌then◌else◌, get_or, set, length,
}
use nyaux.Word.{add64, sub64}
use nyaux.Machine.{
  Machine, Cache, Cmd, Run, ok, stop, page_fault, out_of_fuel, pure, and_then, ◌>>=◌, ◌>>◌, load,
  store, memset_zero, offset,
}
use nyaux.Pmm.{MemmapEntry, build_free_list, pmm_alloc_singlep}

-- `sizeof(struct Header)`
abbrev pub header_size : ℕ
header_size = 24

-- `kmalloc_cache[i]`; out of range there is nothing.
abbrev pub cache : List Cache → ℕ → Cache
cache cs i = get_or cs i (record { slabs = 0; size = 0 })

-- The objects that a slab holds.
abbrev pub obj_amount : ℕ → ℕ
obj_amount size = (4096 - header_size) / size

-- `for (int i = 1; i < obj_amount; i++)`, `n` rounds of it from round `i` on: each object points to
-- the next.
pub link_objects : (n i start size prev : ℕ) → Cmd (Unit {0})
link_objects zero i start size prev = pure tt
link_objects (suc n) i start size prev = do
  store prev 0 (add64 start (i * size))
  link_objects n (i + 1) start size (add64 start (i * size))

-- A page made into a slab; returns its header.
pub make_slab : ℕ → Cmd ℕ
unfolding link_objects
make_slab size = do
  page ← pmm_alloc_singlep
  hhdm ← offset
  memset_zero (add64 page hhdm) 4096
  store (add64 page hhdm) 0 size
  store (add64 page hhdm) 16 (add64 (add64 page hhdm) header_size)
  link_objects (obj_amount size - 1) 1 (add64 (add64 page hhdm) header_size) size
      (add64 (add64 page hhdm) header_size)
  pure (add64 page hhdm)

abbrev put_cache : ℕ → Cache → Cmd (Unit {0})
put_cache i c s = ok tt (record s { kmalloc_cache = set s.kmalloc_cache i c })

-- `init_cache(&kmalloc_cache[i], size)`
pub init_cache : (i size : ℕ) → Cmd (Unit {0})
unfolding link_objects
init_cache i size = do
  page ← pmm_alloc_singlep
  hhdm ← offset
  memset_zero (add64 page hhdm) 4096
  store (add64 page hhdm) 0 size
  put_cache i (record { slabs = add64 page hhdm; size = size })
  store (add64 page hhdm) 16 (add64 (add64 page hhdm) header_size)
  link_objects (obj_amount size - 1) 1 (add64 (add64 page hhdm) header_size) size
      (add64 (add64 page hhdm) header_size)

pub init_slabs : Cmd (Unit {0})
unfolding init_cache
init_slabs = do
  init_cache 0 8
  init_cache 1 16
  init_cache 2 32
  init_cache 3 64
  init_cache 4 128
  init_cache 5 256
  init_cache 6 512
  init_cache 7 1024

-- `pmm_init`, but for the count of the free pages, which is only printed.
abbrev pmm_init : List MemmapEntry → Cmd (Unit {0})
pmm_init entries = do build_free_list entries 0; init_slabs

-- `v |= v >> k`
abbrev smear : ℕ → ℕ → ℕ
smear k v = bit_or v (v / 2 ^ k)

unfoldable pub next_pow2 : ℕ → ℕ
next_pow2 v = add64 (smear 16 (smear 8 (smear 4 (smear 2 (smear 1 (sub64 v 1)))))) 1

-- The index of the first cache from `i` on whose objects are big enough, `none` for NULL.
unfoldable pub search_from : ℕ → List Cache → ℕ → Option ℕ
search_from i [] size = none
search_from i (c ∷ cs) size = if leb size c.size then some i else search_from (i + 1) cs size

unfoldable pub search_for_bigenoughcache : List Cache → ℕ → Option ℕ
unfolding search_from
search_for_bigenoughcache cs size = search_from 0 cs size

-- How the search for a free object ends: with one, or at the last slab, all of them full.
pub data Found : Type 0 where
  object : ℕ → Found
  full : ℕ → Found

-- The loop of `slab_alloc` from slab `h` on. The walk is over the slabs, so fuel beyond their number
-- is enough.
pub scan : ℕ → ℕ → Cmd Found
scan zero h s = stop out_of_fuel
scan (suc fuel) h s =
    if h == 0
    then ok (full h) s
    else and_then (load h 16 s) (λ him.
      let take : Cmd Found = (do next ← load him 0; store h 16 next; pure (object him)) in
      let move : Cmd Found = (do
        next ← load h 8
        if next == 0 then pure (full h) else scan fuel next) in
      if him == 0 then move else take)

-- What `slab_alloc` does once every slab is full.
pub grow : (size last : ℕ) → Cmd ℕ
unfolding make_slab
grow size last = do
  new_slab ← make_slab size
  store last 8 new_slab
  we ← load new_slab 16
  next ← load we 0
  store new_slab 16 next
  pure we

pub slab_alloc : (fuel i : ℕ) → Cmd ℕ
unfolding scan grow
slab_alloc fuel i s = and_then (scan fuel (cache s.kmalloc_cache i).slabs s) (λ found. elim found [
  | object p ↦ pure p
  | full last ↦ grow (cache s.kmalloc_cache i).size last
])

-- The last cache whose objects have this size, as the loop of `free` finds it.
pub right_cache : ℕ → List Cache → ℕ → Option ℕ → Option ℕ
right_cache i [] size best = best
right_cache i (c ∷ cs) size best =
    right_cache (i + 1) cs size (if c.size == size then some i else best)

-- The walk at the end of `free`: nothing to do if `h` is on the list, else it is put at the end.
pub append_slab : (fuel h prev cur : ℕ) → Cmd (Unit {0})
append_slab zero h prev cur s = stop out_of_fuel
append_slab (suc fuel) h prev cur s =
    let walk : Run (Unit {0}) = and_then (load cur 8 s) (λ next. append_slab fuel h cur next) in
    if cur == 0 then store prev 8 h s else if cur == h then ok tt s else walk

-- `addr & ~0xFFF`
abbrev pub page_of : ℕ → ℕ
page_of addr = bit_and addr 0xFFFFFFFFFFFFF000

pub free : (fuel addr : ℕ) → Cmd (Unit {0})
unfolding right_cache append_slab
free fuel addr s =
    if addr == 0
    then ok tt s
    else and_then (load (page_of addr) 0 s) (λ size s'.
      elim (right_cache 0 s'.kmalloc_cache size none) [
        | none ↦ ok tt s'
        | some i ↦
            (do
              old ← load (page_of addr) 16
              store addr 0 old
              store (page_of addr) 16 addr
              append_slab fuel (page_of addr) 0 (cache s'.kmalloc_cache i).slabs)
              s'
      ])

-- `kmalloc` of less than 1024 bytes.
pub kmalloc_slab : (fuel size : ℕ) → Cmd ℕ
unfolding search_for_bigenoughcache slab_alloc
kmalloc_slab fuel size s = elim (search_for_bigenoughcache s.kmalloc_cache (next_pow2 size)) [
  | none ↦ ok 0 s
  | some i ↦ slab_alloc fuel i s
]
