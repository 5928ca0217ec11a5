-- ===== src/Slab/Live.antt =====
-- The slab allocator as its callers see it (kernel/src/pmm.c: slab_alloc and free): the objects that
-- are in use.
use nyaux.Base.{
  ℕ, ◌+◌, ◌≤◌, ◌<◌, ◌≡◌, List, [], ◌∷◌, arith, Option, none, some, All, ◌∙◌, ap, length,
}
use nyaux.Word.{word_mod}
use nyaux.Machine.{Cache, Machine, Run, ok, stop, out_of_memory}
use nyaux.Machine.Chain.{Nodup}
use nyaux.Slab.{cache, scan, slab_alloc}
use nyaux.Slab.Objects.{distinct}
use nyaux.Slab.Layout.{Slab, headers, InPage}
use nyaux.Slab.Scan.{take_first, Outcome, scan_takes}
use nyaux.Slab.Abstract.{IsCache}
use nyaux.Slab.Taking.{IsSlot, AreSlots, TakesWell, take_first-TakesWell, elsewhere}
use nyaux.Slab.Extend.{append, has-headers-append}
use nyaux.Slab.Alloc.{rest_of, allocate, take_state, no_page, rest_of-InPage, rest_of-AreSlots}
use nyaux.Slab.Grow.{grow_state}
use nyaux.Slab.Used.{
  IsUsed, IsUsed-take, free-not_used, is_free-append, IsUsed-append, new-not_used,
}

-- The cache with its free pages, and the objects of `size` bytes that callers hold: none of them is
-- free, and none is held twice.
pub record IsAllocator (size : ℕ) (s : Machine) (i : ℕ) (bs : List Slab) (pages live : List ℕ)
    : Type 0 where
  pub is_cache : IsCache s i bs pages
  pub size_is : (cache s.kmalloc_cache i).size ≡ size
  pub slots : AreSlots size bs
  pub in_memory : All (λ h. h + 4096 ≤ word_mod) (headers bs)
  pub used : All (IsUsed size bs) live
  pub nodup : Nodup live

-- What `slab_alloc` gives a caller.
abbrev pub Given : (size i : ℕ) → List ℕ → Option (ℕ × List Slab × List ℕ) → Run ℕ → Type 0
Given size i live none r = r ≡ stop out_of_memory
Given size i live (some (o, bs, pages)) r =
    (s' : Machine) × (r ≡ ok o s') × IsAllocator size s' i bs pages (o ∷ live)

AreSlots-append :
    (size x : ℕ) (objs : List ℕ) (bs : List Slab)
    → All (IsSlot size x) objs
    → AreSlots size bs
    → AreSlots size (append bs x objs)
AreSlots-append size x objs [] new slots = (new, tt)
AreSlots-append size x objs (b ∷ bs) new slots =
    (slots.0, AreSlots-append size x objs bs new slots.1)

in_memory-append :
    (x : ℕ) (objs : List ℕ) (bs : List Slab)
    → x + 4096 ≤ word_mod
    → All (λ h. h + 4096 ≤ word_mod) (headers bs)
    → All (λ h. h + 4096 ≤ word_mod) (headers (append bs x objs))
in_memory-append x objs [] new low = (new, tt)
in_memory-append x objs (b ∷ bs) new low = (low.0, in_memory-append x objs bs new low.1)

module _ (fuel size i : ℕ) (s : Machine) where
  Given-take :
      (bs rest : List Slab) (pages live : List ℕ) (o : ℕ)
      → IsAllocator size s i bs pages live
      → Outcome s bs (some (o, rest)) (scan fuel (cache s.kmalloc_cache i).slabs s)
      → TakesWell size bs (some (o, rest))
      → Given size i live (some (o, rest, pages)) (slab_alloc fuel i s)
  Given-take bs rest pages live o is outcome
        (heads, apart, slots, (h, there, slot), was, now, others) =
      let (s', ran, is_cache, same) =
        take_state fuel i o s bs rest pages is.is_cache outcome heads apart in
      (
        s',
        ran,
        record {
          is_cache = is_cache;
          size_is = ap (λ (cs : List Cache). (cache cs i).size) same ∙ is.size_is;
          slots = slots;
          in_memory = rw heads (is.in_memory);
          used = (
            (now, (h, rw heads there, slot)),
            IsUsed-take size bs rest live heads others is.used,
          );
          nodup = (free-not_used size o bs live was is.used, is.nodup);
        },
      )

  Given-grow :
      (h x : ℕ) (own : List ℕ) (bs : List Slab) (pages live : List ℕ)
      → IsAllocator size s i ((h, own) ∷ bs) (x ∷ pages) live
      → Outcome s ((h, own) ∷ bs) none (scan fuel (cache s.kmalloc_cache i).slabs s)
      → Given size i live
          (some (x + 24, append ((h, own) ∷ bs) x (rest_of size x), pages))
          (slab_alloc fuel i s)
  Given-grow h x own bs pages live is outcome =
      let c = is.is_cache in
      let al = (c.frames.0).aligned in
      let at_least : 8 ≤ size = rw (is.size_is) at c.at_least in
      let at_most : size ≤ 4072 = rw (is.size_is) at c.at_most in
      let inside = rest_of-InPage size x at_least at_most in
      let out = c.no_slab.0 in
      let first : InPage x (x + 24) = (omega arith, omega arith) in
      let gone = elsewhere x (x + 24) ((h, own) ∷ bs) al first out c.apart in
      let (s', ran, is_cache, same) = grow_state fuel i x h own s bs pages c outcome in
      (
        s',
        ran,
        record {
          is_cache = rw (is.size_is) at is_cache;
          size_is = ap (λ (cs : List Cache). (cache cs i).size) same ∙ is.size_is;
          slots =
              AreSlots-append size x (rest_of size x) ((h, own) ∷ bs)
                (rest_of-AreSlots size x at_least at_most) is.slots;
          in_memory =
              in_memory-append x (rest_of size x) ((h, own) ∷ bs) (c.frames.0).fits is.in_memory;
          used = (
            (
              rw (is_free-append (x + 24) x (rest_of size x) ((h, own) ∷ bs), gone)
                  ((distinct size at_least at_most x).0),
              (
                x,
                rw (has-headers-append x x (rest_of size x) ((h, own) ∷ bs), out) (ground arith),
                (0, omega arith, omega arith),
              ),
            ),
            IsUsed-append size x (rest_of size x) ((h, own) ∷ bs) live at_least al out inside
                c.apart is.used,
          );
          nodup =
              (new-not_used size x ((h, own) ∷ bs) live at_least al out c.apart is.used, is.nodup);
        },
      )

  given :
      (bs : List Slab) (pages live : List ℕ) (t : Option (ℕ × List Slab))
      → IsAllocator size s i bs pages live
      → Outcome s bs t (scan fuel (cache s.kmalloc_cache i).slabs s)
      → TakesWell size bs t
      → Given size i live
          (elim t [
            | some (o, rest) ↦ some (o, rest, pages)
            | none ↦ elim pages [
              | [] ↦ none
              | x ∷ more ↦ some (x + 24, append bs x (rest_of size x), more)
            ]
          ])
          (slab_alloc fuel i s)
  given bs pages live (some (o, rest)) is outcome well =
      Given-take bs rest pages live o is outcome well
  given bs [] live none is outcome well = no_page fuel i s bs is.is_cache outcome
  given [] (x ∷ pages) live none is outcome well = absurd (omega (arith, is.is_cache.some_slab))
  given ((h, own) ∷ bs) (x ∷ pages) live none is outcome well =
      Given-grow h x own bs pages live is outcome

-- `slab_alloc` gives what the specification says and keeps the allocator: the first free object or,
-- with every slab full, the first object of a new slab; it runs out of memory only when the last
-- page is gone too. Fuel beyond the number of slabs is enough.
pub slab_alloc_refines :
    (fuel size i : ℕ) (s : Machine) (bs : List Slab) (pages live : List ℕ)
    → IsAllocator size s i bs pages live
    → length bs < fuel
    → Given size i live (allocate size bs pages) (slab_alloc fuel i s)
unfolding allocate
slab_alloc_refines fuel size i s bs pages live is enough =
    given fuel size i s bs pages live (take_first bs) is
      (scan_takes fuel _ s bs is.is_cache.slabs is.is_cache.apart enough)
      (take_first-TakesWell size bs is.is_cache.apart is.slots)
