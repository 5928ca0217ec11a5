-- ===== src/Slab/Abstract.antt =====
-- What the slab allocator is to do, on lists of slabs (kernel/src/pmm.c: slab_alloc and free).
use nyaux.Base.{
  ℕ, ◌+◌, ◌%◌, ◌≤◌, ◌<◌, ◌≡◌, ◌≢◌, refl, List, [], ◌∷◌, arith, false, ◌||◌, none, some, Bool, ◌==◌,
  if◌then◌else◌, All, ◌∙◌, length, Bool-cases, inl, inr,
}
use nyaux.Machine.{Mem, Machine}
use nyaux.Machine.Chain.{has}
use nyaux.Pmm.Stack.{Holds}
use nyaux.Vmm.Paging.Reach.{IsFrame, Seg-agree}
use nyaux.Slab.{cache, right_cache}
use nyaux.Slab.Layout.{Slab, headers, Slabs, InPage, AreApart}

-- The object is on the free list of one of the slabs.
abbrev pub is_free : ℕ → List Slab → Bool
is_free o [] = false
is_free o ((_, objs) ∷ bs) = has o objs || is_free o bs

-- What `free` is to do: the object becomes the first free one of the slab at `h`.
unfoldable pub give_back : (h o : ℕ) → List Slab → List Slab
give_back h o [] = []
give_back h o ((g, objs) ∷ bs) =
    let rest = give_back h o bs in if g == h then (g, o ∷ objs) ∷ bs else (g, objs) ∷ rest

-- The slabs of cache `i` and the free pages, as the allocator keeps them.
pub record IsCache (s : Machine) (i : ℕ) (bs : List Slab) (pages : List ℕ) : Type 0 where
  pub slabs : Slabs s.mem (cache s.kmalloc_cache i).slabs bs
  pub apart : AreApart bs
  pub sized : All (λ h. s.mem h ≡ (cache s.kmalloc_cache i).size) (headers bs)
  pub found : right_cache 0 s.kmalloc_cache (cache s.kmalloc_cache i).size none ≡ some i
  pub at_least : 8 ≤ (cache s.kmalloc_cache i).size
  pub at_most : (cache s.kmalloc_cache i).size ≤ 4072
  pub some_slab : 0 < length (headers bs)
  pub holds : Holds s pages
  pub frames : All (IsFrame s.hhdm) pages
  pub no_slab : All (λ x. has x (headers bs) ≡ false) pages

-- An address in another page is none of the objects.
pub other_page :
    (g h a : ℕ) (objs : List ℕ)
    → g % 4096 ≡ 0
    → h % 4096 ≡ 0
    → g ≢ h
    → h ≤ a
    → a < h + 4096
    → All (InPage g) objs
    → has a objs ≡ false
other_page g h a [] ag ah ne low high inside = refl
other_page g h a (o ∷ objs) ag ah ne low high inside =
    ground (arith, inside.0, other_page g h a objs ag ah ne low high inside.1)

pub headers-give_back : (h o : ℕ) (bs : List Slab) → headers (give_back h o bs) ≡ headers bs
unfolding give_back
headers-give_back h o [] = refl
headers-give_back h o ((g, objs) ∷ bs) = ground (arith, headers-give_back h o bs)

pub length-give_back : (h o : ℕ) (bs : List Slab) → length (give_back h o bs) ≡ length bs
unfolding give_back
length-give_back h o [] = refl
length-give_back h o ((g, objs) ∷ bs) = ground (arith, length-give_back h o bs)

pub give_back-AreApart :
    (h o : ℕ) (bs : List Slab)
    → InPage h o
    → is_free o bs ≡ false
    → AreApart bs
    → AreApart (give_back h o bs)
unfolding give_back
give_back-AreApart h o [] inside out apart = tt
give_back-AreApart h o ((g, objs) ∷ bs) inside out apart = elim (Bool-cases (g == h)) [
  | inl same ↦
      (let e : h ≡ g = ground arith in
        rw same (apart.0, apart.1, (rw e at inside, apart.2), (ground arith, apart.3), apart.4))
  | inr other ↦
      rw (other, headers-give_back h o bs)
        (
          apart.0,
          apart.1,
          apart.2,
          apart.3,
          give_back-AreApart h o bs inside (ground arith) apart.4,
        )
]

-- Headers and free pages are at multiples of 4096, so that a memory which agrees there keeps them.
abbrev pub SameAligned : Mem → Mem → Type 0
SameAligned m m' = (a : ℕ) → a % 4096 ≡ 0 → m' a ≡ m a

pub sized_agree :
    (m m' : Mem) (size : ℕ) (bs : List Slab)
    → SameAligned m m'
    → AreApart bs
    → All (λ h. m h ≡ size) (headers bs)
    → All (λ h. m' h ≡ size) (headers bs)
sized_agree m m' size [] same apart sized = tt
sized_agree m m' size ((h, objs) ∷ bs) same apart sized =
    (same h apart.0 ∙ sized.0, sized_agree m m' size bs same apart.4 sized.1)

frames_agree :
    (m m' : Mem) (hhdm : ℕ) (pages : List ℕ)
    → SameAligned m m'
    → All (IsFrame hhdm) pages
    → All (λ x. m' x ≡ m x) pages
frames_agree m m' hhdm [] same frames = tt
frames_agree m m' hhdm (x ∷ pages) same frames =
    (same x (frames.0).aligned, frames_agree m m' hhdm pages same frames.1)

pub Holds-agree :
    (s : Machine) (m' : Mem) (pages : List ℕ)
    → SameAligned s.mem m'
    → All (IsFrame s.hhdm) pages
    → Holds s pages
    → Holds (record s { mem = m' }) pages
Holds-agree s m' pages same frames holds = record {
  chain =
      Seg-agree s.mem m' s.head pages 0 (frames_agree s.mem m' s.hhdm pages same frames)
        holds.chain;
  nodup = holds.nodup;
}

-- Objects change hands, headers and pages do not.
pub IsCache-agree :
    (s : Machine) (i : ℕ) (bs bs' : List Slab) (pages : List ℕ) (m' : Mem)
    → IsCache s i bs pages
    → SameAligned s.mem m'
    → headers bs' ≡ headers bs
    → AreApart bs'
    → Slabs m' (cache s.kmalloc_cache i).slabs bs'
    → IsCache (record s { mem = m' }) i bs' pages
IsCache-agree s i bs bs' pages m' is same heads apart slabs = record {
  slabs = slabs;
  apart = apart;
  sized = rw heads (sized_agree s.mem m' _ bs same is.apart is.sized);
  found = is.found;
  at_least = is.at_least;
  at_most = is.at_most;
  some_slab = rw heads (is.some_slab);
  holds = Holds-agree s m' pages same is.frames is.holds;
  frames = is.frames;
  no_slab = rw heads (is.no_slab);
}
