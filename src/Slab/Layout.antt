-- ===== src/Slab/Layout.antt =====
-- The slabs of a cache in memory (`struct Header` of kernel/src/pmm.h), each a page of its own.
use nyaux.Base.{ℕ, ◌+◌, ◌%◌, ◌≤◌, ◌<◌, ◌≡◌, ◌≢◌, refl, List, [], ◌∷◌, arith, false, All, map}
use nyaux.Machine.{Mem, write}
use nyaux.Machine.Chain.{has, Nodup, Chain, write_ne}
use nyaux.Vmm.Paging.Reach.{Seg-agree}

-- A slab: its header, and its free objects in the order of its list.
abbrev pub Slab : Type 0
Slab = ℕ × List ℕ

abbrev pub headers : List Slab → List ℕ
headers = map (λ b. b.0)

-- From header `p` the slabs of a cache follow one another to NULL, each with its free list.
abbrev pub Slabs : Mem → ℕ → List Slab → Type 0
Slabs m p [] = p ≡ 0
Slabs m p ((h, objs) ∷ bs) = (p ≡ h) × (h ≢ 0) × Chain m (m (h + 16)) objs × Slabs m (m (h + 8)) bs

-- An object lies in the page of its header, behind the header.
abbrev pub InPage : ℕ → ℕ → Type 0
InPage h o = (h + 24 ≤ o) × (o < h + 4096)

-- Slabs are distinct pages, and their free objects are distinct and stay in them.
abbrev pub AreApart : List Slab → Type 0
AreApart [] = Unit
AreApart ((h, objs) ∷ bs) =
    (h % 4096 ≡ 0) × (has h (headers bs) ≡ false) × All (InPage h) objs × Nodup objs × AreApart bs

-- Two memories agree on the page at `h`.
abbrev pub SamePage : Mem → Mem → ℕ → Type 0
SamePage m m' h = (a : ℕ) → h ≤ a → a < h + 4096 → m' a ≡ m a

objects_same :
    (m m' : Mem) (h : ℕ) (objs : List ℕ)
    → SamePage m m' h
    → All (InPage h) objs
    → All (λ o. m' o ≡ m o) objs
objects_same m m' h [] same inside = tt
objects_same m m' h (o ∷ objs) same inside = (
  same o (omega (arith, inside.0)) (omega (arith, inside.0)),
  objects_same m m' h objs same inside.1,
)

-- Slabs only depend on their pages.
pub Slabs-agree :
    (m m' : Mem) (p : ℕ) (bs : List Slab)
    → All (λ b. SamePage m m' b.0) bs
    → AreApart bs
    → Slabs m p bs
    → Slabs m' p bs
Slabs-agree m m' p [] same apart slabs = slabs
Slabs-agree m m' p ((h, objs) ∷ bs) same apart slabs =
    let list : m' (h + 16) ≡ m (h + 16) = same.0 (h + 16) (omega arith) (omega arith) in
    let next : m' (h + 8) ≡ m (h + 8) = same.0 (h + 8) (omega arith) (omega arith) in
    (
      slabs.0,
      slabs.1,
      rw list
          (Seg-agree m m' (m (h + 16)) objs 0 (objects_same m m' h objs same.0 apart.2) slabs.2),
      rw next (Slabs-agree m m' (m (h + 8)) bs same.1 apart.4 slabs.3),
    )

-- A write in one page is not in the others.
write_same :
    (m : Mem) (h c v : ℕ) (bs : List Slab)
    → h % 4096 ≡ 0
    → h ≤ c
    → c < h + 4096
    → has h (headers bs) ≡ false
    → AreApart bs
    → All (λ b. SamePage m (write m c v) b.0) bs
write_same m h c v [] al low high out apart = tt
write_same m h c v ((g, objs) ∷ bs) al low high out apart =
    let ne : g ≢ h = ground arith in
    (
      λ a from to. write_ne m c v a (omega (arith, ne, apart.0)),
      write_same m h c v bs al low high (ground arith) apart.4,
    )

-- Writing in the page of a slab leaves the slabs of other pages alone.
pub Slabs-write :
    (m : Mem) (p h c v : ℕ) (bs : List Slab)
    → h % 4096 ≡ 0
    → h ≤ c
    → c < h + 4096
    → has h (headers bs) ≡ false
    → AreApart bs
    → Slabs m p bs
    → Slabs (write m c v) p bs
Slabs-write m p h c v bs al low high out apart slabs =
    Slabs-agree m (write m c v) p bs (write_same m h c v bs al low high out apart) apart slabs

-- The words of a header are no objects.
pub header_out : (h a : ℕ) (objs : List ℕ) → a < h + 24 → All (InPage h) objs → has a objs ≡ false
header_out h a [] low inside = refl
header_out h a (o ∷ objs) low inside = ground (arith, header_out h a objs low inside.1)
