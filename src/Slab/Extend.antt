-- ===== src/Slab/Extend.antt =====
-- A slab put behind the others (kernel/src/pmm.c: the end of slab_alloc), in memory.
use nyaux.Base.{
  ℕ, ◌+◌, ◌%◌, ◌≤◌, ◌<◌, ◌≡◌, ◌≢◌, refl, List, [], ◌∷◌, ◌++◌, arith, false, ◌||◌, ◌==◌, All, ◌∙◌,
}
use nyaux.Machine.{Mem, write}
use nyaux.Machine.Chain.{has, Nodup, Chain, last, Seg-write, write_ne, has-last}
use nyaux.Slab.Layout.{Slab, headers, Slabs, InPage, AreApart, Slabs-write, header_out}
use nyaux.Slab.Abstract.{other_page}

-- The slab behind the others.
abbrev pub append : List Slab → ℕ → List ℕ → List Slab
append bs x objs = bs ++ ((x, objs) ∷ [])

pub has-headers-append :
    (a x : ℕ) (objs : List ℕ) (bs : List Slab)
    → has a (headers (append bs x objs)) ≡ (has a (headers bs) || (a == x))
has-headers-append a x objs [] = ground arith
has-headers-append a x objs (b ∷ bs) = ground (arith, has-headers-append a x objs bs)

pub AreApart-append :
    (x : ℕ) (objs : List ℕ) (bs : List Slab)
    → x % 4096 ≡ 0
    → has x (headers bs) ≡ false
    → All (InPage x) objs
    → Nodup objs
    → AreApart bs
    → AreApart (append bs x objs)
AreApart-append x objs [] al out inside distinct apart = (al, refl, inside, distinct, tt)
AreApart-append x objs ((h, own) ∷ bs) al out inside distinct apart = (
  apart.0,
  ground (arith, has-headers-append h x objs bs, apart.1),
  apart.2,
  apart.3,
  AreApart-append x objs bs al (ground arith) inside distinct apart.4,
)

-- A slab is not touched by a write in another page.
slab_kept :
    (m : Mem) (g h c v : ℕ) (objs : List ℕ)
    → g % 4096 ≡ 0
    → h % 4096 ≡ 0
    → g ≢ h
    → h ≤ c
    → c < h + 4096
    → All (InPage g) objs
    → Chain m (m (g + 16)) objs
    → Chain (write m c v) (write m c v (g + 16)) objs × (write m c v (g + 8) ≡ m (g + 8))
slab_kept m g h c v objs ag ah ne low high inside list =
    let first : write m c v (g + 16) ≡ m (g + 16) = write_ne m c v (g + 16) (omega (arith, ne)) in
    (
      rw first (
          Seg-write m (m (g + 16)) objs 0 c v (other_page g h c objs ag ah ne low high inside)
            list),
      write_ne m c v (g + 8) (omega (arith, ne)),
    )

last_aligned :
    (h : ℕ) (own : List ℕ) (bs : List Slab)
    → AreApart ((h, own) ∷ bs)
    → last h (headers bs) % 4096 ≡ 0
last_aligned h own [] apart = apart.0
last_aligned h own ((g, objs) ∷ bs) apart = last_aligned g objs bs apart.4

-- The link from the last slab to the new one.
pub Slabs-append :
    (m : Mem) (p h x : ℕ) (own objs : List ℕ) (bs : List Slab)
    → has x (headers ((h, own) ∷ bs)) ≡ false
    → AreApart ((h, own) ∷ bs)
    → AreApart ((x, objs) ∷ [])
    → Slabs m p ((h, own) ∷ bs)
    → Slabs m x ((x, objs) ∷ [])
    → Slabs (write m (last h (headers bs) + 8) x) p (append ((h, own) ∷ bs) x objs)
Slabs-append m p h x own objs [] out apart new slabs single =
    let first : write m (h + 8) x (h + 16) ≡ m (h + 16) =
      write_ne m (h + 8) x (h + 16) (omega arith) in
    let next : write m (h + 8) x (h + 8) ≡ x = ground arith in
    (
      slabs.0,
      slabs.1,
      rw first (
          Seg-write m (m (h + 16)) own 0 (h + 8) x (header_out h (h + 8) own (omega arith) apart.2)
            slabs.2),
      rw next (
          Slabs-write m x h (h + 8) x ((x, objs) ∷ []) apart.0 (omega arith) (omega arith)
            (ground arith) new single),
    )
Slabs-append m p h x own objs ((g, gs) ∷ bs) out apart new slabs single =
    let l = last g (headers bs) in
    let far : h ≢ l = λ e. ground (arith, has-last g (headers bs), apart.1) in
    let (kept, next) =
      slab_kept m h l (l + 8) x own apart.0 (last_aligned g gs bs apart.4) far (omega arith)
        (omega arith) apart.2 slabs.2 in
    (
      slabs.0,
      slabs.1,
      kept,
      rw next (Slabs-append m (m (h + 8)) g x gs objs bs (ground arith) apart.4 new slabs.3 single),
    )

-- Taking the first object of the last slab.
pub Slabs-take_last :
    (m : Mem) (p x o : ℕ) (objs : List ℕ) (bs : List Slab)
    → x % 4096 ≡ 0
    → has x (headers bs) ≡ false
    → All (InPage x) objs
    → AreApart bs
    → Slabs m p (append bs x (o ∷ objs))
    → Slabs (write m (x + 16) (m o)) p (append bs x objs)
Slabs-take_last m p x o objs [] al out inside apart slabs =
    let first : write m (x + 16) (m o) (x + 16) ≡ m o = ground arith in
    let next : write m (x + 16) (m o) (x + 8) ≡ m (x + 8) =
      write_ne m (x + 16) (m o) (x + 8) (omega arith) in
    (
      slabs.0,
      slabs.1,
      rw first (
          Seg-write m (m o) objs 0 (x + 16) (m o) (header_out x (x + 16) objs (omega arith) inside)
            slabs.2.2),
      next ∙ slabs.3,
    )
Slabs-take_last m p x o objs ((g, gs) ∷ bs) al out inside apart slabs =
    let (kept, next) =
      slab_kept m g x (x + 16) (m o) gs apart.0 al (λ e. ground arith) (omega arith) (omega arith)
        apart.2 slabs.2 in
    (
      slabs.0,
      slabs.1,
      kept,
      rw next (Slabs-take_last m (m (g + 8)) x o objs bs al (ground arith) inside apart.4 slabs.3),
    )
