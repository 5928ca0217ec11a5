-- ===== src/Slab/Grow.antt =====
-- `slab_alloc` of kernel/src/pmm.c when every slab is full: a new slab is put behind them.
use nyaux.Base.{
  ℕ, ◌+◌, ◌%◌, ◌<◌, ◌≡◌, ◌≢◌, refl, List, [], ◌∷◌, arith, true, false, some, ◌==◌, All, ◌∙◌, sym,
  ne→==, length,
}
use mathlib.Core.Path.{subst}
use nyaux.Machine.{Cache, Mem, write, Machine, ok, and_then, load, store, ◌>>=◌, ◌>>◌}
use nyaux.Machine.Chain.{has, Chain, last, write_ne, has-last}
use nyaux.Pmm.Stack.{Holds}
use nyaux.Vmm.Paging.Reach.{IsFrame}
use nyaux.Slab.{full, cache, make_slab, scan, grow, slab_alloc}
use nyaux.Slab.Objects.{IsFresh, all_objects, distinct, make_slab-IsFresh}
use nyaux.Slab.Layout.{Slab, headers, Slabs, InPage, AreApart, SamePage, Slabs-agree}
use nyaux.Slab.Abstract.{IsCache, SameAligned, sized_agree, Holds-agree}
use nyaux.Slab.Free.{header_of}
use nyaux.Slab.Extend.{append, has-headers-append, AreApart-append, Slabs-append, Slabs-take_last}
use nyaux.Slab.Alloc.{rest_of, Allocated, rest_of-InPage}

-- A new slab leaves the pages of the others alone.
others_same :
    (m m' : Mem) (x size : ℕ) (bs : List Slab)
    → IsFresh m m' x size
    → x % 4096 ≡ 0
    → has x (headers bs) ≡ false
    → AreApart bs
    → All (λ b. SamePage m m' b.0) bs
others_same m m' x size [] fresh al out apart = tt
others_same m m' x size ((h, objs) ∷ bs) fresh al out apart =
    let ne : h ≢ x = λ e. ground arith in
    (
      λ a low high. fresh.outside a (ground (arith, ne, apart.0)),
      others_same m m' x size bs fresh al (ground arith) apart.4,
    )

sized-append :
    (m m' : Mem) (x size : ℕ) (bs : List Slab) (objs : List ℕ)
    → All (λ b. SamePage m m' b.0) bs
    → m' x ≡ size
    → All (λ h. m h ≡ size) (headers bs)
    → All (λ h. m' h ≡ size) (headers (append bs x objs))
sized-append m m' x size [] objs same new sized = (new, tt)
sized-append m m' x size ((h, own) ∷ bs) objs same new sized = (
  same.0 h (omega arith) (omega arith) ∙ sized.0,
  sized-append m m' x size bs objs same.1 new sized.1,
)

no_slab-append :
    (x : ℕ) (objs : List ℕ) (bs : List Slab) (pages : List ℕ)
    → has x pages ≡ false
    → All (λ y. has y (headers bs) ≡ false) pages
    → All (λ y. has y (headers (append bs x objs)) ≡ false) pages
no_slab-append x objs bs [] out none_of = tt
no_slab-append x objs bs (y ∷ pages) out none_of = (
  ground (arith, has-headers-append y x objs bs, none_of.0),
  no_slab-append x objs bs pages (ground arith) none_of.1,
)

length-headers-append :
    (x : ℕ) (objs : List ℕ) (bs : List Slab) → 0 < length (headers (append bs x objs))
length-headers-append x objs [] = omega arith
length-headers-append x objs (b ∷ bs) = omega arith

module _ (fuel i x h : ℕ) (own : List ℕ) (s : Machine) (bs : List Slab) (pages : List ℕ)
    (is : IsCache s i ((h, own) ∷ bs) (x ∷ pages)) where
  abbrev size : ℕ
  size = (cache s.kmalloc_cache i).size

  abbrev end : ℕ
  end = last h (headers bs)

  -- The memory in which the new slab is linked, and in which its first object is taken.
  abbrev linked : Mem → Mem
  linked m1 = write m1 (end + 8) x

  abbrev grown : Mem → Mem
  grown m1 = write (linked m1) (x + 16) (linked m1 (x + 24))

  end_facts : (end % 4096 ≡ 0) × (end ≢ 0) × (end ≢ x)
  end_facts =
      let there : has end (headers ((h, own) ∷ bs)) ≡ true = has-last h (headers bs) in
      let (al, nz, _) =
        header_of s.mem _ end size ((h, own) ∷ bs) there is.apart is.slabs is.sized in
      (al, nz, λ e. ground (arith, is.no_slab.0, rw e at there))

  grown_same : (m1 : Mem) → SameAligned m1 (grown m1)
  grown_same m1 a al =
      write_ne (linked m1) (x + 16) _ a (omega (arith, (is.frames.0).aligned))
      ∙ write_ne m1 (end + 8) x a (omega (arith, end_facts))

  grown-Slabs :
      (m1 : Mem)
      → IsFresh s.mem m1 x size
      → Slabs (grown m1) (cache s.kmalloc_cache i).slabs (append ((h, own) ∷ bs) x (rest_of size x))
  grown-Slabs m1 fresh =
      let al = (is.frames.0).aligned in
      let same = others_same s.mem m1 x size ((h, own) ∷ bs) fresh al is.no_slab.0 is.apart in
      let old = Slabs-agree s.mem m1 _ ((h, own) ∷ bs) same is.apart is.slabs in
      let objs = (x + 24) ∷ rest_of size x in
      let list : Chain m1 (m1 (x + 16)) objs =
        rw (all_objects size is.at_least is.at_most) at fresh.free_objects in
      let inside : InPage x (x + 24) = (omega arith, omega arith) in
      Slabs-take_last (linked m1) _ x (x + 24) (rest_of size x) ((h, own) ∷ bs) al is.no_slab.0
        (rest_of-InPage size x is.at_least is.at_most) is.apart
        (Slabs-append m1 _ h x own objs bs is.no_slab.0 is.apart
          (
            al,
            refl,
            (inside, rest_of-InPage size x is.at_least is.at_most),
            distinct size is.at_least is.at_most x,
            tt,
          )
          old (refl, omega (arith, is.frames.0), list, fresh.no_next))

  grow_runs :
      (s1 : Machine)
      → make_slab size s ≡ ok x s1
      → s1.mem (x + 16) ≡ x + 24
      → scan fuel (cache s.kmalloc_cache i).slabs s ≡ ok (full end) s
      → slab_alloc fuel i s ≡ ok (x + 24) (record s1 { mem = grown s1.mem })
  unfolding slab_alloc grow
  grow_runs s1 made first ran =
      let real : (x == 0) ≡ false = ne→== x 0 (omega (arith, is.frames.0)) in
      let last_real : (end == 0) ≡ false = ne→== end 0 end_facts.1 in
      let apart : ((x + 16) == (end + 8)) ≡ false =
        ne→== (x + 16) (end + 8) (omega (arith, end_facts, (is.frames.0).aligned)) in
      let object_real : ((x + 24) == 0) ≡ false = ne→== (x + 24) 0 (omega arith) in
      rw (ran, and_then, made, and_then, last_real)
        (rw (real, apart, first, and_then)
          (rw (◌>>=◌, load, object_real) (rw (◌>>◌, store, real) refl)))

  grown-IsCache :
      (s1 : Machine)
      → IsFresh s.mem s1.mem x size
      → Holds s1 pages
      → s1.hhdm ≡ s.hhdm
      → s1.kmalloc_cache ≡ s.kmalloc_cache
      → IsCache
          (record s1 { mem = grown s1.mem })
          i
          (append ((h, own) ∷ bs) x (rest_of size x))
          pages
  grown-IsCache s1 fresh holds offset_same caches_same =
      let al = (is.frames.0).aligned in
      let same = others_same s.mem s1.mem x size ((h, own) ∷ bs) fresh al is.no_slab.0 is.apart in
      let apart =
        AreApart-append x (rest_of size x) ((h, own) ∷ bs) al is.no_slab.0
          (rest_of-InPage size x is.at_least is.at_most) (distinct size is.at_least is.at_most x).1
          is.apart in
      let frames : All (IsFrame s1.hhdm) pages = rw offset_same (is.frames.1) in
      record {
        slabs = rw caches_same (grown-Slabs s1.mem fresh);
        apart = apart;
        sized =
            subst
              (λ (cs : List Cache).
                All (λ g. grown s1.mem g ≡ (cache cs i).size)
                  (headers (append ((h, own) ∷ bs) x (rest_of size x))))
              (sym caches_same)
              (sized_agree s1.mem (grown s1.mem) size (append ((h, own) ∷ bs) x (rest_of size x))
                (grown_same s1.mem) apart
                (sized-append s.mem s1.mem x size ((h, own) ∷ bs) (rest_of size x) same
                  fresh.has_size is.sized));
        found = rw caches_same (is.found);
        at_least = rw caches_same (is.at_least);
        at_most = rw caches_same (is.at_most);
        some_slab = length-headers-append x (rest_of size x) ((h, own) ∷ bs);
        holds = Holds-agree s1 (grown s1.mem) pages (grown_same s1.mem) frames holds;
        frames = frames;
        no_slab =
            no_slab-append x (rest_of size x) ((h, own) ∷ bs) pages is.holds.nodup.0 is.no_slab.1;
      }

  pub grow_state :
      scan fuel (cache s.kmalloc_cache i).slabs s ≡ ok (full end) s
      → Allocated s i
          (some (x + 24, append ((h, own) ∷ bs) x (rest_of size x), pages))
          (slab_alloc fuel i s)
  grow_state ran =
      let (s1, made, fresh, holds, offset_same, caches_same) =
        make_slab-IsFresh size is.at_least is.at_most s x pages is.holds is.frames in
      let list = rw (all_objects size is.at_least is.at_most) at fresh.free_objects in
      (
        record s1 { mem = grown s1.mem },
        grow_runs s1 made list.0 ran,
        grown-IsCache s1 fresh holds offset_same caches_same,
        caches_same,
      )
