-- ===== src/Slab/Free.antt =====
-- `free` of kernel/src/pmm.c puts an object back on the free list of its slab.
use nyaux.Base.{
  ℕ, zero, suc, ◌+◌, ◌%◌, ◌≤◌, ◌<◌, ◌≡◌, ◌≢◌, refl, List, [], ◌∷◌, arith, true, false, ◌==◌, All,
  ◌∙◌, ne→==, ==_iff, length, Bool-cases, inl, inr,
}
use nyaux.Word.{word_mod}
use nyaux.Bits.{bit_and_field}
use nyaux.Machine.{Mem, write, Machine, ok, and_then, load, store, ◌>>=◌, ◌>>◌}
use nyaux.Machine.Chain.{has, Chain, Seg-write, write_ne}
use nyaux.Slab.Abstract.{
  is_free, give_back, IsCache, SameAligned, IsCache-agree, other_page, headers-give_back,
  length-give_back, give_back-AreApart,
}
use nyaux.Slab.{cache, page_of, append_slab, free}
use nyaux.Slab.Layout.{Slab, headers, Slabs, InPage, AreApart, Slabs-write, header_out}

pub page_of-InPage : (h o : ℕ) → h % 4096 ≡ 0 → InPage h o → o < word_mod → page_of o ≡ h
page_of-InPage h o al inside low = bit_and_field 12 52 o ∙ omega (arith, inside)

append_slab-there :
    (fuel h prev p : ℕ) (s : Machine) (bs : List Slab)
    → Slabs s.mem p bs
    → has h (headers bs) ≡ true
    → length bs ≤ fuel
    → append_slab fuel h prev p s ≡ ok tt s
unfolding append_slab
append_slab-there fuel h prev p s [] slabs there enough = absurd (cc)
append_slab-there zero h prev p s (b ∷ bs) slabs there enough = absurd (omega arith)
append_slab-there (suc fuel) h prev p s ((g, objs) ∷ bs) slabs there enough =
    let z : (g == 0) ≡ false = ne→== g 0 slabs.1 in
    elim (Bool-cases (g == h)) [
      | inl same ↦ rw (slabs.0, z, same) refl
      | inr other ↦
          rw (slabs.0, z, other)
            (append_slab-there fuel h g (s.mem (g + 8)) s bs slabs.3 (ground arith) (omega arith))
    ]

-- The memory that `free` leaves.
abbrev pub freed : Mem → (h o : ℕ) → Mem
freed m h o = write (write m o (m (h + 16))) (h + 16) o

module _ (m : Mem) (h o : ℕ) (ah : h % 4096 ≡ 0) (inside : InPage h o) where
  freed_ne : (a : ℕ) → a ≢ o → a ≢ h + 16 → freed m h o a ≡ m a
  freed_ne a ne ne' = write_ne (write m o (m (h + 16))) (h + 16) o a ne' ∙ write_ne m o _ a ne

  freed-Chain :
      (p : ℕ) (objs : List ℕ)
      → has o objs ≡ false
      → has (h + 16) objs ≡ false
      → Chain m p objs
      → Chain (freed m h o) p objs
  freed-Chain p objs out out' list =
      Seg-write (write m o (m (h + 16))) p objs 0 (h + 16) o out'
        (Seg-write m p objs 0 o (m (h + 16)) out list)

  freed-Slabs :
      (p : ℕ) (bs : List Slab)
      → has h (headers bs) ≡ false
      → AreApart bs
      → Slabs m p bs
      → Slabs (freed m h o) p bs
  freed-Slabs p bs out apart slabs =
      Slabs-write (write m o (m (h + 16))) p h (h + 16) o bs ah (omega arith) (omega arith) out
        apart
        (Slabs-write m p h o (m (h + 16)) bs ah (omega (arith, inside)) (omega (arith, inside)) out
          apart slabs)

  give_back-Slabs :
      (p : ℕ) (bs : List Slab)
      → is_free o bs ≡ false
      → AreApart bs
      → Slabs m p bs
      → Slabs (freed m h o) p (give_back h o bs)
  unfolding give_back
  give_back-Slabs p [] out apart slabs = slabs
  give_back-Slabs p ((g, objs) ∷ bs) out apart slabs =
      let next : freed m h o (g + 8) ≡ m (g + 8) =
        freed_ne (g + 8) (omega (arith, inside, apart.0)) (omega (arith, apart.0)) in
      elim (Bool-cases (g == h)) [
        | inl same ↦
            (let e : g ≡ h = (==_iff g h).0 same in
              let first : freed m h o (g + 16) ≡ o = ground arith in
              let second : freed m h o o ≡ m (g + 16) =
                write_ne (write m o (m (h + 16))) (h + 16) o o (omega (arith, inside))
                ∙ ground arith in
              rw (same) (
                slabs.0,
                slabs.1,
                (
                  first,
                  omega (arith, inside),
                  rw second (
                      freed-Chain (m (g + 16)) objs (ground arith)
                        (header_out g (h + 16) objs (omega arith) apart.2) slabs.2),
                ),
                rw next (freed-Slabs (m (g + 8)) bs (rw e at apart.1) apart.4 slabs.3),
              ))
        | inr other ↦
            (let ne : g ≢ h = ground arith in
              let list : freed m h o (g + 16) ≡ m (g + 16) =
                freed_ne (g + 16) (omega (arith, inside, apart.0)) (omega (arith, ne)) in
              rw other (
                slabs.0,
                slabs.1,
                rw list (
                    freed-Chain (m (g + 16)) objs (ground arith)
                      (other_page g h (h + 16) objs apart.0 ah ne (omega arith) (omega arith)
                        apart.2)
                      slabs.2),
                rw next (give_back-Slabs (m (g + 8)) bs (ground arith) apart.4 slabs.3),
              ))
      ]

  freed_same : SameAligned m (freed m h o)
  freed_same a al = freed_ne a (omega (arith, inside)) (omega arith)

-- The slab of an object is one of the slabs.
pub header_of :
    (m : Mem) (p h : ℕ) (size : ℕ) (bs : List Slab)
    → has h (headers bs) ≡ true
    → AreApart bs
    → Slabs m p bs
    → All (λ g. m g ≡ size) (headers bs)
    → (h % 4096 ≡ 0) × (h ≢ 0) × (m h ≡ size)
header_of m p h size [] there apart slabs sized = absurd (cc)
header_of m p h size ((g, objs) ∷ bs) there apart slabs sized = elim (Bool-cases (h == g)) [
  | inl same ↦ (let e : h ≡ g = (==_iff h g).0 same in rw e (apart.0, slabs.1, sized.0))
  | inr other ↦ header_of m (m (g + 8)) h size bs (ground arith) apart.4 slabs.3 sized.1
]

-- The machine after `free`.
abbrev pub free_state : Machine → (h o : ℕ) → Machine
free_state s h o = record s { mem = freed s.mem h o }

module _ (s : Machine) (i : ℕ) (bs : List Slab) (pages : List ℕ) (is : IsCache s i bs pages)
    (h o : ℕ) (there : has h (headers bs) ≡ true) (inside : InPage h o) (low : o < word_mod)
    (taken : is_free o bs ≡ false) where
  pub free_runs : (fuel : ℕ) → length bs ≤ fuel → free fuel o s ≡ ok tt (free_state s h o)
  unfolding free
  free_runs fuel enough =
      let (al, nz, size) = header_of s.mem _ h _ bs there is.apart is.slabs is.sized in
      let page : page_of o ≡ h = page_of-InPage h o al inside low in
      let start = (cache s.kmalloc_cache i).slabs in
      let walk : append_slab fuel h 0 start (free_state s h o) ≡ ok tt (free_state s h o) =
        append_slab-there fuel h 0 start (free_state s h o) (give_back h o bs)
          (give_back-Slabs s.mem h o al inside start bs taken is.apart is.slabs)
          (rw (headers-give_back h o bs) there) (rw (length-give_back h o bs) enough) in
      let real : (o == 0) ≡ false = ne→== o 0 (omega (arith, inside)) in
      let there_is : (h == 0) ≡ false = ne→== h 0 nz in
      rw (real, page, there_is, size, and_then, is.found)
        (rw (◌>>=◌, load, page, there_is, real) (rw (◌>>◌, store, there_is) walk))

  pub give_back-IsCache : IsCache (free_state s h o) i (give_back h o bs) pages
  give_back-IsCache =
      let (al, nz, size) = header_of s.mem _ h _ bs there is.apart is.slabs is.sized in
      IsCache-agree s i bs (give_back h o bs) pages (freed s.mem h o) is
        (freed_same s.mem h o al inside) (headers-give_back h o bs)
        (give_back-AreApart h o bs inside taken is.apart)
        (give_back-Slabs s.mem h o al inside _ bs taken is.apart is.slabs)
