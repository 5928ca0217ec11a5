-- ===== src/Slab/Return.antt =====
-- `free` of kernel/src/pmm.c as a caller sees it: an object in use goes back to its slab.
use nyaux.Base.{
  ℕ, ◌+◌, ◌≤◌, ◌<◌, ◌≡◌, ◌≢◌, refl, List, [], ◌∷◌, arith, true, false, ◌==◌, All, sym, ==_iff,
  length, inl, inr, Bool-cases, if◌then◌else◌,
}
use mathlib.Core.Path.{subst}
use nyaux.Word.{word_mod}
use nyaux.Machine.{Machine, ok}
use nyaux.Machine.Chain.{has, Nodup}
use nyaux.Slab.{page_of, free}
use nyaux.Slab.Layout.{Slab, headers, InPage}
use nyaux.Slab.Abstract.{is_free, give_back, headers-give_back}
use nyaux.Slab.Free.{page_of-InPage, header_of, free_state, free_runs, give_back-IsCache}
use nyaux.Slab.Taking.{IsSlot, AreSlots}
use nyaux.Slab.Used.{IsUsed}
use nyaux.Slab.Live.{IsAllocator}

-- The objects in use once `o` is none of them.
abbrev pub erase : ℕ → List ℕ → List ℕ
erase o [] = []
erase o (x ∷ xs) = let rest = erase o xs in if o == x then xs else x ∷ rest

is_free-give_back :
    (h o y : ℕ) (bs : List Slab)
    → y ≢ o
    → is_free y bs ≡ false
    → is_free y (give_back h o bs) ≡ false
unfolding give_back
is_free-give_back h o y [] ne out = refl
is_free-give_back h o y ((g, objs) ∷ bs) ne out = ground (arith, is_free-give_back h o y bs ne)

AreSlots-give_back :
    (size h o : ℕ) (bs : List Slab)
    → IsSlot size h o
    → AreSlots size bs
    → AreSlots size (give_back h o bs)
unfolding give_back
AreSlots-give_back size h o [] slot slots = tt
AreSlots-give_back size h o ((g, objs) ∷ bs) slot slots = elim (Bool-cases (g == h)) [
  | inl same ↦
      (let e : h ≡ g = sym ((==_iff g h).0 same) in
        rw same ((subst (λ k. IsSlot size k o) e slot, slots.0), slots.1))
  | inr other ↦ rw other (slots.0, AreSlots-give_back size h o bs slot slots.1)
]

IsUsed-give_back :
    (size h o : ℕ) (bs : List Slab) (live : List ℕ)
    → has o live ≡ false
    → All (IsUsed size bs) live
    → All (IsUsed size (give_back h o bs)) live
IsUsed-give_back size h o bs [] out used = tt
IsUsed-give_back size h o bs (y ∷ live) out ((free_not, (g, there, slot)), used) = (
  (
    is_free-give_back h o y bs (λ e. ground arith) free_not,
    (g, rw (headers-give_back h o bs) there, slot),
  ),
  IsUsed-give_back size h o bs live (ground arith) used,
)

IsUsed-erase :
    (size h o : ℕ) (bs : List Slab) (live : List ℕ)
    → Nodup live
    → All (IsUsed size bs) live
    → All (IsUsed size (give_back h o bs)) (erase o live)
IsUsed-erase size h o bs [] nodup used = tt
IsUsed-erase size h o bs (y ∷ live) nodup used = elim (Bool-cases (o == y)) [
  | inl same ↦
      (let e : y ≡ o = sym ((==_iff o y).0 same) in
        rw same (IsUsed-give_back size h o bs live (rw e at nodup.0) used.1))
  | inr other ↦
      (let here = IsUsed-give_back size h o bs (y ∷ []) (ground arith) (used.0, tt) in
        rw other (here.0, IsUsed-erase size h o bs live nodup.1 used.1))
]

has-erase : (a o : ℕ) (xs : List ℕ) → has a xs ≡ false → has a (erase o xs) ≡ false
has-erase a o [] out = refl
has-erase a o (x ∷ xs) out = ground (arith, has-erase a o xs)

Nodup-erase : (o : ℕ) (xs : List ℕ) → Nodup xs → Nodup (erase o xs)
Nodup-erase o [] nodup = tt
Nodup-erase o (x ∷ xs) nodup = elim (Bool-cases (o == x)) [
  | inl same ↦ rw same (nodup.1)
  | inr other ↦ rw other (has-erase x o xs nodup.0, Nodup-erase o xs nodup.1)
]

pub IsUsed-at :
    (size o : ℕ) (bs : List Slab) (live : List ℕ)
    → has o live ≡ true
    → All (IsUsed size bs) live
    → IsUsed size bs o
IsUsed-at size o bs [] there used = absurd (cc)
IsUsed-at size o bs (y ∷ live) there used = elim (Bool-cases (o == y)) [
  | inl same ↦ subst (IsUsed size bs) (sym ((==_iff o y).0 same)) used.0
  | inr other ↦ IsUsed-at size o bs live (ground arith) used.1
]

header_low :
    (h : ℕ) (bs : List Slab)
    → has h (headers bs) ≡ true
    → All (λ g. g + 4096 ≤ word_mod) (headers bs)
    → h + 4096 ≤ word_mod
header_low h [] there low = absurd (cc)
header_low h (b ∷ bs) there low = ground (arith, low.0, header_low h bs)

-- `free` of an object in use returns, puts the object in front of the free list of its slab and keeps
-- the allocator: the object is no longer in use, all others still are. Fuel for the number of slabs is
-- enough.
pub free_refines :
    (fuel size i : ℕ) (s : Machine) (bs : List Slab) (pages live : List ℕ) (o : ℕ)
    → IsAllocator size s i bs pages live
    → has o live ≡ true
    → length bs ≤ fuel
    → (s' : Machine) × (free fuel o s ≡ ok tt s')
      × IsAllocator size s' i (give_back (page_of o) o bs) pages (erase o live)
free_refines fuel size i s bs pages live o is there enough =
    let c = is.is_cache in
    let (not_free, (h, is_header, (k, at, top))) = IsUsed-at size o bs live there is.used in
    let (al, nz, _) = header_of s.mem _ h _ bs is_header c.apart c.slabs c.sized in
    let at_least : 8 ≤ size = rw (is.size_is) at c.at_least in
    let inside : InPage h o = (omega (arith, at), omega (arith, top, at_least)) in
    let low : o < word_mod = omega (arith, header_low h bs is_header is.in_memory, inside) in
    let page : page_of o ≡ h = page_of-InPage h o al inside low in
    (
      free_state s h o,
      free_runs s i bs pages c h o is_header inside low not_free fuel enough,
      rw page (record {
        is_cache = give_back-IsCache s i bs pages c h o is_header inside low not_free;
        size_is = is.size_is;
        slots = AreSlots-give_back size h o bs (k, at, top) is.slots;
        in_memory = rw (headers-give_back h o bs) (is.in_memory);
        used = IsUsed-erase size h o bs live is.nodup is.used;
        nodup = Nodup-erase o live is.nodup;
      }),
    )
