-- ===== src/Slab/Calls.antt =====
-- Any sequence of calls of `slab_alloc` and `free` (kernel/src/pmm.c) on one cache, with what the callers write.
use nyaux.Base.{
  ℕ, suc, ◌+◌, ◌≤◌, ◌≡◌, ◌≢◌, List, ◌∷◌, arith, true, Option, none, some, ◌==◌, sym, length, inl,
  inr, ◌⊎◌, Bool-cases, ==_iff,
}
use mathlib.Core.Path.{subst}
use nyaux.Machine.{Machine, Run, ok, write}
use nyaux.Machine.Chain.{has, Nodup}
use nyaux.Slab.{slab_alloc, free, page_of}
use nyaux.Slab.Abstract.{give_back}
use nyaux.Slab.Layout.{Slab}
use nyaux.Slab.Free.{header_of}
use nyaux.Slab.Taking.{IsSlot, IsObject}
use nyaux.Slab.Live.{IsAllocator, Given, slab_alloc_refines}
use nyaux.Slab.Writing.{slots_apart, pages_apart, write_object-IsAllocator}
use nyaux.Slab.Return.{erase, IsUsed-at, free_refines}

-- The loop of the code, which has no fuel, ends with `r`: it does on all fuel beyond a bound.
abbrev pub Returns : {A : Type 0} → (ℕ → Run A) → Run A → Type 0
Returns f r = (bound : ℕ) × ((fuel : ℕ) → bound ≤ fuel → f fuel ≡ r)

-- Calls on cache `i` from a machine to a machine, with the objects that the callers hold before and after. A
-- caller frees only an object that it holds, and writes words only into objects that it holds.
pub data Calls (size i : ℕ) (s0 : Machine) (live0 : List ℕ) : Machine → List ℕ → Type 0 where
  start : Calls size i s0 live0 s0 live0
  alloc :
      (s s' : Machine) (live : List ℕ) (o : ℕ)
      → Calls size i s0 live0 s live
      → Returns (λ fuel. slab_alloc fuel i s) (ok o s')
      → Calls size i s0 live0 s' (o ∷ live)
  release :
      (s s' : Machine) (live : List ℕ) (o : ℕ)
      → Calls size i s0 live0 s live
      → has o live ≡ true
      → Returns (λ fuel. free fuel o s) (ok tt s')
      → Calls size i s0 live0 s' (erase o live)
  fill :
      (s : Machine) (live : List ℕ) (o c v : ℕ)
      → Calls size i s0 live0 s live
      → has o live ≡ true
      → o ≤ c
      → c + 8 ≤ o + size
      → Calls size i s0 live0 (record s { mem = write s.mem c v }) live

-- A machine that keeps an allocator of such objects.
abbrev pub Keeps : (size i : ℕ) → Machine → List ℕ → Type 0
Keeps size i s live = (bs : List Slab) × (pages : List ℕ) × IsAllocator size s i bs pages live

Given-Keeps :
    (size i o : ℕ) (s' : Machine) (live : List ℕ) (t : Option (ℕ × List Slab × List ℕ)) (r : Run ℕ)
    → Given size i live t r
    → r ≡ ok o s'
    → Keeps size i s' (o ∷ live)
Given-Keeps size i o s' live none r g e = absurd (cc)
Given-Keeps size i o s' live (some (o', bs, pages)) r (s1, e1, is) e =
    let same_object : o' ≡ o = cc in
    let same_state : s1 ≡ s' = cc in
    (
      bs,
      pages,
      subst (λ (x : ℕ). IsAllocator size s' i bs pages (x ∷ live)) same_object
          (subst (λ (x : Machine). IsAllocator size x i bs pages (o' ∷ live)) same_state is),
    )

Keeps-alloc :
    (size i o : ℕ) (s s' : Machine) (live : List ℕ)
    → Keeps size i s live
    → Returns (λ fuel. slab_alloc fuel i s) (ok o s')
    → Keeps size i s' (o ∷ live)
Keeps-alloc size i o s s' live (bs, pages, is) (bound, returns) =
    let fuel = bound + suc (length bs) in
    Given-Keeps size i o s' live _ _
      (slab_alloc_refines fuel size i s bs pages live is (omega arith)) (returns fuel (omega arith))

Keeps-release :
    (size i o : ℕ) (s s' : Machine) (live : List ℕ)
    → Keeps size i s live
    → has o live ≡ true
    → Returns (λ fuel. free fuel o s) (ok tt s')
    → Keeps size i s' (erase o live)
Keeps-release size i o s s' live (bs, pages, is) there (bound, returns) =
    let fuel = bound + length bs in
    let (s1, e1, is1) = free_refines fuel size i s bs pages live o is there (omega arith) in
    let e = returns fuel (omega arith) in
    let same : s1 ≡ s' = cc in
    (
      give_back (page_of o) o bs,
      pages,
      subst
          (λ (x : Machine). IsAllocator size x i (give_back (page_of o) o bs) pages (erase o live))
          same is1,
    )

Keeps-fill :
    (size i o c v : ℕ) (s : Machine) (live : List ℕ)
    → Keeps size i s live
    → has o live ≡ true
    → o ≤ c
    → c + 8 ≤ o + size
    → Keeps size i (record s { mem = write s.mem c v }) live
Keeps-fill size i o c v s live (bs, pages, is) there from to = (
  bs,
  pages,
  write_object-IsAllocator size i o c v s bs pages live is there from (omega (arith, to)),
)

Calls-Keeps :
    {size i : ℕ} {s0 : Machine} {live0 : List ℕ} {s : Machine} {live : List ℕ}
    → Keeps size i s0 live0
    → Calls size i s0 live0 s live
    → Keeps size i s live
Calls-Keeps k start = k
Calls-Keeps {size = size} {i = i} k (alloc s s' live o calls returns) =
    Keeps-alloc size i o s s' live (Calls-Keeps k calls) returns
Calls-Keeps {size = size} {i = i} k (release s s' live o calls there returns) =
    Keeps-release size i o s s' live (Calls-Keeps k calls) there returns
Calls-Keeps {size = size} {i = i} k (fill s live o c v calls there from to) =
    Keeps-fill size i o c v s live (Calls-Keeps k calls) there from to

-- Objects of one cache do not overlap.
objects_apart :
    (size i : ℕ) (s : Machine) (bs : List Slab) (pages live : List ℕ) (o o' : ℕ)
    → IsAllocator size s i bs pages live
    → IsObject size bs o
    → IsObject size bs o'
    → o ≢ o'
    → (o + size ≤ o') ⊎ (o' + size ≤ o)
objects_apart size i s bs pages live o o' is (h, there, slot) (h', there', slot') ne =
    let c = is.is_cache in
    let (al, _, _) = header_of s.mem _ h _ bs there c.apart c.slabs c.sized in
    let (al', _, _) = header_of s.mem _ h' _ bs there' c.apart c.slabs c.sized in
    elim (Bool-cases (h == h')) [
      | inl same ↦
          slots_apart size h o o' slot
            (subst (λ (g : ℕ). IsSlot size g o') (sym ((==_iff h h').0 same)) slot') ne
      | inr other ↦ pages_apart size h h' o o' al al' (λ e. ground arith) slot slot'
    ]

-- In any sequence of allocations and frees on one cache, and of writes of callers into the objects that they hold,
-- the objects that they hold at any time are distinct, and no two of them overlap. Callers free only what they
-- hold, and start from a machine that keeps its allocator. Between these steps nothing else changes the machine.
pub Calls-apart :
    (size i : ℕ) (s s' : Machine) (bs : List Slab) (pages live live' : List ℕ)
    → IsAllocator size s i bs pages live
    → Calls size i s live s' live'
    → Nodup live'
      × ((o o' : ℕ)
          → has o live' ≡ true
          → has o' live' ≡ true
          → o ≢ o'
          → (o + size ≤ o') ⊎ (o' + size ≤ o))
Calls-apart size i s s' bs pages live live' is calls =
    let (bs', pages', is') = Calls-Keeps {size = size} (bs, pages, is) calls in
    (
      is'.nodup,
      λ o o' there there' ne.
          objects_apart size i s' bs' pages' live' o o' is'
            (IsUsed-at size o bs' live' there is'.used).1
            (IsUsed-at size o' bs' live' there' is'.used).1 ne,
    )
