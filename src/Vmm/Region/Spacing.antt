-- ===== src/Vmm/Region/Spacing.antt =====
-- Regions never overlap: `vmm_region_alloc` of kernel/src/vmm.c keeps their order and their distance.
use nyaux.Base.{
  ℕ, zero, suc, ◌+◌, ◌≤◌, ◌<◌, ◌≡◌, ◌≢◌, ◌⊎◌, inl, inr, refl, sym, List, [], ◌∷◌, arith, true,
  false, Option, none, some, All, ne→==, length, Bool-cases,
}
use mathlib.Core.Path.{subst}
use nyaux.Word.{word_mod, add64, add64_small}
use nyaux.Machine.{Machine, Run, ok, stop, no_free_region, and_then}
use nyaux.Vmm.Align.{align_up}
use nyaux.Vmm.Region.{find_gap, link_region}
use nyaux.Vmm.Region.Nodes.{RegionAt, Regions, AllApart, NodesApart}
use nyaux.Vmm.Region.Insert.{
  fits_between, place, place-found, place-skip, Outcome, search_and_link, place_lem,
}

-- Each region ends before the next one begins, the last one below 2 ^ 64.
abbrev pub IsSpaced : RegionAt → List RegionAt → Type 0
IsSpaced r [] = r.base + r.length < word_mod
IsSpaced r (q ∷ rs) = (r.base + r.length ≤ q.base) × IsSpaced q rs

IsSpaced-end : (r : RegionAt) (rs : List RegionAt) → IsSpaced r rs → r.base + r.length < word_mod
IsSpaced-end r [] spaced = spaced
IsSpaced-end r (q ∷ rs) spaced = omega (arith, IsSpaced-end q rs spaced.1)

fits_room :
    (size : ℕ) (r q : RegionAt)
    → fits_between size r q ≡ true
    → r.base + r.length ≤ q.base
    → q.base < word_mod
    → align_up size 4096 + 0x1000 < word_mod
    → r.base + r.length + align_up size 4096 + 0x1000 ≤ q.base
fits_room size r q fit ordered below small = ground arith

-- Between `r` and `q` there are as many bytes as the size takes in whole pages, and a page more.
abbrev pub HasRoom : (size : ℕ) → RegionAt → RegionAt → Type 0
HasRoom size r q = r.base + r.length + align_up size 4096 + 4096 ≤ q.base

no_room :
    (size : ℕ) (r q : RegionAt)
    → fits_between size r q ≡ false
    → r.base + r.length ≤ q.base
    → q.base < word_mod
    → align_up size 4096 + 0x1000 < word_mod
    → ¬ (HasRoom size r q)
no_room size r q no_fit ordered below small room = absurd (ground arith)

-- No two neighbours from `r` on have the room.
abbrev pub HasNoGap : (size : ℕ) → RegionAt → List RegionAt → Type 0
HasNoGap size r [] = Unit
HasNoGap size r (q ∷ rs) = (¬ (HasRoom size r q)) × HasNoGap size q rs

-- `qs` is `rs` with the new region, the node at `new`, in the first gap behind `r` that has the room, right
-- behind the region before.
pub data InFirstGap (new size : ℕ) : RegionAt → List RegionAt → List RegionAt → Type 0 where
  first_gap :
      (r q : RegionAt) (rs : List RegionAt) (n : RegionAt)
      → HasRoom size r q
      → n.addr ≡ new
      → n.base ≡ r.base + r.length
      → n.length ≡ align_up size 4096
      → InFirstGap new size r (q ∷ rs) (n ∷ q ∷ rs)
  later_gap :
      (r q : RegionAt) (rs qs : List RegionAt)
      → ¬ (HasRoom size r q)
      → InFirstGap new size q rs qs
      → InFirstGap new size r (q ∷ rs) (q ∷ qs)

-- What holds of the regions that an insertion gives.
abbrev Placed : (new size : ℕ) → RegionAt → List RegionAt → Option (List RegionAt) → Type 0
Placed new size r rs none = HasNoGap size r rs
Placed new size r rs (some qs) = IsSpaced r qs × InFirstGap new size r rs qs

Placed-skip :
    (new size : ℕ) (r q : RegionAt) (rs : List RegionAt) (o : Option (List RegionAt))
    → ¬ (HasRoom size r q)
    → r.base + r.length ≤ q.base
    → Placed new size q rs o
    → Placed new size r
        (q ∷ rs)
        (elim o as (λ x. Option (List RegionAt)) [ none ↦ none | some qs ↦ some (q ∷ qs) ])
Placed-skip new size r q rs none full ordered is = (full, is)
Placed-skip new size r q rs (some qs) full ordered (is, gap) =
    ((ordered, is), later_gap r q rs qs full gap)

-- The new region too ends before the next begins.
place-Placed :
    (new size : ℕ) (r : RegionAt) (rs : List RegionAt)
    → align_up size 4096 + 0x1000 < word_mod
    → IsSpaced r rs
    → Placed new size r rs (place new size r rs)
place-Placed new size r [] small spaced = unfold place in tt
place-Placed new size r (q ∷ rs) small spaced =
    let q_end = IsSpaced-end q rs spaced.1 in
    elim (Bool-cases (fits_between size r q)) [
      | inl fit ↦ subst (Placed new size r (q ∷ rs)) (sym (place-found new size r q rs fit)) (
          let room = fits_room size r q fit spaced.0 (omega arith) small in
          let base : add64 r.base r.length ≡ r.base + r.length =
            add64_small r.base r.length (omega arith) in
          (
            (rw base (omega arith), (rw base (omega arith), spaced.1)),
            first_gap r q rs _ room refl base refl,
          ))
      | inr no_fit ↦ subst (Placed new size r (q ∷ rs)) (sym (place-skip new size r q rs no_fit)) (
          Placed-skip new size r q rs (place new size q rs)
            (no_room size r q no_fit spaced.0 (omega arith) small) spaced.0
            (place-Placed new size q rs small spaced.1))
    ]

-- How the search and the insertion end on the regions `r ∷ rs` from `p` on.
abbrev pub Ending : Machine → (new size p : ℕ) → RegionAt → List RegionAt → Run ℕ → Type 0
Ending s new size p r rs run =
    ((run ≡ stop no_free_region) × HasNoGap size r rs)
    ⊎ ((b : ℕ) × (s' : Machine) × (qs : List RegionAt) × (run ≡ ok b s')
        × Regions s'.mem p (r ∷ qs)
        × InFirstGap new size r rs qs
        × IsSpaced r qs)

Ending-from :
    (s : Machine) (new size : ℕ) (r : RegionAt) (rs : List RegionAt) (o : Option (List RegionAt))
    (run : Run ℕ)
    → Outcome s new size r rs o run
    → Placed new size r rs o
    → Ending s new size r.addr r rs run
Ending-from s new size r rs none run out placed = inl (out, placed)
Ending-from s new size r rs (some qs) run (b, s', e, regions, added, same) (spaced, gap) =
    inr (b, s', qs, e, regions, gap, spaced)

-- The first round only steps to the second region.
find_gap-first :
    (fuel new size p : ℕ) (s : Machine)
    → p ≢ 0
    → search_and_link (suc fuel) new size 0 p s ≡ search_and_link fuel new size p (s.mem (p + 24)) s
unfolding find_gap
find_gap-first fuel new size p s pz = rw (ne→== p 0 pz) refl

-- Regions that do not overlap stay so. The search and the insertion of `vmm_region_alloc` put the new region
-- into the first gap that has room for the size in whole pages and a page more, right behind the region before
-- the gap; the other regions stay, in their order, and each still ends before the next begins. If no gap has
-- the room the search stops and says so. The node of the new
-- region is apart from the others, and fuel beyond the number of regions is given.
pub link_region-find_gap :
    (fuel new size p : ℕ) (s : Machine) (r : RegionAt) (rs : List RegionAt)
    → Regions s.mem p (r ∷ rs)
    → AllApart (r ∷ rs)
    → All (λ x. NodesApart new x.addr) (r ∷ rs)
    → new ≢ 0
    → IsSpaced r rs
    → align_up size 4096 + 0x1000 < word_mod
    → length (r ∷ rs) < fuel
    → Ending s new size p r rs
        (and_then (find_gap fuel size 0 p s) (λ gap. link_region new gap.0 gap.1 size))
link_region-find_gap zero new size p s r rs is apart new_apart nz spaced small enough =
    absurd (omega arith)
link_region-find_gap (suc fuel) new size p s r rs is apart new_apart nz spaced small enough =
    subst (λ t. Ending s new size t r rs (search_and_link (suc fuel) new size 0 t s)) (sym is.0)
      (rw (find_gap-first fuel new size r.addr s is.1) (
        Ending-from s new size r rs (place new size r rs) _
          (place_lem fuel new size s r rs (refl, is.1, is.2, is.3, is.4) apart new_apart nz
            (omega arith))
          (place-Placed new size r rs small spaced)))
