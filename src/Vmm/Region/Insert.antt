-- ===== src/Vmm/Region/Insert.antt =====
-- The search for a gap between two regions and the insertion there.
use nyaux.Base.{
  ℕ, zero, suc, ◌+◌, ◌≤◌, ◌<◌, ◌≡◌, ◌≢◌, ◌⊎◌, inl, inr, refl, sym, ◌∙◌, ap, List, [], ◌∷◌, arith,
  Bool, true, false, Option, none, some, ◌==◌, leb, if◌then◌else◌, All, ne→==, length, Bool-cases,
}
use mathlib.Core.Path.{subst}
use nyaux.Word.{add64, sub64}
use nyaux.Machine.{Mem, write, Machine, Run, ok, stop, no_free_region, and_then}
use nyaux.Vmm.Align.{align_up}
use nyaux.Vmm.Region.{find_gap, link_region}
use nyaux.Vmm.Region.Nodes.{
  RegionAt, Regions, NodesApart, AllApart, Regions-write, no_field, no_next,
}

-- Between `r` and `q` there is room for `size` bytes and a page more.
abbrev pub fits_between : (size : ℕ) → RegionAt → RegionAt → Bool
fits_between size r q =
    leb (add64 (align_up size 4096) 0x1000) (sub64 q.base (add64 r.base r.length))

-- The new region after `r`.
abbrev pub new_after : (new size : ℕ) → RegionAt → RegionAt
new_after new size r = record {
  addr = new;
  base = add64 r.base r.length;
  length = align_up size 4096;
}

-- What follows `r` once a region is put into the first gap, `none` if there is no gap.
unfoldable pub place : (new size : ℕ) → RegionAt → List RegionAt → Option (List RegionAt)
place new size r [] = none
place new size r (q ∷ rs) =
    if fits_between size r q
    then some (new_after new size r ∷ q ∷ rs)
    else elim (place new size q rs) [ none ↦ none | some qs ↦ some (q ∷ qs) ]

-- The memory after `link_region`.
abbrev linked : Mem → (new prev cur base len : ℕ) → Mem
linked m new prev cur base len =
    write (write (write (write m new base) (new + 8) len) (prev + 24) new) (new + 24) cur

link_region_lem :
    (s : Machine) (new prev cur size : ℕ)
    → new ≢ 0
    → prev ≢ 0
    → link_region new prev cur size s
      ≡ ok (add64 (s.mem prev) (s.mem (prev + 8))) (record s {
        mem =
            linked s.mem new prev cur (add64 (s.mem prev) (s.mem (prev + 8))) (align_up size 4096);
      })
unfolding link_region
link_region_lem s new prev cur size nz pz =
    let n : (new == 0) ≡ false = ne→== new 0 nz in
    let p : (prev == 0) ≡ false = ne→== prev 0 pz in rw (p, p, n, n, p, n) refl

linked-Regions :
    (m : Mem) (new size : ℕ) (r q : RegionAt) (rs : List RegionAt)
    → new ≢ 0
    → AllApart (r ∷ q ∷ rs)
    → All (λ x. NodesApart new x.addr) (r ∷ q ∷ rs)
    → Regions m r.addr (r ∷ q ∷ rs)
    → Regions
        (linked m new r.addr q.addr (add64 r.base r.length) (align_up size 4096))
        r.addr
        (r ∷ new_after new size r ∷ q ∷ rs)
linked-Regions m new size r q rs nz (r_apart, _) (new_r, new_apart) (_, rz, rb, rl, rest) =
    let m1 = write m new (add64 r.base r.length) in
    let m2 = write m1 (new + 8) (align_up size 4096) in
    let m3 = write m2 (r.addr + 24) new in
    let m4 = write m3 (new + 24) q.addr in
    let next : m4 (r.addr + 24) ≡ new = ground arith in
    let new_next : m4 (new + 24) ≡ q.addr = ground arith in
    let old : Regions m q.addr (q ∷ rs) = (refl, rest.1, rest.2, rest.3, rest.4) in
    let kept : Regions m4 q.addr (q ∷ rs) =
      Regions-write m3 q.addr (new + 24) q.addr (q ∷ rs)
        (no_field new (new + 24) (q ∷ rs) (omega arith) (omega arith) new_apart)
        (Regions-write m2 q.addr (r.addr + 24) new (q ∷ rs)
          (no_field r.addr (r.addr + 24) (q ∷ rs) (omega arith) (omega arith) r_apart)
          (Regions-write m1 q.addr (new + 8) (align_up size 4096) (q ∷ rs)
            (no_field new (new + 8) (q ∷ rs) (omega arith) (omega arith) new_apart)
            (Regions-write m q.addr new (add64 r.base r.length) (q ∷ rs)
              (no_field new new (q ∷ rs) (omega arith) (omega arith) new_apart) old))) in
    (
      refl,
      rz,
      ground arith,
      ground arith,
      rw next (refl, nz, ground arith, ground arith, rw new_next kept),
    )

-- The search from region `prev` on, and the insertion of the region at `new` where it ends.
abbrev pub search_and_link : (fuel new size prev cur : ℕ) → Machine → Run ℕ
search_and_link fuel new size prev cur s =
    and_then (find_gap fuel size prev cur s) (λ gap. link_region new gap.0 gap.1 size)

-- The list of regions with `n` put in.
pub data Added (n : RegionAt) : List RegionAt → List RegionAt → Type 0 where
  here : (rs : List RegionAt) → Added n rs (n ∷ rs)
  later : (q : RegionAt) {rs qs : List RegionAt} → Added n rs qs → Added n (q ∷ rs) (q ∷ qs)

-- How that ends, given what is to follow region `r`.
abbrev pub Outcome :
    Machine → (new size : ℕ) → RegionAt → List RegionAt → Option (List RegionAt) → Run ℕ → Type 0
Outcome s new size r rs none run = run ≡ stop no_free_region
Outcome s new size r rs (some qs) run =
    (b : ℕ) × (s' : Machine) × (run ≡ ok b s')
    × Regions s'.mem r.addr (r ∷ qs)
    × Added (record { addr = new; base = b; length = align_up size 4096 }) rs qs
    × ((a : ℕ)
        → (a < new) ⊎ (new + 32 ≤ a)
        → All (λ x. a ≢ x.addr + 24) (r ∷ rs)
        → s'.mem a ≡ s.mem a)

-- One step of the search, where the test fails.
find_gap-skip :
    (fuel new size : ℕ) (s : Machine) (r q : RegionAt) (rs : List RegionAt)
    → Regions s.mem r.addr (r ∷ q ∷ rs)
    → fits_between size r q ≡ false
    → search_and_link (suc fuel) new size r.addr (s.mem (r.addr + 24)) s
      ≡ search_and_link fuel new size q.addr (s.mem (q.addr + 24)) s
unfolding find_gap
find_gap-skip fuel new size s r q rs (_, rz, rb, rl, (at, qz, qb, ql, _)) no_fit =
    let z : (q.addr == 0) ≡ false = ne→== q.addr 0 qz in
    let y : (r.addr == 0) ≡ false = ne→== r.addr 0 rz in rw (at, z, y, y, qb, rb, rl, no_fit) refl

find_gap-found :
    (fuel new size : ℕ) (s : Machine) (r q : RegionAt) (rs : List RegionAt)
    → Regions s.mem r.addr (r ∷ q ∷ rs)
    → fits_between size r q ≡ true
    → search_and_link (suc fuel) new size r.addr (s.mem (r.addr + 24)) s
      ≡ link_region new r.addr q.addr size s
unfolding find_gap
find_gap-found fuel new size s r q rs (_, rz, rb, rl, (at, qz, qb, ql, _)) fit =
    let z : (q.addr == 0) ≡ false = ne→== q.addr 0 qz in
    let y : (r.addr == 0) ≡ false = ne→== r.addr 0 rz in rw (at, z, y, y, qb, rb, rl, fit) refl

Outcome-skip :
    (s : Machine) (new size : ℕ) (r q : RegionAt) (rs : List RegionAt) (o : Option (List RegionAt))
    (run : Run ℕ)
    → Regions s.mem r.addr (r ∷ q ∷ rs)
    → AllApart (r ∷ q ∷ rs)
    → NodesApart new r.addr
    → Outcome s new size q rs o run
    → Outcome s new size r (q ∷ rs) (elim o [ none ↦ none | some qs ↦ some (q ∷ qs) ]) run
Outcome-skip s new size r q rs none run is apart new_r out = out
Outcome-skip s new size r q rs (some qs) run (_, rz, rb, rl, (at, _, _, _, _)) (r_apart, _) new_r
      (b, s', e, regions, added, same) =
    let keeps : (k : ℕ) → k < 32 → s'.mem (r.addr + k) ≡ s.mem (r.addr + k) =
      λ k low. same (r.addr + k) (omega arith) (no_next r.addr k (q ∷ rs) low r_apart) in
    (
      b,
      s',
      e,
      (
        refl,
        rz,
        ap s'.mem (omega arith) ∙ keeps 0 (omega arith) ∙ ap s.mem (omega arith) ∙ rb,
        keeps 8 (omega arith) ∙ rl,
        rw (keeps 24 (omega arith), at) regions,
      ),
      later q added,
      λ a out others. same a out others.1,
    )

pub place-found :
    (new size : ℕ) (r q : RegionAt) (rs : List RegionAt)
    → fits_between size r q ≡ true
    → place new size r (q ∷ rs) ≡ some (new_after new size r ∷ q ∷ rs)
unfolding place
place-found new size r q rs fit = rw fit refl

pub place-skip :
    (new size : ℕ) (r q : RegionAt) (rs : List RegionAt)
    → fits_between size r q ≡ false
    → place new size r (q ∷ rs) ≡ (elim (place new size q rs) as (λ x. Option (List RegionAt)) [
      | none ↦ none
      | some qs ↦ some (q ∷ qs)
    ])
unfolding place
place-skip new size r q rs fit = rw fit refl

Outcome-found :
    (fuel new size : ℕ) (s : Machine) (r q : RegionAt) (rs : List RegionAt)
    → Regions s.mem r.addr (r ∷ q ∷ rs)
    → AllApart (r ∷ q ∷ rs)
    → All (λ x. NodesApart new x.addr) (r ∷ q ∷ rs)
    → new ≢ 0
    → fits_between size r q ≡ true
    → Outcome s new size r
        (q ∷ rs)
        (some (new_after new size r ∷ q ∷ rs))
        (search_and_link (suc fuel) new size r.addr (s.mem (r.addr + 24)) s)
Outcome-found fuel new size s r q rs is apart new_apart nz fit =
    let m4 = linked s.mem new r.addr q.addr (add64 r.base r.length) (align_up size 4096) in
    (
      add64 r.base r.length,
      record s { mem = m4 },
      find_gap-found fuel new size s r q rs is fit
          ∙ link_region_lem s new r.addr q.addr size nz is.1
          ∙ rw (is.2, is.3) refl,
      linked-Regions s.mem new size r q rs nz apart new_apart is,
      here (q ∷ rs),
      λ a out others. ground (arith, others.0),
    )

pub place_lem :
    (fuel new size : ℕ) (s : Machine) (r : RegionAt) (rs : List RegionAt)
    → Regions s.mem r.addr (r ∷ rs)
    → AllApart (r ∷ rs)
    → All (λ x. NodesApart new x.addr) (r ∷ rs)
    → new ≢ 0
    → length rs < fuel
    → Outcome s new size r rs
        (place new size r rs)
        (search_and_link fuel new size r.addr (s.mem (r.addr + 24)) s)
place_lem zero new size s r rs is apart new_apart nz enough = absurd (omega arith)
place_lem (suc fuel) new size s r [] is apart new_apart nz enough =
    unfold place find_gap in rw (is.4) refl
place_lem (suc fuel) new size s r (q ∷ rs) is apart new_apart nz enough =
    elim (Bool-cases (fits_between size r q)) [
      | inl fit ↦
          subst
            (λ o.
              Outcome s new size r (q ∷ rs) o
                (search_and_link (suc fuel) new size r.addr (s.mem (r.addr + 24)) s))
            (sym (place-found new size r q rs fit))
            (Outcome-found fuel new size s r q rs is apart new_apart nz fit)
      | inr no_fit ↦
          subst
            (λ o.
              Outcome s new size r (q ∷ rs) o
                (search_and_link (suc fuel) new size r.addr (s.mem (r.addr + 24)) s))
            (sym (place-skip new size r q rs no_fit))
            (rw (find_gap-skip fuel new size s r q rs is no_fit) (
              Outcome-skip s new size r q rs (place new size q rs) _ is apart new_apart.0 (
                place_lem fuel new size s q rs (refl, is.4.1, is.4.2, is.4.3, is.4.4) apart.1
                  new_apart.1 nz (omega arith))))
    ]
