-- ===== src/Vmm/Paging/Step.antt =====
-- One step of the walk of `map`: to the next table, or to a new one.
use mathlib.Core.Logic.{◌≢◌}
use mathlib.Core.Path.{subst}
use nyaux.Base.{
  ℕ, suc, ◌%◌, ◌^◌, ◌≤◌, ◌<◌, ◌≡◌, refl, List, [], ◌∷◌, arith, bit_and, bit_or, false, true, All,
  ◌==◌, length, inl, inr, ◌⊎◌, Bool-cases,
}
use nyaux.Word.{add64, sub64}
use nyaux.Machine.{Mem, Machine, ok}
use nyaux.Machine.Chain.{has}
use nyaux.Pmm.Stack.{Holds, alloc_cons}
use nyaux.Vmm.Paging.{entry, table_mask, get_next_table, new_next_table}
use nyaux.Vmm.Paging.Reach.{
  IsTable, IsFrame, Reaches, IsClear, bit_and_one, new_entry, Seg-agree, grown, grown_new,
  grown_other, grown_free,
}

-- A frame is a page of its own.
IsFrame-IsTable : (hhdm x : ℕ) → IsFrame hhdm x → IsTable x
IsFrame-IsTable hhdm x f = omega arith

-- What one step from `table` leaves.
pub record Stepped (s : Machine) (table i flags : ℕ) (is seen free : List ℕ) : Type 0 where
  pub s' : Machine
  pub free' : List ℕ
  pub next : ℕ
  pub runs : get_next_table table i flags s ≡ ok next s'
  pub same : s'.hhdm ≡ s.hhdm
  pub holds : Holds s' free'
  pub frames : All (IsFrame s.hhdm) free'
  pub enough : length free ≤ suc (length free')
  pub shrinks : (a : ℕ) → has a free ≡ false → has a free' ≡ false
  pub present : bit_and (s'.mem (entry table i)) 1 ≡ 1
  pub points : bit_and (s'.mem (entry table i)) table_mask ≡ next
  pub not_null : next ≢ 0
  pub others :
      (t j : ℕ)
      → IsTable t
      → t ≢ table
      → has t free ≡ false
      → j < 512
      → s'.mem (entry t j) ≡ s.mem (entry t j)
  pub clear : IsClear s.hhdm s'.mem (add64 next s.hhdm) is (table ∷ seen) free'
  pub keeps :
      (t j : ℕ)
      → IsTable t
      → has t free ≡ false
      → j < 512
      → bit_and (s.mem (entry t j)) 1 ≡ 1
      → s'.mem (entry t j) ≡ s.mem (entry t j)
  pub back :
      (last : ℕ)
      → Reaches s.hhdm s'.mem (add64 next s.hhdm) is last
      → (has last free ≡ true) ⊎ Reaches s.hhdm s.mem table (i ∷ is) last

-- A cleared table has no entries to follow.
IsClear-new :
    (hhdm : ℕ) (m : Mem) (x : ℕ) (is seen free : List ℕ)
    → IsTable x
    → ((j : ℕ) → j < 512 → m (entry x j) ≡ 0)
    → All (λ j. j < 512) is
    → has x seen ≡ false
    → has x free ≡ false
    → IsClear hhdm m x is seen free
IsClear-new hhdm m x [] seen free t zeros below new out = (t, new, out)
IsClear-new hhdm m x (i ∷ is) seen free t zeros below new out =
    (t, new, out, below.0, λ p. absurd (omega (arith, zero_entry, p)))
  where
    zero_entry : bit_and (m (entry x i)) 1 ≡ 0
    zero_entry = rw (zeros i below.0)

-- From a cleared table nothing else is reached.
Reaches-new :
    (hhdm : ℕ) (m : Mem) (x last : ℕ) (is : List ℕ)
    → ((j : ℕ) → j < 512 → m (entry x j) ≡ 0)
    → All (λ j. j < 512) is
    → Reaches hhdm m x is last
    → x ≡ last
Reaches-new hhdm m x last [] zeros below r = r
Reaches-new hhdm m x last (i ∷ is) zeros below r =
    let zero_entry : bit_and (m (entry x i)) 1 ≡ 0 = rw (zeros i below.0) in
    absurd (omega (arith, zero_entry, r.1))

-- A new entry leaves the entries that are present alone.
grown_present :
    (m : Mem) (x table i e t j : ℕ)
    → IsTable x
    → IsTable table
    → IsTable t
    → t ≢ x
    → i < 512
    → j < 512
    → bit_and (m (entry table i)) 1 ≡ 0
    → bit_and (m (entry t j)) 1 ≡ 1
    → grown m x table i e (entry t j) ≡ m (entry t j)
grown_present m x table i e t j hx ht hs ne hi hj missing there = elim (Bool-cases (t == table)) [
  | inl same ↦
      (let at : t ≡ table = ground arith in
        let other : j ≢ i = λ eq. omega (
          arith,
          missing,
          subst (λ (k : ℕ). bit_and (m (entry table k)) 1 ≡ 1) eq
              (subst (λ (k : ℕ). bit_and (m (entry k j)) 1 ≡ 1) at there),
        ) in
        ground arith)
  | inr apart ↦ grown_other m x table i e t j hx ht hs (λ eq. ground arith) ne hi hj
]

module _ (flags : ℕ) (masked : bit_and flags table_mask ≡ 0) (present : bit_and flags 1 ≡ 1) where
  step_present :
      (s : Machine) (table i : ℕ) (is seen free : List ℕ)
      → Holds s free
      → All (IsFrame s.hhdm) free
      → IsClear s.hhdm s.mem table (i ∷ is) seen free
      → bit_and (s.mem (entry table i)) 1 ≡ 1
      → Stepped s table i flags is seen free
  step_present s table i is seen free h fr c p = record {
    s' = s;
    free' = free;
    next = bit_and (s.mem (entry table i)) table_mask;
    runs = runs;
    same = refl;
    holds = h;
    frames = fr;
    enough = omega arith;
    shrinks = λ a o. o;
    present = p;
    points = refl;
    not_null = (c.4 p).0;
    others = λ t j _ _ _ _. refl;
    clear = (c.4 p).1;
    keeps = λ t j _ _ _ _. refl;
    back = λ last r. inr ((λ e. ground (arith, c.0)), p, (c.4 p).0, r);
  }
    where
      runs : get_next_table table i flags s ≡ ok (bit_and (s.mem (entry table i)) table_mask) s
      runs = let ne : (table == 0) ≡ false = ground arith in unfold get_next_table in rw (ne, p)

  step_missing :
      (s : Machine) (table i x : ℕ) (is seen free : List ℕ)
      → Holds s (x ∷ free)
      → All (IsFrame s.hhdm) (x ∷ free)
      → All (λ j. j < 512) is
      → (has x seen ≡ false)
      → IsClear s.hhdm s.mem table (i ∷ is) seen (x ∷ free)
      → bit_and (s.mem (entry table i)) 1 ≡ 0
      → Stepped s table i flags is seen (x ∷ free)
  step_missing s table i x is seen free h fr below new c p =
      let (ran, left) = alloc_cons s x free h in
      let page = IsFrame-IsTable s.hhdm x fr.0 in
      let ne : x ≢ table = ground (arith, c.2) in
      let out : has table free ≡ false = ground (arith, c.2) in
      let back : add64 (sub64 x s.hhdm) s.hhdm ≡ x = omega (arith, fr.0) in
      let small : sub64 x s.hhdm < 2 ^ 52 = omega (arith, fr.0) in
      let whole : sub64 x s.hhdm % 4096 ≡ 0 = omega (arith, fr.0) in
      let e = bit_or (sub64 x s.hhdm) flags in
      let (here, leads) = new_entry (sub64 x s.hhdm) flags whole small masked present in
      let s1 : Machine = record s { mem = grown s.mem x table i e; head = s.mem s.head } in
      let apart : (table == 0) ≡ false = ground (arith, c.0) in
      let self : (entry table i == entry table i) ≡ true = ground arith in
      let kept = grown_free s.mem s.hhdm x table i e free page c.0 c.3 fr.1 h.nodup.0 out in
      record {
        s' = s1;
        free' = free;
        next = sub64 x s.hhdm;
        runs =
            unfold get_next_table new_next_table in
            rw (apart, p, ran, back, apart, apart, self, leads) refl;
        same = refl;
        holds = record { chain = Seg-agree s.mem _ _ free 0 kept left.chain; nodup = left.nodup };
        frames = fr.1;
        enough = omega arith;
        shrinks = λ a o. ground arith;
        present = ground (arith, here);
        points = ground (arith, leads);
        not_null = omega (arith, fr.0);
        others = λ t j ht tn o hj.
            grown_other s.mem x table i e t j page c.0 ht tn (ground arith) c.3 hj;
        clear = rw back (
            IsClear-new s.hhdm s1.mem x is (table ∷ seen) free page
              (λ j hj. grown_new s.mem x table i e j page c.0 ne c.3 hj) below (ground arith)
              h.nodup.0);
        keeps = λ t j ht o hj there.
            grown_present s.mem x table i e t j page c.0 ht (λ eq. ground arith) c.3 hj p there;
        back = λ last r. inl (
            let at : x ≡ last =
              Reaches-new s.hhdm s1.mem x last is
                (λ j hj. grown_new s.mem x table i e j page c.0 ne c.3 hj) below (rw back at r) in
            ground arith);
      }

  pub step :
      (s : Machine) (table i : ℕ) (is seen free : List ℕ)
      → Holds s free
      → All (IsFrame s.hhdm) free
      → All (λ j. j < 512) is
      → ((a : ℕ) → has a seen ≡ true → has a free ≡ false)
      → 0 < length free
      → IsClear s.hhdm s.mem table (i ∷ is) seen free
      → Stepped s table i flags is seen free
  step s table i is seen [] h fr below apart some_free c = absurd (omega arith)
  step s table i is seen (x ∷ free) h fr below apart some_free c =
      elim (Bool-cases (bit_and (s.mem (entry table i)) 1 == 1)) [
        | inl p ↦ step_present s table i is seen (x ∷ free) h fr c (ground arith)
        | inr p ↦
            step_missing s table i x is seen free h fr below
              (elim (Bool-cases (has x seen)) [
                | inl bad ↦ ground (arith, apart x bad)
                | inr good ↦ good
              ])
              c (ground (arith, bit_and_one (s.mem (entry table i))))
      ]
