-- ===== src/Vmm/Paging/Descend.antt =====
-- `map` walks down the tables and makes the ones that are missing.
use mathlib.Core.Logic.{◌≢◌}
use mathlib.Core.Path.{subst}
use nyaux.Base.{
  ℕ, ◌≤◌, ◌<◌, ◌≡◌, refl, List, [], ◌∷◌, arith, bit_and, false, true, ap, ◌∙◌, All, ◌==◌, length,
  inl, inr, ◌⊎◌, Bool-cases,
}
use nyaux.Word.{add64}
use nyaux.Machine.{Mem, Machine, Cmd, ok, and_then}
use nyaux.Machine.Chain.{has}
use nyaux.Pmm.Stack.{Holds}
use nyaux.Vmm.Paging.{entry, table_mask, get_next_table}
use nyaux.Vmm.Paging.Step.{Stepped, step}
use nyaux.Vmm.Paging.Reach.{IsTable, IsFrame, Reaches, IsClear}

-- The walk of `map`, one level for each index.
unfoldable pub descend : ℕ → List ℕ → (table flags : ℕ) → Cmd ℕ
descend hhdm [] table flags s = ok table s
descend hhdm (i ∷ is) table flags s =
    and_then (get_next_table table i flags s)
      (λ next s'. descend hhdm is (add64 next hhdm) flags s')

-- What the whole walk leaves: the table it ends at, which any memory that agrees on the entries of
-- all other tables reaches too.
pub record Walked (s : Machine) (table flags : ℕ) (is seen free : List ℕ) : Type 0 where
  pub s' : Machine
  pub free' : List ℕ
  pub last : ℕ
  pub runs : descend s.hhdm is table flags s ≡ ok last s'
  pub same : s'.hhdm ≡ s.hhdm
  pub holds : Holds s' free'
  pub is_table : IsTable last
  pub unseen : has last seen ≡ false
  pub kept :
      (t j : ℕ)
      → IsTable t
      → has t seen ≡ true
      → has t free ≡ false
      → j < 512
      → s'.mem (entry t j) ≡ s.mem (entry t j)
  pub keeps :
      (t j : ℕ)
      → IsTable t
      → has t free ≡ false
      → j < 512
      → bit_and (s.mem (entry t j)) 1 ≡ 1
      → s'.mem (entry t j) ≡ s.mem (entry t j)
  pub origin : (has last free ≡ true) ⊎ Reaches s.hhdm s.mem table is last
  pub reaches :
      (m : Mem)
      → ((t j : ℕ) → IsTable t → t ≢ last → j < 512 → m (entry t j) ≡ s'.mem (entry t j))
      → Reaches s.hhdm m table is last

-- A step and the walk from the table that it leads to.
Walked-cons :
    (s : Machine) (table i flags : ℕ) (is seen free : List ℕ)
    → IsTable table
    → i < 512
    → has table seen ≡ false
    → has table free ≡ false
    → (st : Stepped s table i flags is seen free)
    → Walked st.s' (add64 st.next st.s'.hhdm) flags is (table ∷ seen) st.free'
    → Walked s table flags (i ∷ is) seen free
Walked-cons s table i flags is seen free tab hi new out st w = record {
  s' = w.s';
  free' = w.free';
  last = w.last;
  runs =
      unfold descend in
      rw (st.runs) (
        subst (λ hh. descend hh is (add64 st.next hh) flags st.s' ≡ ok w.last w.s') st.same w.runs);
  same = w.same ∙ st.same;
  holds = w.holds;
  is_table = w.is_table;
  unseen = ground (arith, w.unseen);
  kept = λ t j ht old o hj.
      w.kept t j ht (ground arith) (st.shrinks t o) hj ∙ st.others t j ht (ground arith) o hj;
  keeps = λ t j ht o hj there.
      let first = st.keeps t j ht o hj there in
      let still : bit_and (st.s'.mem (entry t j)) 1 ≡ 1 = ap (λ e. bit_and e 1) first ∙ there in
      w.keeps t j ht (st.shrinks t o) hj still ∙ first;
  origin = elim (w.origin) [
    | inl new ↦ elim (Bool-cases (has w.last free)) [
      | inl is_new ↦ inl is_new
      | inr old ↦ absurd (ground (arith, st.shrinks w.last old))
    ]
    | inr r ↦ st.back w.last (rw (st.same) at r)
  ];
  reaches = λ m agree.
      let far : table ≢ w.last = ground (arith, w.unseen) in
      let own : m (entry table i) ≡ st.s'.mem (entry table i) =
        agree table i tab far hi ∙ w.kept table i tab (ground arith) (st.shrinks table out) hi in
      (
        ground (arith, tab.not_null),
        ap (λ e. bit_and e 1) own ∙ st.present,
        rw (own, st.points) (st.not_null),
        rw (own, st.points) (rw (st.same) at (w.reaches m agree)),
      );
}

module _ (flags : ℕ) (masked : bit_and flags table_mask ≡ 0) (present : bit_and flags 1 ≡ 1) where
  pub walk :
      (is : List ℕ) (s : Machine) (table : ℕ) (seen free : List ℕ)
      → Holds s free
      → All (IsFrame s.hhdm) free
      → All (λ j. j < 512) is
      → ((a : ℕ) → has a seen ≡ true → has a free ≡ false)
      → length is ≤ length free
      → IsClear s.hhdm s.mem table is seen free
      → Walked s table flags is seen free
  walk [] s table seen free h fr below apart enough c = record {
    s' = s;
    free' = free;
    last = table;
    runs = unfold descend in refl;
    same = refl;
    holds = h;
    is_table = c.0;
    unseen = c.1;
    kept = λ t j _ _ _ _. refl;
    keeps = λ t j _ _ _ _. refl;
    origin = inr refl;
    reaches = λ m agree. refl;
  }
  walk (i ∷ is) s table seen free h fr below apart enough c =
      let st =
        step flags masked present s table i is seen free h fr below.1 apart (omega arith) c in
      let apart' : (a : ℕ) → has a (table ∷ seen) ≡ true → has a st.free' ≡ false = λ a old.
        st.shrinks a (elim (Bool-cases (a == table)) [
          | inl e ↦ ground (arith, c.2)
          | inr e ↦ apart a (ground arith)
        ]) in
      Walked-cons s table i flags is seen free c.0 c.3 c.1 c.2 st (
        walk is st.s' (add64 st.next st.s'.hhdm) (table ∷ seen) st.free' st.holds
          (rw (st.same) (st.frames)) below.1 apart' (omega (arith, st.enough))
          (rw (st.same) (st.clear)))
