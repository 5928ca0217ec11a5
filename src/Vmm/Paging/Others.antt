-- ===== src/Vmm/Paging/Others.antt =====
-- `map` keeps the translations of other addresses (kernel/src/vmm.c).
use nyaux.Base.{
  ℕ, ◌<◌, ◌≡◌, ◌≢◌, List, [], ◌∷◌, arith, bit_and, true, false, ap, ◌∙◌, sym, ◌==◌, ==_iff,
  Bool-cases, inl, inr,
}
use mathlib.Core.Path.{subst}
use nyaux.Machine.{Mem, Machine, ok}
use nyaux.Machine.Chain.{has}
use nyaux.Vmm.Paging.{entry, get_phys_from_entry, lvl1_index, map, virt_to_phys}
use nyaux.Vmm.Paging.Reach.{IsTable, Reaches, IsClear, next_table, entry_ne}
use nyaux.Vmm.Paging.Translate.{
  indices, IsMappable, IsFlags, Mapped, map-Mapped, virt_to_phys-Reaches, index-lt,
}

-- None of the tables on the way from `table`, before the last, is `t`.
abbrev pub Avoids : ℕ → Mem → ℕ → ℕ → List ℕ → Type 0
Avoids hhdm m t table [] = Unit
Avoids hhdm m t table (i ∷ is) =
    (table ≢ t) × Avoids hhdm m t (next_table hhdm (m (entry table i))) is

-- The walk for `virt'`, which ends at `last'`, stays clear of the entry of `virt` in the table `last`.
abbrev pub IsBeside : Machine → (pml4 virt virt' last' last : ℕ) → Type 0
IsBeside s pml4 virt virt' last' last =
    Avoids s.hhdm s.mem last pml4 (indices virt')
    × (last' ≡ last → lvl1_index virt' ≢ lvl1_index virt)

-- Tables on the way are not free pages.
Avoids-free :
    (hhdm : ℕ) (m : Mem) (t table last : ℕ) (is seen free : List ℕ)
    → IsClear hhdm m table is seen free
    → Reaches hhdm m table is last
    → has t free ≡ true
    → Avoids hhdm m t table is
Avoids-free hhdm m t table last [] seen free clear r is_free = tt
Avoids-free hhdm m t table last (i ∷ is) seen free clear r is_free = (
  λ e. ground (arith, clear.2, subst (λ (x : ℕ). has x free ≡ true) (sym e) is_free),
  Avoids-free hhdm m t (next_table hhdm (m (entry table i))) last is (table ∷ seen) free
      (clear.4 r.1).1 r.3 is_free,
)

last_clear :
    (hhdm : ℕ) (m : Mem) (table last : ℕ) (is seen free : List ℕ)
    → IsClear hhdm m table is seen free
    → Reaches hhdm m table is last
    → IsTable last × (has last free ≡ false)
last_clear hhdm m table last [] seen free clear r =
    subst (λ (x : ℕ). IsTable x × (has x free ≡ false)) r (clear.0, clear.2)
last_clear hhdm m table last (i ∷ is) seen free clear r =
    last_clear hhdm m (next_table hhdm (m (entry table i))) last is (table ∷ seen) free
      (clear.4 r.1).1 r.3

-- A memory that agrees on the entries of the way leads to the same table.
Reaches-agree :
    (hhdm : ℕ) (m m' : Mem) (t table last : ℕ) (is seen free : List ℕ)
    → ((x j : ℕ)
        → IsTable x
        → has x free ≡ false
        → j < 512
        → bit_and (m (entry x j)) 1 ≡ 1
        → x ≢ t
        → m' (entry x j) ≡ m (entry x j))
    → IsClear hhdm m table is seen free
    → Avoids hhdm m t table is
    → Reaches hhdm m table is last
    → Reaches hhdm m' table is last
Reaches-agree hhdm m m' t table last [] seen free agree clear avoids r = r
Reaches-agree hhdm m m' t table last (i ∷ is) seen free agree clear avoids r =
    let own = agree table i clear.0 clear.2 clear.3 r.1 avoids.0 in
    (
      r.0,
      ap (λ e. bit_and e 1) own ∙ r.1,
      rw own (r.2),
      rw own (
          Reaches-agree hhdm m m' t (next_table hhdm (m (entry table i))) last is (table ∷ seen)
            free agree (clear.4 r.1).1 avoids.1 r.3),
    )

entry_apart :
    (t u j k : ℕ)
    → IsTable t
    → IsTable u
    → j < 512
    → k < 512
    → (t ≡ u → j ≢ k)
    → entry t j ≢ entry u k
entry_apart t u j k ht hu hj hk apart = elim (Bool-cases (t == u)) [
  | inl same ↦ (let e : t ≡ u = (==_iff t u).0 same in let ne = apart e in omega (arith, e, ne))
  | inr other ↦ entry_ne t u j k ht hu (λ e. ground arith) hj hk
]

-- The table that ends up holding the entry of `virt` is beside the way too.
map-IsBeside :
    (s s' : Machine) (pml4 virt value virt' last' : ℕ) (free : List ℕ)
    → (d : Mapped s s' pml4 virt value free) → IsClear s.hhdm s.mem pml4 (indices virt') [] free
    → Reaches s.hhdm s.mem pml4 (indices virt') last'
    → ((last : ℕ)
        → Reaches s.hhdm s.mem pml4 (indices virt) last
        → IsBeside s pml4 virt virt' last' last)
    → IsBeside s pml4 virt virt' last' d.last
map-IsBeside s s' pml4 virt value virt' last' free d clear r beside = elim (d.origin) [
  | inl new ↦ (
    Avoids-free s.hhdm s.mem d.last pml4 last' (indices virt') [] free clear r new,
    λ e.
        (let (_, out) = last_clear s.hhdm s.mem pml4 last' (indices virt') [] free clear r in
          absurd (ground (arith, subst (λ (x : ℕ). has x free ≡ true) (sym e) new))),
  )
  | inr old ↦ beside d.last old
]

-- `map` keeps the translation of every other address: one whose walk meets no free page and ends at a
-- present entry, and that is beside the new mapping, has the same translation afterwards. Beside means
-- that the table for the new entry, if there is one already, is none of the upper tables on the other way
-- and, if both addresses share it, they have different entries in it. The conditions on the new
-- mapping are those under which `map` succeeds.
pub virt_to_phys-map_other :
    (s : Machine) (pml4 virt phys flags virt' last' : ℕ) (free : List ℕ)
    → IsMappable s pml4 virt free
    → IsFlags flags
    → IsClear s.hhdm s.mem pml4 (indices virt') [] free
    → Reaches s.hhdm s.mem pml4 (indices virt') last'
    → bit_and (s.mem (entry last' (lvl1_index virt'))) 1 ≡ 1
    → ((last : ℕ)
        → Reaches s.hhdm s.mem pml4 (indices virt) last
        → IsBeside s pml4 virt virt' last' last)
    → (s' : Machine) × (p : ℕ) × (map pml4 virt phys flags s ≡ ok tt s')
      × (virt_to_phys pml4 virt' s ≡ ok p s)
      × (virt_to_phys pml4 virt' s' ≡ ok p s')
virt_to_phys-map_other s pml4 virt phys flags virt' last' free v f clear r there beside =
    let (s', e, d) = map-Mapped s pml4 virt phys flags free v f in
    let (avoids, apart) = map-IsBeside s s' pml4 virt _ virt' last' free d clear r beside in
    let (table, out) = last_clear s.hhdm s.mem pml4 last' (indices virt') [] free clear r in
    let way : Reaches s.hhdm s'.mem pml4 (indices virt') last' =
      Reaches-agree s.hhdm s.mem s'.mem d.last pml4 last' (indices virt') [] free
        (λ x j hx o hj p ne.
          d.keeps x j hx o hj p (entry_ne x d.last j _ hx d.is_table ne hj (index-lt _)))
        clear avoids r in
    let other : entry last' (lvl1_index virt') ≢ entry d.last (lvl1_index virt) =
      entry_apart last' d.last (lvl1_index virt') (lvl1_index virt) table d.is_table (index-lt _)
        (index-lt _) apart in
    let kept : s'.mem (entry last' (lvl1_index virt')) ≡ s.mem (entry last' (lvl1_index virt')) =
      d.keeps last' (lvl1_index virt') table out (index-lt _) there other in
    (
      s',
      _,
      e,
      virt_to_phys-Reaches pml4 virt' last' s r table,
      virt_to_phys-Reaches pml4 virt' last' s' (rw (d.same) way) table
          ∙ ap (λ x. ok (get_phys_from_entry x) s') kept,
    )
