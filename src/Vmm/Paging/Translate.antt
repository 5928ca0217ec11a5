-- ===== src/Vmm/Paging/Translate.antt =====
-- What `map` writes, `virt_to_phys` and `unmap` find.
use mathlib.Core.Logic.{◌≢◌}
use nyaux.Base.{
  ℕ, ◌%◌, ◌^◌, ◌≤◌, ◌<◌, ◌≡◌, refl, List, [], ◌∷◌, arith, bit_and, bit_or, false, true, ap, ◌∙◌,
  All, ◌==◌, length, ne→==, ◌⊎◌,
}
use nyaux.Word.{add64}
use nyaux.Bits.{bit_and_low, bit_and_field, bit_and-bit_or, bit_or-zero}
use nyaux.Machine.{Mem, write, Machine, Cmd, Run, ok, stop, and_then}
use nyaux.Machine.Chain.{has, write_ne}
use nyaux.Pmm.Stack.{Holds}
use nyaux.Vmm.Paging.{
  entry, table_mask, store_entry, get_phys_from_entry, lvl4_index, lvl3_index, lvl2_index,
  lvl1_index, map, get_next_table_unmap, last_table, old_entry, virt_to_phys, unmap,
}
use nyaux.Vmm.Paging.Reach.{IsTable, IsFrame, Reaches, IsClear, bit_and_one, new_entry, entry_ne}
use nyaux.Vmm.Paging.Descend.{descend, walk}

abbrev pub indices : ℕ → List ℕ
indices virt = lvl4_index virt ∷ lvl3_index virt ∷ lvl2_index virt ∷ []

and_then_assoc :
    {A B C : Type 0} (r : Run A) (k : A → Cmd B) (l : B → Cmd C)
    → and_then (and_then r k) l ≡ and_then r (λ a s. and_then (k a s) l)
and_then_assoc (ok a s) k l = refl
and_then_assoc (stop e) k l = refl

map-descend :
    (pml4 virt phys flags : ℕ) (s : Machine)
    → map pml4 virt phys flags s
      ≡ and_then
          (descend s.hhdm (indices virt) pml4 flags s)
          (λ table. store_entry table (lvl1_index virt) (bit_or phys flags))
unfolding map descend
map-descend pml4 virt phys flags s = simp and_then_assoc

-- An entry that is present points on, also for the walk of `virt_to_phys`.
get_next_table_unmap-present :
    (table i : ℕ) (s : Machine)
    → table ≢ 0
    → bit_and (s.mem (entry table i)) 1 ≡ 1
    → get_next_table_unmap table i s ≡ ok (bit_and (s.mem (entry table i)) table_mask) s
unfolding get_next_table_unmap
get_next_table_unmap-present table i s ne p =
    let z : (table == 0) ≡ false = ne→== table 0 ne in rw (z, z, p)

-- A walk that reaches a table ends `last_table` there.
last_table-Reaches :
    (pml4 virt last : ℕ) (s : Machine)
    → Reaches s.hhdm s.mem pml4 (indices virt) last
    → (p : ℕ) × (last_table pml4 virt s ≡ ok p s) × (p ≢ 0) × (add64 p s.hhdm ≡ last)
unfolding last_table
last_table-Reaches pml4 virt last s r =
    let a = get_next_table_unmap-present pml4 (lvl4_index virt) s r.0 r.1 in
    let b = get_next_table_unmap-present _ (lvl3_index virt) s r.3.0 r.3.1 in
    let c = get_next_table_unmap-present _ (lvl2_index virt) s r.3.3.0 r.3.3.1 in
    (_, rw (a, ne→== _ 0 r.2, b, ne→== _ 0 r.3.2) c, r.3.3.2, r.3.3.3)

-- Where the walk ends, `virt_to_phys` reads the entry.
pub virt_to_phys-Reaches :
    (pml4 virt last : ℕ) (s : Machine)
    → Reaches s.hhdm s.mem pml4 (indices virt) last
    → IsTable last
    → virt_to_phys pml4 virt s ≡ ok (get_phys_from_entry (s.mem (entry last (lvl1_index virt)))) s
virt_to_phys-Reaches pml4 virt last s r table =
    let (p, e, ne, at) = last_table-Reaches pml4 virt last s r in
    let real : (last == 0) ≡ false = ground (arith, table) in
    unfold virt_to_phys old_entry in rw (e, ne→== p 0 ne, at, real) (ground arith)

-- A virtual address can be mapped: three free pages for the tables that may be missing, and the
-- tables on the way are pages of their own.
pub record IsMappable (s : Machine) (pml4 virt : ℕ) (free : List ℕ) : Type 0 where
  pub holds : Holds s free
  pub frames : All (IsFrame s.hhdm) free
  pub enough : 3 ≤ length free
  pub tables : IsClear s.hhdm s.mem pml4 (indices virt) [] free

-- Flags that mark an entry present and stay out of the address bits.
pub record IsFlags (flags : ℕ) : Type 0 where
  pub present : bit_and flags 1 ≡ 1
  pub masked : bit_and flags table_mask ≡ 0
  pub masked_phys : bit_and flags 0x0007FFFFFFFFF000 ≡ 0

pub index-lt : (x : ℕ) → bit_and x 0x1FF < 512
index-lt x = omega (arith, bit_and_low 9 x)

get_phys-entry :
    (phys flags : ℕ)
    → phys % 4096 ≡ 0
    → phys < 2 ^ 51
    → IsFlags flags
    → get_phys_from_entry (bit_or phys flags) ≡ phys
unfolding get_phys_from_entry
get_phys-entry phys flags al small f =
    let whole : bit_and phys 0x0007FFFFFFFFF000 ≡ phys = bit_and_field 12 39 phys ∙ omega arith in
    rw (bit_and-bit_or, f.masked_phys, whole, bit_or-zero)

-- After `map` the walk ends at a table that holds the entry.
pub record Mapped (s s' : Machine) (pml4 virt value : ℕ) (free : List ℕ) : Type 0 where
  pub last : ℕ
  pub same : s'.hhdm ≡ s.hhdm
  pub is_table : IsTable last
  pub holds : s'.mem (entry last (lvl1_index virt)) ≡ value
  pub reaches :
      (m : Mem)
      → ((t j : ℕ) → IsTable t → t ≢ last → j < 512 → m (entry t j) ≡ s'.mem (entry t j))
      → Reaches s.hhdm m pml4 (indices virt) last
  pub keeps :
      (t j : ℕ)
      → IsTable t
      → has t free ≡ false
      → j < 512
      → bit_and (s.mem (entry t j)) 1 ≡ 1
      → entry t j ≢ entry last (lvl1_index virt)
      → s'.mem (entry t j) ≡ s.mem (entry t j)
  pub origin : (has last free ≡ true) ⊎ Reaches s.hhdm s.mem pml4 (indices virt) last

pub map-Mapped :
    (s : Machine) (pml4 virt phys flags : ℕ) (free : List ℕ)
    → IsMappable s pml4 virt free
    → IsFlags flags
    → (s' : Machine) × (map pml4 virt phys flags s ≡ ok tt s')
      × Mapped s s' pml4 virt (bit_or phys flags) free
map-Mapped s pml4 virt phys flags free v f =
    let w =
      walk flags f.masked f.present (indices virt) s pml4 [] free v.holds v.frames
        (index-lt _, (index-lt _, (index-lt _, tt))) (λ a old. cc) v.enough v.tables in
    let ne : (w.last == 0) ≡ false = ground (arith, w.is_table) in
    (
      record w.s' { mem = write w.s'.mem (entry w.last (lvl1_index virt)) (bit_or phys flags) },
      rw (map-descend, w.runs, ne),
      record {
        last = w.last;
        same = w.same;
        is_table = w.is_table;
        holds = ground arith;
        reaches = λ m agree. w.reaches m (λ t j ht tn hj.
            agree t j ht tn hj
            ∙ write_ne w.s'.mem _ _ _ (entry_ne t w.last j _ ht w.is_table tn hj (index-lt _)));
        keeps = λ t j ht o hj there ne. write_ne w.s'.mem _ _ _ ne ∙ w.keeps t j ht o hj there;
        origin = w.origin;
      },
    )

-- What the two walks do on such a machine.
module _ (s s' : Machine) (pml4 virt value : ℕ) (free : List ℕ)
    (d : Mapped s s' pml4 virt value free) where
  lookup_last :
      (s'' : Machine)
      → s''.hhdm ≡ s.hhdm
      → ((t j : ℕ) → IsTable t → t ≢ d.last → j < 512 → s''.mem (entry t j) ≡ s'.mem (entry t j))
      → (p : ℕ) × (last_table pml4 virt s'' ≡ ok p s'') × (p ≢ 0) × (add64 p s''.hhdm ≡ d.last)
  lookup_last s'' same agree =
      last_table-Reaches pml4 virt d.last s'' (rw same (d.reaches s''.mem agree))

  virt_to_phys-value :
      (s'' : Machine)
      → s''.hhdm ≡ s.hhdm
      → ((t j : ℕ) → IsTable t → t ≢ d.last → j < 512 → s''.mem (entry t j) ≡ s'.mem (entry t j))
      → virt_to_phys pml4 virt s''
        ≡ ok (get_phys_from_entry (s''.mem (entry d.last (lvl1_index virt)))) s''
  virt_to_phys-value s'' same agree =
      virt_to_phys-Reaches pml4 virt d.last s'' (rw same (d.reaches s''.mem agree)) d.is_table

  unmap-value :
      value ≢ 0
      → unmap pml4 virt s'
        ≡ ok value (record s' { mem = write s'.mem (entry d.last (lvl1_index virt)) 0 })
  unmap-value nz =
      let (p, e, ne, at) = lookup_last s' d.same (λ t j _ _ _. refl) in
      let real : (d.last == 0) ≡ false = ground (arith, d.is_table) in
      unfold unmap old_entry in rw (e, ne→== p 0 ne, at, real, d.holds, ne→== value 0 nz, real) refl

-- `map` succeeds and `virt_to_phys` then finds the physical page, for a page-aligned physical
-- address below 2 ^ 51 and flags that mark the entry present and stay out of its address bits,
-- if three pages are free and the tables on the way are pages of their own.
pub virt_to_phys-map :
    (s : Machine) (pml4 virt phys flags : ℕ) (free : List ℕ)
    → IsMappable s pml4 virt free
    → IsFlags flags
    → phys % 4096 ≡ 0
    → phys < 2 ^ 51
    → (s' : Machine) × (map pml4 virt phys flags s ≡ ok tt s')
      × (virt_to_phys pml4 virt s' ≡ ok phys s')
virt_to_phys-map s pml4 virt phys flags free v f al small =
    let (s', e, d) = map-Mapped s pml4 virt phys flags free v f in
    (
      s',
      e,
      virt_to_phys-value s s' pml4 virt _ free d s' d.same (λ t j _ _ _. refl)
          ∙ rw (d.holds, get_phys-entry phys flags al small f),
    )

-- Under the same conditions `unmap` after `map` returns the entry that was written, with the
-- physical address and the flags, and the address is then not mapped: `virt_to_phys` gives 0.
pub unmap-map :
    (s : Machine) (pml4 virt phys flags : ℕ) (free : List ℕ)
    → IsMappable s pml4 virt free
    → IsFlags flags
    → phys % 4096 ≡ 0
    → phys < 2 ^ 51
    → (s' s'' : Machine) × (map pml4 virt phys flags s ≡ ok tt s')
      × (unmap pml4 virt s' ≡ ok (bit_or phys flags) s'')
      × (get_phys_from_entry (bit_or phys flags) ≡ phys)
      × (virt_to_phys pml4 virt s'' ≡ ok 0 s'')
unmap-map s pml4 virt phys flags free v f al small =
    let (s', e, d) = map-Mapped s pml4 virt phys flags free v f in
    let nz : bit_or phys flags ≢ 0 = omega (
      arith,
      bit_and_one (bit_or phys flags),
      (new_entry phys flags al (omega arith) f.masked f.present).0,
    ) in
    let s'' : Machine = record s' { mem = write s'.mem (entry d.last (lvl1_index virt)) 0 } in
    let cleared : s''.mem (entry d.last (lvl1_index virt)) ≡ 0 = ground arith in
    (
      s',
      s'',
      e,
      unmap-value s s' pml4 virt _ free d nz,
      get_phys-entry phys flags al small f,
      virt_to_phys-value s s' pml4 virt _ free d s'' d.same (λ t j ht tn hj.
            write_ne s'.mem _ 0 _ (entry_ne t d.last j _ ht d.is_table tn hj (index-lt _)))
          ∙ unfold get_phys_from_entry in ap (λ e. ok (get_phys_from_entry e) s'') cleared,
    )
