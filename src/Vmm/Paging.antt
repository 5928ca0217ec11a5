-- ===== src/Vmm/Paging.antt =====
-- The four-level page tables of kernel/src/vmm.c, in memory. A table pointer is a virtual address;
-- an entry holds the physical address of the next table.
pub mod Reach
pub mod Step
pub mod Descend
pub mod Translate
pub mod Others
use nyaux.Base.{
  ℕ, zero, suc, ◌+◌, ◌*◌, ◌/◌, ◌%◌, ◌^◌, ltb, ◌≡◌, bit_and, bit_or, ◌==◌, if◌then◌else◌,
}
use nyaux.Word.{add64, sign_extend}
use nyaux.Machine.{
  Machine, Cmd, Run, ok, stop, page_fault, out_of_fuel, pure, and_then, ◌>>=◌, ◌>>◌, write,
  memset_zero, offset,
}
use nyaux.Pmm.{pmm_alloc_singlep}
use nyaux.Vmm.Align.{align_up}

-- `table[index]`
abbrev pub entry : ℕ → ℕ → ℕ
entry table index = table + 8 * index

abbrev pub load_entry : ℕ → ℕ → Cmd ℕ
load_entry table index s = if table == 0 then stop page_fault else ok (s.mem (entry table index)) s

abbrev pub store_entry : ℕ → ℕ → ℕ → Cmd (Unit {0})
store_entry table index v s =
    if table == 0
    then stop page_fault
    else ok tt (record s { mem = write s.mem (entry table index) v })

-- Bits 12 to 51 of an entry that points to a table.
abbrev pub table_mask : ℕ
table_mask = 0x000FFFFFFFFFF000

pub get_phys_from_entry : ℕ → ℕ
get_phys_from_entry pte = bit_and pte 0x0007FFFFFFFFF000

-- The indices that a virtual address has at each level.
abbrev pub lvl4_index : ℕ → ℕ
lvl4_index virt = bit_and (virt / 2 ^ 39) 0x1FF

abbrev pub lvl3_index : ℕ → ℕ
lvl3_index virt = bit_and (virt / 2 ^ 30) 0x1FF

abbrev pub lvl2_index : ℕ → ℕ
lvl2_index virt = bit_and (virt / 2 ^ 21) 0x1FF

abbrev pub lvl1_index : ℕ → ℕ
lvl1_index virt = bit_and (virt / 2 ^ 12) 0x1FF

-- A new table for the entry, cleared and entered with `flags`.
pub new_next_table : (table index flags : ℕ) → Cmd ℕ
new_next_table table index flags = do
  new_table ← pmm_alloc_singlep
  hhdm ← offset
  memset_zero (add64 new_table hhdm) 4096
  store_entry table index (bit_or new_table flags)
  e ← load_entry table index
  pure (bit_and e table_mask)

pub get_next_table : (table index flags : ℕ) → Cmd ℕ
get_next_table table index flags = do
  e ← load_entry table index
  if bit_and e 1 == 0 then new_next_table table index flags else pure (bit_and e table_mask)

pub map : (pml4 virt phys flags : ℕ) → Cmd (Unit {0})
map pml4 virt phys flags = do
  hhdm ← offset
  table3 ← get_next_table pml4 (lvl4_index virt) flags
  table2 ← get_next_table (add64 table3 hhdm) (lvl3_index virt) flags
  table1 ← get_next_table (add64 table2 hhdm) (lvl2_index virt) flags
  store_entry (add64 table1 hhdm) (lvl1_index virt) (bit_or phys flags)

-- NULL if the table is NULL or the entry is not present.
pub get_next_table_unmap : (table index : ℕ) → Cmd ℕ
get_next_table_unmap table index =
    if table == 0
    then pure 0
    else do e ← load_entry table index; pure (if bit_and e 1 == 1 then bit_and e table_mask else 0)

-- The walk that `virt_to_phys` and `unmap` share: the last table's physical address, 0 if missing.
pub last_table : (pml4 virt : ℕ) → Cmd ℕ
last_table pml4 virt = do
  hhdm ← offset
  table3 ← get_next_table_unmap pml4 (lvl4_index virt)
  if table3 == 0 then pure 0 else do
    table2 ← get_next_table_unmap (add64 table3 hhdm) (lvl3_index virt)
    if table2 == 0 then pure 0 else get_next_table_unmap (add64 table2 hhdm) (lvl2_index virt)

-- `if (cur_table[lvl1_index] != 0) old = cur_table[lvl1_index];`, with `old` 0 before it.
pub old_entry : (table index : ℕ) → Cmd ℕ
old_entry table index = do e ← load_entry table index; pure (if e == 0 then 0 else e)

pub virt_to_phys : (pml4 virt : ℕ) → Cmd ℕ
virt_to_phys pml4 virt = do
  hhdm ← offset
  table1 ← last_table pml4 virt
  if table1 == 0
      then pure (get_phys_from_entry 0)
      else do old ← old_entry (add64 table1 hhdm) (lvl1_index virt); pure (get_phys_from_entry old)

-- Clears the entry and returns what it held. `invlpg` acts on the processor alone.
pub unmap : (pml4 virt : ℕ) → Cmd ℕ
unmap pml4 virt = do
  hhdm ← offset
  table1 ← last_table pml4 virt
  if table1 == 0 then pure 0 else do
    old ← old_entry (add64 table1 hhdm) (lvl1_index virt)
    store_entry (add64 table1 hhdm) (lvl1_index virt) 0
    pure old

-- `i * 0x1000` for an `int` `i`, as it wraps and is made 64 bits wide.
abbrev pub page_offset : ℕ → ℕ
page_offset i = sign_extend (i * 0x1000 % 2 ^ 32)

-- `num_of_pages`, an `int`.
abbrev pub page_count : (bytes : ℕ) → ℕ
page_count bytes = bytes / 4096 % 2 ^ 32

-- The rounds of a loop with `i < num_of_pages`: a negative `int` gives none.
abbrev pub rounds_below : (count : ℕ) → ℕ
rounds_below count = if ltb count (2 ^ 31) then count else 0

-- The body of `mmap_range` for the pages from `i` on, `n` of them left.
pub map_pages : (n i pml4 base_virt flags : ℕ) → Cmd (Unit {0})
map_pages zero i pml4 base_virt flags = pure tt
map_pages (suc n) i pml4 base_virt flags = do
  page ← pmm_alloc_singlep
  hhdm ← offset
  memset_zero (add64 page hhdm) 4096
  map pml4 (add64 base_virt (page_offset i)) page flags
  map_pages n (i + 1) pml4 base_virt flags
