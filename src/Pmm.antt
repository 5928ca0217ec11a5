-- ===== src/Pmm.antt =====
-- kernel/src/pmm.c: the free list of physical pages.
pub mod Stack
pub mod Link
pub mod Init
mod Tests
use nyaux.Base.{ℕ, zero, suc, ◌+◌, ◌/◌, List, [], ◌∷◌, ◌==◌, ltb, if◌then◌else◌}
use nyaux.Word.{add64, sub64}
use nyaux.Machine.{
  Cmd, Run, ok, stop, out_of_memory, out_of_fuel, pure, ◌>>=◌, ◌>>◌, load, store, and_then,
}

-- `return (uint64_t)alloc - offset`: the physical address of the first free page.
pub pmm_alloc_singlep : Cmd ℕ
pmm_alloc_singlep s =
    if s.head == 0
    then stop out_of_memory
    else and_then (load s.head 0 s)
        (λ next s'. ok (sub64 s.head s.hhdm) (record s' { head = next }))

-- `page` is a virtual address.
pub pmm_free_singlep : ℕ → Cmd (Unit {0})
pmm_free_singlep page s =
    and_then (store page 0 s.head s) (λ _ s'. ok tt (record s' { head = page }))

-- The types of limine's memory map, in the order of the `switch`.
pub data EntryType : Type 0 where
  usable bootloader_reclaimable kernel_and_modules reserved framebuffer : EntryType
  acpi_nvs acpi_reclaimable other : EntryType

pub record MemmapEntry : Type 0 where
  pub base : ℕ
  pub length : ℕ
  pub type : EntryType

-- `if (prev_node != NULL) prev_node->next = cur_node;`
pub link_prev : ℕ → ℕ → Cmd (Unit {0})
link_prev prev cur = if prev == 0 then pure tt else store prev 0 cur

-- The loop over one usable entry, from offset `j`; returns the last `prev_node`.
pub link_pages : ℕ → MemmapEntry → (j prev : ℕ) → Cmd ℕ
unfolding link_prev
link_pages zero e j prev s = stop out_of_fuel
link_pages (suc fuel) e j prev s =
    let cur = add64 (add64 e.base j) s.hhdm in
    let round : Run ℕ =
      and_then (link_prev prev cur s) (λ _. link_pages fuel e (add64 j 0x1000) cur) in
    if ltb j e.length then round else ok prev s

-- `if (!head) head = base + offset;`
pub set_head : MemmapEntry → Cmd (Unit {0})
set_head e s = if s.head == 0 then ok tt (record s { head = add64 e.base s.hhdm }) else ok tt s

-- The `switch` over the type of an entry: one round of the loop over the memory map.
pub add_entry : EntryType → MemmapEntry → ℕ → Cmd ℕ
unfolding link_pages set_head
add_entry usable e prev = do
  set_head e
  last ← link_pages (e.length / 0x1000 + 2) e 0 prev
  store last 0 0
  pure last
add_entry bootloader_reclaimable e prev = pure prev
add_entry kernel_and_modules e prev = pure prev
add_entry reserved e prev = pure prev
add_entry framebuffer e prev = pure prev
add_entry acpi_nvs e prev = pure prev
add_entry acpi_reclaimable e prev = pure prev
add_entry other e prev = pure prev

pub build_free_list : List MemmapEntry → ℕ → Cmd (Unit {0})
unfolding add_entry
build_free_list [] prev = pure tt
build_free_list (e ∷ es) prev = do last ← add_entry e.type e prev; build_free_list es last
