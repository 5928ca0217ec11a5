-- ===== src/Elf/Load.antt =====
-- The loading of a program: `load_elf_program` of kernel/src/elf/elf.c up to the first stack. The bytes of a
-- file are a function of the offset, 0 past its end, as the headers that they are read into are clear. What
-- is read into the program's memory stands in a list; the interpreter's file is given by its path.
mod Header
pub mod Segment
pub use Header.*
use nyaux.Base.{
  ℕ, zero, suc, ◌+◌, ◌*◌, ◌/◌, ◌%◌, ◌^◌, Bool, true, false, ◌||◌, ◌&&◌, ◌==◌, leb, ltb,
  if◌then◌else◌, List, [], ◌∷◌, ◌++◌, Option, none, some, bit_and,
}
use nyaux.Word.{add64, sign_extend}
use nyaux.Machine.{
  Cmd, Run, ok, stop, out_of_fuel, pure, and_then, ◌>>=◌, ◌>>◌, load, store, memset_zero, offset,
}
use nyaux.Pmm.{pmm_alloc_singlep}
use nyaux.Slab.{kmalloc_slab}
use nyaux.Vmm.Align.{align_up, align_down}
use nyaux.Vmm.Paging.{map}
use nyaux.Vmm.Region.{region_size, mmap_range}

-- `phdr.p_vaddr & 4095`
abbrev pub misaligned : Elf64Phdr → ℕ
misaligned phdr = bit_and phdr.p_vaddr 4095

-- `align_up(phdr.p_memsz + misaligned, 4096)`
abbrev pub segment_length : Elf64Phdr → ℕ
segment_length phdr = align_up (add64 phdr.p_memsz (misaligned phdr)) 4096

-- The rounds of the loop on an `int`: none if it is negative.
unfoldable pub amount_of_pages : Elf64Phdr → ℕ
amount_of_pages phdr =
    let amount = segment_length phdr / 4096 % 2 ^ 32 in if ltb amount (2 ^ 31) then amount else 0

-- Where page `i` of the segment goes. The product is an `int`.
unfoldable pub page_virt : (base : ℕ) → Elf64Phdr → (i : ℕ) → ℕ
page_virt base phdr i =
    align_down (add64 (add64 base phdr.p_vaddr) (sign_extend (i * 0x1000 % 2 ^ 32))) 4096

-- The pages of a segment, `n` from page `i` on.
pub map_segment : (n i pml4 base : ℕ) → Elf64Phdr → Cmd (Unit {0})
map_segment zero i pml4 base phdr = pure tt
map_segment (suc n) i pml4 base phdr = do
  page ← pmm_alloc_singlep
  hhdm ← offset
  memset_zero (add64 page hhdm) 4096
  map (add64 pml4 hhdm) (page_virt base phdr i) page 7
  map_segment n (i + 1) pml4 base phdr

-- A new region at `f` between `prev` and `cur`; its flags are not set.
pub record_segment : (fuel f length prev cur : ℕ) → Cmd (Unit {0})
record_segment fuel f length prev cur = do
  new_guy ← kmalloc_slab fuel region_size
  store new_guy 0 f
  store new_guy 8 length
  store prev 24 new_guy
  store new_guy 24 cur

-- The walk over the regions: the first pair with `f` between them. Nothing is recorded behind the last.
pub find_place : (fuel f length prev cur : ℕ) → Cmd (Unit {0})
find_place zero f length prev cur s = stop out_of_fuel
find_place (suc fuel) f length prev cur s =
    let skip : Run (Unit {0}) =
      and_then (load cur 24 s) (λ next. find_place fuel f length cur next) in
    let test : Run (Unit {0}) =
      (do
        cur_base ← load cur 0
        prev_base ← load prev 0
        prev_length ← load prev 8
        if leb f cur_base && leb (add64 prev_base prev_length) f
            then record_segment fuel f length prev cur
            else λ _. skip)
        s in
    if cur == 0 then ok tt s else if prev == 0 then skip else test

-- A read of `size` bytes at `offset` of the file, into the program's memory.
pub record Copy : Type 0 where
  pub size : ℕ
  pub offset : ℕ
  pub to : ℕ

-- What the loop over the program headers has found: `stored`, which no header may have set, the path of the
-- interpreter, and the reads in order.
pub record Loading : Type 0 where
  pub stored : Option ℕ
  pub interp : Option (List ℕ)
  pub copies : List Copy

-- `n` bytes of a file.
abbrev pub bytes_at : (ℕ → ℕ) → (n a : ℕ) → List ℕ
bytes_at file zero a = []
bytes_at file (suc n) a = file a ∷ bytes_at file n (a + 1)

-- A loadable segment: its pages, its region, its bytes.
pub load_segment : (fuel maps base : ℕ) → Elf64Phdr → Loading → Cmd Loading
unfolding map_segment find_place
load_segment fuel maps base phdr l = do
  pml4 ← load maps 8
  map_segment (amount_of_pages phdr) 0 pml4 base phdr
  head ← load maps 0
  find_place fuel (align_down (add64 base phdr.p_vaddr) 4096) (segment_length phdr) 0 head
  pure (record l {
    copies =
        l.copies
        ++ (record { size = phdr.p_filesz; offset = phdr.p_offset; to = add64 base phdr.p_vaddr }
            ∷ []);
  })

-- The switch on `p_type`.
pub load_header : (ℕ → ℕ) → (fuel maps base : ℕ) → Elf64Phdr → Loading → Cmd Loading
load_header file fuel maps base phdr l =
    if phdr.p_type == 1
    then load_segment fuel maps base phdr l
    else if phdr.p_type == 6
    then pure (record l { stored = some (add64 base phdr.p_vaddr) })
    else if phdr.p_type == 3
    then pure (record l { interp = some (bytes_at file phdr.p_filesz phdr.p_offset) })
    else pure l

-- Where program header `i` stands. The product is an `int`.
unfoldable pub phdr_offset : Elf64ElfHdr → (i : ℕ) → ℕ
phdr_offset hdr i = add64 hdr.e_phoff (sign_extend (i * hdr.e_phentsize % 2 ^ 32))

-- The loop over the program headers, `n` from header `i` on.
pub load_headers : (ℕ → ℕ) → (fuel maps base : ℕ) → Elf64ElfHdr → (n i : ℕ) → Loading → Cmd Loading
load_headers file fuel maps base hdr zero i l = pure l
load_headers file fuel maps base hdr (suc n) i l = do
  more ← load_header file fuel maps base (read_phdr file (phdr_offset hdr i)) l
  load_headers file fuel maps base hdr n (i + 1) more

-- The entry point of the new thread, and what its stack gets from the program.
pub record Started : Type 0 where
  pub rip : ℕ
  pub entry : ℕ
  pub phdr_virt : Option ℕ
  pub phent : ℕ
  pub phnum : ℕ

-- `hdr.e_type == 2 || hdr.e_type == 3 || hdr.e_ident[7] == 0x00`
abbrev pub is_accepted : Elf64ElfHdr → Bool
is_accepted hdr = (hdr.e_type == 2) || (hdr.e_type == 3) || (hdr.e_ident 7 == 0)

-- NULL for a file that is not accepted. A program with an interpreter is the interpreter's; `rounds` bounds
-- how many interpreters have one themselves.
pub load_elf_program :
    (List ℕ → ℕ → ℕ) → (rounds fuel maps base : ℕ) → (ℕ → ℕ) → Started → Cmd (Option Started)
unfolding load_headers load_header load_segment
load_elf_program lookup zero fuel maps base file args s = stop out_of_fuel
load_elf_program lookup (suc rounds) fuel maps base file args s =
    let hdr = read_hdr file in
    let through : List ℕ → Option ℕ → Cmd (Option Started) = λ path stored.
      load_elf_program lookup rounds fuel maps 0x40000000 (lookup path) (record {
        rip = args.rip;
        entry = add64 base hdr.e_entry;
        phdr_virt = stored;
        phent = hdr.e_phentsize;
        phnum = hdr.e_phnum;
      }) in
    if is_accepted hdr
    then (do
      l ←
          load_headers file fuel maps base hdr hdr.e_phnum 0
            (record { stored = none; interp = none; copies = [] })
      elim l.interp [
        | some path ↦ through path l.stored
        | none ↦ (do
          mmap_range maps 0x70000000000 512000 7
          pure (some (record args { rip = add64 base hdr.e_entry })))
      ])
        s
    else ok none s
