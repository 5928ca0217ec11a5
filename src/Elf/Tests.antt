-- ===== src/Elf/Tests.antt =====
-- The stack of a program with an interpreter, and the pages of a segment.
use nyaux.Base.{ℕ, ◌+◌, ◌-◌, ◌%◌, ◌<◌, ◌≤◌, ◌≡◌, arith, [], ◌∷◌, refl}
use nyaux.Machine.{Mem}
use nyaux.Elf.{Parameters, user_stack_ptr, initial_stack}
use nyaux.Vmm.Align.{align_up, align_down}
use nyaux.Elf.Load.{Elf64Phdr, amount_of_pages, page_virt}
use nyaux.Elf.Load.Segment.{segment_covered}
use nyaux.Elf.Stack.{Words, stack_words, initial_stack_lem}

-- No arguments and no environment, and the entry point of the program.
abbrev bash : Parameters
bash = record {
  argc = 0;
  argv = 0;
  envp = 0;
  entry = 0x401000;
  phdr_virt = 0x400040;
  phent = 56;
  phnum = 13;
}

abbrev zeros : Mem
zeros a = 0

words_of_bash :
    stack_words bash ≡ 0 ∷ 0 ∷ 0 ∷ 5 ∷ 13 ∷ 4 ∷ 56 ∷ 3 ∷ 0x400040 ∷ 9 ∷ 0x401000 ∷ 0 ∷ 0 ∷ []
words_of_bash = refl

initial_stack_lem_example :
    Words
      (initial_stack bash (record { size = 0; stack = zeros })).stack
      (user_stack_ptr - (initial_stack bash (record { size = 0; stack = zeros })).size)
      (stack_words bash)
    × ((user_stack_ptr - (initial_stack bash (record { size = 0; stack = zeros })).size) % 16 ≡ 0)
initial_stack_lem_example = initial_stack_lem bash zeros

-- A segment that begins within a page and ends in its fourth.
abbrev data_segment : Elf64Phdr
data_segment = record {
  p_type = 1;
  p_flags = 6;
  p_offset = 0x1234;
  p_vaddr = 0x1234;
  p_paddr = 0x1234;
  p_filesz = 0x2000;
  p_memsz = 0x3000;
  p_align = 0x1000;
}

pages_of_data_segment :
    (amount_of_pages data_segment ≡ 4) × (page_virt 0x40000000 data_segment 3 ≡ 0x40004000)
unfolding amount_of_pages page_virt align_up align_down
pages_of_data_segment = (refl, refl)

segment_covered_example :
    (i : ℕ) × (i < amount_of_pages data_segment)
    × (page_virt 0x40000000 data_segment i ≤ 0x40000000 + 0x1234 + 0x2FFF)
    × (0x40000000 + 0x1234 + 0x2FFF < page_virt 0x40000000 data_segment i + 4096)
segment_covered_example =
    segment_covered 0x40000000 data_segment 0x2FFF refl (omega arith) (omega arith) (omega arith)
