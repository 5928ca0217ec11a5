-- ===== src/Elf/Load/Segment.antt =====
-- The pages that `load_elf_program` maps for a segment (kernel/src/elf/elf.c).
use nyaux.Base.{ℕ, ◌+◌, ◌*◌, ◌/◌, ◌%◌, ◌^◌, ◌≤◌, ◌<◌, ◌≡◌, arith, ltb, true, ◌∙◌}
use nyaux.Word.{word_mod, add64}
use nyaux.Bits.{bit_and_low}
use nyaux.Vmm.Align.{align_up_lem, align_down_lem}
use nyaux.Elf.Load.{Elf64Phdr, misaligned, segment_length, amount_of_pages, page_virt}

misaligned_lem : (phdr : Elf64Phdr) → misaligned phdr ≡ phdr.p_vaddr % 4096
misaligned_lem phdr = bit_and_low 12 phdr.p_vaddr

amount_of_pages_lem :
    (phdr : Elf64Phdr)
    → phdr.p_memsz + 8192 ≤ 2 ^ 31
    → amount_of_pages phdr ≡ (phdr.p_memsz + phdr.p_vaddr % 4096 + 4095) / 4096
unfolding amount_of_pages
amount_of_pages_lem phdr small =
    let length : segment_length phdr ≡ (phdr.p_memsz + phdr.p_vaddr % 4096 + 4095) / 4096 * 4096 =
      rw (misaligned_lem phdr) (
        let sum : add64 phdr.p_memsz (phdr.p_vaddr % 4096) ≡ phdr.p_memsz + phdr.p_vaddr % 4096 =
          omega (arith, small) in
        rw sum (
          align_up_lem 12 (phdr.p_memsz + phdr.p_vaddr % 4096) (omega arith)
            (omega (arith, small)))) in
    rw length (ground (arith, small))

page_virt_lem :
    (base : ℕ) (phdr : Elf64Phdr) (i : ℕ)
    → base % 4096 ≡ 0
    → base + phdr.p_vaddr + i * 4096 < word_mod
    → i * 4096 < 2 ^ 31
    → page_virt base phdr i ≡ base + phdr.p_vaddr / 4096 * 4096 + i * 4096
unfolding page_virt
page_virt_lem base phdr i al fits small =
    let offset : i * 4096 % 2 ^ 32 ≡ i * 4096 = omega (arith, small) in
    let positive : ltb (i * 4096) (2 ^ 31) ≡ true = ground (arith, small) in
    let sum : add64 (add64 base phdr.p_vaddr) (i * 4096) ≡ base + phdr.p_vaddr + i * 4096 =
      omega (arith, fits) in
    rw (offset, positive, sum)
      (align_down_lem 12 (base + phdr.p_vaddr + i * 4096) (omega arith) fits ∙ omega (arith, al))

-- Every byte of a segment in memory lies in one of the pages that are mapped for it, for a segment of less
-- than 2 GiB whose addresses do not wrap and a base that is a multiple of the page size.
pub segment_covered :
    (base : ℕ) (phdr : Elf64Phdr) (k : ℕ)
    → base % 4096 ≡ 0
    → base + phdr.p_vaddr + phdr.p_memsz + 4096 ≤ word_mod
    → phdr.p_memsz + 8192 ≤ 2 ^ 31
    → k < phdr.p_memsz
    → (i : ℕ) × (i < amount_of_pages phdr)
      × (page_virt base phdr i ≤ base + phdr.p_vaddr + k)
      × (base + phdr.p_vaddr + k < page_virt base phdr i + 4096)
segment_covered base phdr k al fits small low =
    let i = (phdr.p_vaddr % 4096 + k) / 4096 in
    let at = page_virt_lem base phdr i al (omega (arith)) (omega arith) in
    (i, rw (amount_of_pages_lem phdr small) (omega arith), rw at (omega arith), rw at (omega arith))
