-- ===== src/Elf/Load/Header.antt =====
-- The headers of kernel/src/elf/elf.h, as they stand in a file: little-endian, without padding.
use nyaux.Base.{ℕ, ◌+◌, ◌*◌, ◌^◌}

-- `Elf64_Half`, `Elf64_Word` and the 64-bit types at offset `a`.
abbrev pub half : (ℕ → ℕ) → ℕ → ℕ
half file a = file a + 2 ^ 8 * file (a + 1)

abbrev pub word : (ℕ → ℕ) → ℕ → ℕ
word file a = half file a + 2 ^ 16 * half file (a + 2)

abbrev pub quad : (ℕ → ℕ) → ℕ → ℕ
quad file a = word file a + 2 ^ 32 * word file (a + 4)

pub record Elf64ElfHdr : Type 0 where
  pub e_ident : ℕ → ℕ
  pub e_type : ℕ
  pub e_machine : ℕ
  pub e_version : ℕ
  pub e_entry : ℕ
  pub e_phoff : ℕ
  pub e_shoff : ℕ
  pub e_flags : ℕ
  pub e_ehsize : ℕ
  pub e_phentsize : ℕ
  pub e_phnum : ℕ
  pub e_shentsize : ℕ
  pub e_shnum : ℕ
  pub e_shstrndx : ℕ

pub record Elf64Phdr : Type 0 where
  pub p_type : ℕ
  pub p_flags : ℕ
  pub p_offset : ℕ
  pub p_vaddr : ℕ
  pub p_paddr : ℕ
  pub p_filesz : ℕ
  pub p_memsz : ℕ
  pub p_align : ℕ

-- The header at the start of the file.
unfoldable pub read_hdr : (ℕ → ℕ) → Elf64ElfHdr
read_hdr file = record {
  e_ident = file;
  e_type = half file 16;
  e_machine = half file 18;
  e_version = word file 20;
  e_entry = quad file 24;
  e_phoff = quad file 32;
  e_shoff = quad file 40;
  e_flags = word file 48;
  e_ehsize = half file 52;
  e_phentsize = half file 54;
  e_phnum = half file 56;
  e_shentsize = half file 58;
  e_shnum = half file 60;
  e_shstrndx = half file 62;
}

-- A program header at offset `a`.
unfoldable pub read_phdr : (ℕ → ℕ) → ℕ → Elf64Phdr
read_phdr file a = record {
  p_type = word file a;
  p_flags = word file (a + 4);
  p_offset = quad file (a + 8);
  p_vaddr = quad file (a + 16);
  p_paddr = quad file (a + 24);
  p_filesz = quad file (a + 32);
  p_memsz = quad file (a + 40);
  p_align = quad file (a + 48);
}
