-- ===== src/Gdt/Tests.antt =====
-- A task state segment in the upper half, and clear registers.
use nyaux.Base.{ℕ, ◌+◌, ◌≡◌, List, arith}
use nyaux.Sched.{user_code}
use nyaux.Gdt.{tss_size, tss_low, tss_high, init_gdt}
use nyaux.Gdt.Segments.{field, base_of, base_of-tss}
use nyaux.Gdt.Selectors.{
  IsCode, IsData, chosen, kernel_cs, kernel_ss, user_cs, user_ss, star_after,
  enable_syscall-init_gdt,
}

base_of-tss_example :
    (base_of (tss_low 0xffffffff80123450) (tss_high 0xffffffff80123450) ≡ 0xffffffff80123450)
    × (field 40 4 (tss_low 0xffffffff80123450) ≡ 9)
    × (field 47 1 (tss_low 0xffffffff80123450) ≡ 1)
    × (field 0 16 (tss_low 0xffffffff80123450) ≡ tss_size)
base_of-tss_example = base_of-tss 0xffffffff80123450 (omega arith)

abbrev table : List ℕ
table = (init_gdt 0xffffffff80123450 0xffffffff80123000).0

abbrev star : ℕ
star = star_after 0xffffffff80001000 (λ _. 0)

enable_syscall-init_gdt_example :
    IsCode 0 (chosen table (kernel_cs star))
    × IsData 0 (chosen table (kernel_ss star))
    × IsCode 3 (chosen table (user_cs star))
    × IsData 3 (chosen table (user_ss star))
    × (user_cs star + 3 ≡ user_code)
enable_syscall-init_gdt_example =
    enable_syscall-init_gdt 0xffffffff80001000 (λ _. 0) (omega arith) 0xffffffff80123450
      0xffffffff80123000
