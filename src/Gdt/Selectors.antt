-- ===== src/Gdt/Selectors.antt =====
-- The segments that a system call and the return from it load (kernel/src/gdt.c, and `_start` of
-- kernel/src/main.c). The processor takes their selectors from the register STAR.
use nyaux.Base.{
  ℕ, ◌+◌, ◌-◌, ◌*◌, ◌/◌, ◌^◌, ◌<◌, ◌≡◌, refl, List, arith, bit_and, bit_or, get_or, ◌∙◌, ap,
}
use nyaux.Bits.{bit_and_field, bit_and-bit_or}
use nyaux.Sched.{user_code}
use nyaux.Gdt.{init_gdt, Msrs, enable_syscall}
use nyaux.Gdt.Segments.{field}

-- A present code segment for 64-bit code, or data segment that is writable, of a privilege level.
abbrev pub IsCode : (level descriptor : ℕ) → Type 0
IsCode level d =
    (field 47 1 d ≡ 1) × (field 45 2 d ≡ level) × (field 43 2 d ≡ 3) × (field 53 1 d ≡ 1)

abbrev pub IsData : (level descriptor : ℕ) → Type 0
IsData level d =
    (field 47 1 d ≡ 1) × (field 45 2 d ≡ level) × (field 43 2 d ≡ 2) × (field 41 1 d ≡ 1)

-- The descriptor that a selector chooses.
abbrev pub chosen : List ℕ → (selector : ℕ) → ℕ
chosen table selector = get_or table (selector / 8) 0

-- What SYSCALL and SYSRET load for the code and the stack.
abbrev pub kernel_cs : (star : ℕ) → ℕ
kernel_cs star = field 32 16 star

abbrev pub kernel_ss : (star : ℕ) → ℕ
kernel_ss star = field 32 16 star + 8

abbrev pub user_cs : (star : ℕ) → ℕ
user_cs star = field 48 16 star + 16

abbrev pub user_ss : (star : ℕ) → ℕ
user_ss star = field 48 16 star + 8

module _ (syscall_handler : ℕ) (msrs : Msrs) where
  abbrev pub star_after : ℕ
  star_after = enable_syscall syscall_handler msrs 0xC0000081

  module _ (clear : msrs 0xC0000081 < 2 ^ 32) where
    star_field :
        (k w v : ℕ)
        → bit_and (msrs 0xC0000081) ((2 ^ w - 1) * 2 ^ k) ≡ 0
        → bit_or
            (bit_or 0 (bit_and (0x28 * 2 ^ 32) ((2 ^ w - 1) * 2 ^ k)))
            (bit_and (0x30 * 2 ^ 48) ((2 ^ w - 1) * 2 ^ k))
          ≡ v
        → bit_and star_after ((2 ^ w - 1) * 2 ^ k) ≡ v
    unfolding enable_syscall
    star_field k w v none_of e = rw (bit_and-bit_or, bit_and-bit_or, none_of) e

    kernel_field : field 32 16 star_after ≡ 0x28
    kernel_field =
        ap (λ d. d / 2 ^ 32)
          (star_field 32 16 (0x28 * 2 ^ 32)
            (bit_and_field 32 16 (msrs 0xC0000081) ∙ omega (arith, clear)) refl)

    user_field : field 48 16 star_after ≡ 0x30
    user_field =
        ap (λ d. d / 2 ^ 48)
          (star_field 48 16 (0x30 * 2 ^ 48)
            (bit_and_field 48 16 (msrs 0xC0000081) ∙ omega (arith, clear)) refl)

    -- After `_start` has set up the system calls, a system call loads a code and a data segment of the kernel's
    -- level and the return from it ones of the user's level, from the table of `init_gdt`; the user's code
    -- segment is the one that the scheduler gives to user threads. The upper half of STAR is clear before.
    pub enable_syscall-init_gdt :
        (ts gdt : ℕ)
        → IsCode 0 (chosen (init_gdt ts gdt).0 (kernel_cs star_after))
          × IsData 0 (chosen (init_gdt ts gdt).0 (kernel_ss star_after))
          × IsCode 3 (chosen (init_gdt ts gdt).0 (user_cs star_after))
          × IsData 3 (chosen (init_gdt ts gdt).0 (user_ss star_after))
          × (user_cs star_after + 3 ≡ user_code)
    unfolding init_gdt
    enable_syscall-init_gdt ts gdt =
        rw (kernel_field, user_field)
          (
            (refl, refl, refl, refl),
            (refl, refl, refl, refl),
            (refl, refl, refl, refl),
            (refl, refl, refl, refl),
            refl,
          )
