-- ===== src/Gdt.antt =====
-- The segment descriptors of kernel/src/gdt.c, and the registers that `_start` of kernel/src/main.c sets up for system
-- calls.
pub mod Segments
pub mod Selectors
mod Tests
use nyaux.Base.{
  ℕ, ◌+◌, ◌-◌, ◌*◌, ◌/◌, ◌%◌, ◌^◌, List, [], ◌∷◌, ◌==◌, if◌then◌else◌, bit_and, bit_or,
}
use nyaux.Word.{add64}

-- `sizeof(ts)`: the structure is packed.
abbrev pub tss_size : ℕ
tss_size = 4 + 8 + 8 + 4 + 7 * 8 + 8 + 2 + 2

-- `gdt[9]`, the lower half of the descriptor of the task state segment at `ts`.
unfoldable pub tss_low : (ts : ℕ) → ℕ
tss_low ts =
    let access = bit_or (9 * 2 ^ 40) (2 ^ 47) in
    let limit = bit_or access (bit_and (tss_size % 2 ^ 16) 0xFFFF) in
    let base_low = bit_or limit (bit_and ts 0xFFFF * 2 ^ 16) in
    let base_mid = bit_or base_low (bit_and (ts / 2 ^ 16) 0xFF * 2 ^ 32) in
    bit_or base_mid (bit_and (ts / 2 ^ 24) 0xFF * 2 ^ 56)

-- `gdt[10]`, the upper half.
abbrev pub tss_high : (ts : ℕ) → ℕ
tss_high ts = ts / 2 ^ 32

-- `struct GDTR`
pub record Gdtr : Type 0 where
  pub size : ℕ
  pub offset : ℕ

-- The table, and what the processor is told of it.
pub init_gdt : (ts gdt : ℕ) → List ℕ × Gdtr
init_gdt ts gdt = (
  0x0
      ∷ 0x00009a000000ffff
      ∷ 0x000093000000ffff
      ∷ 0x00cf9a000000ffff
      ∷ 0x00cf93000000ffff
      ∷ 0x00af9b000000ffff
      ∷ 0x00af93000000ffff
      ∷ 0x00aff3000000ffff
      ∷ 0x00affb000000ffff
      ∷ tss_low ts
      ∷ tss_high ts
      ∷ [],
  record { size = 11 * 8; offset = gdt },
)

-- The model-specific registers, by their numbers.
abbrev pub Msrs : Type 0
Msrs = ℕ → ℕ

abbrev pub writemsr : Msrs → (number value : ℕ) → Msrs
writemsr msrs number value n = if n == number then value else msrs n

-- Lines 351 to 363 of `_start`.
unfoldable pub enable_syscall : (syscall_handler : ℕ) → Msrs → Msrs
enable_syscall syscall_handler msrs =
    let enabled = writemsr msrs 0xC0000080 (bit_or (msrs 0xC0000080) 1) in
    let star = bit_or (bit_or (enabled 0xC0000081) (0x28 * 2 ^ 32)) (0x30 * 2 ^ 48) in
    let selectors = writemsr enabled 0xC0000081 star in
    let target = writemsr selectors 0xC0000082 syscall_handler in writemsr target 0xC0000084 (2 ^ 9)

-- Lines 368 to 375: `~(0 << 2)` leaves `cr0` as it is.
abbrev pub enable_sse : (cr0 cr4 : ℕ) → ℕ × ℕ
enable_sse cr0 cr4 =
    (bit_and (bit_or cr0 (2 ^ 1)) (2 ^ 64 - 1), bit_or (bit_or cr4 (2 ^ 9)) (2 ^ 10))
