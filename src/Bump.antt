-- ===== src/Bump.antt =====
-- The bump allocator of kernel/src/bump.c. Its messages are left out.
use nyaux.Base.{ℕ, ◌*◌, Option, none, some, ◌&&◌, ltb, if◌then◌else◌}
use nyaux.Word.{add64}
use nyaux.Vmm.Align.{align_up}

-- The globals of the file.
pub record Bump : Type 0 where
  pub base : ℕ
  pub max_size : ℕ

-- `max_size` before `bump_init`.
abbrev pub arena_size : ℕ
arena_size = 4096 * 10000

unfoldable pub bump_init : (hhdm : ℕ) → Bump
bump_init hhdm = record {
  base = add64 0x100000000 hhdm;
  max_size = add64 (add64 0x100000000 hhdm) arena_size;
}

-- The area and the allocator; `none` is the panic when there is no room.
unfoldable pub bump_alloc : Bump → (size : ℕ) → Option (ℕ × Bump)
bump_alloc b size =
    if ltb b.base b.max_size && ltb (add64 b.base (align_up size 8)) b.max_size
    then some (b.base, record b { base = add64 b.base (align_up size 8) })
    else none
