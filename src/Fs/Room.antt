-- ===== src/Fs/Room.antt =====
-- The room that a write to a file needs: `vnode_rdwr` of kernel/src/fs/tmpfs.c up to the copying.
use nyaux.Base.{
  ℕ, ◌+◌, ◌^◌, ◌≤◌, ◌<◌, ◌≡◌, ◌⊎◌, arith, ltb, ◌==◌, inl, inr, refl, max, Bool-cases, ne→==,
}
use nyaux.Word.{add64, add64_small}
use nyaux.Machine.{Mem}
use nyaux.Libc.Memory.{memcpy_in, memcpy_out, memset_lem}
use nyaux.Fs.{TmpfsNode, make_room}

-- Two areas of memory that have no byte in common.
abbrev pub Apart : (a n b k : ℕ) → Type 0
Apart a n b k = (a + n ≤ b) ⊎ (b + k ≤ a)

-- What `make_room` gives for a write of `n` bytes at `offset` from `buf`.
pub record IsRoom (file room : TmpfsNode) (n offset buf : ℕ) (m m1 : Mem) : Type 0 where
  pub has_size : room.size ≡ max file.size (n + offset)
  pub room_in_range : room.data_at + room.size < 2 ^ 64
  pub room_apart : Apart buf n room.data_at room.size
  pub old_bytes : (i : ℕ) → i < file.size → m1 (room.data_at + i) ≡ m (file.data_at + i)
  pub new_bytes : file.size ≡ 0 → (i : ℕ) → i < n + offset → m1 (room.data_at + i) ≡ 0
  pub same_buf : (i : ℕ) → i < n → m1 (buf + i) ≡ m (buf + i)

-- A file whose bytes, if it has any, stand in memory at an address that is not NULL, and a new area
-- for `want` bytes; both are apart from the buffer of `n` bytes.
pub record CanWrite (file : TmpfsNode) (new n offset buf : ℕ) : Type 0 where
  pub some_bytes : 0 < n
  pub not_null : 0 < file.data_at ⊎ file.size ≡ 0
  pub old_in_range : file.data_at + file.size < 2 ^ 64
  pub new_in_range : new + (n + offset) < 2 ^ 64
  pub old_apart : Apart buf n file.data_at file.size
  pub new_apart : Apart buf n new (n + offset)
  pub areas_apart : Apart file.data_at file.size new (n + offset)

pub make_room_lem :
    (file : TmpfsNode) (new n offset buf : ℕ) (m : Mem)
    → CanWrite file new n offset buf
    → IsRoom file (make_room new file n offset m).0 n offset buf m (make_room new file n offset m).1
unfolding make_room
make_room_lem file new n offset buf m can = elim (Bool-cases (file.size == 0)) [
  | inl empty ↦
      rw (empty, add64_small n offset (ground arith))
        (record {
          has_size = ground arith;
          room_in_range = ground arith;
          room_apart = ground arith;
          old_bytes = λ i low. absurd (ground arith);
          new_bytes = λ z i low. ground (arith, memset_lem m new 0 (n + offset) (new + i));
          same_buf = λ i low. ground (arith, memset_lem m new 0 (n + offset) (buf + i));
        })
  | inr full ↦ elim (Bool-cases (ltb file.size (add64 n offset))) [
    | inl grows ↦
        rw
          (
            full,
            grows,
            ne→== file.data_at 0 (λ z. absurd (ground arith)),
            add64_small n offset (ground arith),
          )
          (record {
            has_size = ground arith;
            room_in_range = ground arith;
            room_apart = ground arith;
            old_bytes = λ i low. memcpy_in m new file.data_at file.size i (ground arith) low;
            new_bytes = λ z i low. absurd (ground arith);
            same_buf = λ i low.
                memcpy_out m new file.data_at file.size (buf + i) (ground arith) (ground arith);
          })
    | inr fits ↦
        rw (full, fits)
          (record {
            has_size = ground arith;
            room_in_range = ground arith;
            room_apart = ground arith;
            old_bytes = λ i low. refl;
            new_bytes = λ z i low. absurd (ground arith);
            same_buf = λ i low. refl;
          })
  ]
]
