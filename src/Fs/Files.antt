-- ===== src/Fs/Files.antt =====
-- Reading and writing files: `vnode_rdwr` of kernel/src/fs/tmpfs.c.
use nyaux.Base.{
  ℕ, ◌+◌, ◌-◌, ◌%◌, ◌^◌, ◌≤◌, ◌<◌, ◌≡◌, ◌⊎◌, arith, inl, refl, ◌∙◌, ap, min, max, ne→==,
}
use nyaux.Word.{add64, sub64, add64_small}
use nyaux.Machine.{Mem}
use nyaux.Libc.{memcpy}
use nyaux.Libc.Memory.{memcpy_in, memcpy_out}
use nyaux.Fs.Room.{Apart, CanWrite, IsRoom, make_room_lem}
use nyaux.Fs.{TmpfsNode, read_file, read_end, read_start, write_file}

-- A file whose bytes stand in memory.
pub record InMemory (file : TmpfsNode) : Type 0 where
  pub not_empty : 0 < file.size
  pub in_range : file.data_at + file.size < 2 ^ 64

read_end_lem :
    (file : TmpfsNode) (n offset : ℕ)
    → InMemory file
    → file.data_at + offset + n < 2 ^ 64
    → read_end file n offset ≡ file.data_at + min (offset + n) file.size
read_end_lem file n offset is fits = ground arith

read_start_lem :
    (file : TmpfsNode) (n offset : ℕ)
    → InMemory file
    → file.data_at + offset + n < 2 ^ 64
    → read_start file n offset ≡ file.data_at + min offset file.size
read_start_lem file n offset is fits =
    rw (read_end_lem file n offset is fits)
      (ground (arith, add64_small file.data_at offset (omega arith)))

read_count :
    (file : TmpfsNode) (n offset : ℕ)
    → InMemory file
    → file.data_at + offset + n < 2 ^ 64
    → sub64 (read_end file n offset) (read_start file n offset) ≡ min n (file.size - offset)
read_count file n offset is fits =
    rw (read_start_lem file n offset is fits, read_end_lem file n offset is fits) (omega arith)

-- A read of a file that is not empty returns how many of the bytes asked for the file has from `offset` on, as
-- an `int`, which is this number modulo 2 ^ 32. It copies exactly these to `buf`, and changes no other byte. The
-- file's bytes and what is asked for are below 2 ^ 64, and `buf` is apart from the file.
pub read_file_lem :
    (file : TmpfsNode) (n offset buf : ℕ) (m : Mem)
    → InMemory file
    → file.data_at + offset + n < 2 ^ 64
    → Apart buf n file.data_at file.size
    → ((read_file file n offset buf m).0 ≡ min n (file.size - offset) % 2 ^ 32)
      × ((i : ℕ)
          → i < min n (file.size - offset)
          → (read_file file n offset buf m).1 (buf + i) ≡ m (file.data_at + (offset + i)))
      × ((a : ℕ)
          → (a < buf) ⊎ (buf + min n (file.size - offset) ≤ a)
          → (read_file file n offset buf m).1 a ≡ m a)
unfolding read_file
read_file_lem file n offset buf m is fits apart =
    rw
      (
        ne→== file.size 0 (λ z. absurd (ground arith)),
        read_count file n offset is fits,
        read_start_lem file n offset is fits,
      )
      (
        refl,
        (λ i low.
            memcpy_in m buf (file.data_at + min offset file.size) (min n (file.size - offset)) i
              (omega arith) low
            ∙ ap m (omega arith)),
        λ a out.
            memcpy_out m buf (file.data_at + min offset file.size) (min n (file.size - offset)) a
              (omega arith) out,
      )

module _ {file room : TmpfsNode} {n offset buf : ℕ} {m m1 : Mem}
    (is : IsRoom file room n offset buf m m1) (some_bytes : 0 < n) where
  write_at : add64 room.data_at offset ≡ room.data_at + offset
  write_at = add64_small room.data_at offset (omega (arith, is.has_size, is.room_in_range))

  written_apart : (room.data_at + offset ≤ buf) ⊎ (buf + n ≤ room.data_at + offset)
  written_apart = omega (arith, is.has_size, is.room_apart)

  written :
      (i : ℕ)
      → i < n
      → memcpy m1 (add64 room.data_at offset) buf n (room.data_at + (offset + i)) ≡ m (buf + i)
  written i low = rw write_at (
      ap (memcpy m1 (room.data_at + offset) buf n) {y = room.data_at + offset + i} (omega arith)
      ∙ memcpy_in m1 (room.data_at + offset) buf n i written_apart low
      ∙ is.same_buf i low)

  unwritten :
      (i : ℕ)
      → (i < offset) ⊎ (offset + n ≤ i)
      → memcpy m1 (add64 room.data_at offset) buf n (room.data_at + i) ≡ m1 (room.data_at + i)
  unwritten i out =
      rw write_at
        (memcpy_out m1 (room.data_at + offset) buf n (room.data_at + i) written_apart (omega arith))

-- After a write of at least one byte the file has the written bytes at `offset` and its old bytes
-- elsewhere; a file that was empty has NULs before `offset`. Its size is the greater of the old
-- size and the end of the write.
pub write_file_lem :
    (file : TmpfsNode) (new n offset buf : ℕ) (m : Mem)
    → CanWrite file new n offset buf
    → ((write_file new file n offset buf m).0.size ≡ max file.size (n + offset))
      × ((i : ℕ)
          → i < n
          → (write_file new file n offset buf m).1
              ((write_file new file n offset buf m).0.data_at + (offset + i))
            ≡ m (buf + i))
      × ((i : ℕ)
          → i < file.size
          → (i < offset) ⊎ (offset + n ≤ i)
          → (write_file new file n offset buf m).1
              ((write_file new file n offset buf m).0.data_at + i)
            ≡ m (file.data_at + i))
      × (file.size ≡ 0
          → (i : ℕ) → i < offset
          → (write_file new file n offset buf m).1
              ((write_file new file n offset buf m).0.data_at + i)
            ≡ 0)
unfolding write_file
write_file_lem file new n offset buf m can =
    let is = make_room_lem file new n offset buf m can in
    (
      is.has_size,
      written is can.some_bytes,
      (λ i low out. unwritten is can.some_bytes i out ∙ is.old_bytes i low),
      λ z i low. unwritten is can.some_bytes i (inl low) ∙ is.new_bytes z i (omega arith),
    )

write_file-InMemory :
    (file : TmpfsNode) (new n offset buf : ℕ) (m : Mem)
    → CanWrite file new n offset buf
    → InMemory (write_file new file n offset buf m).0
unfolding write_file
write_file-InMemory file new n offset buf m can =
    let is = make_room_lem file new n offset buf m can in
    record { not_empty = omega (arith, is.has_size, can.some_bytes); in_range = is.room_in_range }

-- What was written is read back: a write of `n` bytes at `offset` and then a read of `n` bytes at
-- `offset` return `n` and copy the written bytes to the second buffer, if the file's area and that
-- buffer are apart.
pub read_file-write_file :
    (file : TmpfsNode) (new n offset buf to : ℕ) (m : Mem)
    → CanWrite file new n offset buf
    → n < 2 ^ 32
    → Apart to n
        (write_file new file n offset buf m).0.data_at
        (write_file new file n offset buf m).0.size
    → ((read_file
          (write_file new file n offset buf m).0
          n
          offset
          to
          (write_file new file n offset buf m).1).0
        ≡ n)
      × ((i : ℕ)
          → i < n
          → (read_file
                (write_file new file n offset buf m).0
                n
                offset
                to
                (write_file new file n offset buf m).1).1
              (to + i)
            ≡ m (buf + i))
read_file-write_file file new n offset buf to m can small apart =
    let (size, bytes, old, zeros) = write_file_lem file new n offset buf m can in
    let is = write_file-InMemory file new n offset buf m can in
    let whole : min n ((write_file new file n offset buf m).0.size - offset) ≡ n =
      omega (arith, size) in
    let (count, copied, same) =
      read_file_lem (write_file new file n offset buf m).0 n offset to
        (write_file new file n offset buf m).1 is (omega (arith, is.in_range, size)) apart in
    (count ∙ omega (arith, whole), λ i low. copied i (omega (arith, whole)) ∙ bytes i low)
