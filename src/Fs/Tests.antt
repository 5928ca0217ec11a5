-- ===== src/Fs/Tests.antt =====
-- The file system at concrete inputs.
use nyaux.Base.{
  ℕ, ◌+◌, ◌-◌, ◌≤◌, ◌<◌, ◌⊎◌, ◌≡◌, ◌%◌, ◌^◌, [], ◌∷◌, none, refl, arith, inl, inr, min, max,
}
use nyaux.Machine.{Mem}
use nyaux.Fs.{Vnodes, TmpfsNode, vnode_mkdir, vnode_create, read_file, write_file, make_room}
use nyaux.Fs.Lookup.{Holds, empty_dir, empty_file, vnode_lookup-mkdir-create}
use nyaux.Fs.Files.{InMemory, read_file_lem, write_file_lem, read_file-write_file}
use nyaux.Fs.Room.{CanWrite, Apart}

-- Directories everywhere; vnode 64 is the root.
abbrev vnodes : Vnodes
vnodes a = empty_dir

vnode_lookup-mkdir-create_example :
    ((vnode_mkdir vnodes 64 (117 ∷ 115 ∷ 114 ∷ []) 96 none).0 ≡ 0)
    × Holds vnodes
        (vnode_mkdir vnodes 64 (117 ∷ 115 ∷ 114 ∷ []) 96 none).2
        64
        (117 ∷ 115 ∷ 114 ∷ [])
        96
        empty_dir
    × ((vnode_create vnodes 64 (117 ∷ 115 ∷ 114 ∷ []) 96 none).0 ≡ 0)
    × Holds vnodes
        (vnode_create vnodes 64 (117 ∷ 115 ∷ 114 ∷ []) 96 none).2
        64
        (117 ∷ 115 ∷ 114 ∷ [])
        96
        empty_file
vnode_lookup-mkdir-create_example =
    vnode_lookup-mkdir-create vnodes 64 (117 ∷ 115 ∷ 114 ∷ []) 96 none refl (omega arith)

-- Ten bytes at 1000.
abbrev ten : TmpfsNode
ten = record { data_at = 1000; size = 10 }

abbrev bytes : Mem
bytes a = a % 256

ten-InMemory : InMemory ten
ten-InMemory = record { not_empty = omega arith; in_range = omega arith }

ten-CanWrite : CanWrite ten 3000 4 8 2000
ten-CanWrite = record {
  some_bytes = omega arith;
  not_null = inl (omega arith);
  old_in_range = omega arith;
  new_in_range = omega arith;
  old_apart = inr (omega arith);
  new_apart = inl (omega arith);
  areas_apart = inl (omega arith);
}

read_file_lem_example :
    ((read_file ten 8 6 2000 bytes).0 ≡ min 8 (10 - 6) % 2 ^ 32)
    × ((i : ℕ)
        → i < min 8 (10 - 6)
        → (read_file ten 8 6 2000 bytes).1 (2000 + i) ≡ bytes (1000 + (6 + i)))
    × ((a : ℕ)
        → (a < 2000) ⊎ (2000 + min 8 (10 - 6) ≤ a)
        → (read_file ten 8 6 2000 bytes).1 a ≡ bytes a)
read_file_lem_example =
    read_file_lem ten 8 6 2000 bytes ten-InMemory (omega arith) (inr (omega arith))

write_file_lem_example :
    ((write_file 3000 ten 4 8 2000 bytes).0.size ≡ max 10 (4 + 8))
    × ((i : ℕ)
        → i < 4
        → (write_file 3000 ten 4 8 2000 bytes).1
            ((write_file 3000 ten 4 8 2000 bytes).0.data_at + (8 + i))
          ≡ bytes (2000 + i))
    × ((i : ℕ)
        → i < 10
        → (i < 8) ⊎ (8 + 4 ≤ i)
        → (write_file 3000 ten 4 8 2000 bytes).1
            ((write_file 3000 ten 4 8 2000 bytes).0.data_at + i)
          ≡ bytes (1000 + i))
    × (◌≡◌ {A = ℕ} 10 0
        → (i : ℕ) → i < 8
        → (write_file 3000 ten 4 8 2000 bytes).1
            ((write_file 3000 ten 4 8 2000 bytes).0.data_at + i)
          ≡ 0)
write_file_lem_example = write_file_lem ten 3000 4 8 2000 bytes ten-CanWrite

ten-Apart :
    Apart 5000 4
      (write_file 3000 ten 4 8 2000 bytes).0.data_at
      (write_file 3000 ten 4 8 2000 bytes).0.size
unfolding write_file make_room
ten-Apart = inr (omega arith)

read_file-write_file_example :
    ((read_file
        (write_file 3000 ten 4 8 2000 bytes).0
        4
        8
        5000
        (write_file 3000 ten 4 8 2000 bytes).1).0
      ≡ 4)
    × ((i : ℕ)
        → i < 4
        → (read_file
              (write_file 3000 ten 4 8 2000 bytes).0
              4
              8
              5000
              (write_file 3000 ten 4 8 2000 bytes).1).1
            (5000 + i)
          ≡ bytes (2000 + i))
read_file-write_file_example =
    read_file-write_file ten 3000 4 8 2000 5000 bytes ten-CanWrite (omega arith) ten-Apart
