-- ===== src/Fs.antt =====
-- The in-memory file system of kernel/src/fs/tmpfs.c and the descriptor table of kernel/src/fs/vfs.c.
-- A vnode is named by its address. A string is the list of its bytes before the NUL, and two strings are
-- compared as lists. The address that a call of `kmalloc` returns is an argument `new`.
pub mod Lookup
pub mod Room
pub mod Files
pub mod Bitmap
pub mod Tests
use nyaux.Base.{
  ℕ, zero, suc, ◌+◌, ◌-◌, ◌%◌, ◌^◌, Bool, true, false, ◌&&◌, Option, none, some, List, [], ◌∷◌,
  ◌==◌, ltb, if◌then◌else◌,
}
use nyaux.Word.{add64, sub64}
use nyaux.Machine.{Mem, write}
use nyaux.Libc.{memcpy, memset, minus_one}

-- `enum vnode_type`
pub data VnodeType : Type 0 where
  nyavnode_dir nyavnode_file nyavnode_symlink : VnodeType

-- `if (type == NYAVNODE_DIR)`
abbrev pub if_dir : {A : Type 0} → VnodeType → A → A → A
if_dir nyavnode_dir a b = a
if_dir nyavnode_file a b = b
if_dir nyavnode_symlink a b = b

-- `struct tmpfs_node`
pub record TmpfsNode : Type 0 where
  pub data_at : ℕ
  pub size : ℕ

-- `struct tmpfs_dir_entry`, without its link
pub record DirEntry : Type 0 where
  pub name : List ℕ
  pub ptr_to_vnode : ℕ

-- What `data` of a vnode points to: a `struct tmpfs_dir` or a `struct tmpfs_node`.
pub data Payload : Type 0 where
  tmpfs_dir : List DirEntry → Payload
  tmpfs_node : TmpfsNode → Payload

pub record Vnode : Type 0 where
  pub type : VnodeType
  pub payload : Payload

abbrev pub Vnodes : Type 0
Vnodes = ℕ → Vnode

abbrev pub put_vnode : Vnodes → ℕ → Vnode → Vnodes
put_vnode vs a v b = if b == a then v else vs b

unfoldable pub same_name : List ℕ → List ℕ → Bool
same_name [] [] = true
same_name [] (b ∷ bs) = false
same_name (a ∷ cs) [] = false
same_name (a ∷ cs) (b ∷ bs) = (a == b) && same_name cs bs

unfoldable pub find_entry : List DirEntry → List ℕ → Option ℕ
find_entry [] part = none
find_entry (e ∷ es) part =
    let rest = find_entry es part in if same_name e.name part then some e.ptr_to_vnode else rest

-- The entries of a directory; a `struct tmpfs_node` is never read as one.
abbrev pub entries : Payload → List DirEntry
entries (tmpfs_dir es) = es
entries (tmpfs_node n) = []

-- The status, and what is left in `*res`, which held `res`.
unfoldable pub vnode_lookup : Vnode → List ℕ → Option ℕ → ℕ × Option ℕ
unfolding find_entry
vnode_lookup v part res = elim v.type [
  | nyavnode_dir ↦ elim (find_entry (entries v.payload) part) [
    | some found ↦ (0, some found)
    | none ↦ (minus_one, none)
  ]
  | nyavnode_file ↦ (minus_one, res)
  | nyavnode_symlink ↦ (minus_one, res)
]

-- A new vnode `made` at `new`, and an entry for it at the head of directory `dir`.
abbrev pub add_vnode : Vnodes → (dir : ℕ) → List ℕ → (new : ℕ) → Vnode → Vnodes
add_vnode vs dir name new made = put_vnode (put_vnode vs new made) dir (record (vs dir) {
  payload = tmpfs_dir (record { name = name; ptr_to_vnode = new } ∷ entries (vs dir).payload);
})

-- The status, `*newdir` which held `res`, and the vnodes.
unfoldable pub vnode_mkdir :
    Vnodes → (v : ℕ) → List ℕ → (new : ℕ) → Option ℕ → ℕ × Option ℕ × Vnodes
vnode_mkdir vs v name new res =
    if_dir (vs v).type
      (
        0,
        some new,
        add_vnode vs v name new (record { type = nyavnode_dir; payload = tmpfs_dir [] }),
      )
      (minus_one, res, vs)

unfoldable pub vnode_create :
    Vnodes → (v : ℕ) → List ℕ → (new : ℕ) → Option ℕ → ℕ × Option ℕ × Vnodes
vnode_create vs v name new res =
    if_dir (vs v).type
      (
        0,
        some new,
        add_vnode vs v name new (record {
          type = nyavnode_file;
          payload = tmpfs_node (record { data_at = 0; size = 0 });
        }),
      )
      (minus_one, res, vs)

-- `end` and `start` of the read branch of `vnode_rdwr`.
abbrev pub read_end : TmpfsNode → (size_of_buf offset : ℕ) → ℕ
read_end file size_of_buf offset =
    if ltb (add64 file.data_at file.size) (add64 (add64 file.data_at offset) size_of_buf)
    then add64 file.data_at file.size
    else add64 (add64 file.data_at offset) size_of_buf

abbrev pub read_start : TmpfsNode → (size_of_buf offset : ℕ) → ℕ
read_start file size_of_buf offset =
    if ltb (read_end file size_of_buf offset) (add64 file.data_at offset)
    then read_end file size_of_buf offset
    else add64 file.data_at offset

-- The read branch: what it returns and the memory.
unfoldable pub read_file : TmpfsNode → (size_of_buf offset buf : ℕ) → Mem → ℕ × Mem
read_file file size_of_buf offset buf m =
    let start = read_start file size_of_buf offset in
    let count = sub64 (read_end file size_of_buf offset) start in
    if file.size == 0 then (minus_one, m) else (count % 2 ^ 32, memcpy m buf start count)

-- The file with room for what is written: a new area of NULs, a bigger area that begins with the old
-- bytes, or the area that it has. What `kfree` does to the old area is not part of it.
unfoldable pub make_room : (new : ℕ) → TmpfsNode → (size_of_buf offset : ℕ) → Mem → TmpfsNode × Mem
make_room new file size_of_buf offset m =
    let wanted = add64 size_of_buf offset in
    let grown : TmpfsNode = record { data_at = new; size = wanted } in
    if file.size == 0
    then (grown, memset m new 0 wanted)
    else if ltb file.size wanted
    then (grown, (if file.data_at == 0 then m else memcpy m new file.data_at file.size))
    else (file, m)

-- The write branch: the file and the memory. It returns 0.
unfoldable pub write_file :
    (new : ℕ) → TmpfsNode → (size_of_buf offset buf : ℕ) → Mem → TmpfsNode × Mem
write_file new file size_of_buf offset buf m =
    let (room, m1) = make_room new file size_of_buf offset m in
    (room, memcpy m1 (add64 room.data_at offset) buf size_of_buf)

-- `vnode_rdwr` with `rw` 0 for a read: what it returns, the vnode and the memory. Only files have the
-- type that it asks for; their payload is a `struct tmpfs_node`.
unfoldable pub vnode_rdwr :
    (new : ℕ) → Vnode → (size_of_buf offset buf rw : ℕ) → Mem → ℕ × Vnode × Mem
vnode_rdwr new v size_of_buf offset buf rw m = elim v.type [
  | nyavnode_dir ↦ (minus_one, v, m)
  | nyavnode_symlink ↦ (minus_one, v, m)
  | nyavnode_file ↦ elim v.payload [
    | tmpfs_dir es ↦ (minus_one, v, m)
    | tmpfs_node file ↦
        let (got, read_m) = read_file file size_of_buf offset buf m in
        let (room, write_m) = write_file new file size_of_buf offset buf m in
        if rw == 0 then (got, v, read_m) else (0, record v { payload = tmpfs_node room }, write_m)
  ]
]

-- `vnode_filesz`. On a directory it reads past the `struct tmpfs_dir`: `none`.
unfoldable pub vnode_filesz : Vnode → Option ℕ
vnode_filesz v = elim v.payload [ tmpfs_dir es ↦ none | tmpfs_node file ↦ some file.size ]

-- The first clear byte of the bitmap, from byte `i` on; `none` if `n` bytes are all set, where the
-- source returns no value.
unfoldable pub first_free : (n i : ℕ) → (ℕ → ℕ) → Option ℕ
first_free zero i bitmap = none
first_free (suc n) i bitmap =
    let rest = first_free n (i + 1) bitmap in if bitmap i == 0 then some i else rest

-- Bytes 0 and 1 are set the first time.
abbrev pub reserve_std : (ℕ → ℕ) → ℕ → ℕ
reserve_std bitmap =
    if (bitmap 0 == 0) && (bitmap 1 == 0) then write (write bitmap 0 1) 1 1 else bitmap

-- The byte that the search found, if any, is set.
abbrev pub take_fd : (ℕ → ℕ) → Option ℕ → Option (ℕ × (ℕ → ℕ))
take_fd bitmap (some i) = some (i, write bitmap i 1)
take_fd bitmap none = none

unfoldable pub allocate_fd_from_bitmap : (ℕ → ℕ) → (size : ℕ) → Option (ℕ × (ℕ → ℕ))
allocate_fd_from_bitmap bitmap size =
    take_fd (reserve_std bitmap) (first_free size 0 (reserve_std bitmap))

-- The status and the bitmap.
unfoldable pub deallocate_fd_from_bitmap : (ℕ → ℕ) → (fd : ℕ) → ℕ × (ℕ → ℕ)
deallocate_fd_from_bitmap bitmap fd =
    if bitmap fd == 1 then (0, write bitmap fd 0) else (minus_one, bitmap)
