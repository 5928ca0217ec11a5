-- ===== src/Tar/Unpack.antt =====
-- What kernel/src/fs/tar.c makes of the header of a file.
use nyaux.Base.{
  ℕ, ◌+◌, ◌<◌, ◌≡◌, ◌≢◌, Bool, true, false, Option, none, some, List, [], ◌∷◌, length, arith, refl,
  ap, ◌∙◌, ==_iff,
}
use mathlib.Core.Path.{subst}
use nyaux.Word.{add64}
use nyaux.Machine.{Mem}
use nyaux.Libc.Strings.{strlen_lem}
use nyaux.Fs.{
  Vnode, Vnodes, nyavnode_file, TmpfsNode, tmpfs_node, put_vnode, vnode_rdwr, write_file,
}
use nyaux.Fs.Lookup.{empty_file, add_vnode_lem}
use nyaux.Fs.Files.{write_file_lem}
use nyaux.Path.{returns, starting_vnode, vnode_path_lookup}
use nyaux.Path.Resolve.{string_at_lem}
use nyaux.Path.Create.{
  IsCreatable, after_create, parent_found, creates_file, fresh_par, found_after, new_file,
}
use nyaux.Tar.{
  getsize, filesize_octal, type_of, Areas, Ramdisk, Handled, handled, tree_of, fill, create_named,
  then_fill, has_type, handle_as, handle_header,
}
use nyaux.Tar.Header.{no_bytes, IsFileHeader, not_five, is_nought, Reaches-mem, put_again}

module _ (five nought : ℕ) (areas : Areas) (disk : Ramdisk) (hdr c : ℕ) (cs : List ℕ) (par : ℕ)
    (is : IsFileHeader five nought areas disk hdr c cs par) where
  abbrev size : ℕ
  size = getsize (filesize_octal hdr) disk.mem

  -- The file and the memory after the write.
  abbrev written : TmpfsNode × Mem
  written = write_file areas.data_at no_bytes size 0 (add64 hdr 512) disk.mem

  abbrev file_vnode : Vnode
  file_vnode = record { type = nyavnode_file; payload = tmpfs_node written.0 }

  abbrev created_vnodes : Vnodes
  created_vnodes = (after_create (tree_of disk) par is.creatable.name areas.vnode empty_file).vnodes

  abbrev unpacked : Ramdisk
  unpacked = record {
    vnodes = put_vnode created_vnodes areas.vnode file_vnode;
    mem = written.1;
    roo = disk.roo;
  }

  abbrev filled_with : Vnode → Ramdisk
  filled_with v =
      let w = vnode_rdwr areas.data_at v size 0 (add64 hdr 512) 1 disk.mem in
      record { vnodes = put_vnode created_vnodes areas.vnode w.1; mem = w.2; roo = disk.roo }

  abbrev and_fill : Ramdisk → ℕ → Handled
  and_fill made v =
      handled (fill made areas v (getsize (filesize_octal hdr) made.mem) (add64 hdr 512))

  apart : areas.vnode ≢ par
  apart = fresh_par (tree_of disk) areas.beyond disk.roo c cs par areas.vnode areas.old is.creatable

  new_is_empty : created_vnodes areas.vnode ≡ empty_file
  new_is_empty =
      (add_vnode_lem disk.vnodes par is.creatable.name areas.vnode empty_file is.creatable.is_dir
        apart).2

  handles :
      (fuel : ℕ)
      → 1 < fuel
      → length (c ∷ cs) < fuel
      → vnode_path_lookup fuel (tree_of disk) areas.beyond disk.roo (c ∷ cs) true true
        ≡ returns (some par) (some is.creatable.name)
      → handle_header fuel five nought areas disk hdr ≡ handled unpacked
  unfolding handle_header vnode_rdwr
  handles fuel two long parent =
      ap
        (λ (o : Option ℕ).
          handle_as fuel areas disk hdr (has_type disk.mem hdr five o)
            (has_type disk.mem hdr nought o))
        (strlen_lem fuel (type_of hdr) disk.mem (48 ∷ []) is.type_at two)
      ∙ ap
          (λ (b : Option Bool).
            handle_as fuel areas disk hdr b (has_type disk.mem hdr nought (some 1)))
          (not_five disk.mem hdr five is.type_at is.five_at)
      ∙ ap (λ (b : Option Bool). handle_as fuel areas disk hdr (some false) b)
          (is_nought disk.mem hdr nought is.type_at is.nought_at)
      ∙ ap (λ (p : Option (List ℕ)). then_fill disk (create_named fuel areas disk 1 p) and_fill)
          (string_at_lem fuel disk.mem hdr (c ∷ cs) is.name_at long)
      ∙ ap (λ r. then_fill disk r and_fill)
          (creates_file (tree_of disk) areas.beyond disk.roo c cs par areas.vnode areas.old
            is.creatable fuel parent)
      ∙ ap (λ (v : Vnode). handled (filled_with v)) new_is_empty

  still_creatable :
      IsCreatable
        (record (tree_of disk) { mem = written.1 })
        (starting_vnode (tree_of disk) disk.roo (c ∷ cs))
        (c ∷ cs)
        par
        areas.vnode
  still_creatable = record {
    dirs = is.creatable.dirs;
    name = is.creatable.name;
    no_nul = is.creatable.no_nul;
    names = is.creatable.names;
    reaches = Reaches-mem (tree_of disk) written.1 is.creatable.reaches;
    is_dir = is.creatable.is_dir;
    is_missing = is.creatable.is_missing;
    is_fresh = is.creatable.is_fresh;
  }

  found_unpacked :
      (beyond : ℕ)
      → (m : ℕ) × ((k : ℕ)
          → vnode_path_lookup (m + k) (tree_of unpacked) beyond disk.roo (c ∷ cs) false false
            ≡ returns (some areas.vnode) none)
  unfolding still_creatable
  found_unpacked beyond =
      let t = record (tree_of disk) { mem = written.1 } in
      let name = is.creatable.name in
      let (m, finds) =
        found_after t areas.beyond disk.roo c cs par areas.vnode areas.old still_creatable
          file_vnode beyond
          (new_file t par name areas.vnode file_vnode is.creatable.is_dir is.creatable.is_missing
            apart is.creatable.is_fresh.1 refl) in
      (
        m,
        λ k.
            ap
              (λ (vs : Vnodes).
                vnode_path_lookup (m + k) (record { vnodes = vs; mem = written.1; top = disk.roo })
                  beyond disk.roo (c ∷ cs) false false)
              (put_again disk.vnodes par areas.vnode name empty_file file_vnode apart)
            ∙ finds k,
      )

regroup : (a b c : ℕ) → a + (b + c) ≡ a + b + c
regroup a b c = omega arith

none_before : (i : ℕ) → i ≡ 0 + i
none_before i = omega arith

-- A header was handled, and the file at `path` has `size` bytes, those of the archive.
pub record Unpacked (five nought : ℕ) (areas : Areas) (disk : Ramdisk) (hdr : ℕ) (path : List ℕ)
    (size beyond : ℕ) : Type 0 where
  pub after : Ramdisk
  pub file : TmpfsNode
  pub rounds : ℕ
  pub handles_it : (k : ℕ) → handle_header (rounds + k) five nought areas disk hdr ≡ handled after
  pub steps : ℕ
  pub is_found :
      (k : ℕ)
      → vnode_path_lookup (steps + k) (tree_of after) beyond disk.roo path false false
        ≡ returns (some areas.vnode) none
  pub is_file :
      after.vnodes areas.vnode ≡ record { type = nyavnode_file; payload = tmpfs_node file }
  pub has_size : file.size ≡ size
  pub has_bytes : (i : ℕ) → i < size → after.mem (file.data_at + i) ≡ disk.mem (add64 hdr 512 + i)

-- The header of a file of some bytes is handled, with every fuel from some on, and a lookup of its path
-- from the root then finds a file of as many bytes as `getsize` reads, which are the bytes behind the
-- header in the archive.
pub handle_header-Unpacked :
    (five nought : ℕ) (areas : Areas) (disk : Ramdisk) (hdr c : ℕ) (cs : List ℕ) (par beyond : ℕ)
    → IsFileHeader five nought areas disk hdr c cs par
    → Unpacked five nought areas disk hdr (c ∷ cs) (getsize (filesize_octal hdr) disk.mem) beyond
handle_header-Unpacked five nought areas disk hdr c cs par beyond is =
    let (n, parent) =
      parent_found (tree_of disk) areas.beyond disk.roo c cs par areas.vnode areas.old
        is.creatable in
    let size = getsize (filesize_octal hdr) disk.mem in
    let (whole, bytes, old, zeros) =
      write_file_lem no_bytes areas.data_at size 0 (add64 hdr 512) disk.mem is.writable in
    let (m, finds) = found_unpacked five nought areas disk hdr c cs par is beyond in
    let room = written five nought areas disk hdr c cs par is in
    let long = 2 + length (c ∷ cs) in
    record {
      after = unpacked five nought areas disk hdr c cs par is;
      file = (written five nought areas disk hdr c cs par is).0;
      rounds = n + long;
      handles_it = λ k.
          handles five nought areas disk hdr c cs par is (n + long + k) (omega arith) (omega arith)
            (subst
              (λ (fuel : ℕ).
                vnode_path_lookup fuel (tree_of disk) areas.beyond disk.roo (c ∷ cs) true true
                ≡ returns (some par) (some is.creatable.name))
              (regroup n long k) (parent (long + k)));
      steps = m;
      is_found = finds;
      is_file = rw ((==_iff areas.vnode areas.vnode).1 refl) refl;
      has_size = whole ∙ omega arith;
      has_bytes =
          λ i low. ap (λ (j : ℕ). room.1 (room.0.data_at + j)) (none_before i) ∙ bytes i low;
    }
