-- ===== src/Tar.antt =====
-- The initial ramdisk: `getsize` and `parse_tar_and_populate_tmpfs` of kernel/src/fs/tar.c. The archive
-- stands in the byte memory, with the string literals "5" and "0" that the code compares with.
pub mod Octal
pub mod Loop
pub mod Header
pub mod Unpack
mod Tests
use nyaux.Base.{
  ℕ, zero, suc, ◌+◌, ◌*◌, ◌%◌, ◌^◌, Bool, true, false, Option, none, some, List, [], ◌==◌, ltb,
  if◌then◌else◌,
}
use nyaux.Word.{add64, sub64}
use nyaux.Machine.{Mem}
use nyaux.Libc.{char, char_diff, strlen, strncmp}
use nyaux.Vmm.Align.{align_up}
use nyaux.Fs.{Vnode, Vnodes, nyavnode_dir, nyavnode_symlink, tmpfs_dir, put_vnode, vnode_rdwr}
use nyaux.Path.{Tree, Created, created, no_return, string_at, vfs_create}

-- `struct tar_header`: where the fields that are read stand.
abbrev pub filesize_octal : ℕ → ℕ
filesize_octal hdr = add64 hdr 124

abbrev pub type_of : ℕ → ℕ
type_of hdr = add64 hdr 156

abbrev pub name_linked_file : ℕ → ℕ
name_linked_file hdr = add64 hdr 157

-- The rounds of the loop of `getsize` for the digits before `in[j]`, in `unsigned int`.
unfoldable pub add_digits : (j at size count : ℕ) → Mem → ℕ
add_digits zero at size count m = size
add_digits (suc j) at size count m =
    add_digits j at ((size + char_diff (char (m (at + j))) 48 * count) % 2 ^ 32)
      (count * 8 % 2 ^ 32) m

unfoldable pub getsize : (at : ℕ) → Mem → ℕ
unfolding add_digits
getsize at m = add_digits 11 at 0 1 m

-- What the calls of `kmalloc` give while a header is handled: the new vnode, the area for the file's
-- bytes, the byte behind the copy of the path and the string in the new area for a component.
pub record Areas : Type 0 where
  pub vnode : ℕ
  pub data_at : ℕ
  pub beyond : ℕ
  pub old : List ℕ

-- The memory, the vnodes, and the root `roo`.
pub record Ramdisk : Type 0 where
  pub vnodes : Vnodes
  pub mem : Mem
  pub roo : ℕ

-- A ramdisk, or a loop of some other function does not end.
pub data Handled : Type 0 where
  handled : Ramdisk → Handled
  stuck : Handled

abbrev pub tree_of : Ramdisk → Tree
tree_of disk = record { vnodes = disk.vnodes; mem = disk.mem; top = disk.roo }

-- The root directory that is made first.
abbrev pub empty_disk : Vnodes → Mem → (roo : ℕ) → Ramdisk
empty_disk vs m roo = record {
  vnodes = put_vnode vs roo (record { type = nyavnode_dir; payload = tmpfs_dir [] });
  mem = m;
  roo = roo;
}

-- `notneeded->ops->v_rdwr(notneeded, size, 0, buf, 1)`
abbrev pub fill : Ramdisk → Areas → (v size buf : ℕ) → Ramdisk
fill disk areas v size buf =
    let written = vnode_rdwr areas.data_at (disk.vnodes v) size 0 buf 1 disk.mem in
    record disk { vnodes = put_vnode disk.vnodes v written.1; mem = written.2 }

-- `vfs_create(roo, hdr_ptr->name, type, &notneeded)`
abbrev pub create_named : (fuel : ℕ) → Areas → Ramdisk → (type : ℕ) → Option (List ℕ) → Created
create_named fuel areas disk type none = no_return
create_named fuel areas disk type (some path) =
    vfs_create fuel (tree_of disk) areas.beyond disk.roo path type areas.vnode areas.old

-- Nothing was created if `notneeded` is still NULL.
abbrev pub then_fill : Ramdisk → Created → (Ramdisk → ℕ → Handled) → Handled
then_fill disk no_return k = stuck
then_fill disk (created status none vs) k = handled (record disk { vnodes = vs })
then_fill disk (created status (some none) vs) k = handled (record disk { vnodes = vs })
then_fill disk (created status (some (some v)) vs) k = k (record disk { vnodes = vs }) v

abbrev pub fill_link : (hdr : ℕ) → Areas → Ramdisk → ℕ → Option ℕ → Handled
fill_link hdr areas disk v none = stuck
fill_link hdr areas disk v (some len) =
    let filled = fill disk areas v (add64 len 1) (name_linked_file hdr) in
    handled (record filled {
      vnodes = put_vnode filled.vnodes v (record (filled.vnodes v) { type = nyavnode_symlink });
    })

-- `strncmp(hdr_ptr->type, literal, strlen(hdr_ptr->type)) == 0`. The type has no NUL of its own, so the
-- string goes on with the name of the linked file.
abbrev pub has_type : Mem → (hdr literal : ℕ) → Option ℕ → Option Bool
has_type m hdr literal none = none
has_type m hdr literal (some len) = some (strncmp len (type_of hdr) literal m == 0)

-- The body of the loop, but for the step to the next header. `five` and `nought` are where the literals
-- "5" and "0" stand.
abbrev pub handle_as :
    (fuel : ℕ) → Areas → Ramdisk → (hdr : ℕ) → (is_dir is_file : Option Bool) → Handled
handle_as fuel areas disk hdr none is_file = stuck
handle_as fuel areas disk hdr (some true) is_file =
    then_fill disk (create_named fuel areas disk 0 (string_at fuel disk.mem hdr))
      (λ made v. handled made)
handle_as fuel areas disk hdr (some false) none = stuck
handle_as fuel areas disk hdr (some false) (some true) =
    then_fill disk (create_named fuel areas disk 1 (string_at fuel disk.mem hdr)) (λ made v.
      handled (fill made areas v (getsize (filesize_octal hdr) made.mem) (add64 hdr 512)))
handle_as fuel areas disk hdr (some false) (some false) =
    if disk.mem (type_of hdr) == 50
    then then_fill disk (create_named fuel areas disk 1 (string_at fuel disk.mem hdr))
        (λ made v. fill_link hdr areas made v (strlen fuel (name_linked_file hdr) made.mem))
    else handled disk

unfoldable pub handle_header :
    (fuel : ℕ) → (five nought : ℕ) → Areas → Ramdisk → (hdr : ℕ) → Handled
handle_header fuel five nought areas disk hdr =
    let len = strlen fuel (type_of hdr) disk.mem in
    handle_as fuel areas disk hdr (has_type disk.mem hdr five len)
      (has_type disk.mem hdr nought len)

-- `(void*)hdr_ptr + 512 + align_up(getsize(hdr_ptr->filesize_octal), 512)`
unfoldable pub next_header : Mem → (hdr : ℕ) → ℕ
next_header m hdr = add64 (add64 hdr 512) (align_up (getsize (filesize_octal hdr) m) 512)

-- How the loop over the headers ends.
pub data Parsed : Type 0 where
  parsed : Ramdisk → Parsed
  -- A call in its body does not return.
  stuck_at : (hdr : ℕ) → Parsed
  -- It is still going on.
  out_of_fuel : Parsed

-- The loop, which ends 1024 bytes before the end of the archive. `inner` is the fuel of the calls in its
-- body, `areas` what they get from `kmalloc` at each header.
unfoldable pub parse_from :
    (fuel inner : ℕ) → (five nought : ℕ) → (ℕ → Areas) → (end : ℕ) → Ramdisk → (hdr : ℕ) → Parsed
parse_from zero inner five nought areas end disk hdr = out_of_fuel
parse_from (suc fuel) inner five nought areas end disk hdr = elim (ltb hdr end) [
  | false ↦ parsed disk
  | true ↦ elim (handle_header inner five nought (areas hdr) disk hdr) [
    | stuck ↦ stuck_at hdr
    | handled disk' ↦ parse_from fuel inner five nought areas end disk' (next_header disk'.mem hdr)
  ]
]

unfoldable pub parse_tar_and_populate_tmpfs :
    (fuel inner : ℕ)
    → (five nought : ℕ) → (ℕ → Areas)
    → (address size roo : ℕ) → Vnodes
    → Mem
    → Parsed
parse_tar_and_populate_tmpfs fuel inner five nought areas address size roo vs m =
    parse_from fuel inner five nought areas (sub64 (add64 address size) 1024) (empty_disk vs m roo)
      address
