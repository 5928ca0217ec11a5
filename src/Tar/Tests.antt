-- ===== src/Tar/Tests.antt =====
-- Archives at concrete inputs.
use nyaux.Base.{
  ℕ, ◌+◌, ◌-◌, ◌*◌, ◌≡◌, arith, refl, if◌then◌else◌, ◌==◌, List, [], ◌∷◌, ◌++◌, Option, none, some,
  inl, inr, Bool-cases,
}
use nyaux.Machine.{Mem}
use nyaux.Word.{add64}
use nyaux.Fs.{Vnodes, vnode_lookup, find_entry}
use nyaux.Fs.Room.{CanWrite}
use nyaux.Path.Split.{components}
use nyaux.Path.Parent.{here}
use nyaux.Fs.Lookup.{empty_dir, empty_file}
use nyaux.Tar.{Areas, Ramdisk, filesize_octal, getsize, parse_tar_and_populate_tmpfs}
use nyaux.Tar.Header.{IsFileHeader, no_bytes}
use nyaux.Tar.Unpack.{Unpacked, handle_header-Unpacked}
use nyaux.Tar.Loop.{Ends, parse_tar_and_populate_tmpfs-Ends}

not_both : {v : ℕ} {o : Option ℕ} → o ≡ none → o ≡ some v → ⊥
not_both e f = cc

-- "00000000012" at 124.
abbrev digits : Mem
digits a = if a == 133 then 49 else if a == 134 then 50 else 48

ten_bytes : getsize 124 digits ≡ 10
unfolding getsize
ten_bytes = refl

abbrev areas : ℕ → Areas
areas hdr = record { vnode = hdr; data_at = 2 * hdr; beyond = 0; old = [] }

abbrev no_vnodes : Vnodes
no_vnodes v = empty_file

parse_tar_and_populate_tmpfs-Ends_example :
    Ends
      (4096 + 2048 - 1024)
      (parse_tar_and_populate_tmpfs 5 20 8 16 areas 4096 2048 1 no_vnodes digits)
parse_tar_and_populate_tmpfs-Ends_example =
    parse_tar_and_populate_tmpfs-Ends 4 20 8 16 areas 4096 2048 1 no_vnodes digits (omega arith)
      (omega arith) (omega arith)

-- The file "f" with three bytes, at 4096; the literals stand at 8 and 16.
abbrev archive : Mem
archive a =
    if a == 4096
    then 102
    else if a == 4097
    then 0
    else if a == 4230
    then 51
    else if a == 4253
    then 0
    else if a == 8
    then 53
    else 48

abbrev roots : Vnodes
roots v = if v == 1 then empty_dir else empty_file

abbrev disk : Ramdisk
disk = record { vnodes = roots; mem = archive; roo = 1 }

abbrev new_areas : Areas
new_areas = record { vnode = 9; data_at = 9000; beyond = 0; old = [] }

nothing_found : (a : ℕ) (part : List ℕ) → (vnode_lookup (roots a) part none).1 ≡ none
unfolding vnode_lookup find_entry
nothing_found a part = elim (Bool-cases (a == 1)) [
  | inl one ↦ rw one refl
  | inr other ↦ rw other refl
]

three_bytes : getsize (filesize_octal 4096) archive ≡ 3
unfolding getsize
three_bytes = refl

archive-CanWrite : CanWrite no_bytes 9000 (getsize (filesize_octal 4096) archive) 0 (add64 4096 512)
archive-CanWrite = rw three_bytes (record {
  some_bytes = omega arith;
  not_null = inr refl;
  old_in_range = omega arith;
  new_in_range = omega arith;
  old_apart = inr (omega arith);
  new_apart = inl (omega arith);
  areas_apart = inl (omega arith);
})

f_names : components (102 ∷ []) ≡ [] ++ ((102 ∷ []) ∷ [])
unfolding components
f_names = refl

f-IsFileHeader : IsFileHeader 8 16 new_areas disk 4096 102 [] 1
f-IsFileHeader = record {
  name_at = (refl, omega arith, refl);
  type_at = (refl, omega arith, omega arith, refl);
  five_at = refl;
  nought_at = refl;
  creatable = record {
    dirs = [];
    name = 102 ∷ [];
    no_nul = omega arith;
    names = f_names;
    reaches = here;
    is_dir = refl;
    is_missing = nothing_found 1 (102 ∷ []);
    is_fresh = (omega arith, λ a part e. not_both (nothing_found a part) e);
  };
  writable = archive-CanWrite;
}

handle_header-Unpacked_example :
    Unpacked 8 16 new_areas disk 4096 (102 ∷ []) (getsize (filesize_octal 4096) archive) 0
handle_header-Unpacked_example =
    handle_header-Unpacked 8 16 new_areas disk 4096 102 [] 1 0 f-IsFileHeader
