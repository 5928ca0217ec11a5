-- ===== src/Tar/Header.antt =====
-- Headers of files in kernel/src/fs/tar.c.
use nyaux.Base.{
  ℕ, ◌≡◌, ◌≢◌, inl, inr, true, false, some, List, [], ◌∷◌, ◌==◌, refl, sym, ◌∙◌, Bool-cases, ne→==,
  ==_iff, fun_ext,
}
use nyaux.Word.{add64}
use nyaux.Machine.{Mem}
use nyaux.Libc.{strncmp}
use nyaux.Libc.Strings.{IsString}
use nyaux.Fs.{Vnode, Vnodes, TmpfsNode, put_vnode, add_vnode}
use nyaux.Fs.Room.{CanWrite}
use nyaux.Path.{Tree, starting_vnode}
use nyaux.Path.Resolve.{IsCString}
use nyaux.Path.Parent.{Reaches, here, into}
use nyaux.Path.Create.{IsCreatable}
use nyaux.Tar.{getsize, filesize_octal, type_of, Areas, Ramdisk, tree_of, has_type}

-- The file that `vnode_create` makes.
abbrev pub no_bytes : TmpfsNode
no_bytes = record { data_at = 0; size = 0 }

-- The header stands for a file of some bytes whose path can be made, with a type "0" and no linked name;
-- the literals are where `five` and `nought` say; and the file's bytes, the new area and the address
-- space are as a write needs them.
pub record IsFileHeader (five nought : ℕ) (areas : Areas) (disk : Ramdisk) (hdr c : ℕ) (cs : List ℕ)
    (par : ℕ) : Type 0 where
  pub name_at : IsCString disk.mem hdr (c ∷ cs)
  pub type_at : IsString disk.mem (type_of hdr) (48 ∷ [])
  pub five_at : disk.mem five ≡ 53
  pub nought_at : disk.mem nought ≡ 48
  pub creatable :
      IsCreatable
        (tree_of disk)
        (starting_vnode (tree_of disk) disk.roo (c ∷ cs))
        (c ∷ cs)
        par
        areas.vnode
  pub writable :
      CanWrite no_bytes areas.data_at (getsize (filesize_octal hdr) disk.mem) 0 (add64 hdr 512)

pub not_five :
    (m : Mem) (hdr five : ℕ)
    → IsString m (type_of hdr) (48 ∷ [])
    → m five ≡ 53
    → has_type m hdr five (some 1) ≡ some false
unfolding strncmp
not_five m hdr five (at, pos, small, end) is = rw (at, is) refl

pub is_nought :
    (m : Mem) (hdr nought : ℕ)
    → IsString m (type_of hdr) (48 ∷ [])
    → m nought ≡ 48
    → has_type m hdr nought (some 1) ≡ some true
unfolding strncmp
is_nought m hdr nought (at, pos, small, end) is = rw (at, is) refl

-- A walk does not read the memory but for links.
pub Reaches-mem :
    (t : Tree) (m : Mem) {cur par : ℕ} {names : List (List ℕ)}
    → Reaches t cur names par
    → Reaches (record t { mem = m }) cur names par
Reaches-mem t m here = here
Reaches-mem t m (into found is_dir more) = into found is_dir (Reaches-mem t m more)

-- A vnode that was just added, changed.
pub put_again :
    (vs : Vnodes) (par new : ℕ) (name : List ℕ) (a b : Vnode)
    → new ≢ par
    → put_vnode (add_vnode vs par name new a) new b ≡ add_vnode vs par name new b
put_again vs par new name a b other = fun_ext (λ k. elim (Bool-cases (k == new)) [
  | inl same ↦
      (let away : (k == par) ≡ false = ne→== k par (λ e. other (sym ((==_iff k new).0 same) ∙ e)) in
        rw (same, away) refl)
  | inr differs ↦ rw differs refl
])
