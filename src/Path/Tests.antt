-- ===== src/Path/Tests.antt =====
-- Paths in a small tree.
use nyaux.Base.{
  ℕ, ◌+◌, ◌≡◌, ◌≢◌, inl, inr, false, Option, none, some, List, [], ◌∷◌, ◌++◌, ◌==◌, if◌then◌else◌,
  arith, refl, Bool-cases, All,
}
use nyaux.Libc.{minus_one}
use nyaux.Fs.{
  Vnode, nyavnode_dir, nyavnode_symlink, tmpfs_dir, tmpfs_node, DirEntry, vnode_lookup, find_entry,
  same_name,
}
use nyaux.Fs.Lookup.{empty_dir, empty_file}
use nyaux.Path.{
  Tree, returns, walk, component, after_component, skip_separators, string_at, vnode_path_lookup,
}
use nyaux.Path.Split.{components}
use nyaux.Path.Resolve.{Resolves}
use nyaux.Path.Sound.{vnode_path_lookup_lem}
use nyaux.Path.Parent.{here, into}
use nyaux.Path.Create.{IsCreatable, Makes, vnode_path_lookup-vfs_create}

abbrev usr : List ℕ
usr = 117 ∷ 115 ∷ 114 ∷ []

-- "/usr/f", "/usr/l" and "/usr/x/"
abbrev file_path : List ℕ
file_path = 47 ∷ 117 ∷ 115 ∷ 114 ∷ 47 ∷ 102 ∷ []

abbrev link_path : List ℕ
link_path = 47 ∷ 117 ∷ 115 ∷ 114 ∷ 47 ∷ 108 ∷ []

abbrev new_path : List ℕ
new_path = 47 ∷ 117 ∷ 115 ∷ 114 ∷ 47 ∷ 120 ∷ 47 ∷ []

abbrev root_dir : Vnode
root_dir = record {
  type = nyavnode_dir;
  payload = tmpfs_dir (record { name = usr; ptr_to_vnode = 2 } ∷ []);
}

abbrev usr_dir : Vnode
usr_dir = record {
  type = nyavnode_dir;
  payload = tmpfs_dir (
      record { name = 102 ∷ []; ptr_to_vnode = 3 }
      ∷ record { name = 108 ∷ []; ptr_to_vnode = 4 }
      ∷ []);
}

-- A link to "/usr/f", whose bytes stand at 500.
abbrev link : Vnode
link = record { type = nyavnode_symlink; payload = tmpfs_node (record { data_at = 500; size = 7 }) }

abbrev byte_of : List ℕ → ℕ → ℕ → ℕ
byte_of [] at a = 0
byte_of (c ∷ cs) at a = if a == at then c else byte_of cs (at + 1) a

abbrev small : Tree
small = record {
  vnodes = λ v.
      if v == 1 then root_dir else if v == 2 then usr_dir else if v == 4 then link else empty_file;
  mem = byte_of file_path 500;
  top = 1;
}

follows_link : vnode_path_lookup 20 small 0 1 link_path false false ≡ returns (some 3) none
unfolding vnode_path_lookup walk component after_component skip_separators string_at vnode_lookup
    find_entry same_name
follows_link = refl

vnode_path_lookup_lem_example :
    (Resolves small 1 (components link_path) (some 3)
      → (n : ℕ) × ((k : ℕ)
          → vnode_path_lookup (n + k) small 0 1 link_path false false ≡ returns (some 3) none))
    × ((fuel : ℕ) (last : Option (List ℕ))
        → vnode_path_lookup fuel small 0 1 link_path false false ≡ returns (some 3) last
        → Resolves small 1 (components link_path) (some 3))
vnode_path_lookup_lem_example = vnode_path_lookup_lem small 0 1 link_path (some 3) (omega arith)

usr_found : (vnode_lookup (small.vnodes 1) usr none).1 ≡ some 2
unfolding vnode_lookup find_entry same_name
usr_found = refl

x_missing : (vnode_lookup (small.vnodes 2) (120 ∷ []) none).1 ≡ none
unfolding vnode_lookup find_entry same_name
x_missing = refl

new_names : components new_path ≡ (usr ∷ []) ++ ((120 ∷ []) ∷ [])
unfolding components
new_names = refl

-- No entry of a directory is for vnode 9.
find_entry-other :
    (es : List DirEntry) (part : List ℕ)
    → All (λ (e : DirEntry). e.ptr_to_vnode ≢ 9) es
    → find_entry es part ≢ some 9
unfolding find_entry
find_entry-other [] part others e = cc
find_entry-other (d ∷ ds) part (other, others) e = elim (Bool-cases (same_name d.name part)) [
  | inl same ↦ (let h : some d.ptr_to_vnode ≡ some 9 = rw same at e in other (cc))
  | inr differs ↦ find_entry-other ds part others (rw differs at e)
]

answered :
    (o : Option ℕ)
    → (elim o as (λ x. ℕ × Option ℕ) [ some found ↦ (0, some found) | none ↦ (minus_one, none) ]).1
      ≡ some 9
    → o ≡ some 9
answered (some v) e = e
answered none e = e

lookup_dir-other :
    (es : List DirEntry) (part : List ℕ)
    → All (λ (e : DirEntry). e.ptr_to_vnode ≢ 9) es
    → (vnode_lookup (record { type = nyavnode_dir; payload = tmpfs_dir es }) part none).1 ≢ some 9
unfolding vnode_lookup
lookup_dir-other es part others e =
    find_entry-other es part others (answered (find_entry es part) e)

unnamed : (a : ℕ) (part : List ℕ) → (vnode_lookup (small.vnodes a) part none).1 ≢ some 9
unfolding vnode_lookup
unnamed a part e = elim (Bool-cases (a == 1)) [
  | inl one ↦
      lookup_dir-other (record { name = usr; ptr_to_vnode = 2 } ∷ []) part (omega arith)
        (rw one at e)
  | inr not_one ↦ elim (Bool-cases (a == 2)) [
    | inl two ↦
        lookup_dir-other
          (record { name = 102 ∷ []; ptr_to_vnode = 3 }
            ∷ record { name = 108 ∷ []; ptr_to_vnode = 4 }
            ∷ [])
          part (omega arith) (rw (not_one, two) at e)
    | inr not_two ↦ elim (Bool-cases (a == 4)) [
      | inl four ↦
          (let h : ◌≡◌ {A = Option ℕ} none (some 9) = rw (not_one, not_two, four) at e in cc)
      | inr not_four ↦
          (let h : ◌≡◌ {A = Option ℕ} none (some 9) = rw (not_one, not_two, not_four) at e in cc)
    ]
  ]
]

new_path-IsCreatable : IsCreatable small 1 new_path 2 9
new_path-IsCreatable = record {
  dirs = usr ∷ [];
  name = 120 ∷ [];
  no_nul = omega arith;
  names = new_names;
  reaches = into usr_found refl here;
  is_dir = refl;
  is_missing = x_missing;
  is_fresh = (omega arith, unnamed);
}

vnode_path_lookup-vfs_create_example :
    Makes small 0 1 1 new_path new_path-IsCreatable.name 2 9 [] 0 empty_dir
    × Makes small 0 1 1 new_path new_path-IsCreatable.name 2 9 [] 1 empty_file
vnode_path_lookup-vfs_create_example =
    vnode_path_lookup-vfs_create small 0 1 1 47 (117 ∷ 115 ∷ 114 ∷ 47 ∷ 120 ∷ 47 ∷ []) 2 9 []
      new_path-IsCreatable
