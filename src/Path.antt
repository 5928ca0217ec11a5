-- ===== src/Path.antt =====
-- The walk over paths of kernel/src/fs/vfs.c: `vnode_path_lookup` and `vfs_create`. A path is the list of
-- its bytes before the NUL, and so is a name. The copy that the source makes of a path is the list of its
-- bytes, with a 0 for each separator.
pub mod Split
pub mod Walk
pub mod Resolve
pub mod Sound
pub mod Parent
pub mod Create
mod Tests
use nyaux.Base.{
  ℕ, zero, suc, ◌+◌, Bool, true, false, ◌&&◌, not, Option, none, some, List, [], ◌∷◌, map, ◌==◌,
  if◌then◌else◌, drop,
}
use nyaux.Machine.{Mem}
use nyaux.Libc.{minus_one}
use nyaux.Fs.{
  Vnode, Vnodes, VnodeType, nyavnode_dir, nyavnode_file, nyavnode_symlink, TmpfsNode, Payload,
  tmpfs_dir, tmpfs_node, vnode_lookup, vnode_mkdir, vnode_create,
}

-- What a walk looks at. `top` is where an absolute path starts: `root_vfs` of the current process, or
-- `root->list` if there is no process.
pub record Tree : Type 0 where
  pub vnodes : Vnodes
  pub mem : Mem
  pub top : ℕ

-- How a walk ends: the vnode that it returns, NULL as `none`, and what it stored in `componentlast`.
pub data Looked : Type 0 where
  returns : (found : Option ℕ) (componentlast : Option (List ℕ)) → Looked
  out_of_fuel : Looked

-- '/'
abbrev pub slash : ℕ
slash = 47

-- `if (work_with_me[i] == '/') work_with_me[i] = '\0';`
abbrev pub cut : ℕ → ℕ
cut c = if c == slash then 0 else c

abbrev pub work_with_me : List ℕ → List ℕ
work_with_me = map cut

-- `if (work_with_me[0] == '/')`
abbrev pub starting_vnode : Tree → ℕ → List ℕ → ℕ
starting_vnode t cur [] = cur
starting_vnode t cur (c ∷ cs) = if c == slash then t.top else cur

-- The string at the front of the copy, and the copy from the NUL behind it on.
unfoldable pub component : List ℕ → List ℕ
component [] = []
component (c ∷ cs) = let rest = component cs in if c == 0 then [] else c ∷ rest

unfoldable pub after_component : List ℕ → List ℕ
after_component [] = []
after_component (c ∷ cs) = let rest = after_component cs in if c == 0 then c ∷ cs else rest

-- The loop over `j`, from `work_with_me[j]` on. It sets `islast` in every round, and ends at the first
-- byte that is not 0. Its bound is on `i`, which it does not change, so it goes on past the NUL of the
-- copy: `beyond` is the byte there, and a byte that is not 0 is taken to follow.
unfoldable pub skip_separators : (beyond : ℕ) → List ℕ → Bool
skip_separators beyond [] = not (beyond == 0)
skip_separators beyond (c ∷ cs) =
    let rest = skip_separators beyond cs in if c == 0 then rest else false

abbrev pub islast : (beyond : ℕ) → List ℕ → Bool
islast beyond [] = true
islast beyond (c ∷ cs) = skip_separators beyond (c ∷ cs)

-- The string at an address.
unfoldable pub string_at : (fuel : ℕ) → Mem → ℕ → Option (List ℕ)
string_at zero m s = none
string_at (suc fuel) m s = elim (m s == 0) [
  | true ↦ some []
  | false ↦ elim (string_at fuel m (s + 1)) [ none ↦ none | some cs ↦ some (m s ∷ cs) ]
]

-- `((struct tmpfs_node*)res->data)->data` of a symbolic link.
abbrev pub link_at : Payload → ℕ
link_at (tmpfs_node file) = file.data_at
link_at (tmpfs_dir es) = 0

-- The loop over `i`, from `work_with_me[i]` on in the directory `cur`. `wants` tells whether
-- `componentlast` is not NULL. A link to itself is followed for ever.
unfoldable pub walk :
    (fuel : ℕ) → Tree → (beyond : ℕ) → (getparent wants : Bool) → (cur : ℕ) → List ℕ → Looked
walk zero t beyond getparent wants cur cs = out_of_fuel
walk (suc fuel) t beyond getparent wants cur [] = returns (some cur) none
walk (suc fuel) t beyond getparent wants cur (c ∷ cs) = elim (c == 0) [
  | true ↦ walk fuel t beyond getparent wants cur cs
  | false ↦ elim (islast beyond (after_component (c ∷ cs)) && getparent) [
    | true ↦ returns (some cur) (some (component (c ∷ cs)))
    | false ↦ elim (vnode_lookup (t.vnodes cur) (component (c ∷ cs)) none).1 [
      | none ↦
          returns (if getparent then some cur else none)
            (if wants then some (component (c ∷ cs)) else none)
      | some res ↦ elim (t.vnodes res).type [
        | nyavnode_dir ↦ walk fuel t beyond getparent wants res (drop 1 (after_component (c ∷ cs)))
        | nyavnode_file ↦ returns (some res) none
        | nyavnode_symlink ↦ elim (string_at fuel t.mem (link_at (t.vnodes res).payload)) [
          | none ↦ out_of_fuel
          | some path ↦ walk fuel t 0 false false (starting_vnode t cur path) (work_with_me path)
        ]
      ]
    ]
  ]
]

unfoldable pub vnode_path_lookup :
    (fuel : ℕ) → Tree → (beyond : ℕ) → (cur : ℕ) → List ℕ → (getparent wants : Bool) → Looked
vnode_path_lookup fuel t beyond cur path getparent wants =
    walk fuel t beyond getparent wants (starting_vnode t cur path) (work_with_me path)

-- What `vfs_create` does: the status, `*res` if it stores one, and the vnodes.
pub data Created : Type 0 where
  created : (status : ℕ) (res : Option (Option ℕ)) (vnodes : Vnodes) → Created
  no_return : Created

abbrev pub finish_create : Vnodes → ℕ × Option ℕ × Vnodes → Created
finish_create vs (status, made, vs') = created 0 (some made) vs'

-- `component` begins as what `kmalloc` returned; `old` is the string there, which stays if the walk stores
-- nothing. A new vnode stands at `new`.
abbrev pub name_or : List ℕ → Option (List ℕ) → List ℕ
name_or old none = old
name_or old (some name) = name

abbrev pub create_in : Vnodes → (type new : ℕ) → (old : List ℕ) → Looked → Created
create_in vs type new old out_of_fuel = no_return
create_in vs type new old (returns none last) = created minus_one none vs
create_in vs type new old (returns (some par) last) =
    if type == 0
    then finish_create vs (vnode_mkdir vs par (name_or old last) new none)
    else if type == 1
    then finish_create vs (vnode_create vs par (name_or old last) new none)
    else created minus_one none vs

unfoldable pub vfs_create :
    (fuel : ℕ)
    → Tree
    → (beyond : ℕ) → (indir : ℕ) → List ℕ
    → (type new : ℕ) → (old : List ℕ) → Created
vfs_create fuel t beyond indir [] type new old = created minus_one none t.vnodes
vfs_create fuel t beyond indir (c ∷ cs) type new old =
    create_in t.vnodes type new old (vnode_path_lookup fuel t beyond indir (c ∷ cs) true true)
