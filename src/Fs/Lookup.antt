-- ===== src/Fs/Lookup.antt =====
-- Directories: `vnode_lookup`, `vnode_mkdir` and `vnode_create` of kernel/src/fs/tmpfs.c.
use nyaux.Base.{
  ℕ, ◌≡◌, ◌≢◌, Bool, true, false, arith, if◌then◌else◌, inl, inr, refl, ◌∙◌, ap, sym, Bool-cases,
  Option, some, none, List, [], ◌∷◌, ==_iff, ne→==,
}
use mathlib.Core.Path.{subst}
use nyaux.Libc.{minus_one}
use nyaux.Fs.{
  Vnode, Vnodes, VnodeType, if_dir, nyavnode_dir, nyavnode_file, DirEntry, tmpfs_dir, tmpfs_node,
  entries, same_name, find_entry, vnode_lookup, vnode_mkdir, vnode_create, add_vnode, put_vnode,
}

same_name_refl : (a : List ℕ) → same_name a a ≡ true
unfolding same_name
same_name_refl [] = refl
same_name_refl (x ∷ xs) = ground (arith, same_name_refl xs)

same_name_sound : (a b : List ℕ) → same_name a b ≡ true → a ≡ b
unfolding same_name
same_name_sound [] [] h = refl
same_name_sound [] (b ∷ bs) h = absurd (cc)
same_name_sound (a ∷ cs) [] h = absurd (cc)
same_name_sound (a ∷ cs) (b ∷ bs) h =
    let head : a ≡ b = ground arith in
    let tail : cs ≡ bs = same_name_sound cs bs (ground arith) in cc

different_name : (a b : List ℕ) → b ≢ a → same_name a b ≡ false
different_name a b ne = elim (Bool-cases (same_name a b)) [
  | inl same ↦ absurd (ne (sym (same_name_sound a b same)))
  | inr other ↦ other
]

-- What a search of an entry list gives for a lookup.
abbrev answer : Option ℕ → ℕ × Option ℕ
answer (some found) = (0, some found)
answer none = (minus_one, none)

answer_of :
    (o : Option ℕ)
    → (elim o as (λ x. ℕ × Option ℕ) [ some found ↦ (0, some found) | none ↦ (minus_one, none) ])
      ≡ answer o
answer_of (some x) = refl
answer_of none = refl

lookup_dir :
    (v : Vnode) (part : List ℕ) (res : Option ℕ)
    → v.type ≡ nyavnode_dir
    → vnode_lookup v part res ≡ answer (find_entry (entries v.payload) part)
unfolding vnode_lookup
lookup_dir v part res is_dir = rw is_dir (answer_of (find_entry (entries v.payload) part))

find_entry-first :
    (name part : List ℕ) (new : ℕ) (es : List DirEntry)
    → find_entry (record { name = name; ptr_to_vnode = new } ∷ es) part
      ≡ (if same_name name part then some new else find_entry es part)
unfolding find_entry
find_entry-first name part new es = refl

-- What a directory holds once `name` is added to it as the vnode `made` at `new`.
abbrev pub Holds : Vnodes → Vnodes → (v : ℕ) → List ℕ → (new : ℕ) → Vnode → Type 0
Holds vs after v name new made =
    ((res : Option ℕ) → vnode_lookup (after v) name res ≡ (0, some new))
    × ((part : List ℕ) (res : Option ℕ)
        → part ≢ name
        → vnode_lookup (after v) part res ≡ vnode_lookup (vs v) part res)
    × (after new ≡ made)
    × ((a : ℕ) → a ≢ v → a ≢ new → after a ≡ vs a)

if_true : {b : Bool} → b ≡ true → (x y : Option ℕ) → (if b then x else y) ≡ x
if_true e x y = rw e refl

if_false : {b : Bool} → b ≡ false → (x y : Option ℕ) → (if b then x else y) ≡ y
if_false e x y = rw e refl

put_same : (vs : Vnodes) (a : ℕ) (x : Vnode) → put_vnode vs a x a ≡ x
put_same vs a x = rw ((==_iff a a).1 refl) refl

put_ne : (vs : Vnodes) (a b : ℕ) (x : Vnode) → b ≢ a → put_vnode vs a x b ≡ vs b
put_ne vs a b x ne = rw (ne→== b a ne) refl

pub add_vnode_lem :
    (vs : Vnodes) (v : ℕ) (name : List ℕ) (new : ℕ) (made : Vnode)
    → (vs v).type ≡ nyavnode_dir
    → new ≢ v
    → Holds vs (add_vnode vs v name new made) v name new made
add_vnode_lem vs v name new made is_dir fresh =
    let es = entries (vs v).payload in
    let dir : Vnode = record (vs v) {
      payload = tmpfs_dir (record { name = name; ptr_to_vnode = new } ∷ es);
    } in
    let at_v : add_vnode vs v name new made v ≡ dir = put_same (put_vnode vs new made) v dir in
    (
      (λ res.
          ap (λ (d : Vnode). vnode_lookup d name res) at_v
          ∙ lookup_dir dir name res is_dir
          ∙ ap answer (
              find_entry-first name name new es
              ∙ if_true (same_name_refl name) (some new) (find_entry es name))),
      (λ part res ne.
          ap (λ (d : Vnode). vnode_lookup d part res) at_v
          ∙ lookup_dir dir part res is_dir
          ∙ ap answer (
              find_entry-first name part new es
              ∙ if_false (different_name name part ne) (some new) (find_entry es part))
          ∙ sym (lookup_dir (vs v) part res is_dir)),
      put_ne (put_vnode vs new made) v new dir fresh ∙ put_same vs new made,
      λ a ne other. put_ne (put_vnode vs new made) v a dir ne ∙ put_ne vs new a made other,
    )

abbrev pub empty_dir : Vnode
empty_dir = record { type = nyavnode_dir; payload = tmpfs_dir [] }

abbrev pub empty_file : Vnode
empty_file = record {
  type = nyavnode_file;
  payload = tmpfs_node (record { data_at = 0; size = 0 });
}

pub mkdir_dir :
    (vs : Vnodes) (v : ℕ) (name : List ℕ) (new : ℕ) (res : Option ℕ)
    → (vs v).type ≡ nyavnode_dir
    → vnode_mkdir vs v name new res ≡ (0, some new, add_vnode vs v name new empty_dir)
unfolding vnode_mkdir
mkdir_dir vs v name new res is_dir =
    ap
      (λ (t : VnodeType).
        if_dir t (0, some new, add_vnode vs v name new empty_dir) (minus_one, res, vs))
      is_dir

pub create_dir :
    (vs : Vnodes) (v : ℕ) (name : List ℕ) (new : ℕ) (res : Option ℕ)
    → (vs v).type ≡ nyavnode_dir
    → vnode_create vs v name new res ≡ (0, some new, add_vnode vs v name new empty_file)
unfolding vnode_create
create_dir vs v name new res is_dir =
    ap
      (λ (t : VnodeType).
        if_dir t (0, some new, add_vnode vs v name new empty_file) (minus_one, res, vs))
      is_dir

-- `vnode_mkdir` in a directory makes an empty directory that a lookup of the name then finds, and
-- `vnode_create` an empty file. Lookups of other names in that directory and all other vnodes are as
-- before.
pub vnode_lookup-mkdir-create :
    (vs : Vnodes) (v : ℕ) (name : List ℕ) (new : ℕ) (res : Option ℕ)
    → (vs v).type ≡ nyavnode_dir
    → new ≢ v
    → ((vnode_mkdir vs v name new res).0 ≡ 0)
      × Holds vs (vnode_mkdir vs v name new res).2 v name new empty_dir
      × ((vnode_create vs v name new res).0 ≡ 0)
      × Holds vs (vnode_create vs v name new res).2 v name new empty_file
vnode_lookup-mkdir-create vs v name new res is_dir fresh = (
  ap (λ (r : ℕ × Option ℕ × Vnodes). r.0) (mkdir_dir vs v name new res is_dir),
  subst (λ (r : ℕ × Option ℕ × Vnodes). Holds vs r.2 v name new empty_dir)
      (sym (mkdir_dir vs v name new res is_dir))
      (add_vnode_lem vs v name new empty_dir is_dir fresh),
  ap (λ (r : ℕ × Option ℕ × Vnodes). r.0) (create_dir vs v name new res is_dir),
  subst (λ (r : ℕ × Option ℕ × Vnodes). Holds vs r.2 v name new empty_file)
      (sym (create_dir vs v name new res is_dir))
      (add_vnode_lem vs v name new empty_file is_dir fresh),
)
