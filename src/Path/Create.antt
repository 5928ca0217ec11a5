-- ===== src/Path/Create.antt =====
-- `vfs_create` of kernel/src/fs/vfs.c: what it makes is found under the path.
use nyaux.Base.{
  ℕ, ◌+◌, ◌≡◌, ◌≢◌, inl, inr, true, false, Option, none, some, List, [], ◌∷◌, ◌++◌, ◌==◌, refl, ap,
  sym, ◌∙◌, Bool-cases, ==→ne, ne→==, ==_iff,
}
use mathlib.Core.Path.{subst}
use nyaux.Fs.{Vnode, nyavnode_dir, nyavnode_file, vnode_lookup, add_vnode}
use nyaux.Fs.Lookup.{Holds, empty_dir, empty_file, add_vnode_lem, mkdir_dir, create_dir}
use nyaux.Path.{
  Tree, returns, work_with_me, starting_vnode, vnode_path_lookup, created, create_in, finish_create,
  vfs_create,
}
use nyaux.Path.Split.{components, NoNul, parts-work}
use nyaux.Path.Walk.{front}
use nyaux.Path.Resolve.{Resolves, at_end, directory, file, Resolves-Finds, renamed}
use nyaux.Path.Parent.{Reaches, here, into, Reaches-parent}

-- No entry of a directory names the vnode, and it is not `start`.
abbrev pub IsFresh : Tree → (start new : ℕ) → Type 0
IsFresh t start new =
    (start ≢ new) × ((a : ℕ) (part : List ℕ) → (vnode_lookup (t.vnodes a) part none).1 ≢ some new)

-- The path is made of names of directories and of a name that the last of them, `par`, does not have.
pub record IsCreatable (t : Tree) (start : ℕ) (path : List ℕ) (par new : ℕ) : Type 0 where
  pub dirs : List (List ℕ)
  pub name : List ℕ
  pub no_nul : NoNul path
  pub names : components path ≡ dirs ++ (name ∷ [])
  pub reaches : Reaches t start dirs par
  pub is_dir : (t.vnodes par).type ≡ nyavnode_dir
  pub is_missing : (vnode_lookup (t.vnodes par) name none).1 ≡ none
  pub is_fresh : IsFresh t start new

not_both : {v : ℕ} {o : Option ℕ} → o ≡ none → o ≡ some v → ⊥
not_both e f = cc

module _ (t : Tree) (par : ℕ) (name : List ℕ) (new : ℕ) (made : Vnode)
    (is_dir : (t.vnodes par).type ≡ nyavnode_dir)
    (gone : (vnode_lookup (t.vnodes par) name none).1 ≡ none) (other : new ≢ par)
    (unnamed : (a : ℕ) (part : List ℕ) → (vnode_lookup (t.vnodes a) part none).1 ≢ some new) where
  abbrev after : Tree
  after = record t { vnodes = add_vnode t.vnodes par name new made }

  holds : Holds t.vnodes after.vnodes par name new made
  holds = add_vnode_lem t.vnodes par name new made is_dir other

  -- What a lookup found before, it finds after.
  still_found :
      (a v : ℕ) (part : List ℕ)
      → a ≢ new
      → (vnode_lookup (t.vnodes a) part none).1 ≡ some v
      → (vnode_lookup (after.vnodes a) part none).1 ≡ some v
  still_found a v part ne found = elim (Bool-cases (a == par)) [
    | inl same ↦
        (let at_par : a ≡ par = (==_iff a par).0 same in
          let found_par : (vnode_lookup (t.vnodes par) part none).1 ≡ some v =
            subst (λ (x : ℕ). (vnode_lookup (t.vnodes x) part none).1 ≡ some v) at_par found in
          subst (λ (x : ℕ). (vnode_lookup (after.vnodes x) part none).1 ≡ some v) (sym at_par)
            (ap (λ (r : ℕ × Option ℕ). r.1)
                (holds.1 part none (λ e. not_both gone (renamed t par (some v) e found_par)))
              ∙ found_par))
    | inr away ↦
        ap (λ (x : Vnode). (vnode_lookup x part none).1) (holds.3 a (==→ne a par away) ne) ∙ found
  ]

  still_dir :
      (a : ℕ) → a ≢ new → (t.vnodes a).type ≡ nyavnode_dir → (after.vnodes a).type ≡ nyavnode_dir
  still_dir a ne is = elim (Bool-cases (a == par)) [
    | inl same ↦ rw same is_dir
    | inr away ↦ rw (away, ne→== a new ne) is
  ]

  Reaches-Resolves :
      {cur : ℕ} {dirs : List (List ℕ)}
      → Resolves after par (name ∷ []) (some new)
      → Reaches t cur dirs par
      → cur ≢ new
      → Resolves after cur (dirs ++ (name ∷ [])) (some new)
  Reaches-Resolves last here ne = last
  Reaches-Resolves {cur} last (into {v = v} {name = part} found v_dir more) ne =
      let v_ne : v ≢ new = λ e. unnamed cur part (found ∙ ap some e) in
      directory (still_found cur v part ne found) (still_dir v v_ne v_dir)
        (Reaches-Resolves last more v_ne)

  new_found : (vnode_lookup (after.vnodes par) name none).1 ≡ some new
  new_found = ap (λ (r : ℕ × Option ℕ). r.1) (holds.0 none)

  new_dir : made.type ≡ nyavnode_dir → Resolves after par (name ∷ []) (some new)
  new_dir is = directory new_found (ap (λ (x : Vnode). x.type) holds.2 ∙ is) at_end

  pub new_file : made.type ≡ nyavnode_file → Resolves after par (name ∷ []) (some new)
  new_file is = file new_found (ap (λ (x : Vnode). x.type) holds.2 ∙ is)

Reaches-fresh :
    (t : Tree) (new : ℕ) {cur par : ℕ} {dirs : List (List ℕ)}
    → ((a : ℕ) (part : List ℕ) → (vnode_lookup (t.vnodes a) part none).1 ≢ some new)
    → Reaches t cur dirs par
    → cur ≢ new
    → new ≢ par
Reaches-fresh t new unnamed here ne = λ e. ne (sym e)
Reaches-fresh t new {cur} unnamed (into {name = part} found v_dir more) ne =
    Reaches-fresh t new unnamed more (λ e. unnamed cur part (found ∙ ap some e))

-- The tree with the vnode `made` at `new` as `name` in `par`.
abbrev pub after_create : Tree → (par : ℕ) → (name : List ℕ) → (new : ℕ) → Vnode → Tree
after_create t par name new made = record t { vnodes = add_vnode t.vnodes par name new made }

-- With every fuel from some on, `vfs_create` returns 0 and stores `new`, which is then found under the
-- path.
abbrev pub Makes :
    Tree
    → (beyond beyond' indir : ℕ) → (path name : List ℕ) → (par new : ℕ) → (old : List ℕ)
    → (type : ℕ) → Vnode
    → Type 0
Makes t beyond beyond' indir path name par new old type made =
    (n : ℕ) × ((k : ℕ)
      → vfs_create (n + k) t beyond indir path type new old
        ≡ created 0 (some (some new)) (after_create t par name new made).vnodes)
    × (m : ℕ) × ((k : ℕ)
        → vnode_path_lookup (m + k) (after_create t par name new made) beyond' indir path false
            false
          ≡ returns (some new) none)

module _ (t : Tree) (beyond indir c : ℕ) (cs : List ℕ) (par new : ℕ) (old : List ℕ)
    (can : IsCreatable t (starting_vnode t indir (c ∷ cs)) (c ∷ cs) par new) where
  abbrev start : ℕ
  start = starting_vnode t indir (c ∷ cs)

  abbrev work : List ℕ
  work = work_with_me (c ∷ cs)

  pub parent_found :
      (n : ℕ) × ((k : ℕ)
        → vnode_path_lookup (n + k) t beyond indir (c ∷ cs) true true
          ≡ returns (some par) (some can.name))
  unfolding vnode_path_lookup
  parent_found =
      Reaches-parent t beyond start work can.name (front t beyond true start work)
        (parts-work (c ∷ cs) can.no_nul ∙ can.names) can.reaches can.is_missing

  creates_dir :
      (fuel : ℕ)
      → vnode_path_lookup fuel t beyond indir (c ∷ cs) true true
        ≡ returns (some par) (some can.name)
      → vfs_create fuel t beyond indir (c ∷ cs) 0 new old
        ≡ created 0 (some (some new)) (after_create t par can.name new empty_dir).vnodes
  unfolding vfs_create
  creates_dir fuel e =
      ap (create_in t.vnodes 0 new old) e
      ∙ ap (finish_create t.vnodes) (mkdir_dir t.vnodes par can.name new none can.is_dir)

  pub creates_file :
      (fuel : ℕ)
      → vnode_path_lookup fuel t beyond indir (c ∷ cs) true true
        ≡ returns (some par) (some can.name)
      → vfs_create fuel t beyond indir (c ∷ cs) 1 new old
        ≡ created 0 (some (some new)) (after_create t par can.name new empty_file).vnodes
  unfolding vfs_create
  creates_file fuel e =
      ap (create_in t.vnodes 1 new old) e
      ∙ ap (finish_create t.vnodes) (create_dir t.vnodes par can.name new none can.is_dir)

  pub fresh_par : new ≢ par
  fresh_par = Reaches-fresh t new can.is_fresh.1 can.reaches can.is_fresh.0

  pub found_after :
      (made : Vnode) (beyond' : ℕ)
      → Resolves (after_create t par can.name new made) par (can.name ∷ []) (some new)
      → (m : ℕ) × ((k : ℕ)
          → vnode_path_lookup
              (m + k)
              (after_create t par can.name new made)
              beyond'
              indir
              (c ∷ cs)
              false
              false
            ≡ returns (some new) none)
  unfolding vnode_path_lookup
  found_after made beyond' last =
      Resolves-Finds (after_create t par can.name new made) beyond' start work
        (front (after_create t par can.name new made) beyond' false start work)
        (parts-work (c ∷ cs) can.no_nul ∙ can.names)
        (Reaches-Resolves t par can.name new made can.is_dir can.is_missing fresh_par can.is_fresh.1
          last can.reaches can.is_fresh.0)

-- `vfs_create` of a path whose last name is missing in the directory that the other names lead to makes
-- an empty directory or an empty file of that name there, and a lookup of the path then finds it. This
-- holds for a path with a trailing separator too, whatever the byte behind the copy of the path.
pub vnode_path_lookup-vfs_create :
    (t : Tree) (beyond beyond' indir c : ℕ) (cs : List ℕ) (par new : ℕ) (old : List ℕ)
    → (can : IsCreatable t (starting_vnode t indir (c ∷ cs)) (c ∷ cs) par new)
    → Makes t beyond beyond' indir (c ∷ cs) can.name par new old 0 empty_dir
      × Makes t beyond beyond' indir (c ∷ cs) can.name par new old 1 empty_file
vnode_path_lookup-vfs_create t beyond beyond' indir c cs par new old can =
    let (n, parent) = parent_found t beyond indir c cs par new old can in
    let fresh = fresh_par t beyond indir c cs par new old can in
    let found_dir =
      found_after t beyond indir c cs par new old can empty_dir beyond' (
        new_dir t par can.name new empty_dir can.is_dir can.is_missing fresh can.is_fresh.1 refl) in
    let found_file = found_after t beyond indir c cs par new old can empty_file beyond' (
      new_file t par can.name new empty_file can.is_dir can.is_missing fresh can.is_fresh.1 refl) in
    (
      (
        n,
        λ k. creates_dir t beyond indir c cs par new old can (n + k) (parent k),
        found_dir.0,
        found_dir.1,
      ),
      (
        n,
        λ k. creates_file t beyond indir c cs par new old can (n + k) (parent k),
        found_file.0,
        found_file.1,
      ),
    )
