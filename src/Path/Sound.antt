-- ===== src/Path/Sound.antt =====
-- What `vnode_path_lookup` of kernel/src/fs/vfs.c finds when it does not ask for the parent.
use nyaux.Base.{
  ℕ, zero, suc, ◌+◌, ◌≡◌, ◌⊎◌, inl, inr, false, Option, none, some, List, [], ◌∷◌, ◌==◌, drop, refl,
  sym, ◌∙◌, Bool-cases, ==→ne, ==_iff,
}
use mathlib.Core.Path.{subst}
use nyaux.Machine.{Mem}
use nyaux.Fs.{VnodeType, nyavnode_dir, nyavnode_file, nyavnode_symlink, vnode_lookup}
use nyaux.Path.{
  Tree, Looked, returns, out_of_fuel, work_with_me, starting_vnode, component, after_component,
  string_at, link_at, walk, vnode_path_lookup,
}
use nyaux.Path.Split.{components, parts, NoNul, parts-work, parts_nil, parts_sep, parts_name}
use nyaux.Path.Resolve.{
  IsCString, Resolves, at_end, missing, directory, file, symlink, IsCString-NoNul, Resolves-Finds,
}
use nyaux.Path.Walk.{
  walk_missing, walk_directory, walk_file, walk_symlink, walk_link_lost, walk_end, walk_sep, front,
}

Option-cases : {A : Type 0} (o : Option A) → (o ≡ none) ⊎ ((a : A) × (o ≡ some a))
Option-cases none = inl refl
Option-cases (some a) = inr (a, refl)

data TypeCases (type : VnodeType) : Type 0 where
  is_dir : type ≡ nyavnode_dir → TypeCases type
  is_file : type ≡ nyavnode_file → TypeCases type
  is_symlink : type ≡ nyavnode_symlink → TypeCases type

type_cases : (type : VnodeType) → TypeCases type
type_cases nyavnode_dir = is_dir refl
type_cases nyavnode_file = is_file refl
type_cases nyavnode_symlink = is_symlink refl

some_is : {A : Type 0} {x y : A} {o : Option A} → o ≡ some x → o ≡ some y → x ≡ y
some_is e f = cc

none_is : {A : Type 0} {y : A} {o : Option A} → o ≡ none → o ≡ some y → ⊥
none_is e f = cc

string_at-IsCString :
    (fuel : ℕ) (m : Mem) (s : ℕ) (path : List ℕ)
    → string_at fuel m s ≡ some path
    → IsCString m s path
unfolding string_at
string_at-IsCString zero m s path e = absurd (cc)
string_at-IsCString (suc fuel) m s path e = elim (Bool-cases (m s == 0)) [
  | inl stop ↦
      subst (IsCString m s) (some_is {x = []} (rw (string_at, stop) refl) e)
        ((==_iff (m s) 0).0 stop)
  | inr more ↦ elim (Option-cases (string_at fuel m (s + 1))) [
    | inl lost ↦ absurd (none_is (rw (string_at, more, lost) refl) e)
    | inr (cs, rest) ↦
        subst (IsCString m s) (some_is {x = m s ∷ cs} (rw (string_at, more, rest) refl) e)
          (refl, ==→ne (m s) 0 more, string_at-IsCString fuel m (s + 1) cs rest)
  ]
]

walk_zero :
    (t : Tree) (beyond cur : ℕ) (w : List ℕ) → walk 0 t beyond false false cur w ≡ out_of_fuel
unfolding walk
walk_zero t beyond cur w = refl

ended :
    {l : Looked} {r r' : Option ℕ} {last last' : Option (List ℕ)}
    → l ≡ returns r last
    → l ≡ returns r' last'
    → r ≡ r'
ended e f = cc

still_on :
    {l : Looked} {r : Option ℕ} {last : Option (List ℕ)} → l ≡ out_of_fuel → l ≡ returns r last → ⊥
still_on e f = cc

-- A round at a name, given that the rounds after it are right.
module _ (fuel : ℕ) (t : Tree)
    (ih : (beyond cur : ℕ) (w : List ℕ) (r : Option ℕ) (last : Option (List ℕ))
      → walk fuel t beyond false false cur w ≡ returns r last
      → Resolves t cur (parts w) r)
    (beyond cur c : ℕ) (cs : List ℕ) (r : Option ℕ) (last : Option (List ℕ))
    (name_at : (c == 0) ≡ false)
    (e : walk (suc fuel) t beyond false false cur (c ∷ cs) ≡ returns r last) where
  follow-Resolves :
      (v : ℕ)
      → (vnode_lookup (t.vnodes cur) (component (c ∷ cs)) none).1 ≡ some v
      → (t.vnodes v).type ≡ nyavnode_symlink
      → (o : Option (List ℕ)) → string_at fuel t.mem (link_at (t.vnodes v).payload) ≡ o
      → Resolves t cur (component (c ∷ cs) ∷ parts (drop 1 (after_component (c ∷ cs)))) r
  follow-Resolves v found is none lost =
      absurd (still_on (walk_link_lost t beyond fuel cur c cs name_at found is lost) e)
  follow-Resolves v found is (some path) target =
      let link = string_at-IsCString fuel t.mem (link_at (t.vnodes v).payload) path target in
      symlink path found is link (
        subst (λ (names : List (List ℕ)). Resolves t (starting_vnode t cur path) names r)
          (parts-work path (IsCString-NoNul t.mem _ path link))
          (ih 0 (starting_vnode t cur path) (work_with_me path) r last
            (sym (walk_symlink t beyond fuel cur c cs name_at found is target) ∙ e)))

  found-Resolves :
      (v : ℕ)
      → (vnode_lookup (t.vnodes cur) (component (c ∷ cs)) none).1 ≡ some v
      → TypeCases (t.vnodes v).type
      → Resolves t cur (component (c ∷ cs) ∷ parts (drop 1 (after_component (c ∷ cs)))) r
  found-Resolves v found (is_dir is) = directory found is (
      ih beyond v (drop 1 (after_component (c ∷ cs))) r last
        (sym (walk_directory t beyond fuel cur c cs name_at found is) ∙ e))
  found-Resolves v found (is_file is) =
      subst (Resolves t cur _) (ended (walk_file t beyond fuel cur c cs name_at found is) e)
        (file found is)
  found-Resolves v found (is_symlink is) = follow-Resolves v found is _ refl

  name-Resolves : Resolves t cur (component (c ∷ cs) ∷ parts (drop 1 (after_component (c ∷ cs)))) r
  name-Resolves = elim (Option-cases (vnode_lookup (t.vnodes cur) (component (c ∷ cs)) none).1) [
    | inl gone ↦
        subst (Resolves t cur _) (ended (walk_missing t beyond fuel cur c cs name_at gone) e)
          (missing gone)
    | inr (v, found) ↦ found-Resolves v found (type_cases (t.vnodes v).type)
  ]

-- The walk has found what the names stand for.
walk-Resolves :
    (fuel : ℕ) (t : Tree) (beyond cur : ℕ) (w : List ℕ) (r : Option ℕ) (last : Option (List ℕ))
    → walk fuel t beyond false false cur w ≡ returns r last
    → Resolves t cur (parts w) r
walk-Resolves zero t beyond cur w r last e = absurd (still_on (walk_zero t beyond cur w) e)
walk-Resolves (suc fuel) t beyond cur [] r last e =
    subst (Resolves t cur (parts [])) (ended (walk_end fuel t beyond false cur) e)
      (subst (λ (names : List (List ℕ)). Resolves t cur names (some cur)) (sym parts_nil) at_end)
walk-Resolves (suc fuel) t beyond cur (c ∷ cs) r last e = elim (Bool-cases (c == 0)) [
  | inl sep ↦
      subst (λ (names : List (List ℕ)). Resolves t cur names r) (sym (parts_sep c cs sep))
        (walk-Resolves fuel t beyond cur cs r last
          (sym (walk_sep fuel t beyond false cur c cs sep) ∙ e))
  | inr name_at ↦
      subst (λ (names : List (List ℕ)). Resolves t cur names r) (sym (parts_name c cs name_at))
        (name-Resolves fuel t (walk-Resolves fuel t) beyond cur c cs r last name_at e)
]

-- A lookup that does not ask for the parent stands for the list of the names of the path: a NULL or a
-- vnode is returned exactly if the names resolve to it, from the current directory or the top. It is
-- then returned with every fuel from some on. The path has no NUL.
pub vnode_path_lookup_lem :
    (t : Tree) (beyond cur : ℕ) (path : List ℕ) (r : Option ℕ)
    → NoNul path
    → (Resolves t (starting_vnode t cur path) (components path) r
        → (n : ℕ) × ((k : ℕ)
            → vnode_path_lookup (n + k) t beyond cur path false false ≡ returns r none))
      × ((fuel : ℕ) (last : Option (List ℕ))
          → vnode_path_lookup fuel t beyond cur path false false ≡ returns r last
          → Resolves t (starting_vnode t cur path) (components path) r)
unfolding vnode_path_lookup
vnode_path_lookup_lem t beyond cur path r is =
    let work = work_with_me path in
    let start = starting_vnode t cur path in
    (
      λ resolves.
          Resolves-Finds t beyond start work (front t beyond false start work) (parts-work path is)
            resolves,
      λ fuel last e.
          subst (λ (names : List (List ℕ)). Resolves t start names r) (parts-work path is)
            (walk-Resolves fuel t beyond start work r last e),
    )
