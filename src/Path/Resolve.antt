-- ===== src/Path/Resolve.antt =====
-- `vnode_path_lookup` of kernel/src/fs/vfs.c against the list of the names of a path.
use nyaux.Base.{
  ℕ, zero, suc, ◌+◌, ◌<◌, ◌≡◌, ◌≢◌, false, Option, none, some, List, [], ◌∷◌, drop, length, arith,
  refl, ap, ◌∙◌, ne→==,
}
use mathlib.Core.Path.{subst}
use nyaux.Machine.{Mem}
use nyaux.Fs.{nyavnode_dir, nyavnode_file, nyavnode_symlink, vnode_lookup}
use nyaux.Path.{
  Tree, returns, work_with_me, starting_vnode, after_component, string_at, link_at, walk,
}
use nyaux.Path.Split.{components, parts, NoNul, parts-work}
use nyaux.Path.Walk.{
  Front, blank, named, front, with_fuel, ends_past_front, walk_missing, walk_directory, walk_file,
  walk_symlink,
}

-- A string that ends in NUL.
abbrev pub IsCString : Mem → ℕ → List ℕ → Type 0
IsCString m s [] = m s ≡ 0
IsCString m s (c ∷ cs) = (m s ≡ c) × (c ≢ 0) × IsCString m (s + 1) cs

-- What the vnode `cur` and a list of names stand for: NULL, `none`, if a name is missing, the directory
-- at the end, or the first file on the way. A symbolic link stands for its own path, whatever follows.
pub data Resolves (t : Tree) : ℕ → List (List ℕ) → Option ℕ → Type 0 where
  at_end : {cur : ℕ} → Resolves t cur [] (some cur)
  missing :
      {cur : ℕ} {name : List ℕ} {names : List (List ℕ)}
      → (vnode_lookup (t.vnodes cur) name none).1 ≡ none
      → Resolves t cur (name ∷ names) none
  directory :
      {cur v : ℕ} {name : List ℕ} {names : List (List ℕ)} {r : Option ℕ}
      → (vnode_lookup (t.vnodes cur) name none).1 ≡ some v
      → (t.vnodes v).type ≡ nyavnode_dir
      → Resolves t v names r
      → Resolves t cur (name ∷ names) r
  file :
      {cur v : ℕ} {name : List ℕ} {names : List (List ℕ)}
      → (vnode_lookup (t.vnodes cur) name none).1 ≡ some v
      → (t.vnodes v).type ≡ nyavnode_file
      → Resolves t cur (name ∷ names) (some v)
  symlink :
      {cur v : ℕ} {name : List ℕ} {names : List (List ℕ)} {r : Option ℕ} (path : List ℕ)
      → (vnode_lookup (t.vnodes cur) name none).1 ≡ some v
      → (t.vnodes v).type ≡ nyavnode_symlink
      → IsCString t.mem (link_at (t.vnodes v).payload) path
      → Resolves t (starting_vnode t cur path) (components path) r
      → Resolves t cur (name ∷ names) r

pub IsCString-NoNul : (m : Mem) (s : ℕ) (path : List ℕ) → IsCString m s path → NoNul path
IsCString-NoNul m s [] is = tt
IsCString-NoNul m s (c ∷ cs) (at, pos, rest) = (pos, IsCString-NoNul m (s + 1) cs rest)

pub string_at_lem :
    (fuel : ℕ) (m : Mem) (s : ℕ) (path : List ℕ)
    → IsCString m s path
    → length path < fuel
    → string_at fuel m s ≡ some path
unfolding string_at
string_at_lem zero m s path is lt = absurd (omega arith)
string_at_lem (suc fuel) m s [] is lt = rw (string_at, is) refl
string_at_lem (suc fuel) m s (c ∷ cs) (at, pos, rest) lt =
    rw (string_at, at, ne→== c 0 pos, string_at_lem fuel m (s + 1) cs rest (omega arith))
      (ap (λ (x : ℕ). some (x ∷ cs)) at)

-- The walk returns `r` with this much fuel and any more.
abbrev pub Finds : Tree → (beyond cur : ℕ) → List ℕ → Option ℕ → Type 0
Finds t beyond cur w r =
    (n : ℕ) × ((k : ℕ) → walk (n + k) t beyond false false cur w ≡ returns r none)

module _ {A : Type 0} {x y : A} {xs ys zs : List A} where
  pub head_is : zs ≡ x ∷ xs → zs ≡ y ∷ ys → x ≡ y
  head_is e f = cc

  pub tail_is : zs ≡ x ∷ xs → zs ≡ y ∷ ys → ys ≡ xs
  tail_is e f = cc

pub renamed :
    (t : Tree) (cur : ℕ) (found : Option ℕ) {name name' : List ℕ}
    → name ≡ name'
    → (vnode_lookup (t.vnodes cur) name none).1 ≡ found
    → (vnode_lookup (t.vnodes cur) name' none).1 ≡ found
renamed t cur found same is =
    subst (λ (part : List ℕ). (vnode_lookup (t.vnodes cur) part none).1 ≡ found) same is

pub Resolves-Finds :
    (t : Tree) (beyond cur : ℕ) (w : List ℕ) {names : List (List ℕ)} {r : Option ℕ}
    → Front t beyond false cur w
    → parts w ≡ names
    → Resolves t cur names r
    → Finds t beyond cur w r
Resolves-Finds t beyond cur w (blank n e walks) is at_end =
    (n + 1, λ k. with_fuel t beyond false cur w {a = n + suc k} (omega arith) (walks k))
Resolves-Finds t beyond cur w (blank n e walks) is (missing gone) = absurd (cc)
Resolves-Finds t beyond cur w (blank n e walks) is (directory found is_dir more) = absurd (cc)
Resolves-Finds t beyond cur w (blank n e walks) is (file found is_file) = absurd (cc)
Resolves-Finds t beyond cur w (blank n e walks) is (symlink path found is_link link more) =
    absurd (cc)
Resolves-Finds t beyond cur w (named n c cs name_at e walks) is at_end = absurd (cc)
Resolves-Finds t beyond cur w (named n c cs name_at e walks) is (missing gone) =
    ends_past_front t beyond false cur w n 0 c cs walks
      (λ k. walk_missing t beyond (0 + k) cur c cs name_at (renamed t cur none (head_is is e) gone))
Resolves-Finds t beyond cur w (named n c cs name_at e walks) is (directory found is_dir more) =
    let rest = drop 1 (after_component (c ∷ cs)) in
    let (m, ends) =
      Resolves-Finds t beyond _ rest (front t beyond false _ rest) (tail_is is e) more in
    ends_past_front t beyond false cur w n m c cs walks (λ k.
      walk_directory t beyond (m + k) cur c cs name_at (renamed t cur _ (head_is is e) found) is_dir
      ∙ ends k)
Resolves-Finds t beyond cur w (named n c cs name_at e walks) is (file found is_file) =
    ends_past_front t beyond false cur w n 0 c cs walks (λ k.
      walk_file t beyond (0 + k) cur c cs name_at (renamed t cur _ (head_is is e) found) is_file)
Resolves-Finds t beyond cur w (named n c cs name_at e walks) is
      (symlink path found is_link link more) =
    let work = work_with_me path in
    let (m, ends) =
      Resolves-Finds t 0 _ work (front t 0 false _ work)
        (parts-work path (IsCString-NoNul t.mem _ path link)) more in
    ends_past_front t beyond false cur w n (suc (length path) + m) c cs walks (λ k.
      walk_symlink t beyond (suc (length path) + m + k) cur c cs name_at
        (renamed t cur _ (head_is is e) found) is_link
        (string_at_lem (suc (length path) + m + k) t.mem _ path link (omega arith))
      ∙ with_fuel t 0 false _ work {a = m + (suc (length path) + k)} (omega arith)
          (ends (suc (length path) + k)))
