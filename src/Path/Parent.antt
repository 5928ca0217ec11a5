-- ===== src/Path/Parent.antt =====
-- The parent that `vnode_path_lookup` of kernel/src/fs/vfs.c finds for a name that is missing.
use nyaux.Base.{
  ℕ, suc, ◌+◌, ◌≡◌, inl, inr, true, false, none, some, List, [], ◌∷◌, ◌++◌, ◌==◌, drop, refl, ap,
  sym, ◌∙◌, Bool-cases,
}
use nyaux.Fs.{nyavnode_dir, vnode_lookup}
use nyaux.Path.{Tree, returns, component, after_component, skip_separators, islast, walk}
use nyaux.Path.Split.{parts, parts_nil, parts_sep}
use nyaux.Path.Walk.{Front, blank, named, front, ends_past_front}
use nyaux.Path.Resolve.{head_is, tail_is, renamed}

-- The names lead from a vnode through directories to another.
pub data Reaches (t : Tree) : ℕ → List (List ℕ) → ℕ → Type 0 where
  here : {cur : ℕ} → Reaches t cur [] cur
  into :
      {cur v par : ℕ} {name : List ℕ} {names : List (List ℕ)}
      → (vnode_lookup (t.vnodes cur) name none).1 ≡ some v
      → (t.vnodes v).type ≡ nyavnode_dir
      → Reaches t v names par
      → Reaches t cur (name ∷ names) par

no_name : {A : Type 0} {x : A} {xs ys : List A} → ys ≡ [] → ys ≡ x ∷ xs → ⊥
no_name e f = cc

skip-more :
    (beyond : ℕ) (w : List ℕ) {name : List ℕ} {names : List (List ℕ)}
    → parts w ≡ name ∷ names
    → skip_separators beyond w ≡ false
unfolding skip_separators
skip-more beyond [] is = absurd (no_name parts_nil is)
skip-more beyond (c ∷ cs) is = elim (Bool-cases (c == 0)) [
  | inl sep ↦ rw sep (skip-more beyond cs (sym (parts_sep c cs sep) ∙ is))
  | inr name_at ↦ rw name_at refl
]

-- A component with more behind it is not the last.
islast-more :
    (beyond : ℕ) (w : List ℕ) {name : List ℕ} {names : List (List ℕ)}
    → parts (drop 1 w) ≡ name ∷ names
    → islast beyond w ≡ false
unfolding skip_separators
islast-more beyond [] is = absurd (no_name parts_nil is)
islast-more beyond (c ∷ cs) is = elim (Bool-cases (c == 0)) [
  | inl sep ↦ rw sep (skip-more beyond cs is)
  | inr name_at ↦ rw name_at refl
]

-- The rounds at a name, for a walk that asks for the parent.
module _ (t : Tree) (beyond fuel cur c : ℕ) (cs : List ℕ) (name_at : (c == 0) ≡ false) where
  parent_directory :
      {v : ℕ}
      → islast beyond (after_component (c ∷ cs)) ≡ false
      → (vnode_lookup (t.vnodes cur) (component (c ∷ cs)) none).1 ≡ some v
      → (t.vnodes v).type ≡ nyavnode_dir
      → walk (suc fuel) t beyond true true cur (c ∷ cs)
        ≡ walk fuel t beyond true true v (drop 1 (after_component (c ∷ cs)))
  unfolding walk
  parent_directory more e is = rw (walk, name_at, more, e, is) refl

  -- Whether the component is known to be the last or not.
  parent_last :
      (vnode_lookup (t.vnodes cur) (component (c ∷ cs)) none).1 ≡ none
      → walk (suc fuel) t beyond true true cur (c ∷ cs)
        ≡ returns (some cur) (some (component (c ∷ cs)))
  unfolding walk
  parent_last gone = elim (Bool-cases (islast beyond (after_component (c ∷ cs)))) [
    | inl last ↦ rw (walk, name_at, last) refl
    | inr more ↦ rw (walk, name_at, more, gone) refl
  ]

more_names :
    (beyond : ℕ) (w : List ℕ) (names : List (List ℕ)) (name : List ℕ)
    → parts (drop 1 w) ≡ names ++ (name ∷ [])
    → islast beyond w ≡ false
more_names beyond w [] name is = islast-more beyond w is
more_names beyond w (n ∷ names) name is = islast-more beyond w is

-- A walk that asks for the parent of a missing name gets it, with the name.
pub Reaches-parent :
    (t : Tree) (beyond cur : ℕ) (w : List ℕ) {dirs : List (List ℕ)} (name : List ℕ) {par : ℕ}
    → Front t beyond true cur w
    → parts w ≡ dirs ++ (name ∷ [])
    → Reaches t cur dirs par
    → (vnode_lookup (t.vnodes par) name none).1 ≡ none
    → (n : ℕ) × ((k : ℕ) → walk (n + k) t beyond true true cur w ≡ returns (some par) (some name))
Reaches-parent t beyond cur w name (blank n e walks) is here gone = absurd (no_name e is)
Reaches-parent t beyond cur w name (blank n e walks) is (into found is_dir more) gone =
    absurd (no_name e is)
Reaches-parent t beyond cur w name (named n c cs name_at e walks) is here gone =
    ends_past_front t beyond true cur w n 0 c cs walks (λ k.
      parent_last t beyond (0 + k) cur c cs name_at (renamed t cur none (head_is is e) gone)
      ∙ ap (λ (part : List ℕ). returns (some cur) (some part)) (sym (head_is is e)))
Reaches-parent t beyond cur w name (named n c cs name_at e walks) is
      (into {names = names} found is_dir reaches) gone =
    let rest = drop 1 (after_component (c ∷ cs)) in
    let (m, ends) =
      Reaches-parent t beyond _ rest name (front t beyond true _ rest) (tail_is is e) reaches
        gone in
    ends_past_front t beyond true cur w n m c cs walks (λ k.
      parent_directory t beyond (m + k) cur c cs name_at
        (more_names beyond (after_component (c ∷ cs)) names name (tail_is is e))
        (renamed t cur _ (head_is is e) found) is_dir
      ∙ ends k)
