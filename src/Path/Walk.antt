-- ===== src/Path/Walk.antt =====
-- The rounds of the loop of `vnode_path_lookup` in kernel/src/fs/vfs.c.
use nyaux.Base.{
  ℕ, suc, ◌+◌, ◌≡◌, inl, inr, Bool, true, false, ◌&&◌, none, some, List, [], ◌∷◌, ◌==◌, drop, arith,
  refl, ◌∙◌, Bool-cases,
}
use mathlib.Core.Path.{subst}
use nyaux.Fs.{nyavnode_dir, nyavnode_file, nyavnode_symlink, vnode_lookup}
use nyaux.Path.{
  Tree, Looked, returns, out_of_fuel, work_with_me, starting_vnode, component, after_component,
  islast, string_at, link_at, walk,
}
use nyaux.Path.Split.{parts, parts_nil, parts_sep, parts_name}

pub and_false : (b : Bool) → (b && false) ≡ false
and_false true = refl
and_false false = refl

-- The rounds of the loop at a name, for a walk that does not ask for the parent.
module _ (t : Tree) (beyond fuel cur c : ℕ) (cs : List ℕ) (name_at : (c == 0) ≡ false) where
  pub walk_missing :
      (vnode_lookup (t.vnodes cur) (component (c ∷ cs)) none).1 ≡ none
      → walk (suc fuel) t beyond false false cur (c ∷ cs) ≡ returns none none
  unfolding walk
  walk_missing e = rw (walk, name_at, and_false (islast beyond (after_component (c ∷ cs))), e) refl

  module _ {v : ℕ} (e : (vnode_lookup (t.vnodes cur) (component (c ∷ cs)) none).1 ≡ some v) where
    pub walk_directory :
        (t.vnodes v).type ≡ nyavnode_dir
        → walk (suc fuel) t beyond false false cur (c ∷ cs)
          ≡ walk fuel t beyond false false v (drop 1 (after_component (c ∷ cs)))
    unfolding walk
    walk_directory is =
        rw (walk, name_at, and_false (islast beyond (after_component (c ∷ cs))), e, is) refl

    pub walk_file :
        (t.vnodes v).type ≡ nyavnode_file
        → walk (suc fuel) t beyond false false cur (c ∷ cs) ≡ returns (some v) none
    unfolding walk
    walk_file is =
        rw (walk, name_at, and_false (islast beyond (after_component (c ∷ cs))), e, is) refl

    pub walk_symlink :
        {path : List ℕ}
        → (t.vnodes v).type ≡ nyavnode_symlink
        → string_at fuel t.mem (link_at (t.vnodes v).payload) ≡ some path
        → walk (suc fuel) t beyond false false cur (c ∷ cs)
          ≡ walk fuel t 0 false false (starting_vnode t cur path) (work_with_me path)
    unfolding walk
    walk_symlink is link =
        rw (walk, name_at, and_false (islast beyond (after_component (c ∷ cs))), e, is, link) refl

    pub walk_link_lost :
        (t.vnodes v).type ≡ nyavnode_symlink
        → string_at fuel t.mem (link_at (t.vnodes v).payload) ≡ none
        → walk (suc fuel) t beyond false false cur (c ∷ cs) ≡ out_of_fuel
    unfolding walk
    walk_link_lost is lost =
        rw (walk, name_at, and_false (islast beyond (after_component (c ∷ cs))), e, is, lost) refl

pub walk_end :
    (fuel : ℕ) (t : Tree) (beyond : ℕ) (g : Bool) (cur : ℕ)
    → walk (suc fuel) t beyond g g cur [] ≡ returns (some cur) none
unfolding walk
walk_end fuel t beyond g cur = refl

pub walk_sep :
    (fuel : ℕ) (t : Tree) (beyond : ℕ) (g : Bool) (cur c : ℕ) (cs : List ℕ)
    → (c == 0) ≡ true
    → walk (suc fuel) t beyond g g cur (c ∷ cs) ≡ walk fuel t beyond g g cur cs
unfolding walk
walk_sep fuel t beyond g cur c cs sep = rw (walk, sep) refl

pub with_fuel :
    (t : Tree) (beyond : ℕ) (g : Bool) (cur : ℕ) (w : List ℕ) {end : Looked} {a b : ℕ}
    → a ≡ b
    → walk a t beyond g g cur w ≡ end
    → walk b t beyond g g cur w ≡ end
with_fuel t beyond g cur w {end = end} e walks =
    subst (λ (n : ℕ). walk n t beyond g g cur w ≡ end) e walks

-- What is left after the separators at the front: nothing, or a name.
pub data Front (t : Tree) (beyond : ℕ) (g : Bool) (cur : ℕ) (w : List ℕ) : Type 0 where
  blank :
      (n : ℕ)
      → parts w ≡ []
      → ((k : ℕ) → walk (n + suc k) t beyond g g cur w ≡ returns (some cur) none)
      → Front t beyond g cur w
  named :
      (n c : ℕ) (cs : List ℕ)
      → (c == 0) ≡ false
      → parts w ≡ component (c ∷ cs) ∷ parts (drop 1 (after_component (c ∷ cs)))
      → ((k : ℕ) → walk (n + k) t beyond g g cur w ≡ walk k t beyond g g cur (c ∷ cs))
      → Front t beyond g cur w

Front-sep :
    (t : Tree) (beyond : ℕ) (g : Bool) (cur c : ℕ) (cs : List ℕ)
    → (c == 0) ≡ true
    → Front t beyond g cur cs
    → Front t beyond g cur (c ∷ cs)
Front-sep t beyond g cur c cs sep (blank n e walks) = blank (suc n) (parts_sep c cs sep ∙ e) (λ k.
    with_fuel t beyond g cur (c ∷ cs) (omega arith)
      (walk_sep (n + suc k) t beyond g cur c cs sep ∙ walks k))
Front-sep t beyond g cur c cs sep (named n c' cs' name_at e walks) =
    named (suc n) c' cs' name_at (parts_sep c cs sep ∙ e) (λ k.
      with_fuel t beyond g cur (c ∷ cs) (omega arith)
        (walk_sep (n + k) t beyond g cur c cs sep ∙ walks k))

pub front : (t : Tree) (beyond : ℕ) (g : Bool) (cur : ℕ) (w : List ℕ) → Front t beyond g cur w
front t beyond g cur [] =
    blank 0 parts_nil
      (λ k. with_fuel t beyond g cur [] {b = 0 + suc k} (omega arith) (walk_end k t beyond g cur))
front t beyond g cur (c ∷ cs) = elim (Bool-cases (c == 0)) [
  | inl sep ↦ Front-sep t beyond g cur c cs sep (front t beyond g cur cs)
  | inr name_at ↦
      named 0 c cs name_at (parts_name c cs name_at)
        (λ k. with_fuel t beyond g cur (c ∷ cs) {a = k} (omega arith) refl)
]

-- Past separators, a walk that ends from the name on ends.
pub ends_past_front :
    (t : Tree) (beyond : ℕ) (g : Bool) (cur : ℕ) (w : List ℕ) (n m c : ℕ) (cs : List ℕ)
    {end : Looked}
    → ((k : ℕ) → walk (n + k) t beyond g g cur w ≡ walk k t beyond g g cur (c ∷ cs))
    → ((k : ℕ) → walk (suc (m + k)) t beyond g g cur (c ∷ cs) ≡ end)
    → (n' : ℕ) × ((k : ℕ) → walk (n' + k) t beyond g g cur w ≡ end)
ends_past_front t beyond g cur w n m c cs walks ends = (
  n + suc m,
  λ k.
      with_fuel t beyond g cur w {a = n + suc (m + k)} (omega arith) (walks (suc (m + k)) ∙ ends k),
)
