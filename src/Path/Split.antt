-- ===== src/Path/Split.antt =====
-- The components of a path, and the loops of kernel/src/fs/vfs.c that find them in the copy.
use nyaux.Base.{
  ℕ, suc, ◌≤◌, ◌≡◌, ◌≢◌, inl, inr, true, false, List, [], ◌∷◌, ◌==◌, if◌then◌else◌, drop, length,
  arith, refl, ap, ◌∙◌, Bool-cases, ne→==, All,
}
use nyaux.Path.{slash, cut, work_with_me, component, after_component}

abbrev push_head : ℕ → List (List ℕ) → List (List ℕ)
push_head c [] = (c ∷ []) ∷ []
push_head c (xs ∷ xss) = (c ∷ xs) ∷ xss

-- A list cut at every `sep`, the empty pieces left out.
abbrev split_on : ℕ → List ℕ → List (List ℕ)
split_on sep [] = [] ∷ []
split_on sep (c ∷ cs) =
    let rest = split_on sep cs in if c == sep then [] ∷ rest else push_head c rest

abbrev nonempty : List (List ℕ) → List (List ℕ)
nonempty [] = []
nonempty ([] ∷ xss) = nonempty xss
nonempty ((x ∷ xs) ∷ xss) = (x ∷ xs) ∷ nonempty xss

-- The names between the separators of a path.
unfoldable pub components : List ℕ → List (List ℕ)
components path = nonempty (split_on slash path)

-- The same for the copy of a path.
unfoldable pub parts : List ℕ → List (List ℕ)
parts work = nonempty (split_on 0 work)

-- A string has no NUL.
abbrev pub NoNul : List ℕ → Type 0
NoNul = All (λ c. c ≢ 0)

cut_iff : (c : ℕ) → c ≢ 0 → (cut c == 0) ≡ (c == slash)
cut_iff c pos = ground arith

split_on-work : (path : List ℕ) → NoNul path → split_on 0 (work_with_me path) ≡ split_on slash path
split_on-work [] is = refl
split_on-work (c ∷ cs) (pos, rest) = elim (Bool-cases (c == slash)) [
  | inl sep ↦ rw (sep, split_on-work cs rest) refl
  | inr other ↦ rw (other, ne→== c 0 pos, split_on-work cs rest) refl
]

pub parts-work : (path : List ℕ) → NoNul path → parts (work_with_me path) ≡ components path
unfolding parts components
parts-work path is = ap nonempty (split_on-work path is)

-- The tail of a split, from the piece after the first on.
abbrev tail_of : List ℕ → List (List ℕ)
tail_of [] = []
tail_of (c ∷ cs) = split_on 0 cs

split_on_first : (w : List ℕ) → split_on 0 w ≡ component w ∷ tail_of (after_component w)
unfolding component after_component
split_on_first [] = refl
split_on_first (c ∷ cs) = elim (Bool-cases (c == 0)) [
  | inl sep ↦ rw sep refl
  | inr other ↦ rw (other, split_on_first cs) refl
]

nonempty-tail : (w : List ℕ) → nonempty (tail_of w) ≡ parts (drop 1 w)
unfolding parts
nonempty-tail [] = refl
nonempty-tail (c ∷ cs) = refl

pub parts_nil : parts [] ≡ []
unfolding parts
parts_nil = refl

pub parts_sep : (c : ℕ) (cs : List ℕ) → (c == 0) ≡ true → parts (c ∷ cs) ≡ parts cs
unfolding parts
parts_sep c cs sep = rw sep refl

component_cons : (c : ℕ) (cs : List ℕ) → (c == 0) ≡ false → component (c ∷ cs) ≡ c ∷ component cs
unfolding component
component_cons c cs other = rw other refl

nonempty_first :
    {xs ys : List ℕ} {c : ℕ}
    → xs ≡ c ∷ ys
    → (xss : List (List ℕ)) → nonempty (xs ∷ xss) ≡ xs ∷ nonempty xss
nonempty_first e xss = rw e refl

pub parts_name :
    (c : ℕ) (cs : List ℕ)
    → (c == 0) ≡ false
    → parts (c ∷ cs) ≡ component (c ∷ cs) ∷ parts (drop 1 (after_component (c ∷ cs)))
unfolding parts
parts_name c cs other =
    ap nonempty (split_on_first (c ∷ cs))
    ∙ nonempty_first (component_cons c cs other) (tail_of (after_component (c ∷ cs)))
    ∙ ap (λ (xss : List (List ℕ)). component (c ∷ cs) ∷ xss)
        (nonempty-tail (after_component (c ∷ cs)))

length-after_component : (w : List ℕ) → length (after_component w) ≤ length w
unfolding after_component
length-after_component [] = omega arith
length-after_component (c ∷ cs) = ground (arith, length-after_component cs)

length-drop1 : (w : List ℕ) (n : ℕ) → length w ≤ suc n → length (drop 1 w) ≤ n
length-drop1 [] n h = omega arith
length-drop1 (c ∷ cs) n h = omega (arith, h)

pub length-rest : (c : ℕ) (cs : List ℕ) → length (drop 1 (after_component (c ∷ cs))) ≤ length cs
length-rest c cs =
    length-drop1 (after_component (c ∷ cs)) (length cs) (length-after_component (c ∷ cs))
