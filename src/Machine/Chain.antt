-- ===== src/Machine/Chain.antt =====
-- Singly linked lists in memory, by a `next` pointer at offset 0 (`struct pmm_node` of
-- kernel/src/pmm.h).
use nyaux.Base.{
  ℕ, ◌≡◌, ◌≢◌, refl, sym, ◌∙◌, Bool, true, false, ◌||◌, List, [], ◌∷◌, ◌++◌, arith, ◌==◌, All,
}
use mathlib.Core.Path.{subst}
use mathlib.Core.List.{append_assoc}
use nyaux.Machine.{Mem, write}

abbrev pub has : ℕ → List ℕ → Bool
has a [] = false
has a (x ∷ xs) = (a == x) || has a xs

abbrev pub Nodup : List ℕ → Type 0
Nodup [] = Unit
Nodup (x ∷ xs) = (has x xs ≡ false) × Nodup xs

-- From `p` the pointers lead through the addresses `xs`, none of them NULL, to `q`.
abbrev pub Seg : Mem → ℕ → List ℕ → ℕ → Type 0
Seg m p [] q = p ≡ q
Seg m p (x ∷ xs) q = (p ≡ x) × (x ≢ 0) × Seg m (m x) xs q

-- A list that ends at NULL.
abbrev pub Chain : Mem → ℕ → List ℕ → Type 0
Chain m p xs = Seg m p xs 0

pub has-append : (a : ℕ) (xs ys : List ℕ) → has a (xs ++ ys) ≡ (has a xs || has a ys)
has-append a [] ys = refl
has-append a (x ∷ xs) ys = ground (arith, has-append a xs ys)

-- A write away from the list leaves it alone.
pub Seg-write :
    (m : Mem) (p : ℕ) (xs : List ℕ) (q a v : ℕ)
    → has a xs ≡ false
    → Seg m p xs q
    → Seg (write m a v) p xs q
Seg-write m p [] q a v out s = s
Seg-write m p (x ∷ xs) q a v out s =
    let e : (x == a) ≡ false = ground arith in
    (s.0, s.1, rw e (Seg-write m (m x) xs q a v (ground arith) s.2))

-- Writing a successor into the last node moves the end.
pub Seg-snoc :
    (m : Mem) (p : ℕ) (xs : List ℕ) (q v : ℕ)
    → has q xs ≡ false
    → q ≢ 0
    → Seg m p xs q
    → Seg (write m q v) p (xs ++ (q ∷ [])) v
Seg-snoc m p [] q v out ne s = (s, ne, ground arith)
Seg-snoc m p (x ∷ xs) q v out ne s =
    let e : (x == q) ≡ false = ground arith in
    (s.0, s.1, rw e (Seg-snoc m (m x) xs q v (ground arith) ne s.2))

-- The pages of `xs` strung one after the other behind `prev`, as a loop of the kernel does.
abbrev pub link : Mem → ℕ → List ℕ → Mem
link m prev [] = m
link m prev (x ∷ xs) = link (write m prev x) x xs

abbrev pub last : ℕ → List ℕ → ℕ
last prev [] = prev
last prev (x ∷ xs) = last x xs

pub Nodup-append_cons :
    (xs : List ℕ) (q : ℕ) (ys : List ℕ) → Nodup (xs ++ (q ∷ ys)) → has q xs ≡ false
Nodup-append_cons [] q ys d = refl
Nodup-append_cons (x ∷ xs) q ys d =
    ground (arith, has-append x xs (q ∷ ys), Nodup-append_cons xs q ys d.1)

pub append_snoc : (xs : List ℕ) (q : ℕ) (ys : List ℕ) → (xs ++ (q ∷ [])) ++ ys ≡ xs ++ (q ∷ ys)
append_snoc xs q ys = append_assoc xs (q ∷ []) ys

pub Nodup-append_left : (xs ys : List ℕ) → Nodup (xs ++ ys) → Nodup xs
Nodup-append_left [] ys d = tt
Nodup-append_left (x ∷ xs) ys d =
    (ground (arith, has-append x xs ys, d.0), Nodup-append_left xs ys d.1)

pub Seg-end :
    (m : Mem) (p : ℕ) (xs : List ℕ) (q r : ℕ)
    → q ≢ 0
    → Seg m p xs q
    → m q ≡ r
    → Seg m p (xs ++ (q ∷ [])) r
Seg-end m p [] q r ne s e = (s, ne, e)
Seg-end m p (x ∷ xs) q r ne s e = (s.0, s.1, Seg-end m (m x) xs q r ne s.2 e)

-- Stringing `ps` behind `prev` keeps the segment and extends it.
pub link-Seg :
    (ps : List ℕ) (m : Mem) (p prev : ℕ) (xs : List ℕ)
    → Seg m p xs prev
    → prev ≢ 0
    → All (λ x. x ≢ 0) ps
    → Nodup (xs ++ (prev ∷ ps))
    → (ys : List ℕ) × Seg (link m prev ps) p ys (last prev ps)
      × (xs ++ (prev ∷ ps) ≡ ys ++ (last prev ps ∷ []))
      × (last prev ps ≢ 0)
link-Seg [] m p prev xs s ne nz d = (xs, s, refl, ne)
link-Seg (c ∷ ps) m p prev xs s ne nz d =
    let out = Nodup-append_cons xs prev (c ∷ ps) d in
    let d' : Nodup ((xs ++ (prev ∷ [])) ++ (c ∷ ps)) = rw append_snoc d in
    let (ys, s', e, ne') =
      link-Seg ps (write m prev c) p c (xs ++ (prev ∷ [])) (Seg-snoc m p xs prev c out ne s) nz.0
        nz.1 d' in
    (ys, s', sym (append_snoc xs prev (c ∷ ps)) ∙ e, ne')

pub write_ne : (m : Mem) (a v b : ℕ) → b ≢ a → write m a v b ≡ m b
write_ne m a v b ne = ground arith

pub has-last : (x : ℕ) (xs : List ℕ) → has (last x xs) (x ∷ xs) ≡ true
has-last x [] = ground arith
has-last x (y ∷ ys) = ground (arith, has-last y ys)

link_last :
    (m : Mem) (p : ℕ) (ps : List ℕ) → Nodup (p ∷ ps) → link m p ps (last p ps) ≡ m (last p ps)
link_last m p [] d = refl
link_last m p (c ∷ ps) d =
    link_last (write m p c) c ps d.1
    ∙ write_ne m p c (last c ps) (λ e. ground (arith, has-last c ps, d.0))

-- Only the linked addresses are written.
pub link_ne : (m : Mem) (p : ℕ) (ps : List ℕ) (a : ℕ) → has a (p ∷ ps) ≡ false → link m p ps a ≡ m a
link_ne m p [] a out = refl
link_ne m p (c ∷ ps) a out =
    link_ne (write m p c) c ps a (ground arith) ∙ write_ne m p c a (ground arith)

-- Addresses strung in a memory that holds NULL at the last of them are a list.
pub link-Chain :
    (m : Mem) (p : ℕ) (ps : List ℕ)
    → Nodup (p ∷ ps)
    → All (λ x. x ≢ 0) (p ∷ ps)
    → m (last p ps) ≡ 0
    → Chain (link m p ps) p (p ∷ ps)
link-Chain m p ps d nz end =
    let (ys, s, e, ne) = link-Seg ps m p p [] refl (nz.0) (nz.1) d in
    subst (Chain (link m p ps) p) (sym e)
      (Seg-end (link m p ps) p ys (last p ps) 0 ne s (link_last m p ps d ∙ end))
