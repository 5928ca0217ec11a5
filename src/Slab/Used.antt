-- ===== src/Slab/Used.antt =====
-- The objects of a slab cache that are in use (kernel/src/pmm.c: slab_alloc and free).
use nyaux.Base.{
  ℕ, ◌+◌, ◌%◌, ◌≤◌, ◌≡◌, ◌≢◌, refl, List, [], ◌∷◌, arith, true, false, ◌||◌, ◌==◌, All, ==_iff, inl,
  inr, Bool-cases,
}
use nyaux.Machine.Chain.{has}
use nyaux.Slab.Layout.{Slab, headers, InPage, AreApart}
use nyaux.Slab.Abstract.{is_free, other_page}
use nyaux.Slab.Taking.{IsObject}
use nyaux.Slab.Extend.{append, has-headers-append}

-- An object in use: one of the slabs', and not on a free list.
abbrev pub IsUsed : ℕ → List Slab → ℕ → Type 0
IsUsed size bs o = (is_free o bs ≡ false) × IsObject size bs o

-- What taking an object means for the others.
pub IsUsed-take :
    (size : ℕ) (bs rest : List Slab) (live : List ℕ)
    → headers rest ≡ headers bs
    → ((x : ℕ) → is_free x bs ≡ false → is_free x rest ≡ false)
    → All (IsUsed size bs) live
    → All (IsUsed size rest) live
IsUsed-take size bs rest [] heads others used = tt
IsUsed-take size bs rest (y ∷ live) heads others ((out, (h, there, slot)), used) =
    ((others y out, (h, rw heads there, slot)), IsUsed-take size bs rest live heads others used)

pub free-not_used :
    (size o : ℕ) (bs : List Slab) (live : List ℕ)
    → is_free o bs ≡ true
    → All (IsUsed size bs) live
    → has o live ≡ false
free-not_used size o bs [] was used = refl
free-not_used size o bs (y ∷ live) was used =
    let ne : o ≢ y = λ e. ground (arith, used.0.0, rw e at was) in
    ground (arith, ne, free-not_used size o bs live was used.1)

pub is_free-append :
    (o x : ℕ) (objs : List ℕ) (bs : List Slab)
    → is_free o (append bs x objs) ≡ (is_free o bs || has o objs)
is_free-append o x objs [] = ground arith
is_free-append o x objs ((h, own) ∷ bs) = ground (arith, is_free-append o x objs bs)

-- An object of a slab is not in the page of another.
pub object_elsewhere :
    (size x o : ℕ) (objs : List ℕ) (bs : List Slab)
    → 8 ≤ size
    → x % 4096 ≡ 0
    → has x (headers bs) ≡ false
    → All (InPage x) objs
    → AreApart bs
    → IsObject size bs o
    → has o objs ≡ false
object_elsewhere size x o objs [] pos al out inside apart (h, there, (k, e, top)) = absurd (cc)
object_elsewhere size x o objs ((g, own) ∷ bs) pos al out inside apart (h, there, (k, e, top)) =
    elim (Bool-cases (h == g)) [
      | inl same ↦
          (let eq : h ≡ g = (==_iff h g).0 same in
            let ne : x ≢ g = λ e'. ground arith in
            other_page x g o objs al apart.0 ne (omega (arith, e, eq)) (omega (arith, top, eq, pos))
              inside)
      | inr other ↦
          object_elsewhere size x o objs bs pos al (ground arith) inside apart.4
            (h, ground arith, (k, e, top))
    ]

-- What a new slab means for the objects in use.
pub IsUsed-append :
    (size x : ℕ) (objs : List ℕ) (bs : List Slab) (live : List ℕ)
    → 8 ≤ size
    → x % 4096 ≡ 0
    → has x (headers bs) ≡ false
    → All (InPage x) objs
    → AreApart bs
    → All (IsUsed size bs) live
    → All (IsUsed size (append bs x objs)) live
IsUsed-append size x objs bs [] pos al out inside apart used = tt
IsUsed-append size x objs bs (y ∷ live) pos al out inside apart
      ((free_not, (h, there, slot)), used) =
    let gone = object_elsewhere size x y objs bs pos al out inside apart (h, there, slot) in
    (
      (
        rw (is_free-append y x objs bs, free_not, gone) refl,
        (h, rw (has-headers-append h x objs bs, there) refl, slot),
      ),
      IsUsed-append size x objs bs live pos al out inside apart used,
    )

pub new-not_used :
    (size x : ℕ) (bs : List Slab) (live : List ℕ)
    → 8 ≤ size
    → x % 4096 ≡ 0
    → has x (headers bs) ≡ false
    → AreApart bs
    → All (IsUsed size bs) live
    → has (x + 24) live ≡ false
new-not_used size x bs [] pos al out apart used = refl
new-not_used size x bs (y ∷ live) pos al out apart used =
    let here : All (InPage x) ((x + 24) ∷ []) = ((omega arith, omega arith), tt) in
    let gone = object_elsewhere size x y ((x + 24) ∷ []) bs pos al out here apart used.0.1 in
    ground (arith, gone, new-not_used size x bs live pos al out apart used.1)
