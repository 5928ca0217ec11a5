-- ===== src/Slab/Taking.antt =====
-- What taking the first free object leaves, on lists of slabs.
use nyaux.Base.{
  ℕ, ◌+◌, ◌*◌, ◌%◌, ◌≤◌, ◌≡◌, refl, List, [], ◌∷◌, arith, true, false, Option, none, some, All, ap,
}
use nyaux.Machine.Chain.{has}
use nyaux.Slab.Layout.{Slab, headers, InPage, AreApart}
use nyaux.Slab.Scan.{take_first}
use nyaux.Slab.Abstract.{is_free, other_page}

-- The object is one of those that `make_slab` lays out in the slab at `h`.
abbrev pub IsSlot : (size h o : ℕ) → Type 0
IsSlot size h o = (k : ℕ) × (o ≡ h + 24 + k * size) × (o + size ≤ h + 4096)

abbrev pub AreSlots : ℕ → List Slab → Type 0
AreSlots size bs = All (λ b. All (IsSlot size b.0) b.1) bs

-- An object of one of the slabs, free or not.
abbrev pub IsObject : ℕ → List Slab → ℕ → Type 0
IsObject size bs o = (h : ℕ) × (has h (headers bs) ≡ true) × IsSlot size h o

-- An object of a slab is on no other slab's free list.
pub elsewhere :
    (h o : ℕ) (bs : List Slab)
    → h % 4096 ≡ 0
    → InPage h o
    → has h (headers bs) ≡ false
    → AreApart bs
    → is_free o bs ≡ false
elsewhere h o [] al inside out apart = refl
elsewhere h o ((g, objs) ∷ bs) al inside out apart = ground (
  arith,
  other_page g h o objs apart.0 al (λ e. ground arith) (omega (arith, inside))
      (omega (arith, inside)) apart.2,
  elsewhere h o bs al inside (ground arith) apart.4,
)

-- The object that is taken was free and is free no more; everything else stays as it is.
abbrev pub TakesWell : ℕ → List Slab → Option (ℕ × List Slab) → Type 0
TakesWell size bs none = Unit
TakesWell size bs (some (o, rest)) =
    (headers rest ≡ headers bs)
    × AreApart rest
    × AreSlots size rest
    × IsObject size bs o
    × (is_free o bs ≡ true)
    × (is_free o rest ≡ false)
    × ((x : ℕ) → is_free x bs ≡ false → is_free x rest ≡ false)

TakesWell-skip :
    (size g : ℕ) (bs : List Slab) (t : Option (ℕ × List Slab))
    → g % 4096 ≡ 0
    → has g (headers bs) ≡ false
    → TakesWell size bs t
    → TakesWell size
        ((g, []) ∷ bs)
        (elim t [ none ↦ none | some (o, rest) ↦ some (o, (g, []) ∷ rest) ])
TakesWell-skip size g bs none al out well = tt
TakesWell-skip size g bs (some (o, rest)) al out
      (same, apart, slots, (h, there, slot), was, now, others) =
    (
      ap (λ hs. g ∷ hs) same,
      (al, rw same out, tt, tt, apart),
      (tt, slots),
      (h, ground arith, slot),
      was,
      now,
      others,
    )

pub take_first-TakesWell :
    (size : ℕ) (bs : List Slab) → AreApart bs → AreSlots size bs → TakesWell size bs (take_first bs)
unfolding take_first
take_first-TakesWell size [] apart slots = tt
take_first-TakesWell size ((g, []) ∷ bs) apart slots =
    TakesWell-skip size g bs (take_first bs) apart.0 apart.1
      (take_first-TakesWell size bs apart.4 slots.1)
take_first-TakesWell size ((g, o ∷ objs) ∷ bs) apart slots =
    let gone : is_free o bs ≡ false = elsewhere g o bs apart.0 apart.2.0 apart.1 apart.4 in
    (
      refl,
      (apart.0, apart.1, apart.2.1, apart.3.1, apart.4),
      (slots.0.1, slots.1),
      (g, ground arith, slots.0.0),
      ground arith,
      ground (arith, apart.3.0, gone),
      λ x out. ground arith,
    )
