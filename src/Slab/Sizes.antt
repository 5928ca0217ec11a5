-- ===== src/Slab/Sizes.antt =====
-- Which cache `kmalloc` takes for a size.
use nyaux.Base.{
  ℕ, zero, suc, ◌*◌, ◌≤◌, ◌<◌, ◌≡◌, refl, Option, none, some, List, [], ◌∷◌, Bool, true, false,
  ◌&&◌, ◌||◌, arith, leb, ltb,
}
use nyaux.Machine.{Cache}
use nyaux.Slab.{cache, next_pow2, search_for_bigenoughcache}

-- The caches that `init_slabs` sets up, with their first slabs.
abbrev pub kmalloc_caches : (ℕ → ℕ) → List Cache
kmalloc_caches slabs =
    record { slabs = slabs 0; size = 8 }
    ∷ record { slabs = slabs 1; size = 16 }
    ∷ record { slabs = slabs 2; size = 32 }
    ∷ record { slabs = slabs 3; size = 64 }
    ∷ record { slabs = slabs 4; size = 128 }
    ∷ record { slabs = slabs 5; size = 256 }
    ∷ record { slabs = slabs 6; size = 512 }
    ∷ record { slabs = slabs 7; size = 1024 }
    ∷ []

-- Cache `i` is there, has room for `n` bytes, and is the smallest cache or less than twice as big.
abbrev FitsIn : List Cache → ℕ → ℕ → Type 0
FitsIn cs n i = (n ≤ (cache cs i).size) × (8 < (cache cs i).size → (cache cs i).size < 2 * n)

is_fitting : List Cache → ℕ → Option ℕ → Bool
is_fitting cs n none = false
is_fitting cs n (some i) =
    leb n (cache cs i).size && (leb (cache cs i).size 8 || ltb (cache cs i).size (2 * n))

is_fitting_sound :
    (cs : List Cache) (n : ℕ) (o : Option ℕ)
    → is_fitting cs n o ≡ true
    → (i : ℕ) × (o ≡ some i) × FitsIn cs n i
unfolding is_fitting
is_fitting_sound cs n none h = absurd (cc)
is_fitting_sound cs n (some i) h = (i, refl, (ground arith, λ k. ground arith))

-- A test that passes below a bound, by evaluation.
every_below : ℕ → (ℕ → Bool) → Bool
every_below zero p = true
every_below (suc n) p = p n && every_below n p

every_below-lt : (n : ℕ) (p : ℕ → Bool) (x : ℕ) → every_below n p ≡ true → x < n → p x ≡ true
unfolding every_below
every_below-lt zero p x h lt = absurd (omega arith)
every_below-lt (suc n) p x h lt = ground (arith, every_below-lt n p x)

class_table :
    (slabs : ℕ → ℕ)
    → every_below 1024 (λ n.
      is_fitting
        (kmalloc_caches slabs)
        n
        (search_for_bigenoughcache (kmalloc_caches slabs) (next_pow2 n)))
      ≡ true
unfolding every_below is_fitting search_for_bigenoughcache next_pow2
class_table slabs = refl

-- For every size below 1024 `kmalloc` finds a cache among those that `init_slabs` sets up. Its
-- objects are big enough, and less than twice as big as asked for if they are not the smallest.
pub kmalloc_class :
    (slabs : ℕ → ℕ) (size : ℕ)
    → size < 1024
    → (i : ℕ) × (search_for_bigenoughcache (kmalloc_caches slabs) (next_pow2 size) ≡ some i)
      × (size ≤ (cache (kmalloc_caches slabs) i).size)
      × (8 < (cache (kmalloc_caches slabs) i).size
          → (cache (kmalloc_caches slabs) i).size < 2 * size)
kmalloc_class slabs size h =
    let (i, e, fits) =
      is_fitting_sound (kmalloc_caches slabs) size _
        (every_below-lt 1024 _ size (class_table slabs) h) in
    (i, e, fits.0, fits.1)
