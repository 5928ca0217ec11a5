-- ===== src/Slab/Objects.antt =====
-- `make_slab` fills a page with a list of free objects.
use nyaux.Base.{
  ℕ, zero, suc, ◌+◌, ◌-◌, ◌*◌, ◌≤◌, ◌<◌, ◌≡◌, ◌≢◌, refl, List, [], ◌∷◌, arith, false, ◌==◌, All, ap,
  ◌∙◌, ne→==, ◌⊎◌, inl,
}
use native.Mathlib.Nat.{div-add-mod', div-mul-le_self, mod-lt}
use nyaux.Word.{word_mod, add64, sub64}
use nyaux.Machine.{Mem, write, clear, Machine, ok}
use nyaux.Machine.Chain.{has, Nodup, Chain, link, last, link-Chain, link_ne}
use nyaux.Pmm.Stack.{Holds, alloc_cons}
use nyaux.Vmm.Paging.Reach.{IsFrame, Seg-agree}
use nyaux.Slab.{header_size, obj_amount, link_objects, make_slab}

-- `n` objects from address `a` on.
abbrev pub objects : (n a size : ℕ) → List ℕ
objects zero a size = []
objects (suc n) a size = a ∷ objects n (a + size) size

-- The loop writes the links.
link_objects-link :
    (n i start size prev : ℕ) (s : Machine)
    → prev ≢ 0
    → prev + size ≡ start + i * size
    → prev + n * size < word_mod
    → 0 < size
    → link_objects n i start size prev s
      ≡ ok tt (record s { mem = link s.mem prev (objects n (prev + size) size) })
unfolding link_objects
link_objects-link zero i start size prev s ne at fits pos = refl
link_objects-link (suc n) i start size prev s ne at fits pos =
    let cur : add64 start (i * size) ≡ prev + size = omega arith in
    rw (ne→== prev 0 ne, cur)
      (link_objects-link n (i + 1) start size (prev + size)
        (record s { mem = write s.mem prev (prev + size) }) (omega arith) (omega arith)
        (omega arith) pos)

has_below : (n a b size : ℕ) → b < a → has b (objects n a size) ≡ false
has_below zero a b size h = refl
has_below (suc n) a b size h = ground (arith, has_below n (a + size) b size (omega arith))

pub objects-Nodup : (n a size : ℕ) → 0 < size → Nodup (objects n a size)
objects-Nodup zero a size pos = tt
objects-Nodup (suc n) a size pos =
    (has_below n (a + size) a size (omega arith), objects-Nodup n (a + size) size pos)

-- Objects from `a` on lie between `low` and `top`, whole.
pub objects_within :
    (n a size low top : ℕ)
    → low ≤ a
    → a + n * size ≤ top
    → All (λ o. (low ≤ o) × (o + size ≤ top)) (objects n a size)
objects_within zero a size low top h k = tt
objects_within (suc n) a size low top h k =
    ((h, omega arith), objects_within n (a + size) size low top (omega arith) (omega arith))

nonzero :
    (xs : List ℕ) (low top size : ℕ)
    → 0 < low
    → All (λ o. (low ≤ o) × (o + size ≤ top)) xs
    → All (λ o. o ≢ 0) xs
nonzero [] low top size pos h = tt
nonzero (x ∷ xs) low top size pos h = (omega (arith, h.0), nonzero xs low top size pos h.1)

last_in :
    (xs : List ℕ) (x low top size : ℕ)
    → All (λ o. (low ≤ o) × (o + size ≤ top)) (x ∷ xs)
    → (low ≤ last x xs) × (last x xs + size ≤ top)
last_in [] x low top size h = h.0
last_in (y ∷ ys) x low top size h = last_in ys y low top size h.1

out_of_range :
    (xs : List ℕ) (low top size a : ℕ)
    → All (λ o. (low ≤ o) × (o + size ≤ top)) xs
    → ((a < low) ⊎ (top ≤ a))
    → 0 < size
    → has a xs ≡ false
out_of_range [] low top size a h k pos = refl
out_of_range (x ∷ xs) low top size a h k pos =
    ground (arith, h.0, out_of_range xs low top size a h.1 k pos)

-- A slab as `make_slab` leaves it: header `h`, and the free objects of its page.
pub record IsFresh (m m' : Mem) (h size : ℕ) : Type 0 where
  pub has_size : m' h ≡ size
  pub no_next : m' (h + 8) ≡ 0
  pub free_objects : Chain m' (m' (h + 16)) (objects (obj_amount size) (h + header_size) size)
  pub outside : (a : ℕ) → (a < h) ⊎ (h + 4096 ≤ a) → m' a ≡ m a

-- A fresh slab is apart from the free pages.
fresh_free :
    (hhdm size x : ℕ) (m m' : Mem)
    → IsFresh m m' x size
    → (free : List ℕ) → IsFrame hhdm x
    → All (IsFrame hhdm) free
    → has x free ≡ false
    → All (λ a. m' a ≡ m a) free
fresh_free hhdm size x m m' fresh [] f fr out = tt
fresh_free hhdm size x m m' fresh (a ∷ free) f fr out =
    let apart : (a < x) ⊎ (x + 4096 ≤ a) = ground (arith, fr.0) in
    (fresh.outside a apart, fresh_free hhdm size x m m' fresh free f fr.1 (ground arith))

pub pred_mul : (n k : ℕ) → 0 < n → (n - 1) * k + k ≡ n * k
pred_mul zero k h = absurd (omega arith)
pred_mul (suc n) k h = let e : suc n - 1 ≡ n = omega arith in rw e (omega arith)

module _ (size : ℕ) (pos : 8 ≤ size) (room : size ≤ 4096 - header_size) where
  pub amount_pos : 0 < obj_amount size
  amount_pos = grind (arith, div-add-mod' 4072 size, mod-lt 4072 {m = size})

  pub amount_fits : obj_amount size * size ≤ 4096 - header_size
  amount_fits = div-mul-le_self 4072 size

  abbrev pub later : ℕ → List ℕ
  later h = objects (obj_amount size - 1) (h + header_size + size) size

  -- All objects are the first and the later ones.
  pub all_objects :
      (h : ℕ) → objects (obj_amount size) (h + header_size) size ≡ (h + header_size) ∷ later h
  all_objects h =
      let e : obj_amount size ≡ suc (obj_amount size - 1) = omega (arith, amount_pos) in
      ap (λ n. objects n (h + header_size) size) e

  within :
      (h : ℕ)
      → All (λ o. (h + header_size ≤ o) × (o + size ≤ h + 4096)) ((h + header_size) ∷ later h)
  within h = rw all_objects at (
      objects_within (obj_amount size) (h + header_size) size (h + header_size) (h + 4096)
        (omega arith) (omega (arith, amount_fits)))

  pub distinct : (h : ℕ) → Nodup ((h + header_size) ∷ later h)
  distinct h =
      rw all_objects at (objects-Nodup (obj_amount size) (h + header_size) size (omega arith))

  -- The memory after the header is written, and after the objects are linked.
  abbrev headed : Mem → ℕ → Mem
  headed m h = write (write (clear m h 4096) h size) (h + 16) (h + header_size)

  abbrev filled : Mem → ℕ → Mem
  filled m h = link (headed m h) (h + header_size) (later h)

  filled-IsFresh : (m : Mem) (h : ℕ) → IsFresh m (filled m h) h size
  filled-IsFresh m h =
      let l = last_in (later h) (h + header_size) (h + header_size) (h + 4096) size (within h) in
      let keep = λ (a : ℕ) (o : (a < h + header_size) ⊎ (h + 4096 ≤ a)).
        link_ne (headed m h) (h + header_size) (later h) a (
          out_of_range ((h + header_size) ∷ later h) (h + header_size) (h + 4096) size a (within h)
            o (omega arith)) in
      let chain =
        link-Chain (headed m h) (h + header_size) (later h) (distinct h)
          (nonzero ((h + header_size) ∷ later h) (h + header_size) (h + 4096) size (omega arith)
            (within h))
          (ground arith) in
      record {
        has_size = keep h (inl (omega arith)) ∙ ground arith;
        no_next = keep (h + 8) (inl (omega arith)) ∙ ground arith;
        free_objects =
            let first : filled m h (h + 16) ≡ h + header_size =
              keep (h + 16) (inl (omega arith)) ∙ ground arith in
            rw (first, all_objects) chain;
        outside = λ a o. keep a (ground arith) ∙ ground arith;
      }

  -- A slab is made from the first free page: the header has its size and no successor, the free
  -- list holds `(4096 - 24) / size` objects one behind the other and ends, and nothing outside the
  -- page is written. The size is from 8 to 4072 bytes.
  pub make_slab-IsFresh :
      (s : Machine) (x : ℕ) (free : List ℕ)
      → Holds s (x ∷ free)
      → All (IsFrame s.hhdm) (x ∷ free)
      → (s' : Machine) × (make_slab size s ≡ ok x s')
        × IsFresh s.mem s'.mem x size
        × Holds s' free
        × (s'.hhdm ≡ s.hhdm)
        × (s'.kmalloc_cache ≡ s.kmalloc_cache)
  make_slab-IsFresh s x free h fr =
      let (ran, left) = alloc_cons s x free h in
      let back : add64 (sub64 x s.hhdm) s.hhdm ≡ x = omega (arith, fr.0) in
      let start : add64 x header_size ≡ x + header_size = omega (arith, fr.0) in
      let real : (x == 0) ≡ false = ground (arith, fr.0) in
      let s0 : Machine = record s { mem = headed s.mem x; head = s.mem s.head } in
      let linked =
        link_objects-link (obj_amount size - 1) 1 (x + header_size) size (x + header_size) s0
          (omega arith) (omega arith)
          (omega (arith, fr.0, amount_fits, pred_mul (obj_amount size) size amount_pos))
          (omega arith) in
      let fresh = filled-IsFresh s.mem x in
      (
        record s0 { mem = filled s.mem x },
        unfold make_slab in rw (ran, back, real, start, real, linked) refl,
        fresh,
        record {
          chain =
              Seg-agree s.mem (filled s.mem x) _ free 0
                (fresh_free s.hhdm size x s.mem _ fresh free fr.0 fr.1 h.nodup.0) left.chain;
          nodup = left.nodup;
        },
        refl,
        refl,
      )
