-- ===== src/Slab/Scan.antt =====
-- The search of `slab_alloc` through the slabs of a cache.
use nyaux.Base.{
  ℕ, zero, suc, ◌+◌, ◌%◌, ◌<◌, ◌≡◌, ◌≢◌, refl, List, [], ◌∷◌, arith, false, true, Option, none,
  some, ◌==◌, ◌∙◌, ne→==, length,
}
use nyaux.Machine.{Mem, write, Machine, Run, ok}
use nyaux.Machine.Chain.{has, last, Seg-write, write_ne}
use nyaux.Slab.Layout.{Slab, headers, Slabs, AreApart, Slabs-write, header_out}
use nyaux.Slab.{Found, object, full, scan}

-- What the allocator is to do: the first free object of the first slab that has one.
unfoldable pub take_first : List Slab → Option (ℕ × List Slab)
take_first [] = none
take_first ((h, []) ∷ bs) = elim (take_first bs) [
  | none ↦ none
  | some (o, rest) ↦ some (o, (h, []) ∷ rest)
]
take_first ((h, o ∷ objs) ∷ bs) = some (o, (h, objs) ∷ bs)

abbrev pub first_header : List Slab → ℕ
first_header [] = 0
first_header ((h, _) ∷ _) = h

-- How a scan from the first of the slabs ends: at the last header if all are full.
abbrev pub Outcome : Machine → List Slab → Option (ℕ × List Slab) → Run Found → Type 0
Outcome s bs none r = r ≡ ok (full (last 0 (headers bs))) s
Outcome s bs (some (o, rest)) r =
    (h v : ℕ) × (h % 4096 ≡ 0)
    × (has h (headers bs) ≡ true)
    × (r ≡ ok (object o) (record s { mem = write s.mem (h + 16) v }))
    × Slabs (write s.mem (h + 16) v) (first_header bs) rest

-- A full slab in front changes nothing.
Outcome-skip :
    (s : Machine) (g : ℕ) (b : Slab) (bs : List Slab) (o : Option (ℕ × List Slab)) (r : Run Found)
    → g % 4096 ≡ 0
    → has g (headers (b ∷ bs)) ≡ false
    → g ≢ 0
    → s.mem (g + 16) ≡ 0
    → s.mem (g + 8) ≡ first_header (b ∷ bs)
    → Outcome s (b ∷ bs) o r
    → Outcome s
        ((g, []) ∷ (b ∷ bs))
        (elim o [ none ↦ none | some (p, rest) ↦ some (p, (g, []) ∷ rest) ])
        r
Outcome-skip s g b bs none r al out ne no_free next q = q
Outcome-skip s g b bs (some (p, rest)) r al out ne no_free next (h, v, ah, there, e, sl) =
    let apart : g ≢ h = λ same. ground arith in
    let list : write s.mem (h + 16) v (g + 16) ≡ 0 =
      write_ne s.mem (h + 16) v (g + 16) (omega (arith, apart)) ∙ no_free in
    let nx : write s.mem (h + 16) v (g + 8) ≡ first_header (b ∷ bs) =
      write_ne s.mem (h + 16) v (g + 8) (omega (arith, al, ah)) ∙ next in
    (h, v, ah, ground arith, e, (refl, ne, list, rw nx sl))

-- The scan of `slab_alloc` over the slabs of a cache, on fuel beyond their number: it takes the first
-- free object of the first slab that has one and leaves the rest of the free lists as they were;
-- if every slab is full it ends at the last of them and changes nothing.
pub scan_takes :
    (fuel p : ℕ) (s : Machine) (bs : List Slab)
    → Slabs s.mem p bs
    → AreApart bs
    → length bs < fuel
    → Outcome s bs (take_first bs) (scan fuel p s)
unfolding scan take_first
scan_takes zero p s bs sl ap' enough = absurd (omega arith)
scan_takes (suc fuel) p s [] sl ap' enough = rw sl refl
scan_takes (suc fuel) p s ((h, []) ∷ []) sl ap' enough =
    let z : (h == 0) ≡ false = ne→== h 0 sl.1 in rw (sl.0, z, sl.2, z, sl.3) refl
scan_takes (suc fuel) p s ((h, []) ∷ ((h', objs) ∷ bs)) sl ap' enough =
    let z : (h == 0) ≡ false = ne→== h 0 sl.1 in
    let z' : (h' == 0) ≡ false = ne→== h' 0 sl.3.1 in
    rw (sl.0, z, sl.2, z, sl.3.0, z')
      (Outcome-skip s h (h', objs) bs (take_first ((h', objs) ∷ bs)) _ ap'.0 ap'.1 sl.1 sl.2 sl.3.0
        (scan_takes fuel h' s ((h', objs) ∷ bs) (refl, sl.3.1, sl.3.2, sl.3.3) ap'.4 (omega arith)))
scan_takes (suc fuel) p s ((h, o ∷ objs) ∷ bs) sl ap' enough =
    let z : (h == 0) ≡ false = ne→== h 0 sl.1 in
    let oz : (o == 0) ≡ false = ne→== o 0 sl.2.1 in
    let m' : Mem = write s.mem (h + 16) (s.mem o) in
    let first : m' (h + 16) ≡ s.mem o = ground arith in
    let next : m' (h + 8) ≡ s.mem (h + 8) =
      write_ne s.mem (h + 16) (s.mem o) (h + 8) (omega arith) in
    (
      h,
      s.mem o,
      ap'.0,
      ground arith,
      rw (sl.0, z, sl.2.0, oz, oz, z) refl,
      (
        refl,
        sl.1,
        rw first (
            Seg-write s.mem (s.mem o) objs 0 (h + 16) (s.mem o)
              (header_out h (h + 16) objs (omega arith) ap'.2.1) sl.2.2),
        rw next (
            Slabs-write s.mem (s.mem (h + 8)) h (h + 16) (s.mem o) bs ap'.0 (omega arith)
              (omega arith) ap'.1 ap'.4 sl.3),
      ),
    )
