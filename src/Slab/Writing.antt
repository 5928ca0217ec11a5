-- ===== src/Slab/Writing.antt =====
-- What a caller writes into an object that it holds (kernel/src/pmm.c: slab_alloc and free).
use nyaux.Base.{
  ℕ, ◌+◌, ◌*◌, ◌%◌, ◌≤◌, ◌<◌, ◌≡◌, ◌≢◌, List, [], ◌∷◌, arith, true, false, ◌==◌, ◌∙◌, sym, ap, inl,
  inr, ◌⊎◌, refl, Bool-cases, ==_iff, ==→ne, ltb, All,
}
use mathlib.Core.Path.{subst}
use nyaux.Machine.{Mem, Machine, write}
use nyaux.Machine.Chain.{has, write_ne}
use nyaux.Vmm.Paging.Reach.{IsFrame, Seg-agree}
use nyaux.Slab.Abstract.{is_free}
use nyaux.Slab.Layout.{Slab, headers, Slabs, AreApart}
use nyaux.Slab.Free.{header_of}
use nyaux.Slab.Taking.{IsSlot, AreSlots}
use nyaux.Slab.Live.{IsAllocator}
use nyaux.Slab.Return.{IsUsed-at}

-- Objects in distinct places of one slab.
step_apart : (a b size : ℕ) → a < b → a * size + size ≤ b * size
step_apart a b size lt = grind arith

pub slots_apart :
    (size h o o' : ℕ)
    → IsSlot size h o
    → IsSlot size h o'
    → o ≢ o'
    → (o + size ≤ o') ⊎ (o' + size ≤ o)
slots_apart size h o o' (k, e, top) (k', e', top') ne = elim (Bool-cases (ltb k k')) [
  | inl before ↦ inl (omega (arith, e, e', step_apart k k' size (ground arith)))
  | inr not_before ↦ elim (Bool-cases (ltb k' k)) [
    | inl after ↦ inr (omega (arith, e, e', step_apart k' k size (ground arith)))
    | inr not_after ↦
        (let same : k ≡ k' = ground arith in
          absurd (ne (e ∙ ap (λ (j : ℕ). h + 24 + j * size) same ∙ sym e')))
  ]
]

pub pages_apart :
    (size h h' o o' : ℕ)
    → h % 4096 ≡ 0
    → h' % 4096 ≡ 0
    → h ≢ h'
    → IsSlot size h o
    → IsSlot size h' o'
    → (o + size ≤ o') ⊎ (o' + size ≤ o)
pages_apart size h h' o o' al al' ne (k, e, top) (k', e', top') = elim (Bool-cases (ltb h h')) [
  | inl before ↦ (let lt : h < h' = ground arith in inl (omega (arith, lt, e', top)))
  | inr after ↦ (let lt : h' < h = ground arith in inr (omega (arith, lt, e, top')))
]

-- A word of an object in use is no free object of a slab.
no_slot :
    (size h o c g : ℕ) (objs : List ℕ)
    → 8 ≤ size
    → h % 4096 ≡ 0
    → g % 4096 ≡ 0
    → IsSlot size h o
    → o ≤ c
    → c < o + size
    → has o objs ≡ false
    → All (IsSlot size g) objs
    → has c objs ≡ false
no_slot size h o c g [] pos al al' slot low high out slots = refl
no_slot size h o c g (x ∷ objs) pos al al' slot low high out (here, slots) =
    let other : o ≢ x = ground arith in
    let apart : (o + size ≤ x) ⊎ (x + size ≤ o) = elim (Bool-cases (h == g)) [
      | inl same ↦
          slots_apart size h o x slot
            (subst (λ (t : ℕ). IsSlot size t x) (sym ((==_iff h g).0 same)) here) other
      | inr differ ↦ pages_apart size h g o x al al' (==→ne h g differ) slot here
    ] in
    ground (arith, no_slot size h o c g objs pos al al' slot low high (ground arith) slots)

no_free :
    (size h o c : ℕ) (bs : List Slab)
    → 8 ≤ size
    → h % 4096 ≡ 0
    → IsSlot size h o
    → o ≤ c
    → c < o + size
    → is_free o bs ≡ false
    → AreApart bs
    → AreSlots size bs
    → is_free c bs ≡ false
no_free size h o c [] pos al slot low high out apart slots = refl
no_free size h o c ((g, objs) ∷ bs) pos al slot low high out apart slots = ground (
  arith,
  no_slot size h o c g objs pos al apart.0 slot low high (ground arith) slots.0,
  no_free size h o c bs pos al slot low high (ground arith) apart.4 slots.1,
)

-- A write that is to none of some addresses.
write-All : (m : Mem) (c v : ℕ) (xs : List ℕ) → has c xs ≡ false → All (λ x. write m c v x ≡ m x) xs
write-All m c v [] out = tt
write-All m c v (x ∷ xs) out = (write_ne m c v x (ground arith), write-All m c v xs (ground arith))

-- A word behind the header of a page is not in the header of any.
header_same :
    (m : Mem) (h c v g k : ℕ)
    → h % 4096 ≡ 0
    → g % 4096 ≡ 0
    → h + 24 ≤ c
    → c < h + 4096
    → k < 24
    → write m c v (g + k) ≡ m (g + k)
header_same m h c v g k al al' low high small = write_ne m c v (g + k) (omega arith)

module _ (m : Mem) (h c v : ℕ) (al : h % 4096 ≡ 0) (low : h + 24 ≤ c) (high : c < h + 4096) where
  Slabs-write_object :
      (p : ℕ) (bs : List Slab)
      → is_free c bs ≡ false
      → AreApart bs
      → Slabs m p bs
      → Slabs (write m c v) p bs
  Slabs-write_object p [] out apart slabs = slabs
  Slabs-write_object p ((g, objs) ∷ bs) out apart slabs =
      let list = header_same m h c v g 16 al apart.0 low high (omega arith) in
      let next = header_same m h c v g 8 al apart.0 low high (omega arith) in
      (
        slabs.0,
        slabs.1,
        rw list (
            Seg-agree m (write m c v) (m (g + 16)) objs 0 (write-All m c v objs (ground arith))
              slabs.2),
        rw next (Slabs-write_object (m (g + 8)) bs (ground arith) apart.4 slabs.3),
      )

  sized-write_object :
      (size : ℕ) (bs : List Slab)
      → AreApart bs
      → All (λ x. m x ≡ size) (headers bs)
      → All (λ x. write m c v x ≡ size) (headers bs)
  sized-write_object size [] apart sized = tt
  sized-write_object size ((g, objs) ∷ bs) apart sized = (
    write_ne m c v g (omega (arith, apart.0)) ∙ sized.0,
    sized-write_object size bs apart.4 sized.1,
  )

  no_page_word : (d : ℕ) (pages : List ℕ) → All (IsFrame d) pages → has c pages ≡ false
  no_page_word d [] frames = refl
  no_page_word d (x ∷ pages) frames = ground (arith, frames.0, no_page_word d pages frames.1)

-- A write of a word of an object in use keeps the allocator, with all that is free and all that is in use.
pub write_object-IsAllocator :
    (size i o c v : ℕ) (s : Machine) (bs : List Slab) (pages live : List ℕ)
    → IsAllocator size s i bs pages live
    → has o live ≡ true
    → o ≤ c
    → c < o + size
    → IsAllocator size (record s { mem = write s.mem c v }) i bs pages live
write_object-IsAllocator size i o c v s bs pages live is there from to =
    let k = is.is_cache in
    let (out, (h, in_cache, slot)) = IsUsed-at size o bs live there is.used in
    let (al, _, _) = header_of s.mem _ h _ bs in_cache k.apart k.slabs k.sized in
    let pos : 8 ≤ size = omega (arith, k.at_least, is.size_is) in
    let low : h + 24 ≤ c = omega (arith, slot.1, from) in
    let high : c < h + 4096 = omega (arith, slot.2, to) in
    record {
      is_cache = record {
        slabs =
            Slabs-write_object s.mem h c v al low high _ bs
              (no_free size h o c bs pos al slot from to out k.apart is.slots) k.apart k.slabs;
        apart = k.apart;
        sized = sized-write_object s.mem h c v al low high _ bs k.apart k.sized;
        found = k.found;
        at_least = k.at_least;
        at_most = k.at_most;
        some_slab = k.some_slab;
        holds = record {
          chain =
              Seg-agree s.mem (write s.mem c v) s.head pages 0
                (write-All s.mem c v pages
                  (no_page_word s.mem h c v al low high s.hhdm pages k.frames))
                k.holds.chain;
          nodup = k.holds.nodup;
        };
        frames = k.frames;
        no_slab = k.no_slab;
      };
      size_is = is.size_is;
      slots = is.slots;
      in_memory = is.in_memory;
      used = is.used;
      nodup = is.nodup;
    }
