-- ===== src/Slab/Alloc.antt =====
-- `slab_alloc` of kernel/src/pmm.c: from a slab with a free object, or from a new slab.
use nyaux.Base.{
  ℕ, zero, suc, ◌+◌, ◌-◌, ◌*◌, ◌≤◌, ◌<◌, ◌≡◌, refl, List, [], ◌∷◌, arith, Option, none, some, All,
  sym,
}
use nyaux.Machine.{Mem, write, Machine, Run, ok, stop, out_of_memory}
use nyaux.Machine.Chain.{write_ne}
use nyaux.Pmm.Stack.{alloc_nil}
use nyaux.Slab.{cache, obj_amount, make_slab, scan, grow, slab_alloc}
use nyaux.Slab.Objects.{objects, amount_pos, amount_fits, pred_mul}
use nyaux.Slab.Layout.{Slab, headers, Slabs, InPage, AreApart}
use nyaux.Slab.Scan.{take_first, Outcome, first_header}
use nyaux.Slab.Abstract.{IsCache, IsCache-agree}
use nyaux.Slab.Taking.{IsSlot}
use nyaux.Slab.Extend.{append}

-- The objects of a new slab at `x` behind its first.
abbrev pub rest_of : (size x : ℕ) → List ℕ
rest_of size x = objects (obj_amount size - 1) (x + 24 + size) size

-- What `slab_alloc` is to do with the slabs and the free pages: the first free object, or the first
-- object of a new slab; `none` once there is no page left for it.
unfoldable pub allocate : ℕ → List Slab → List ℕ → Option (ℕ × List Slab × List ℕ)
allocate size bs pages = elim (take_first bs) [
  | some (o, rest) ↦ some (o, rest, pages)
  | none ↦ elim pages [ [] ↦ none | x ∷ more ↦ some (x + 24, append bs x (rest_of size x), more) ]
]

abbrev pub Allocated : Machine → ℕ → Option (ℕ × List Slab × List ℕ) → Run ℕ → Type 0
Allocated s i none r = r ≡ stop out_of_memory
Allocated s i (some (o, bs', pages')) r =
    (s' : Machine) × (r ≡ ok o s') × IsCache s' i bs' pages' × (s'.kmalloc_cache ≡ s.kmalloc_cache)

first_header_is : (m : Mem) (p : ℕ) (bs : List Slab) → Slabs m p bs → first_header bs ≡ p
first_header_is m p [] slabs = sym slabs
first_header_is m p (b ∷ bs) slabs = sym slabs.0

-- A free object is there.
pub take_state :
    (fuel i o : ℕ) (s : Machine) (bs rest : List Slab) (pages : List ℕ)
    → IsCache s i bs pages
    → Outcome s bs (some (o, rest)) (scan fuel (cache s.kmalloc_cache i).slabs s)
    → headers rest ≡ headers bs
    → AreApart rest
    → Allocated s i (some (o, rest, pages)) (slab_alloc fuel i s)
unfolding slab_alloc
take_state fuel i o s bs rest pages is (h, v, ah, there, ran, slabs) heads apart = (
  record s { mem = write s.mem (h + 16) v },
  rw ran refl,
  IsCache-agree s i bs rest pages (write s.mem (h + 16) v) is
      (λ a al. write_ne s.mem (h + 16) v a (omega (arith))) heads apart
      (rw (first_header_is s.mem _ bs is.slabs) at slabs),
  refl,
)

pub no_page :
    (fuel i : ℕ) (s : Machine) (bs : List Slab)
    → IsCache s i bs []
    → Outcome s bs none (scan fuel (cache s.kmalloc_cache i).slabs s)
    → slab_alloc fuel i s ≡ stop out_of_memory
unfolding slab_alloc grow make_slab
no_page fuel i s bs is ran = rw (ran, alloc_nil s is.holds) refl

objects-AreSlots :
    (n k a h size : ℕ)
    → a ≡ h + 24 + k * size
    → a + n * size ≤ h + 4096
    → All (IsSlot size h) (objects n a size)
objects-AreSlots zero k a h size e fits = tt
objects-AreSlots (suc n) k a h size e fits =
    ((k, e, omega arith), objects-AreSlots n (k + 1) (a + size) h size (omega arith) (omega arith))

slots_inside :
    (size h : ℕ) (objs : List ℕ) → 0 < size → All (IsSlot size h) objs → All (InPage h) objs
slots_inside size h [] pos slots = tt
slots_inside size h (o ∷ objs) pos ((k, e, top), slots) =
    ((omega arith, omega arith), slots_inside size h objs pos slots)

-- The objects of a new slab behind the first.
module _ (size x : ℕ) (pos : 8 ≤ size) (room : size ≤ 4072) where
  pub rest_of-AreSlots : All (IsSlot size x) (rest_of size x)
  rest_of-AreSlots = objects-AreSlots (obj_amount size - 1) 1 (x + 24 + size) x size (omega arith) (
      omega (
        arith,
        amount_fits size pos room,
        pred_mul (obj_amount size) size (amount_pos size pos room),
      ))

  pub rest_of-InPage : All (InPage x) (rest_of size x)
  rest_of-InPage = slots_inside size x (rest_of size x) (omega arith) rest_of-AreSlots
