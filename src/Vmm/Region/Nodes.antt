-- ===== src/Vmm/Region/Nodes.antt =====
-- Lists of regions in memory.
use nyaux.Base.{ℕ, ◌+◌, ◌≤◌, ◌<◌, ◌≡◌, ◌≢◌, ◌⊎◌, sym, List, [], ◌∷◌, arith, All}
use nyaux.Machine.{Mem, write}
use nyaux.Machine.Chain.{write_ne}

-- A `struct vmm_region` with the address at which it stands.
pub record RegionAt : Type 0 where
  pub addr : ℕ
  pub base : ℕ
  pub length : ℕ

-- From `p` the regions follow one another to NULL.
abbrev pub Regions : Mem → ℕ → List RegionAt → Type 0
Regions m p [] = p ≡ 0
Regions m p (r ∷ rs) =
    (p ≡ r.addr)
    × (r.addr ≢ 0)
    × (m r.addr ≡ r.base)
    × (m (r.addr + 8) ≡ r.length)
    × Regions m (m (r.addr + 24)) rs

-- The nodes at `a` and `b` have no byte in common.
abbrev pub NodesApart : ℕ → ℕ → Type 0
NodesApart a b = (a + 32 ≤ b) ⊎ (b + 32 ≤ a)

abbrev pub AllApart : List RegionAt → Type 0
AllApart [] = Unit
AllApart (r ∷ rs) = All (λ q. NodesApart r.addr q.addr) rs × AllApart rs

-- A write outside the fields of the nodes.
pub Regions-write :
    (m : Mem) (p a v : ℕ) (rs : List RegionAt)
    → All (λ r. (a ≢ r.addr) × (a ≢ r.addr + 8) × (a ≢ r.addr + 24)) rs
    → Regions m p rs
    → Regions (write m a v) p rs
Regions-write m p a v [] out is = is
Regions-write m p a v (r ∷ rs) ((o1, o2, o3), out) (at, ne, base, len, rest) = (
  at,
  ne,
  ground arith,
  ground arith,
  rw (write_ne m a v (r.addr + 24) (λ e. o3 (sym e)))
      (Regions-write m (m (r.addr + 24)) a v rs out rest),
)

-- An address in the node at `x` is no field of the nodes that are apart from it.
pub no_field :
    (x a : ℕ) (rs : List RegionAt)
    → x ≤ a
    → a < x + 32
    → All (λ r. NodesApart x r.addr) rs
    → All (λ r. (a ≢ r.addr) × (a ≢ r.addr + 8) × (a ≢ r.addr + 24)) rs
no_field x a [] low high apart = tt
no_field x a (r ∷ rs) low high (here, apart) = (
  ((λ e. absurd (omega arith)), (λ e. absurd (omega arith)), λ e. absurd (omega arith)),
  no_field x a rs low high apart,
)

pub no_next :
    (x k : ℕ) (rs : List RegionAt)
    → k < 32
    → All (λ r. NodesApart x r.addr) rs
    → All (λ r. x + k ≢ r.addr + 24) rs
no_next x k [] low apart = tt
no_next x k (r ∷ rs) low (here, apart) = ((λ e. absurd (omega arith)), no_next x k rs low apart)
