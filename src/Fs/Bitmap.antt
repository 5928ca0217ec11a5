-- ===== src/Fs/Bitmap.antt =====
-- The descriptor bitmap of kernel/src/fs/vfs.c.
use nyaux.Base.{
  ℕ, zero, suc, ◌+◌, ◌≤◌, ◌<◌, ◌≡◌, ◌≢◌, arith, ◌==◌, inl, inr, refl, ◌∙◌, ap, Bool-cases, ==_iff,
  ne→==, Option, some, none,
}
use nyaux.Machine.{write}
use nyaux.Fs.{first_free, reserve_std, take_fd, allocate_fd_from_bitmap, deallocate_fd_from_bitmap}

-- `r` is the first clear byte of `n` from `i` on, or none as all are set.
abbrev IsFirst : (n i : ℕ) → (ℕ → ℕ) → Option ℕ → Type 0
IsFirst n i bitmap none = (k : ℕ) → i ≤ k → k < i + n → bitmap k ≢ 0
IsFirst n i bitmap (some fd) =
    (i ≤ fd) × (fd < i + n) × (bitmap fd ≡ 0) × ((k : ℕ) → i ≤ k → k < fd → bitmap k ≢ 0)

clear_later :
    (i k : ℕ) (bitmap : ℕ → ℕ) → bitmap i ≢ 0 → (i + 1 ≤ k → bitmap k ≢ 0) → i ≤ k → bitmap k ≢ 0
clear_later i k bitmap set_here later low z = elim (Bool-cases (k == i)) [
  | inl same ↦ set_here (ap bitmap (ground arith) ∙ z)
  | inr other ↦ later (ground arith) z
]

IsFirst-skip :
    (n i : ℕ) (bitmap : ℕ → ℕ) (o : Option ℕ)
    → bitmap i ≢ 0
    → IsFirst n (i + 1) bitmap o
    → IsFirst (suc n) i bitmap o
IsFirst-skip n i bitmap none set_here is =
    λ k low high. clear_later i k bitmap set_here (λ l. is k l (omega arith)) low
IsFirst-skip n i bitmap (some fd) set_here (low, high, clear, before) = (
  omega arith,
  omega arith,
  clear,
  λ k l h. clear_later i k bitmap set_here (λ l1. before k l1 h) l,
)

first_free_lem : (n i : ℕ) (bitmap : ℕ → ℕ) → IsFirst n i bitmap (first_free n i bitmap)
unfolding first_free
first_free_lem zero i bitmap = λ k low high. absurd (omega arith)
first_free_lem (suc n) i bitmap = elim (Bool-cases (bitmap i == 0)) [
  | inl clear ↦
      rw clear (omega arith, omega arith, ground arith, λ k low high. absurd (omega arith))
  | inr set_here ↦ rw set_here (
      IsFirst-skip n i bitmap (first_free n (i + 1) bitmap) (ground arith)
        (first_free_lem n (i + 1) bitmap))
]

-- What an allocation in a table of `size` descriptors leaves.
abbrev pub Allocated : (ℕ → ℕ) → (size : ℕ) → Option (ℕ × (ℕ → ℕ)) → Type 0
Allocated bitmap size none = (k : ℕ) → k < size → reserve_std bitmap k ≢ 0
Allocated bitmap size (some (fd, after)) =
    (fd < size)
    × (reserve_std bitmap fd ≡ 0)
    × ((k : ℕ) → k < fd → reserve_std bitmap k ≢ 0)
    × (after fd ≡ 1)
    × ((k : ℕ) → k ≢ fd → after k ≡ reserve_std bitmap k)

Allocated-take_fd :
    (bitmap : ℕ → ℕ) (size : ℕ) (o : Option ℕ)
    → IsFirst size 0 (reserve_std bitmap) o
    → Allocated bitmap size (take_fd (reserve_std bitmap) o)
Allocated-take_fd bitmap size none is = λ k low. is k (omega arith) (omega arith)
Allocated-take_fd bitmap size (some fd) (low, high, clear, before) =
    (omega arith, clear, (λ k l. before k (omega arith) l), ground arith, λ k ne. ground arith)

-- An allocation gives the lowest descriptor below `size` that is clear once the first two are
-- reserved, sets it and no other, and fails only if none is clear.
pub allocate_fd_from_bitmap_lem :
    (bitmap : ℕ → ℕ) (size : ℕ) → Allocated bitmap size (allocate_fd_from_bitmap bitmap size)
unfolding allocate_fd_from_bitmap
allocate_fd_from_bitmap_lem bitmap size =
    Allocated-take_fd bitmap size (first_free size 0 (reserve_std bitmap))
      (first_free_lem size 0 (reserve_std bitmap))

first_is :
    (n i : ℕ) (bitmap : ℕ → ℕ) (fd : ℕ)
    → i ≤ fd
    → fd < i + n
    → bitmap fd ≡ 0
    → ((k : ℕ) → k < fd → bitmap k ≢ 0)
    → first_free n i bitmap ≡ some fd
unfolding first_free
first_is zero i bitmap fd low high clear below = absurd (omega arith)
first_is (suc n) i bitmap fd low high clear below = elim (Bool-cases (i == fd)) [
  | inl here ↦
      rw ((==_iff (bitmap i) 0).1 (ap bitmap (ground arith) ∙ clear)) (ap some (ground arith))
  | inr later ↦
      rw (ne→== (bitmap i) 0 (below i (ground arith)))
        (first_is n (i + 1) bitmap fd (ground arith) (ground arith) clear below)
]

reserve_std-taken : (bitmap : ℕ → ℕ) → bitmap 0 ≢ 0 → reserve_std bitmap ≡ bitmap
reserve_std-taken bitmap taken = rw (ne→== (bitmap 0) 0 taken) refl

allocate_first :
    (bitmap : ℕ → ℕ) (size fd : ℕ)
    → bitmap 0 ≢ 0
    → fd < size
    → bitmap fd ≡ 0
    → ((k : ℕ) → k < fd → bitmap k ≢ 0)
    → allocate_fd_from_bitmap bitmap size ≡ some (fd, write bitmap fd 1)
unfolding allocate_fd_from_bitmap
allocate_first bitmap size fd taken low clear below =
    ap (λ (b : ℕ → ℕ). take_fd b (first_free size 0 b)) (reserve_std-taken bitmap taken)
    ∙ ap (take_fd bitmap) (first_is size 0 bitmap fd (omega arith) (omega arith) clear below)

-- A descriptor that was closed is the next to be given out, if all below it are taken and so are the
-- first two.
pub allocate-deallocate :
    (bitmap : ℕ → ℕ) (size fd : ℕ)
    → 1 < fd
    → fd < size
    → bitmap fd ≡ 1
    → ((k : ℕ) → k < fd → bitmap k ≢ 0)
    → (after : ℕ → ℕ) × (allocate_fd_from_bitmap (deallocate_fd_from_bitmap bitmap fd).1 size
        ≡ some (fd, after))
      × ((k : ℕ) → after k ≡ bitmap k)
unfolding deallocate_fd_from_bitmap
allocate-deallocate bitmap size fd user low taken below = (
  write (write bitmap fd 0) fd 1,
  rw ((==_iff (bitmap fd) 1).1 taken) (
      allocate_first (write bitmap fd 0) size fd (λ z. below 0 (omega arith) (ground arith)) low
        (ground arith) (λ k l z. below k l (ground arith))),
  λ k. ground arith,
)
