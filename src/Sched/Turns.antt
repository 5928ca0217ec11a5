-- ===== src/Sched/Turns.antt =====
-- The turn of each thread in the queue of kernel/src/sched/sched.c.
use nyaux.Base.{
  ℕ, zero, suc, ◌+◌, ◌-◌, ◌≤◌, ◌<◌, ◌≡◌, arith, some, true, false, ◌==◌, ltb, refl, ap, ◌∙◌, ne→==,
  ==_iff, Bool-cases, inl, inr,
}
use nyaux.Sched.{Cpu}
use nyaux.Sched.Rounds.{IsQueue, switches, place, switches_lem}

place_up : (n len i : ℕ) → i + n < len → place len n i ≡ i + n
unfolding place
place_up zero len i low = omega arith
place_up (suc n) len i low =
    let more : ((i + 1) == len) ≡ false = ne→== (i + 1) len (omega arith) in
    rw more (place_up n len (i + 1) (omega arith) ∙ omega arith)

-- Past the last place the count goes on from the first.
place_round : (k len i j n : ℕ) → i + k + 1 ≡ len → j < len → n ≡ k + 1 + j → place len n i ≡ j
unfolding place
place_round k len i j zero e low d = absurd (omega arith)
place_round zero len i j (suc n) e low d =
    let last : ((i + 1) == len) ≡ true = (==_iff (i + 1) len).1 (omega arith) in
    rw last (place_up n len 0 (omega arith) ∙ omega arith)
place_round (suc k) len i j (suc n) e low d =
    let more : ((i + 1) == len) ≡ false = ne→== (i + 1) len (omega arith) in
    rw more (place_round k len (i + 1) j n (omega arith) low (omega arith))

-- From place `i` every place `j` is at most `len` places on.
place_reaches :
    (len i j : ℕ) → i < len → j < len → (n : ℕ) × (0 < n) × (n ≤ len) × (place len n i ≡ j)
place_reaches len i j low low' = elim (Bool-cases (ltb i j)) [
  | inl ahead ↦
      (j - i, ground arith, omega arith, place_up (j - i) len i (ground arith) ∙ ground arith)
  | inr behind ↦ (
    (len - 1 - i) + 1 + j,
    omega arith,
    ground arith,
    place_round (len - 1 - i) len i j _ (omega arith) low' refl,
  )
]

-- Every thread of the queue gets its turn: from whichever thread is current, each thread of the
-- queue, also the current one again, is current after at least one and at most as many timer
-- interrupts as the queue has threads.
pub switches_reach :
    (s : Cpu) (ts : ℕ → ℕ) (len i j : ℕ)
    → IsQueue s ts len
    → s.current_thread ≡ some (ts i)
    → i < len
    → j < len
    → (n : ℕ) × (0 < n) × (n ≤ len) × ((switches n s).current_thread ≡ some (ts j))
switches_reach s ts len i j queue current low low' =
    let (n, some_rounds, at_most, there) = place_reaches len i j low low' in
    (
      n,
      some_rounds,
      at_most,
      (switches_lem n s ts len i queue current low).0 ∙ ap (λ (k : ℕ). some (ts k)) there,
    )
