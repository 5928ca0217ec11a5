-- ===== src/Apic/Timer/Sleep.antt =====
-- `ksleep` of kernel/src/drivers/apic.c waits long enough, and ends.
use native.Mathlib.Nat.{mul-le-mul_left, mul-le-mul_right}
use nyaux.Base.{
  ℕ, zero, suc, ◌+◌, ◌-◌, ◌*◌, ◌≤◌, ◌<◌, ◌≡◌, ◌==◌, Option, some, arith, ltb, Bool-cases, inl, inr,
  refl,
}
use nyaux.Word.{word_mod, sub64, mul64}
use nyaux.Apic.Timer.{poll, ksleep}

-- A counter that goes up between two reads, and whose time in nanoseconds does not wrap up to read `top`.
pub record Counts (counter : ℕ → ℕ) (per_tick top : ℕ) : Type 0 where
  pub ticks : 0 < per_tick
  pub advances : (n : ℕ) → counter n < counter (n + 1)
  pub no_wrap : (n : ℕ) → n ≤ top → counter n * per_tick < word_mod

-- How many nanoseconds have passed at read `n`.
abbrev pub elapsed : (ℕ → ℕ) → (per_tick n : ℕ) → ℕ
elapsed counter per_tick n = (counter n - counter 0) * per_tick

module _ (counter : ℕ → ℕ) (per_tick top : ℕ) (c : Counts counter per_tick top) where
  grows : (n : ℕ) → counter 0 + n ≤ counter n
  grows zero = omega arith
  grows (suc n) = let e : suc n ≡ n + 1 = omega arith in rw e (omega (arith, grows n, c.advances n))

  measured :
      (n : ℕ)
      → n ≤ top
      → mul64 (sub64 (counter n) (counter 0)) per_tick ≡ elapsed counter per_tick n
  measured n low =
      let fits = c.no_wrap n low in
      let one = mul-le-mul_left (counter n) c.ticks in
      let part : counter n - counter 0 ≤ counter n = omega arith in
      let less = mul-le-mul_right per_tick part in
      let since : sub64 (counter n) (counter 0) ≡ counter n - counter 0 =
        omega (arith, grows n, fits, one) in
      rw since (omega (arith, fits, less))

  at_least : (n : ℕ) → n ≤ elapsed counter per_tick n
  at_least n =
      let many : n ≤ counter n - counter 0 = omega (arith, grows n) in
      omega (arith, many, mul-le-mul_left (counter n - counter 0) c.ticks)

  -- From read `n` on, with all earlier reads too early.
  abbrev Waits : (ms n : ℕ) → Option ℕ → Type 0
  Waits ms n r =
      (k : ℕ) × (r ≡ some k)
      × (n ≤ k)
      × (k ≤ top)
      × (ms * 1000000 ≤ elapsed counter per_tick k)
      × ((j : ℕ) → n ≤ j → j < k → elapsed counter per_tick j < ms * 1000000)

  poll-Waits :
      (fuel n ms : ℕ)
      → ms * 1000000 ≤ top
      → top < word_mod
      → n ≤ top
      → top < n + fuel
      → Waits ms n (poll counter fuel n (counter 0) per_tick ms)
  unfolding poll
  poll-Waits zero n ms enough small low fuel_enough = absurd (omega arith)
  poll-Waits (suc fuel) n ms enough small low fuel_enough =
      let time : mul64 ms 1000000 ≡ ms * 1000000 = omega (arith, enough, small) in
      let now = measured n low in
      elim (Bool-cases (ltb (elapsed counter per_tick n) (ms * 1000000))) [
        | inl early ↦
            (let (k, e, from, to, long, before) =
                poll-Waits fuel (n + 1) ms enough small (ground (arith, at_least n))
                  (omega arith) in
              rw (now, time, early)
                (
                  k,
                  e,
                  omega (arith, from),
                  to,
                  long,
                  λ j high lt. elim (Bool-cases (j == n)) [
                    | inl same ↦ ground arith
                    | inr later ↦ before j (ground arith) lt
                  ],
                ))
        | inr late ↦
            rw (now, time, late)
              (n, refl, omega arith, low, ground arith, λ j high lt. absurd (omega arith))
      ]

-- `ksleep` ends, and not too early: it returns at the first read of the counter at which so many milliseconds have
-- passed. The counter is one that goes up between two reads and whose time does not wrap for as many reads
-- as nanoseconds are waited for; one round more than these is enough.
pub ksleep_lem :
    (counter : ℕ → ℕ) (fuel per_tick ms : ℕ)
    → Counts counter per_tick (ms * 1000000 + 1)
    → ms * 1000000 + 1 < fuel
    → ms * 1000000 + 1 < word_mod
    → (k : ℕ) × (ksleep counter fuel per_tick ms ≡ some k)
      × (k ≤ ms * 1000000 + 1)
      × (ms * 1000000 ≤ elapsed counter per_tick k)
      × ((j : ℕ) → 1 ≤ j → j < k → elapsed counter per_tick j < ms * 1000000)
unfolding ksleep
ksleep_lem counter fuel per_tick ms c enough small =
    let (k, e, from, to, long, before) =
      poll-Waits counter per_tick (ms * 1000000 + 1) c fuel 1 ms (omega arith) small (omega arith)
        (omega arith) in
    (k, e, to, long, before)
