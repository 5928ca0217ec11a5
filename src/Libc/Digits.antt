-- ===== src/Libc/Digits.antt =====
-- The number printers of kernel/src/main.c: `ilog10` and `itoa`, and `ilog16` and `itoah`, which the
-- source writes again for base 16. The base is a parameter here.
use nyaux.Base.{
  ℕ, zero, suc, ◌+◌, ◌-◌, ◌/◌, ◌%◌, ◌^◌, ◌≤◌, ◌<◌, ◌≡◌, ◌⊎◌, arith, ltb, ◌==◌, if◌then◌else◌, refl,
  ◌∙◌, ap, sym, Option, some, none, inl, inr, Bool-cases, ne→==,
}
use mathlib.Core.Path.{subst}
use nyaux.Machine.{Mem, write}
use nyaux.Machine.Chain.{write_ne}

-- `while (number) { number /= 10; x++; }`
pub count_digits : (base fuel x number : ℕ) → Option ℕ
count_digits base zero x number = none
count_digits base (suc fuel) x number =
    let rest = count_digits base fuel (x + 1) (number / base) in
    if number == 0 then some x else rest

-- `ilog10` for base 10 and `ilog16` for base 16
pub ilog : (base fuel number : ℕ) → Option ℕ
ilog base fuel number =
    let count : Option ℕ = elim (count_digits base fuel 0 number) [
      | some x ↦ some (x - 1)
      | none ↦ none
    ] in
    if number == 0 then some 0 else count

-- `digits[]` and `digitsh[]`, in ASCII
abbrev pub digit_char : ℕ → ℕ
digit_char d = if ltb d 10 then 48 + d else 55 + d

-- The loop of `itoa`, `n` rounds of it from round `i` on.
pub write_digits : (n i base digitcnt buffer number : ℕ) → Mem → Mem
write_digits zero i base digitcnt buffer number m = m
write_digits (suc n) i base digitcnt buffer number m =
    write_digits n (i + 1) base digitcnt buffer (number / base)
      (write m (buffer + (digitcnt - i)) (digit_char (number % base)))

-- `itoa` for base 10 and `itoah` for base 16, with the memory that it leaves.
pub itoa : (base fuel buffer number : ℕ) → Mem → Option Mem
itoa base fuel buffer number m =
    let digits : Option Mem = elim (ilog base fuel number) [
      | some digitcnt ↦ some (
          write (write_digits (digitcnt + 1) 0 base digitcnt buffer number m)
            (buffer + (digitcnt + 1)) 0)
      | none ↦ none
    ] in
    if number == 0 then some (write (write m buffer 48) (buffer + 1) 0) else digits

-- The digit of weight 10 to the `k`.
pub digit : ℕ → ℕ → ℕ
digit zero number = number % 10
digit (suc k) number = digit k (number / 10)

-- `c` digits are what a number needs, none for 0.
abbrev IsCount : ℕ → ℕ → Type 0
IsCount number c =
    (number < 10 ^ c) × (((number ≡ 0) × (c ≡ 0)) ⊎ ((p : ℕ) × (c ≡ suc p) × (10 ^ p ≤ number)))

IsCount-suc : (number c : ℕ) → 0 < number → IsCount (number / 10) c → IsCount number (suc c)
IsCount-suc number c pos (low, inl (z, c0)) =
    (omega arith, inr (c, refl, subst (λ t. 10 ^ t ≤ number) (sym c0) (omega arith)))
IsCount-suc number c pos (low, inr (p, e, high)) =
    (omega arith, inr (c, refl, subst (λ t. 10 ^ t ≤ number) (sym e) (omega arith)))

digit_zero : (k number : ℕ) → k ≤ 0 → number ≡ 0 → digit k number ≡ 0
unfolding digit
digit_zero zero number le z = omega arith
digit_zero (suc k) number le z = absurd (omega arith)

count_digits_lem :
    (fuel x number f : ℕ)
    → number < 10 ^ f
    → f < fuel
    → (c : ℕ) × (count_digits 10 fuel x number ≡ some (x + c)) × IsCount number c
unfolding count_digits
count_digits_lem zero x number f small enough = absurd (omega arith)
count_digits_lem (suc fuel) x number zero small enough =
    (0, ground arith, (ground arith, inl (ground arith, refl)))
count_digits_lem (suc fuel) x number (suc f) small enough =
    let (c, e, is) = count_digits_lem fuel (x + 1) (number / 10) f (omega arith) (omega arith) in
    elim (Bool-cases (number == 0)) [
      | inl none_left ↦ (0, ground arith, (ground arith, inl (ground arith, refl)))
      | inr left ↦ (suc c, ground arith, IsCount-suc number c (ground arith) is)
    ]

write_digits-outside :
    (n i buffer number : ℕ) (m : Mem) (digitcnt : ℕ)
    → digitcnt + 1 ≡ n + i
    → (a : ℕ) → (a < buffer) ⊎ (buffer + n ≤ a)
    → write_digits n i 10 digitcnt buffer number m a ≡ m a
unfolding write_digits
write_digits-outside zero i buffer number m digitcnt e a out = refl
write_digits-outside (suc n) i buffer number m digitcnt e a out =
    write_digits-outside n (i + 1) buffer (number / 10)
      (write m (buffer + (digitcnt - i)) (digit_char (number % 10))) digitcnt (omega arith) a
      (ground arith)
    ∙ ground arith

write_digits_lem :
    (n i buffer number : ℕ) (m : Mem) (digitcnt : ℕ)
    → digitcnt + 1 ≡ n + i
    → (k : ℕ) → k < n
    → write_digits n i 10 digitcnt buffer number m (buffer + (n - 1 - k))
      ≡ digit_char (digit k number)
unfolding write_digits digit
write_digits_lem zero i buffer number m digitcnt e k lt = absurd (omega arith)
write_digits_lem (suc n) i buffer number m digitcnt e zero lt =
    ap
      (write_digits n (i + 1) 10 digitcnt buffer (number / 10)
        (write m (buffer + (digitcnt - i)) (digit_char (number % 10))))
      (omega arith)
    ∙ write_digits-outside n (i + 1) buffer (number / 10)
        (write m (buffer + (digitcnt - i)) (digit_char (number % 10))) digitcnt (omega arith)
        (buffer + n) (inr (omega arith))
    ∙ ground arith
write_digits_lem (suc n) i buffer number m digitcnt e (suc k) lt =
    ap
      (write_digits n (i + 1) 10 digitcnt buffer (number / 10)
        (write m (buffer + (digitcnt - i)) (digit_char (number % 10))))
      (omega arith)
    ∙ write_digits_lem n (i + 1) buffer (number / 10)
        (write m (buffer + (digitcnt - i)) (digit_char (number % 10))) digitcnt (omega arith) k
        (omega arith)

pub ilog_lem :
    (number : ℕ)
    → 0 < number
    → number < 2 ^ 64
    → (p : ℕ) × (ilog 10 21 number ≡ some p) × (10 ^ p ≤ number) × (number < 10 ^ (p + 1))
unfolding ilog
ilog_lem number pos small =
    let (c, e, (low, which)) = count_digits_lem 21 0 number 20 (omega arith) (omega arith) in
    elim which [
      | inl (z, c0) ↦ absurd (omega arith)
      | inr (p, ep, high) ↦ (
        p,
        rw (ne→== number 0 (λ z. absurd (omega arith)), e, ep) (ap some (omega arith)),
        high,
        subst (λ t. number < 10 ^ t) (ep ∙ omega arith) low,
      )
    ]

-- `itoa` ends for every 64-bit number. It writes the decimal digits with the highest first, as many
-- as the number needs, then a NUL, and no other byte.
pub itoa_lem :
    (buffer number : ℕ) (m : Mem)
    → number < 2 ^ 64
    → (c : ℕ) × (m' : Mem) × (itoa 10 21 buffer number m ≡ some m')
      × (number < 10 ^ (c + 1))
      × ((number ≡ 0) × (c ≡ 0) ⊎ (10 ^ c ≤ number))
      × ((k : ℕ) → k ≤ c → m' (buffer + (c - k)) ≡ digit_char (digit k number))
      × (m' (buffer + (c + 1)) ≡ 0)
      × ((a : ℕ) → (a < buffer) ⊎ (buffer + (c + 1) < a) → m' a ≡ m a)
unfolding itoa digit
itoa_lem buffer number m small = elim (Bool-cases (number == 0)) [
  | inl zero_number ↦ (
    0,
    write (write m buffer 48) (buffer + 1) 0,
    ground arith,
    ground arith,
    inl (ground arith, refl),
    (λ k le.
        ap (write (write m buffer 48) (buffer + 1) 0) {y = buffer} (omega arith)
        ∙ (ground arith ∙ sym (ap digit_char (digit_zero k number le (ground arith))))),
    ground arith,
    λ a out. ground arith,
  )
  | inr pos ↦
      let (p, e, low, high) = ilog_lem number (ground arith) small in
      (
        p,
        write (write_digits (p + 1) 0 10 p buffer number m) (buffer + (p + 1)) 0,
        rw (pos, e) refl,
        high,
        inr low,
        (λ k le.
            write_ne (write_digits (p + 1) 0 10 p buffer number m) (buffer + (p + 1)) 0
              (buffer + (p - k)) (omega arith)
            ∙ ap (write_digits (p + 1) 0 10 p buffer number m) (omega arith)
            ∙ write_digits_lem (p + 1) 0 buffer number m p (omega arith) k (omega arith)),
        ground arith,
        λ a out.
            write_ne (write_digits (p + 1) 0 10 p buffer number m) (buffer + (p + 1)) 0 a
              (omega arith)
            ∙ write_digits-outside (p + 1) 0 buffer number m p (omega arith) a (omega arith),
      )
]
