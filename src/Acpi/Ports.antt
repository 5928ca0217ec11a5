-- ===== src/Acpi/Ports.antt =====
-- Accesses to ports for the ACPI interpreter in kernel/src/ACPI/uacpi.c.
use nyaux.Base.{
  ℕ, ◌*◌, ◌%◌, ◌^◌, ◌<◌, ◌≡◌, ◌≢◌, ◌⊎◌, inl, inr, Bool, true, false, ◌||◌, ◌&&◌, not, Option, none,
  some, arith, refl, ap, ◌==◌, leb, ltb, ==→ne, ==_iff, Bool-cases, if◌then◌else◌, ltb→le,
}
use nyaux.Word.{add64}
use nyaux.Acpi.{
  Status, ok, invalid_argument, count_zeros, is_power2, Access, reads, writes,
  uacpi_kernel_raw_io_read, uacpi_kernel_raw_io_write, IoRange, uacpi_kernel_io_read,
  uacpi_kernel_io_write,
}

-- The widths of ports.
abbrev pub is_port_width : ℕ → Bool
is_port_width w = (w == 1) || (w == 2) || (w == 4)

-- An access that is done, or refused.
abbrev pub if_allowed : Bool → Access → Status × Option Access
if_allowed allowed access = if allowed then (ok, some access) else (invalid_argument, none)

-- The numbers up to 8 that have more than one bit.
more_bits : (w : ℕ) → w < 9 → w ≢ 0 → w ≢ 1 → w ≢ 2 → w ≢ 4 → w ≢ 8 → is_power2 w ≡ false
unfolding is_power2 count_zeros
more_bits w small n0 n1 n2 n4 n8 = elim (Bool-cases (w == 3)) [
  | inl e ↦ rw ((==_iff w 3).0 e) refl
  | inr n3 ↦ elim (Bool-cases (w == 5)) [
    | inl e ↦ rw ((==_iff w 5).0 e) refl
    | inr n5 ↦ elim (Bool-cases (w == 6)) [
      | inl e ↦ rw ((==_iff w 6).0 e) refl
      | inr n6 ↦
          (let e : w ≡ 7 =
              omega (arith, ==→ne w 3 n3, ==→ne w 5 n5, ==→ne w 6 n6, n0, n1, n2, n4, n8, small) in
            rw e refl)
    ]
  ]
]

-- The five ways that a width is treated.
data Width (w : ℕ) : Type 0 where
  one : w ≡ 1 → Width w
  two : w ≡ 2 → Width w
  four : w ≡ 4 → Width w
  eight : w ≡ 8 → Width w
  bad :
      (w == 1) ≡ false
      → (w == 2) ≡ false
      → (w == 4) ≡ false
      → (not (is_power2 w) ≡ true) ⊎ ((not (is_power2 w) ≡ false) × (ltb 8 w ≡ true))
      → Width w

width_bad :
    (w : ℕ)
    → w ≢ 0
    → w ≢ 1
    → w ≢ 2
    → w ≢ 4
    → w ≢ 8
    → (not (is_power2 w) ≡ true) ⊎ ((not (is_power2 w) ≡ false) × (ltb 8 w ≡ true))
width_bad w n0 n1 n2 n4 n8 = elim (Bool-cases (ltb 8 w)) [
  | inr small ↦ inl (ap not (more_bits w (omega (arith, ltb→le 8 w small, n8)) n0 n1 n2 n4 n8))
  | inl big ↦ elim (Bool-cases (not (is_power2 w))) [
    | inl refused ↦ inl refused
    | inr power ↦ inr (power, big)
  ]
]

width : (w : ℕ) → w ≢ 0 → Width w
width w n0 = elim (Bool-cases (w == 1)) [
  | inl e ↦ one ((==_iff w 1).0 e)
  | inr n1 ↦ elim (Bool-cases (w == 2)) [
    | inl e ↦ two ((==_iff w 2).0 e)
    | inr n2 ↦ elim (Bool-cases (w == 4)) [
      | inl e ↦ four ((==_iff w 4).0 e)
      | inr n4 ↦ elim (Bool-cases (w == 8)) [
        | inl e ↦ eight ((==_iff w 8).0 e)
        | inr n8 ↦
            bad n1 n2 n4
              (width_bad w n0 (==→ne w 1 n1) (==→ne w 2 n2) (==→ne w 4 n4) (==→ne w 8 n8))
      ]
    ]
  ]
]

raw_read :
    (a w : ℕ)
    → Width w
    → uacpi_kernel_raw_io_read a w ≡ if_allowed (is_port_width w) (reads (a % 2 ^ 16) w)
unfolding uacpi_kernel_raw_io_read is_power2 count_zeros
raw_read a w (one e) = rw e refl
raw_read a w (two e) = rw e refl
raw_read a w (four e) = rw e refl
raw_read a w (eight e) = rw e refl
raw_read a w (bad n1 n2 n4 (inl refused)) = rw (refused, n1, n2, n4) refl
raw_read a w (bad n1 n2 n4 (inr (power, big))) = rw (power, big, n1, n2, n4) refl

-- The value that a port of `w` bytes gets.
raw_write_lem :
    (a w v : ℕ)
    → Width w
    → uacpi_kernel_raw_io_write a w v
      ≡ if_allowed (is_port_width w) (writes (a % 2 ^ 16) w (v % 2 ^ (8 * w)))
unfolding uacpi_kernel_raw_io_write is_power2 count_zeros
raw_write_lem a w v (one e) = rw e refl
raw_write_lem a w v (two e) = rw e refl
raw_write_lem a w v (four e) = rw e refl
raw_write_lem a w v (eight e) = rw e refl
raw_write_lem a w v (bad n1 n2 n4 (inl refused)) = rw (refused, n1, n2, n4) refl
raw_write_lem a w v (bad n1 n2 n4 (inr (power, big))) = rw (power, big, n1, n2, n4) refl

-- A port in a range is read or written exactly if the first byte of the access is inside the range, which may end
-- before the last byte, and the width is 1, 2 or 4 bytes: then the status is OK and the one access goes to the
-- base plus the offset. If the offset is outside or the width is another, the call is refused and no port is
-- touched. The width is not 0.
pub uacpi_kernel_io_lem :
    (rng : IoRange) (offset w v : ℕ)
    → w ≢ 0
    → (uacpi_kernel_io_read rng offset w
        ≡ if_allowed
            (not (leb rng.len offset) && is_port_width w)
            (reads (add64 rng.base offset % 2 ^ 16) w))
      × (uacpi_kernel_io_write rng offset w v
          ≡ if_allowed
              (not (leb rng.len offset) && is_port_width w)
              (writes (add64 rng.base offset % 2 ^ 16) w (v % 2 ^ (8 * w))))
unfolding uacpi_kernel_io_read uacpi_kernel_io_write
uacpi_kernel_io_lem rng offset w v n0 = elim (Bool-cases (leb rng.len offset)) [
  | inl beyond ↦ rw beyond (refl, refl)
  | inr inside ↦ rw inside (
    raw_read (add64 rng.base offset) w (width w n0),
    raw_write_lem (add64 rng.base offset) w v (width w n0),
  )
]
