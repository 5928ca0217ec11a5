-- ===== src/Acpi/Widths.antt =====
-- Reads and writes of memory for the ACPI interpreter in kernel/src/ACPI/uacpi.c.
use nyaux.Base.{
  ℕ, zero, suc, ◌+◌, ◌*◌, ◌/◌, ◌%◌, ◌^◌, ◌≤◌, ◌<◌, ◌≡◌, ◌≢◌, ◌⊎◌, inl, inr, none, some, arith, refl,
  ap, ◌∙◌, ◌==◌, ne→==, ==_iff, ==→ne, Bool-cases,
}
use nyaux.Word.{add64}
use nyaux.Machine.{Mem, write}
use nyaux.Acpi.{
  ok, invalid_argument, load, store, uacpi_kernel_raw_memory_read, uacpi_kernel_raw_memory_write,
}

-- The `n` lowest bytes of a value.
abbrev low_bytes : (n value : ℕ) → ℕ
low_bytes zero value = 0
low_bytes (suc n) value = value % 256 + 256 * low_bytes n (value / 256)

store-outside :
    (n a value : ℕ) (m : Mem) (b : ℕ) → (b < a) ⊎ (a + n ≤ b) → store n a value m b ≡ m b
unfolding store
store-outside zero a value m b out = refl
store-outside (suc n) a value m b out =
    store-outside n (a + 1) (value / 256) _ b (ground arith) ∙ ground arith

load-store : (n a value : ℕ) (m : Mem) → load n a (store n a value m) ≡ low_bytes n value
unfolding load store
load-store zero a value m = refl
load-store (suc n) a value m =
    let first : store n (a + 1) (value / 256) (write m a (value % 256)) a ≡ value % 256 =
      store-outside n (a + 1) (value / 256) (write m a (value % 256)) a (inl (omega arith))
      ∙ ground arith in
    omega (arith, first, load-store n (a + 1) (value / 256) (write m a (value % 256)))

low8 : (v : ℕ) → low_bytes 8 v ≡ v % 2 ^ 64
low8 v = omega arith

low4 : (v : ℕ) → low_bytes 4 v ≡ v % 2 ^ 32
low4 v = omega arith

low_width : (w v : ℕ) → (w ≡ 1) ⊎ (w ≡ 2) ⊎ (w ≡ 4) ⊎ (w ≡ 8) → low_bytes w v ≡ v % 2 ^ (8 * w)
low_width w v (inl e) = rw e (omega arith)
low_width w v (inr (inl e)) = rw e (omega arith)
low_width w v (inr (inr (inl e))) = rw e (low4 v)
low_width w v (inr (inr (inr e))) = rw e (low8 v)

module _ (hhdm address w : ℕ) (m : Mem) where
  read_width :
      (w ≡ 1) ⊎ (w ≡ 2) ⊎ (w ≡ 4) ⊎ (w ≡ 8)
      → uacpi_kernel_raw_memory_read hhdm address w m ≡ (ok, some (load w (add64 address hhdm) m))
  unfolding uacpi_kernel_raw_memory_read
  read_width (inl e) = rw e refl
  read_width (inr (inl e)) = rw e refl
  read_width (inr (inr (inl e))) = rw e refl
  read_width (inr (inr (inr e))) = rw e refl

  write_width :
      (value : ℕ)
      → (w ≡ 1) ⊎ (w ≡ 2) ⊎ (w ≡ 4) ⊎ (w ≡ 8)
      → uacpi_kernel_raw_memory_write hhdm address w value m
        ≡ (ok, store w (add64 address hhdm) value m)
  unfolding uacpi_kernel_raw_memory_write
  write_width value (inl e) = rw e refl
  write_width value (inr (inl e)) = rw e refl
  write_width value (inr (inr (inl e))) = rw e refl
  write_width value (inr (inr (inr e))) = rw e refl

  module _ (not1 : w ≢ 1) (not2 : w ≢ 2) (not4 : w ≢ 4) (not8 : w ≢ 8) where
    read_refused : uacpi_kernel_raw_memory_read hhdm address w m ≡ (invalid_argument, none)
    unfolding uacpi_kernel_raw_memory_read
    read_refused = rw (ne→== w 1 not1, ne→== w 2 not2, ne→== w 4 not4, ne→== w 8 not8) refl

    write_refused :
        (value : ℕ) → uacpi_kernel_raw_memory_write hhdm address w value m ≡ (invalid_argument, m)
    unfolding uacpi_kernel_raw_memory_write
    write_refused value = rw (ne→== w 1 not1, ne→== w 2 not2, ne→== w 4 not4, ne→== w 8 not8) refl

-- A write of `w` bytes and a read of as many from the same address: for one of the four widths both are
-- done, for another both are refused.
pub data Written (hhdm address w value : ℕ) (m : Mem) : Type 0 where
  done :
      (m' : Mem)
      → uacpi_kernel_raw_memory_write hhdm address w value m ≡ (ok, m')
      → uacpi_kernel_raw_memory_read hhdm address w m' ≡ (ok, some (value % 2 ^ (8 * w)))
      → ((b : ℕ) → (b < add64 address hhdm) ⊎ (add64 address hhdm + w ≤ b) → m' b ≡ m b)
      → (w ≡ 1) ⊎ (w ≡ 2) ⊎ (w ≡ 4) ⊎ (w ≡ 8)
      → Written hhdm address w value m
  refused :
      uacpi_kernel_raw_memory_write hhdm address w value m ≡ (invalid_argument, m)
      → uacpi_kernel_raw_memory_read hhdm address w m ≡ (invalid_argument, none)
      → (w ≢ 1) × (w ≢ 2) × (w ≢ 4) × (w ≢ 8)
      → Written hhdm address w value m

written :
    (hhdm address w value : ℕ) (m : Mem)
    → (w ≡ 1) ⊎ (w ≡ 2) ⊎ (w ≡ 4) ⊎ (w ≡ 8)
    → Written hhdm address w value m
written hhdm address w value m is =
    let virt = add64 address hhdm in
    done (store w virt value m) (write_width hhdm address w m value is)
      (read_width hhdm address w (store w virt value m) is
        ∙ ap (λ (x : ℕ). (ok, some x)) (load-store w virt value m ∙ low_width w value is))
      (store-outside w virt value m) is

-- A write of 1, 2, 4 or 8 bytes is done and changes no other byte; a read of the same width from the
-- same address then gives the value, cut to that width. For any other width both are refused and
-- nothing changes.
pub raw_memory_read-write : (hhdm address w value : ℕ) (m : Mem) → Written hhdm address w value m
raw_memory_read-write hhdm address w value m = elim (Bool-cases (w == 1)) [
  | inl e ↦ written hhdm address w value m (inl ((==_iff w 1).0 e))
  | inr not1 ↦ elim (Bool-cases (w == 2)) [
    | inl e ↦ written hhdm address w value m (inr (inl ((==_iff w 2).0 e)))
    | inr not2 ↦ elim (Bool-cases (w == 4)) [
      | inl e ↦ written hhdm address w value m (inr (inr (inl ((==_iff w 4).0 e))))
      | inr not4 ↦ elim (Bool-cases (w == 8)) [
        | inl e ↦ written hhdm address w value m (inr (inr (inr ((==_iff w 8).0 e))))
        | inr not8 ↦
            (let (n1, n2, n4, n8) : (w ≢ 1) × (w ≢ 2) × (w ≢ 4) × (w ≢ 8) =
                (==→ne w 1 not1, ==→ne w 2 not2, ==→ne w 4 not4, ==→ne w 8 not8) in
              refused (write_refused hhdm address w m n1 n2 n4 n8 value)
                (read_refused hhdm address w m n1 n2 n4 n8) (n1, n2, n4, n8))
      ]
    ]
  ]
]
