-- ===== src/Libc/Memory.antt =====
-- What `memmove` and `memcmp` of kernel/src/main.c do.
use nyaux.Base.{
  ℕ, zero, suc, ◌+◌, ◌-◌, ◌%◌, ◌≤◌, ◌<◌, ◌≡◌, ◌⊎◌, arith, leb, ltb, if◌then◌else◌, ◌&&◌, inl, inr,
  ◌∙◌, Bool-cases,
}
use nyaux.Machine.{Mem, write}
use nyaux.Libc.{copy_up, copy_down, memmove, memcpy, memset, set_up}

copy_up_lem :
    (n i dest src : ℕ) (m : Mem)
    → (dest ≤ src) ⊎ (src + i + n ≤ dest)
    → (a : ℕ)
    → copy_up n i dest src m a
      ≡ (if leb (dest + i) a && ltb a (dest + i + n) then m (src + (a - dest)) else m a)
unfolding copy_up
copy_up_lem zero i dest src m le a = ground arith
copy_up_lem (suc n) i dest src m le a =
    copy_up_lem n (i + 1) dest src (write m (dest + i) (m (src + i))) (ground arith) a
    ∙ ground arith

copy_down_lem :
    (i dest src : ℕ) (m : Mem)
    → src ≤ dest
    → (a : ℕ)
    → copy_down i dest src m a
      ≡ (if leb dest a && ltb a (dest + i) then m (src + (a - dest)) else m a)
unfolding copy_down
copy_down_lem zero dest src m le a = ground arith
copy_down_lem (suc i) dest src m le a =
    copy_down_lem i dest src (write m (dest + i) (m (src + i))) le a ∙ ground arith

memmove_all :
    (m : Mem) (dest src n a : ℕ)
    → memmove m dest src n a
      ≡ (if leb dest a && ltb a (dest + n) then m (src + (a - dest)) else m a)
unfolding memmove
memmove_all m dest src n a = elim (Bool-cases (ltb dest src)) [
  | inl up ↦ ground (arith, copy_up_lem n 0 dest src m (inl (ground arith)) a)
  | inr not_up ↦ elim (Bool-cases (ltb src dest)) [
    | inl down ↦ ground (arith, copy_down_lem n dest src m (ground arith) a)
    | inr same ↦ ground arith
  ]
]

-- `memcpy` between areas that are apart, or downwards.
pub memcpy_lem :
    (m : Mem) (dest src n a : ℕ)
    → (dest ≤ src) ⊎ (src + n ≤ dest)
    → memcpy m dest src n a ≡ (if leb dest a && ltb a (dest + n) then m (src + (a - dest)) else m a)
unfolding memcpy
memcpy_lem m dest src n a apart = ground (arith, copy_up_lem n 0 dest src m (ground arith) a)

pub memcpy_in :
    (m : Mem) (dest src n i : ℕ)
    → (dest ≤ src) ⊎ (src + n ≤ dest)
    → i < n
    → memcpy m dest src n (dest + i) ≡ m (src + i)
memcpy_in m dest src n i apart low = ground (arith, memcpy_lem m dest src n (dest + i) apart)

pub memcpy_out :
    (m : Mem) (dest src n a : ℕ)
    → (dest ≤ src) ⊎ (src + n ≤ dest)
    → (a < dest) ⊎ (dest + n ≤ a)
    → memcpy m dest src n a ≡ m a
memcpy_out m dest src n a apart out = ground (arith, memcpy_lem m dest src n a apart)

set_up_lem :
    (n i s c : ℕ) (m : Mem) (a : ℕ)
    → set_up n i s c m a ≡ (if leb (s + i) a && ltb a (s + i + n) then c % 256 else m a)
unfolding set_up
set_up_lem zero i s c m a = ground arith
set_up_lem (suc n) i s c m a = set_up_lem n (i + 1) s c (write m (s + i) (c % 256)) a ∙ ground arith

pub memset_lem :
    (m : Mem) (s c n a : ℕ) → memset m s c n a ≡ (if leb s a && ltb a (s + n) then c % 256 else m a)
unfolding memset
memset_lem m s c n a = ground (arith, set_up_lem n 0 s c m a)

-- `memmove` leaves in the `n` bytes at `dest` what was in those at `src`, however the two overlap,
-- and changes no other byte.
pub memmove_lem :
    (m : Mem) (dest src n a : ℕ)
    → ((dest ≤ a) → (a < dest + n) → memmove m dest src n a ≡ m (src + (a - dest)))
      × (((a < dest) ⊎ (dest + n ≤ a)) → memmove m dest src n a ≡ m a)
memmove_lem m dest src n a = (
  (λ low high. ground (arith, memmove_all m dest src n a)),
  λ out. ground (arith, memmove_all m dest src n a),
)
