-- ===== src/Vmm/Paging/Reach.antt =====
-- What a walk through the page tables of a memory reaches, and the conditions for it.
use mathlib.Core.Logic.{◌≢◌}
use nyaux.Base.{
  ℕ, ◌+◌, ◌%◌, ◌^◌, ◌≤◌, ◌<◌, ◌≡◌, List, [], ◌∷◌, arith, bit_and, bit_or, false, ◌∙◌, All,
}
use nyaux.Word.{word_mod, add64}
use nyaux.Bits.{bit_and_low, bit_and_field, bit_and-bit_or, bit_or-zero}
use nyaux.Machine.{Mem, write, clear}
use nyaux.Machine.Chain.{has, Seg}
use nyaux.Vmm.Paging.{entry, table_mask}

-- A page of tables by its virtual address.
pub record IsTable (table : ℕ) : Type 0 where
  pub aligned : table % 4096 ≡ 0
  pub not_null : 0 < table
  pub fits : table + 4096 ≤ word_mod

-- A free page by its virtual address: its physical address fits a table entry and is not 0.
pub record IsFrame (hhdm x : ℕ) : Type 0 where
  pub aligned : x % 4096 ≡ 0
  pub offset_aligned : hhdm % 4096 ≡ 0
  pub above : hhdm < x
  pub physical : x < hhdm + 2 ^ 52
  pub fits : x + 4096 ≤ word_mod

-- The table that an entry points to, by its virtual address.
abbrev pub next_table : ℕ → ℕ → ℕ
next_table hhdm e = add64 (bit_and e table_mask) hhdm

-- Following the indices `is` from `table` leads through present entries to the table `last`.
abbrev pub Reaches : ℕ → Mem → ℕ → List ℕ → ℕ → Type 0
Reaches hhdm m table [] last = table ≡ last
Reaches hhdm m table (i ∷ is) last =
    (table ≢ 0)
    × (bit_and (m (entry table i)) 1 ≡ 1)
    × (bit_and (m (entry table i)) table_mask ≢ 0)
    × Reaches hhdm m (next_table hhdm (m (entry table i))) is last

-- The tables that are there on the way are pages of their own: none is met twice (`seen`) or free.
abbrev pub IsClear : ℕ → Mem → ℕ → List ℕ → List ℕ → List ℕ → Type 0
IsClear hhdm m table [] seen free =
    IsTable table × (has table seen ≡ false) × (has table free ≡ false)
IsClear hhdm m table (i ∷ is) seen free =
    IsTable table
    × (has table seen ≡ false)
    × (has table free ≡ false)
    × (i < 512)
    × (bit_and (m (entry table i)) 1 ≡ 1
        → (bit_and (m (entry table i)) table_mask ≢ 0)
          × IsClear hhdm m (next_table hhdm (m (entry table i))) is (table ∷ seen) free)

-- Two entries of distinct tables are distinct words.
pub entry_ne :
    (s t i j : ℕ) → IsTable s → IsTable t → s ≢ t → i < 512 → j < 512 → entry s i ≢ entry t j
entry_ne s t i j hs ht ne hi hj = omega arith

pub bit_and_one : (e : ℕ) → bit_and e 1 ≡ e % 2
bit_and_one e = bit_and_low 1 e

-- An entry of an aligned physical address and flags outside the mask.
pub new_entry :
    (p flags : ℕ)
    → p % 4096 ≡ 0
    → p < 2 ^ 52
    → bit_and flags table_mask ≡ 0
    → bit_and flags 1 ≡ 1
    → (bit_and (bit_or p flags) 1 ≡ 1) × (bit_and (bit_or p flags) table_mask ≡ p)
new_entry p flags al small masked present =
    let even : bit_and p 1 ≡ 0 = omega (arith, bit_and_one p) in
    let whole : bit_and p table_mask ≡ p = bit_and_field 12 40 p ∙ omega arith in
    (rw (bit_and-bit_or, even, present), rw (bit_and-bit_or, masked, whole, bit_or-zero))

-- A memory that agrees on the addresses of a list keeps the list.
pub Seg-agree :
    (m m' : Mem) (p : ℕ) (xs : List ℕ) (q : ℕ)
    → All (λ x. m' x ≡ m x) xs
    → Seg m p xs q
    → Seg m' p xs q
Seg-agree m m' p [] q same s = s
Seg-agree m m' p (x ∷ xs) q same s = (s.0, s.1, rw (same.0) (Seg-agree m m' (m x) xs q same.1 s.2))

-- The memory with a cleared table at page `x`, entered at `entry table i`.
abbrev pub grown : Mem → ℕ → ℕ → ℕ → ℕ → Mem
grown m x table i e = write (clear m x 4096) (entry table i) e

-- The cleared table holds only zeros.
pub grown_new :
    (m : Mem) (x table i e j : ℕ)
    → IsTable x
    → IsTable table
    → x ≢ table
    → i < 512
    → j < 512
    → grown m x table i e (entry x j) ≡ 0
grown_new m x table i e j hx ht ne hi hj = ground (arith, entry_ne x table j i hx ht ne hj hi)

-- Other tables keep their entries.
pub grown_other :
    (m : Mem) (x table i e s j : ℕ)
    → IsTable x
    → IsTable table
    → IsTable s
    → s ≢ table
    → s ≢ x
    → i < 512
    → j < 512
    → grown m x table i e (entry s j) ≡ m (entry s j)
grown_other m x table i e s j hx ht hs ne ne' hi hj = ground arith

-- Free pages keep their links.
pub grown_free :
    (m : Mem) (hhdm x table i e : ℕ) (xs : List ℕ)
    → IsTable x
    → IsTable table
    → i < 512
    → All (IsFrame hhdm) xs
    → has x xs ≡ false
    → has table xs ≡ false
    → All (λ a. grown m x table i e a ≡ m a) xs
grown_free m hhdm x table i e [] hx ht hi hf out out' = tt
grown_free m hhdm x table i e (a ∷ xs) hx ht hi hf out out' =
    (ground arith, grown_free m hhdm x table i e xs hx ht hi hf.1 (ground arith) (ground arith))
