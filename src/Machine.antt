-- ===== src/Machine.antt =====
-- The kernel's memory and the globals that its memory managers share (kernel/src/pmm.c: `head`,
-- `kmalloc_cache`; kernel/src/main.h: `hhdm_request`), and commands over them.
-- Memory is a function from an address to the 64-bit word stored there. Every access that is
-- modelled is to a naturally aligned 64-bit field, so words never overlap. A field access through
-- NULL stops the kernel with a page fault, whose handler does not return (kernel/src/idt.c).
pub mod Chain
use nyaux.Base.{ℕ, zero, suc, ◌+◌, List, ◌≡◌, Bool, ◌&&◌, ◌==◌, leb, ltb, if◌then◌else◌}

abbrev pub Mem : Type 0
Mem = ℕ → ℕ

abbrev pub write : Mem → ℕ → ℕ → Mem
write m a v b = if b == a then v else m b

-- `memset(a, 0, n)` over whole words, given as the memory that it leaves.
abbrev pub clear : Mem → ℕ → ℕ → Mem
clear m a n b = if leb a b && ltb b (a + n) then 0 else m b

-- `struct cache` of kernel/src/pmm.h.
pub record Cache : Type 0 where
  pub slabs : ℕ
  pub size : ℕ

pub record Machine : Type 0 where
  pub mem : Mem
  -- `hhdm_request.response->offset`
  pub hhdm : ℕ
  -- the first free page, by its virtual address
  pub head : ℕ
  pub kmalloc_cache : List Cache

-- Why the kernel went no further.
pub data Stop : Type 0 where
  out_of_memory page_fault no_free_region no_such_region out_of_fuel : Stop

pub data Run (A : Type 0) : Type 0 where
  ok : A → Machine → Run A
  stop : Stop → Run A

abbrev pub Cmd : Type 0 → Type 0
Cmd A = Machine → Run A

abbrev pub pure : {A : Type 0} → A → Cmd A
pure = ok

module _ {A B : Type 0} where
  abbrev pub and_then : Run A → (A → Cmd B) → Run B
  and_then (ok a s) k = k a s
  and_then (stop e) k = stop e

  infixl 5 ◌>>=◌ ◌>>◌
  abbrev pub ◌>>=◌ : Cmd A → (A → Cmd B) → Cmd B
  ◌>>=◌ m k s = and_then (m s) k

  abbrev pub ◌>>◌ : Cmd A → Cmd B → Cmd B
  ◌>>◌ m n s = and_then (m s) (λ _. n)

-- The address of the field at offset `off` of what `p` points to.
abbrev pub field : ℕ → ℕ → ℕ
field p zero = p
field p (suc off) = p + suc off

-- `p->f`
abbrev pub load : ℕ → ℕ → Cmd ℕ
load p off s = if p == 0 then stop page_fault else ok (s.mem (field p off)) s

-- `p->f = v`
abbrev pub store : ℕ → ℕ → ℕ → Cmd (Unit {0})
store p off v s =
    if p == 0 then stop page_fault else ok tt (record s { mem = write s.mem (field p off) v })

-- `memset(p, 0, n)`
abbrev pub memset_zero : ℕ → ℕ → Cmd (Unit {0})
memset_zero p n s = ok tt (record s { mem = clear s.mem p n })

abbrev pub offset : Cmd ℕ
offset s = ok s.hhdm s
