-- ===== src/Pmm/Stack.antt =====
-- The free list of pages behaves as a stack.
use nyaux.Base.{ℕ, ◌≡◌, ◌≢◌, refl, false, Option, none, some, List, [], ◌∷◌, arith, ne→==}
use nyaux.Word.{sub64}
use nyaux.Machine.{write, Machine, Cmd, Run, ok, stop, out_of_memory, and_then}
use nyaux.Machine.Chain.{Chain, Seg-write, has, Nodup}
use nyaux.Pmm.{pmm_alloc_singlep, pmm_free_singlep}

-- What the rest of the kernel does with the free list.
pub data Op : Type 0 where
  alloc : Op
  free : ℕ → Op

-- The calls in order, with the physical addresses that they hand out.
pub run : List Op → Cmd (List ℕ)
run [] s = ok [] s
run (alloc ∷ ops) s =
    and_then (pmm_alloc_singlep s) (λ page s'. and_then (run ops s') (λ pages. ok (page ∷ pages)))
run (free page ∷ ops) s = and_then (pmm_free_singlep page s) (λ _. run ops)

-- The stack: what the same calls hand out and leave, `none` once an empty stack is popped.
unfoldable pub stack_run : ℕ → List Op → List ℕ → Option (List ℕ × List ℕ)
stack_run hhdm [] xs = some ([], xs)
stack_run hhdm (alloc ∷ ops) [] = none
stack_run hhdm (alloc ∷ ops) (x ∷ xs) = elim (stack_run hhdm ops xs) [
  | none ↦ none
  | some (pages, ys) ↦ some (sub64 x hhdm ∷ pages, ys)
]
stack_run hhdm (free page ∷ ops) xs = stack_run hhdm ops (page ∷ xs)

-- No page is freed that is NULL or free already.
abbrev pub IsLegal : List Op → List ℕ → Type 0
IsLegal [] xs = Unit
IsLegal (alloc ∷ ops) [] = Unit
IsLegal (alloc ∷ ops) (x ∷ xs) = IsLegal ops xs
IsLegal (free page ∷ ops) xs = (page ≢ 0) × (has page xs ≡ false) × IsLegal ops (page ∷ xs)

-- The machine holds exactly the free pages `xs`, each once.
pub record Holds (s : Machine) (xs : List ℕ) : Type 0 where
  pub chain : Chain s.mem s.head xs
  pub nodup : Nodup xs

pub alloc_nil : (s : Machine) → Holds s [] → pmm_alloc_singlep s ≡ stop out_of_memory
unfolding pmm_alloc_singlep
alloc_nil s h = ground (arith, h.chain)

-- The machine after the first page is taken, and after `page` is put back.
abbrev pub taken : Machine → Machine
taken s = record s { head = s.mem s.head }

abbrev pub put_back : ℕ → Machine → Machine
put_back page s = record s { mem = write s.mem page s.head; head = page }

pub alloc_cons :
    (s : Machine) (x : ℕ) (xs : List ℕ)
    → Holds s (x ∷ xs)
    → (pmm_alloc_singlep s ≡ ok (sub64 x s.hhdm) (taken s)) × Holds (taken s) xs
unfolding pmm_alloc_singlep
alloc_cons s x xs h =
    let ne : s.head ≢ 0 = ground arith in
    (rw (ne→== _ _ ne, h.chain.0), record { chain = rw (h.chain.0) (h.chain.2); nodup = h.nodup.1 })

pub free_cons :
    (s : Machine) (page : ℕ) (xs : List ℕ)
    → page ≢ 0
    → has page xs ≡ false
    → Holds s xs
    → (pmm_free_singlep page s ≡ ok tt (put_back page s)) × Holds (put_back page s) (page ∷ xs)
unfolding pmm_free_singlep
free_cons s page xs ne out h = (
  rw (ne→== _ _ ne),
  record {
    chain = (refl, ne, ground (arith, Seg-write s.mem s.head xs 0 page s.head out h.chain));
    nodup = (out, h.nodup);
  },
)

-- A run does what the stack does.
abbrev pub Agrees : Option (List ℕ × List ℕ) → Run (List ℕ) → Type 0
Agrees none r = r ≡ stop out_of_memory
Agrees (some (pages, ys)) r = (s' : Machine) × (r ≡ ok pages s') × Holds s' ys

Agrees-alloc :
    (page : ℕ) (o : Option (List ℕ × List ℕ)) (r : Run (List ℕ))
    → Agrees o r
    → Agrees
        (elim o [ none ↦ none | some (pages, ys) ↦ some (page ∷ pages, ys) ])
        (and_then r (λ pages. ok (page ∷ pages)))
Agrees-alloc page none r h = rw h
Agrees-alloc page (some (pages, ys)) r (s', e, h) = (s', rw e, h)

-- From a machine that holds the free pages `xs`, any legal sequence of allocations and frees hands
-- out the physical addresses that a stack of those pages does, ends out of memory where the stack
-- is popped empty, and otherwise leaves a machine that holds the pages left on the stack.
pub run_refines :
    (ops : List Op) (s : Machine) (xs : List ℕ)
    → Holds s xs
    → IsLegal ops xs
    → Agrees (stack_run s.hhdm ops xs) (run ops s)
unfolding run stack_run
run_refines [] s xs h l = (s, refl, h)
run_refines (alloc ∷ ops) s [] h l = rw (alloc_nil s h)
run_refines (alloc ∷ ops) s (x ∷ xs) h l =
    let (e, h') = alloc_cons s x xs h in
    rw e (Agrees-alloc (sub64 x s.hhdm) _ _ (run_refines ops (taken s) xs h' l))
run_refines (free page ∷ ops) s xs h l =
    let (e, h') = free_cons s page xs l.0 l.1 h in
    rw e (run_refines ops (put_back page s) (page ∷ xs) h' l.2)
