-- ===== src/Pmm/Tests.antt =====
-- Runs of the page allocator, and its theorems at concrete machines.
use nyaux.Base.{◌≡◌, refl, List, [], ◌∷◌, arith, none}
use nyaux.Machine.{Machine, Mem, write, ok}
use nyaux.Pmm.{MemmapEntry, usable, reserved, build_free_list}
use nyaux.Pmm.Stack.{Op, alloc, free, run, stack_run, Holds, Agrees, run_refines}
use nyaux.Pmm.Init.{build_free_list-Holds}

abbrev zeroed : Mem
zeroed _ = 0

abbrev booted : Machine
booted = record { mem = zeroed; hhdm = 0x10000; head = 0; kmalloc_cache = [] }

-- Two usable entries, of two pages and of one and a half, around a reserved one.
abbrev memory_map : List MemmapEntry
memory_map =
    record { base = 0x1000; length = 0x2000; type = usable }
    ∷ record { base = 0x3000; length = 0x1000; type = reserved }
    ∷ record { base = 0x8000; length = 0x1800; type = usable }
    ∷ []

abbrev two_pages : Machine
two_pages = record {
  mem = write (write zeroed 0x11000 0x12000) 0x12000 0;
  hhdm = 0x10000;
  head = 0x11000;
  kmalloc_cache = [];
}

two_pages-Holds : Holds two_pages (0x11000 ∷ 0x12000 ∷ [])
two_pages-Holds = record {
  chain = (refl, omega arith, (refl, omega arith, refl));
  nodup = (refl, (refl, tt));
}

abbrev script : List Op
script = alloc ∷ alloc ∷ free 0x11000 ∷ alloc ∷ alloc ∷ []

stack_runs_out : stack_run 0x10000 script (0x11000 ∷ 0x12000 ∷ []) ≡ none
unfolding stack_run
stack_runs_out = refl

run_refines_example :
    Agrees (stack_run 0x10000 script (0x11000 ∷ 0x12000 ∷ [])) (run script two_pages)
run_refines_example =
    run_refines script two_pages (0x11000 ∷ 0x12000 ∷ []) two_pages-Holds (omega arith, refl, tt)

build_free_list-Holds_example :
    (s' : Machine) × (build_free_list memory_map 0 booted ≡ ok tt s')
    × Holds s' (0x11000 ∷ 0x12000 ∷ 0x18000 ∷ 0x19000 ∷ [])
build_free_list-Holds_example =
    build_free_list-Holds memory_map booted refl
      (λ _. omega arith, (λ p. absurd (cc), (λ _. omega arith, tt)))
      (refl, (refl, (refl, (refl, tt))))
