-- ===== src/Slab/Tests.antt =====
-- Runs of the slab allocator, and its theorems at concrete machines.
use nyaux.Base.{ℕ, zero, suc, ◌+◌, ◌≢◌, ◌⊎◌, true, ◌≤◌, ◌≡◌, refl, List, [], ◌∷◌, arith}
use nyaux.Machine.Chain.{has, Nodup}
use nyaux.Machine.{Machine, write, ok}
use nyaux.Pmm.Stack.{Holds}
use nyaux.Slab.Abstract.{give_back}
use nyaux.Slab.Free.{free_state}
use nyaux.Slab.Alloc.{allocate}
use nyaux.Slab.Live.{IsAllocator, Given, slab_alloc_refines}
use nyaux.Slab.Return.{free_refines}
use nyaux.Slab.Calls.{Calls, start, alloc, fill, release, Calls-apart}
use nyaux.Slab.{right_cache, page_of, slab_alloc, free, next_pow2, make_slab}
use nyaux.Slab.Objects.{IsFresh, make_slab-IsFresh}
use nyaux.Slab.Layout.{Slab}

next_pow2_values : (next_pow2 100 ≡ 128) × (next_pow2 64 ≡ 64) × (next_pow2 0 ≡ 0)
unfolding next_pow2
next_pow2_values = (refl, refl, refl)

abbrev one_page : Machine
one_page = record { mem = λ _. 0; hhdm = 0x10000; head = 0x20000; kmalloc_cache = [] }

make_slab-IsFresh_example :
    (s' : Machine) × (make_slab 64 one_page ≡ ok 0x20000 s')
    × IsFresh one_page.mem s'.mem 0x20000 64
    × Holds s' []
    × (s'.hhdm ≡ 0x10000)
    × (s'.kmalloc_cache ≡ [])
make_slab-IsFresh_example =
    make_slab-IsFresh 64 (omega arith) (omega arith) one_page 0x20000 []
      (record { chain = (refl, omega arith, refl); nodup = (refl, tt) }) (omega arith, tt)

-- A full slab at 0x20000, and behind it one at 0x30000 with two free objects.
abbrev two_slabs : Machine
two_slabs = record {
  mem = write (write (write (λ _. 0) 0x20008 0x30000) 0x30010 0x30018) 0x30018 0x30058;
  hhdm = 0x10000;
  head = 0;
  kmalloc_cache = [];
}

abbrev slabs : List Slab
slabs = (0x20000, []) ∷ (0x30000, 0x30018 ∷ 0x30058 ∷ []) ∷ []

-- A cache of 64-byte objects with those slabs, a free page, and an object of the full slab in use.
abbrev busy : Machine
busy = record {
  mem = write (write two_slabs.mem 0x20000 64) 0x30000 64;
  hhdm = 0x10000;
  head = 0x40000;
  kmalloc_cache = record { slabs = 0x20000; size = 64 } ∷ [];
}

busy-IsAllocator : IsAllocator 64 busy 0 slabs (0x40000 ∷ []) (0x20018 ∷ [])
unfolding right_cache
busy-IsAllocator = record {
  is_cache = record {
    slabs = (
      refl,
      omega arith,
      refl,
      (refl, omega arith, (refl, omega arith, (refl, omega arith, refl)), refl),
    );
    apart = (
      refl,
      refl,
      tt,
      tt,
      (refl, refl, (omega arith, (omega arith, tt)), (refl, (refl, tt)), tt),
    );
    sized = (refl, (refl, tt));
    found = refl;
    at_least = omega arith;
    at_most = omega arith;
    some_slab = omega arith;
    holds = record { chain = (refl, omega arith, refl); nodup = (refl, tt) };
    frames = (omega arith, tt);
    no_slab = (refl, tt);
  };
  size_is = refl;
  slots = (tt, (((0, refl, omega arith), ((1, refl, omega arith), tt)), tt));
  in_memory = (omega arith, (omega arith, tt));
  used = ((refl, (0x20000, refl, (0, refl, omega arith))), tt);
  nodup = (refl, tt);
}

slab_alloc_refines_example :
    Given 64 0 (0x20018 ∷ []) (allocate 64 slabs (0x40000 ∷ [])) (slab_alloc 3 0 busy)
slab_alloc_refines_example =
    slab_alloc_refines 3 64 0 busy slabs (0x40000 ∷ []) (0x20018 ∷ []) busy-IsAllocator
      (omega arith)

free_refines_example :
    (s' : Machine) × (free 2 0x20018 busy ≡ ok tt s')
    × IsAllocator 64 s' 0 (give_back (page_of 0x20018) 0x20018 slabs) (0x40000 ∷ []) []
free_refines_example =
    free_refines 2 64 0 busy slabs (0x40000 ∷ []) (0x20018 ∷ []) 0x20018 busy-IsAllocator refl
      (omega arith)

-- After the first and the second allocation, and a write into the second object.
abbrev one_more : Machine
one_more = record busy { mem = write busy.mem 0x30010 0x30058 }

abbrev two_more : Machine
two_more = record one_more { mem = write one_more.mem 0x30010 0 }

abbrev filled : Machine
filled = record two_more { mem = write two_more.mem 0x30060 7 }

alloc_one : (fuel : ℕ) → 2 ≤ fuel → slab_alloc fuel 0 busy ≡ ok 0x30018 one_more
unfolding slab_alloc
alloc_one zero low = absurd (omega arith)
alloc_one (suc zero) low = absurd (omega arith)
alloc_one (suc (suc fuel)) low = refl

alloc_two : (fuel : ℕ) → 2 ≤ fuel → slab_alloc fuel 0 one_more ≡ ok 0x30058 two_more
unfolding slab_alloc
alloc_two zero low = absurd (omega arith)
alloc_two (suc zero) low = absurd (omega arith)
alloc_two (suc (suc fuel)) low = refl

-- The object that was in use at the start is given back.
idle : Machine
idle = free_state filled 0x20000 0x20018

filled_to_idle : (fuel : ℕ) → 1 ≤ fuel → free fuel 0x20018 filled ≡ ok tt idle
unfolding free idle
filled_to_idle zero low = absurd (omega arith)
filled_to_idle (suc fuel) low = refl

abbrev held : List ℕ
held = 0x30058 ∷ 0x30018 ∷ []

allocated : Calls 64 0 busy (0x20018 ∷ []) two_more (0x30058 ∷ 0x30018 ∷ 0x20018 ∷ [])
allocated =
    alloc one_more two_more (0x30018 ∷ 0x20018 ∷ []) 0x30058
      (alloc busy one_more (0x20018 ∷ []) 0x30018 start (2, alloc_one)) (2, alloc_two)

to_idle : Calls 64 0 busy (0x20018 ∷ []) idle held
to_idle =
    release filled idle (0x30058 ∷ 0x30018 ∷ 0x20018 ∷ []) 0x20018
      (fill two_more (0x30058 ∷ 0x30018 ∷ 0x20018 ∷ []) 0x30058 0x30060 7 allocated refl
        (omega arith) (omega arith))
      refl (1, filled_to_idle)

Calls-apart_example :
    Nodup held
    × ((o o' : ℕ) → has o held ≡ true → has o' held ≡ true → o ≢ o' → (o + 64 ≤ o') ⊎ (o' + 64 ≤ o))
Calls-apart_example =
    Calls-apart 64 0 busy idle slabs (0x40000 ∷ []) (0x20018 ∷ []) held busy-IsAllocator to_idle
