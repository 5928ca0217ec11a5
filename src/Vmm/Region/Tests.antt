-- ===== src/Vmm/Region/Tests.antt =====
-- The regions of a small machine: three of them, of which the first two are close together.
use nyaux.Base.{◌≡◌, [], ◌∷◌, refl, arith, ◌==◌, if◌then◌else◌}
use nyaux.Machine.{Mem, Machine, and_then}
use nyaux.Vmm.Align.{align_up}
use nyaux.Vmm.Region.{find_gap, link_region}
use nyaux.Vmm.Region.Nodes.{RegionAt}
use nyaux.Vmm.Region.Spacing.{Ending, link_region-find_gap}

abbrev first : RegionAt
first = record { addr = 100; base = 0x10000; length = 0x1000 }

abbrev second : RegionAt
second = record { addr = 200; base = 0x12000; length = 0x1000 }

abbrev third : RegionAt
third = record { addr = 300; base = 0x20000; length = 0x1000 }

abbrev nodes : Mem
nodes a =
    if a == 100
    then 0x10000
    else if a == 108
    then 0x1000
    else if a == 124
    then 200
    else if a == 200
    then 0x12000
    else if a == 208
    then 0x1000
    else if a == 224
    then 300
    else if a == 300
    then 0x20000
    else if a == 308
    then 0x1000
    else 0

abbrev machine : Machine
machine = record { mem = nodes; hhdm = 0; head = 0; kmalloc_cache = [] }

align_up_small : align_up 0x2000 4096 ≡ 0x2000
unfolding align_up
align_up_small = refl

link_region-find_gap_example :
    Ending machine 400 0x2000 100 first
      (second ∷ third ∷ [])
      (and_then (find_gap 5 0x2000 0 100 machine) (λ gap. link_region 400 gap.0 gap.1 0x2000))
link_region-find_gap_example =
    link_region-find_gap 5 400 0x2000 100 machine first (second ∷ third ∷ []) (omega arith)
      (omega arith) (omega arith) (omega arith) (omega arith) (omega (arith, align_up_small))
      (omega arith)
