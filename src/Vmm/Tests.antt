-- ===== src/Vmm/Tests.antt =====
-- Runs of the virtual memory manager, and its theorems at concrete machines.
use nyaux.Base.{ℕ, ◌≡◌, refl, List, [], ◌∷◌, arith, bit_or}
use nyaux.Machine.{Machine, write, ok}
use nyaux.Vmm.Align.{align_down, align_up}
use nyaux.Vmm.Paging.{map, unmap, virt_to_phys, get_phys_from_entry}
use nyaux.Vmm.Paging.Reach.{Reaches, IsClear}
use nyaux.Vmm.Paging.Others.{IsBeside, virt_to_phys-map_other}
use nyaux.Vmm.Paging.Translate.{indices, IsMappable, IsFlags, virt_to_phys-map, unmap-map}

align_values : (align_up 5000 4096 ≡ 8192) × (align_down 5000 4096 ≡ 4096)
unfolding align_up align_down
align_values = (refl, refl)

abbrev free_pages : List ℕ
free_pages = 0x20000 ∷ 0x21000 ∷ 0x22000 ∷ []

-- Three free pages and an empty top-level table at 0x30000.
abbrev empty_space : Machine
empty_space = record {
  mem = write (write (λ _. 0) 0x20000 0x21000) 0x21000 0x22000;
  hhdm = 0x10000;
  head = 0x20000;
  kmalloc_cache = [];
}

empty_space-IsMappable : IsMappable empty_space 0x30000 0x400000 free_pages
empty_space-IsMappable = record {
  holds = record {
    chain = (refl, omega arith, (refl, omega arith, (refl, omega arith, refl)));
    nodup = (refl, (refl, (refl, tt)));
  };
  frames = (omega arith, (omega arith, (omega arith, tt)));
  enough = omega arith;
  tables = (omega arith, refl, refl, omega arith, λ p. absurd (omega arith));
}

present_writable-IsFlags : IsFlags 3
present_writable-IsFlags = record { present = refl; masked = refl; masked_phys = refl }

virt_to_phys-map_example :
    (s' : Machine) × (map 0x30000 0x400000 0x7000 3 empty_space ≡ ok tt s')
    × (virt_to_phys 0x30000 0x400000 s' ≡ ok 0x7000 s')
virt_to_phys-map_example =
    virt_to_phys-map empty_space 0x30000 0x400000 0x7000 3 free_pages empty_space-IsMappable
      present_writable-IsFlags refl (omega arith)

unmap-map_example :
    (s' s'' : Machine) × (map 0x30000 0x400000 0x7000 3 empty_space ≡ ok tt s')
    × (unmap 0x30000 0x400000 s' ≡ ok (bit_or 0x7000 3) s'')
    × (get_phys_from_entry (bit_or 0x7000 3) ≡ 0x7000)
    × (virt_to_phys 0x30000 0x400000 s'' ≡ ok 0 s'')
unmap-map_example =
    unmap-map empty_space 0x30000 0x400000 0x7000 3 free_pages empty_space-IsMappable
      present_writable-IsFlags refl (omega arith)

-- Besides, a mapping of 0x400000 to 0x9000 through the tables at 0x34000, 0x35000 and 0x36000.
abbrev one_mapping : Machine
one_mapping = record empty_space {
  mem =
      write (write (write (write empty_space.mem 0x30000 0x24001) 0x34000 0x25001) 0x35010 0x26001)
        0x36000 0x9001;
}

way_to_0x36000 : Reaches 0x10000 one_mapping.mem 0x30000 (indices 0x401000) 0x36000
way_to_0x36000 = (
  omega arith,
  refl,
  omega arith,
  (omega arith, refl, omega arith, (omega arith, refl, omega arith, refl)),
)

one_mapping-IsClear : IsClear 0x10000 one_mapping.mem 0x30000 (indices 0x401000) [] free_pages
one_mapping-IsClear = (
  omega arith,
  refl,
  refl,
  omega arith,
  λ _. (
    omega arith,
    (
      omega arith,
      refl,
      refl,
      omega arith,
      λ _. (
        omega arith,
        (omega arith, refl, refl, omega arith, λ _. (omega arith, (omega arith, refl, refl))),
      ),
    ),
  ),
)

one_mapping-IsMappable : IsMappable one_mapping 0x30000 0x401000 free_pages
one_mapping-IsMappable = record {
  holds = record {
    chain = (refl, omega arith, (refl, omega arith, (refl, omega arith, refl)));
    nodup = (refl, (refl, (refl, tt)));
  };
  frames = (omega arith, (omega arith, (omega arith, tt)));
  enough = omega arith;
  tables = one_mapping-IsClear;
}

next_page-IsBeside :
    (last : ℕ)
    → Reaches 0x10000 one_mapping.mem 0x30000 (indices 0x401000) last
    → IsBeside one_mapping 0x30000 0x401000 0x400000 0x36000 last
next_page-IsBeside last r = (
  (omega (arith, r.3.3.3), (omega (arith, r.3.3.3), (omega (arith, r.3.3.3), tt))),
  λ _. omega arith,
)

virt_to_phys-map_other_example :
    (s' : Machine) × (p : ℕ) × (map 0x30000 0x401000 0x7000 3 one_mapping ≡ ok tt s')
    × (virt_to_phys 0x30000 0x400000 one_mapping ≡ ok p one_mapping)
    × (virt_to_phys 0x30000 0x400000 s' ≡ ok p s')
virt_to_phys-map_other_example =
    virt_to_phys-map_other one_mapping 0x30000 0x401000 0x7000 3 0x400000 0x36000 free_pages
      one_mapping-IsMappable present_writable-IsFlags one_mapping-IsClear way_to_0x36000 refl
      next_page-IsBeside
