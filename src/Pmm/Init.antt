-- ===== src/Pmm/Init.antt =====
-- `pmm_init` strings every page of every usable entry of the memory map on the free list.
use nyaux.Base.{
  ℕ, zero, suc, ◌+◌, ◌-◌, ◌/◌, ◌≤◌, ◌<◌, ◌≡◌, ◌≢◌, refl, ◌∙◌, false, List, [], ◌∷◌, ◌++◌, arith,
  ◌==◌, ne→==, All,
}
use mathlib.Core.List.{append-nil, append_assoc}
use nyaux.Word.{word_mod, add64}
use nyaux.Machine.{Mem, write, Machine, ok}
use nyaux.Machine.Chain.{
  Seg, Chain, Seg-write, Seg-end, Nodup-append_left, Nodup, Nodup-append_cons, link, last, link-Seg,
  append_snoc,
}
use nyaux.Pmm.{
  MemmapEntry, EntryType, usable, bootloader_reclaimable, kernel_and_modules, reserved, framebuffer,
  acpi_nvs, acpi_reclaimable, other, link_pages, set_head, add_entry, build_free_list,
}
use nyaux.Pmm.Link.{pages, page_count, link_pages-link, link_pages-first}
use nyaux.Pmm.Stack.{Holds}

-- The pages, by their virtual addresses, that an entry of a type adds, and those of a whole map.
abbrev pub entry_pages : ℕ → EntryType → MemmapEntry → List ℕ
entry_pages hhdm usable e = pages (page_count e.length) (e.base + hhdm)
entry_pages hhdm bootloader_reclaimable e = []
entry_pages hhdm kernel_and_modules e = []
entry_pages hhdm reserved e = []
entry_pages hhdm framebuffer e = []
entry_pages hhdm acpi_nvs e = []
entry_pages hhdm acpi_reclaimable e = []
entry_pages hhdm other e = []

abbrev pub usable_pages : ℕ → List MemmapEntry → List ℕ
usable_pages hhdm [] = []
usable_pages hhdm (e ∷ es) = entry_pages hhdm e.type e ++ usable_pages hhdm es

-- An entry has bytes, and its direct mapping lies in the address space and is not at NULL.
pub record IsMapped (hhdm : ℕ) (e : MemmapEntry) : Type 0 where
  pub some_bytes : 0 < e.length
  pub not_null : 0 < e.base + hhdm
  pub fits : e.base + hhdm + e.length + 4096 ≤ word_mod

-- Between two entries: `done` is strung from `head` to `prev_node`.
data Built (s : Machine) (prev : ℕ) (done : List ℕ) : Type 0 where
  empty : s.head ≡ 0 → prev ≡ 0 → done ≡ [] → Built s prev done
  strung :
      (xs : List ℕ)
      → done ≡ xs ++ (prev ∷ [])
      → prev ≢ 0
      → Seg s.mem s.head xs prev
      → s.mem prev ≡ 0
      → Built s prev done

pages_nonzero : (n a : ℕ) → 0 < a → All (λ x. x ≢ 0) (pages n a)
pages_nonzero zero a h = tt
pages_nonzero (suc n) a h = (omega arith, pages_nonzero n (a + 4096) (omega arith))

-- Ending the last link with NULL keeps what leads there.
close-Built :
    (s : Machine) (ys done : List ℕ) (l : ℕ)
    → Seg s.mem s.head ys l
    → l ≢ 0
    → done ≡ ys ++ (l ∷ [])
    → Nodup done
    → Built (record s { mem = write s.mem l 0 }) l done
close-Built s ys done l seg ne e d =
    let d' : Nodup (ys ++ (l ∷ [])) = rw e at d in
    strung ys e ne (Seg-write s.mem s.head ys l l 0 (Nodup-append_cons ys l [] d') seg)
      (ground arith)

-- The end of the round: the last page gets NULL.
add_entry-ok :
    (e : MemmapEntry) (s s0 s1 : Machine) (prev l : ℕ)
    → set_head e s ≡ ok tt s0
    → link_pages (e.length / 0x1000 + 2) e 0 prev s0 ≡ ok l s1
    → l ≢ 0
    → add_entry usable e prev s ≡ ok l (record s1 { mem = write s1.mem l 0 })
unfolding add_entry
add_entry-ok e s s0 s1 prev l h k ne = let z : (l == 0) ≡ false = ne→== l 0 ne in rw (h, k, z)

-- A usable entry that comes after none.
first_entry :
    (e : MemmapEntry) (s : Machine) (n : ℕ)
    → s.head ≡ 0
    → IsMapped s.hhdm e
    → page_count e.length ≡ suc n
    → Nodup (pages (suc n) (e.base + s.hhdm))
    → (l : ℕ) × (s' : Machine) × (add_entry usable e 0 s ≡ ok l s')
      × (s'.hhdm ≡ s.hhdm)
      × Built s' l (pages (suc n) (e.base + s.hhdm))
first_entry e s n h0 v count d =
    let a = e.base + s.hhdm in
    let s0 : Machine = record s { head = a } in
    let started : set_head e s ≡ ok tt s0 =
      unfold set_head in (let z : add64 e.base s.hhdm ≡ a = omega arith in rw (h0, z)) in
    let linked =
      link_pages-first e n (e.length / 0x1000 + 2) a s0 refl v.not_null v.fits (omega arith)
        (omega arith) (omega arith) in
    let (ys, seg, eq, ne) =
      link-Seg (pages n (a + 4096)) s.mem a a [] refl (omega arith)
        (pages_nonzero n (a + 4096) (omega arith)) d in
    let l = last a (pages n (a + 4096)) in
    let s1 : Machine = record s0 { mem = link s.mem a (pages n (a + 4096)) } in
    (
      l,
      record s1 { mem = write s1.mem l 0 },
      add_entry-ok e s s0 s1 0 l started linked ne,
      refl,
      close-Built s1 ys _ l seg ne eq d,
    )

-- A usable entry that comes after others.
next_entry :
    (e : MemmapEntry) (s : Machine) (prev : ℕ) (xs : List ℕ)
    → s.head ≢ 0
    → prev ≢ 0
    → Seg s.mem s.head xs prev
    → IsMapped s.hhdm e
    → Nodup (xs ++ (prev ∷ entry_pages s.hhdm usable e))
    → (l : ℕ) × (s' : Machine) × (add_entry usable e prev s ≡ ok l s')
      × (s'.hhdm ≡ s.hhdm)
      × Built s' l (xs ++ (prev ∷ entry_pages s.hhdm usable e))
next_entry e s prev xs h0 ne seg v d =
    let a = e.base + s.hhdm in
    let n = page_count e.length in
    let started : set_head e s ≡ ok tt s = unfold set_head in rw (ne→== s.head 0 h0) in
    let linked =
      link_pages-link e n (e.length / 0x1000 + 2) 0 prev a s ne (omega arith) v.not_null v.fits
        (omega arith) (omega arith) (omega arith) in
    let (ys, seg', eq, ne') =
      link-Seg (pages n a) s.mem s.head prev xs seg ne (pages_nonzero n a v.not_null) d in
    let l = last prev (pages n a) in
    let s1 : Machine = record s { mem = link s.mem prev (pages n a) } in
    (
      l,
      record s1 { mem = write s1.mem l 0 },
      add_entry-ok e s s s1 prev l started linked ne',
      refl,
      close-Built s1 ys _ l seg' ne' eq d,
    )

Seg-head_nonzero : (m : Mem) (p : ℕ) (xs : List ℕ) (q : ℕ) → Seg m p xs q → q ≢ 0 → p ≢ 0
Seg-head_nonzero m p [] q s ne = rw s ne
Seg-head_nonzero m p (x ∷ xs) q s ne = rw (s.0) (s.1)

add_entry-Built :
    (ty : EntryType) (e : MemmapEntry) (s : Machine) (prev : ℕ) (done : List ℕ)
    → Built s prev done
    → (ty ≡ usable → IsMapped s.hhdm e)
    → Nodup (done ++ entry_pages s.hhdm ty e)
    → (l : ℕ) × (s' : Machine) × (add_entry ty e prev s ≡ ok l s')
      × (s'.hhdm ≡ s.hhdm)
      × Built s' l (done ++ entry_pages s.hhdm ty e)
unfolding add_entry set_head
add_entry-Built usable e s prev done (empty h0 p0 d0) v d =
    let n = page_count e.length - 1 in
    let v' = v refl in
    let count : page_count e.length ≡ suc n = omega arith in
    let d' : Nodup (pages (page_count e.length) (e.base + s.hhdm)) = rw d0 at d in
    rw (p0, d0, count) (first_entry e s n h0 v' count (rw count at d'))
add_entry-Built usable e s prev done (strung xs de ne seg end) v d =
    let d' : Nodup (xs ++ (prev ∷ entry_pages s.hhdm usable e)) =
      rw (← append_snoc xs prev _) (rw de at d) in
    rw (de, append_snoc)
      (next_entry e s prev xs (Seg-head_nonzero s.mem s.head xs prev seg ne) ne seg (v refl) d')
add_entry-Built bootloader_reclaimable e s prev done b v d = (prev, s, refl, refl, rw append-nil b)
add_entry-Built _ e s prev done b v d = (prev, s, refl, refl, rw append-nil b)

build_free_list-Built :
    (es : List MemmapEntry) (s : Machine) (prev : ℕ) (done : List ℕ)
    → Built s prev done
    → All (λ e. e.type ≡ usable → IsMapped s.hhdm e) es
    → Nodup (done ++ usable_pages s.hhdm es)
    → (l : ℕ) × (s' : Machine) × (build_free_list es prev s ≡ ok tt s')
      × (s'.hhdm ≡ s.hhdm)
      × Built s' l (done ++ usable_pages s.hhdm es)
unfolding build_free_list
build_free_list-Built [] s prev done b v d = (prev, s, refl, refl, rw append-nil b)
build_free_list-Built (e ∷ es) s prev done b v d =
    let d' : Nodup ((done ++ entry_pages s.hhdm e.type e) ++ usable_pages s.hhdm es) =
      rw append_assoc d in
    let (l, s', ok', same, b') =
      add_entry-Built e.type e s prev done b v.0 (Nodup-append_left _ _ d') in
    let (l'', s'', ok'', same', b'') =
      build_free_list-Built es s' l (done ++ entry_pages s.hhdm e.type e) b' (rw same (v.1))
        (rw same d') in
    (l'', s'', rw (ok', ok''), same' ∙ same, rw (← append_assoc) (rw same at b''))

Built-Chain : (s : Machine) (l : ℕ) (done : List ℕ) → Built s l done → Chain s.mem s.head done
Built-Chain s l done (empty h p d) = rw d h
Built-Chain s l done (strung xs d ne seg end) = rw d (Seg-end s.mem s.head xs l 0 ne seg end)

-- Every usable entry of the map is strung: from a machine with no free page, the loop with which `pmm_init`
-- begins, before it makes the slabs, ends with the free list holding every page of every usable entry, in the
-- order of the map and once each, if the usable entries have bytes, their direct mapping does not wrap and no
-- two pages coincide.
pub build_free_list-Holds :
    (es : List MemmapEntry) (s : Machine)
    → s.head ≡ 0
    → All (λ e. e.type ≡ usable → IsMapped s.hhdm e) es
    → Nodup (usable_pages s.hhdm es)
    → (s' : Machine) × (build_free_list es 0 s ≡ ok tt s') × Holds s' (usable_pages s.hhdm es)
build_free_list-Holds es s h v d =
    let (l, s', e, same, b) = build_free_list-Built es s 0 [] (empty h refl refl) v d in
    (s', e, record { chain = Built-Chain s' l _ b; nodup = d })
