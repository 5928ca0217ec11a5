-- ===== src/Pmm/Link.antt =====
-- The loop of `pmm_init` over one usable entry.
use nyaux.Base.{
  ℕ, zero, suc, ◌+◌, ◌*◌, ◌/◌, ◌≤◌, ◌<◌, ◌≡◌, ◌≢◌, refl, List, [], ◌∷◌, arith, lt→ltb, le→ltb,
  ne→==,
}
use nyaux.Word.{word_mod, add64}
use nyaux.Machine.{write, Machine, ok}
use nyaux.Machine.Chain.{link, last}
use nyaux.Pmm.{MemmapEntry, link_prev, link_pages}

-- `n` pages from address `a` on.
abbrev pub pages : ℕ → ℕ → List ℕ
pages zero a = []
pages (suc n) a = a ∷ pages n (a + 4096)

-- The pages that an entry of `length` bytes touches, a last partial one included.
abbrev pub page_count : ℕ → ℕ
page_count length = (length + 4095) / 4096

link_prev-ne :
    (prev a : ℕ) (s : Machine)
    → prev ≢ 0
    → link_prev prev a s ≡ ok tt (record s { mem = write s.mem prev a })
unfolding link_prev
link_prev-ne prev a s ne = ground (arith, ne→== prev 0 ne)

module _ (e : MemmapEntry) where
  -- One round of the loop, with `prev_node` set.
  link_pages-suc :
      (fuel j prev a : ℕ) (s : Machine)
      → prev ≢ 0
      → j < e.length
      → a ≡ e.base + s.hhdm + j
      → a < word_mod
      → link_pages (suc fuel) e j prev s
        ≡ link_pages fuel e (add64 j 0x1000) a (record s { mem = write s.mem prev a })
  link_pages-suc fuel j prev a s ne more at small =
      let cur : add64 (add64 e.base j) s.hhdm ≡ a = omega arith in
      unfold link_pages in rw (lt→ltb j e.length more, cur, link_prev-ne prev a s ne)

  -- Walking from `prev` writes the links and returns the last page.
  pub link_pages-link :
      (n fuel j prev a : ℕ) (s : Machine)
      → prev ≢ 0
      → a ≡ e.base + s.hhdm + j
      → 0 < e.base + s.hhdm
      → e.base + s.hhdm + e.length + 4096 ≤ word_mod
      → j + n * 4096 < e.length + 4096
      → e.length ≤ j + n * 4096
      → n < fuel
      → link_pages fuel e j prev s
        ≡ ok (last prev (pages n a)) (record s { mem = link s.mem prev (pages n a) })
  link_pages-link n zero j prev a s ne at pos fits hi lo enough = absurd (omega arith)
  link_pages-link zero (suc fuel) j prev a s ne at pos fits hi lo enough =
      unfold link_pages in rw (le→ltb j e.length (omega arith))
  link_pages-link (suc n) (suc fuel) j prev a s ne at pos fits hi lo enough =
      let next : add64 j 0x1000 ≡ j + 4096 = omega arith in
      rw (link_pages-suc fuel j prev a s ne (omega arith) at (omega arith), next)
        (link_pages-link n fuel (j + 4096) a (a + 4096) (record s { mem = write s.mem prev a })
          (omega arith) (omega arith) pos fits (omega arith) (omega arith) (omega arith))

  -- The first round of all: there is no `prev_node` to link.
  pub link_pages-first :
      (n fuel a : ℕ) (s : Machine)
      → a ≡ e.base + s.hhdm
      → 0 < e.base + s.hhdm
      → e.base + s.hhdm + e.length + 4096 ≤ word_mod
      → suc n * 4096 < e.length + 4096
      → e.length ≤ suc n * 4096
      → suc n < fuel
      → link_pages fuel e 0 0 s
        ≡ ok (last a (pages n (a + 4096))) (record s { mem = link s.mem a (pages n (a + 4096)) })
  link_pages-first n zero a s at pos fits hi lo enough = absurd (omega arith)
  link_pages-first n (suc fuel) a s at pos fits hi lo enough =
      let cur : add64 (add64 e.base 0) s.hhdm ≡ a = omega arith in
      let next : add64 0 0x1000 ≡ 4096 = refl in
      unfold link_pages in
      rw (lt→ltb 0 e.length (omega arith), cur)
        (link_pages-link n fuel 4096 a (a + 4096) s (omega arith) (omega arith) pos fits
          (omega arith) (omega arith) (omega arith))
