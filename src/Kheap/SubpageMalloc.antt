-- ===== src/Kheap/SubpageMalloc.antt =====
-- `subpage_kmalloc` of A2/allocators/kheap/kheap.c: the caller holds one more block, or there is no
-- memory, and no assertion fails.
use csc469_advanced_operatin.Base.{
  ℕ, ◌*◌, ◌/◌, ◌≤◌, ◌<◌, ◌≡◌, refl, sym, ap, subst, ◌∙◌, true, List, some, arith, ltb, inl, inr,
  ≢→==,
}
use csc469_advanced_operatin.Kheap.State.{page_size, ok, ◌>>=◌, PageRef, Heap}
use csc469_advanced_operatin.Kheap.Subpage.{
  nsizes, size_of, blocktype, page_with_room, freepageref, fill_page, start_page, new_page,
  alloc_block, subpage_kmalloc, install,
}
use csc469_advanced_operatin.Kheap.Blocks.{size_of-Fills}
use csc469_advanced_operatin.Kheap.Sound.{PageTable, Held, IsSound}
use csc469_advanced_operatin.Kheap.Take.{page_with_room_lem}
use csc469_advanced_operatin.Kheap.Refs.{Open, allocpageref-Open}
use csc469_advanced_operatin.Kheap.Install.{Ready, page_of-Ready, freepageref-IsSound}
use csc469_advanced_operatin.Kheap.NewPage.{uses_with, install-IsSound, install-listed}
use csc469_advanced_operatin.Kheap.Give.{Given, doalloc-Given}
use csc469_advanced_operatin.Kheap.Sizes.{blocktype-smallest}

has_blocks : (s : ℕ) → s ≤ 2048 → page_size / s * s ≡ page_size → ltb 0 (page_size / s) ≡ true
has_blocks s le e = grind arith

module _ (sz i : ℕ) (bs : List Held) (index : i < nsizes) (fits : sz ≤ size_of i) where
  fill_page-Given :
      (h : Heap) (uses : PageTable) (r k : ℕ)
      → Ready h uses bs r k
      → Given sz 1 bs (fill_page r i (k * 4096, h))
  unfolding fill_page
  fill_page-Given h uses r k o =
      let (listed, at) = install-listed h uses bs r k i o index in
      let room : ltb 0 ((install r i (k * 4096) h).pagerefs r).nfree ≡ true =
        ap (λ (p : PageRef). ltb 0 p.nfree) at
        ∙ has_blocks (size_of i) (size_of-Fills i index).large (size_of-Fills i index).whole in
      rw (≢→== (k * 4096) 0 o.non_null) (
        doalloc-Given (install r i (k * 4096) h) (uses_with h uses bs r k i o index) bs
          (install-IsSound h uses bs r k i o index) i r listed sz fits room)

  start_page-Given :
      (h : Heap) (uses : PageTable) (r : ℕ) → Open h uses bs r → Given sz 1 bs (start_page i (r, h))
  unfolding start_page
  start_page-Given h uses r o = rw (≢→== r 0 o.spare.non_null) (elim (page_of-Ready h uses bs r o) [
    | inl (out, full) ↦
        subst (λ m. Given sz 1 bs (m >>= fill_page r i)) (sym out)
          (freepageref r h, uses, inl (no_page h r, freepageref-IsSound h uses bs r o, full))
    | inr (k, h', uses', e, ready) ↦
        subst (λ m. Given sz 1 bs (m >>= fill_page r i)) (sym e)
          (fill_page-Given h' uses' r k ready)
  ])
    where
      no_page : (h : Heap) (r : ℕ) → fill_page r i (0, h) ≡ ok (0, freepageref r h)
      no_page h r = unfold fill_page in refl

  new_page-Given : (h : Heap) (uses : PageTable) → IsSound h uses bs → Given sz 1 bs (new_page i h)
  unfolding new_page start_page
  new_page-Given h uses s = elim (allocpageref-Open h uses bs s) [
    | inl (out, full) ↦
        subst (λ m. Given sz 1 bs (m >>= start_page i)) (sym out) (h, uses, inl (refl, s, full))
    | inr (r, h', uses', e, o) ↦
        subst (λ m. Given sz 1 bs (m >>= start_page i)) (sym e) (start_page-Given h' uses' r o)
  ]

  scan-Given :
      (h : Heap) (uses : PageTable)
      → IsSound h uses bs
      → Given sz 1 bs (page_with_room i h.pagerefs (h.sizebases i) >>= alloc_block i h)
  unfolding alloc_block
  scan-Given h uses s =
      elim (page_with_room_lem i h.pagerefs (h.sizebases i)
        (λ r m. (s.subpages.base_ok i r m).kind)) [
          | inl full ↦
              subst (λ m. Given sz 1 bs (m >>= alloc_block i h)) (sym full)
                (new_page-Given h uses s)
          | inr (r, e, listed, room) ↦
              subst (λ m. Given sz 1 bs (m >>= alloc_block i h)) (sym e)
                (doalloc-Given h uses bs s i r listed sz fits room)
        ]

subpage_kmalloc-scan :
    (sz i : ℕ) (h : Heap)
    → blocktype sz ≡ some i
    → subpage_kmalloc sz h ≡ (page_with_room i h.pagerefs (h.sizebases i) >>= alloc_block i h)
unfolding subpage_kmalloc
subpage_kmalloc-scan sz i h e = ground (arith, e)

pub subpage_kmalloc-Given :
    (sz : ℕ) (h : Heap) (uses : PageTable) (bs : List Held)
    → sz ≤ 2048
    → IsSound h uses bs
    → Given sz 1 bs (subpage_kmalloc sz h)
subpage_kmalloc-Given sz h uses bs le s = elim (blocktype-smallest sz) [
  | inl (more, _) ↦ absurd (omega arith)
  | inr (i, e, index, fits, _) ↦
      subst (Given sz 1 bs) (sym (subpage_kmalloc-scan sz i h e))
        (scan-Given sz i bs index fits h uses s)
]
