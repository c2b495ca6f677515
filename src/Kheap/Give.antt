-- ===== src/Kheap/Give.antt =====
-- `subpage_kmalloc` of A2/allocators/kheap/kheap.c: the caller holds one more block, or there is no
-- memory.
use csc469_advanced_operatin.Base.{
  ℕ, ◌/◌, ◌≤◌, ◌≡◌, refl, sym, ap, subst, ◌∙◌, true, false, List, ◌∷◌, arith, ltb, ◌⊎◌, inl, inr,
  has, Bool-cases,
}
use csc469_advanced_operatin.Kheap.State.{
  page_size, Outcome, ok, PageRef, pr_pageaddr, Heap, update,
}
use csc469_advanced_operatin.Kheap.Subpage.{size_of, doalloc}
use csc469_advanced_operatin.Kheap.Blocks.{Block, size_of-Fills}
use csc469_advanced_operatin.Kheap.Pages.{update_same, Block-in_page}
use csc469_advanced_operatin.Kheap.Sound.{PageTable, Page, spares, Held, HeldSmall, HeldOk, IsSound}
use csc469_advanced_operatin.Kheap.Segment.{Full}
use csc469_advanced_operatin.Kheap.Take.{
  shorter, first-Block, first-not_in_rest, rest-has, shorter-Page, first-took_well, doalloc_lem,
  has_room-first,
}
use csc469_advanced_operatin.Kheap.Modify.{modify-SubpageOk, modify-HeldSmall}
use csc469_advanced_operatin.Kheap.Apart.{OnPage, free-NewAddr}
use csc469_advanced_operatin.Kheap.Refs.{AllHeld-map}

-- How a call for `sz` bytes ends: with `NULL`, if there is no room for `need` more pages, or with one
-- more block that is held.
abbrev pub Given : (sz need : ℕ) (bs : List Held) → Outcome (ℕ × Heap) → Type 0
Given sz need bs result =
    (h : Heap) × (uses : PageTable) × (((result ≡ ok (0, h)) × IsSound h uses bs × Full need h)
      ⊎ ((a : ℕ) × (result ≡ ok (a, h)) × IsSound h uses (record { addr = a; bytes = sz } ∷ bs)))

module _ (h : Heap) (uses : PageTable) (bs : List Held) (s : IsSound h uses bs) (i r : ℕ)
    (listed : has r (h.sizebases i) ≡ true) where
  page : Page (h.pagerefs r) uses i r
  page = s.subpages.base_ok i r listed

  module _ (fl : ℕ) (rest : List ℕ) (e : (h.pagerefs r).flist ≡ fl ∷ rest) where
    rest-false :
        (a : ℕ)
        → has a (h.pagerefs r).flist ≡ false
        → has a (shorter (h.pagerefs r) rest).flist ≡ false
    rest-false a n = elim (Bool-cases (has a rest)) [
      | inl m ↦ cc (n, rest-has (h.pagerefs r) uses i r fl rest page e a m)
      | inr m ↦ m
    ]

    after_doalloc : Heap
    after_doalloc = record h { pagerefs = update h.pagerefs r (shorter (h.pagerefs r) rest) }

    fl-Block :
        Block
          (pr_pageaddr (h.pagerefs r).pageaddr_and_blocktype)
          (size_of i)
          (page_size / size_of i)
          fl
    fl-Block = first-Block (h.pagerefs r) uses i r fl rest page e

    fl-OnPage : OnPage h.pagerefs r fl
    fl-OnPage =
        let (lo, hi) = Block-in_page _ _ fl (size_of-Fills i page.index) fl-Block in
        (lo, omega (arith, hi, (size_of-Fills i page.index).small))

    given_block :
        (sz : ℕ)
        → sz ≤ size_of i
        → HeldSmall after_doalloc.pagerefs after_doalloc.sizebases i r
            (record { addr = fl; bytes = sz })
    unfolding after_doalloc
    given_block sz fits =
        let at : update h.pagerefs r (shorter (h.pagerefs r) rest) r ≡ shorter (h.pagerefs r) rest =
          update_same h.pagerefs r _ in
        record {
          listed = listed;
          block =
              subst
                (λ (p : PageRef).
                  Block (pr_pageaddr p.pageaddr_and_blocktype) (size_of i) (page_size / size_of i)
                    fl)
                (sym at) fl-Block;
          held =
              subst (λ (p : PageRef). has fl p.flist ≡ false) (sym at)
                (first-not_in_rest (h.pagerefs r) uses i r fl rest page e).0;
          fits = fits;
        }

    take-IsSound :
        (sz : ℕ)
        → sz ≤ size_of i
        → IsSound after_doalloc uses (record { addr = fl; bytes = sz } ∷ bs)
    unfolding after_doalloc
    take-IsSound sz fits = record {
      segment = s.segment;
      subpages =
          modify-SubpageOk h.pagerefs r (shorter (h.pagerefs r) rest) refl (spares h) h.sizebases
            uses (λ j m g. shorter-Page (h.pagerefs r) uses j r fl rest g e) s.subpages;
      big = s.big;
      held = (
        inl (i, r, given_block sz fits),
        AllHeld-map (HeldOk h uses) (HeldOk after_doalloc uses) bs still s.held,
      );
      addrs = (
        free-NewAddr h uses bs i r fl s.subpages listed fl-OnPage (ap (has fl) e ∙ ground arith)
            s.held,
        s.addrs,
      );
    }
      where
        still : (b : Held) → HeldOk h uses b → HeldOk after_doalloc uses b
        still b (inl (j, q, g)) = inl (
          j,
          q,
          modify-HeldSmall h.pagerefs r (shorter (h.pagerefs r) rest) refl h.sizebases j q b
              (rest-false b.addr) g,
        )
        still b (inr g) = inr g

    doalloc-first : doalloc r h ≡ ok (fl, after_doalloc)
    unfolding after_doalloc
    doalloc-first =
        doalloc_lem h r fl rest e (first-took_well (h.pagerefs r) uses i r fl rest page e)

  -- A listed page with a free block gives it out.
  pub doalloc-Given :
      (sz : ℕ) → sz ≤ size_of i → ltb 0 (h.pagerefs r).nfree ≡ true → Given sz 1 bs (doalloc r h)
  doalloc-Given sz fits room =
      let (fl, rest, e) = has_room-first (h.pagerefs r) _ refl page.count room in
      (
        after_doalloc fl rest e,
        uses,
        inr (fl, doalloc-first fl rest e, take-IsSound fl rest e sz fits),
      )
