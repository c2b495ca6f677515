-- ===== src/Kheap/Take.antt =====
-- Giving out a block of a page that has one.
use csc469_advanced_operatin.Base.{
  ℕ, ◌-◌, ◌/◌, ◌≡◌, refl, ap, subst, ◌∙◌, true, false, List, [], ◌∷◌, none, some, ◌⊎◌, inl, inr,
  arith, ◌==◌, ltb, has, Distinct, length, Bool-cases,
}
use csc469_advanced_operatin.Kheap.State.{
  page_size, ok, PageRef, pr_pageaddr, pr_blocktype, Heap, update,
}
use csc469_advanced_operatin.Kheap.Subpage.{size_of, doalloc, took_well, page_with_room}
use csc469_advanced_operatin.Kheap.Blocks.{Block, size_of-Fills}
use csc469_advanced_operatin.Kheap.Pages.{pr_pageaddr-lt, Block-in_page, took_well-true}
use csc469_advanced_operatin.Kheap.Sound.{PageTable, Page}

-- The page without its first free block.
abbrev pub shorter : PageRef → List ℕ → PageRef
shorter p rest = record p { flist = rest; nfree = p.nfree - 1 }

module _ (p : PageRef) (uses : PageTable) (i r fl : ℕ) (rest : List ℕ) (ok_page : Page p uses i r)
    (e : p.flist ≡ fl ∷ rest) where
  first-has : has fl p.flist ≡ true
  first-has = ap (λ l. has fl l) e ∙ ground arith

  pub first-Block :
      Block (pr_pageaddr p.pageaddr_and_blocktype) (size_of i) (page_size / size_of i) fl
  first-Block = ok_page.blocks fl first-has

  pub rest-has : (a : ℕ) → has a rest ≡ true → has a p.flist ≡ true
  rest-has a m = ap (λ l. has a l) e ∙ ground (arith, m)

  pub first-not_in_rest : (has fl rest ≡ false) × Distinct rest
  first-not_in_rest = subst Distinct e ok_page.different

  pub rest-count : p.nfree - 1 ≡ length rest
  rest-count = omega (arith, ok_page.count, ap length e)

  pub shorter-Page : Page (shorter p rest) uses i r
  shorter-Page = record {
    non_null = ok_page.non_null;
    index = ok_page.index;
    kind = ok_page.kind;
    place = ok_page.place;
    purpose = ok_page.purpose;
    stored = ok_page.stored;
    count = rest-count;
    different = first-not_in_rest.1;
    blocks = λ a m. ok_page.blocks a (rest-has a m);
  }

  pub first-took_well :
      took_well (pr_pageaddr p.pageaddr_and_blocktype) fl rest (p.nfree - 1) ≡ true
  first-took_well =
      let (lo, hi) = Block-in_page _ _ fl (size_of-Fills i ok_page.index) first-Block in
      took_well-true _ fl _ rest lo (omega (arith, hi, (size_of-Fills i ok_page.index).small))
        (pr_pageaddr-lt _) rest-count

pub doalloc_lem :
    (h : Heap) (r fl : ℕ) (rest : List ℕ)
    → (h.pagerefs r).flist ≡ fl ∷ rest
    → took_well
        (pr_pageaddr (h.pagerefs r).pageaddr_and_blocktype)
        fl
        rest
        ((h.pagerefs r).nfree - 1)
      ≡ true
    → doalloc r h
      ≡ ok (fl, record h { pagerefs = update h.pagerefs r (shorter (h.pagerefs r) rest) })
unfolding doalloc
doalloc_lem h r fl rest e t = ground (arith, e, t)

-- A page with free blocks has a first one.
pub has_room-first :
    (p : PageRef) (l : List ℕ)
    → p.flist ≡ l
    → p.nfree ≡ length p.flist
    → ltb 0 p.nfree ≡ true
    → (fl : ℕ) × (rest : List ℕ) × (p.flist ≡ fl ∷ rest)
has_room-first p [] e c t = absurd (ground (arith, e, c, t))
has_room-first p (x ∷ xs) e c t = (x, xs, e)

-- The search ends without a failed assertion, and finds a page of the list.
pub page_with_room_lem :
    (i : ℕ) (refs : ℕ → PageRef) (prs : List ℕ)
    → ((r : ℕ) → has r prs ≡ true → pr_blocktype (refs r).pageaddr_and_blocktype ≡ i)
    → (page_with_room i refs prs ≡ ok none)
      ⊎ ((r : ℕ) × (page_with_room i refs prs ≡ ok (some r))
          × (has r prs ≡ true)
          × (ltb 0 (refs r).nfree ≡ true))
unfolding page_with_room
page_with_room_lem i refs [] k = inl refl
page_with_room_lem i refs (x ∷ xs) k = elim (Bool-cases (ltb 0 (refs x).nfree)) [
  | inl e ↦ inr (x, rw (kind, e) refl, ground arith, e)
  | inr e ↦ elim (page_with_room_lem i refs xs (λ r m. k r (ground (arith, m)))) [
    | inl n ↦ inl (rw (kind, e) n)
    | inr (r, f, m, t) ↦ inr (r, rw (kind, e) f, ground (arith, m), t)
  ]
]
  where
    kind : (pr_blocktype (refs x).pageaddr_and_blocktype == i) ≡ true
    kind = ground (arith, k x)
