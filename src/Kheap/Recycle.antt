-- ===== src/Kheap/Recycle.antt =====
-- A page of A2/allocators/kheap/kheap.c whose blocks are all free leaves its list.
use csc469_advanced_operatin.Base.{
  ℕ, ◌/◌, ◌≤◌, ◌≡◌, ◌≢◌, refl, sym, ap, subst, ◌∙◌, true, false, ◌&&◌, not, List, ◌∷◌, arith, ◌==◌,
  ltb, leb, inl, inr, has, Distinct, Bool-cases, ==→≡, ==→≢, ≢→==,
}
use csc469_advanced_operatin.Kheap.State.{page_size, ok, PageRef, pr_pageaddr, Heap, update}
use csc469_advanced_operatin.Kheap.Subpage.{
  nsizes, size_of, remove_first, remove_lists, freepageref, retire,
}
use csc469_advanced_operatin.Kheap.Blocks.{
  Block, has-remove_first, Distinct-remove_first, length-blocks,
}
use csc469_advanced_operatin.Kheap.Pages.{update_same, update_other}
use csc469_advanced_operatin.Kheap.Sound.{
  table, small, empty, PageTable, Page, Spare, spares, SubpageOk, Held, HeldOk, IsSound,
}
use csc469_advanced_operatin.Kheap.Retag.{
  Retags, Retags-update, retag-Page, retag-Spare, retag-BigOk, retag-HeldBig, retag-SegmentOk,
}
use csc469_advanced_operatin.Kheap.Refs.{AllHeld-map, Spare-not_based}
use csc469_advanced_operatin.Kheap.Apart.{based_once}

-- The free list of a page is no longer than the page has blocks.
pub flist-le :
    (p : PageRef) (uses : PageTable) (i r : ℕ) → Page p uses i r → p.nfree ≤ page_size / size_of i
flist-le p uses i r g = omega (
  arith,
  g.count,
  length-blocks _ (size_of i) (page_size / size_of i) p.flist g.different g.blocks,
)

-- A page with a block that is not free is not wholly free.
not_full :
    (p : PageRef) (uses : PageTable) (i r a : ℕ)
    → Page p uses i r
    → Block (pr_pageaddr p.pageaddr_and_blocktype) (size_of i) (page_size / size_of i) a
    → has a p.flist ≡ false
    → p.nfree ≢ page_size / size_of i
not_full p uses i r a g block out full = absurd (
    omega (
      arith,
      g.count,
      length-blocks _ (size_of i) (page_size / size_of i) (a ∷ p.flist) (out, g.different) all,
    ))
  where
    all :
        (d : ℕ)
        → has d (a ∷ p.flist) ≡ true
        → Block (pr_pageaddr p.pageaddr_and_blocktype) (size_of i) (page_size / size_of i) d
    all d m = elim (Bool-cases (d == a)) [
      | inl e ↦
          subst (Block (pr_pageaddr p.pageaddr_and_blocktype) (size_of i) (page_size / size_of i))
            (sym (==→≡ d a e)) block
      | inr e ↦ g.blocks d (ground (arith, e, m))
    ]

-- What is left in the lists when `r` is taken out of the i-th.
unlisted :
    (bases : ℕ → List ℕ) (i r j q : ℕ)
    → ((j : ℕ) → Distinct (bases j))
    → has q (update bases i (remove_first r (bases i)) j) ≡ true
    → (has q (bases j) ≡ true) × ((j ≡ i) → (q == r) ≡ false)
unlisted bases i r j q d m = elim (Bool-cases (j == i)) [
  | inr e ↦ (subst (λ l. has q l ≡ true) (update_other bases i _ j e) m, λ f. absurd (==→≢ j i e f))
  | inl e ↦
      let both : (has q (bases i) && not (q == r)) ≡ true =
        sym (has-remove_first r q (bases i) (d i))
        ∙ subst (λ l. has q l ≡ true) (update_same bases i _)
            (subst (λ z. has q (update bases i (remove_first r (bases i)) z) ≡ true) (==→≡ j i e)
              m) in
      (
        subst (λ z. has q (bases z) ≡ true) (sym (==→≡ j i e)) (ground (arith, both)),
        λ f. ground (arith, both),
      )
]

still_listed :
    (bases : ℕ → List ℕ) (i r j q : ℕ)
    → ((j : ℕ) → Distinct (bases j))
    → (q == r) ≡ false
    → has q (bases j) ≡ true
    → has q (update bases i (remove_first r (bases i)) j) ≡ true
still_listed bases i r j q d ne m = elim (Bool-cases (j == i)) [
  | inr e ↦ subst (λ l. has q l ≡ true) (sym (update_other bases i _ j e)) m
  | inl e ↦
      subst (λ z. has q (update bases i (remove_first r (bases i)) z) ≡ true) (sym (==→≡ j i e))
        (subst (λ l. has q l ≡ true) (sym (update_same bases i _))
          (has-remove_first r q (bases i) (d i)
            ∙ both (subst (λ z. has q (bases z) ≡ true) (==→≡ j i e) m)))
]
  where
    both : has q (bases i) ≡ true → (has q (bases i) && not (q == r)) ≡ true
    both m = ground (arith, m, ne)

Distinct-unlisted :
    (bases : ℕ → List ℕ) (i r j : ℕ)
    → ((j : ℕ) → Distinct (bases j))
    → Distinct (update bases i (remove_first r (bases i)) j)
Distinct-unlisted bases i r j d = elim (Bool-cases (j == i)) [
  | inr e ↦ subst Distinct (sym (update_other bases i _ j e)) (d j)
  | inl e ↦
      subst (λ z. Distinct (update bases i (remove_first r (bases i)) z)) (sym (==→≡ j i e))
        (subst Distinct (sym (update_same bases i (remove_first r (bases i))))
          (Distinct-remove_first r (bases i) (d i)))
]

module _ (h : Heap) (uses : PageTable) (bs : List Held) (s : IsSound h uses bs) (i r : ℕ)
    (listed : has r (h.sizebases i) ≡ true) where
  page : Page (h.pagerefs r) uses i r
  page = s.subpages.base_ok i r listed

  page_at : ℕ
  page_at = pr_pageaddr (h.pagerefs r).pageaddr_and_blocktype / 4096

  uses_retired : PageTable
  uses_retired = update uses page_at (empty r)

  recycled : Heap
  unfolding freepageref
  recycled =
      freepageref r (record h { sizebases = update h.sizebases i (remove_first r (h.sizebases i)) })

  keeps : Retags (small r) uses uses_retired
  unfolding uses_retired page_at
  keeps = Retags-update uses _ (small r) (empty r) page.purpose

  r-not_spare : has r (spares h) ≡ false
  r-not_spare = elim (Bool-cases (has r (spares h))) [
    | inr e ↦ e
    | inl e ↦ cc (
      listed,
      Spare-not_based h.pagerefs (spares h) h.sizebases uses r s.subpages (s.subpages.spare_ok r e)
          i,
    )
  ]

  r-Spare : Spare (h.pagerefs r).pageaddr_and_blocktype uses_retired r
  unfolding uses_retired page_at
  r-Spare = record {
    non_null = page.non_null;
    stored = keeps _ table page.stored (λ x. cc);
    page = inr (update_same uses _ (empty r));
  }

  recycled-SubpageOk : SubpageOk h.pagerefs (r ∷ spares h) recycled.sizebases uses_retired
  unfolding recycled
  recycled-SubpageOk = record {
    spare_distinct = (r-not_spare, s.subpages.spare_distinct);
    spare_ok = λ q m. elim (Bool-cases (q == r)) [
      | inl e ↦
          subst (λ z. Spare (h.pagerefs z).pageaddr_and_blocktype uses_retired z) (sym (==→≡ q r e))
            r-Spare
      | inr e ↦
          retag-Spare (small r) uses uses_retired keeps _ q (λ x. cc) (λ x. cc)
            (s.subpages.spare_ok q (other_spare q e m))
    ];
    base_distinct = λ j. Distinct-unlisted h.sizebases i r j s.subpages.base_distinct;
    base_ok = λ j q m.
        let (old, gone) = unlisted h.sizebases i r j q s.subpages.base_distinct m in
        retag-Page (small r) uses uses_retired keeps _ j q
          (λ x.
            cc (
              gone (same_list j q old (cc x)),
              ==_self q,
              ap (λ z. q == z) (small-injective q r x),
            ))
          (λ x. cc) (s.subpages.base_ok j q old);
  }
    where
      other_spare :
          (q : ℕ) → (q == r) ≡ false → has q (r ∷ spares h) ≡ true → has q (spares h) ≡ true
      other_spare q e m = ground (arith, e, m)

      same_list : (j q : ℕ) → has q (h.sizebases j) ≡ true → q ≡ r → j ≡ i
      same_list j q m e =
          based_once _ _ _ uses s.subpages j i r (subst (λ z. has z (h.sizebases j) ≡ true) e m)
            listed

      ==_self : (q : ℕ) → (q == q) ≡ true
      ==_self q = ground arith

      small-injective : (q r : ℕ) → small q ≡ small r → q ≡ r
      small-injective q r x = cc x

  recycled-Held :
      (h.pagerefs r).nfree ≡ page_size / size_of i
      → (b : Held) → HeldOk h uses b
      → HeldOk recycled uses_retired b
  unfolding recycled
  recycled-Held full b (inr (c, g)) =
      inr (c, retag-HeldBig (small r) uses uses_retired keeps h.npages c b (λ x. cc) g)
  recycled-Held full b (inl (j, q, g)) = inl (
    j,
    q,
    record {
      listed =
          still_listed h.sizebases i r j q s.subpages.base_distinct
            (≢→== q r (λ e.
              let at : has r (h.sizebases j) ≡ true =
                subst (λ z. has z (h.sizebases j) ≡ true) e g.listed in
              let size : j ≡ i = based_once _ _ _ uses s.subpages j i r at listed in
              not_full (h.pagerefs r) uses i r b.addr page
                (subst
                  (λ z.
                    Block (pr_pageaddr (h.pagerefs r).pageaddr_and_blocktype) (size_of z)
                      (page_size / size_of z) b.addr)
                  size
                  (subst
                    (λ z.
                      Block (pr_pageaddr (h.pagerefs z).pageaddr_and_blocktype) (size_of j)
                        (page_size / size_of j) b.addr)
                    e g.block))
                (subst (λ z. has b.addr (h.pagerefs z).flist ≡ false) e g.held) full))
            g.listed;
      block = g.block;
      held = g.held;
      fits = g.fits;
    },
  )

  recycled-IsSound : (h.pagerefs r).nfree ≡ page_size / size_of i → IsSound recycled uses_retired bs
  unfolding recycled
  recycled-IsSound full = record {
    segment = retag-SegmentOk (small r) uses uses_retired keeps _ _ _ (λ x. cc) s.segment;
    subpages = recycled-SubpageOk;
    big = retag-BigOk (small r) uses uses_retired keeps h.npages h.bigchunks (λ a m x. cc) s.big;
    held =
        AllHeld-map (HeldOk h uses) (HeldOk recycled uses_retired) bs (recycled-Held full) s.held;
    addrs = s.addrs;
  }

  -- A struct whose page is wholly free goes back to the spare ones, the others stay.
  pub retire-IsSound :
      (h' : Heap) × (uses' : PageTable) × (retire r i h ≡ ok h') × IsSound h' uses' bs
  unfolding retire remove_lists
  retire-IsSound = elim (Bool-cases ((h.pagerefs r).nfree == page_size / size_of i)) [
    | inl e ↦ (
      recycled,
      uses_retired,
      rw (most, e, index) (unfold recycled in refl),
      recycled-IsSound (==→≡ _ _ e),
    )
    | inr e ↦ (h, uses, rw (most, e) refl, s)
  ]
    where
      most : leb (h.pagerefs r).nfree (page_size / size_of i) ≡ true
      most = ground (arith, flist-le (h.pagerefs r) uses i r page)

      index : ltb i nsizes ≡ true
      index = ground (arith, page.index)
