-- ===== src/Kheap/NewPage.antt =====
-- `install` of the model: a page of A2/allocators/kheap/kheap.c is cut into blocks of one size and
-- put into the list of that size.
use csc469_advanced_operatin.Base.{
  ℕ, ◌*◌, ◌/◌, ◌^◌, ◌<◌, ◌≡◌, ◌≢◌, sym, ap, subst, ◌∙◌, true, false, List, ◌∷◌, arith, ◌==◌, ◌⊎◌,
  inl, inr, has, Distinct, Bool-cases, ==→≡, ==→≢, ≢→==,
}
use csc469_advanced_operatin.Kheap.State.{page_size, PageRef, pr_pageaddr, mkpab, Heap, update}
use csc469_advanced_operatin.Kheap.Subpage.{nsizes, size_of, free_blocks, install}
use csc469_advanced_operatin.Kheap.Blocks.{
  Block, size_of-Fills, length-free_blocks, free_blocks-Block, Distinct-free_blocks,
}
use csc469_advanced_operatin.Kheap.Pages.{
  update_same, update_other, pr_pageaddr-mkpab, pr_blocktype-mkpab,
}
use csc469_advanced_operatin.Kheap.Sound.{
  table, small, empty, PageTable, Page, Spare, spares, SubpageOk, Held, HeldOk, IsSound,
}
use csc469_advanced_operatin.Kheap.Retag.{
  Retags, Retags-update, retag-Page, retag-Spare, retag-BigOk, retag-HeldBig, retag-SegmentOk,
}
use csc469_advanced_operatin.Kheap.Refs.{AllHeld-map, Spare-not_based}
use csc469_advanced_operatin.Kheap.Install.{Ready}

-- The struct of the page behind `install`.
abbrev pub filled : ℕ → ℕ → PageRef
filled k i = record {
  flist = free_blocks (k * 4096) (size_of i) (page_size / size_of i);
  pageaddr_and_blocktype = mkpab (k * 4096) i;
  nfree = page_size / size_of i;
}

listed_cases :
    (bases : ℕ → List ℕ) (i r j q : ℕ)
    → has q (update bases i (r ∷ bases i) j) ≡ true
    → ((q ≡ r) × (j ≡ i)) ⊎ (has q (bases j) ≡ true)
listed_cases bases i r j q m = elim (Bool-cases (j == i)) [
  | inr e ↦ inr (subst (λ l. has q l ≡ true) (update_other bases i _ j e) m)
  | inl e ↦
      let at : update bases i (r ∷ bases i) j ≡ r ∷ bases i =
        ap (update bases i (r ∷ bases i)) (==→≡ j i e) ∙ update_same bases i _ in
      elim (Bool-cases (q == r)) [
        | inl f ↦ inl (==→≡ q r f, ==→≡ j i e)
        | inr f ↦ inr (
            subst (λ z. has q (bases z) ≡ true) (sym (==→≡ j i e))
              (tail q f (subst (λ l. has q l ≡ true) at m)))
      ]
]
  where
    tail : (q : ℕ) → (q == r) ≡ false → has q (r ∷ bases i) ≡ true → has q (bases i) ≡ true
    tail q f m = ground (arith, f, m)

listed_still :
    (bases : ℕ → List ℕ) (i r j q : ℕ)
    → has q (bases j) ≡ true
    → has q (update bases i (r ∷ bases i) j) ≡ true
listed_still bases i r j q m = elim (Bool-cases (j == i)) [
  | inr e ↦ subst (λ l. has q l ≡ true) (sym (update_other bases i _ j e)) m
  | inl e ↦
      subst (λ z. has q (update bases i (r ∷ bases i) z) ≡ true) (sym (==→≡ j i e))
        (subst (λ l. has q l ≡ true) (sym (update_same bases i _))
          (more (subst (λ z. has q (bases z) ≡ true) (==→≡ j i e) m)))
]
  where
    more : has q (bases i) ≡ true → has q (r ∷ bases i) ≡ true
    more m = ground (arith, m)

Distinct-listed :
    (bases : ℕ → List ℕ) (i r j : ℕ)
    → has r (bases i) ≡ false
    → ((j : ℕ) → Distinct (bases j))
    → Distinct (update bases i (r ∷ bases i) j)
Distinct-listed bases i r j new d = elim (Bool-cases (j == i)) [
  | inr e ↦ subst Distinct (sym (update_other bases i _ j e)) (d j)
  | inl e ↦
      subst (λ z. Distinct (update bases i (r ∷ bases i) z)) (sym (==→≡ j i e))
        (subst Distinct (sym (update_same bases i (r ∷ bases i))) (new, d i))
]

filled-Page :
    (uses : PageTable) (k i r : ℕ)
    → i < 9
    → r ≢ 0
    → (k * 4096) ≢ 0
    → k * 4096 < 2 ^ 32
    → uses k ≡ small r
    → uses (r / 4096) ≡ table
    → Page (filled k i) uses i r
filled-Page uses k i r lt non_null pos fits here stored =
    let addr : pr_pageaddr (mkpab (k * 4096) i) ≡ k * 4096 =
      pr_pageaddr-mkpab (k * 4096) i (omega arith) fits (omega arith) in
    let size : 0 < size_of i = omega (arith, (size_of-Fills i lt).small) in
    record {
      non_null = non_null;
      index = lt;
      kind = pr_blocktype-mkpab (k * 4096) i (omega arith);
      place = λ z. pos (sym addr ∙ z);
      purpose = ap uses (omega (arith, addr)) ∙ here;
      stored = stored;
      count = sym (length-free_blocks (k * 4096) (size_of i) size (page_size / size_of i));
      different = Distinct-free_blocks (k * 4096) (size_of i) size (page_size / size_of i);
      blocks = λ a m.
          subst (λ z. Block z (size_of i) (page_size / size_of i) a) (sym addr)
            (free_blocks-Block (k * 4096) (size_of i) size (page_size / size_of i) a m);
    }

module _ (h : Heap) (uses : PageTable) (bs : List Held) (r k i : ℕ) (o : Ready h uses bs r k)
    (lt : i < nsizes) where
  pub uses_with : PageTable
  uses_with = update uses k (small r)

  keeps : Retags (empty r) uses uses_with
  unfolding uses_with
  keeps = Retags-update uses k (empty r) (small r) o.here

  not_based : (j : ℕ) → has r (h.sizebases j) ≡ false
  not_based = Spare-not_based h.pagerefs _ h.sizebases uses r o.opened.sound.subpages o.opened.spare

  other_based : (j q : ℕ) → has q (h.sizebases j) ≡ true → (q == r) ≡ false
  other_based j q m = ≢→== q r (λ e. cc (m, not_based j, ap (λ z. has z (h.sizebases j)) e))

  other_spare : (q : ℕ) → has q (spares h) ≡ true → (q == r) ≡ false
  other_spare q m = ≢→== q r (λ e. cc (m, o.opened.non_listed, ap (λ z. has z (spares h)) e))

  refs' : ℕ → PageRef
  refs' = update h.pagerefs r (filled k i)

  refs-other : (q : ℕ) → (q == r) ≡ false → h.pagerefs q ≡ refs' q
  unfolding refs'
  refs-other q e = sym (update_other h.pagerefs r (filled k i) q e)

  empty_ne : (q : ℕ) → (q == r) ≡ false → empty q ≢ empty r
  empty_ne q e x = ==→≢ q r e (cc x)

  install-SubpageOk :
      SubpageOk refs' (spares h) (update h.sizebases i (r ∷ h.sizebases i)) uses_with
  unfolding refs' uses_with
  install-SubpageOk = record {
    spare_distinct = o.opened.sound.subpages.spare_distinct;
    spare_ok = λ q m.
        subst (λ (p : PageRef). Spare p.pageaddr_and_blocktype uses_with q)
          (refs-other q (other_spare q m))
          (retag-Spare (empty r) uses uses_with keeps _ q (empty_ne q (other_spare q m)) (λ x. cc)
            (o.opened.sound.subpages.spare_ok q m));
    base_distinct =
        λ j. Distinct-listed h.sizebases i r j (not_based i) o.opened.sound.subpages.base_distinct;
    base_ok = λ j q m. elim (listed_cases h.sizebases i r j q m) [
      | inl (eq, ej) ↦
          subst (λ z. Page (refs' q) uses_with z q) (sym ej)
            (subst (λ z. Page (refs' z) uses_with i z) (sym eq)
              (subst (λ p. Page p uses_with i r) (sym (update_same h.pagerefs r (filled k i)))
                (filled-Page uses_with k i r lt o.opened.spare.non_null o.non_null o.fits
                  (update_same uses k (small r)) (keeps _ table o.opened.spare.stored (λ x. cc)))))
      | inr old ↦
          subst (λ p. Page p uses_with j q) (refs-other q (other_based j q old))
            (retag-Page (empty r) uses uses_with keeps _ j q (λ x. cc) (λ x. cc)
              (o.opened.sound.subpages.base_ok j q old))
    ];
  }

  install-Held : (b : Held) → HeldOk h uses b → HeldOk (install r i (k * 4096) h) uses_with b
  unfolding install refs'
  install-Held b (inr (c, g)) =
      inr (c, retag-HeldBig (empty r) uses uses_with keeps h.npages c b (λ x. cc) g)
  install-Held b (inl (j, q, g)) =
      let same : h.pagerefs q ≡ refs' q = refs-other q (other_based j q g.listed) in
      inl (
        j,
        q,
        record {
          listed = listed_still h.sizebases i r j q g.listed;
          block =
              subst
                (λ (p : PageRef).
                  Block (pr_pageaddr p.pageaddr_and_blocktype) (size_of j) (page_size / size_of j)
                    b.addr)
                same g.block;
          held = subst (λ (p : PageRef). has b.addr p.flist ≡ false) same g.held;
          fits = g.fits;
        },
      )

  pub install-IsSound : IsSound (install r i (k * 4096) h) uses_with bs
  unfolding install refs'
  install-IsSound = record {
    segment = retag-SegmentOk (empty r) uses uses_with keeps _ _ _ (λ x. cc) o.opened.sound.segment;
    subpages = install-SubpageOk;
    big =
        retag-BigOk (empty r) uses uses_with keeps h.npages h.bigchunks (λ a m x. cc)
          o.opened.sound.big;
    held =
        AllHeld-map (HeldOk h uses) (HeldOk (install r i (k * 4096) h) uses_with) bs install-Held
          o.opened.sound.held;
    addrs = o.opened.sound.addrs;
  }

  pub install-listed :
      (has r ((install r i (k * 4096) h).sizebases i) ≡ true)
      × ((install r i (k * 4096) h).pagerefs r ≡ filled k i)
  unfolding install
  install-listed = (
    subst (λ l. has r l ≡ true) (sym (update_same h.sizebases i (r ∷ h.sizebases i)))
        (ground arith),
    update_same h.pagerefs r (filled k i),
  )
