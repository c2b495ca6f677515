-- ===== src/Kheap/Modify.antt =====
-- A change of one page's free list, in the heap of A2/allocators/kheap/kheap.c.
use csc469_advanced_operatin.Base.{
  ℕ, ◌/◌, ◌≡◌, sym, ap, subst, ◌∙◌, true, false, List, ◌==◌, inl, inr, has, ==→≡, Bool-cases,
}
use csc469_advanced_operatin.Kheap.State.{page_size, PageRef, pr_pageaddr, update}
use csc469_advanced_operatin.Kheap.Subpage.{size_of}
use csc469_advanced_operatin.Kheap.Blocks.{Block}
use csc469_advanced_operatin.Kheap.Pages.{update_same, update_other}
use csc469_advanced_operatin.Kheap.Sound.{PageTable, Page, Spare, SubpageOk, Held, HeldSmall}

module _ (refs : ℕ → PageRef) (r : ℕ) (p : PageRef)
    (same_page : p.pageaddr_and_blocktype ≡ (refs r).pageaddr_and_blocktype) where
  modify-word :
      (q : ℕ) → (refs q).pageaddr_and_blocktype ≡ (update refs r p q).pageaddr_and_blocktype
  modify-word q = elim (Bool-cases (q == r)) [
    | inl e ↦
        ap (λ z. (refs z).pageaddr_and_blocktype) (==→≡ q r e)
        ∙ sym same_page
        ∙ ap (λ (x : PageRef). x.pageaddr_and_blocktype)
            (sym (update_same refs r p) ∙ ap (λ z. update refs r p z) (sym (==→≡ q r e)))
    | inr e ↦ ap (λ (x : PageRef). x.pageaddr_and_blocktype) (sym (update_other refs r p q e))
  ]

  -- Each page of the lists stays one if the changed page does.
  pub modify-SubpageOk :
      (spare : List ℕ) (bases : ℕ → List ℕ) (uses : PageTable)
      → ((i : ℕ) → has r (bases i) ≡ true → Page (refs r) uses i r → Page p uses i r)
      → SubpageOk refs spare bases uses
      → SubpageOk (update refs r p) spare bases uses
  modify-SubpageOk spare bases uses keep s = record {
    spare_distinct = s.spare_distinct;
    spare_ok = λ q m. subst (λ w. Spare w uses q) (modify-word q) (s.spare_ok q m);
    base_distinct = s.base_distinct;
    base_ok = λ i q m. elim (Bool-cases (q == r)) [
      | inl e ↦
          subst (λ z. Page (update refs r p z) uses i z) (sym (==→≡ q r e))
            (subst (λ x. Page x uses i r) (sym (update_same refs r p))
              (keep i (subst (λ z. has z (bases i) ≡ true) (==→≡ q r e) m)
                (s.base_ok i r (subst (λ z. has z (bases i) ≡ true) (==→≡ q r e) m))))
      | inr e ↦ subst (λ x. Page x uses i q) (sym (update_other refs r p q e)) (s.base_ok i q m)
    ];
  }

  modify-flist :
      (a q : ℕ)
      → (has a (refs r).flist ≡ false → has a p.flist ≡ false)
      → has a (refs q).flist ≡ false
      → has a (update refs r p q).flist ≡ false
  modify-flist a q keep m = elim (Bool-cases (q == r)) [
    | inl e ↦
        subst (λ z. has a (update refs r p z).flist ≡ false) (sym (==→≡ q r e))
          (subst (λ (x : PageRef). has a x.flist ≡ false) (sym (update_same refs r p))
            (keep (subst (λ z. has a (refs z).flist ≡ false) (==→≡ q r e) m)))
    | inr e ↦ subst (λ (x : PageRef). has a x.flist ≡ false) (sym (update_other refs r p q e)) m
  ]

  -- So does each block that is held, if it stays out of the changed list.
  pub modify-HeldSmall :
      (bases : ℕ → List ℕ) (i q : ℕ) (b : Held)
      → (has b.addr (refs r).flist ≡ false → has b.addr p.flist ≡ false)
      → HeldSmall refs bases i q b
      → HeldSmall (update refs r p) bases i q b
  modify-HeldSmall bases i q b keep s = record {
    listed = s.listed;
    block =
        subst (λ w. Block (pr_pageaddr w) (size_of i) (page_size / size_of i) b.addr)
          (modify-word q) s.block;
    held = modify-flist b.addr q keep s.held;
    fits = s.fits;
  }
