-- ===== src/Kheap/Install.antt =====
-- A page of A2/allocators/kheap/kheap.c that gets blocks of a size: its memory, its place in the
-- list of the size, and the return of its struct where there is no memory.
use csc469_advanced_operatin.Base.{
  ℕ, ◌+◌, ◌*◌, ◌/◌, ◌^◌, ◌<◌, ◌≡◌, ◌≢◌, sym, ap, subst, ◌∙◌, true, false, List, ◌∷◌, arith, ◌==◌,
  ◌⊎◌, inl, inr, has, Bool-cases, ==→≡, ==→≢,
}
use csc469_advanced_operatin.Kheap.State.{ok, pr_pageaddr, Heap}
use csc469_advanced_operatin.Kheap.Subpage.{freepageref, page_of}
use csc469_advanced_operatin.Kheap.Pages.{pr_pageaddr-whole, pr_pageaddr-lt}
use csc469_advanced_operatin.Kheap.Sound.{
  Purpose, untouched, empty, PageTable, Spare, spares, Held, HeldOk, IsSound,
}
use csc469_advanced_operatin.Kheap.Retag.{
  set_pages, retag-SubpageOk, retag-Spare, retag-BigOk, retag-HeldBig,
}
use csc469_advanced_operatin.Kheap.Segment.{Full, Grown, Retags-Grown, mem_sbrk-Grown}
use csc469_advanced_operatin.Kheap.Refs.{AllHeld-map, Open, set_page-at}

-- More pages for the segment change nothing else.
pub grow-IsSound :
    (h : Heap) (uses : PageTable) (bs : List Held) (n k : ℕ) (new : Purpose)
    → Grown h uses n k
    → IsSound h uses bs
    → IsSound (record h { dseg_hi = h.dseg_hi + n * 4096 }) (set_pages uses k n new) bs
grow-IsSound h uses bs n k new g s =
    let h' : Heap = record h { dseg_hi = h.dseg_hi + n * 4096 } in
    let uses' = set_pages uses k n new in
    let keeps = Retags-Grown n k new g in
    record {
      segment = g.segment new;
      subpages =
          retag-SubpageOk untouched uses uses' keeps _ _ _ (λ r m x. cc) (λ i r m x. cc) (λ x. cc)
            s.subpages;
      big = retag-BigOk untouched uses uses' keeps h.npages h.bigchunks (λ a m x. cc) s.big;
      held =
          AllHeld-map (HeldOk h uses) (HeldOk h' uses') bs
            (λ b o. elim o [
              | inl g ↦ inl g
              | inr (c, g) ↦
                  inr (c, retag-HeldBig untouched uses uses' keeps h.npages c b (λ x. cc) g)
            ])
            s.held;
      addrs = s.addrs;
    }

-- The struct `r` has the wholly free page `k`.
pub record Ready (h : Heap) (uses : PageTable) (bs : List Held) (r k : ℕ) : Type 0 where
  pub opened : Open h uses bs r
  pub here : uses k ≡ empty r
  pub non_null : (k * 4096) ≢ 0
  pub fits : k * 4096 < 2 ^ 32

abbrev pub PageResult : Heap → PageTable → List Held → ℕ → Type 0
PageResult h uses bs r =
    ((page_of r h ≡ ok (0, h)) × Full 1 h)
    ⊎ ((k : ℕ) × (h' : Heap) × (uses' : PageTable) × (page_of r h ≡ ok (k * 4096, h'))
        × Ready h' uses' bs r k)

module _ (h : Heap) (uses : PageTable) (bs : List Held) (r : ℕ) (o : Open h uses bs r) where
  grow-Ready :
      (k : ℕ)
      → Grown h uses 1 k
      → Ready (record h { dseg_hi = h.dseg_hi + 1 * 4096 }) (set_pages uses k 1 (empty r)) bs r k
  grow-Ready k g = record {
    opened = record {
      sound = grow-IsSound h uses bs 1 k (empty r) g o.sound;
      non_listed = o.non_listed;
      spare =
          retag-Spare untouched uses _ (Retags-Grown 1 k (empty r) g) _ r (λ x. cc) (λ x. cc)
            o.spare;
    };
    here = set_page-at uses k (empty r);
    non_null = g.non_null;
    fits = omega (arith, g.fits);
  }

  pub page_of-Ready : PageResult h uses bs r
  unfolding page_of
  page_of-Ready = elim (Bool-cases (pr_pageaddr (h.pagerefs r).pageaddr_and_blocktype == 0)) [
    | inl e ↦ elim (mem_sbrk-Grown h uses o.sound.segment 1 (omega arith)) [
      | inl (out, full) ↦ inl (rw e out, full)
      | inr (k, g) ↦ inr (k, _, _, rw e g.result, grow-Ready k g)
    ]
    | inr e ↦ inr (
      pr_pageaddr (h.pagerefs r).pageaddr_and_blocktype / 4096,
      h,
      uses,
      rw e (ap (λ (a : ℕ). ok (a, h)) (pr_pageaddr-whole _)),
      record {
        opened = o;
        here = elim o.spare.page [ inl z ↦ absurd (==→≢ _ _ e z) | inr u ↦ u ];
        non_null = λ z. ==→≢ _ _ e (pr_pageaddr-whole _ ∙ z);
        fits = omega (
          arith,
          pr_pageaddr-whole (h.pagerefs r).pageaddr_and_blocktype,
          pr_pageaddr-lt (h.pagerefs r).pageaddr_and_blocktype,
        );
      },
    )
  ]

  -- The struct goes back among the spare ones.
  pub freepageref-IsSound : IsSound (freepageref r h) uses bs
  unfolding freepageref
  freepageref-IsSound = record {
    segment = o.sound.segment;
    subpages = record {
      spare_distinct = (o.non_listed, o.sound.subpages.spare_distinct);
      spare_ok = λ q m. elim (Bool-cases (q == r)) [
        | inl e ↦
            subst (λ z. Spare (h.pagerefs z).pageaddr_and_blocktype uses z) (sym (==→≡ q r e))
              o.spare
        | inr e ↦ o.sound.subpages.spare_ok q (other q e m)
      ];
      base_distinct = o.sound.subpages.base_distinct;
      base_ok = o.sound.subpages.base_ok;
    };
    big = o.sound.big;
    held = o.sound.held;
    addrs = o.sound.addrs;
  }
    where
      other : (q : ℕ) → (q == r) ≡ false → has q (r ∷ spares h) ≡ true → has q (spares h) ≡ true
      other q e m = ground (arith, e, m)
