-- ===== src/Kheap/Segment.antt =====
-- What `mem_sbrk` of A2/util/memlib.c gives for whole pages.
use csc469_advanced_operatin.Base.{
  ℕ, ◌+◌, ◌*◌, ◌/◌, ◌^◌, ◌≤◌, ◌<◌, ◌≡◌, ◌≢◌, refl, sym, ap, ◌∙◌, true, false, arith, ltb, ◌⊎◌, inl,
  inr, Bool-cases,
}
use csc469_advanced_operatin.Kheap.State.{ok, Heap, mem_sbrk}
use csc469_advanced_operatin.Kheap.Sound.{Purpose, untouched, PageTable, SegmentOk}
use csc469_advanced_operatin.Kheap.Retag.{Retags, Retags-set_pages, set_pages, set_pages-outside}

-- No room for `n` more pages.
abbrev pub Full : ℕ → Heap → Type 0
Full n h = h.dseg_lo + h.dseg_size < h.dseg_hi + n * 4096

-- `n` pages from page `k` on that were untouched and belong to the segment now.
pub record Grown (h : Heap) (uses : PageTable) (n k : ℕ) : Type 0 where
  pub result : mem_sbrk (n * 4096) h ≡ ok (k * 4096, record h { dseg_hi = h.dseg_hi + n * 4096 })
  pub non_null : (k * 4096) ≢ 0
  pub fresh : (j : ℕ) → uses (k + j) ≡ untouched
  pub fits : k * 4096 + n * 4096 < 2 ^ 32
  pub segment :
      (new : Purpose)
      → SegmentOk h.dseg_lo (h.dseg_hi + n * 4096) h.dseg_size (set_pages uses k n new)

pub Retags-Grown :
    {h : Heap} {uses : PageTable} (n k : ℕ) (new : Purpose)
    → Grown h uses n k
    → Retags untouched uses (set_pages uses k n new)
Retags-Grown n k new g = Retags-set_pages _ k n untouched new (λ j _. g.fresh j)

module _ (h : Heap) (uses : PageTable) (s : SegmentOk h.dseg_lo h.dseg_hi h.dseg_size uses) where
  start_at : (h.dseg_hi + 1) / 4096 * 4096 ≡ h.dseg_hi + 1
  start_at = omega (arith, s.top)

  sbrk_more :
      (n : ℕ)
      → 0 < n
      → ltb (h.dseg_lo + h.dseg_size) (h.dseg_hi + n * 4096) ≡ false
      → mem_sbrk (n * 4096) h ≡ ok (h.dseg_hi + 1, record h { dseg_hi = h.dseg_hi + n * 4096 })
  unfolding mem_sbrk
  sbrk_more n pos e = rw (positive, e) refl
    where
      positive : ltb 0 (n * 4096) ≡ true
      positive = ground arith

  sbrk_no_more :
      (n : ℕ)
      → 0 < n
      → ltb (h.dseg_lo + h.dseg_size) (h.dseg_hi + n * 4096) ≡ true
      → mem_sbrk (n * 4096) h ≡ ok (0, h)
  unfolding mem_sbrk
  sbrk_no_more n pos e = rw (positive, e) refl
    where
      positive : ltb 0 (n * 4096) ≡ true
      positive = ground arith

  grown-SegmentOk :
      (n : ℕ) (new : Purpose)
      → h.dseg_hi + n * 4096 ≤ h.dseg_lo + h.dseg_size
      → SegmentOk h.dseg_lo
          (h.dseg_hi + n * 4096)
          h.dseg_size
          (set_pages uses ((h.dseg_hi + 1) / 4096) n new)
  grown-SegmentOk n new le = record {
    positive = s.positive;
    start = s.start;
    top = omega (arith, s.top);
    ordered = omega (arith, s.ordered);
    inside = le;
    below = s.below;
    rest =
        λ k b. set_pages-outside uses _ n new k (ground (arith, start_at)) ∙ s.rest k (omega arith);
    before = λ k b.
        set_pages-outside uses _ n new k (ground (arith, start_at, s.ordered, b)) ∙ s.before k b;
  }

  -- Either there is no room, and nothing changes, or the segment grows.
  pub mem_sbrk-Grown :
      (n : ℕ)
      → 0 < n
      → ((mem_sbrk (n * 4096) h ≡ ok (0, h)) × Full n h) ⊎ ((k : ℕ) × Grown h uses n k)
  mem_sbrk-Grown n pos = elim (Bool-cases (ltb (h.dseg_lo + h.dseg_size) (h.dseg_hi + n * 4096))) [
    | inl e ↦ inl (sbrk_no_more n pos e, ground (arith, e))
    | inr e ↦ inr (
      (h.dseg_hi + 1) / 4096,
      record {
        result =
            sbrk_more n pos e
            ∙ ap (λ (a : ℕ). ok (a, record h { dseg_hi = h.dseg_hi + n * 4096 })) (sym start_at);
        non_null = λ z. omega (arith, start_at, z);
        fresh = λ j. s.rest _ (omega (arith, start_at));
        fits = ground (arith, start_at, s.below, s.ordered, e);
        segment = λ new. grown-SegmentOk n new (ground (arith, e));
      },
    )
  ]
