-- ===== src/Kheap/Search.antt =====
-- The search of `subpage_kfree` of A2/allocators/kheap/kheap.c for the page of an address.
use csc469_advanced_operatin.Base.{
  ℕ, zero, suc, ◌+◌, ◌≤◌, ◌<◌, ◌≡◌, refl, sym, subst, Bool, true, false, ◌&&◌, List, [], ◌∷◌,
  Option, none, some, arith, ◌==◌, ltb, leb, ◌⊎◌, inl, inr, has, Bool-cases, ==→≡,
}
use csc469_advanced_operatin.Kheap.State.{
  page_size, Outcome, ok, PageRef, pr_pageaddr, pr_blocktype, Heap,
}
use csc469_advanced_operatin.Kheap.Subpage.{nsizes, page_holding, search_pages}
use csc469_advanced_operatin.Kheap.Apart.{OnPage}

abbrev InList : ℕ → (ℕ → PageRef) → List ℕ → Outcome (Option ℕ) → Type 0
InList a refs prs o =
    ((o ≡ ok none) × ((r : ℕ) → has r prs ≡ true → ¬ OnPage refs r a))
    ⊎ ((r : ℕ) × (o ≡ ok (some r)) × (has r prs ≡ true) × OnPage refs r a)

on_page : (w a : ℕ) → Bool
on_page w a = leb (pr_pageaddr w) a && ltb a (pr_pageaddr w + page_size)

on_page-true : (w a : ℕ) → on_page w a ≡ true → (pr_pageaddr w ≤ a) × (a < pr_pageaddr w + 4096)
unfolding on_page
on_page-true w a e = (ground (arith, e), ground (arith, e))

on_page-false :
    (w a : ℕ) → on_page w a ≡ false → ¬ ((pr_pageaddr w ≤ a) × (a < pr_pageaddr w + 4096))
unfolding on_page
on_page-false w a e (lo, hi) = ground (arith, e, lo, hi)

page_holding-InList :
    (a : ℕ) (refs : ℕ → PageRef) (prs : List ℕ)
    → ((r : ℕ) → has r prs ≡ true → pr_blocktype (refs r).pageaddr_and_blocktype < nsizes)
    → InList a refs prs (page_holding a refs prs)
unfolding page_holding on_page
page_holding-InList a refs [] k = inl (refl, λ r m. cc)
page_holding-InList a refs (x ∷ xs) k =
    elim (Bool-cases (on_page (refs x).pageaddr_and_blocktype a)) [
      | inl e ↦ inr (x, rw (kind, e) refl, ground arith, on_page-true _ a e)
      | inr e ↦ elim (page_holding-InList a refs xs (λ r m. k r (ground (arith, m)))) [
        | inl (f, no_page) ↦ inl (
          rw (kind, e) f,
          λ r m. elim (Bool-cases (r == x)) [
            | inl same ↦ subst (λ z. ¬ OnPage refs z a) (sym (==→≡ r x same)) (on_page-false _ a e)
            | inr other ↦ no_page r (rest r other m)
          ],
        )
        | inr (r, f, m, on) ↦ inr (r, rw (kind, e) f, ground (arith, m), on)
      ]
    ]
  where
    kind : ltb (pr_blocktype (refs x).pageaddr_and_blocktype) nsizes ≡ true
    kind = ground (arith, k x)

    rest : (r : ℕ) → (r == x) ≡ false → has r (x ∷ xs) ≡ true → has r xs ≡ true
    rest r other m = ground (arith, other, m)

-- What the search over the lists from the i-th on returns.
abbrev pub InPages : ℕ → Heap → ℕ → ℕ → Outcome (Option ℕ) → Type 0
InPages a h i n o =
    ((o ≡ ok none)
      × ((j r : ℕ) → i ≤ j → j < i + n → has r (h.sizebases j) ≡ true → ¬ OnPage h.pagerefs r a))
    ⊎ ((j : ℕ) × (r : ℕ) × (o ≡ ok (some r))
        × (has r (h.sizebases j) ≡ true)
        × OnPage h.pagerefs r a)

first_or_later : (i j : ℕ) → i ≤ j → (j ≡ i) ⊎ (i + 1 ≤ j)
first_or_later i j le = elim (Bool-cases (j == i)) [
  | inl e ↦ inl (==→≡ j i e)
  | inr e ↦ inr (ground (arith, e, le))
]

pub search_pages-InPages :
    (a : ℕ) (h : Heap) (i n : ℕ)
    → ((j r : ℕ)
        → has r (h.sizebases j) ≡ true
        → pr_blocktype (h.pagerefs r).pageaddr_and_blocktype < nsizes)
    → InPages a h i n (search_pages a h i n)
unfolding search_pages
search_pages-InPages a h i zero k = inl (refl, λ j r lo hi. absurd (omega arith))
search_pages-InPages a h i (suc n) k =
    elim (page_holding-InList a h.pagerefs (h.sizebases i) (k i)) [
      | inr (r, e, m, on) ↦ inr (i, r, rw e refl, m, on)
      | inl (e, no_page) ↦ elim (search_pages-InPages a h (i + 1) n k) [
        | inl (f, later) ↦ inl (
          rw e f,
          λ j r lo hi m. elim (first_or_later i j lo) [
            | inl same ↦ no_page r (subst (λ z. has r (h.sizebases z) ≡ true) same m)
            | inr more ↦ later j r more (omega arith) m
          ],
        )
        | inr (j, r, f, m, on) ↦ inr (j, r, rw e f, m, on)
      ]
    ]
