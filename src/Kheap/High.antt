-- ===== src/Kheap/High.antt =====
-- `mm_free` of A2/allocators/kheap/kheap.c at addresses above 4 GB.
use csc469_advanced_operatin.Base.{
  ℕ, ◌^◌, ◌≤◌, ◌<◌, ◌≡◌, ◌≢◌, refl, true, none, arith, inl, inr, has, ≢→==,
}
use csc469_advanced_operatin.Kheap.State.{ok, pr_blocktype, Heap}
use csc469_advanced_operatin.Kheap.Subpage.{nsizes, search_pages, subpage_kfree}
use csc469_advanced_operatin.Kheap.Big.{big_kfree}
use csc469_advanced_operatin.Kheap.Malloc.{mm_free, free_either}
use csc469_advanced_operatin.Kheap.Pages.{pr_pageaddr-whole, pr_pageaddr-lt}
use csc469_advanced_operatin.Kheap.Search.{search_pages-InPages}

missed :
    (a : ℕ) (h : Heap)
    → a ≢ 0
    → search_pages a h 0 nsizes ≡ ok none
    → mm_free a h ≡ ok (big_kfree a h)
unfolding mm_free free_either subpage_kfree
missed a h ne e = rw (≢→== _ _ ne, e) refl

-- The word of a page keeps 32 bits of its address, so a page above 4 GB is not found again:
-- whatever block at such an address is freed, small ones too, `mm_free` takes it for a large one
-- and puts it into the list of the free chunks. This holds in every heap whose page structs have
-- one of the nine sizes.
pub mm_free-high :
    (a : ℕ) (h : Heap)
    → 2 ^ 32 ≤ a
    → ((i r : ℕ)
        → has r (h.sizebases i) ≡ true
        → pr_blocktype (h.pagerefs r).pageaddr_and_blocktype < nsizes)
    → mm_free a h ≡ ok (big_kfree a h)
mm_free-high a h high kinds = elim (search_pages-InPages a h 0 nsizes kinds) [
  | inl (e, _) ↦ missed a h (λ z. omega arith) e
  | inr (j, r, e, m, on) ↦ absurd (
      omega (
        arith,
        on.1,
        pr_pageaddr-lt (h.pagerefs r).pageaddr_and_blocktype,
        pr_pageaddr-whole (h.pagerefs r).pageaddr_and_blocktype,
      ))
]
