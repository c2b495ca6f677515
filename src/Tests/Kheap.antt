-- ===== src/Tests/Kheap.antt =====
-- Calls of the allocator from its first heap on, and its theorems at the heaps that they reach.
use csc469_advanced_operatin.Base.{
  ℕ, ◌+◌, ◌^◌, ◌≤◌, ◌<◌, ◌≡◌, ◌≢◌, refl, true, List, [], ◌∷◌, none, some, ◌⊎◌, inl, inr, arith, has,
  ◌==◌, Bool-cases,
}
use csc469_advanced_operatin.Kheap.State.{
  page_size, Outcome, ok, Heap, mem_init, mem_sbrk, update, pr_pageaddr, pr_blocktype, mkpab,
}
use csc469_advanced_operatin.Kheap.Subpage.{
  install, nsizes, size_of, blocktype, subpage_kmalloc, subpage_kfree,
}
use csc469_advanced_operatin.Kheap.Malloc.{mm_init, mm_malloc, mm_free}
use csc469_advanced_operatin.Kheap.Big.{big_kmalloc, big_kfree}
use csc469_advanced_operatin.Kheap.Sound.{Held, PageTable, IsSound}
use csc469_advanced_operatin.Kheap.Calls.{Drops, allocates, Reach, start, call, blank, pages_for}
use csc469_advanced_operatin.Kheap.Segment.{Full}
use csc469_advanced_operatin.Kheap.Contract.{mm_malloc-Returns, mm_free-Returns}
use csc469_advanced_operatin.Kheap.Sizes.{blocktype-smallest}
use csc469_advanced_operatin.Kheap.High.{mm_free-high}

abbrev heap_of : Outcome (ℕ × Heap) → Heap
heap_of (ok (a, h)) = h
heap_of _ = blank

abbrev freed : Outcome Heap → Heap
freed (ok h) = h
freed _ = blank

-- `malloc` returned 5000.
abbrev first : Heap
first = (mm_init page_size 5000 blank).1

abbrev small_one : Heap
small_one = heap_of (mm_malloc 10 first)

abbrev large_one : Heap
large_one = heap_of (mm_malloc 5000 small_one)

abbrev held : List Held
held = record { addr = 16392; bytes = 5000 } ∷ record { addr = 16368; bytes = 10 } ∷ []

-- The structs take the page at 8192, the small block is the last one of the page at 12288, the
-- large one lies behind its header in two pages from 16384 on.
small_at : mm_malloc 10 first ≡ ok (16368, small_one)
unfolding mm_init mem_init mm_malloc subpage_kmalloc mem_sbrk pr_pageaddr pr_blocktype mkpab size_of
    update
small_at = refl

large_at : mm_malloc 5000 small_one ≡ ok (16392, large_one)
unfolding mm_init mem_init mm_malloc subpage_kmalloc mem_sbrk pr_pageaddr pr_blocktype mkpab size_of
    update big_kmalloc
large_at = refl

reached : Reach 5000 large_one held
unfolding mm_init mem_init
reached =
    call (call (start refl) (allocates 10 16368 small_at (λ e. omega arith)))
      (allocates 5000 16392 large_at (λ e. omega arith))

mm_malloc-Returns_example :
    (a : ℕ) × (h' : Heap) × (mm_malloc 100 large_one ≡ ok (a, h'))
    × ((a ≢ 0) ⊎ Full (pages_for 100) h')
mm_malloc-Returns_example =
    mm_malloc-Returns 5000 large_one held 100 (omega arith) reached (omega arith)

mm_free-Returns_example :
    (h' : Heap) × (mm_free 16368 large_one ≡ ok h')
    × ((uses : PageTable) × IsSound h' uses (record { addr = 16392; bytes = 5000 } ∷ []))
mm_free-Returns_example =
    mm_free-Returns 5000 large_one (record { addr = 16368; bytes = 10 }) held
      (record { addr = 16392; bytes = 5000 } ∷ []) (omega arith) reached (Drops.later Drops.here)

-- The page with the only small block goes to the spare ones, and serves a larger size then.
small_again :
    mm_malloc 2000 (freed (mm_free 16368 large_one))
    ≡ ok (14336, heap_of (mm_malloc 2000 (freed (mm_free 16368 large_one))))
unfolding mm_init mem_init mm_malloc subpage_kmalloc mem_sbrk pr_pageaddr pr_blocktype mkpab size_of
    update big_kmalloc mm_free subpage_kfree
small_again = refl

-- A large block that comes back gives its second page to a request for one page.
large_again :
    mm_malloc 3000 (freed (mm_free 16392 large_one))
    ≡ ok (20488, heap_of (mm_malloc 3000 (freed (mm_free 16392 large_one))))
unfolding mm_init mem_init mm_malloc subpage_kmalloc mem_sbrk pr_pageaddr pr_blocktype mkpab size_of
    update big_kmalloc mm_free subpage_kfree big_kfree
large_again = refl

-- A page of blocks of 16 bytes above 4 GB.
abbrev high : Heap
high = install (2 ^ 32 + 4096) 1 (2 ^ 32 + 8192) blank

high_kinds :
    (i r : ℕ)
    → has r (high.sizebases i) ≡ true
    → pr_blocktype (high.pagerefs r).pageaddr_and_blocktype < nsizes
unfolding install update mkpab pr_blocktype
high_kinds i r m = elim (Bool-cases (r == 2 ^ 32 + 4096)) [
  | inl e ↦ rw e (omega arith)
  | inr e ↦ rw e (omega arith)
]

mm_free-high_example : mm_free (2 ^ 32 + 8208) high ≡ ok (big_kfree (2 ^ 32 + 8208) high)
mm_free-high_example = mm_free-high (2 ^ 32 + 8208) high (omega arith) high_kinds

blocktype-smallest_example :
    ((2048 < 100) × (blocktype 100 ≡ none))
    ⊎ ((i : ℕ) × (blocktype 100 ≡ some i)
        × (i < nsizes)
        × (100 ≤ size_of i)
        × ((m : ℕ) → m < i → size_of m < 100))
blocktype-smallest_example = blocktype-smallest 100
