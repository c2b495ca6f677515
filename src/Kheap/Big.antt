-- ===== src/Kheap/Big.antt =====
-- The large blocks of A2/allocators/kheap/kheap.c: chunks of whole pages, whose first 8 bytes hold
-- the number of pages.
use csc469_advanced_operatin.Base.{
  ℕ, ◌+◌, ◌-◌, ◌*◌, ◌/◌, ◌^◌, List, [], ◌∷◌, Option, none, some, ◌==◌, ltb, if◌then◌else◌,
}
use csc469_advanced_operatin.Kheap.State.{
  page_size, Outcome, ok, overflows, ◌>>=◌, Heap, update, mem_sbrk,
}

-- What the search of the free chunks found: the chunk for the caller, and the headers and the
-- list that are left.
pub record Fit : Type 0 where
  pub hdr_ptr : ℕ
  pub headers : ℕ → ℕ
  pub chunks : List ℕ

unfoldable pub keep_chunk : ℕ → Option Fit → Option Fit
keep_chunk c none = none
keep_chunk c (some f) = some (record f { chunks = c ∷ f.chunks })

-- A chunk that is larger gives its last pages, one of the right size is taken out of the list.
unfoldable pub first_fit : ℕ → (ℕ → ℕ) → List ℕ → Option Fit
unfolding keep_chunk
first_fit n headers [] = none
first_fit n headers (tmp ∷ next) =
    let rest = keep_chunk tmp (first_fit n headers next) in
    let left = headers tmp - n in
    let hdr = tmp + left * page_size in
    if ltb n (headers tmp)
    then some (record {
      hdr_ptr = hdr;
      headers = update (update headers tmp left) hdr n;
      chunks = tmp ∷ next;
    })
    else if headers tmp == n
    then some (record { hdr_ptr = tmp; headers = headers; chunks = next })
    else rest

-- The chunk that `mem_sbrk` returned gets its header.
unfoldable pub new_chunk : ℕ → ℕ × Heap → Outcome (ℕ × Heap)
new_chunk n (hdr_ptr, h) =
    if hdr_ptr == 0
    then ok (0, h)
    else ok (hdr_ptr + 8, record h { npages = update h.npages hdr_ptr n })

unfoldable pub take_chunk : ℕ → Heap → Option Fit → Outcome (ℕ × Heap)
unfolding new_chunk
take_chunk n h none = mem_sbrk (n * page_size) h >>= new_chunk n
take_chunk n h (some f) = ok (f.hdr_ptr + 8, record h { npages = f.headers; bigchunks = f.chunks })

-- The size is an `int` here: one that does not fit, or that the rounding takes over its range, is
-- outside the model.
unfoldable pub big_kmalloc : ℕ → Heap → Outcome (ℕ × Heap)
unfolding first_fit take_chunk
big_kmalloc sz h =
    let n = (sz + 8 + page_size - 1) / page_size in
    if ltb (sz + 8 + page_size) (2 ^ 31 + 1)
    then take_chunk n h (first_fit n h.npages h.bigchunks)
    else overflows

unfoldable pub big_kfree : ℕ → Heap → Heap
big_kfree ptr h = record h { bigchunks = (ptr - 8) ∷ h.bigchunks }
