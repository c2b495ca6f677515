-- ===== src/Kheap/Malloc.antt =====
-- The entry points of A2/allocators/kheap/kheap.c. Each call holds `malloc_lock` from its first to
-- its last access, so calls of several threads are a sequence of these.
use csc469_advanced_operatin.Base.{ℕ, Bool, true, false, ◌&&◌, ◌==◌, leb, if◌then◌else◌}
use csc469_advanced_operatin.Kheap.State.{Outcome, ok, ◌>>=◌, Heap, mem_init}
use csc469_advanced_operatin.Kheap.Subpage.{subpage_kmalloc, subpage_kfree}
use csc469_advanced_operatin.Kheap.Big.{big_kmalloc, big_kfree}

unfoldable pub mm_init : ℕ → ℕ → Heap → Bool × Heap
mm_init page base h = if h.dseg_lo == 0 && h.dseg_hi == 0 then mem_init page base h else (true, h)

unfoldable pub mm_malloc : ℕ → Heap → Outcome (ℕ × Heap)
mm_malloc sz h = if leb 2048 sz then big_kmalloc sz h else subpage_kmalloc sz h

unfoldable pub free_either : ℕ → Bool × Heap → Outcome Heap
free_either ptr (true, h) = ok h
free_either ptr (false, h) = ok (big_kfree ptr h)

unfoldable pub mm_free : ℕ → Heap → Outcome Heap
unfolding free_either
mm_free ptr h = if ptr == 0 then ok h else subpage_kfree ptr h >>= free_either ptr
