-- ===== src/Kheap/Contract.antt =====
-- The contract of `mm_malloc` and `mm_free` of A2/allocators/kheap/kheap.c in every heap that calls
-- reach.
use csc469_advanced_operatin.Base.{ℕ, ◌+◌, ◌%◌, ◌^◌, ◌≤◌, ◌≡◌, ◌≢◌, List, [], ◌∷◌, ◌⊎◌, inl, inr}
use csc469_advanced_operatin.Kheap.State.{ok, Heap}
use csc469_advanced_operatin.Kheap.Malloc.{mm_malloc, mm_free}
use csc469_advanced_operatin.Kheap.Sound.{PageTable, Held, AllHeld, IsSound}
use csc469_advanced_operatin.Kheap.Segment.{Full}
use csc469_advanced_operatin.Kheap.Apart.{Apart}
use csc469_advanced_operatin.Kheap.Calls.{
  Drops, Reach, pages_for, mm_malloc-Given, Drops-IsSound, mm_free-IsSound,
}
use csc469_advanced_operatin.Kheap.Safety.{Low, Reach-SoundNow, HeldOk-non_null}

-- Aligned, and inside the part of the data segment that has been handed out.
abbrev pub Placed : Heap → Held → Type 0
Placed h b = (b.addr % 8 ≡ 0) × (h.dseg_lo ≤ b.addr) × (b.addr + b.bytes ≤ h.dseg_hi + 1)

abbrev pub AllApart : List Held → Type 0
AllApart [] = Unit {0}
AllApart (b ∷ bs) = AllHeld (Apart b) bs × AllApart bs

-- In every heap that calls reach, where the memory of the data segment lies below 4 GB, a request
-- that fits into the `int` arithmetic returns: no assertion fails and `exit` is not called. It
-- returns `NULL` only if the segment has no room for the pages of the request any more (one page
-- for up to 2047 bytes).
pub mm_malloc-Returns :
    (base : ℕ) (h : Heap) (bs : List Held) (sz : ℕ)
    → Low base
    → Reach base h bs
    → sz + 4104 ≤ 2 ^ 31
    → (a : ℕ) × (h' : Heap) × (mm_malloc sz h ≡ ok (a, h')) × ((a ≢ 0) ⊎ Full (pages_for sz) h')
mm_malloc-Returns base h bs sz low r le =
    let (uses, s) = Reach-SoundNow low r in
    let (h', uses', result) = mm_malloc-Given sz h uses bs le s in
    elim result [
      | inl (e, _, full) ↦ (0, h', e, inr full)
      | inr (a, e, s') ↦ (a, h', e, inl (HeldOk-non_null h' uses' _ s'.subpages s'.held.0))
    ]

-- In every heap that calls reach, where the memory of the data segment lies below 4 GB, each block
-- that is held can be freed: no assertion fails and `exit` is not called. The heap is well
-- formed again, and the other blocks are still held.
pub mm_free-Returns :
    (base : ℕ) (h : Heap) (b : Held) (bs ds : List Held)
    → Low base
    → Reach base h bs
    → Drops b bs ds
    → (h' : Heap) × (mm_free b.addr h ≡ ok h') × ((uses : PageTable) × IsSound h' uses ds)
mm_free-Returns base h b bs ds low r d =
    let (uses, s) = Reach-SoundNow low r in
    let s' = Drops-IsSound d s in
    let (h', uses', e, sound) =
      mm_free-IsSound h uses b ds (HeldOk-non_null h uses b s'.subpages s'.held.0) s' in
    (h', e, (uses', sound))
