-- ===== src/Kheap/Calls.antt =====
-- The calls of `mm_malloc` and `mm_free` of A2/allocators/kheap/kheap.c as steps of the heap, and the
-- heaps that they reach.
use csc469_advanced_operatin.Base.{
  ℕ, ◌+◌, ◌-◌, ◌/◌, ◌^◌, ◌≤◌, ◌≡◌, ◌≢◌, refl, sym, ap, ◌∙◌, true, false, List, [], ◌∷◌, arith, ltb,
  leb, if◌then◌else◌, inl, inr, Bool-cases, ≢→==,
}
use csc469_advanced_operatin.Kheap.State.{page_size, ok, overflows, ◌>>=◌, Heap}
use csc469_advanced_operatin.Kheap.Big.{big_kmalloc, big_kfree}
use csc469_advanced_operatin.Kheap.Malloc.{mm_init, mm_malloc, mm_free, free_either}
use csc469_advanced_operatin.Kheap.Sound.{
  PageTable, Held, HeldOk, AllHeld, NewAddr, DistinctAddrs, IsSound,
}
use csc469_advanced_operatin.Kheap.Give.{Given}
use csc469_advanced_operatin.Kheap.SubpageMalloc.{subpage_kmalloc-Given}
use csc469_advanced_operatin.Kheap.BigMalloc.{big_kmalloc-Given, big_kfree-IsSound}
use csc469_advanced_operatin.Kheap.PutBack.{subpage_kfree-small, subpage_kfree-big}

-- One block of the list is taken out.
pub data Drops (b : Held) : List Held → List Held → Type 0 where
  here : {bs : List Held} → Drops b (b ∷ bs) bs
  later : {d : Held} {bs ds : List Held} → Drops b bs ds → Drops b (d ∷ bs) (d ∷ ds)

-- A call that returns, with the blocks that the callers hold before it and after it.
pub data Call : Heap → List Held → Heap → List Held → Type 0 where
  allocates :
      {h h' : Heap} {bs : List Held} (sz a : ℕ)
      → mm_malloc sz h ≡ ok (a, h')
      → a ≢ 0
      → Call h bs h' (record { addr = a; bytes = sz } ∷ bs)
  fails : {h h' : Heap} {bs : List Held} (sz : ℕ) → mm_malloc sz h ≡ ok (0, h') → Call h bs h' bs
  frees :
      {h h' : Heap} {bs ds : List Held} (b : Held)
      → Drops b bs ds
      → mm_free b.addr h ≡ ok h'
      → Call h bs h' ds
  frees_null : {h h' : Heap} {bs : List Held} → mm_free 0 h ≡ ok h' → Call h bs h' bs

-- All globals are 0 before `mm_init`.
abbrev pub blank : Heap
blank = record {
  pagerefs = λ _. record { flist = []; pageaddr_and_blocktype = 0; nfree = 0 };
  fresh_refs = [];
  recycled_refs = [];
  sizebases = λ _. [];
  npages = λ _. 0;
  bigchunks = [];
  dseg_lo = 0;
  dseg_hi = 0;
  dseg_size = 0;
}

-- The heaps behind `mm_init`, whose `malloc` returned `base`, and any calls.
pub data Reach (base : ℕ) : Heap → List Held → Type 0 where
  start : {h : Heap} → mm_init page_size base blank ≡ (true, h) → Reach base h []
  call : {h h' : Heap} {bs ds : List Held} → Reach base h bs → Call h bs h' ds → Reach base h' ds

-- How many pages a request may need at once.
pub pages_for : ℕ → ℕ
pages_for sz = if leb 2048 sz then (sz + 8 + page_size - 1) / page_size else 1

pub mm_malloc-Given :
    (sz : ℕ) (h : Heap) (uses : PageTable) (bs : List Held)
    → sz + 4104 ≤ 2 ^ 31
    → IsSound h uses bs
    → Given sz (pages_for sz) bs (mm_malloc sz h)
unfolding mm_malloc pages_for
mm_malloc-Given sz h uses bs le s = elim (Bool-cases (leb 2048 sz)) [
  | inl big ↦ rw big (big_kmalloc-Given sz h uses bs le s)
  | inr small ↦ rw small (subpage_kmalloc-Given sz h uses bs (ground (arith, small)) s)
]

-- A request that does not fit into an `int` returns nothing in the model.
pub mm_malloc-ok-le :
    (sz : ℕ) (h : Heap) (v : ℕ × Heap) → mm_malloc sz h ≡ ok v → sz + 4104 ≤ 2 ^ 31
unfolding mm_malloc big_kmalloc
mm_malloc-ok-le sz h v e = elim (Bool-cases (leb 2048 sz)) [
  | inr small ↦ ground (arith, small)
  | inl big ↦ elim (Bool-cases (ltb (sz + 8 + page_size) (2 ^ 31 + 1))) [
    | inl le ↦ ground (arith, le)
    | inr more ↦ absurd (never v (sym (large big more) ∙ e))
  ]
]
  where
    never : (v : ℕ × Heap) → ¬ (overflows ≡ ok v)
    never v e = cc e

    large :
        leb 2048 sz ≡ true
        → ltb (sz + 8 + page_size) (2 ^ 31 + 1) ≡ false
        → mm_malloc sz h ≡ overflows
    large big more = rw (big, more) refl

-- The block that is taken out can be put in front.
Drops-AllHeld :
    (P : Held → Type 0) {b : Held} {bs ds : List Held}
    → Drops b bs ds
    → AllHeld P bs
    → P b × AllHeld P ds
Drops-AllHeld P here h = h
Drops-AllHeld P (later d) h = let (p, q) = Drops-AllHeld P d h.1 in (p, (h.0, q))

Drops-addrs :
    {b : Held} {bs ds : List Held}
    → Drops b bs ds
    → DistinctAddrs bs
    → NewAddr b.addr ds × DistinctAddrs ds
Drops-addrs here h = h
Drops-addrs {b} (later d) h =
    let (new, distinct) = Drops-addrs d h.1 in
    let (ne, others) = Drops-AllHeld _ d h.0 in (((λ e. ne (sym e)), new), (others, distinct))

pub Drops-IsSound :
    {h : Heap} {uses : PageTable} {b : Held} {bs ds : List Held}
    → Drops b bs ds
    → IsSound h uses bs
    → IsSound h uses (b ∷ ds)
Drops-IsSound {h} {uses} d s = record {
  segment = s.segment;
  subpages = s.subpages;
  big = s.big;
  held = Drops-AllHeld (HeldOk h uses) d s.held;
  addrs = Drops-addrs d s.addrs;
}

-- A block that is held can be freed.
pub mm_free-IsSound :
    (h : Heap) (uses : PageTable) (b : Held) (bs : List Held)
    → b.addr ≢ 0
    → IsSound h uses (b ∷ bs)
    → (h' : Heap) × (uses' : PageTable) × (mm_free b.addr h ≡ ok h') × IsSound h' uses' bs
unfolding mm_free free_either
mm_free-IsSound h uses b bs ne s = rw (≢→== _ _ ne) (elim s.held.0 [
  | inl (i, r, g) ↦
      let (h', uses', e, sound) = subpage_kfree-small h uses b bs s i r g in
      (h', uses', ap (λ m. m >>= free_either b.addr) e, sound)
  | inr (c, g) ↦ (
    big_kfree b.addr h,
    _,
    ap (λ m. m >>= free_either b.addr) (subpage_kfree-big h uses b bs s c g),
    big_kfree-IsSound h uses b bs c s g,
  )
])
