-- ===== src/Kheap/Sound.antt =====
-- What holds of the heap of A2/allocators/kheap/kheap.c between two calls, with the blocks that the
-- callers hold. A page table that the code does not keep says what each page of the data segment
-- is for; so two structures that agree with it are apart.
use csc469_advanced_operatin.Base.{
  ℕ, ◌+◌, ◌-◌, ◌*◌, ◌/◌, ◌%◌, ◌^◌, ◌≤◌, ◌<◌, ◌≡◌, ◌≢◌, true, false, List, [], ◌∷◌, ◌++◌, ◌⊎◌, has,
  Distinct, length,
}
use csc469_advanced_operatin.Kheap.State.{page_size, PageRef, pr_pageaddr, pr_blocktype, Heap}
use csc469_advanced_operatin.Kheap.Subpage.{nsizes, size_of}
use csc469_advanced_operatin.Kheap.Blocks.{Block}

-- Not handed out yet; structs of pages; a page of small blocks, in a list or wholly free, with its
-- struct; a page of a free or of a given chunk, with the number of the chunk's first page.
pub data Purpose : Type 0 where
  untouched : Purpose
  table : Purpose
  small : ℕ → Purpose
  empty : ℕ → Purpose
  chunk : ℕ → Purpose
  taken : ℕ → Purpose

abbrev pub PageTable : Type 0
PageTable = ℕ → Purpose

-- The struct of a page in the list of the i-th size.
pub record Page (p : PageRef) (uses : PageTable) (i r : ℕ) : Type 0 where
  pub non_null : r ≢ 0
  pub index : i < nsizes
  pub kind : pr_blocktype p.pageaddr_and_blocktype ≡ i
  pub place : pr_pageaddr p.pageaddr_and_blocktype ≢ 0
  pub purpose : uses (pr_pageaddr p.pageaddr_and_blocktype / 4096) ≡ small r
  pub stored : uses (r / 4096) ≡ table
  pub count : p.nfree ≡ length p.flist
  pub different : Distinct p.flist
  pub blocks :
      (a : ℕ)
      → has a p.flist ≡ true
      → Block (pr_pageaddr p.pageaddr_and_blocktype) (size_of i) (page_size / size_of i) a

-- A struct in one of the two lists of spare ones: it has no page, or a wholly free one.
pub record Spare (word : ℕ) (uses : PageTable) (r : ℕ) : Type 0 where
  pub non_null : r ≢ 0
  pub stored : uses (r / 4096) ≡ table
  pub page : (pr_pageaddr word ≡ 0) ⊎ (uses (pr_pageaddr word / 4096) ≡ empty r)

abbrev pub spares : Heap → List ℕ
spares h = h.recycled_refs ++ h.fresh_refs

pub record SubpageOk (refs : ℕ → PageRef) (spare : List ℕ) (bases : ℕ → List ℕ) (uses : PageTable)
    : Type 0 where
  pub spare_distinct : Distinct spare
  pub spare_ok : (r : ℕ) → has r spare ≡ true → Spare (refs r).pageaddr_and_blocktype uses r
  pub base_distinct : (i : ℕ) → Distinct (bases i)
  pub base_ok : (i r : ℕ) → has r (bases i) ≡ true → Page (refs r) uses i r

-- The pages of a chunk that starts at page `c`.
pub record Chunk (headers : ℕ → ℕ) (uses : PageTable) (tag : ℕ → Purpose) (c : ℕ) : Type 0 where
  pub nonempty : 0 < headers (c * 4096)
  pub pages : (k : ℕ) → k < headers (c * 4096) → uses (c + k) ≡ tag c

pub record BigOk (headers : ℕ → ℕ) (chunks : List ℕ) (uses : PageTable) : Type 0 where
  pub distinct : Distinct chunks
  pub chunks_ok :
      (a : ℕ) → has a chunks ≡ true → (a ≡ a / 4096 * 4096) × Chunk headers uses chunk (a / 4096)

-- The data segment: whole pages below 4 GB, of which the rest is untouched.
pub record SegmentOk (lo hi size : ℕ) (uses : PageTable) : Type 0 where
  pub positive : 0 < lo
  pub start : lo % 4096 ≡ 0
  pub top : (hi + 1) % 4096 ≡ 0
  pub ordered : lo ≤ hi + 1
  pub inside : hi ≤ lo + size
  pub below : lo + size < 2 ^ 32 - 4096
  pub rest : (k : ℕ) → hi < k * 4096 → uses k ≡ untouched
  pub before : (k : ℕ) → k * 4096 < lo → uses k ≡ untouched

-- A block that a caller holds: its address and the size that was asked for.
pub record Held : Type 0 where
  pub addr : ℕ
  pub bytes : ℕ

pub record HeldSmall (refs : ℕ → PageRef) (bases : ℕ → List ℕ) (i r : ℕ) (b : Held) : Type 0 where
  pub listed : has r (bases i) ≡ true
  pub block :
      Block (pr_pageaddr (refs r).pageaddr_and_blocktype) (size_of i) (page_size / size_of i) b.addr
  pub held : has b.addr (refs r).flist ≡ false
  pub fits : b.bytes ≤ size_of i

pub record HeldBig (headers : ℕ → ℕ) (uses : PageTable) (c : ℕ) (b : Held) : Type 0 where
  pub header : b.addr ≡ c * 4096 + 8
  pub chunk_ok : Chunk headers uses taken c
  pub fits : b.bytes + 8 ≤ headers (c * 4096) * 4096

abbrev pub HeldOk : Heap → PageTable → Held → Type 0
HeldOk h uses b =
    ((i : ℕ) × (r : ℕ) × HeldSmall h.pagerefs h.sizebases i r b)
    ⊎ ((c : ℕ) × HeldBig h.npages uses c b)

abbrev pub AllHeld : (Held → Type 0) → List Held → Type 0
AllHeld P [] = Unit {0}
AllHeld P (b ∷ bs) = P b × AllHeld P bs

-- The block starts at another address than all of the list.
abbrev pub NewAddr : ℕ → List Held → Type 0
NewAddr a bs = AllHeld (λ b. b.addr ≢ a) bs

abbrev pub DistinctAddrs : List Held → Type 0
DistinctAddrs [] = Unit {0}
DistinctAddrs (b ∷ bs) = NewAddr b.addr bs × DistinctAddrs bs

pub record IsSound (h : Heap) (uses : PageTable) (bs : List Held) : Type 0 where
  pub segment : SegmentOk h.dseg_lo h.dseg_hi h.dseg_size uses
  pub subpages : SubpageOk h.pagerefs (spares h) h.sizebases uses
  pub big : BigOk h.npages h.bigchunks uses
  pub held : AllHeld (HeldOk h uses) bs
  pub addrs : DistinctAddrs bs
