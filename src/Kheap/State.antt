-- ===== src/Kheap/State.antt =====
-- A2/util/memlib.c, and the data of A2/allocators/kheap/kheap.c. A list that is linked through its
-- nodes is the list of the addresses of its nodes; the words of a struct are a map from addresses.
-- What the blocks hold is not modelled.
unfoldable pub use csc469_advanced_operatin.Base.{update}
use csc469_advanced_operatin.Base.{
  ℕ, ◌+◌, ◌-◌, ◌*◌, ◌/◌, ◌%◌, ◌^◌, Bool, true, false, List, ◌==◌, ltb, if◌then◌else◌,
}

abbrev pub page_size : ℕ
page_size = 4096

-- How a call ends: it returns, an `assert` fails (or a null pointer is read), it calls `exit(1)`,
-- or a request does not fit into the `int` arithmetic of `big_kmalloc`.
pub data Outcome (A : Type 0) : Type 0 where
  ok : A → Outcome A
  aborts : Outcome A
  exits : Outcome A
  overflows : Outcome A

infixl 5 ◌>>=◌
abbrev pub ◌>>=◌ : {A B : Type 0} → Outcome A → (A → Outcome B) → Outcome B
ok a >>= f = f a
aborts >>= f = aborts
exits >>= f = exits
overflows >>= f = overflows

-- A page of small blocks: its free blocks, first the next to be given out; its address and the
-- index of its block size in one word; and the number of its free blocks.
pub record PageRef : Type 0 where
  pub flist : List ℕ
  pub pageaddr_and_blocktype : ℕ
  pub nfree : ℕ

-- The mask is an `unsigned int`, so of a longer address it keeps the low 32 bits.
unfoldable pub pr_pageaddr : ℕ → ℕ
pr_pageaddr w = w % 2 ^ 32 / 4096 * 4096

unfoldable pub pr_blocktype : ℕ → ℕ
pr_blocktype w = w % 4096

unfoldable pub mkpab : ℕ → ℕ → ℕ
mkpab pa blk = pa % 2 ^ 32 / 4096 * 4096 + blk % 4096

-- The structs by their addresses, the lists of kheap.c, the `int` at the start of a chunk of
-- pages, and the data segment.
pub record Heap : Type 0 where
  pub pagerefs : ℕ → PageRef
  pub fresh_refs : List ℕ
  pub recycled_refs : List ℕ
  pub sizebases : ℕ → List ℕ
  pub npages : ℕ → ℕ
  pub bigchunks : List ℕ
  pub dseg_lo : ℕ
  pub dseg_hi : ℕ
  pub dseg_size : ℕ

abbrev pub dseg_max : ℕ
dseg_max = 256 * 1024 * 1024

-- `page` is what `getpagesize` returns and `base` what `malloc` returns. True stands for 0.
unfoldable pub mem_init : ℕ → ℕ → Heap → Bool × Heap
mem_init page base h =
    let lo = (base + page - 1) / page * page in
    if base == 0
    then (false, record h { dseg_lo = 0 })
    else (true, record h { dseg_lo = lo; dseg_hi = lo - 1; dseg_size = dseg_max })

unfoldable pub mem_sbrk : ℕ → Heap → Outcome (ℕ × Heap)
mem_sbrk increment h =
    let new_hi = h.dseg_hi + increment in
    if ltb 0 increment
    then if ltb (h.dseg_lo + h.dseg_size) new_hi
      then ok (0, h)
      else ok (h.dseg_hi + 1, record h { dseg_hi = new_hi })
    else aborts
