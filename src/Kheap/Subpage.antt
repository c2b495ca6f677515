-- ===== src/Kheap/Subpage.antt =====
-- The small blocks of A2/allocators/kheap/kheap.c: the structs for pages, the search for a page with
-- a free block, new pages, and the return of a block. The checks under SLOW are compiled out.
use csc469_advanced_operatin.Base.{
  ℕ, zero, suc, ◌+◌, ◌-◌, ◌*◌, ◌/◌, ◌%◌, ◌^◌, Bool, true, false, ◌&&◌, ◌||◌, not, List, [], ◌∷◌,
  Option, none, some, ◌==◌, ltb, leb, get_or, if◌then◌else◌,
}
use csc469_advanced_operatin.Kheap.State.{
  page_size, Outcome, ok, aborts, exits, ◌>>=◌, PageRef, pr_pageaddr, pr_blocktype, mkpab, Heap,
  update, mem_sbrk,
}

abbrev pub nsizes : ℕ
nsizes = 9

abbrev pub sizes : List ℕ
sizes = 8 ∷ 16 ∷ 32 ∷ 64 ∷ 128 ∷ 256 ∷ 512 ∷ 1024 ∷ 2048 ∷ []

unfoldable pub size_of : ℕ → ℕ
size_of i = get_or sizes i 0

unfoldable pub blocktype_from : ℕ → List ℕ → ℕ → Option ℕ
blocktype_from i [] sz = none
blocktype_from i (s ∷ ss) sz = if leb sz s then some i else blocktype_from (i + 1) ss sz

-- `none` is the call of `exit`.
unfoldable pub blocktype : ℕ → Option ℕ
unfolding blocktype_from
blocktype sz = blocktype_from 0 sizes sz

-- Structs of 32 bytes, one behind the other.
unfoldable pub refs_from : ℕ → ℕ → List ℕ
refs_from a zero = []
refs_from a (suc n) = a ∷ refs_from (a + 32) n

-- The page of structs that `mem_sbrk` returned is cleared, its first struct is taken.
unfoldable pub first_ref : ℕ × Heap → Outcome (ℕ × Heap)
unfolding refs_from
first_ref (ref, h) =
    let cleared = λ (q : ℕ).
      if leb ref q && ltb q (ref + page_size)
      then record { flist = []; pageaddr_and_blocktype = 0; nfree = 0 }
      else h.pagerefs q in
    if ref == 0
    then ok (0, h)
    else ok (
      ref,
      record h { pagerefs = cleared; fresh_refs = refs_from (ref + 32) (page_size / 32 - 1) },
    )

unfoldable pub allocpageref : Heap → Outcome (ℕ × Heap)
unfolding first_ref
allocpageref h = elim h.recycled_refs [
  | ref ∷ rest ↦ ok (ref, record h { recycled_refs = rest })
  | [] ↦ elim h.fresh_refs [
    | ref ∷ rest ↦ ok (ref, record h { fresh_refs = rest })
    | [] ↦ mem_sbrk page_size h >>= first_ref
  ]
]

unfoldable pub freepageref : ℕ → Heap → Heap
freepageref p h = record h { recycled_refs = p ∷ h.recycled_refs }

unfoldable pub remove_first : ℕ → List ℕ → List ℕ
remove_first pr [] = []
remove_first pr (guy ∷ rest) = if guy == pr then rest else guy ∷ remove_first pr rest

unfoldable pub remove_lists : ℕ → ℕ → Heap → Outcome Heap
unfolding remove_first
remove_lists pr blktype h =
    if ltb blktype nsizes
    then ok (record h {
      sizebases = update h.sizebases blktype (remove_first pr (h.sizebases blktype));
    })
    else aborts

-- The first page of the list with a free block.
unfoldable pub page_with_room : ℕ → (ℕ → PageRef) → List ℕ → Outcome (Option ℕ)
page_with_room blktype refs [] = ok none
page_with_room blktype refs (pr ∷ prs) =
    let next = page_with_room blktype refs prs in
    if pr_blocktype (refs pr).pageaddr_and_blocktype == blktype
    then if ltb 0 (refs pr).nfree then ok (some pr) else next
    else aborts

-- The assertions behind `doalloc`; the difference is taken in 64 bits. `nfree` is not 0 here.
unfoldable pub took_well : ℕ → ℕ → List ℕ → ℕ → Bool
took_well prpage fl [] nfree = nfree == 0
took_well prpage fl (_ ∷ _) nfree = ltb 0 nfree && ltb ((fl + 2 ^ 64 - prpage) % 2 ^ 64) page_size

-- The label `doalloc`: the first free block of the page.
unfoldable pub doalloc : ℕ → Heap → Outcome (ℕ × Heap)
unfolding took_well
doalloc pr h =
    let p = h.pagerefs pr in
    elim p.flist [
      | [] ↦ aborts
      | fl ∷ rest ↦
          if took_well (pr_pageaddr p.pageaddr_and_blocktype) fl rest (p.nfree - 1)
          then ok (
            fl,
            record h {
              pagerefs = update h.pagerefs pr (record p { flist = rest; nfree = p.nfree - 1 });
            },
          )
          else aborts
    ]

-- The free list of a new page: each block is linked to the one before it, the last is the first.
unfoldable pub free_blocks : ℕ → ℕ → ℕ → List ℕ
free_blocks page size zero = []
free_blocks page size (suc n) = (page + n * size) ∷ free_blocks page size n

-- The address of the struct's page, or of a new page if it has none; 0 if there is no memory.
unfoldable pub page_of : ℕ → Heap → Outcome (ℕ × Heap)
page_of pr h =
    let prpage = pr_pageaddr (h.pagerefs pr).pageaddr_and_blocktype in
    if prpage == 0 then mem_sbrk page_size h else ok (prpage, h)

unfoldable pub install : ℕ → ℕ → ℕ → Heap → Heap
unfolding free_blocks
install pr blktype prpage h =
    let n = page_size / size_of blktype in
    record h {
      pagerefs = update h.pagerefs pr (record {
        flist = free_blocks prpage (size_of blktype) n;
        pageaddr_and_blocktype = mkpab prpage blktype;
        nfree = n;
      });
      sizebases = update h.sizebases blktype (pr ∷ h.sizebases blktype);
    }

unfoldable pub fill_page : ℕ → ℕ → ℕ × Heap → Outcome (ℕ × Heap)
unfolding freepageref install doalloc
fill_page pr blktype (prpage, h) =
    if prpage == 0 then ok (0, freepageref pr h) else doalloc pr (install pr blktype prpage h)

unfoldable pub start_page : ℕ → ℕ × Heap → Outcome (ℕ × Heap)
unfolding page_of fill_page
start_page blktype (pr, h) = if pr == 0 then ok (0, h) else page_of pr h >>= fill_page pr blktype

-- No page of the size has a free block.
unfoldable pub new_page : ℕ → Heap → Outcome (ℕ × Heap)
unfolding allocpageref start_page
new_page blktype h = allocpageref h >>= start_page blktype

unfoldable pub alloc_block : ℕ → Heap → Option ℕ → Outcome (ℕ × Heap)
unfolding new_page doalloc
alloc_block blktype h none = new_page blktype h
alloc_block blktype h (some pr) = doalloc pr h

unfoldable pub subpage_kmalloc : ℕ → Heap → Outcome (ℕ × Heap)
unfolding blocktype page_with_room alloc_block
subpage_kmalloc sz h = elim (blocktype sz) [
  | none ↦ exits
  | some blktype ↦ page_with_room blktype h.pagerefs (h.sizebases blktype) >>= alloc_block blktype h
]

-- The first struct of the list whose page holds the address.
unfoldable pub page_holding : ℕ → (ℕ → PageRef) → List ℕ → Outcome (Option ℕ)
page_holding ptraddr refs [] = ok none
page_holding ptraddr refs (pr ∷ prs) =
    let next = page_holding ptraddr refs prs in
    let w = (refs pr).pageaddr_and_blocktype in
    if ltb (pr_blocktype w) nsizes
    then if leb (pr_pageaddr w) ptraddr && ltb ptraddr (pr_pageaddr w + page_size)
      then ok (some pr)
      else next
    else aborts

-- The loop over the `n` lists from the i-th on, which stops at the first page that is found.
unfoldable pub search_pages : ℕ → Heap → ℕ → ℕ → Outcome (Option ℕ)
unfolding page_holding
search_pages ptraddr h i zero = ok none
search_pages ptraddr h i (suc n) = page_holding ptraddr h.pagerefs (h.sizebases i) >>= λ found.
    elim found [ some pr ↦ ok (some pr) | none ↦ search_pages ptraddr h (i + 1) n ]

-- A page whose blocks are all free leaves its list.
unfoldable pub retire : ℕ → ℕ → Heap → Outcome Heap
unfolding freepageref remove_lists
retire pr blktype h =
    let nfree = (h.pagerefs pr).nfree in
    let most = page_size / size_of blktype in
    let gone = remove_lists pr blktype h >>= (λ h'. ok (freepageref pr h')) in
    if leb nfree most then if nfree == most then gone else ok h else aborts

unfoldable pub put_back : ℕ → ℕ → Heap → Outcome Heap
unfolding retire
put_back ptr pr h =
    let p = h.pagerefs pr in
    let blktype = pr_blocktype p.pageaddr_and_blocktype in
    let offset = ptr - pr_pageaddr p.pageaddr_and_blocktype in
    if leb page_size offset || not (offset % size_of blktype == 0)
    then exits
    else retire pr blktype (record h {
      pagerefs = update h.pagerefs pr (record p { flist = ptr ∷ p.flist; nfree = p.nfree + 1 });
    })

-- False stands for -1: the address is on no page of small blocks.
unfoldable pub subpage_kfree : ℕ → Heap → Outcome (Bool × Heap)
unfolding search_pages put_back
subpage_kfree ptr h = search_pages ptr h 0 nsizes >>= λ found. elim found [
  | none ↦ ok (false, h)
  | some pr ↦ put_back ptr pr h >>= λ h'. ok (true, h')
]
