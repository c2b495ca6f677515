-- ===== src/Kheap/Apart.antt =====
-- The blocks that are held lie apart: each page of the data segment belongs to one structure.
use csc469_advanced_operatin.Base.{
  ℕ, zero, suc, ◌+◌, ◌-◌, ◌*◌, ◌/◌, ◌≤◌, ◌<◌, ◌≡◌, ◌≢◌, refl, sym, ap, subst, ◌∙◌, true, List,
  arith, ◌⊎◌, inl, inr, has,
}
use csc469_advanced_operatin.Kheap.State.{page_size, PageRef, pr_pageaddr, Heap}
use csc469_advanced_operatin.Kheap.Subpage.{size_of}
use csc469_advanced_operatin.Kheap.Blocks.{Block, size_of-Fills}
use csc469_advanced_operatin.Kheap.Pages.{pr_pageaddr-whole, Block-in_page, next_multiple}
use csc469_advanced_operatin.Kheap.Sound.{
  small, taken, PageTable, spares, SubpageOk, Held, HeldSmall, HeldBig, HeldOk, AllHeld, NewAddr,
}
use csc469_advanced_operatin.Kheap.Refs.{AllHeld-map}

-- An address on the page of a struct that is in a list.
abbrev pub OnPage : (ℕ → PageRef) → (r a : ℕ) → Type 0
OnPage refs r a =
    (pr_pageaddr (refs r).pageaddr_and_blocktype ≤ a)
    × (a < pr_pageaddr (refs r).pageaddr_and_blocktype + 4096)

page_number : (w a : ℕ) → w ≡ w / 4096 * 4096 → w ≤ a → a < w + 4096 → a / 4096 ≡ w / 4096
page_number w a e lo hi = omega arith

module _ (refs : ℕ → PageRef) (spare : List ℕ) (bases : ℕ → List ℕ) (uses : PageTable)
    (s : SubpageOk refs spare bases uses) where
  pub OnPage-small :
      (i r a : ℕ) → has r (bases i) ≡ true → OnPage refs r a → uses (a / 4096) ≡ small r
  OnPage-small i r a m on =
      ap uses (page_number _ a (pr_pageaddr-whole _) on.0 on.1) ∙ (s.base_ok i r m).purpose

  -- One page, one struct.
  pub OnPage-unique :
      (i j r q a : ℕ)
      → has r (bases i) ≡ true
      → has q (bases j) ≡ true
      → OnPage refs r a
      → OnPage refs q a
      → r ≡ q
  OnPage-unique i j r q a m n on on' = cc (OnPage-small i r a m on, OnPage-small j q a n on')

  pub based_once : (i j r : ℕ) → has r (bases i) ≡ true → has r (bases j) ≡ true → i ≡ j
  based_once i j r m n = sym (s.base_ok i r m).kind ∙ (s.base_ok j r n).kind

  pub HeldSmall-OnPage :
      (i r : ℕ) (b : Held) (x : ℕ)
      → HeldSmall refs bases i r b
      → b.addr ≤ x
      → x < b.addr + size_of i
      → OnPage refs r x
  HeldSmall-OnPage i r b x g lo hi =
      let (l, u) =
        Block-in_page _ _ b.addr (size_of-Fills i (s.base_ok i r g.listed).index) g.block in
      (omega arith, omega arith)

  pub HeldSmall-addr : (i r : ℕ) (b : Held) → HeldSmall refs bases i r b → OnPage refs r b.addr
  HeldSmall-addr i r b g =
      HeldSmall-OnPage i r b b.addr g (omega arith)
        (omega (arith, (size_of-Fills i (s.base_ok i r g.listed).index).small))

pub HeldBig-taken :
    (headers : ℕ → ℕ) (uses : PageTable) (c : ℕ) (b : Held) (x : ℕ)
    → HeldBig headers uses c b
    → c * 4096 ≤ x
    → x < c * 4096 + headers (c * 4096) * 4096
    → uses (x / 4096) ≡ taken c
HeldBig-taken headers uses c b x g lo hi =
    ap uses (omega arith) ∙ g.chunk_ok.pages (x / 4096 - c) (omega arith)

pub HeldBig-addr :
    (headers : ℕ → ℕ) (uses : PageTable) (c : ℕ) (b : Held)
    → HeldBig headers uses c b
    → uses (b.addr / 4096) ≡ taken c
HeldBig-addr headers uses c b g =
    HeldBig-taken headers uses c b b.addr g (omega (arith, g.header))
      (omega (arith, g.header, g.chunk_ok.nonempty))

-- A block on the free list of a page is not held.
pub free-NewAddr :
    (h : Heap) (uses : PageTable) (bs : List Held) (i r a : ℕ)
    → SubpageOk h.pagerefs (spares h) h.sizebases uses
    → has r (h.sizebases i) ≡ true
    → OnPage h.pagerefs r a
    → has a (h.pagerefs r).flist ≡ true
    → AllHeld (HeldOk h uses) bs
    → NewAddr a bs
free-NewAddr h uses bs i r a s m on free held =
    AllHeld-map (HeldOk h uses) (λ b. b.addr ≢ a) bs differ held
  where
    differ : (b : Held) → HeldOk h uses b → b.addr ≢ a
    differ b (inl (j, q, g)) e =
        let on_q : OnPage h.pagerefs q a =
          subst (OnPage h.pagerefs q) e (HeldSmall-addr _ _ _ uses s j q b g) in
        let same : r ≡ q = OnPage-unique _ _ _ uses s i j r q a m g.listed on on_q in
        cc (free, g.held, e, same)
    differ b (inr (c, g)) e = cc (
      OnPage-small _ _ _ uses s i r a m on,
      HeldBig-addr _ uses c b g,
      ap (λ (x : ℕ). uses (x / 4096)) e,
    )

-- No byte belongs to both.
abbrev pub Apart : Held → Held → Type 0
Apart b d = (x : ℕ) → b.addr ≤ x → x < b.addr + b.bytes → d.addr ≤ x → ¬ (x < d.addr + d.bytes)

blocks_apart :
    (page s n a d : ℕ) → Block page s n a → Block page s n d → a ≢ d → (a + s ≤ d) ⊎ (d + s ≤ a)
blocks_apart page s n a d (k, _, ea) (l, _, ed) ne = elim (three k l) [
  | inl lt ↦ inl (omega (arith, next_multiple k l s lt, ea, ed))
  | inr (inl gt) ↦ inr (omega (arith, next_multiple l k s gt, ea, ed))
  | inr (inr e) ↦ absurd (ne (ea ∙ ap (λ (m : ℕ). page + m * s) e ∙ sym ed))
]
  where
    three : (k l : ℕ) → (k < l) ⊎ ((l < k) ⊎ (k ≡ l))
    three zero zero = inr (inr refl)
    three zero (suc l) = inl (omega arith)
    three (suc k) zero = inr (inl (omega arith))
    three (suc k) (suc l) = elim (three k l) [
      | inl a ↦ inl (omega arith)
      | inr (inl b) ↦ inr (inl (omega arith))
      | inr (inr c) ↦ inr (inr (omega arith))
    ]

module _ (h : Heap) (uses : PageTable) (s : SubpageOk h.pagerefs (spares h) h.sizebases uses) where
  small-Apart :
      (i j r q : ℕ) (b d : Held)
      → HeldSmall h.pagerefs h.sizebases i r b
      → HeldSmall h.pagerefs h.sizebases j q d
      → b.addr ≢ d.addr
      → Apart b d
  small-Apart i j r q b d g k ne x b0 b1 d0 d1 =
      let on_r : OnPage h.pagerefs r x =
        HeldSmall-OnPage _ _ _ uses s i r b x g b0 (omega (arith, g.fits)) in
      let on_q : OnPage h.pagerefs q x =
        HeldSmall-OnPage _ _ _ uses s j q d x k d0 (omega (arith, k.fits)) in
      let same : r ≡ q = OnPage-unique _ _ _ uses s i j r q x g.listed k.listed on_r on_q in
      let listed : has r (h.sizebases j) ≡ true =
        subst (λ z. has z (h.sizebases j) ≡ true) (sym same) k.listed in
      let size : i ≡ j = based_once _ _ _ uses s i j r g.listed listed in
      let block : Block (pr_pageaddr (h.pagerefs r).pageaddr_and_blocktype) (size_of i)
          (page_size / size_of i) d.addr =
        subst
          (λ z.
            Block (pr_pageaddr (h.pagerefs r).pageaddr_and_blocktype) (size_of z)
              (page_size / size_of z) d.addr)
          (sym size)
          (subst
            (λ z.
              Block (pr_pageaddr (h.pagerefs z).pageaddr_and_blocktype) (size_of j)
                (page_size / size_of j) d.addr)
            (sym same) k.block) in
      let fits : d.bytes ≤ size_of i = subst (λ z. d.bytes ≤ size_of z) (sym size) k.fits in
      elim (blocks_apart _ (size_of i) _ b.addr d.addr g.block block ne) [
        | inl le ↦ omega (arith, g.fits)
        | inr le ↦ omega (arith, fits)
      ]

  mixed-Apart :
      (i r c : ℕ) (b d : Held) (x : ℕ)
      → HeldSmall h.pagerefs h.sizebases i r b
      → HeldBig h.npages uses c d
      → b.addr ≤ x
      → x < b.addr + b.bytes
      → d.addr ≤ x
      → ¬ (x < d.addr + d.bytes)
  mixed-Apart i r c b d x g k b0 b1 d0 d1 =
      let on_r : OnPage h.pagerefs r x =
        HeldSmall-OnPage _ _ _ uses s i r b x g b0 (omega (arith, g.fits)) in
      cc (
        OnPage-small _ _ _ uses s i r x g.listed on_r,
        HeldBig-taken h.npages uses c d x k (omega (arith, k.header))
            (omega (arith, k.header, k.fits)),
      )

  big-Apart :
      (c e : ℕ) (b d : Held)
      → HeldBig h.npages uses c b
      → HeldBig h.npages uses e d
      → b.addr ≢ d.addr
      → Apart b d
  big-Apart c e b d g k ne x b0 b1 d0 d1 =
      let tag : taken c ≡ taken e =
        sym (
          HeldBig-taken h.npages uses c b x g (omega (arith, g.header))
            (omega (arith, g.header, g.fits)))
        ∙ HeldBig-taken h.npages uses e d x k (omega (arith, k.header))
            (omega (arith, k.header, k.fits)) in
      let same : c ≡ e = cc tag in ne (omega (arith, g.header, k.header, same))

  pub HeldOk-Apart : (b d : Held) → HeldOk h uses b → HeldOk h uses d → b.addr ≢ d.addr → Apart b d
  HeldOk-Apart b d (inl (i, r, g)) (inl (j, q, k)) ne = small-Apart i j r q b d g k ne
  HeldOk-Apart b d (inl (i, r, g)) (inr (c, k)) ne =
      λ x b0 b1 d0 d1. mixed-Apart i r c b d x g k b0 b1 d0 d1
  HeldOk-Apart b d (inr (c, g)) (inl (j, q, k)) ne =
      λ x b0 b1 d0 d1. mixed-Apart j q c d b x k g d0 d1 b0 b1
  HeldOk-Apart b d (inr (c, g)) (inr (e, k)) ne = big-Apart c e b d g k ne
