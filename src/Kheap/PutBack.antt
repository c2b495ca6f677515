-- ===== src/Kheap/PutBack.antt =====
-- `subpage_kfree` of A2/allocators/kheap/kheap.c: a small block that is held goes back to its page,
-- and the address of a large one is on no page of small blocks.
use csc469_advanced_operatin.Base.{
  ℕ, ◌+◌, ◌-◌, ◌/◌, ◌%◌, ◌≤◌, ◌<◌, ◌≡◌, ◌≢◌, refl, sym, ap, subst, ◌∙◌, true, false, ◌||◌, not,
  List, [], ◌∷◌, none, some, arith, ◌==◌, leb, inl, inr, has, Bool-cases, ==→≡, ≢→==,
}
use csc469_advanced_operatin.Kheap.State.{
  page_size, ok, ◌>>=◌, PageRef, pr_pageaddr, pr_blocktype, Heap, update,
}
use csc469_advanced_operatin.Kheap.Subpage.{
  nsizes, size_of, search_pages, put_back, retire, subpage_kfree,
}
use csc469_advanced_operatin.Kheap.Blocks.{Block, size_of-Fills}
use csc469_advanced_operatin.Kheap.Pages.{Block-mod}
use csc469_advanced_operatin.Kheap.Sound.{
  PageTable, Page, spares, Held, HeldSmall, HeldBig, HeldOk, AllHeld, IsSound,
}
use csc469_advanced_operatin.Kheap.Modify.{modify-SubpageOk, modify-HeldSmall}
use csc469_advanced_operatin.Kheap.Apart.{
  OnPage, OnPage-small, OnPage-unique, based_once, HeldSmall-addr, HeldBig-addr,
}
use csc469_advanced_operatin.Kheap.Search.{search_pages-InPages}
use csc469_advanced_operatin.Kheap.Recycle.{retire-IsSound}

pub AllHeld-zip :
    (P Q R : Held → Type 0) (bs : List Held)
    → ((b : Held) → P b → Q b → R b)
    → AllHeld P bs
    → AllHeld Q bs
    → AllHeld R bs
AllHeld-zip P Q R [] f p q = tt
AllHeld-zip P Q R (b ∷ bs) f p q = (f b p.0 q.0, AllHeld-zip P Q R bs f p.1 q.1)

-- The page with one more free block.
abbrev longer : PageRef → ℕ → PageRef
longer p a = record p { flist = a ∷ p.flist; nfree = p.nfree + 1 }

longer-Page :
    (p : PageRef) (uses : PageTable) (i r a : ℕ)
    → Page p uses i r
    → Block (pr_pageaddr p.pageaddr_and_blocktype) (size_of i) (page_size / size_of i) a
    → has a p.flist ≡ false
    → Page (longer p a) uses i r
longer-Page p uses i r a g block out = record {
  non_null = g.non_null;
  index = g.index;
  kind = g.kind;
  place = g.place;
  purpose = g.purpose;
  stored = g.stored;
  count = omega (arith, g.count);
  different = (out, g.different);
  blocks = λ d m. elim (Bool-cases (d == a)) [
    | inl e ↦
        subst (Block (pr_pageaddr p.pageaddr_and_blocktype) (size_of i) (page_size / size_of i))
          (sym (==→≡ d a e)) block
    | inr e ↦ g.blocks d (rest d e m)
  ];
}
  where
    rest : (d : ℕ) → (d == a) ≡ false → has d (a ∷ p.flist) ≡ true → has d p.flist ≡ true
    rest d e m = ground (arith, e, m)

-- Where a block of a page starts, the test of the offset lets it pass.
offset_ok :
    (page a s : ℕ)
    → page ≤ a
    → a < page + 4096
    → (a - page) % s ≡ 0
    → (leb page_size (a - page) || not ((a - page) % s == 0)) ≡ false
offset_ok page a s lo hi e = rw e (ground arith)

module _ (h : Heap) (uses : PageTable) (b : Held) (bs : List Held)
    (s : IsSound h uses (b ∷ bs)) where
  module _ (i r : ℕ) (g : HeldSmall h.pagerefs h.sizebases i r b) where
    page : Page (h.pagerefs r) uses i r
    page = s.subpages.base_ok i r g.listed

    returned : Heap
    returned = record h { pagerefs = update h.pagerefs r (longer (h.pagerefs r) b.addr) }

    returned-IsSound : IsSound returned uses bs
    unfolding returned
    returned-IsSound = record {
      segment = s.segment;
      subpages =
          modify-SubpageOk h.pagerefs r (longer (h.pagerefs r) b.addr) refl (spares h) h.sizebases
            uses
            (λ j m p.
              longer-Page (h.pagerefs r) uses j r b.addr p
                (subst
                  (λ z.
                    Block (pr_pageaddr (h.pagerefs r).pageaddr_and_blocktype) (size_of z)
                      (page_size / size_of z) b.addr)
                  (based_once _ _ _ uses s.subpages i j r g.listed m) g.block)
                g.held)
            s.subpages;
      big = s.big;
      held =
          AllHeld-zip (HeldOk h uses) (λ d. d.addr ≢ b.addr) (HeldOk returned uses) bs still
            s.held.1 s.addrs.0;
      addrs = s.addrs.1;
    }
      where
        more :
            (d : ℕ)
            → d ≢ b.addr
            → has d (h.pagerefs r).flist ≡ false
            → has d (b.addr ∷ (h.pagerefs r).flist) ≡ false
        more d ne out = ground (arith, ≢→== d b.addr ne, out)

        still : (d : Held) → HeldOk h uses d → d.addr ≢ b.addr → HeldOk returned uses d
        still d (inl (j, q, k)) ne = inl (
          j,
          q,
          modify-HeldSmall h.pagerefs r (longer (h.pagerefs r) b.addr) refl h.sizebases j q d
              (more d.addr ne) k,
        )
        still d (inr k) ne = inr k

    on : OnPage h.pagerefs r b.addr
    on = HeldSmall-addr _ _ _ uses s.subpages i r b g

    put_back-retire : put_back b.addr r h ≡ retire r i returned
    unfolding put_back returned
    put_back-retire =
        rw
          (
            page.kind,
            offset_ok _ b.addr (size_of i) on.0 on.1 (
                Block-mod _ (size_of i) _ b.addr (omega (arith, (size_of-Fills i page.index).small))
                  g.block),
          )
          refl

    put_back-IsSound :
        (h' : Heap) × (uses' : PageTable) × (put_back b.addr r h ≡ ok h') × IsSound h' uses' bs
    unfolding returned
    put_back-IsSound =
        let (h', uses', e, sound) = retire-IsSound returned uses bs returned-IsSound i r g.listed in
        (h', uses', put_back-retire ∙ e, sound)

  kinds :
      (j r : ℕ)
      → has r (h.sizebases j) ≡ true
      → pr_blocktype (h.pagerefs r).pageaddr_and_blocktype < nsizes
  kinds j r m = let p = s.subpages.base_ok j r m in omega (arith, p.kind, p.index)

  subpage_kfree_found :
      (r : ℕ)
      → search_pages b.addr h 0 nsizes ≡ ok (some r)
      → subpage_kfree b.addr h ≡ (put_back b.addr r h >>= λ h'. ok (true, h'))
  unfolding subpage_kfree
  subpage_kfree_found r e = rw e refl

  subpage_kfree_missed :
      search_pages b.addr h 0 nsizes ≡ ok none → subpage_kfree b.addr h ≡ ok (false, h)
  unfolding subpage_kfree
  subpage_kfree_missed e = rw e refl

  -- A small block goes back.
  pub subpage_kfree-small :
      (i r : ℕ)
      → HeldSmall h.pagerefs h.sizebases i r b
      → (h' : Heap) × (uses' : PageTable) × (subpage_kfree b.addr h ≡ ok (true, h'))
        × IsSound h' uses' bs
  subpage_kfree-small i r g = elim (search_pages-InPages b.addr h 0 nsizes kinds) [
    | inl (e, no_page) ↦
        absurd (no_page i r (omega arith) (omega (arith, (page i r g).index)) g.listed (on i r g))
    | inr (j, q, e, m, on_q) ↦
        let same : q ≡ r =
          OnPage-unique _ _ _ uses s.subpages j i q r b.addr m g.listed on_q (on i r g) in
        let (h', uses', f, sound) = put_back-IsSound i r g in
        (
          h',
          uses',
          subpage_kfree_found q e
              ∙ ap (λ z. put_back b.addr z h >>= λ h'. ok (true, h')) same
              ∙ ap (λ m. m >>= λ h'. ok (true, h')) f,
          sound,
        )
  ]

  -- The search does not find a large block.
  pub subpage_kfree-big :
      (c : ℕ) → HeldBig h.npages uses c b → subpage_kfree b.addr h ≡ ok (false, h)
  subpage_kfree-big c g = elim (search_pages-InPages b.addr h 0 nsizes kinds) [
    | inl (e, _) ↦ subpage_kfree_missed e
    | inr (j, q, e, m, on_q) ↦
        cc (OnPage-small _ _ _ uses s.subpages j q b.addr m on_q, HeldBig-addr _ uses c b g)
  ]
