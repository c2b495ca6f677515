-- ===== src/Kheap/Refs.antt =====
-- `allocpageref` of A2/allocators/kheap/kheap.c: a struct that is in no list afterwards.
use csc469_advanced_operatin.Base.{
  ℕ, zero, suc, ◌+◌, ◌*◌, ◌/◌, ◌≤◌, ◌<◌, ◌≡◌, ◌≢◌, refl, sym, ap, subst, ◌∙◌, true, false, ◌&&◌,
  List, [], ◌∷◌, ◌++◌, arith, ◌==◌, ltb, leb, if◌then◌else◌, ◌⊎◌, inl, inr, has, Distinct, ==→≡,
  ≢→==, Bool-cases,
}
use csc469_advanced_operatin.Kheap.State.{
  page_size, ok, PageRef, pr_pageaddr, Heap, mem_sbrk, ◌>>=◌,
}
use csc469_advanced_operatin.Kheap.Blocks.{Block}
use csc469_advanced_operatin.Kheap.Subpage.{size_of, refs_from, first_ref, allocpageref}
use csc469_advanced_operatin.Kheap.Sound.{
  Purpose, untouched, table, PageTable, Page, Spare, spares, SubpageOk, Held, HeldOk, AllHeld,
  IsSound,
}
use csc469_advanced_operatin.Kheap.Retag.{
  Retags, set_pages, set_pages-inside, retag-Page, retag-BigOk, retag-HeldBig,
}
use csc469_advanced_operatin.Kheap.Segment.{Full, Grown, Retags-Grown, mem_sbrk-Grown}

pub AllHeld-map :
    (P Q : Held → Type 0) (bs : List Held) → ((b : Held) → P b → Q b) → AllHeld P bs → AllHeld Q bs
AllHeld-map P Q [] f h = tt
AllHeld-map P Q (b ∷ bs) f h = (f b h.0, AllHeld-map P Q bs f h.1)

-- A struct with no page, or with a wholly free one, is in no list of a size.
pub Spare-not_based :
    (refs : ℕ → PageRef) (spare : List ℕ) (bases : ℕ → List ℕ) (uses : PageTable) (r : ℕ)
    → SubpageOk refs spare bases uses
    → Spare (refs r).pageaddr_and_blocktype uses r
    → (i : ℕ) → has r (bases i) ≡ false
Spare-not_based refs spare bases uses r s p i = elim (Bool-cases (has r (bases i))) [
  | inr e ↦ e
  | inl e ↦ elim p.page [
    | inl z ↦ absurd ((s.base_ok i r e).place z)
    | inr u ↦ cc (u, (s.base_ok i r e).purpose)
  ]
]

-- Between the calls of one `malloc`: the struct `r` is in no list.
pub record Open (h : Heap) (uses : PageTable) (bs : List Held) (r : ℕ) : Type 0 where
  pub sound : IsSound h uses bs
  pub non_listed : has r (spares h) ≡ false
  pub spare : Spare (h.pagerefs r).pageaddr_and_blocktype uses r

pop-SubpageOk :
    (refs : ℕ → PageRef) (l : List ℕ) (r : ℕ) (rest : List ℕ) (bases : ℕ → List ℕ)
    (uses : PageTable)
    → l ≡ r ∷ rest
    → SubpageOk refs l bases uses
    → SubpageOk refs rest bases uses
      × (has r rest ≡ false)
      × Spare (refs r).pageaddr_and_blocktype uses r
pop-SubpageOk refs l r rest bases uses e s =
    let s' : SubpageOk refs (r ∷ rest) bases uses = subst (λ l. SubpageOk refs l bases uses) e s in
    (
      record {
        spare_distinct = s'.spare_distinct.1;
        spare_ok = λ q m. s'.spare_ok q (ground (arith, m));
        base_distinct = s'.base_distinct;
        base_ok = s'.base_ok;
      },
      s'.spare_distinct.0,
      s'.spare_ok r (ground arith),
    )

pub refs_from-within : (n a q : ℕ) → has q (refs_from a n) ≡ true → (a ≤ q) × (q < a + n * 32)
unfolding refs_from
refs_from-within zero a q h = absurd (cc)
refs_from-within (suc n) a q h = elim (Bool-cases (q == a)) [
  | inl e ↦ ground (arith, ==→≡ q a e)
  | inr e ↦
      let (lo, hi) = refs_from-within n (a + 32) q (ground (arith, e, h)) in
      (omega arith, omega arith)
]

Distinct-refs_from : (n a : ℕ) → Distinct (refs_from a n)
unfolding refs_from
Distinct-refs_from zero a = tt
Distinct-refs_from (suc n) a = (
  elim (Bool-cases (has a (refs_from (a + 32) n))) [
    | inl e ↦ absurd (omega (arith, (refs_from-within n (a + 32) a e).0))
    | inr e ↦ e
  ],
  Distinct-refs_from n (a + 32),
)

-- The structs in a page are cleared.
abbrev cleared : ℕ → (ℕ → PageRef) → ℕ → PageRef
cleared ref refs q =
    if leb ref q && ltb q (ref + page_size)
    then record { flist = []; pageaddr_and_blocktype = 0; nfree = 0 }
    else refs q

cleared-inside :
    (k q : ℕ) (refs : ℕ → PageRef)
    → k * 4096 ≤ q
    → q < k * 4096 + 4096
    → (cleared (k * 4096) refs q).pageaddr_and_blocktype ≡ 0
cleared-inside k q refs a b = ground arith

cleared-outside : (k q : ℕ) (refs : ℕ → PageRef) → q / 4096 ≢ k → refs q ≡ cleared (k * 4096) refs q
cleared-outside k q refs ne = elim (Bool-cases (leb (k * 4096) q && ltb q (k * 4096 + 4096))) [
  | inl e ↦ absurd (ne (ground (arith, e)))
  | inr e ↦ rw e refl
]

new_table :
    (refs : ℕ → PageRef) (bases : ℕ → List ℕ) (uses uses' : PageTable) (k : ℕ)
    → Retags untouched uses uses'
    → uses k ≡ untouched
    → uses' k ≡ table
    → (k * 4096) ≢ 0
    → SubpageOk refs [] bases uses
    → SubpageOk (cleared (k * 4096) refs) (refs_from (k * 4096 + 32) 127) bases uses'
unfolding pr_pageaddr
new_table refs bases uses uses' k keeps was now pos s = record {
  spare_distinct = Distinct-refs_from 127 (k * 4096 + 32);
  spare_ok = λ q m.
      fresh q (refs_from-within 127 (k * 4096 + 32) q m).0
        (refs_from-within 127 (k * 4096 + 32) q m).1;
  base_distinct = s.base_distinct;
  base_ok = λ i q m.
      subst (λ p. Page p uses' i q)
        (cleared-outside k q refs (λ e. cc (was, ap uses e, (s.base_ok i q m).stored)))
        (retag-Page untouched uses uses' keeps (refs q) i q (λ x. cc) (λ x. cc) (s.base_ok i q m));
}
  where
    fresh :
        (q : ℕ)
        → k * 4096 + 32 ≤ q
        → q < k * 4096 + 32 + 127 * 32
        → Spare (cleared (k * 4096) refs q).pageaddr_and_blocktype uses' q
    fresh q lo hi = record {
      non_null = λ z. omega arith;
      stored = ap uses' (omega arith) ∙ now;
      page = inl (ap pr_pageaddr (cleared-inside k q refs (omega arith) (omega arith)));
    }

pub set_page-at : (uses : PageTable) (k : ℕ) (new : Purpose) → set_pages uses k 1 new k ≡ new
set_page-at uses k new =
    ap (set_pages uses k 1 new) (omega arith) ∙ set_pages-inside uses k 1 new 0 (omega arith)

-- The heap after `allocpageref` has obtained a page of structs, the first of which is taken.
abbrev with_table : ℕ → Heap → Heap
with_table k h = record h {
  dseg_hi = h.dseg_hi + 1 * 4096;
  pagerefs = cleared (k * 4096) h.pagerefs;
  fresh_refs = refs_from (k * 4096 + 32) 127;
}

module _ (h : Heap) (uses : PageTable) (bs : List Held) (s : IsSound h uses bs)
    (no_recycled : h.recycled_refs ≡ []) (no_fresh : h.fresh_refs ≡ []) where
  no_spares : spares h ≡ []
  no_spares = ap (λ l. l ++ h.fresh_refs) no_recycled ∙ no_fresh

  table-Held :
      (k : ℕ) (uses' : PageTable) (b : Held)
      → Retags untouched uses uses'
      → uses k ≡ untouched
      → HeldOk h uses b
      → HeldOk (with_table k h) uses' b
  table-Held k uses' b keeps was (inl (i, q, g)) =
      let same : h.pagerefs q ≡ cleared (k * 4096) h.pagerefs q =
        cleared-outside k q h.pagerefs
          (λ e. cc (was, ap uses e, (s.subpages.base_ok i q g.listed).stored)) in
      inl (
        i,
        q,
        record {
          listed = g.listed;
          block =
              subst
                (λ (p : PageRef).
                  Block (pr_pageaddr p.pageaddr_and_blocktype) (size_of i) (page_size / size_of i)
                    b.addr)
                same g.block;
          held = subst (λ (p : PageRef). has b.addr p.flist ≡ false) same g.held;
          fits = g.fits;
        },
      )
  table-Held k uses' b keeps was (inr (c, g)) =
      inr (c, retag-HeldBig untouched uses uses' keeps h.npages c b (λ x. cc) g)

  table-Open :
      (k : ℕ) → Grown h uses 1 k → Open (with_table k h) (set_pages uses k 1 table) bs (k * 4096)
  unfolding pr_pageaddr
  table-Open k g =
      let uses' = set_pages uses k 1 table in
      let keeps = Retags-Grown 1 k table g in
      let was : uses k ≡ untouched = ap uses (omega arith) ∙ g.fresh 0 in
      let now = set_page-at uses k table in
      let listed : spares (with_table k h) ≡ refs_from (k * 4096 + 32) 127 =
        ap (λ l. l ++ refs_from (k * 4096 + 32) 127) no_recycled in
      record {
        sound = record {
          segment = g.segment table;
          subpages =
              subst (λ l. SubpageOk (cleared (k * 4096) h.pagerefs) l h.sizebases uses')
                (sym listed)
                (new_table h.pagerefs h.sizebases uses uses' k keeps was now g.non_null
                  (subst (λ l. SubpageOk h.pagerefs l h.sizebases uses) no_spares s.subpages));
          big = retag-BigOk untouched uses uses' keeps h.npages h.bigchunks (λ a m x. cc) s.big;
          held =
              AllHeld-map (HeldOk h uses) (HeldOk (with_table k h) uses') bs
                (λ b. table-Held k uses' b keeps was) s.held;
          addrs = s.addrs;
        };
        non_listed =
            ap (has (k * 4096)) listed
            ∙ (elim (Bool-cases (has (k * 4096) (refs_from (k * 4096 + 32) 127))) [
              | inl e ↦
                  absurd (omega (arith, (refs_from-within 127 (k * 4096 + 32) (k * 4096) e).0))
              | inr e ↦ e
            ]);
        spare = record {
          non_null = g.non_null;
          stored = ap uses' (omega arith) ∙ now;
          page =
              inl (
                ap pr_pageaddr
                  (cleared-inside k (k * 4096) h.pagerefs (omega arith) (omega arith)));
        };
      }

  alloc_table : (k : ℕ) → Grown h uses 1 k → allocpageref h ≡ ok (k * 4096, with_table k h)
  unfolding allocpageref first_ref
  alloc_table k g =
      let rest : (mem_sbrk page_size h >>= first_ref) ≡ ok (k * 4096, with_table k h) =
        ap (λ o. o >>= first_ref) g.result ∙ rw (≢→== _ _ g.non_null) refl in
      ground (arith, no_recycled, no_fresh, rest)

  alloc_none : mem_sbrk page_size h ≡ ok (0, h) → allocpageref h ≡ ok (0, h)
  unfolding allocpageref first_ref
  alloc_none e =
      let rest : (mem_sbrk page_size h >>= first_ref) ≡ ok (0, h) = ap (λ o. o >>= first_ref) e in
      ground (arith, no_recycled, no_fresh, rest)

-- `allocpageref` returns `NULL` and changes nothing, or a struct that is in no list.
abbrev pub RefResult : Heap → PageTable → List Held → Type 0
RefResult h uses bs =
    ((allocpageref h ≡ ok (0, h)) × Full 1 h)
    ⊎ ((r : ℕ) × (h' : Heap) × (uses' : PageTable) × (allocpageref h ≡ ok (r, h'))
        × Open h' uses' bs r)

Open-spare :
    (h h' : Heap) (uses : PageTable) (bs : List Held) (r : ℕ) (rest : List ℕ)
    → spares h ≡ r ∷ rest
    → spares h' ≡ rest
    → h'.pagerefs ≡ h.pagerefs
    → h'.sizebases ≡ h.sizebases
    → IsSound h uses bs
    → (SubpageOk h.pagerefs rest h.sizebases uses → IsSound h' uses bs)
    → Open h' uses bs r
Open-spare h h' uses bs r rest e e' refs bases s build =
    let (ok', new, spare) = pop-SubpageOk h.pagerefs _ r rest h.sizebases uses e s.subpages in
    record {
      sound = build ok';
      non_listed = ap (has r) e' ∙ new;
      spare = subst (λ f. Spare (f r).pageaddr_and_blocktype uses r) (sym refs) spare;
    }

alloc_cases :
    (h : Heap) (uses : PageTable) (bs : List Held) (rs fs : List ℕ)
    → h.recycled_refs ≡ rs
    → h.fresh_refs ≡ fs
    → IsSound h uses bs
    → RefResult h uses bs
unfolding allocpageref
alloc_cases h uses bs [] [] er ef s = elim (mem_sbrk-Grown h uses s.segment 1 (omega arith)) [
  | inl (e, full) ↦ inl (alloc_none h uses bs s er ef e, full)
  | inr (k, g) ↦ inr (
    k * 4096,
    with_table k h,
    set_pages uses k 1 table,
    alloc_table h uses bs s er ef k g,
    table-Open h uses bs s er ef k g,
  )
]
alloc_cases h uses bs (r ∷ rest) fs er ef s = inr (
  r,
  record h { recycled_refs = rest },
  uses,
  ground (arith, er),
  Open-spare h (record h { recycled_refs = rest }) uses bs r (rest ++ h.fresh_refs)
      (ap (λ l. l ++ h.fresh_refs) er) refl refl refl s
      (λ o. record {
        segment = s.segment;
        subpages = o;
        big = s.big;
        held = s.held;
        addrs = s.addrs;
      }),
)
alloc_cases h uses bs [] (r ∷ rest) er ef s =
    let listed : spares h ≡ r ∷ rest = ap (λ l. l ++ h.fresh_refs) er ∙ ef in
    let listed' : spares (record h { fresh_refs = rest }) ≡ rest = ap (λ l. l ++ rest) er in
    inr (
      r,
      record h { fresh_refs = rest },
      uses,
      ground (arith, er, ef),
      Open-spare h (record h { fresh_refs = rest }) uses bs r rest listed listed' refl refl s
          (λ o. record {
            segment = s.segment;
            subpages = subst (λ l. SubpageOk h.pagerefs l h.sizebases uses) (sym listed') o;
            big = s.big;
            held = s.held;
            addrs = s.addrs;
          }),
    )

pub allocpageref-Open :
    (h : Heap) (uses : PageTable) (bs : List Held) → IsSound h uses bs → RefResult h uses bs
allocpageref-Open h uses bs s = alloc_cases h uses bs _ _ refl refl s
