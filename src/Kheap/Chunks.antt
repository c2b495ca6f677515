-- ===== src/Kheap/Chunks.antt =====
-- The search of `big_kmalloc` of A2/allocators/kheap/kheap.c among the free chunks.
use csc469_advanced_operatin.Base.{
  ℕ, ◌+◌, ◌-◌, ◌*◌, ◌/◌, ◌≤◌, ◌<◌, ◌≡◌, ◌≢◌, refl, sym, ap, subst, ◌∙◌, true, false, ◌&&◌, List, [],
  ◌∷◌, none, some, arith, ◌==◌, ltb, leb, ◌⊎◌, inl, inr, has, Bool-cases, ==→≡, ≢→==,
}
use csc469_advanced_operatin.Kheap.State.{page_size, update}
use csc469_advanced_operatin.Kheap.Big.{Fit, keep_chunk, first_fit}
use csc469_advanced_operatin.Kheap.Pages.{update_same, update_other}
use csc469_advanced_operatin.Kheap.Sound.{Purpose, chunk, taken, PageTable, Chunk, BigOk}
use csc469_advanced_operatin.Kheap.Retag.{
  Retags, Retags-set_pages, set_pages, set_pages-outside, retag-Chunk,
}

pub Chunk-headers :
    (headers headers' : ℕ → ℕ) (uses : PageTable) (tag : ℕ → Purpose) (c : ℕ)
    → headers (c * 4096) ≡ headers' (c * 4096)
    → Chunk headers uses tag c
    → Chunk headers' uses tag c
Chunk-headers headers headers' uses tag c e g = record {
  nonempty = omega (arith, g.nonempty, e);
  pages = λ k lt. g.pages k (omega (arith, e));
}

-- What was found: `n` pages from page `start` on, of the free chunk at page `source`.
pub record FitOk (headers : ℕ → ℕ) (chunks : List ℕ) (uses : PageTable) (n : ℕ) (f : Fit)
    : Type 0 where
  pub start : ℕ
  pub source : ℕ
  pub address : f.hdr_ptr ≡ start * 4096
  pub size : f.headers (start * 4096) ≡ n
  pub listed : has (source * 4096) chunks ≡ true
  pub were_free : (j : ℕ) → j < n → uses (start + j) ≡ chunk source
  pub other :
      (e : ℕ) (v : Purpose)
      → uses e ≡ v
      → v ≢ chunk source
      → headers (e * 4096) ≡ f.headers (e * 4096)
  pub fewer : (a : ℕ) → has a f.chunks ≡ true → has a chunks ≡ true
  pub big : BigOk f.headers f.chunks (set_pages uses start n (taken start))

tail-BigOk :
    (headers : ℕ → ℕ) (tmp : ℕ) (next : List ℕ) (uses : PageTable)
    → BigOk headers (tmp ∷ next) uses
    → BigOk headers next uses
tail-BigOk headers tmp next uses g = record {
  distinct = g.distinct.1;
  chunks_ok = λ a m. g.chunks_ok a (ground (arith, m));
}

module _ (headers : ℕ → ℕ) (tmp : ℕ) (next : List ℕ) (uses : PageTable) (n : ℕ) (pos : 0 < n)
    (g : BigOk headers (tmp ∷ next) uses) where
  head_ok : (tmp ≡ tmp / 4096 * 4096) × Chunk headers uses chunk (tmp / 4096)
  head_ok = g.chunks_ok tmp (ground arith)

  member-ne : (a : ℕ) → has a next ≡ true → chunk (a / 4096) ≢ chunk (tmp / 4096)
  member-ne a m e =
      let pages : a / 4096 ≡ tmp / 4096 = cc e in
      let same : a ≡ tmp = omega (arith, pages, (g.chunks_ok a (ground (arith, m))).0, head_ok.0) in
      cc (m, g.distinct.0, ap (λ z. has z next) same)

  member-Chunk :
      (headers' : ℕ → ℕ) (uses' : PageTable) (a : ℕ)
      → Retags (chunk (tmp / 4096)) uses uses'
      → ((e : ℕ) (v : Purpose)
          → uses e ≡ v
          → v ≢ chunk (tmp / 4096)
          → headers (e * 4096) ≡ headers' (e * 4096))
      → has a next ≡ true
      → (a ≡ a / 4096 * 4096) × Chunk headers' uses' chunk (a / 4096)
  member-Chunk headers' uses' a keeps other m =
      let (whole, c) = g.chunks_ok a (ground (arith, m)) in
      let first : uses (a / 4096) ≡ chunk (a / 4096) =
        ap uses (omega arith) ∙ c.pages 0 c.nonempty in
      (
        whole,
        retag-Chunk (chunk (tmp / 4096)) uses uses' keeps headers' chunk (a / 4096) (member-ne a m)
            (Chunk-headers headers headers' uses chunk (a / 4096)
              (other (a / 4096) _ first (member-ne a m)) c),
      )

  header-at-head : headers tmp ≡ headers (tmp / 4096 * 4096)
  header-at-head = ap headers head_ok.0

  -- A chunk of the right size leaves the list.
  equal-FitOk :
      headers tmp ≡ n
      → FitOk headers
          (tmp ∷ next)
          uses
          n
          (record { hdr_ptr = tmp; headers = headers; chunks = next })
  equal-FitOk e =
      let c : ℕ = tmp / 4096 in
      let all : (j : ℕ) → j < n → uses (c + j) ≡ chunk c =
        λ j lt. head_ok.1.pages j (omega (arith, header-at-head, e)) in
      record {
        start = c;
        source = c;
        address = head_ok.0;
        size = sym header-at-head ∙ e;
        listed = ap (λ z. has z (tmp ∷ next)) (sym head_ok.0) ∙ ground arith;
        were_free = all;
        other = λ a v f ne. refl;
        fewer = λ a m. ground (arith, m);
        big = record {
          distinct = g.distinct.1;
          chunks_ok = λ a m.
              member-Chunk headers (set_pages uses c n (taken c)) a
                (Retags-set_pages uses c n (chunk c) (taken c) all) (λ e v f ne. refl) m;
        };
      }

  module _ (more : n < headers tmp) where
    left : ℕ
    left = headers tmp - n

    start : ℕ
    unfolding left
    start = tmp / 4096 + left

    carved : ℕ → ℕ
    unfolding left
    carved = update (update headers tmp left) (tmp + left * page_size) n

    hdr-start : tmp + left * page_size ≡ start * 4096
    unfolding start left
    hdr-start = omega (arith, head_ok.0)

    carved-new : carved (start * 4096) ≡ n
    unfolding carved
    carved-new =
        ap (update (update headers tmp left) (tmp + left * page_size) n) (sym hdr-start)
        ∙ update_same _ _ n

    carved-left : carved tmp ≡ left
    unfolding carved left
    carved-left =
        update_other _ _ n tmp (ground (arith, more)) ∙ update_same headers tmp (headers tmp - n)

    carved_free : (j : ℕ) → j < n → uses (start + j) ≡ chunk (tmp / 4096)
    unfolding start left
    carved_free j lt =
        ap uses (omega arith)
        ∙ head_ok.1.pages (headers tmp - n + j) (omega (arith, header-at-head, more))

    carved-other :
        (e : ℕ) (v : Purpose)
        → uses e ≡ v
        → v ≢ chunk (tmp / 4096)
        → headers (e * 4096) ≡ carved (e * 4096)
    unfolding carved
    carved-other e v f ne =
        let not_tmp : (e * 4096 == tmp) ≡ false =
          ≢→== _ _ (λ at.
            ne (sym f ∙ ap uses (omega (arith, at)) ∙ head_ok.1.pages 0 head_ok.1.nonempty)) in
        let not_hdr : (e * 4096 == tmp + left * page_size) ≡ false =
          ≢→== _ _
            (λ at. ne (sym f ∙ ap uses (omega (arith, at, hdr-start)) ∙ carved_free 0 pos)) in
        sym (
          update_other (update headers tmp left) _ n (e * 4096) not_hdr
          ∙ update_other headers tmp left (e * 4096) not_tmp)

    carved-head : Chunk carved (set_pages uses start n (taken start)) chunk (tmp / 4096)
    carved-head =
        let at : carved (tmp / 4096 * 4096) ≡ left = ap carved (sym head_ok.0) ∙ carved-left in
        record {
          nonempty = omega (arith, at, left-pos);
          pages = λ k lt.
              set_pages-outside uses start n (taken start) (tmp / 4096 + k)
                (below_start k (omega (arith, at)))
              ∙ head_ok.1.pages k (omega (arith, at, header-at-head, left-le));
        }
      where
        left-pos : 0 < left
        left-pos = unfold left in omega (arith, more)

        left-le : left ≤ headers tmp
        left-le = unfold left in omega arith

        below_start :
            (k : ℕ)
            → k < left
            → (leb start (tmp / 4096 + k) && ltb (tmp / 4096 + k) (start + n)) ≡ false
        below_start k lt = unfold start in ground (arith, lt)

    -- A larger chunk gives its last pages.
    carved-FitOk :
        FitOk headers
          (tmp ∷ next)
          uses
          n
          (record { hdr_ptr = tmp + left * page_size; headers = carved; chunks = tmp ∷ next })
    carved-FitOk = record {
      start = start;
      source = tmp / 4096;
      address = hdr-start;
      size = carved-new;
      listed = ap (λ z. has z (tmp ∷ next)) (sym head_ok.0) ∙ ground arith;
      were_free = carved_free;
      other = carved-other;
      fewer = λ a m. m;
      big = record {
        distinct = g.distinct;
        chunks_ok = λ a m. elim (Bool-cases (a == tmp)) [
          | inl e ↦
              subst
                (λ z.
                  (z ≡ z / 4096 * 4096)
                  × Chunk carved (set_pages uses start n (taken start)) chunk (z / 4096))
                (sym (==→≡ a tmp e)) (head_ok.0, carved-head)
          | inr e ↦
              member-Chunk carved (set_pages uses start n (taken start)) a
                (Retags-set_pages uses start n (chunk (tmp / 4096)) (taken start) carved_free)
                carved-other (in_next a e m)
        ];
      };
    }
      where
        in_next : (a : ℕ) → (a == tmp) ≡ false → has a (tmp ∷ next) ≡ true → has a next ≡ true
        in_next a e m = ground (arith, e, m)

  -- What is found behind a chunk leaves this one alone.
  kept-FitOk :
      (f : Fit)
      → FitOk headers next uses n f
      → FitOk headers (tmp ∷ next) uses n (record f { chunks = tmp ∷ f.chunks })
  kept-FitOk f k =
      let ne : chunk (tmp / 4096) ≢ chunk k.source =
        λ e. member-ne (k.source * 4096) k.listed (ap chunk (omega arith) ∙ sym e) in
      let first : uses (tmp / 4096) ≡ chunk (tmp / 4096) =
        ap uses (omega arith) ∙ head_ok.1.pages 0 head_ok.1.nonempty in
      record {
        start = k.start;
        source = k.source;
        address = k.address;
        size = k.size;
        listed = ground (arith, k.listed);
        were_free = k.were_free;
        other = k.other;
        fewer = λ a m. elim (Bool-cases (a == tmp)) [
          | inl e ↦ ground (arith, e)
          | inr e ↦ ground (arith, e, m, k.fewer a)
        ];
        big = record {
          distinct = (
            elim (Bool-cases (has tmp f.chunks)) [
              | inl e ↦ cc (g.distinct.0, k.fewer tmp e)
              | inr e ↦ e
            ],
            k.big.distinct,
          );
          chunks_ok = λ a m. elim (Bool-cases (a == tmp)) [
            | inl e ↦
                subst
                  (λ z.
                    (z ≡ z / 4096 * 4096)
                    × Chunk f.headers (set_pages uses k.start n (taken k.start)) chunk (z / 4096))
                  (sym (==→≡ a tmp e))
                  (
                    head_ok.0,
                    retag-Chunk (chunk k.source) uses _
                        (Retags-set_pages uses k.start n (chunk k.source) (taken k.start)
                          k.were_free)
                        f.headers chunk (tmp / 4096) ne
                        (Chunk-headers headers f.headers uses chunk (tmp / 4096)
                          (k.other (tmp / 4096) _ first ne) head_ok.1),
                  )
            | inr e ↦ k.big.chunks_ok a (in_rest a e m)
          ];
        };
      }
    where
      in_rest : (a : ℕ) → (a == tmp) ≡ false → has a (tmp ∷ f.chunks) ≡ true → has a f.chunks ≡ true
      in_rest a e m = ground (arith, e, m)

-- The search finds nothing, or pages of a free chunk.
pub first_fit-FitOk :
    (headers : ℕ → ℕ) (chunks : List ℕ) (uses : PageTable) (n : ℕ)
    → 0 < n
    → BigOk headers chunks uses
    → (first_fit n headers chunks ≡ none)
      ⊎ ((f : Fit) × (first_fit n headers chunks ≡ some f) × FitOk headers chunks uses n f)
unfolding first_fit left carved
first_fit-FitOk headers [] uses n pos g = inl refl
first_fit-FitOk headers (tmp ∷ next) uses n pos g = elim (Bool-cases (ltb n (headers tmp))) [
  | inl more ↦
      inr (_, rw more refl, carved-FitOk headers tmp next uses n pos g (ground (arith, more)))
  | inr le ↦ elim (Bool-cases (headers tmp == n)) [
    | inl e ↦ inr (_, rw (le, e) refl, equal-FitOk headers tmp next uses n pos g (==→≡ _ _ e))
    | inr ne ↦ elim (first_fit-FitOk headers next uses n pos (tail-BigOk headers tmp next uses g)) [
      | inl e ↦ inl (rw (le, ne) (ap (keep_chunk tmp) e ∙ keep_none tmp))
      | inr (f, e, k) ↦ inr (
        _,
        rw (le, ne) (ap (keep_chunk tmp) e ∙ keep_some tmp f),
        kept-FitOk headers tmp next uses n pos g f k,
      )
    ]
  ]
]
  where
    keep_none : (tmp : ℕ) → keep_chunk tmp none ≡ none
    keep_none tmp = unfold keep_chunk in refl

    keep_some :
        (tmp : ℕ) (f : Fit) → keep_chunk tmp (some f) ≡ some (record f { chunks = tmp ∷ f.chunks })
    keep_some tmp f = unfold keep_chunk in refl
