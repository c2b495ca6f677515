-- ===== src/Kheap/BigMalloc.antt =====
-- Calls of `big_kmalloc` and `big_kfree` of A2/allocators/kheap/kheap.c keep the heap sound.
use csc469_advanced_operatin.Base.{
  ℕ, ◌+◌, ◌-◌, ◌*◌, ◌/◌, ◌^◌, ◌≤◌, ◌<◌, ◌≡◌, ◌≢◌, refl, sym, ap, subst, ◌∙◌, true, false, List, ◌∷◌,
  arith, ◌==◌, ltb, inl, inr, has, Bool-cases, ==→≡, ≢→==,
}
use csc469_advanced_operatin.Kheap.State.{page_size, ok, ◌>>=◌, Heap, update}
use csc469_advanced_operatin.Kheap.Big.{
  Fit, first_fit, new_chunk, take_chunk, big_kmalloc, big_kfree,
}
use csc469_advanced_operatin.Kheap.Pages.{update_same, update_other}
use csc469_advanced_operatin.Kheap.Sound.{
  Purpose, untouched, chunk, taken, PageTable, Chunk, BigOk, Held, HeldBig, HeldOk, IsSound,
}
use csc469_advanced_operatin.Kheap.Retag.{
  Retags, Retags-set_pages, set_pages, set_pages-inside, retag-SubpageOk, retag-Chunk,
  retag-HeldBig, retag-SegmentOk,
}
use csc469_advanced_operatin.Kheap.Segment.{Grown, Retags-Grown, mem_sbrk-Grown}
use csc469_advanced_operatin.Kheap.Give.{Given}
use csc469_advanced_operatin.Kheap.Chunks.{Chunk-headers, FitOk, first_fit-FitOk}
use csc469_advanced_operatin.Kheap.BigBlocks.{taken-IsSound}
use csc469_advanced_operatin.Kheap.PutBack.{AllHeld-zip}

module _ (sz n : ℕ) (rounds : sz + 8 ≤ n * 4096) (pos : 0 < n) (h : Heap) (uses : PageTable)
    (bs : List Held) (s : IsSound h uses bs) where
  fit-IsSound :
      (f : Fit) (k : FitOk h.npages h.bigchunks uses n f)
      → IsSound
          (record h { npages = f.headers; bigchunks = f.chunks })
          (set_pages uses k.start n (taken k.start))
          (record { addr = k.start * 4096 + 8; bytes = sz } ∷ bs)
  fit-IsSound f k =
      taken-IsSound sz n rounds pos h (record h { npages = f.headers; bigchunks = f.chunks }) uses
        bs k.start (chunk k.source) s k.were_free (λ r x. cc) (λ r x. cc) (λ c x. cc) (λ x. cc) refl
        refl refl k.size (λ e t. k.other e (taken e) t (λ x. cc))
        (retag-SegmentOk (chunk k.source) uses _
          (Retags-set_pages uses k.start n (chunk k.source) (taken k.start) k.were_free) _ _ _
          (λ x. cc) s.segment)
        k.big

  with_chunk : ℕ → Heap
  with_chunk k = record h { dseg_hi = h.dseg_hi + n * 4096; npages = update h.npages (k * 4096) n }

  module _ (k : ℕ) (g : Grown h uses n k) where
    header-other :
        (e : ℕ) (v : Purpose)
        → uses e ≡ v
        → v ≢ untouched
        → h.npages (e * 4096) ≡ update h.npages (k * 4096) n (e * 4096)
    header-other e v f ne = sym (
        update_other h.npages (k * 4096) n (e * 4096)
          (≢→== _ _ (λ at. ne (sym f ∙ ap uses (omega (arith, at)) ∙ g.fresh 0))))

    grown-BigOk : BigOk (update h.npages (k * 4096) n) h.bigchunks (set_pages uses k n (taken k))
    grown-BigOk = record {
      distinct = s.big.distinct;
      chunks_ok = λ a m.
          let (whole, c) = s.big.chunks_ok a m in
          let first : uses (a / 4096) ≡ chunk (a / 4096) =
            ap uses (omega arith) ∙ c.pages 0 c.nonempty in
          (
            whole,
            retag-Chunk untouched uses _ (Retags-Grown n k (taken k) g) _ chunk (a / 4096) (λ x. cc)
                (Chunk-headers h.npages _ uses chunk (a / 4096)
                  (header-other (a / 4096) _ first (λ x. cc)) c),
          );
    }

    grown-chunk-IsSound :
        IsSound
          (with_chunk k)
          (set_pages uses k n (taken k))
          (record { addr = k * 4096 + 8; bytes = sz } ∷ bs)
    unfolding with_chunk
    grown-chunk-IsSound =
        taken-IsSound sz n rounds pos h (with_chunk k) uses bs k untouched s (λ j lt. g.fresh j)
          (λ r x. cc) (λ r x. cc) (λ c x. cc) (λ x. cc) refl refl refl (update_same h.npages _ n)
          (λ e t. header-other e (taken e) t (λ x. cc)) (g.segment (taken k)) grown-BigOk

  take_chunk-Given : Given sz n bs (take_chunk n h (first_fit n h.npages h.bigchunks))
  unfolding take_chunk new_chunk with_chunk
  take_chunk-Given = elim (first_fit-FitOk h.npages h.bigchunks uses n pos s.big) [
    | inr (f, e, k) ↦
        subst (λ o. Given sz n bs (take_chunk n h o)) (sym e)
          (
            _,
            _,
            inr (
              k.start * 4096 + 8,
              ap (λ (a : ℕ). ok (a + 8, record h { npages = f.headers; bigchunks = f.chunks }))
                  k.address,
              fit-IsSound f k,
            ),
          )
    | inl e ↦
        subst (λ o. Given sz n bs (take_chunk n h o)) (sym e)
          (elim (mem_sbrk-Grown h uses s.segment n pos) [
            | inl (out, full) ↦
                subst (λ m. Given sz n bs (m >>= new_chunk n)) (sym out)
                  (h, uses, inl (refl, s, full))
            | inr (k, g) ↦
                subst (λ m. Given sz n bs (m >>= new_chunk n)) (sym g.result)
                  (
                    with_chunk k,
                    _,
                    inr (k * 4096 + 8, rw (≢→== _ _ g.non_null) refl, grown-chunk-IsSound k g),
                  )
          ])
  ]

pub big_kmalloc-Given :
    (sz : ℕ) (h : Heap) (uses : PageTable) (bs : List Held)
    → sz + 4104 ≤ 2 ^ 31
    → IsSound h uses bs
    → Given sz ((sz + 8 + page_size - 1) / page_size) bs (big_kmalloc sz h)
unfolding big_kmalloc
big_kmalloc-Given sz h uses bs le s = rw in_range (
    take_chunk-Given sz ((sz + 8 + page_size - 1) / page_size) (omega arith) (omega arith) h uses bs
      s)
  where
    in_range : ltb (sz + 8 + page_size) (2 ^ 31 + 1) ≡ true
    in_range = ground (arith, le)

-- The chunk of a block that comes back is a free one.
pub big_kfree-IsSound :
    (h : Heap) (uses : PageTable) (b : Held) (bs : List Held) (c : ℕ)
    → IsSound h uses (b ∷ bs)
    → HeldBig h.npages uses c b
    → IsSound (big_kfree b.addr h) (set_pages uses c (h.npages (c * 4096)) (chunk c)) bs
unfolding big_kfree
big_kfree-IsSound h uses b bs c s g = record {
  segment = retag-SegmentOk (taken c) uses uses' keeps _ _ _ (λ x. cc) s.segment;
  subpages =
      retag-SubpageOk (taken c) uses uses' keeps _ _ _ (λ r m x. cc) (λ i r m x. cc) (λ x. cc)
        s.subpages;
  big = record {
    distinct = (
      elim (Bool-cases (has (b.addr - 8) h.bigchunks)) [
        | inl m ↦
            let (whole, k) = s.big.chunks_ok (b.addr - 8) m in
            cc (
              sym (g.chunk_ok.pages 0 g.chunk_ok.nonempty)
              ∙ ap uses (omega (arith, at_start))
              ∙ k.pages 0 k.nonempty)
        | inr m ↦ m
      ],
      s.big.distinct,
    );
    chunks_ok = λ a m. elim (Bool-cases (a == b.addr - 8)) [
      | inl e ↦
          subst (λ z. (z ≡ z / 4096 * 4096) × Chunk h.npages uses' chunk (z / 4096))
            (sym (==→≡ a (b.addr - 8) e ∙ at_start))
            (omega arith, subst (Chunk h.npages uses' chunk) number freed)
      | inr e ↦
          let (whole, k) = s.big.chunks_ok a (rest a e m) in
          (whole, retag-Chunk (taken c) uses uses' keeps h.npages chunk (a / 4096) (λ x. cc) k)
    ];
  };
  held =
      AllHeld-zip (HeldOk h uses) (λ d. d.addr ≢ b.addr) (HeldOk (big_kfree b.addr h) uses') bs
        still s.held.1 s.addrs.0;
  addrs = s.addrs.1;
}
  where
    uses' : PageTable
    uses' = set_pages uses c (h.npages (c * 4096)) (chunk c)

    keeps : Retags (taken c) uses uses'
    keeps = Retags-set_pages uses c (h.npages (c * 4096)) (taken c) (chunk c) g.chunk_ok.pages

    at_start : b.addr - 8 ≡ c * 4096
    at_start = omega (arith, g.header)

    number : c ≡ c * 4096 / 4096
    number = omega arith

    freed : Chunk h.npages uses' chunk c
    freed = record {
      nonempty = g.chunk_ok.nonempty;
      pages = λ j lt. set_pages-inside uses c (h.npages (c * 4096)) (chunk c) j lt;
    }

    rest :
        (a : ℕ)
        → (a == b.addr - 8) ≡ false
        → has a ((b.addr - 8) ∷ h.bigchunks) ≡ true
        → has a h.bigchunks ≡ true
    rest a e m = ground (arith, e, m)

    still : (d : Held) → HeldOk h uses d → d.addr ≢ b.addr → HeldOk (big_kfree b.addr h) uses' d
    still d (inl k) ne = inl k
    still d (inr (e, k)) ne = inr (
      e,
      retag-HeldBig (taken c) uses uses' keeps h.npages e d
          (λ x. ne (k.header ∙ ap (λ (z : ℕ). z * 4096 + 8) (cc x) ∙ sym g.header)) k,
    )
