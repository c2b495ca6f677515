-- ===== src/Kheap/BigBlocks.antt =====
-- `big_kmalloc` and `big_kfree` of A2/allocators/kheap/kheap.c: whole pages go from the free chunks,
-- or from the data segment, to the caller and back.
use csc469_advanced_operatin.Base.{
  ℕ, ◌+◌, ◌*◌, ◌/◌, ◌≤◌, ◌<◌, ◌≡◌, ◌≢◌, refl, sym, ap, subst, ◌∙◌, List, ◌∷◌, arith, inl, inr,
}
use csc469_advanced_operatin.Kheap.State.{Heap}
use csc469_advanced_operatin.Kheap.Sound.{
  Purpose, table, small, empty, taken, PageTable, spares, SubpageOk, BigOk, SegmentOk, Held,
  HeldSmall, HeldBig, HeldOk, AllHeld, NewAddr, IsSound,
}
use csc469_advanced_operatin.Kheap.Retag.{
  Retags, Retags-set_pages, set_pages, set_pages-inside, retag-SubpageOk, retag-Chunk,
}
use csc469_advanced_operatin.Kheap.Refs.{AllHeld-map}
use csc469_advanced_operatin.Kheap.Apart.{OnPage-small, HeldSmall-addr, HeldBig-addr}
use csc469_advanced_operatin.Kheap.Chunks.{Chunk-headers}

-- No block that is held starts on pages of the purpose `old`, unless that is one of such blocks.
away-NewAddr :
    (h : Heap) (uses : PageTable) (bs : List Held) (k : ℕ) (old : Purpose)
    → SubpageOk h.pagerefs (spares h) h.sizebases uses
    → uses k ≡ old
    → ((r : ℕ) → small r ≢ old)
    → ((c : ℕ) → taken c ≢ old)
    → AllHeld (HeldOk h uses) bs
    → NewAddr (k * 4096 + 8) bs
away-NewAddr h uses bs k old s at ns nt held =
    AllHeld-map (HeldOk h uses) (λ b. b.addr ≢ k * 4096 + 8) bs differ held
  where
    number : (a k : ℕ) → a ≡ k * 4096 + 8 → a / 4096 ≡ k
    number a k e = omega arith

    differ : (b : Held) → HeldOk h uses b → b.addr ≢ k * 4096 + 8
    differ b (inl (j, q, g)) e = ns q (
        sym (OnPage-small _ _ _ uses s j q b.addr g.listed (HeldSmall-addr _ _ _ uses s j q b g))
        ∙ ap uses (number b.addr k e)
        ∙ at)
    differ b (inr (c, g)) e =
        nt c (sym (HeldBig-addr _ uses c b g) ∙ ap uses (number b.addr k e) ∙ at)

-- The pages from `k` on go to the caller: `n` of them, which had the purpose `old`.
module _ (sz n : ℕ) (rounds : sz + 8 ≤ n * 4096) (pos : 0 < n) (h h' : Heap) (uses : PageTable)
    (bs : List Held) (k : ℕ) (old : Purpose) (s : IsSound h uses bs)
    (were : (j : ℕ) → j < n → uses (k + j) ≡ old) (ns : (r : ℕ) → small r ≢ old)
    (ne : (r : ℕ) → empty r ≢ old) (nt : (c : ℕ) → taken c ≢ old) (n_table : table ≢ old)
    (same_refs : h'.pagerefs ≡ h.pagerefs) (same_spares : spares h' ≡ spares h)
    (same_bases : h'.sizebases ≡ h.sizebases) (header : h'.npages (k * 4096) ≡ n)
    (headers : (e : ℕ) → uses e ≡ taken e → h.npages (e * 4096) ≡ h'.npages (e * 4096)) where
  uses_after : PageTable
  uses_after = set_pages uses k n (taken k)

  keeps : Retags old uses uses_after
  unfolding uses_after
  keeps = Retags-set_pages uses k n old (taken k) were

  held_after : (b : Held) → HeldOk h uses b → HeldOk h' uses_after b
  held_after b (inl (j, q, g)) = inl (
    j,
    q,
    subst (λ bases. HeldSmall h'.pagerefs bases j q b) (sym same_bases)
        (subst (λ refs. HeldSmall refs h.sizebases j q b) (sym same_refs) g),
  )
  held_after b (inr (c, g)) =
      let first : uses c ≡ taken c =
        ap uses (omega arith) ∙ g.chunk_ok.pages 0 g.chunk_ok.nonempty in
      let e = headers c first in
      inr (
        c,
        record {
          header = g.header;
          chunk_ok =
              retag-Chunk old uses uses_after keeps h'.npages taken c (nt c)
                (Chunk-headers h.npages h'.npages uses taken c e g.chunk_ok);
          fits = omega (arith, g.fits, e);
        },
      )

  new_held : HeldBig h'.npages uses_after k (record { addr = k * 4096 + 8; bytes = sz })
  unfolding uses_after
  new_held = record {
    header = refl;
    chunk_ok = record {
      nonempty = omega (arith, header);
      pages = λ j lt. set_pages-inside uses k n (taken k) j (omega (arith, header));
    };
    fits = omega (arith, header, rounds);
  }

  pub taken-IsSound :
      SegmentOk h'.dseg_lo h'.dseg_hi h'.dseg_size (set_pages uses k n (taken k))
      → BigOk h'.npages h'.bigchunks (set_pages uses k n (taken k))
      → IsSound h' (set_pages uses k n (taken k)) (record { addr = k * 4096 + 8; bytes = sz } ∷ bs)
  unfolding uses_after
  taken-IsSound segment big = record {
    segment = segment;
    subpages =
        subst (λ refs. SubpageOk refs (spares h') h'.sizebases uses_after) (sym same_refs)
          (subst (λ l. SubpageOk h.pagerefs l h'.sizebases uses_after) (sym same_spares)
            (subst (λ bases. SubpageOk h.pagerefs (spares h) bases uses_after) (sym same_bases)
              (retag-SubpageOk old uses uses_after keeps _ _ _ (λ r m. ne r) (λ i r m. ns r) n_table
                s.subpages)));
    big = big;
    held = (
      inr (k, new_held),
      AllHeld-map (HeldOk h uses) (HeldOk h' uses_after) bs held_after s.held,
    );
    addrs = (
      away-NewAddr h uses bs k old s.subpages (ap uses (omega arith) ∙ were 0 pos) ns nt s.held,
      s.addrs,
    );
  }
