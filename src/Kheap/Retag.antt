-- ===== src/Kheap/Retag.antt =====
-- A change of the page table leaves what it does not concern.
use csc469_advanced_operatin.Base.{
  ℕ, ◌+◌, ◌-◌, ◌/◌, ◌<◌, ◌≡◌, ◌≢◌, refl, sym, ap, ◌∙◌, true, false, ◌&&◌, List, arith, ◌==◌, ltb,
  leb, if◌then◌else◌, inl, inr, has, ==→≡, Bool-cases,
}
use csc469_advanced_operatin.Kheap.State.{PageRef, update}
use csc469_advanced_operatin.Kheap.Pages.{update_other}
use csc469_advanced_operatin.Kheap.Sound.{
  Purpose, untouched, table, small, empty, chunk, taken, PageTable, Page, Spare, SubpageOk, Chunk,
  BigOk, SegmentOk, Held, HeldBig,
}

-- Only pages of the purpose `old` have another one now.
abbrev pub Retags : Purpose → PageTable → PageTable → Type 0
Retags old uses uses' = (m : ℕ) (v : Purpose) → uses m ≡ v → v ≢ old → uses' m ≡ v

pub Retags-update :
    (uses : PageTable) (k : ℕ) (old new : Purpose)
    → uses k ≡ old
    → Retags old uses (update uses k new)
Retags-update uses k old new e m v f ne = elim (Bool-cases (m == k)) [
  | inl same ↦ absurd (ne (sym f ∙ ap uses (==→≡ m k same) ∙ e))
  | inr other ↦ update_other uses k new m other ∙ f
]

-- The purpose of the pages from `lo` on, `n` of them.
unfoldable pub set_pages : PageTable → ℕ → ℕ → Purpose → PageTable
set_pages uses lo n new m = if leb lo m && ltb m (lo + n) then new else uses m

pub set_pages-inside :
    (uses : PageTable) (lo n : ℕ) (new : Purpose) (k : ℕ)
    → k < n
    → set_pages uses lo n new (lo + k) ≡ new
unfolding set_pages
set_pages-inside uses lo n new k lt = ground arith

pub set_pages-outside :
    (uses : PageTable) (lo n : ℕ) (new : Purpose) (m : ℕ)
    → (leb lo m && ltb m (lo + n)) ≡ false
    → set_pages uses lo n new m ≡ uses m
unfolding set_pages
set_pages-outside uses lo n new m e = rw e refl

position : (lo n m : ℕ) → (leb lo m && ltb m (lo + n)) ≡ true → (k : ℕ) × (k < n) × (lo + k ≡ m)
position lo n m e = (m - lo, ground arith, ground arith)

pub Retags-set_pages :
    (uses : PageTable) (lo n : ℕ) (old new : Purpose)
    → ((k : ℕ) → k < n → uses (lo + k) ≡ old)
    → Retags old uses (set_pages uses lo n new)
Retags-set_pages uses lo n old new all m v f ne = elim (Bool-cases (leb lo m && ltb m (lo + n))) [
  | inl e ↦ let (k, lt, at) = position lo n m e in absurd (ne (sym f ∙ ap uses (sym at) ∙ all k lt))
  | inr e ↦ set_pages-outside uses lo n new m e ∙ f
]

module _ (old : Purpose) (uses uses' : PageTable) (keeps : Retags old uses uses') where
  pub retag-Page :
      (p : PageRef) (i r : ℕ) → small r ≢ old → table ≢ old → Page p uses i r → Page p uses' i r
  retag-Page p i r ns nt g = record {
    non_null = g.non_null;
    index = g.index;
    kind = g.kind;
    place = g.place;
    purpose = keeps _ (small r) g.purpose ns;
    stored = keeps _ table g.stored nt;
    count = g.count;
    different = g.different;
    blocks = g.blocks;
  }

  pub retag-Spare : (w r : ℕ) → empty r ≢ old → table ≢ old → Spare w uses r → Spare w uses' r
  retag-Spare w r ne nt g = record {
    non_null = g.non_null;
    stored = keeps _ table g.stored nt;
    page = elim g.page [ inl z ↦ inl z | inr e ↦ inr (keeps _ (empty r) e ne) ];
  }

  pub retag-SubpageOk :
      (refs : ℕ → PageRef) (spare : List ℕ) (bases : ℕ → List ℕ)
      → ((r : ℕ) → has r spare ≡ true → empty r ≢ old)
      → ((i r : ℕ) → has r (bases i) ≡ true → small r ≢ old)
      → table ≢ old
      → SubpageOk refs spare bases uses
      → SubpageOk refs spare bases uses'
  retag-SubpageOk refs spare bases ne ns nt s = record {
    spare_distinct = s.spare_distinct;
    spare_ok = λ r m. retag-Spare _ r (ne r m) nt (s.spare_ok r m);
    base_distinct = s.base_distinct;
    base_ok = λ i r m. retag-Page _ i r (ns i r m) nt (s.base_ok i r m);
  }

  pub retag-Chunk :
      (headers : ℕ → ℕ) (tag : ℕ → Purpose) (c : ℕ)
      → tag c ≢ old
      → Chunk headers uses tag c
      → Chunk headers uses' tag c
  retag-Chunk headers tag c n g = record {
    nonempty = g.nonempty;
    pages = λ k lt. keeps _ (tag c) (g.pages k lt) n;
  }

  pub retag-BigOk :
      (headers : ℕ → ℕ) (chunks : List ℕ)
      → ((a : ℕ) → has a chunks ≡ true → chunk (a / 4096) ≢ old)
      → BigOk headers chunks uses
      → BigOk headers chunks uses'
  retag-BigOk headers chunks n g = record {
    distinct = g.distinct;
    chunks_ok = λ a m.
        ((g.chunks_ok a m).0, retag-Chunk headers chunk (a / 4096) (n a m) (g.chunks_ok a m).1);
  }

  pub retag-HeldBig :
      (headers : ℕ → ℕ) (c : ℕ) (b : Held)
      → taken c ≢ old
      → HeldBig headers uses c b
      → HeldBig headers uses' c b
  retag-HeldBig headers c b n g = record {
    header = g.header;
    chunk_ok = retag-Chunk headers taken c n g.chunk_ok;
    fits = g.fits;
  }

  pub retag-SegmentOk :
      (lo hi size : ℕ) → untouched ≢ old → SegmentOk lo hi size uses → SegmentOk lo hi size uses'
  retag-SegmentOk lo hi size n g = record {
    positive = g.positive;
    start = g.start;
    top = g.top;
    ordered = g.ordered;
    inside = g.inside;
    below = g.below;
    rest = λ k b. keeps k untouched (g.rest k b) n;
    before = λ k b. keeps k untouched (g.before k b) n;
  }
