-- ===== src/Kheap/Safety.antt =====
-- What holds of every heap that calls of A2/allocators/kheap/kheap.c reach.
use csc469_advanced_operatin.Base.{
  ℕ, ◌+◌, ◌-◌, ◌*◌, ◌/◌, ◌%◌, ◌^◌, ◌≤◌, ◌<◌, ◌≡◌, ◌≢◌, refl, sym, ap, subst, ◌∙◌, Bool, true, false,
  List, [], ◌∷◌, arith, ◌==◌, ◌⊎◌, inl, inr, Bool-cases,
}
use csc469_advanced_operatin.Kheap.State.{page_size, ok, Heap, dseg_max, mem_init}
use csc469_advanced_operatin.Kheap.Malloc.{mm_init, mm_malloc, mm_free}
use csc469_advanced_operatin.Kheap.Blocks.{size_of-Fills}
use csc469_advanced_operatin.Kheap.Pages.{Block-in_page}
use csc469_advanced_operatin.Kheap.Sound.{
  untouched, PageTable, spares, SubpageOk, SegmentOk, Held, HeldOk, IsSound,
}
use csc469_advanced_operatin.Kheap.Calls.{
  Call, allocates, fails, frees, frees_null, blank, Reach, start, call, mm_malloc-Given,
  mm_malloc-ok-le, Drops-IsSound, mm_free-IsSound,
}

-- What the caller of `mm_init` must see to: the memory for the segment lies below 4 GB.
abbrev pub Low : ℕ → Type 0
Low base = base + dseg_max + 2 * page_size ≤ 2 ^ 32

abbrev pub SoundNow : Heap → List Held → Type 0
SoundNow h bs = (uses : PageTable) × IsSound h uses bs

ok_parts : {A : Type 0} (x y : A) → ok x ≡ ok y → x ≡ y
ok_parts x y e = cc e

pair_parts : (a b : ℕ) (h k : Heap) → ◌≡◌ {A = ℕ × Heap} (a, h) (b, k) → (a ≡ b) × (h ≡ k)
pair_parts a b h k e = (ap (λ (p : ℕ × Heap). p.0) e, ap (λ (p : ℕ × Heap). p.1) e)

pub HeldOk-non_null :
    (h : Heap) (uses : PageTable) (b : Held)
    → SubpageOk h.pagerefs (spares h) h.sizebases uses
    → HeldOk h uses b
    → b.addr ≢ 0
HeldOk-non_null h uses b s (inl (i, r, g)) e = (s.base_ok i r g.listed).place (
    omega (
      arith,
      (Block-in_page _ _ b.addr (size_of-Fills i (s.base_ok i r g.listed).index) g.block).0,
      e,
    ))
HeldOk-non_null h uses b s (inr (c, g)) e = omega (arith, g.header, e)

fresh_segment :
    (lo : ℕ)
    → 0 < lo
    → lo % 4096 ≡ 0
    → lo + dseg_max < 2 ^ 32 - 4096
    → SegmentOk lo (lo - 1) dseg_max (λ _. untouched)
fresh_segment lo pos whole low = record {
  positive = pos;
  start = whole;
  top = omega arith;
  ordered = omega arith;
  inside = omega arith;
  below = low;
  rest = λ k b. refl;
  before = λ k b. refl;
}

-- The heap of `mm_init` is sound.
init-IsSound :
    (base : ℕ) (h : Heap) → Low base → mm_init page_size base blank ≡ (true, h) → SoundNow h []
unfolding mm_init mem_init
init-IsSound base h low e = elim (Bool-cases (base == 0)) [
  | inl null ↦ cc (ap (λ (p : Bool × Heap). p.0) (sym (failed null) ∙ e))
  | inr some_memory ↦
      subst (λ k. SoundNow k []) (ap (λ (p : Bool × Heap). p.1) (sym (succeeded some_memory) ∙ e))
        (
          λ _. untouched,
          record {
            segment =
                fresh_segment _ (ground (arith, some_memory)) (omega arith) (omega (arith, low));
            subpages = record {
              spare_distinct = tt;
              spare_ok = λ r m. cc;
              base_distinct = λ i. tt;
              base_ok = λ i r m. cc;
            };
            big = record { distinct = tt; chunks_ok = λ a m. cc };
            held = tt;
            addrs = tt;
          },
        )
]
  where
    lo : ℕ
    lo = (base + page_size - 1) / page_size * page_size

    failed :
        (base == 0) ≡ true → mm_init page_size base blank ≡ (false, record blank { dseg_lo = 0 })
    failed null = rw null refl

    succeeded :
        (base == 0) ≡ false
        → mm_init page_size base blank
          ≡ (true, record blank { dseg_lo = lo; dseg_hi = lo - 1; dseg_size = dseg_max })
    succeeded memory = rw memory refl

malloc-SoundNow :
    (h h' : Heap) (bs : List Held) (sz a : ℕ)
    → SoundNow h bs
    → mm_malloc sz h ≡ ok (a, h')
    → ((a ≡ 0) × SoundNow h' bs) ⊎ SoundNow h' (record { addr = a; bytes = sz } ∷ bs)
malloc-SoundNow h h' bs sz a (uses, s) e =
    let (k, uses', result) = mm_malloc-Given sz h uses bs (mm_malloc-ok-le sz h (a, h') e) s in
    elim result [
      | inl (f, sound, _) ↦
          let (ea, eh) = pair_parts 0 a k h' (ok_parts _ _ (sym f ∙ e)) in
          inl (sym ea, subst (λ k. SoundNow k bs) eh (uses', sound))
      | inr (d, f, sound) ↦
          let (ea, eh) = pair_parts d a k h' (ok_parts _ _ (sym f ∙ e)) in
          inr (
            subst (λ z. SoundNow h' (record { addr = z; bytes = sz } ∷ bs)) ea
              (subst (λ k. SoundNow k (record { addr = d; bytes = sz } ∷ bs)) eh (uses', sound)))
    ]

-- Each call that returns keeps the heap sound.
Call-SoundNow : {h h' : Heap} {bs ds : List Held} → Call h bs h' ds → SoundNow h bs → SoundNow h' ds
unfolding mm_free
Call-SoundNow {h} {h'} {bs} (allocates sz a e ne) s = elim (malloc-SoundNow h h' bs sz a s e) [
  | inl (z, _) ↦ absurd (ne z)
  | inr sound ↦ sound
]
Call-SoundNow {h} {h'} {bs} (fails sz e) s = elim (malloc-SoundNow h h' bs sz 0 s e) [
  | inl (_, sound) ↦ sound
  | inr (uses, sound) ↦ absurd (HeldOk-non_null h' uses _ sound.subpages sound.held.0 refl)
]
Call-SoundNow {h} {h'} {bs} {ds} (frees b d e) (uses, s) =
    let s' = Drops-IsSound d s in
    let (k, uses', f, sound) =
      mm_free-IsSound h uses b ds (HeldOk-non_null h uses b s'.subpages s'.held.0) s' in
    subst (λ k. SoundNow k ds) (ok_parts k h' (sym f ∙ e)) (uses', sound)
Call-SoundNow {h} {h'} {bs} (frees_null e) s = subst (λ k. SoundNow k bs) (ok_parts h h' e) s

pub Reach-SoundNow :
    {base : ℕ} {h : Heap} {bs : List Held} → Low base → Reach base h bs → SoundNow h bs
Reach-SoundNow {base} {h} low (start e) = init-IsSound base h low e
Reach-SoundNow low (call r c) = Call-SoundNow c (Reach-SoundNow low r)
