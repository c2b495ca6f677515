-- ===== src/Kheap/Pages.antt =====
-- Addresses and pages: the word that holds a page's address and block size, and the blocks of a
-- page of A2/allocators/kheap/kheap.c as addresses.
use csc469_advanced_operatin.Base.{
  ℕ, zero, suc, ◌+◌, ◌-◌, ◌*◌, ◌/◌, ◌%◌, ◌^◌, ◌≤◌, ◌<◌, ◌≡◌, refl, ap, ◌∙◌, true, false, List, [],
  ◌∷◌, arith, ◌==◌, length,
}
use csc469_advanced_operatin.Kheap.State.{page_size, pr_pageaddr, pr_blocktype, mkpab, update}
use csc469_advanced_operatin.Kheap.Subpage.{took_well}
use csc469_advanced_operatin.Kheap.Blocks.{Block, Fills}

pub update_same {ℓ} : {A : Type ℓ} (f : ℕ → A) (p : ℕ) (v : A) → update f p v p ≡ v
unfolding update
update_same f p v = rw (≢→≡ p) refl
  where
    ≢→≡ : (p : ℕ) → (p == p) ≡ true
    ≢→≡ p = ground arith

pub update_other {ℓ} :
    {A : Type ℓ} (f : ℕ → A) (p : ℕ) (v : A) (q : ℕ) → (q == p) ≡ false → update f p v q ≡ f q
unfolding update
update_other f p v q e = rw e refl

pub pr_pageaddr-whole : (w : ℕ) → pr_pageaddr w ≡ pr_pageaddr w / 4096 * 4096
unfolding pr_pageaddr
pr_pageaddr-whole w = omega arith

pub pr_pageaddr-lt : (w : ℕ) → pr_pageaddr w < 2 ^ 32
unfolding pr_pageaddr
pr_pageaddr-lt w = omega arith

pub pr_pageaddr-mkpab :
    (pa blk : ℕ) → pa % 4096 ≡ 0 → pa < 2 ^ 32 → blk < 4096 → pr_pageaddr (mkpab pa blk) ≡ pa
unfolding pr_pageaddr mkpab
pr_pageaddr-mkpab pa blk h k l = omega arith

pub pr_blocktype-mkpab : (pa blk : ℕ) → blk < 4096 → pr_blocktype (mkpab pa blk) ≡ blk
unfolding pr_blocktype mkpab
pr_blocktype-mkpab pa blk l = omega arith

pub next_multiple : (k n s : ℕ) → k < n → k * s + s ≤ n * s
next_multiple k n s lt = grind arith

-- A block lies in its page.
pub Block-in_page :
    (page s a : ℕ) → Fills s → Block page s (page_size / s) a → (page ≤ a) × (a + s ≤ page + 4096)
Block-in_page page s a f (k, lt, e) =
    (omega arith, omega (arith, next_multiple k (page_size / s) s lt, f.whole))

-- The assertions of `doalloc` hold.
pub took_well-true :
    (page fl nfree : ℕ) (rest : List ℕ)
    → page ≤ fl
    → fl < page + 4096
    → page < 2 ^ 32
    → nfree ≡ length rest
    → took_well page fl rest nfree ≡ true
unfolding took_well
took_well-true page fl nfree [] a b c d = ground arith
took_well-true page fl nfree (x ∷ xs) a b c d = ground (arith, wrapped)
  where
    wrapped : (fl + 2 ^ 64 - page) % 2 ^ 64 ≡ fl - page
    wrapped = omega arith

multiple_mod : (k s : ℕ) → 0 < s → k * s % s ≡ 0
multiple_mod k s pos = grind arith

pub Block-mod : (page s n a : ℕ) → 0 < s → Block page s n a → (a - page) % s ≡ 0
Block-mod page s n a pos (k, lt, e) =
    ap (λ (o : ℕ). o % s) (omega (arith, e)) ∙ multiple_mod k s pos

pub sizes_multiple : (k s : ℕ) → s % 8 ≡ 0 → k * s % 8 ≡ 0
sizes_multiple zero s e = omega arith
sizes_multiple (suc k) s e = omega (arith, sizes_multiple k s e)
