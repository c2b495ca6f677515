-- ===== src/Kheap/Blocks.antt =====
-- The blocks of one page of A2/allocators/kheap/kheap.c: the free list of a new page, and that a
-- free list has at most as many blocks as the page.
use csc469_advanced_operatin.Base.{
  ℕ, zero, suc, ◌+◌, ◌*◌, ◌/◌, ◌%◌, ◌≤◌, ◌<◌, ◌≡◌, ◌≢◌, refl, sym, ap, Bool, true, false, ◌&&◌, not,
  List, [], ◌∷◌, inl, inr, arith, ◌==◌, leb, has, Distinct, length, Bool-cases, ==→≡,
}
use csc469_advanced_operatin.Kheap.State.{page_size}
use csc469_advanced_operatin.Kheap.Subpage.{size_of, free_blocks, remove_first}

-- An address that a page of blocks of size `s` can give out.
abbrev pub Block : ℕ → ℕ → ℕ → ℕ → Type 0
Block page s n a = (k : ℕ) × (k < n) × (a ≡ page + k * s)

all_below : ℕ → (ℕ → Bool) → Bool
all_below zero p = true
all_below (suc n) p = p n && all_below n p

all_below_lem : (n : ℕ) (p : ℕ → Bool) (x : ℕ) → all_below n p ≡ true → x < n → p x ≡ true
unfolding all_below
all_below_lem zero p x h lt = absurd (omega arith)
all_below_lem (suc n) p x h lt = ground (arith, all_below_lem n p x)

abbrev fills : ℕ → Bool
fills i =
    leb 8 (size_of i)
    && leb (size_of i) 2048
    && (page_size / size_of i * size_of i == page_size)
    && (size_of i % 8 == 0)

fills_table : all_below 9 fills ≡ true
unfolding all_below size_of
fills_table = refl

-- Every size divides the page.
pub record Fills (s : ℕ) : Type 0 where
  pub small : 8 ≤ s
  pub large : s ≤ 2048
  pub whole : page_size / s * s ≡ page_size
  pub aligned : s % 8 ≡ 0

Fills-of_test :
    (s : ℕ)
    → (leb 8 s && leb s 2048 && (page_size / s * s == page_size) && (s % 8 == 0)) ≡ true
    → Fills s
Fills-of_test s h = record {
  small = ground arith;
  large = ground arith;
  whole = ground arith;
  aligned = ground arith;
}

pub size_of-Fills : (i : ℕ) → i < 9 → Fills (size_of i)
size_of-Fills i lt = Fills-of_test (size_of i) (all_below_lem 9 fills i fills_table lt)

module _ (y : ℕ) where
  pub has-remove_first :
      (a : ℕ) (xs : List ℕ) → Distinct xs → has a (remove_first y xs) ≡ (has a xs && not (a == y))
  unfolding remove_first
  has-remove_first a [] d = refl
  has-remove_first a (x ∷ xs) d = elim (Bool-cases (x == y)) [
    | inl e ↦ rw e (ground (arith, d.0, ==→≡ x y e, ap (λ z. has z xs) (==→≡ x y e)))
    | inr e ↦ rw e (ground (arith, has-remove_first a xs d.1))
  ]

  pub Distinct-remove_first : (xs : List ℕ) → Distinct xs → Distinct (remove_first y xs)
  unfolding remove_first
  Distinct-remove_first [] d = d
  Distinct-remove_first (x ∷ xs) d = elim (Bool-cases (x == y)) [
    | inl e ↦ rw e d.1
    | inr e ↦ rw e (rw (has-remove_first x xs d.1, d.0) refl, Distinct-remove_first xs d.1)
  ]

  pub length-remove_first :
      (xs : List ℕ) → has y xs ≡ true → suc (length (remove_first y xs)) ≡ length xs
  unfolding remove_first
  length-remove_first [] h = cc
  length-remove_first (x ∷ xs) h = elim (Bool-cases (x == y)) [
    | inl e ↦ rw e refl
    | inr e ↦ rw e (ap suc (length-remove_first xs (ground arith)))
  ]

-- A list of different blocks is no longer than the page has blocks.
pub length-blocks :
    (page s n : ℕ) (xs : List ℕ)
    → Distinct xs
    → ((a : ℕ) → has a xs ≡ true → Block page s n a)
    → length xs ≤ n
length-blocks page s n [] d b = omega arith
length-blocks page s zero (x ∷ xs) d b = absurd (omega (arith, (b x (ground arith)).1))
length-blocks page s (suc n) (x ∷ xs) d b = elim (Bool-cases (has y (x ∷ xs))) [
  | inl e ↦ omega (
    arith,
    length-remove_first y (x ∷ xs) e,
    length-blocks page s n (remove_first y (x ∷ xs)) (Distinct-remove_first y (x ∷ xs) d) (λ a h.
        fewer a (ground (arith, has-remove_first y a (x ∷ xs) d))
          (ground (arith, has-remove_first y a (x ∷ xs) d))),
  )
  | inr e ↦
      omega (arith, length-blocks page s n (x ∷ xs) d (λ a h. fewer a h (ground (arith, e, h))))
]
  where
    y : ℕ
    y = page + n * s

    fewer : (a : ℕ) → has a (x ∷ xs) ≡ true → (a == y) ≡ false → Block page s n a
    fewer a h ne = let (k, lt, e) = b a h in (k, ground arith, e)

-- The free list of a new page: all its blocks, each once.
module _ (page s : ℕ) (pos : 0 < s) where
  pub length-free_blocks : (n : ℕ) → length (free_blocks page s n) ≡ n
  unfolding free_blocks
  length-free_blocks zero = refl
  length-free_blocks (suc n) = ap suc (length-free_blocks n)

  pub free_blocks-Block : (n a : ℕ) → has a (free_blocks page s n) ≡ true → Block page s n a
  unfolding free_blocks
  free_blocks-Block zero a h = absurd (cc)
  free_blocks-Block (suc n) a h = elim (Bool-cases (a == page + n * s)) [
    | inl e ↦ (n, omega arith, ==→≡ _ _ e)
    | inr e ↦ let (k, lt, eq) = free_blocks-Block n a (ground (arith, e, h)) in (k, omega arith, eq)
  ]

  higher_block : (n k : ℕ) → k < n → page + k * s ≢ page + n * s
  higher_block n k lt e = absurd (grind (arith, pos, e, lt))

  pub Distinct-free_blocks : (n : ℕ) → Distinct (free_blocks page s n)
  unfolding free_blocks
  Distinct-free_blocks zero = tt
  Distinct-free_blocks (suc n) = (
    elim (Bool-cases (has (page + n * s) (free_blocks page s n))) [
      | inl e ↦
          let (k, lt, eq) = free_blocks-Block n (page + n * s) e in
          absurd (higher_block n k lt (sym eq))
      | inr e ↦ e
    ],
    Distinct-free_blocks n,
  )
