-- ===== src/Kheap/Sizes.antt =====
-- `blocktype` of A2/allocators/kheap/kheap.c: the choice of a block size.
use csc469_advanced_operatin.Base.{
  ℕ, zero, suc, ◌+◌, ◌≤◌, ◌<◌, ◌≡◌, refl, ap, ◌∙◌, false, List, [], ◌∷◌, Option, none, some, arith,
  leb, get_or, length, ◌⊎◌, inl, inr, Bool-cases,
}
use csc469_advanced_operatin.Kheap.Subpage.{nsizes, sizes, size_of, blocktype, blocktype_from}

-- Either no size is large enough, or the j-th is the first that is.
abbrev Found : ℕ → List ℕ → ℕ → Option ℕ → Type 0
Found i ss sz o =
    ((o ≡ none) × ((m : ℕ) → m < length ss → get_or ss m 0 < sz))
    ⊎ ((j : ℕ) × (o ≡ some (i + j))
        × (j < length ss)
        × (sz ≤ get_or ss j 0)
        × ((m : ℕ) → m < j → get_or ss m 0 < sz))

blocktype_from-Found : (i : ℕ) (ss : List ℕ) (sz : ℕ) → Found i ss sz (blocktype_from i ss sz)
unfolding blocktype_from
blocktype_from-Found i [] sz = inl (refl, λ m lt. absurd (omega arith))
blocktype_from-Found i (s ∷ ss) sz = elim (Bool-cases (leb sz s)) [
  | inl e ↦ inr (
    0,
    rw e (ap some (omega arith)),
    omega arith,
    ground (arith, e),
    λ m lt. absurd (omega arith),
  )
  | inr e ↦ elim (blocktype_from-Found (i + 1) ss sz) [
    | inl (n, all) ↦ inl (rw e n, larger e all)
    | inr (j, f, lt, le, all) ↦
        inr (suc j, rw e (f ∙ ap some (omega arith)), omega arith, le, larger_below e j all)
  ]
]
  where
    larger :
        leb sz s ≡ false
        → ((m : ℕ) → m < length ss → get_or ss m 0 < sz)
        → (m : ℕ) → m < length (s ∷ ss)
        → get_or (s ∷ ss) m 0 < sz
    larger e all zero lt = ground (arith, e)
    larger e all (suc m) lt = all m (omega arith)

    larger_below :
        leb sz s ≡ false
        → (j : ℕ) → ((m : ℕ) → m < j → get_or ss m 0 < sz)
        → (m : ℕ) → m < suc j
        → get_or (s ∷ ss) m 0 < sz
    larger_below e j all zero lt = ground (arith, e)
    larger_below e j all (suc m) lt = all m (omega arith)

-- The index for a request is that of the smallest block size that fits, and there is one exactly
-- for the requests of up to 2048 bytes.
pub blocktype-smallest :
    (sz : ℕ)
    → ((2048 < sz) × (blocktype sz ≡ none))
      ⊎ ((i : ℕ) × (blocktype sz ≡ some i)
          × (i < nsizes)
          × (sz ≤ size_of i)
          × ((m : ℕ) → m < i → size_of m < sz))
unfolding blocktype size_of
blocktype-smallest sz = elim (blocktype_from-Found 0 sizes sz) [
  | inl (n, all) ↦ inl (all 8 (omega arith), n)
  | inr (j, f, lt, le, all) ↦ inr (j, f ∙ ap some (omega arith), lt, le, all)
]
