-- ===== src/Server/Walk.antt =====
-- Going through a list by its links: what every search and listing loop of the server rests on.
use csc469_advanced_operatin.Base.{
  ◌≡◌, refl, sym, subst, Bool, true, false, List, [], ◌∷◌, arith, ◌==◌, has, if◌then◌else◌, ◌⊎◌,
  inl, inr, Bool-cases, ≢→==, ==→≢,
}
use csc469_advanced_operatin.Dll.{Ptr, null}
use csc469_advanced_operatin.Dll.Shape.{hd, Linked, All}
use csc469_advanced_operatin.Server.Sound.{Chain}
use csc469_advanced_operatin.Server.Chain.{Chain-hd}

-- The links lead through the nodes `xs`, all of them allocated, to `NULL`.
abbrev pub Walk : (next : Ptr → Ptr) (live : Ptr → Bool) → List Ptr → Type 0
Walk next live [] = Unit {0}
Walk next live (x ∷ xs) =
    ((x == null) ≡ false) × (live x ≡ true) × (next x ≡ hd xs) × Walk next live xs

pub Walk-of_Linked :
    (next prev : Ptr → Ptr) (live : Ptr → Bool) (back : Ptr) (xs : List Ptr)
    → Linked next prev back xs
    → All live xs
    → Walk next live xs
Walk-of_Linked next prev live back [] l h = tt
Walk-of_Linked next prev live back (x ∷ xs) l h =
    (≢→== x null l.0, h.0, l.2, Walk-of_Linked next prev live x xs l.3 h.1)

pub Walk-of_Chain :
    (next : Ptr → Ptr) (live : Ptr → Bool) (p : Ptr) (xs : List Ptr)
    → Chain next p xs
    → All live xs
    → Walk next live xs
Walk-of_Chain next live p [] c h = tt
Walk-of_Chain next live p (x ∷ xs) c h = (
  ≢→== x null c.1,
  h.0,
  Chain-hd next (next x) xs c.2,
  Walk-of_Chain next live (next x) xs c.2 h.1,
)

-- The first node that passes a test, or `NULL`.
unfoldable pub first : (Ptr → Bool) → List Ptr → Ptr
first p [] = null
first p (x ∷ xs) = if p x then x else first p xs

first_hit : (p : Ptr → Bool) (x : Ptr) (xs : List Ptr) → p x ≡ true → first p (x ∷ xs) ≡ x
unfolding first
first_hit p x xs e = rw e

first_miss :
    (p : Ptr → Bool) (x : Ptr) (xs : List Ptr) → p x ≡ false → first p (x ∷ xs) ≡ first p xs
unfolding first
first_miss p x xs e = rw e

-- What `first` returns: `NULL` where no node passes, or a node of the list that passes.
abbrev pub First : (Ptr → Bool) → List Ptr → Ptr → Type 0
First p xs a =
    ((a ≡ null) × ((b : Ptr) → has b xs ≡ true → p b ≡ false)) ⊎ ((has a xs ≡ true) × (p a ≡ true))

First-cons :
    (p : Ptr → Bool) (x a : Ptr) (xs : List Ptr) → p x ≡ false → First p xs a → First p (x ∷ xs) a
First-cons p x a xs e (inl (n, h)) = inl (n, λ b m. ground (arith, h b))
First-cons p x a xs e (inr (m, h)) = inr (ground arith, h)

pub first-First : (p : Ptr → Bool) (xs : List Ptr) → First p xs (first p xs)
unfolding first
first-First p [] = inl (refl, λ a m. ground arith)
first-First p (x ∷ xs) = elim (Bool-cases (p x)) [
  | inl e ↦ subst (First p (x ∷ xs)) (sym (first_hit p x xs e)) (inr (ground arith, e))
  | inr e ↦
      subst (First p (x ∷ xs)) (sym (first_miss p x xs e))
        (First-cons p x (first p xs) xs e (first-First p xs))
]

pub first-has :
    (p : Ptr → Bool) (xs : List Ptr) → (first p xs == null) ≡ false → has (first p xs) xs ≡ true
first-has p xs n = elim (first-First p xs) [
  | inl (e, h) ↦ absurd (==→≢ (first p xs) null n e)
  | inr (m, h) ↦ m
]
