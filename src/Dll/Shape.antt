-- ===== src/Dll/Shape.antt =====
-- What a linked list stands for: the addresses of its nodes, in order.
use csc469_advanced_operatin.Base.{
  ◌≡◌, refl, ◌≢◌, Bool, true, false, ◌||◌, List, [], ◌∷◌, ◌++◌, arith, ◌==◌, ◌∙◌, has, Distinct,
}
use csc469_advanced_operatin.Dll.{Ptr, null, update, Dll}

abbrev pub hd : List Ptr → Ptr
hd [] = null
hd (x ∷ _) = x

-- The last address, or `back` where there is none.
abbrev pub lst : Ptr → List Ptr → Ptr
lst back [] = back
lst back (x ∷ xs) = lst x xs

-- From `back` on, the links lead through `xs` in both directions, up to `NULL`.
abbrev pub Linked : (Ptr → Ptr) → (Ptr → Ptr) → Ptr → List Ptr → Type 0
Linked next prev back [] = Unit {0}
Linked next prev back (x ∷ xs) =
    (x ≢ null) × (prev x ≡ back) × (next x ≡ hd xs) × Linked next prev x xs

pub record IsDll (l : Dll) (xs : List Ptr) : Type 0 where
  pub first : l.head ≡ hd xs
  pub last : l.tail ≡ lst null xs
  pub linked : Linked l.next l.prev null xs
  pub distinct : Distinct xs

-- All of the nodes are allocated.
abbrev pub All : (Ptr → Bool) → List Ptr → Type 0
All live [] = Unit {0}
All live (x ∷ xs) = (live x ≡ true) × All live xs

-- The links of `l` and `k` differ at most at the nodes of `xs`.
abbrev pub SameOutside : List Ptr → Dll → Dll → Type 0
SameOutside xs l k = (a : Ptr) → has a xs ≡ false → (k.next a ≡ l.next a) × (k.prev a ≡ l.prev a)

pub update_self : {A : Type 0} (f : Ptr → A) (p : Ptr) (v : A) → update f p v p ≡ v
unfolding update
update_self f p v = ground arith

pub update_ne :
    {A : Type 0} (f : Ptr → A) (p : Ptr) (v : A) (q : Ptr) → q ≢ p → update f p v q ≡ f q
unfolding update
update_ne f p v q n = ground arith

module _ (next prev : Ptr → Ptr) where
  pub Linked-update_next :
      (q v back : Ptr) (xs : List Ptr)
      → has q xs ≡ false
      → Linked next prev back xs
      → Linked (update next q v) prev back xs
  unfolding update
  Linked-update_next q v back [] out l = tt
  Linked-update_next q v back (x ∷ xs) out l = ground (arith, Linked-update_next q v x xs)

  pub Linked-update_prev :
      (q v back : Ptr) (xs : List Ptr)
      → has q xs ≡ false
      → Linked next prev back xs
      → Linked next (update prev q v) back xs
  unfolding update
  Linked-update_prev q v back [] out l = tt
  Linked-update_prev q v back (x ∷ xs) out l = ground (arith, Linked-update_prev q v x xs)

-- A list survives any change of links that spares its nodes.
pub Linked-same :
    (next prev next' prev' : Ptr → Ptr) (back : Ptr) (xs : List Ptr)
    → ((a : Ptr) → has a xs ≡ true → (next' a ≡ next a) × (prev' a ≡ prev a))
    → Linked next prev back xs
    → Linked next' prev' back xs
Linked-same next prev next' prev' back [] same l = tt
Linked-same next prev next' prev' back (x ∷ xs) same l =
    ground
      (arith, same x, Linked-same next prev next' prev' x xs (λ a h. same a (ground arith)) l.3)

pub All-has :
    (live : Ptr → Bool) (xs : List Ptr) (a : Ptr) → All live xs → has a xs ≡ true → live a ≡ true
All-has live [] a h m = ground arith
All-has live (x ∷ xs) a h m = ground (arith, All-has live xs a)

pub All-append :
    (live : Ptr → Bool) (xs ys : List Ptr) → All live (xs ++ ys) → All live xs × All live ys
All-append live [] ys h = (tt, h)
All-append live (x ∷ xs) ys h = ground (arith, All-append live xs ys)

-- A node is not `NULL`.
pub not-has-null :
    (next prev : Ptr → Ptr) (back : Ptr) (xs : List Ptr)
    → Linked next prev back xs
    → has null xs ≡ false
not-has-null next prev back [] l = refl
not-has-null next prev back (x ∷ xs) l = ground (arith, not-has-null next prev x xs)

pub has-lst : (back : Ptr) (xs : List Ptr) → (lst back xs == back) || has (lst back xs) xs ≡ true
has-lst back [] = ground arith
has-lst back (x ∷ xs) = ground (arith, has-lst x xs)

pub lst-append : (back : Ptr) (xs ys : List Ptr) → lst back (xs ++ ys) ≡ lst (lst back xs) ys
lst-append back [] ys = refl
lst-append back (x ∷ xs) ys = lst-append x xs ys

-- A list keeps its shape when links change outside of it.
pub IsDll-same :
    (l k : Dll) (xs : List Ptr)
    → k.head ≡ l.head
    → k.tail ≡ l.tail
    → ((a : Ptr) → has a xs ≡ true → (k.next a ≡ l.next a) × (k.prev a ≡ l.prev a))
    → IsDll l xs
    → IsDll k xs
IsDll-same l k xs h t same s = record {
  first = h ∙ s.first;
  last = t ∙ s.last;
  linked = Linked-same l.next l.prev k.next k.prev null xs same s.linked;
  distinct = s.distinct;
}
