-- ===== src/Dll/Append.antt =====
-- Putting a node behind the last one: the code of `process_register_request` (the member list) and
-- of `process_switch_room_request` (the new room's list).
use csc469_advanced_operatin.Base.{
  ◌≡◌, refl, ◌≢◌, Bool, true, false, some, List, [], ◌∷◌, ◌++◌, arith, ◌==◌, has, Distinct,
  has-append, sym, ◌∙◌,
}
use csc469_advanced_operatin.Dll.{Ptr, null, update, Dll, append}
use csc469_advanced_operatin.Dll.Shape.{
  lst, Linked, IsDll, All, SameOutside, lst-append, not-has-null, update_self, update_ne,
}
use csc469_advanced_operatin.Dll.Unlink.{ne-lst}

==-ne : (p q : Ptr) → (p == q) ≡ false → p ≢ q
==-ne p q e = ground arith

ne-==_false : (p q : Ptr) → p ≢ q → (p == q) ≡ false
ne-==_false p q e = ground arith

not-has_head : (p x : Ptr) (xs : List Ptr) → has p (x ∷ xs) ≡ false → (p == x) ≡ false
not-has_head p x xs h = ground arith

not-has_tail : (p x : Ptr) (xs : List Ptr) → has p (x ∷ xs) ≡ false → has p xs ≡ false
not-has_tail p x xs h = ground arith

module _ (next prev : Ptr → Ptr) (p : Ptr) (n : p ≢ null) (e : next p ≡ null) where
  Linked-append :
      (back : Ptr) (xs : List Ptr)
      → Linked next prev back xs
      → has p (back ∷ xs) ≡ false
      → Distinct (back ∷ xs)
      → Linked (update next (lst back xs) p) (update prev p (lst back xs)) back (xs ++ p ∷ [])
  Linked-append back [] l out d = (
    n,
    update_self prev p back,
    update_ne next back p p (==-ne p back (not-has_head p back [] out)) ∙ e,
    tt,
  )
  Linked-append back (x ∷ []) l out d = (
    l.0,
    update_ne prev p x x
          (λ q. ==-ne p x (not-has_head p x [] (not-has_tail p back (x ∷ []) out)) (sym q))
        ∙ l.1,
    update_self next x p,
    Linked-append x [] l.3 (not-has_tail p back (x ∷ []) out) d.1,
  )
  Linked-append back (x ∷ z ∷ xs) l out d = (
    l.0,
    update_ne prev p (lst z xs) x (λ q.
          ==-ne p x (not-has_head p x (z ∷ xs) (not-has_tail p back (x ∷ z ∷ xs) out)) (sym q))
        ∙ l.1,
    update_ne next (lst z xs) p x (ne-lst x z xs d.1.0) ∙ l.2,
    Linked-append x (z ∷ xs) l.3 (not-has_tail p back (x ∷ z ∷ xs) out) d.1,
  )

  Linked-append_first :
      (x : Ptr) (xs : List Ptr)
      → Linked next prev null (x ∷ xs)
      → has p (x ∷ xs) ≡ false
      → Distinct (x ∷ xs)
      → has null (x ∷ xs) ≡ false
      → Linked (update next (lst x xs) p) (update prev p (lst x xs)) null (x ∷ xs ++ p ∷ [])
  Linked-append_first x xs l out d o =
      Linked-append null (x ∷ xs) l (rw (ne-==_false p null n) out) (o, d)

Distinct-append :
    (p : Ptr) (xs : List Ptr) → has p xs ≡ false → Distinct xs → Distinct (xs ++ p ∷ [])
Distinct-append p [] out d = (refl, tt)
Distinct-append p (x ∷ xs) out d = ground (arith, Distinct-append p xs, has-append x xs (p ∷ []))

All-last :
    (live : Ptr → Bool) (x : Ptr) (xs : List Ptr) → All live (x ∷ xs) → live (lst x xs) ≡ true
All-last live x [] h = h.0
All-last live x (z ∷ xs) h = All-last live z xs h.1

has-last : (a x : Ptr) (xs : List Ptr) → has a (x ∷ xs) ≡ false → (a == lst x xs) ≡ false
has-last a x [] h = ground arith
has-last a x (z ∷ xs) h = has-last a z xs (ground arith)

pub record Appended (xs : List Ptr) (p : Ptr) (l k : Dll) : Type 0 where
  pub shape : IsDll k (xs ++ p ∷ [])
  pub same : SameOutside (xs ++ p ∷ []) l k

-- On a well-formed list whose nodes are allocated, `append` of an allocated node that is not in the
-- list and whose links are `NULL` dereferences no bad pointer; the list is then well formed, holds
-- the old nodes in their order with the new one behind them, and no other node's links change.
pub append-snoc :
    (live : Ptr → Bool) (l : Dll) (p : Ptr) (xs : List Ptr)
    → IsDll l xs
    → All live xs
    → live p ≡ true
    → p ≢ null
    → has p xs ≡ false
    → (l.next p ≡ null) × (l.prev p ≡ null)
    → (k : Dll) × (append live l p ≡ some k) × Appended xs p l k
unfolding append update
append-snoc live l p [] s h v n out (e, f) = (
  record l { head = p; tail = p },
  ground arith,
  record {
    shape = record { first = refl; last = refl; linked = (n, f, e, tt); distinct = (refl, tt) };
    same = λ a m. (refl, refl);
  },
)
append-snoc live l p (x ∷ xs) s h v n out (e, f) = (
  record l { next = update l.next (lst x xs) p; prev = update l.prev p (lst x xs); tail = p },
  ground (arith, All-last live x xs h),
  record {
    shape = record {
      first = s.first;
      last = sym (lst-append x xs (p ∷ []));
      linked =
          Linked-append_first l.next l.prev p n e x xs s.linked out s.distinct
            (not-has-null l.next l.prev null (x ∷ xs) s.linked);
      distinct = Distinct-append p (x ∷ xs) out s.distinct;
    };
    same = λ a m. (
      ground (arith, has-last a x xs, has-append a xs (p ∷ [])),
      ground (arith, has-append a xs (p ∷ [])),
    );
  },
)
