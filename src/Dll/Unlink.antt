-- ===== src/Dll/Unlink.antt =====
-- Taking a node out of a linked list: the code that A3/server_util.c repeats in `remove_member`
-- (for the members, and for the members of a room) and in `process_switch_room_request`.
use csc469_advanced_operatin.Base.{
  ◌≡◌, refl, ◌≢◌, Bool, true, false, some, List, [], ◌∷◌, ◌++◌, arith, ◌==◌, if◌then◌else◌, has,
  Distinct, has-append, ap, subst, sym, ◌∙◌, append-nil, inl, inr, Bool-cases,
}
use csc469_advanced_operatin.Dll.{Ptr, null, update, Dll, unlink}
use csc469_advanced_operatin.Dll.Shape.{
  hd, lst, Linked, IsDll, All, SameOutside, Linked-update_next, Linked-update_prev, not-has-null,
  lst-append,
}

-- The list without the node `p`, the others in their order.
unfoldable pub erase : Ptr → List Ptr → List Ptr
erase p [] = []
erase p (x ∷ xs) = if p == x then xs else x ∷ erase p xs

-- `q->prev = v`, where there is a `q`.
abbrev set_prev : (Ptr → Ptr) → Ptr → Ptr → Ptr → Ptr
set_prev prev q v = if q == null then prev else update prev q v

ne-hd : (a : Ptr) (bs : List Ptr) → a ≢ null → has a bs ≡ false → a ≢ hd bs
ne-hd a [] n out = n
ne-hd a (b ∷ bs) n out = ground arith

pub ne-lst : (a c : Ptr) (cs : List Ptr) → has a (c ∷ cs) ≡ false → a ≢ lst c cs
ne-lst a c [] out = ground arith
ne-lst a c (d ∷ cs) out = ne-lst a d cs (ground arith)

module _ (next prev : Ptr → Ptr) where
  Linked-node :
      (back p : Ptr) (xs ys : List Ptr)
      → Linked next prev back (xs ++ p ∷ ys)
      → (p ≢ null) × (prev p ≡ lst back xs) × (next p ≡ hd ys)
  Linked-node back p [] ys l = (l.0, l.1, l.2)
  Linked-node back p (x ∷ xs) ys l = Linked-node x p xs ys l.3

  Linked-set_prev :
      (q v back : Ptr) (xs : List Ptr)
      → has q xs ≡ false
      → Linked next prev back xs
      → Linked next (set_prev prev q v) back xs
  unfolding update
  Linked-set_prev q v back [] out l = tt
  Linked-set_prev q v back (x ∷ xs) out l = ground (arith, Linked-set_prev q v x xs)

  Linked-skip :
      (back p : Ptr) (ys : List Ptr)
      → Linked next prev p ys
      → has back ys ≡ false
      → Distinct ys
      → Linked (update next back (hd ys)) (set_prev prev (hd ys) back) back ys
  unfolding update
  Linked-skip back p [] l out d = tt
  Linked-skip back p (y ∷ ys) l out d = (
    l.0,
    ground arith,
    ground arith,
    Linked-update_next next (set_prev prev y back) back y y ys (ground arith)
        (Linked-set_prev y back y ys d.0 l.3),
  )

  Linked-erase :
      (back p : Ptr) (xs ys : List Ptr)
      → Linked next prev back (xs ++ p ∷ ys)
      → has back (xs ++ p ∷ ys) ≡ false
      → Distinct (xs ++ p ∷ ys)
      → Linked
          (update next (lst back xs) (hd ys))
          (set_prev prev (hd ys) (lst back xs))
          back
          (xs ++ ys)
  unfolding update
  Linked-erase back p [] ys l out d = Linked-skip back p ys l.3 (ground arith) d.1
  Linked-erase back p (x ∷ []) ys l out d = (
    l.0,
    ground (arith, ne-hd x ys, has-append x [] (p ∷ ys)),
    ground arith,
    Linked-erase x p [] ys l.3 d.0 d.1,
  )
  Linked-erase back p (x ∷ z ∷ xs) ys l out d = (
    l.0,
    ground (arith, ne-hd x ys, has-append x (z ∷ xs) (p ∷ ys)),
    ground (arith, ne-lst x z xs, has-append x (z ∷ xs) (p ∷ ys)),
    Linked-erase x p (z ∷ xs) ys l.3 d.0 d.1,
  )

  Linked-erase_first :
      (p : Ptr) (ys : List Ptr)
      → Linked next prev null (p ∷ ys)
      → Distinct ys
      → Linked next (set_prev prev (hd ys) null) null ys
  unfolding update
  Linked-erase_first p [] l d = tt
  Linked-erase_first p (y ∷ ys) l d =
      (l.3.0, ground arith, l.3.2, Linked-set_prev y null y ys d.0 l.3.3)

Linked-after :
    (next prev : Ptr → Ptr) (back p y : Ptr) (xs ys : List Ptr)
    → Linked next prev back (xs ++ p ∷ y ∷ ys)
    → y ≢ null
Linked-after next prev back p y [] ys l = l.3.0
Linked-after next prev back p y (x ∷ xs) ys l = Linked-after next prev x p y xs ys l.3

lst-ne-null :
    (next prev : Ptr → Ptr) (back x : Ptr) (xs ys : List Ptr)
    → Linked next prev back (x ∷ xs ++ ys)
    → lst x xs ≢ null
lst-ne-null next prev back x [] ys l = l.0
lst-ne-null next prev back x (z ∷ xs) ys l = lst-ne-null next prev x z xs ys l.3

All-lst :
    (live : Ptr → Bool) (x : Ptr) (xs ys : List Ptr)
    → All live (x ∷ xs ++ ys)
    → live (lst x xs) ≡ true
All-lst live x [] ys h = h.0
All-lst live x (z ∷ xs) ys h = All-lst live z xs ys h.1

All-mid :
    (live : Ptr → Bool) (p : Ptr) (xs ys : List Ptr)
    → All live (xs ++ p ∷ ys)
    → (live p ≡ true) × All live ys
All-mid live p [] ys h = h
All-mid live p (x ∷ xs) ys h = All-mid live p xs ys h.1

has-lst_append : (a x : Ptr) (xs ys : List Ptr) → has a (x ∷ xs ++ ys) ≡ false → a ≢ lst x xs
has-lst_append a x [] ys m = ground arith
has-lst_append a x (z ∷ xs) ys m = has-lst_append a z xs ys (ground arith)

Distinct-erase : (p : Ptr) (xs ys : List Ptr) → Distinct (xs ++ p ∷ ys) → Distinct (xs ++ ys)
Distinct-erase p [] ys d = d.1
Distinct-erase p (x ∷ xs) ys d =
    ground (arith, Distinct-erase p xs ys d.1, has-append x xs (p ∷ ys), has-append x xs ys)

-- The outcome of taking `p` out of the list `zs`.
pub record Unlinked (zs rest : List Ptr) (l k : Dll) : Type 0 where
  pub shape : IsDll k rest
  pub same : SameOutside zs l k

module _ (live : Ptr → Bool) (l : Dll) (p : Ptr) where
  unlink_first-Unlinked :
      (ys : List Ptr)
      → IsDll l (p ∷ ys)
      → All live (p ∷ ys)
      → (k : Dll) × (unlink live l p ≡ some k) × Unlinked (p ∷ ys) ys l k
  unfolding unlink update
  unlink_first-Unlinked [] s h = (
    record l { head = null; tail = null },
    ground arith,
    record {
      shape = record { first = refl; last = refl; linked = tt; distinct = tt };
      same = λ a m. (refl, refl);
    },
  )
  unlink_first-Unlinked (y ∷ ys) s h = (
    record l { head = y; prev = update l.prev y null },
    ground arith,
    record {
      shape = record {
        first = refl;
        last = s.last;
        linked = (
          s.linked.3.0,
          ground arith,
          s.linked.3.2,
          Linked-update_prev l.next l.prev y null y ys s.distinct.1.0 s.linked.3.3,
        );
        distinct = s.distinct.1;
      };
      same = λ a m. (refl, ground arith);
    },
  )

  unlink_inner-Unlinked :
      (x : Ptr) (xs ys : List Ptr)
      → IsDll l (x ∷ xs ++ p ∷ ys)
      → All live (x ∷ xs ++ p ∷ ys)
      → (k : Dll) × (unlink live l p ≡ some k) × Unlinked (x ∷ xs ++ p ∷ ys) (x ∷ xs ++ ys) l k
  unfolding unlink update
  unlink_inner-Unlinked x xs [] s h = (
    record l { next = update l.next (lst x xs) null; tail = lst x xs },
    ground (
      arith,
      Linked-node l.next l.prev x p xs [] s.linked.3,
      lst-ne-null l.next l.prev null x xs (p ∷ []) s.linked,
      All-lst live x xs (p ∷ []) h,
      All-mid live p xs [] h.1,
    ),
    record {
      shape = record {
        first = ground (arith, s.first);
        last = rw append-nil;
        linked =
            Linked-erase l.next l.prev null p (x ∷ xs) [] s.linked
              (not-has-null l.next l.prev null (x ∷ xs ++ p ∷ []) s.linked) s.distinct;
        distinct = Distinct-erase p (x ∷ xs) [] s.distinct;
      };
      same = λ a m. (ground (arith, has-lst_append a x xs (p ∷ [])), refl);
    },
  )
  unlink_inner-Unlinked x xs (y ∷ ys) s h = (
    record l { next = update l.next (lst x xs) y; prev = set_prev l.prev y (lst x xs) },
    ground (
      arith,
      Linked-node l.next l.prev x p xs (y ∷ ys) s.linked.3,
      Linked-after l.next l.prev x p y xs ys s.linked.3,
      lst-ne-null l.next l.prev null x xs (p ∷ y ∷ ys) s.linked,
      All-lst live x xs (p ∷ y ∷ ys) h,
      All-mid live p xs (y ∷ ys) h.1,
    ),
    record {
      shape = record {
        first = s.first;
        last = s.last ∙ lst-append x xs (p ∷ y ∷ ys) ∙ sym (lst-append x xs (y ∷ ys));
        linked =
            Linked-erase l.next l.prev null p (x ∷ xs) (y ∷ ys) s.linked
              (not-has-null l.next l.prev null (x ∷ xs ++ p ∷ y ∷ ys) s.linked) s.distinct;
        distinct = Distinct-erase p (x ∷ xs) (y ∷ ys) s.distinct;
      };
      same = λ a m. (
        ground (arith, has-lst_append a x xs (p ∷ y ∷ ys)),
        ground (arith, has-append a xs (p ∷ y ∷ ys)),
      );
    },
  )

pub split :
    (p : Ptr) (zs : List Ptr)
    → has p zs ≡ true
    → (xs : List Ptr) × (ys : List Ptr) × (zs ≡ xs ++ p ∷ ys) × (erase p zs ≡ xs ++ ys)
unfolding erase
split p [] m = ground arith
split p (z ∷ zs) m = elim (Bool-cases (p == z)) [
  | inl e ↦ ([], zs, ground arith, rw e)
  | inr e ↦
      let rest = split p zs (ground arith) in
      (z ∷ rest.0, rest.1, ap (◌∷◌ z) rest.2, rw (e, rest.3))
]

unlink-split :
    (live : Ptr → Bool) (l : Dll) (p : Ptr) (xs ys : List Ptr)
    → IsDll l (xs ++ p ∷ ys)
    → All live (xs ++ p ∷ ys)
    → (k : Dll) × (unlink live l p ≡ some k) × Unlinked (xs ++ p ∷ ys) (xs ++ ys) l k
unlink-split live l p [] ys = unlink_first-Unlinked live l p ys
unlink-split live l p (x ∷ xs) ys = unlink_inner-Unlinked live l p x xs ys

Unlinked-eq :
    (zs zs' rest rest' : List Ptr) (l k : Dll)
    → zs ≡ zs'
    → rest ≡ rest'
    → Unlinked zs' rest' l k
    → Unlinked zs rest l k
Unlinked-eq zs zs' rest rest' l k e f u = rw (e, f) u

-- On a well-formed list whose nodes are allocated, `unlink` of one of its nodes `p` dereferences
-- no bad pointer; the list that is left is well formed and holds the other nodes in their order,
-- and the links of every node outside of the list are as before.
pub unlink-erase :
    (live : Ptr → Bool) (l : Dll) (p : Ptr) (zs : List Ptr)
    → IsDll l zs
    → All live zs
    → has p zs ≡ true
    → (k : Dll) × (unlink live l p ≡ some k) × Unlinked zs (erase p zs) l k
unlink-erase live l p zs s h m =
    let (xs, ys, e, f) = split p zs m in
    let (k, run, u) = unlink-split live l p xs ys (subst (IsDll l) e s) (subst (All live) e h) in
    (k, run, Unlinked-eq zs _ _ _ l k e f u)
