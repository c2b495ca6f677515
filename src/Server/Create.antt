-- ===== src/Server/Create.antt =====
-- `create_room`: its result, and the session it leaves.
pub mod Fresh
pub mod Link
pub mod Run
use csc469_advanced_operatin.Base.{
  ℕ, ◌≡◌, refl, sym, ap, subst, ◌∙◌, ◌≢◌, ◌≤◌, ◌⊎◌, inl, inr, Bool, true, false, List, [], ◌∷◌, ltb,
  arith, ◌==◌, ==→≡, has, length, if◌then◌else◌, Bool-cases,
}
use csc469_advanced_operatin.Dll.{Ptr, null, update}
use csc469_advanced_operatin.Dll.Shape.{hd, lst, lst-append, All}
use csc469_advanced_operatin.Wire.Header.{max_num_of_rooms, max_room_name_len}
use csc469_advanced_operatin.Server.State.{Server, ok, fault}
use csc469_advanced_operatin.Server.Rooms.{create_room, new_room}
use csc469_advanced_operatin.Server.Walk.{first}
use csc469_advanced_operatin.Server.Occupants.{SameData-refl}
use csc469_advanced_operatin.Server.Sound.{Session, IsSound, SameData, Chain-not-null}
use csc469_advanced_operatin.Server.Create.Fresh.{
  new_room-IsSound, new_room-RoomOk_self, fresh-not-has,
}
use csc469_advanced_operatin.Server.Create.Link.{
  with_room, as_first, behind_tail, linked-IsSound, as_first-RoomsOk, behind_tail-RoomsOk,
}
use csc469_advanced_operatin.Server.Create.Run.{
  room_called, create_result, create_room-full, create_room-link, link_room-as_first,
  link_room-taken, link_room-new, add_room-ok, add_room-fault, new_room-own, as_first-own,
  behind_tail-own, new_room-name, new_room-live, new_room-end, new_room-tail, as_first-SameShape,
  behind_tail-SameShape, head-rooms,
}

-- The state after `create_room` returned `result`.
pub record Created (rt : Ptr) (name : List ℕ) (result : ℕ) (s t : Server) (g : Session)
    : Type 0 where
  pub sound : IsSound t (if result == 0 then with_room rt g else g)
  pub own : SameData s t
  pub tail : t.room_list_tail ≡ lst null (if result == 0 then with_room rt g else g).rooms
  pub room_name :
      (r : Ptr)
      → has r (if result == 0 then with_room rt g else g).rooms ≡ true
      → t.room_name r ≡ (if r == rt then name else s.room_name r)
  pub name_fits :
      (r : Ptr)
      → length (s.room_name r) ≤ max_room_name_len
      → length (t.room_name r) ≤ max_room_name_len
  pub allocated : (r : Ptr) → t.live_room r ≡ true → (s.live_room r ≡ true) ⊎ (r ≡ rt)

new_room-allocated :
    (s : Server) (rt : Ptr) (name : List ℕ) (r : Ptr)
    → (new_room rt name s).live_room r ≡ true
    → (s.live_room r ≡ true) ⊎ (r ≡ rt)
unfolding new_room update
new_room-allocated s rt name r h = elim (Bool-cases (r == rt)) [
  | inl e ↦ inr (==→≡ r rt e)
  | inr e ↦ inl (ground (arith, h, e))
]

List-cases : (xs : List Ptr) → (xs ≡ []) ⊎ ((x : Ptr) × (ys : List Ptr) × (xs ≡ x ∷ ys))
List-cases [] = inl refl
List-cases (x ∷ xs) = inr (x, xs, refl)

All-last :
    (live : Ptr → Bool) (x : Ptr) (xs : List Ptr) → All live (x ∷ xs) → live (lst x xs) ≡ true
All-last live x [] h = h.0
All-last live x (z ∷ xs) h = All-last live z xs h.1

create_room-long :
    (s : Server) (rt : Ptr) (name : List ℕ)
    → ltb max_room_name_len (length name) ≡ true
    → create_room rt name s ≡ ok 1 s
unfolding create_room
create_room-long s rt name e = rw e refl

result_of : Bool → Bool → Bool → ℕ
result_of a b c = if a then 1 else if b then 2 else if c then 0 else 3

zero_cases : (a b c : Bool) → result_of a b c ≡ 0 → (a ≡ false) × (b ≡ false) × (c ≡ true)
unfolding result_of
zero_cases true b c e = ground arith
zero_cases false true c e = ground arith
zero_cases false false true e = (refl, refl, refl)
zero_cases false false false e = ground arith

pub has-ne_test :
    (a b : Ptr) (xs : List Ptr) → has a xs ≡ true → has b xs ≡ false → (a == b) ≡ false
has-ne_test a b xs h n = ground arith

module _ (s : Server) (g : Session) (sound : IsSound s g) where
  hd-ne : (x : Ptr) (xs : List Ptr) → g.rooms ≡ x ∷ xs → (hd g.rooms == null) ≡ false
  hd-ne x xs e =
      ap (λ l. hd l == null) e
      ∙ has-ne_test x null g.rooms (rw e (ground arith))
          (Chain-not-null s.next_room s.room_list_head g.rooms sound.rooms.chain)

module _ (s : Server) (g : Session) (sound : IsSound s g) (rt : Ptr) (name : List ℕ)
    (fresh : s.live_room rt ≡ false) (n : rt ≢ null)
    (end : s.room_list_tail ≡ lst null g.rooms) where
  out : has rt g.rooms ≡ false
  out = fresh-not-has s rt name g sound fresh n

  Creates : ℕ → Type 0
  Creates result =
      (t : Server) × (create_room rt name s ≡ ok result t) × Created rt name result s t g

  nothing-Creates : create_room rt name s ≡ ok 1 s → Creates 1
  unfolding Creates
  nothing-Creates run = (
    s,
    run,
    record {
      sound = sound;
      own = SameData-refl s;
      tail = end;
      room_name = λ r m. rw (has-ne_test r rt g.rooms m out) refl;
      name_fits = λ r f. f;
      allocated = λ r h. inl h;
    },
  )

  fitting :
      (r : Ptr) (names : Ptr → List ℕ)
      → length (s.room_name r) ≤ max_room_name_len
      → names r ≡ (if r == rt then name else s.room_name r)
      → ltb max_room_name_len (length name) ≡ false
      → length (names r) ≤ max_room_name_len
  fitting r names f e fits = rw e (ground (arith, f, fits))

  loose-Creates :
      (result : ℕ)
      → ltb max_room_name_len (length name) ≡ false
      → (result == 0) ≡ false
      → create_room rt name s ≡ ok result (new_room rt name s)
      → Creates result
  unfolding Creates
  loose-Creates result fits e run = (
    new_room rt name s,
    run,
    record {
      sound = rw e (new_room-IsSound s rt name g sound fresh n);
      own = new_room-own s rt name;
      tail = rw e (new_room-tail s rt name ∙ end);
      room_name = λ r m. new_room-name s rt name r;
      name_fits =
          λ r f. fitting r (new_room rt name s).room_name f (new_room-name s rt name r) fits;
      allocated = new_room-allocated s rt name;
    },
  )

  module _ (fits : ltb max_room_name_len (length name) ≡ false)
      (space : (length g.rooms == max_num_of_rooms) ≡ false) where
    first-Creates : g.rooms ≡ [] → Creates 0
    unfolding Creates
    first-Creates e =
        let t = new_room rt name s in
        let h = new_room-IsSound s rt name g sound fresh n in
        (
          as_first rt t,
          create_room-link s g sound rt name fresh n fits space
              ∙ link_room-as_first t rt (
                  ap (λ p. p == null) (head-rooms s g sound rt name fresh n fits t refl ∙ ap hd e)),
          record {
            sound =
                linked-IsSound t (as_first rt t) g rt h (as_first-SameShape s rt name t) out
                  (new_room-RoomOk_self s rt name)
                  (as_first-RoomsOk t g rt h n (new_room-live s rt name fresh)
                    (new_room-end s rt name) out space e);
            own = as_first-own s rt name;
            tail = sym (lst-append null g.rooms (rt ∷ []));
            room_name = λ r m. new_room-name s rt name r;
            name_fits =
                λ r f. fitting r (new_room rt name s).room_name f (new_room-name s rt name r) fits;
            allocated = new_room-allocated s rt name;
          },
        )

    behind-Creates :
        (x : Ptr) (xs : List Ptr)
        → g.rooms ≡ x ∷ xs
        → (room_called s g name == null) ≡ true
        → Creates 0
    unfolding Creates
    behind-Creates x xs e f =
        let t = new_room rt name s in
        let h = new_room-IsSound s rt name g sound fresh n in
        let w = new_room-tail s rt name ∙ end ∙ ap (lst null) e in
        (
          behind_tail rt t,
          create_room-link s g sound rt name fresh n fits space
              ∙ link_room-new s g sound rt name fresh n fits t refl (hd-ne s g sound x xs e) f
              ∙ add_room-ok t rt (
                  ap t.live_room w
                  ∙ All-last t.live_room x xs (subst (All t.live_room) e h.rooms.live)),
          record {
            sound =
                linked-IsSound t (behind_tail rt t) g rt h (behind_tail-SameShape s rt name t) out
                  (new_room-RoomOk_self s rt name)
                  (behind_tail-RoomsOk t g rt h n (new_room-live s rt name fresh)
                    (new_room-end s rt name) out space x xs e w);
            own = behind_tail-own s rt name;
            tail = sym (lst-append null g.rooms (rt ∷ []));
            room_name = λ r m. new_room-name s rt name r;
            name_fits =
                λ r f. fitting r (new_room rt name s).room_name f (new_room-name s rt name r) fits;
            allocated = new_room-allocated s rt name;
          },
        )

    taken-Creates :
        (x : Ptr) (xs : List Ptr)
        → g.rooms ≡ x ∷ xs
        → (room_called s g name == null) ≡ false
        → Creates 3
    taken-Creates x xs e f = loose-Creates 3 fits refl (
        create_room-link s g sound rt name fresh n fits space
        ∙ link_room-taken s g sound rt name fresh n fits (new_room rt name s) refl
            (hd-ne s g sound x xs e) f)

  room_called-none : g.rooms ≡ [] → (room_called s g name == null) ≡ true
  unfolding first
  room_called-none e = rw e refl

  all-Creates : Creates (create_result s g name)
  all-Creates = elim (Bool-cases (ltb max_room_name_len (length name))) [
    | inl long ↦ rw long (nothing-Creates (create_room-long s rt name long))
    | inr fits ↦ elim (Bool-cases (length g.rooms == max_num_of_rooms)) [
      | inl full ↦
          rw (fits, full)
            (loose-Creates 2 fits refl (create_room-full s g sound rt name fresh n fits full))
      | inr space ↦ elim (List-cases g.rooms) [
        | inl e ↦ rw (fits, space, room_called-none e) (first-Creates fits space e)
        | inr (x, xs, e) ↦ elim (Bool-cases (room_called s g name == null)) [
          | inl f ↦ rw (fits, space, f) (behind-Creates fits space x xs e f)
          | inr f ↦ rw (fits, space, f) (taken-Creates fits space x xs e f)
        ]
      ]
    ]
  ]

-- With fresh memory for the room, and a tail pointer that is the last room, `create_room` on a
-- well-formed session ends and follows no bad pointer. It returns 1 for a name that is too long, 2
-- for a full list and 3 for a name that a room answers to, tested in this order, and otherwise 0.
-- With 0 the room stands behind the others in a well-formed list, has nobody in it and carries the
-- name; otherwise the session is what it was. Members and the other rooms' names keep as they are.
pub create_room-Created :
    (s : Server) (g : Session) (rt : Ptr) (name : List ℕ)
    → IsSound s g
    → s.live_room rt ≡ false
    → rt ≢ null
    → s.room_list_tail ≡ lst null g.rooms
    → (t : Server) × (create_room rt name s ≡ ok (create_result s g name) t)
      × Created rt name (create_result s g name) s t g
unfolding Creates
create_room-Created s g rt name sound fresh n end = all-Creates s g sound rt name fresh n end

-- Once the tail pointer is `NULL` while there are rooms, a request for one more room with a good
-- name, fresh memory and space in the list writes through `NULL`.
pub create_room-fault :
    (s : Server) (g : Session) (rt : Ptr) (name : List ℕ)
    → IsSound s g
    → s.live_room rt ≡ false
    → rt ≢ null
    → s.room_list_tail ≡ null
    → g.rooms ≢ []
    → create_result s g name ≡ 0
    → create_room rt name s ≡ fault
unfolding result_of
create_room-fault s g rt name sound fresh n lost some zero =
    let (fits, space, free) =
      zero_cases (ltb max_room_name_len (length name)) (length g.rooms == max_num_of_rooms)
        (room_called s g name == null) zero in
    elim (List-cases g.rooms) [
      | inl e ↦ absurd (some e)
      | inr (x, xs, e) ↦
          create_room-link s g sound rt name fresh n fits space
          ∙ link_room-new s g sound rt name fresh n fits (new_room rt name s) refl
              (hd-ne s g sound x xs e) free
          ∙ add_room-fault (new_room rt name s) rt (
              ap (new_room rt name s).live_room (new_room-tail s rt name ∙ lost)
              ∙ (new_room-IsSound s rt name g sound fresh n).rooms.null_free)
    ]
