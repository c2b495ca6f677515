-- ===== src/Server/Create/Link.antt =====
-- The link of a new room behind the last one.
use csc469_advanced_operatin.Base.{
  ◌≤◌, ◌+◌, ◌≡◌, refl, sym, ap, subst, ◌∙◌, ◌≢◌, inl, inr, Bool, true, false, List, [], ◌∷◌, ◌++◌,
  arith, ◌==◌, has, has-append, Distinct, length, length-append, if◌then◌else◌, Bool-cases, ≢→==,
  ==→≡, ==→≢,
}
use csc469_advanced_operatin.Dll.{Ptr, null, update}
use csc469_advanced_operatin.Dll.Shape.{lst, lst-append, All, update_self, update_ne}
use csc469_advanced_operatin.Wire.Header.{max_num_of_rooms}
use csc469_advanced_operatin.Server.State.{Server}
use csc469_advanced_operatin.Server.Same.{SameShape, MembersOk-same, RoomOk-same}
use csc469_advanced_operatin.Server.Sound.{Session, Chain, RoomsOk, RoomOk, PlacesOk, IsSound}

-- The session with the empty room `rt` behind the others.
abbrev pub with_room : Ptr → Session → Session
with_room rt g = record g {
  rooms = g.rooms ++ rt ∷ [];
  occupants = λ r. if r == rt then [] else g.occupants r;
}

-- The two ways in which the code links it.
abbrev pub as_first : Ptr → Server → Server
as_first rt s = record s {
  room_list_head = rt;
  room_list_tail = rt;
  total_num_of_rooms = s.total_num_of_rooms + 1;
}

abbrev pub behind_tail : Ptr → Server → Server
behind_tail rt s = record s {
  next_room = update s.next_room s.room_list_tail rt;
  room_list_tail = rt;
  total_num_of_rooms = s.total_num_of_rooms + 1;
}

module _ (next : Ptr → Ptr) (rt : Ptr) (n : rt ≢ null) (e : next rt ≡ null) where
  Chain-behind :
      (p x : Ptr) (xs : List Ptr)
      → has rt (x ∷ xs) ≡ false
      → Distinct (x ∷ xs)
      → Chain next p (x ∷ xs)
      → Chain (update next (lst x xs) rt) p (x ∷ xs ++ rt ∷ [])
  Chain-behind p x [] out d c =
      (c.0, c.1, (update_self next x rt, n, update_ne next x rt rt (head-ne x [] out) ∙ e))
    where
      head-ne : (x : Ptr) (xs : List Ptr) → has rt (x ∷ xs) ≡ false → rt ≢ x
      head-ne x xs h = ground arith
  Chain-behind p x (y ∷ xs) out d c = (
    c.0,
    c.1,
    subst (λ q. Chain (update next (lst y xs) rt) q (y ∷ xs ++ rt ∷ []))
        (sym (update_ne next (lst y xs) rt x (ne-last x y xs d.0)))
        (Chain-behind (next x) y xs (later x (y ∷ xs) out) d.1 c.2),
  )
    where
      later : (x : Ptr) (xs : List Ptr) → has rt (x ∷ xs) ≡ false → has rt xs ≡ false
      later x xs h = ground arith

      ne-last : (x y : Ptr) (xs : List Ptr) → has x (y ∷ xs) ≡ false → x ≢ lst y xs
      ne-last x y [] h = ground arith
      ne-last x y (z ∷ xs) h = ne-last x z xs (ground arith)

Distinct-snoc : (p : Ptr) (xs : List Ptr) → has p xs ≡ false → Distinct xs → Distinct (xs ++ p ∷ [])
Distinct-snoc p [] out d = (refl, tt)
Distinct-snoc p (x ∷ xs) out d = ground (arith, Distinct-snoc p xs, has-append x xs (p ∷ []))

All-snoc :
    (live : Ptr → Bool) (p : Ptr) (xs : List Ptr)
    → All live xs
    → live p ≡ true
    → All live (xs ++ p ∷ [])
All-snoc live p [] h e = (e, tt)
All-snoc live p (x ∷ xs) h e = (h.0, All-snoc live p xs h.1 e)

-- Whatever the code did to the room list, if it leads through the old rooms and the new one.
module _ (s t : Server) (g : Session) (rt : Ptr) (sound : IsSound s g) (same : SameShape s t)
    (out : has rt g.rooms ≡ false) (empty : RoomOk s [] rt) where
  linked-OccupantsOk :
      (r : Ptr)
      → has r (g.rooms ++ rt ∷ []) ≡ true
      → RoomOk t (if r == rt then [] else g.occupants r) r
  linked-OccupantsOk r m = elim (Bool-cases (r == rt)) [
    | inl e ↦ rw e (subst (RoomOk t []) (sym (==→≡ r rt e)) (RoomOk-same s t same [] rt empty))
    | inr e ↦ rw e (
        RoomOk-same s t same (g.occupants r) r
          (sound.occupants r (ground (arith, has-append r g.rooms (rt ∷ [])))))
  ]

  linked-inside :
      (r p : Ptr)
      → has r (g.rooms ++ rt ∷ []) ≡ true
      → has p (if r == rt then [] else g.occupants r) ≡ true
      → has p g.members ≡ true
  linked-inside r p m h = elim (Bool-cases (r == rt)) [
    | inl e ↦ absurd (nothing e h)
    | inr e ↦
        sound.places.inside r p (ground (arith, has-append r g.rooms (rt ∷ []))) (occupant e h)
  ]
    where
      nothing : (r == rt) ≡ true → has p (if r == rt then [] else g.occupants r) ≡ true → ⊥
      nothing e h = ground (arith, e)

      occupant :
          (r == rt) ≡ false
          → has p (if r == rt then [] else g.occupants r) ≡ true
          → has p (g.occupants r) ≡ true
      occupant e h = subst (λ b. has p (if b then [] else g.occupants r) ≡ true) e h

  linked-PlacesOk : PlacesOk t (with_room rt g)
  linked-PlacesOk = record {
    inside = linked-inside;
    current = λ p h. rw same.current_room (elim (sound.places.current p h) [
      | inl z ↦ inl z
      | inr (m, o) ↦ inr (
        ground (arith, has-append (s.current_room p) g.rooms (rt ∷ [])),
        rw (≢→== (s.current_room p) rt (has-ne (s.current_room p) rt g.rooms m out)) o,
      )
    ]);
  }
    where
      has-ne : (a b : Ptr) (xs : List Ptr) → has a xs ≡ true → has b xs ≡ false → a ≢ b
      has-ne a b xs h n e = ground arith

  pub linked-IsSound : RoomsOk t (g.rooms ++ rt ∷ []) → IsSound t (with_room rt g)
  linked-IsSound r = record {
    members = MembersOk-same s t same g.members sound.members;
    rooms = r;
    occupants = linked-OccupantsOk;
    places = linked-PlacesOk;
  }

module _ (s : Server) (g : Session) (rt : Ptr) (sound : IsSound s g) (n : rt ≢ null)
    (live : s.live_room rt ≡ true) (end : s.next_room rt ≡ null) (out : has rt g.rooms ≡ false)
    (space : (length g.rooms == max_num_of_rooms) ≡ false) where
  snoc-bound : length (g.rooms ++ rt ∷ []) ≤ max_num_of_rooms
  snoc-bound = omega (
    arith,
    sound.rooms.bound,
    length-append g.rooms (rt ∷ []),
    ==→≢ (length g.rooms) max_num_of_rooms space,
  )

  pub as_first-RoomsOk : g.rooms ≡ [] → RoomsOk (as_first rt s) (g.rooms ++ rt ∷ [])
  as_first-RoomsOk e = rw e (record {
    null_free = sound.rooms.null_free;
    chain = (refl, n, end);
    live = (live, tt);
    distinct = (refl, tt);
    count = omega (arith, sound.rooms.count, ap length e);
    bound = omega arith;
    tail = inl refl;
  })

  pub behind_tail-RoomsOk :
      (x : Ptr) (xs : List Ptr)
      → g.rooms ≡ x ∷ xs
      → s.room_list_tail ≡ lst x xs
      → RoomsOk (behind_tail rt s) (g.rooms ++ rt ∷ [])
  behind_tail-RoomsOk x xs e w = record {
    null_free = sound.rooms.null_free;
    chain =
        rw (w, e)
          (Chain-behind s.next_room rt n end s.room_list_head x xs
            (subst (λ l. has rt l ≡ false) e out) (subst Distinct e sound.rooms.distinct)
            (subst (Chain s.next_room s.room_list_head) e sound.rooms.chain));
    live = All-snoc s.live_room rt g.rooms sound.rooms.live live;
    distinct = Distinct-snoc rt g.rooms out sound.rooms.distinct;
    count = omega (arith, sound.rooms.count, length-append g.rooms (rt ∷ []));
    bound = snoc-bound;
    tail = inl (sym (lst-append null g.rooms (rt ∷ [])));
  }
