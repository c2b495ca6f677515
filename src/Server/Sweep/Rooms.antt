-- ===== src/Server/Sweep/Rooms.antt =====
-- One round of the second loop of the sweep: a room that stood empty for a whole interval goes.
use csc469_advanced_operatin.Base.{
  ℕ, ◌+◌, ◌≡◌, refl, ◌≢◌, sym, ap, subst, ◌∙◌, inl, inr, true, false, List, [], ◌∷◌, arith, ◌==◌,
  ◌&&◌, has, length, if◌then◌else◌, ==→≡,
}
use csc469_advanced_operatin.Dll.{Ptr, update}
use csc469_advanced_operatin.Dll.Unlink.{erase}
use csc469_advanced_operatin.Server.State.{Server, ok, ◌>>◌}
use csc469_advanced_operatin.Server.Rooms.{remove_room, free_room}
use csc469_advanced_operatin.Server.Rooms.Remove.{RoomGone}
use csc469_advanced_operatin.Server.Sound.{Session, IsSound, has-erase, has-erase_ne}
use csc469_advanced_operatin.Server.Same.{SameShape, IsSound-same, MembersOk-same, RoomOk-same}
use csc469_advanced_operatin.Server.Sweep.{sweep_room}

abbrev pub without_room : Ptr → Session → Session
without_room rt g = record g { rooms = erase rt g.rooms }

-- An empty room, and one that was empty at the last sweep too.
unfoldable pub bump_empty : (num flag : Ptr → ℕ) → List Ptr → Ptr → ℕ
bump_empty num flag [] = flag
bump_empty num flag (y ∷ ys) =
    if (num y == 0) && (flag y == 0)
    then bump_empty num (update flag y (flag y + 1)) ys
    else bump_empty num flag ys

unfoldable pub drop_empty : (num flag : Ptr → ℕ) → List Ptr → Session → Session
drop_empty num flag [] g = g
drop_empty num flag (y ∷ ys) g =
    if num y == 0
    then if flag y == 0
      then drop_empty num (update flag y (flag y + 1)) ys g
      else drop_empty num flag ys (without_room y g)
    else drop_empty num flag ys g

pub record SweptRooms (s t : Server) (g : Session) (ys : List Ptr) : Type 0 where
  pub sound : IsSound t (drop_empty s.num_of_members s.empty_flag ys g)
  pub empty_flag : t.empty_flag ≡ bump_empty s.num_of_members s.empty_flag ys
  pub num_of_members : t.num_of_members ≡ s.num_of_members
  pub quiet_flag : t.quiet_flag ≡ s.quiet_flag
  pub member_id : t.member_id ≡ s.member_id
  pub member_name : t.member_name ≡ s.member_name
  pub room_name : t.room_name ≡ s.room_name
  pub current_room : t.current_room ≡ s.current_room
  pub sent : t.sent ≡ s.sent

-- One round of the loop on `y`, from the state `s` and session `g`.
pub record Round (s u : Server) (g h : Session) (y : Ptr) : Type 0 where
  pub sound : IsSound u h
  session :
      (ys : List Ptr)
      → drop_empty s.num_of_members s.empty_flag (y ∷ ys) g
        ≡ drop_empty u.num_of_members u.empty_flag ys h
  flags :
      (ys : List Ptr)
      → bump_empty s.num_of_members s.empty_flag (y ∷ ys)
        ≡ bump_empty u.num_of_members u.empty_flag ys
  num_of_members : u.num_of_members ≡ s.num_of_members
  quiet_flag : u.quiet_flag ≡ s.quiet_flag
  member_id : u.member_id ≡ s.member_id
  member_name : u.member_name ≡ s.member_name
  room_name : u.room_name ≡ s.room_name
  current_room : u.current_room ≡ s.current_room
  sent : u.sent ≡ s.sent

pub SweptRooms-cons :
    (s u t : Server) (g h : Session) (y : Ptr) (ys : List Ptr)
    → Round s u g h y
    → SweptRooms u t h ys
    → SweptRooms s t g (y ∷ ys)
SweptRooms-cons s u t g h y ys r w = record {
  sound = subst (IsSound t) (sym (r.session ys)) w.sound;
  empty_flag = w.empty_flag ∙ sym (r.flags ys);
  num_of_members = w.num_of_members ∙ r.num_of_members;
  quiet_flag = w.quiet_flag ∙ r.quiet_flag;
  member_id = w.member_id ∙ r.member_id;
  member_name = w.member_name ∙ r.member_name;
  room_name = w.room_name ∙ r.room_name;
  current_room = w.current_room ∙ r.current_room;
  sent = w.sent ∙ r.sent;
}

-- Without a room that has no members the session is still well formed.
module _ (s t : Server) (g : Session) (sound : IsSound s g) (y : Ptr) (m : has y g.rooms ≡ true)
    (empty : (s.num_of_members y == 0) ≡ true) (gone : RoomGone y s t g.rooms) where
  nobody : (p : Ptr) → has p (g.occupants y) ≡ false
  nobody p =
      not-has-empty p (g.occupants y)
        (omega (arith, (sound.occupants y m).count, ==→≡ (s.num_of_members y) 0 empty))
    where
      not-has-empty : (p : Ptr) (xs : List Ptr) → length xs ≡ 0 → has p xs ≡ false
      not-has-empty p [] e = refl
      not-has-empty p (x ∷ xs) e = absurd (omega arith)

  gone-SameShape : SameShape s t
  gone-SameShape = record {
    live_member = ap (λ u. u.live_member) gone.others;
    mem_list = ap (λ u. u.mem_list) gone.others;
    total_num_of_members = ap (λ u. u.total_num_of_members) gone.others;
    next_room_member = ap (λ u. u.next_room_member) gone.others;
    prev_room_member = ap (λ u. u.prev_room_member) gone.others;
    member_list_head = ap (λ u. u.member_list_head) gone.others;
    member_list_tail = ap (λ u. u.member_list_tail) gone.others;
    current_room = ap (λ u. u.current_room) gone.others;
    num_of_members = ap (λ u. u.num_of_members) gone.others;
  }

  without_room-IsSound : IsSound t (without_room y g)
  without_room-IsSound = record {
    members = MembersOk-same s t gone-SameShape g.members sound.members;
    rooms = gone.left;
    occupants = λ r h.
        RoomOk-same s t gone-SameShape (g.occupants r) r
          (sound.occupants r (has-erase r y g.rooms h));
    places = record {
      inside = λ r p h o. sound.places.inside r p (has-erase r y g.rooms h) o;
      current = λ p h. rw gone-SameShape.current_room (elim (sound.places.current p h) [
        | inl e ↦ inl e
        | inr (k, o) ↦ inr (has-erase_ne (s.current_room p) y g.rooms (elsewhere p o) k, o)
      ]);
    };
  }
    where
      elsewhere : (p : Ptr) → has p (g.occupants (s.current_room p)) ≡ true → s.current_room p ≢ y
      elsewhere p o e =
          let o' = subst (λ r. has p (g.occupants r) ≡ true) e o in ground (arith, nobody p)

abbrev pub emptier : Server → Ptr → Server
emptier s rt = record s { empty_flag = update s.empty_flag rt (s.empty_flag rt + 1) }

emptier-IsSound : (s : Server) (g : Session) (rt : Ptr) → IsSound s g → IsSound (emptier s rt) g
emptier-IsSound s g rt =
    IsSound-same s (emptier s rt)
      (record {
        live_member = refl;
        mem_list = refl;
        total_num_of_members = refl;
        next_room_member = refl;
        prev_room_member = refl;
        member_list_head = refl;
        member_list_tail = refl;
        current_room = refl;
        num_of_members = refl;
      })
      (record {
        live_room = refl;
        room_name = refl;
        next_room = refl;
        room_list_head = refl;
        room_list_tail = refl;
        total_num_of_rooms = refl;
      })
      g

module _ (s : Server) (g : Session) (sound : IsSound s g) (y : Ptr) (m : has y g.rooms ≡ true) where
  pub Round-full : (s.num_of_members y == 0) ≡ false → Round s s g g y
  unfolding bump_empty drop_empty
  Round-full e = record {
    sound = sound;
    session = λ ys. rw e;
    flags = λ ys. rw e;
    num_of_members = refl;
    quiet_flag = refl;
    member_id = refl;
    member_name = refl;
    room_name = refl;
    current_room = refl;
    sent = refl;
  }

  pub Round-first :
      (s.num_of_members y == 0) ≡ true → (s.empty_flag y == 0) ≡ true → Round s (emptier s y) g g y
  unfolding bump_empty drop_empty
  Round-first e f = record {
    sound = emptier-IsSound s g y sound;
    session = λ ys. rw (e, f);
    flags = λ ys. rw (e, f);
    num_of_members = refl;
    quiet_flag = refl;
    member_id = refl;
    member_name = refl;
    room_name = refl;
    current_room = refl;
    sent = refl;
  }

  pub Round-second :
      (u : Server)
      → (s.num_of_members y == 0) ≡ true
      → (s.empty_flag y == 0) ≡ false
      → RoomGone y s u g.rooms
      → Round s u g (without_room y g) y
  unfolding bump_empty drop_empty
  Round-second u e f gone = record {
    sound = without_room-IsSound s u g sound y m e gone;
    session = λ ys.
        rw (e, f)
          (ap (λ v. drop_empty v.num_of_members v.empty_flag ys (without_room y g))
            (sym gone.others));
    flags =
        λ ys. rw (e, f) (ap (λ v. bump_empty v.num_of_members v.empty_flag ys) (sym gone.others));
    num_of_members = ap (λ u. u.num_of_members) gone.others;
    quiet_flag = ap (λ u. u.quiet_flag) gone.others;
    member_id = ap (λ u. u.member_id) gone.others;
    member_name = ap (λ u. u.member_name) gone.others;
    room_name = ap (λ u. u.room_name) gone.others;
    current_room = ap (λ u. u.current_room) gone.others;
    sent = ap (λ u. u.sent) gone.others;
  }

module _ (s : Server) (y : Ptr) where
  pub sweep_room-full : (s.num_of_members y == 0) ≡ false → sweep_room y s ≡ ok tt s
  unfolding sweep_room
  sweep_room-full e = rw e

  pub sweep_room-first :
      (s.num_of_members y == 0) ≡ true
      → (s.empty_flag y == 0) ≡ true
      → sweep_room y s ≡ ok tt (emptier s y)
  unfolding sweep_room
  sweep_room-first e f = rw (e, f)

  pub sweep_room-second :
      (u : Server)
      → (s.num_of_members y == 0) ≡ true
      → (s.empty_flag y == 0) ≡ false
      → (remove_room y >> free_room y) s ≡ ok tt u
      → sweep_room y s ≡ ok tt u
  unfolding sweep_room
  sweep_room-second u e f run = rw (e, f) run
