-- ===== src/Server/Remove.antt =====
-- `remove_member` and `free`, as the quit request and the sweep call them.
use csc469_advanced_operatin.Base.{◌-◌, ◌≡◌, ap, ◌∙◌, inl, inr, true, false, some, arith, has}
use csc469_advanced_operatin.Dll.{Ptr, null, update, Dll, unlink}
use csc469_advanced_operatin.Dll.Shape.{All-has, update_ne}
use csc469_advanced_operatin.Dll.Unlink.{erase, unlink-erase, Unlinked}
use csc469_advanced_operatin.Server.State.{Server, ok, ◌>>◌}
use csc469_advanced_operatin.Server.Members.{leave_room, leave_session, remove_member, free_member}
use csc469_advanced_operatin.Server.Sound.{
  Session, MembersOk, OccupantsOk, PlacesOk, IsSound, SameRooms, RoomsOk-same, All-of_has,
  has-erase, has-erase_ne, length-erase, length-erase_le, without_member, update-eq_false,
  not-has_erased,
}
use csc469_advanced_operatin.Server.Leave.{Left, leave_room-Left}

-- What the removal of `mt` leaves: a well-formed state for the others, who keep their data.
pub record Gone (mt : Ptr) (s t : Server) (g : Session) : Type 0 where
  pub sound : IsSound t (without_member mt g)
  pub freed : t.live_member ≡ update s.live_member mt false
  pub member_id : t.member_id ≡ s.member_id
  pub member_name : t.member_name ≡ s.member_name
  pub quiet_flag : t.quiet_flag ≡ s.quiet_flag
  pub sent : t.sent ≡ s.sent
  pub current_room : t.current_room ≡ s.current_room
  pub empty_flag : t.empty_flag ≡ s.empty_flag
  pub rooms : SameRooms s t

-- The state after the member list became `k` and `mt` was freed.
abbrev gone : Server → Ptr → Dll → Server
gone s mt k = record s {
  mem_list = k;
  total_num_of_members = s.total_num_of_members - 1;
  live_member = update s.live_member mt false;
}

module _ (s : Server) (g : Session) (sound : IsSound s g) (mt : Ptr)
    (there : has mt g.members ≡ true) (t : Server) (l : Left mt s t g) (k : Dll)
    (u : Unlinked g.members (erase mt g.members) s.mem_list k) where
  gone-MembersOk : MembersOk (gone t mt k) (erase mt g.members)
  gone-MembersOk = record {
    null_free =
        update-eq_false t.live_member mt null
          ((λ i. l.own.live_member i null) ∙ sound.members.null_free);
    shape = u.shape;
    live = All-of_has _ (erase mt g.members) λ a m.
        update_ne t.live_member mt false a
          (not-has_erased mt g.members sound.members.shape.distinct a m)
        ∙ (λ i. l.own.live_member i a)
        ∙ All-has s.live_member g.members a sound.members.live (has-erase a mt g.members m);
    count =
        omega (arith, l.total_num_of_members, sound.members.count, length-erase mt g.members there);
    bound = omega (arith, sound.members.bound, length-erase_le mt g.members);
  }

  gone-OccupantsOk : OccupantsOk (gone t mt k) g.rooms (λ r. erase mt (g.occupants r))
  gone-OccupantsOk r m =
      let o = l.occupants r m in
      record { shape = o.shape; count = o.count; bound = o.bound; there = o.there }

  gone-PlacesOk : PlacesOk (gone t mt k) (without_member mt g)
  gone-PlacesOk = record {
    inside = λ r p m h.
        has-erase_ne p mt g.members
          (not-has_erased mt (g.occupants r) (sound.occupants r m).shape.distinct p h)
          (sound.places.inside r p m (has-erase p mt (g.occupants r) h));
    current = λ p h. elim (sound.places.current p (has-erase p mt g.members h)) [
      | inl e ↦ inl ((λ i. l.current_room i p) ∙ e)
      | inr (m, o) ↦ inr (
          rw l.current_room (
            m,
            has-erase_ne p mt (g.occupants (s.current_room p))
                (not-has_erased mt g.members sound.members.shape.distinct p h) o,
          ))
    ];
  }

  gone-SameRooms : SameRooms s (gone t mt k)
  gone-SameRooms = record {
    live_room = l.rooms.live_room;
    room_name = l.rooms.room_name;
    next_room = l.rooms.next_room;
    room_list_head = l.rooms.room_list_head;
    room_list_tail = l.rooms.room_list_tail;
    total_num_of_rooms = l.rooms.total_num_of_rooms;
  }

  gone-IsSound : IsSound (gone t mt k) (without_member mt g)
  gone-IsSound = record {
    members = gone-MembersOk;
    rooms = RoomsOk-same s (gone t mt k) g.rooms gone-SameRooms sound.rooms;
    occupants = gone-OccupantsOk;
    places = gone-PlacesOk;
  }

  leave_session-run :
      unlink s.live_member s.mem_list mt ≡ some k
      → leave_room mt s ≡ ok tt t
      → (remove_member mt >> free_member mt) s ≡ ok tt (gone t mt k)
  unfolding remove_member leave_session free_member
  leave_session-run run first = rw first (rw (l.own.live_member, l.mem_list, run))

-- Removing a member of a well-formed session and freeing it follows no bad pointer. The state
-- that is left is well formed without that member, in the list of members and in every room's;
-- its memory is freed, and the other members and the rooms keep their data.
pub remove_member-Gone :
    (s : Server) (g : Session) (mt : Ptr)
    → IsSound s g
    → has mt g.members ≡ true
    → (t : Server) × ((remove_member mt >> free_member mt) s ≡ ok tt t) × Gone mt s t g
remove_member-Gone s g mt sound there =
    let (t, first, l) = leave_room-Left s g sound mt there in
    let (k, run, u) =
      unlink-erase s.live_member s.mem_list mt g.members sound.members.shape sound.members.live
        there in
    (
      gone t mt k,
      leave_session-run s g sound mt there t l k u run first,
      record {
        sound = gone-IsSound s g sound mt there t l k u;
        freed = ap (λ f. update f mt false) l.own.live_member;
        member_id = l.own.member_id;
        member_name = l.own.member_name;
        quiet_flag = l.own.quiet_flag;
        sent = l.own.sent;
        current_room = l.current_room;
        empty_flag = l.empty_flag;
        rooms = gone-SameRooms s g sound mt there t l k u;
      },
    )
