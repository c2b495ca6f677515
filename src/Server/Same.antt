-- ===== src/Server/Same.antt =====
-- Being well formed rests on the lists, the counts and the allocation alone.
use csc469_advanced_operatin.Base.{◌≡◌, ◌∙◌, List}
use csc469_advanced_operatin.Dll.{Ptr}
use csc469_advanced_operatin.Server.State.{Server}
use csc469_advanced_operatin.Server.Sound.{
  Session, MembersOk, RoomOk, IsSound, SameRooms, RoomsOk-same,
}

pub record SameShape (s t : Server) : Type 0 where
  pub live_member : t.live_member ≡ s.live_member
  pub mem_list : t.mem_list ≡ s.mem_list
  pub total_num_of_members : t.total_num_of_members ≡ s.total_num_of_members
  pub next_room_member : t.next_room_member ≡ s.next_room_member
  pub prev_room_member : t.prev_room_member ≡ s.prev_room_member
  pub member_list_head : t.member_list_head ≡ s.member_list_head
  pub member_list_tail : t.member_list_tail ≡ s.member_list_tail
  pub current_room : t.current_room ≡ s.current_room
  pub num_of_members : t.num_of_members ≡ s.num_of_members

pub MembersOk-fields :
    (s t : Server) (xs : List Ptr)
    → t.live_member ≡ s.live_member
    → t.mem_list ≡ s.mem_list
    → t.total_num_of_members ≡ s.total_num_of_members
    → MembersOk s xs
    → MembersOk t xs
MembersOk-fields s t xs v l c m = record {
  null_free = rw v m.null_free;
  shape = rw l m.shape;
  live = rw v m.live;
  count = c ∙ m.count;
  bound = m.bound;
}

module _ (s t : Server) (e : SameShape s t) where
  pub MembersOk-same : (xs : List Ptr) → MembersOk s xs → MembersOk t xs
  MembersOk-same xs = MembersOk-fields s t xs e.live_member e.mem_list e.total_num_of_members

  pub RoomOk-same : (xs : List Ptr) (r : Ptr) → RoomOk s xs r → RoomOk t xs r
  RoomOk-same xs r o = record {
    shape =
        rw (e.next_room_member, e.prev_room_member, e.member_list_head, e.member_list_tail) o.shape;
    count = (λ i. e.num_of_members i r) ∙ o.count;
    bound = o.bound;
    there = λ p h. (λ i. e.current_room i p) ∙ o.there p h;
  }

  pub IsSound-same : SameRooms s t → (g : Session) → IsSound s g → IsSound t g
  IsSound-same r g h = record {
    members = MembersOk-same g.members h.members;
    rooms = RoomsOk-same s t g.rooms r h.rooms;
    occupants = λ r m. RoomOk-same (g.occupants r) r (h.occupants r m);
    places = record {
      inside = h.places.inside;
      current = λ p m. rw e.current_room (h.places.current p m);
    };
  }
