-- ===== src/Server/Occupants.antt =====
-- One room gets a new list of members; the others keep theirs.
use csc469_advanced_operatin.Base.{ℕ, ◌≤◌, ◌≡◌, refl, ◌∙◌, ◌≢◌, true, List, has, length}
use csc469_advanced_operatin.Dll.{Ptr, update, Dll}
use csc469_advanced_operatin.Dll.Shape.{IsDll, IsDll-same, update_self, update_ne}
use csc469_advanced_operatin.Wire.Header.{max_num_of_members_per_room}
use csc469_advanced_operatin.Server.State.{Server, room_members, put_room_members}
use csc469_advanced_operatin.Server.Sound.{RoomOk, SameData, SameRooms}

-- The state after `room` got the list `k` of `n` members.
abbrev pub with_list : Server → Ptr → Dll → ℕ → Server
with_list s room k n = record (put_room_members s room k) {
  num_of_members = update s.num_of_members room n;
}

module _ (s : Server) (room : Ptr) (k : Dll) (n : ℕ) (xs : List Ptr) where
  pub with_list-RoomOk_self :
      IsDll k xs
      → n ≡ length xs
      → length xs ≤ max_num_of_members_per_room
      → ((p : Ptr) → has p xs ≡ true → s.current_room p ≡ room)
      → RoomOk (with_list s room k n) xs room
  with_list-RoomOk_self d c b t = record {
    shape =
        IsDll-same k _ xs (update_self s.member_list_head room k.head)
          (update_self s.member_list_tail room k.tail) (λ a m. (refl, refl)) d;
    count = update_self s.num_of_members room n ∙ c;
    bound = b;
    there = t;
  }

  pub with_list-RoomOk_other :
      (q : Ptr)
      → q ≢ room
      → ((a : Ptr)
          → has a xs ≡ true
          → (k.next a ≡ s.next_room_member a) × (k.prev a ≡ s.prev_room_member a))
      → RoomOk s xs q
      → RoomOk (with_list s room k n) xs q
  with_list-RoomOk_other q ne same o = record {
    shape =
        IsDll-same (room_members s q) _ xs (update_ne s.member_list_head room k.head q ne)
          (update_ne s.member_list_tail room k.tail q ne) same o.shape;
    count = update_ne s.num_of_members room n q ne ∙ o.count;
    bound = o.bound;
    there = o.there;
  }

pub SameData-refl : (s : Server) → SameData s s
SameData-refl s = record {
  live_member = refl;
  member_id = refl;
  member_name = refl;
  quiet_flag = refl;
  udp_addr = refl;
  udp_port = refl;
  num_chat_msgs = refl;
  num_bytes_rcved = refl;
  sent = refl;
}

pub SameRooms-refl : (s : Server) → SameRooms s s
SameRooms-refl s = record {
  live_room = refl;
  room_name = refl;
  next_room = refl;
  room_list_head = refl;
  room_list_tail = refl;
  total_num_of_rooms = refl;
}

pub with_list-SameData :
    (s : Server) (room : Ptr) (k : Dll) (n : ℕ) → SameData s (with_list s room k n)
with_list-SameData s room k n = record {
  live_member = refl;
  member_id = refl;
  member_name = refl;
  quiet_flag = refl;
  udp_addr = refl;
  udp_port = refl;
  num_chat_msgs = refl;
  num_bytes_rcved = refl;
  sent = refl;
}

pub with_list-SameRooms :
    (s : Server) (room : Ptr) (k : Dll) (n : ℕ) → SameRooms s (with_list s room k n)
with_list-SameRooms s room k n = record {
  live_room = refl;
  room_name = refl;
  next_room = refl;
  room_list_head = refl;
  room_list_tail = refl;
  total_num_of_rooms = refl;
}
