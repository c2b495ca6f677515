-- ===== src/Tests/Sample.antt =====
-- A session of two members and two rooms: member 1 is in the room 10, member 2 in none, and the
-- room 20 is empty.
use csc469_advanced_operatin.Base.{
  ◌≡◌, refl, ◌⊎◌, inl, inr, true, [], ◌∷◌, ◌||◌, arith, ◌==◌, has, if◌then◌else◌, sym, subst,
}
use csc469_advanced_operatin.Dll.{Ptr, null}
use csc469_advanced_operatin.Server.State.{Server}
use csc469_advanced_operatin.Server.Same.{SameShape, MembersOk-fields, RoomOk-same}
use csc469_advanced_operatin.Server.Sound.{Session, MembersOk, RoomsOk, RoomOk, IsSound}

abbrev pub sample : Server
sample = record {
  live_member = λ p. p == 1 || p == 2;
  member_id = λ p. if p == 1 then 11 else 22;
  member_name = λ p. if p == 1 then b'a' ∷ [] else b'b' ∷ [];
  quiet_flag = λ p. if p == 1 then 1 else 0;
  udp_addr = λ p. p;
  udp_port = λ p. 7000;
  num_chat_msgs = λ p. 0;
  num_bytes_rcved = λ p. 0;
  mem_list = record {
    next = λ p. if p == 1 then 2 else null;
    prev = λ p. if p == 2 then 1 else null;
    head = 1;
    tail = 2;
  };
  next_room_member = λ p. null;
  prev_room_member = λ p. null;
  current_room = λ p. if p == 1 then 10 else null;
  live_room = λ p. p == 10 || p == 20;
  room_name = λ p. if p == 10 then b'r' ∷ [] else b's' ∷ [];
  next_room = λ p. if p == 10 then 20 else null;
  num_of_members = λ p. if p == 10 then 1 else 0;
  empty_flag = λ p. if p == 10 then 0 else 1;
  member_list_head = λ p. if p == 10 then 1 else null;
  member_list_tail = λ p. if p == 10 then 1 else null;
  room_list_head = 10;
  room_list_tail = 20;
  total_num_of_members = 2;
  total_num_of_rooms = 2;
  sent = [];
}

abbrev pub session : Session
session = record {
  members = 1 ∷ 2 ∷ [];
  rooms = 10 ∷ 20 ∷ [];
  occupants = λ r. if r == 10 then 1 ∷ [] else [];
}

sample-MembersOk : MembersOk sample (1 ∷ 2 ∷ [])
sample-MembersOk = record {
  null_free = refl;
  shape = record { first = refl; last = refl; linked = omega arith; distinct = (refl, (refl, tt)) };
  live = (refl, (refl, tt));
  count = refl;
  bound = omega arith;
}

sample-RoomsOk : RoomsOk sample (10 ∷ 20 ∷ [])
sample-RoomsOk = record {
  null_free = refl;
  chain = omega arith;
  live = (refl, (refl, tt));
  distinct = (refl, (refl, tt));
  count = refl;
  bound = omega arith;
  tail = inl refl;
}

room_cases : (r : Ptr) → has r (10 ∷ 20 ∷ []) ≡ true → (r ≡ 10) ⊎ (r ≡ 20)
room_cases r h = ground arith

member_cases : (r : Ptr) → has r (1 ∷ 2 ∷ []) ≡ true → (r ≡ 1) ⊎ (r ≡ 2)
member_cases r h = ground arith

sample-RoomOk_10 : RoomOk sample (1 ∷ []) 10
sample-RoomOk_10 = record {
  shape = record { first = refl; last = refl; linked = omega arith; distinct = (refl, tt) };
  count = refl;
  bound = omega arith;
  there = λ p h. ground arith;
}

sample-RoomOk_20 : RoomOk sample [] 20
sample-RoomOk_20 = record {
  shape = record { first = refl; last = refl; linked = tt; distinct = tt };
  count = refl;
  bound = omega arith;
  there = λ p h. ground arith;
}

pub sample-IsSound : IsSound sample session
sample-IsSound = record {
  members = sample-MembersOk;
  rooms = sample-RoomsOk;
  occupants = λ r h. elim (room_cases r h) [
    | inl e ↦ subst (λ q. RoomOk sample (session.occupants q) q) (sym e) sample-RoomOk_10
    | inr e ↦ subst (λ q. RoomOk sample (session.occupants q) q) (sym e) sample-RoomOk_20
  ];
  places = record {
    inside = λ r p h k. ground arith;
    current = λ p h. elim (member_cases p h) [
      | inl e ↦ rw e (inr (refl, refl))
      | inr e ↦ rw e (inl refl)
    ];
  };
}

-- The sample after its tail pointer was reset.
abbrev pub lost_tail : Server
lost_tail = record sample { room_list_tail = null }

lost_tail-RoomsOk : RoomsOk lost_tail (10 ∷ 20 ∷ [])
lost_tail-RoomsOk = record {
  null_free = refl;
  chain = omega arith;
  live = (refl, (refl, tt));
  distinct = (refl, (refl, tt));
  count = refl;
  bound = omega arith;
  tail = inr refl;
}

pub lost_tail-IsSound : IsSound lost_tail session
lost_tail-IsSound = record {
  members = MembersOk-fields sample lost_tail (1 ∷ 2 ∷ []) refl refl refl sample-IsSound.members;
  rooms = lost_tail-RoomsOk;
  occupants = λ r m.
      RoomOk-same sample lost_tail shape (session.occupants r) r (sample-IsSound.occupants r m);
  places = record {
    inside = sample-IsSound.places.inside;
    current = sample-IsSound.places.current;
  };
}
  where
    shape : SameShape sample lost_tail
    shape = record {
      live_member = refl;
      mem_list = refl;
      total_num_of_members = refl;
      next_room_member = refl;
      prev_room_member = refl;
      member_list_head = refl;
      member_list_tail = refl;
      current_room = refl;
      num_of_members = refl;
    }
