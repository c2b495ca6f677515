-- ===== src/Server/Sound.antt =====
-- When the server's memory is well formed, and what it then stands for.
use csc469_advanced_operatin.Base.{
  ◌≤◌, ◌≡◌, refl, subst, ◌∙◌, ◌≢◌, ◌⊎◌, Bool, true, false, List, [], ◌∷◌, ◌++◌, ◌+◌, arith, ◌==◌,
  has, Distinct, length, if◌then◌else◌,
}
use csc469_advanced_operatin.Dll.{Ptr, null, update}
use csc469_advanced_operatin.Dll.Shape.{lst, IsDll, All}
use csc469_advanced_operatin.Dll.Unlink.{erase}
use csc469_advanced_operatin.Wire.Header.{
  max_num_of_rooms, max_num_of_members_per_room, max_num_of_members,
}
use csc469_advanced_operatin.Server.State.{Server, room_members}

-- The members and the rooms in the order of their lists, and the members in each room.
pub record Session : Type 0 where
  pub members : List Ptr
  pub rooms : List Ptr
  pub occupants : Ptr → List Ptr

-- From `p` the links lead through `xs` to `NULL`.
abbrev pub Chain : (Ptr → Ptr) → Ptr → List Ptr → Type 0
Chain next p [] = p ≡ null
Chain next p (x ∷ xs) = (p ≡ x) × (x ≢ null) × Chain next (next x) xs

pub record MembersOk (s : Server) (members : List Ptr) : Type 0 where
  pub null_free : s.live_member null ≡ false
  pub shape : IsDll s.mem_list members
  pub live : All s.live_member members
  pub count : s.total_num_of_members ≡ length members
  pub bound : length members ≤ max_num_of_members

-- The tail is the last room, or was lost by `remove_room`.
pub record RoomsOk (s : Server) (rooms : List Ptr) : Type 0 where
  pub null_free : s.live_room null ≡ false
  pub chain : Chain s.next_room s.room_list_head rooms
  pub live : All s.live_room rooms
  pub distinct : Distinct rooms
  pub count : s.total_num_of_rooms ≡ length rooms
  pub bound : length rooms ≤ max_num_of_rooms
  pub tail : (s.room_list_tail ≡ lst null rooms) ⊎ (s.room_list_tail ≡ null)

pub record RoomOk (s : Server) (occupants : List Ptr) (room : Ptr) : Type 0 where
  pub shape : IsDll (room_members s room) occupants
  pub count : s.num_of_members room ≡ length occupants
  pub bound : length occupants ≤ max_num_of_members_per_room
  pub there : (p : Ptr) → has p occupants ≡ true → s.current_room p ≡ room

abbrev pub OccupantsOk : Server → List Ptr → (Ptr → List Ptr) → Type 0
OccupantsOk s rooms occupants = (r : Ptr) → has r rooms ≡ true → RoomOk s (occupants r) r

pub record PlacesOk (s : Server) (g : Session) : Type 0 where
  pub inside :
      (r p : Ptr) → has r g.rooms ≡ true → has p (g.occupants r) ≡ true → has p g.members ≡ true
  pub current :
      (p : Ptr)
      → has p g.members ≡ true
      → (s.current_room p ≡ null)
        ⊎ ((has (s.current_room p) g.rooms ≡ true)
            × (has p (g.occupants (s.current_room p)) ≡ true))

pub record IsSound (s : Server) (g : Session) : Type 0 where
  pub members : MembersOk s g.members
  pub rooms : RoomsOk s g.rooms
  pub occupants : OccupantsOk s g.rooms g.occupants
  pub places : PlacesOk s g

pub All-of_has :
    (live : Ptr → Bool) (xs : List Ptr)
    → ((a : Ptr) → has a xs ≡ true → live a ≡ true)
    → All live xs
All-of_has live [] h = tt
All-of_has live (x ∷ xs) h = (h x (ground arith), All-of_has live xs λ a m. h a (ground arith))

pub has-erase_self : (p : Ptr) (xs : List Ptr) → Distinct xs → has p (erase p xs) ≡ false
unfolding erase
has-erase_self p [] d = refl
has-erase_self p (x ∷ xs) d = ground (arith, has-erase_self p xs d.1)

pub has-erase : (a p : Ptr) (xs : List Ptr) → has a (erase p xs) ≡ true → has a xs ≡ true
unfolding erase
has-erase a p [] h = h
has-erase a p (x ∷ xs) h = ground (arith, has-erase a p xs)

pub has-erase_ne : (a p : Ptr) (xs : List Ptr) → a ≢ p → has a xs ≡ true → has a (erase p xs) ≡ true
unfolding erase
has-erase_ne a p [] n h = h
has-erase_ne a p (x ∷ xs) n h = ground (arith, has-erase_ne a p xs n)

pub erase_none : (p : Ptr) (xs : List Ptr) → has p xs ≡ false → erase p xs ≡ xs
unfolding erase
erase_none p [] h = refl
erase_none p (x ∷ xs) h = ground (arith, erase_none p xs)

pub not-has-erase : (a p : Ptr) (xs : List Ptr) → has a xs ≡ false → has a (erase p xs) ≡ false
unfolding erase
not-has-erase a p [] h = h
not-has-erase a p (x ∷ xs) h = ground (arith, not-has-erase a p xs)

pub length-erase : (p : Ptr) (xs : List Ptr) → has p xs ≡ true → length xs ≡ length (erase p xs) + 1
unfolding erase
length-erase p [] h = ground arith
length-erase p (x ∷ xs) h = ground (arith, length-erase p xs)

pub length-erase_le : (p : Ptr) (xs : List Ptr) → length (erase p xs) ≤ length xs
unfolding erase
length-erase_le p [] = omega arith
length-erase_le p (x ∷ xs) = ground (arith, length-erase_le p xs)

-- A state in which `mt` is in no room's list.
abbrev pub IsOutside : Ptr → Session → Type 0
IsOutside mt g = (r : Ptr) → has r g.rooms ≡ true → has mt (g.occupants r) ≡ false

abbrev pub without_occupant : Ptr → Session → Session
without_occupant mt g = record g { occupants = λ r. erase mt (g.occupants r) }

abbrev pub without_member : Ptr → Session → Session
without_member mt g = record g {
  members = erase mt g.members;
  occupants = λ r. erase mt (g.occupants r);
}

abbrev pub with_occupant : Ptr → Ptr → Session → Session
with_occupant mt room g = record g {
  occupants = λ r. if r == room then g.occupants r ++ (mt ∷ []) else g.occupants r;
}

-- The state kept by what moves members between rooms: the members' own data, what was sent, and
-- the list of the rooms.
pub record SameData (s t : Server) : Type 0 where
  pub live_member : t.live_member ≡ s.live_member
  pub member_id : t.member_id ≡ s.member_id
  pub member_name : t.member_name ≡ s.member_name
  pub quiet_flag : t.quiet_flag ≡ s.quiet_flag
  pub udp_addr : t.udp_addr ≡ s.udp_addr
  pub udp_port : t.udp_port ≡ s.udp_port
  pub num_chat_msgs : t.num_chat_msgs ≡ s.num_chat_msgs
  pub num_bytes_rcved : t.num_bytes_rcved ≡ s.num_bytes_rcved
  pub sent : t.sent ≡ s.sent

pub record SameRooms (s t : Server) : Type 0 where
  pub live_room : t.live_room ≡ s.live_room
  pub room_name : t.room_name ≡ s.room_name
  pub next_room : t.next_room ≡ s.next_room
  pub room_list_head : t.room_list_head ≡ s.room_list_head
  pub room_list_tail : t.room_list_tail ≡ s.room_list_tail
  pub total_num_of_rooms : t.total_num_of_rooms ≡ s.total_num_of_rooms

pub RoomsOk-same :
    (s t : Server) (rooms : List Ptr) → SameRooms s t → RoomsOk s rooms → RoomsOk t rooms
RoomsOk-same s t rooms e r = record {
  null_free = rw e.live_room r.null_free;
  chain = rw (e.next_room, e.room_list_head) r.chain;
  live = rw e.live_room r.live;
  distinct = r.distinct;
  count = e.total_num_of_rooms ∙ r.count;
  bound = r.bound;
  tail = rw e.room_list_tail r.tail;
}

pub Chain-not-null :
    (next : Ptr → Ptr) (p : Ptr) (xs : List Ptr) → Chain next p xs → has null xs ≡ false
Chain-not-null next p [] c = refl
Chain-not-null next p (x ∷ xs) c = ground (arith, Chain-not-null next (next x) xs)

pub update-eq_false :
    (live : Ptr → Bool) (p q : Ptr) → live q ≡ false → update live p false q ≡ false
unfolding update
update-eq_false live p q e = ground arith

pub not-has_erased :
    (mt : Ptr) (xs : List Ptr) → Distinct xs → (p : Ptr) → has p (erase mt xs) ≡ true → p ≢ mt
not-has_erased mt xs d p h e =
    let out = has-erase_self mt xs d in
    let back = subst (λ q. has q (erase mt xs) ≡ true) e h in ground arith

pub Distinct-erase : (p : Ptr) (xs : List Ptr) → Distinct xs → Distinct (erase p xs)
unfolding erase
Distinct-erase p [] d = tt
Distinct-erase p (x ∷ xs) d = ground (arith, Distinct-erase p xs d.1, not-has-erase x p xs)
