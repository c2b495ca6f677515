-- ===== src/Server/Requests.antt =====
-- The `process_*_request` functions of A3/server_util.c, but for the registration. `text` is the
-- C string in the message's data.
use csc469_advanced_operatin.Base.{
  ℕ, zero, suc, ◌+◌, ◌/◌, ◌%◌, List, [], ◌∷◌, ◌++◌, ltb, ◌==◌, if◌then◌else◌, length,
}
use csc469_advanced_operatin.Base.Bytes.{codes}
use csc469_advanced_operatin.Dll.{Ptr, null}
use csc469_advanced_operatin.Wire.Header.{max_msg_len, max_num_of_members_per_room}
use csc469_advanced_operatin.Wire.Msg
use csc469_advanced_operatin.Server.State.{
  Server, ok, no_fuel, Cmd, ◌>>=◌, ◌>>◌, and_then, guard, c_room_name,
}
use csc469_advanced_operatin.Server.Reply.{send_control_msg_reply}
use csc469_advanced_operatin.Server.Rooms.{find_room, create_room}
use csc469_advanced_operatin.Server.Members.{leave_room, enter_room, remove_member, free_member}

-- The texts of the replies.
abbrev pub room_name_too_long : List ℕ
room_name_too_long = codes "Room name too long!"

abbrev pub too_many_rooms : List ℕ
too_many_rooms = codes "Number of rooms reached maximum!"

abbrev pub room_exists : List ℕ
room_exists = codes "Room exists!"

abbrev pub no_rooms : List ℕ
no_rooms = codes "No rooms available!"

abbrev pub no_room_yet : List ℕ
no_room_yet = codes "No room available yet!"

abbrev pub room_is_full : List ℕ
room_is_full = codes "Room is full!"

abbrev pub already_there : List ℕ
already_there = codes "Already in this room!"

abbrev pub room_not_found : List ℕ
room_not_found = codes "Room not found!"

abbrev pub nobody_there : List ℕ
nobody_there = codes "No member in this room!"

unfoldable pub create_room_reply : ℕ → ℕ → ℕ → Cmd (Unit {0})
create_room_reply fd id ret =
    if ret == 1
    then send_control_msg_reply fd Msg.create_room_fail id room_name_too_long
    else if ret == 2
    then send_control_msg_reply fd Msg.create_room_fail id too_many_rooms
    else if ret == 3
    then send_control_msg_reply fd Msg.create_room_fail id room_exists
    else send_control_msg_reply fd Msg.create_room_succ id []

unfoldable pub process_create_room_request :
    (rt : Ptr) (fd : ℕ) (mt : Ptr) → List ℕ → Cmd (Unit {0})
unfolding create_room_reply
process_create_room_request rt fd mt text =
    create_room rt text >>= λ ret s. create_room_reply fd (s.member_id mt) ret s

-- `%d` of an `int` that is not negative; ten digits are enough.
unfoldable pub digits : ℕ → ℕ → List ℕ
digits zero n = []
digits (suc k) n =
    let more = digits k (n / 10) in
    if ltb n 10 then (b'0' + n) ∷ [] else more ++ ((b'0' + n % 10) ∷ [])

abbrev pub decimal : ℕ → List ℕ
decimal = digits 10

-- One entry of the room list, `[%s (%d)]`, and a space behind it unless it is the tail's.
unfoldable pub room_entry : Server → Ptr → List ℕ
unfolding c_room_name digits
room_entry s rt =
    (b'[' ∷ c_room_name s rt)
    ++ ((b' ' ∷ b'(' ∷ decimal (s.num_of_members rt))
        ++ (b')' ∷ b']' ∷ (if rt == s.room_list_tail then [] else b' ' ∷ [])))

unfoldable pub room_entries : ℕ → Ptr → Cmd (List ℕ)
room_entries zero rt s = no_fuel
room_entries (suc k) rt s =
    let rest = room_entries k (s.next_room rt) s in
    if rt == null
    then ok [] s
    else guard (s.live_room rt) (and_then rest λ more. ok (room_entry s rt ++ more))

-- `list` has `MAX_MSG_LEN` bytes, the terminator among them.
unfoldable pub process_room_list_request : (fd : ℕ) (mt : Ptr) → Cmd (Unit {0})
process_room_list_request fd mt s =
    if s.total_num_of_rooms == 0
    then send_control_msg_reply fd Msg.room_list_fail (s.member_id mt) no_rooms s
    else and_then (room_entries (s.total_num_of_rooms + 1) s.room_list_head s) λ text t.
      guard (ltb (length text) max_msg_len)
        (send_control_msg_reply fd Msg.room_list_succ (t.member_id mt) text t)

-- The branch of `process_switch_room_request` for the room that was found.
unfoldable pub switch_to : (fd : ℕ) (mt room : Ptr) → Cmd (Unit {0})
switch_to fd mt room s =
    if s.num_of_members room == max_num_of_members_per_room
    then send_control_msg_reply fd Msg.switch_room_fail (s.member_id mt) room_is_full s
    else if s.current_room mt == room
    then send_control_msg_reply fd Msg.switch_room_fail (s.member_id mt) already_there s
    else (leave_room mt
          >> enter_room mt room
          >> (λ t. send_control_msg_reply fd Msg.switch_room_succ (t.member_id mt) [] t))
        s

unfoldable pub process_switch_room_request : (fd : ℕ) (mt : Ptr) → List ℕ → Cmd (Unit {0})
process_switch_room_request fd mt text s =
    if s.room_list_head == null
    then send_control_msg_reply fd Msg.switch_room_fail (s.member_id mt) no_room_yet s
    else and_then (find_room (s.total_num_of_rooms + 1) text s.room_list_head s) λ room t.
      if room == null
      then send_control_msg_reply fd Msg.switch_room_fail (t.member_id mt) room_not_found t
      else switch_to fd mt room t

-- `(%s)`, and a space before the next one.
unfoldable pub member_entries : ℕ → Ptr → Cmd (List ℕ)
member_entries zero p s = no_fuel
member_entries (suc k) p s =
    let rest = member_entries k (s.next_room_member p) s in
    if p == null
    then ok [] s
    else guard (s.live_member p) (
        and_then rest λ more. ok (
          (b'(' ∷ s.member_name p)
          ++ (b')' ∷ (if s.next_room_member p == null then [] else b' ' ∷ more))))

unfoldable pub list_members : (fd : ℕ) (mt room : Ptr) → Cmd (Unit {0})
list_members fd mt room s =
    if s.member_list_head room == null
    then send_control_msg_reply fd Msg.member_list_fail (s.member_id mt) nobody_there s
    else and_then (member_entries (s.num_of_members room + 1) (s.member_list_head room) s) λ text t.
      guard (ltb (length text) max_msg_len)
        (send_control_msg_reply fd Msg.member_list_succ (t.member_id mt) text t)

unfoldable pub process_member_list_request : (fd : ℕ) (mt : Ptr) → List ℕ → Cmd (Unit {0})
process_member_list_request fd mt text s =
    if s.room_list_head == null
    then send_control_msg_reply fd Msg.member_list_fail (s.member_id mt) no_room_yet s
    else and_then (find_room (s.total_num_of_rooms + 1) text s.room_list_head s) λ room t.
      if room == null
      then send_control_msg_reply fd Msg.member_list_fail (t.member_id mt) room_not_found t
      else list_members fd mt room t

unfoldable pub process_quit_request : Ptr → Cmd (Unit {0})
process_quit_request mt = remove_member mt >> free_member mt
