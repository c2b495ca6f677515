-- ===== src/Server/Answer.antt =====
-- What a request with one reply leaves: a well-formed state and the reply.
use csc469_advanced_operatin.Base.{ℕ, ◌+◌, ◌≡◌, ◌≤◌, refl, true, ltb, List, [], ◌∷◌, ◌++◌, length}
use csc469_advanced_operatin.Dll.{Ptr}
use csc469_advanced_operatin.Wire.Header.{
  control_msg, control_header_size, max_msg_len, max_room_name_len,
}
use csc469_advanced_operatin.Server.State.{Server, Output, reply, ok}
use csc469_advanced_operatin.Server.Reply.{send_control_msg_reply}
use csc469_advanced_operatin.Server.Same.{SameShape, IsSound-same}
use csc469_advanced_operatin.Server.Sound.{Session, IsSound, SameRooms}

-- The reply of the given type and text to the member `mt` went to `fd`, the state is well formed
-- for `g`, and the members keep their own data.
pub record Answered (fd : ℕ) (mt : Ptr) (type : ℕ) (text : List ℕ) (s t : Server) (g : Session)
    : Type 0 where
  pub sound : IsSound t g
  pub sent : t.sent ≡ s.sent ++ reply fd (control_msg type (s.member_id mt) text) ∷ []
  pub live_member : t.live_member ≡ s.live_member
  pub member_id : t.member_id ≡ s.member_id
  pub member_name : t.member_name ≡ s.member_name
  pub quiet_flag : t.quiet_flag ≡ s.quiet_flag
  pub name_fits :
      (r : Ptr)
      → length (s.room_name r) ≤ max_room_name_len
      → length (t.room_name r) ≤ max_room_name_len

abbrev pub sending : Server → Output → Server
sending s out = record s { sent = s.sent ++ out ∷ [] }

pub send_control_msg_reply-ok :
    (fd type id : ℕ) (text : List ℕ) (s : Server)
    → ltb (control_header_size + length text) max_msg_len ≡ true
    → send_control_msg_reply fd type id text s
      ≡ ok tt (sending s (reply fd (control_msg type id text)))
unfolding send_control_msg_reply
send_control_msg_reply-ok fd type id text s e = rw e refl

sending-SameShape : (s : Server) (out : Output) → SameShape s (sending s out)
sending-SameShape s out = record {
  live_member = refl;
  mem_list = refl;
  total_num_of_members = refl;
  next_room_member = refl;
  prev_room_member = refl;
  member_list_head = refl;
  member_list_tail = refl;
  current_room = refl;
  num_of_members = refl;
}

sending-SameRooms : (s : Server) (out : Output) → SameRooms s (sending s out)
sending-SameRooms s out = record {
  live_room = refl;
  room_name = refl;
  next_room = refl;
  room_list_head = refl;
  room_list_tail = refl;
  total_num_of_rooms = refl;
}

pub sending-IsSound :
    (s : Server) (out : Output) (g : Session) → IsSound s g → IsSound (sending s out) g
sending-IsSound s out =
    IsSound-same s (sending s out) (sending-SameShape s out) (sending-SameRooms s out)

-- A reply alone leaves the session as it is.
pub send_control_msg_reply-Answered :
    (fd : ℕ) (mt : Ptr) (type : ℕ) (text : List ℕ) (s : Server) (g : Session)
    → IsSound s g
    → ltb (control_header_size + length text) max_msg_len ≡ true
    → (t : Server) × (send_control_msg_reply fd type (s.member_id mt) text s ≡ ok tt t)
      × Answered fd mt type text s t g
send_control_msg_reply-Answered fd mt type text s g sound e =
    let out = reply fd (control_msg type (s.member_id mt) text) in
    (
      sending s out,
      send_control_msg_reply-ok fd type (s.member_id mt) text s e,
      record {
        sound = sending-IsSound s out g sound;
        sent = refl;
        live_member = refl;
        member_id = refl;
        member_name = refl;
        quiet_flag = refl;
        name_fits = λ r f. f;
      },
    )
