-- ===== src/Wire/Header.antt =====
-- Constants of A3/defs.h and the control header, as `send_control_msg_reply` of A3/server_util.c
-- writes it and `ntoh_control_header` reads it.
use csc469_advanced_operatin.Base.{ℕ, ◌+◌, ◌*◌, List, ◌∷◌, ◌++◌, length, take, drop, replicate}
use csc469_advanced_operatin.Base.Bytes.{u16_bytes, u16_at}

abbrev pub max_member_name_len : ℕ
max_member_name_len = 24

abbrev pub max_room_name_len : ℕ
max_room_name_len = 24

abbrev pub max_num_of_rooms : ℕ
max_num_of_rooms = 40

abbrev pub max_num_of_members_per_room : ℕ
max_num_of_members_per_room = 30

abbrev pub max_num_of_members : ℕ
max_num_of_members = max_num_of_rooms * max_num_of_members_per_room

abbrev pub max_msg_len : ℕ
max_msg_len = 2048

-- `sizeof(struct control_msghdr)`
abbrev pub control_header_size : ℕ
control_header_size = 8

-- `sizeof(struct chat_msghdr)`
abbrev pub chat_header_size : ℕ
chat_header_size = 26

-- The bytes that `write` sends for a reply: the header, with `reserved` 0, and the text without
-- its terminator.
unfoldable pub control_msg : ℕ → ℕ → List ℕ → List ℕ
control_msg type id text =
    u16_bytes type
    ++ (u16_bytes id ++ (u16_bytes (control_header_size + length text) ++ (0 ∷ 0 ∷ text)))

-- The header of a received message after `ntoh_control_header`, and where its data begins.
pub record ControlHeader : Type 0 where
  pub msg_type : ℕ
  pub member_id : ℕ
  pub msg_len : ℕ

unfoldable pub ntoh_control_header : List ℕ → ControlHeader
ntoh_control_header buf = record {
  msg_type = u16_at 0 buf;
  member_id = u16_at 2 buf;
  msg_len = u16_at 4 buf;
}

abbrev pub msgdata : List ℕ → List ℕ
msgdata = drop control_header_size

-- `bzero` and then one `read` of at most `MAX_MSG_LEN` bytes.
unfoldable pub fill_buffer : List ℕ → List ℕ
fill_buffer bytes = take max_msg_len (bytes ++ replicate max_msg_len 0)
