-- ===== src/Client/Commands.antt =====
-- What the user types: `handle_command_input`, `handle_chatmsg_input` and `handle_input`.
use csc469_advanced_operatin.Base.{
  ℕ, ◌+◌, ◌%◌, ◌^◌, Bool, false, ◌||◌, Option, none, some, List, [], ◌∷◌, ◌++◌, ltb, ◌==◌,
  if◌then◌else◌, length, take, drop, replicate, get_or,
}
use csc469_advanced_operatin.Base.Bytes.{u16_bytes}
use csc469_advanced_operatin.Wire.Header.{max_room_name_len, chat_header_size, max_msg_len}
use csc469_advanced_operatin.Client.State.{
  ok, chat, Cmd, and_then, put, Result, success, failure, disconnected, name_taken,
}
use csc469_advanced_operatin.Client.Requests.{
  strncpy, handle_room_list_req, handle_create_room_req, handle_member_list_req,
  handle_switch_room_req, handle_quit_req,
}
use csc469_advanced_operatin.Client.Connect.{reconnect}

pub data Command : Type 0 where
  list_rooms quit : Command
  create list_members switch : List ℕ → Command

-- Is there a space, a tab or a newline?
unfoldable pub has_blank : List ℕ → Bool
has_blank [] = false
has_blank (b ∷ bs) = (b == b' ' || b == 9 || b == 10) || has_blank bs

-- The checks of the format for a command with nothing behind it, and for one with a room's name.
unfoldable pub alone : Command → List ℕ → Option Command
alone cmd [] = some cmd
alone cmd (_ ∷ _) = none

unfoldable pub with_name : (List ℕ → Command) → List ℕ → Option Command
with_name cmd [] = none
with_name cmd (b ∷ name) =
    if b == b' '
    then if has_blank name || ltb max_room_name_len (length name) then none else some (cmd name)
    else none

-- The line behind the `!`; `none` is an error in its format.
unfoldable pub parse_command : List ℕ → Option Command
parse_command [] = none
parse_command (cmd ∷ line) =
    if cmd == b'r'
    then alone list_rooms line
    else if cmd == b'q'
    then alone quit line
    else if cmd == b'c'
    then with_name create line
    else if cmd == b'm'
    then with_name list_members line
    else if cmd == b's'
    then with_name switch line
    else none

module _ (beyond : List ℕ) where
  unfoldable pub handle_command : Command → Cmd Result
  handle_command list_rooms = handle_room_list_req beyond
  handle_command quit = handle_quit_req beyond
  handle_command (create name) = handle_create_room_req beyond name
  handle_command (list_members name) = handle_member_list_req beyond name
  handle_command (switch name) = handle_switch_room_req beyond name

  unfoldable pub on_result : (fuel : ℕ) → Result → Cmd (Unit {0})
  on_result fuel success c = ok tt c
  on_result fuel failure c = ok tt c
  on_result fuel disconnected c = reconnect beyond fuel c
  on_result fuel name_taken c = ok tt c

  run_command : (fuel : ℕ) → Option Command → Cmd (Unit {0})
  run_command fuel none c = ok tt c
  run_command fuel (some cmd) c = and_then (handle_command cmd c) (on_result fuel)

  unfoldable pub handle_command_input : (fuel : ℕ) → List ℕ → Cmd (Unit {0})
  unfolding run_command
  handle_command_input fuel line = run_command fuel (parse_command line)

  -- The datagram: the id in the first two of the name's 24 bytes, the length, the text.
  unfoldable pub chat_msg : (id : ℕ) → List ℕ → List ℕ
  chat_msg id inputdata =
      let size = (length inputdata + chat_header_size + 1) % 2 ^ 16 in
      take size
        (u16_bytes id ++ (replicate 22 0 ++ (u16_bytes size ++ strncpy max_msg_len inputdata)))

  unfoldable pub handle_chatmsg_input : List ℕ → Cmd (Unit {0})
  handle_chatmsg_input inputdata c = ok tt (put (chat (chat_msg c.member_id inputdata)) c)

  -- A newline at the end goes.
  unfoldable pub chop : List ℕ → List ℕ
  chop [] = []
  chop (b ∷ []) = if b == 10 then [] else b ∷ []
  chop (b ∷ d ∷ bs) = b ∷ chop (d ∷ bs)

  -- One line of input.
  unfoldable pub handle_line : (fuel : ℕ) → List ℕ → Cmd (Unit {0})
  handle_line fuel buf c =
      if get_or buf 0 0 == b'!'
      then handle_command_input fuel (drop 1 (chop buf)) c
      else if length c.last_channel == 0
      then ok tt c
      else handle_chatmsg_input buf c
