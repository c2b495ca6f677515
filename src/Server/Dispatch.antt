-- ===== src/Server/Dispatch.antt =====
-- `process_control_msg` of A3/server_util.c: one control message on the connection `fd`.
use csc469_advanced_operatin.Base.{ℕ, ◌+◌, Option, none, some, List, ◌&&◌, leb, ◌==◌, if◌then◌else◌}
use csc469_advanced_operatin.Base.Bytes.{codes, c_string}
use csc469_advanced_operatin.Dll.{Ptr, null, update}
use csc469_advanced_operatin.Wire.Header.{ControlHeader, ntoh_control_header, msgdata, fill_buffer}
use csc469_advanced_operatin.Wire.Msg
use csc469_advanced_operatin.Server.State.{Server, ok, Cmd, ◌>>=◌}
use csc469_advanced_operatin.Server.Reply.{send_control_msg_reply}
use csc469_advanced_operatin.Server.Members.{find_member_with_id}
use csc469_advanced_operatin.Server.Requests.{
  process_create_room_request, process_room_list_request, process_switch_room_request,
  process_member_list_request, process_quit_request,
}
use csc469_advanced_operatin.Server.Register.{Env, process_register_request}

abbrev pub member_id_invalid : List ℕ
member_id_invalid = codes "Member id invalid!"

-- The requests that need a sender, as the `switch` tells them apart.
pub data Request : Type 0 where
  room_list member_list switch_room create_room keep_alive quit unrecognized : Request

unfoldable pub request_of : ℕ → Request
request_of type =
    if type == Msg.room_list_request
    then Request.room_list
    else if type == Msg.member_list_request
    then Request.member_list
    else if type == Msg.switch_room_request
    then Request.switch_room
    else if type == Msg.create_room_request
    then Request.create_room
    else if type == Msg.member_keep_alive
    then Request.keep_alive
    else if type == Msg.quit_request
    then Request.quit
    else Request.unrecognized

-- The cases of the `switch` for a sender `mt` with a valid id.
unfoldable pub process_request : Request → (fd : ℕ) → Env → (mt : Ptr) → List ℕ → Cmd (Unit {0})
process_request Request.room_list fd env mt buf = process_room_list_request fd mt
process_request Request.member_list fd env mt buf =
    process_member_list_request fd mt (c_string (msgdata buf))
process_request Request.switch_room fd env mt buf =
    process_switch_room_request fd mt (c_string (msgdata buf))
process_request Request.create_room fd env mt buf =
    process_create_room_request env.fresh fd mt (c_string (msgdata buf))
process_request Request.keep_alive fd env mt buf = ok tt
process_request Request.quit fd env mt buf = process_quit_request mt
process_request Request.unrecognized fd env mt buf = ok tt

-- `mt->quiet_flag = 0`
unfoldable pub clear_quiet : Ptr → Server → Server
clear_quiet mt s = record s { quiet_flag = update s.quiet_flag mt 0 }

unfoldable pub process_member_msg : ControlHeader → (fd : ℕ) → Env → List ℕ → Cmd (Unit {0})
process_member_msg cmh fd env buf = find_member_with_id cmh.member_id >>= λ mt s.
    if mt == null
    then send_control_msg_reply fd (cmh.msg_type + 2) 0 member_id_invalid s
    else process_request (request_of cmh.msg_type) fd env mt buf (clear_quiet mt s)

unfoldable pub process_control_buf : (fd : ℕ) → Env → List ℕ → Cmd (Unit {0})
process_control_buf fd env buf =
    let cmh = ntoh_control_header buf in
    if leb Msg.room_list_request cmh.msg_type && leb cmh.msg_type Msg.quit_request
    then process_member_msg cmh fd env buf
    else if cmh.msg_type == Msg.register_request
    then process_register_request fd env buf
    else ok tt

-- `none` is a `read` that fails.
unfoldable pub process_control_msg : (fd : ℕ) → Env → Option (List ℕ) → Cmd (Unit {0})
process_control_msg fd env none = ok tt
process_control_msg fd env (some bytes) = process_control_buf fd env (fill_buffer bytes)
