-- ===== src/Client/Requests.antt =====
-- The control messages of the client and its handlers for the answers. What it prints is left out.
-- `beyond` is what lies in memory behind the buffer of a message.
use csc469_advanced_operatin.Base.{
  ℕ, zero, suc, ◌+◌, ◌-◌, ◌*◌, ◌/◌, ◌%◌, Option, none, some, List, [], ◌∷◌, ◌++◌, ltb, ◌==◌,
  if◌then◌else◌, length, take, replicate, str_eq,
}
use csc469_advanced_operatin.Base.Bytes.{codes, c_string, u16_bytes}
use csc469_advanced_operatin.Wire.Header.{
  control_header_size, ntoh_control_header, msgdata, fill_buffer,
}
use csc469_advanced_operatin.Wire.Msg
use csc469_advanced_operatin.Client.State.{
  request, switched_chan, Exchange, refused, unanswered, answered, ok, no_net, Cmd, and_then, put,
  Result, success, failure, disconnected, name_taken, shutdown_clean,
}

-- `strncpy` to a buffer of zeros.
unfoldable pub strncpy : ℕ → List ℕ → List ℕ
strncpy n src = take n (c_string src ++ replicate n 0)

-- The buffer that `send_ctrl_msg` builds.
unfoldable pub ctrl_buf : (id type : ℕ) → (body : List ℕ) → (msg_len : ℕ) → List ℕ
ctrl_buf id type body msg_len =
    u16_bytes type
    ++ (u16_bytes id
        ++ (u16_bytes msg_len
            ++ (0
                ∷ 0
                ∷ (if ltb control_header_size msg_len
                    then strncpy (msg_len - control_header_size) body
                    else []))))

-- `htons` read as a number on a machine whose lowest byte is first.
unfoldable pub htons : ℕ → ℕ
htons n = n % 256 * 256 + n / 256 % 256

module _ (beyond : List ℕ) where
  -- `write(sockfd, buf, cmh->msg_len)` takes the length in network byte order, so it goes on behind
  -- the buffer.
  unfoldable pub send_ctrl_msg : (id type : ℕ) → (body : List ℕ) → (msg_len : ℕ) → List ℕ
  send_ctrl_msg id type body msg_len =
      take (htons msg_len) (ctrl_buf id type body msg_len ++ beyond)

  -- The loop of `attempt_request`: `none` if no connection or no answer came.
  unfoldable pub attempts : ℕ → (type : ℕ) → (body : List ℕ) → (msg_len : ℕ) → Cmd (Option (List ℕ))
  attempts zero type body msg_len c = ok none c
  attempts (suc k) type body msg_len c =
      let sending = λ (rest : List Exchange).
        put (request (send_ctrl_msg c.member_id type body msg_len)) (record c { net = rest }) in
      elim c.net [
        | [] ↦ no_net
        | refused ∷ rest ↦ ok none (record c { net = rest })
        | unanswered ∷ rest ↦ attempts k type body msg_len (sending rest)
        | answered bytes ∷ rest ↦ ok (some (fill_buffer bytes)) (sending rest)
      ]

  -- With `TCP_RETRIES` attempts.
  unfoldable pub attempt_request :
      (type : ℕ) → (body : List ℕ) → (msg_len : ℕ) → Cmd (Option (List ℕ))
  attempt_request = attempts 10

  unfoldable pub register_answer : Option (List ℕ) → Cmd Result
  register_answer none c = ok disconnected c
  register_answer (some res) c =
      let cmh = ntoh_control_header res in
      if cmh.msg_type == Msg.register_succ
      then ok success (record c { member_id = cmh.member_id })
      else if str_eq (take 10 (c_string (msgdata res)))
          (take 10 (codes "Name has already been used!"))
      then ok name_taken c
      else ok failure c

  -- The data is the port in network byte order and the name with its terminator.
  unfoldable pub handle_register_req : Cmd Result
  unfolding register_answer
  handle_register_req c =
      and_then
        (attempt_request Msg.register_request
          (u16_bytes c.client_udp_port ++ (c.member_name ++ 0 ∷ []))
          (control_header_size + 2 + length c.member_name + 1) c)
        register_answer

  -- What the other handlers do with an answer: the given command on success.
  unfoldable pub on_success : (type : ℕ) → Cmd Result → Option (List ℕ) → Cmd Result
  on_success type then_do none c = ok disconnected c
  on_success type then_do (some res) c =
      if (ntoh_control_header res).msg_type == type then then_do c else ok failure c

  unfoldable pub handle_room_list_req : Cmd Result
  handle_room_list_req c =
      and_then (attempt_request Msg.room_list_request [] control_header_size c)
        (on_success Msg.room_list_succ (ok success))

  -- A request whose data is the room's name and its terminator.
  unfoldable pub room_request : (type : ℕ) → (room_name : List ℕ) → Cmd (Option (List ℕ))
  room_request type room_name =
      attempt_request type (room_name ++ 0 ∷ []) (control_header_size + length room_name + 1)

  unfoldable pub handle_member_list_req : List ℕ → Cmd Result
  handle_member_list_req room_name c =
      and_then (room_request Msg.member_list_request room_name c)
        (on_success Msg.member_list_succ (ok success))

  -- The receiver hears of a switch, but not of the first room.
  unfoldable pub enter_channel : List ℕ → Cmd Result
  enter_channel room_name c =
      if length c.last_channel == 0
      then ok success (record c { last_channel = room_name })
      else ok success (record (put switched_chan c) { last_channel = room_name })

  unfoldable pub handle_switch_room_req : List ℕ → Cmd Result
  handle_switch_room_req room_name c =
      and_then (room_request Msg.switch_room_request room_name c)
        (on_success Msg.switch_room_succ (enter_channel room_name))

  unfoldable pub handle_create_room_req : List ℕ → Cmd Result
  handle_create_room_req room_name c =
      and_then (room_request Msg.create_room_request room_name c)
        (on_success Msg.create_room_succ (ok success))

  -- One attempt to tell the server, then the end.
  unfoldable pub handle_quit_req : Cmd Result
  handle_quit_req c = elim c.net [
    | [] ↦ no_net
    | refused ∷ rest ↦ shutdown_clean (record c { net = rest })
    | _ ∷ rest ↦ shutdown_clean (
        put (request (send_ctrl_msg c.member_id Msg.quit_request [] control_header_size))
          (record c { net = rest }))
  ]
