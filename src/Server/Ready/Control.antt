-- ===== src/Server/Ready/Control.antt =====
-- `process_control_msg` of A3/server_util.c from a state that is ready.
use csc469_advanced_operatin.Base.{
  ℕ, ◌+◌, ◌≡◌, ◌≢◌, refl, ◌∙◌, true, false, none, some, List, ◌==◌, leb, ◌&&◌, has, ◌⊎◌, inl, inr,
  Bool-cases,
}
use csc469_advanced_operatin.Base.Bytes.{c_string}
use csc469_advanced_operatin.Dll.{Ptr, null}
use csc469_advanced_operatin.Dll.Shape.{lst}
use csc469_advanced_operatin.Wire.Header.{
  fill_buffer, msgdata, ControlHeader, ntoh_control_header, control_msg,
}
use csc469_advanced_operatin.Wire.Msg
use csc469_advanced_operatin.Server.State.{Server, reply, ok}
use csc469_advanced_operatin.Server.Requests.{process_quit_request}
use csc469_advanced_operatin.Server.Register.{Env}
use csc469_advanced_operatin.Server.Dispatch.{
  Request, request_of, process_request, clear_quiet, process_member_msg, process_control_buf,
  process_control_msg, member_id_invalid,
}
use csc469_advanced_operatin.Server.Same.{IsSound-same}
use csc469_advanced_operatin.Server.Walk.{first, first-has}
use csc469_advanced_operatin.Server.Find.{find_member_with_id-first}
use csc469_advanced_operatin.Server.Sound.{Session, without_member}
use csc469_advanced_operatin.Server.Answer.{sending, send_control_msg_reply-ok}
use csc469_advanced_operatin.Server.Remove.{remove_member-Gone}
use csc469_advanced_operatin.Server.Switch.{process_switch_room_request-Answered}
use csc469_advanced_operatin.Server.CreateRequest.{process_create_room_request-Answered}
use csc469_advanced_operatin.Server.Listing.{process_member_list_request-Answered}
use csc469_advanced_operatin.Server.RoomListing.{process_room_list_request-Answered}
use csc469_advanced_operatin.Server.Ready.{
  IsReady, EnvOk, Returns, sending-IsReady, Answered-IsReady, process_register_request-Returns,
}

-- The tail of the room list was not lost, or the request does not need it.
abbrev pub TailOk : Request → Server → Session → Type 0
TailOk req s g = (req ≢ Request.create_room) ⊎ (s.room_list_tail ≡ lst null g.rooms)

-- The type of a message as the server reads it.
abbrev pub type_of : List ℕ → ℕ
type_of bytes = (ntoh_control_header (fill_buffer bytes)).msg_type

clear_quiet-IsReady :
    (s : Server) (g : Session) (mt : Ptr) → IsReady s g → IsReady (clear_quiet mt s) g
unfolding clear_quiet
clear_quiet-IsReady s g mt r = record {
  sound =
      IsSound-same s (clear_quiet mt s)
        (record {
          live_member = refl;
          mem_list = refl;
          total_num_of_members = refl;
          next_room_member = refl;
          prev_room_member = refl;
          member_list_head = refl;
          member_list_tail = refl;
          current_room = refl;
          num_of_members = refl;
        })
        (record {
          live_room = refl;
          room_name = refl;
          next_room = refl;
          room_list_head = refl;
          room_list_tail = refl;
          total_num_of_rooms = refl;
        })
        g r.sound;
  member_names = r.member_names;
  room_names = r.room_names;
}

module _ (s : Server) (g : Session) (fd : ℕ) (env : Env) (r : IsReady s g) (o : EnvOk env s g) where
  request-Returns :
      (req : Request) (mt : Ptr) (buf : List ℕ)
      → has mt g.members ≡ true
      → TailOk req s g
      → Returns (process_request req fd env mt buf s)
  unfolding process_request process_quit_request
  request-Returns Request.room_list mt buf there tail =
      let (t, run, a) =
        process_room_list_request-Answered s g fd mt r.sound (λ q m. r.room_names q) in
      (t, g, run, Answered-IsReady fd mt _ _ s t g g r a)
  request-Returns Request.member_list mt buf there tail =
      let (t, run, a) =
        process_member_list_request-Answered s g fd mt (c_string (msgdata buf)) r.sound
          (λ p m. r.member_names p) in
      (t, g, run, Answered-IsReady fd mt _ _ s t g g r a)
  request-Returns Request.switch_room mt buf there tail =
      let (t, run, a) =
        process_switch_room_request-Answered s g fd mt (c_string (msgdata buf)) r.sound there in
      (t, _, run, Answered-IsReady fd mt _ _ s t g _ r a)
  request-Returns Request.create_room mt buf there (inl other) = absurd (other refl)
  request-Returns Request.create_room mt buf there (inr tail) =
      let (t, run, a) =
        process_create_room_request-Answered s g env.fresh fd mt (c_string (msgdata buf)) r.sound
          o.no_room o.non_null tail in
      (t, _, run, Answered-IsReady fd mt _ _ s t g _ r a)
  request-Returns Request.keep_alive mt buf there tail = (s, g, refl, r)
  request-Returns Request.quit mt buf there tail =
      let (t, run, a) = remove_member-Gone s g mt r.sound there in
      (
        t,
        without_member mt g,
        run,
        record {
          sound = a.sound;
          member_names = λ p. rw a.member_name (r.member_names p);
          room_names = λ q. rw a.rooms.room_name (r.room_names q);
        },
      )
  request-Returns Request.unrecognized mt buf there tail = (s, g, refl, r)

module _ (s : Server) (g : Session) (fd : ℕ) (env : Env) (r : IsReady s g) (o : EnvOk env s g) where
  cleared-EnvOk : (mt : Ptr) → EnvOk env (clear_quiet mt s) g
  unfolding clear_quiet
  cleared-EnvOk mt = record {
    non_null = o.non_null;
    no_member = o.no_member;
    no_room = o.no_room;
    free_id = o.free_id;
  }

  cleared-TailOk : (req : Request) (mt : Ptr) → TailOk req s g → TailOk req (clear_quiet mt s) g
  unfolding clear_quiet
  cleared-TailOk req mt tail = tail

  sender : ControlHeader → Ptr
  sender cmh = first (λ m. s.member_id m == cmh.member_id) g.members

  invalid-run :
      (cmh : ControlHeader) (buf : List ℕ)
      → (sender cmh == null) ≡ true
      → process_member_msg cmh fd env buf s
        ≡ ok tt (sending s (reply fd (control_msg (cmh.msg_type + 2) 0 member_id_invalid)))
  unfolding process_member_msg sender
  invalid-run cmh buf e =
      rw (find_member_with_id-first s cmh.member_id g.members r.sound.members, e)
        (send_control_msg_reply-ok fd (cmh.msg_type + 2) 0 member_id_invalid s refl)

  valid-run :
      (cmh : ControlHeader) (buf : List ℕ)
      → (sender cmh == null) ≡ false
      → process_member_msg cmh fd env buf s
        ≡ process_request
            (request_of cmh.msg_type)
            fd
            env
            (sender cmh)
            buf
            (clear_quiet (sender cmh) s)
  unfolding process_member_msg sender
  valid-run cmh buf e =
      rw (find_member_with_id-first s cmh.member_id g.members r.sound.members, e) refl

  member_msg-Returns :
      (cmh : ControlHeader) (buf : List ℕ)
      → TailOk (request_of cmh.msg_type) s g
      → Returns (process_member_msg cmh fd env buf s)
  unfolding sender
  member_msg-Returns cmh buf tail = elim (Bool-cases (sender cmh == null)) [
    | inl e ↦ (_, g, invalid-run cmh buf e, sending-IsReady s g fd _ r)
    | inr e ↦
        let mt = sender cmh in
        let there = first-has (λ m. s.member_id m == cmh.member_id) g.members e in
        let (t, h, run, ready) =
          request-Returns (clear_quiet mt s) g fd env (clear_quiet-IsReady s g mt r)
            (cleared-EnvOk mt) (request_of cmh.msg_type) mt buf there
            (cleared-TailOk (request_of cmh.msg_type) mt tail) in
        (t, h, valid-run cmh buf e ∙ run, ready)
  ]

  control_buf-Returns :
      (buf : List ℕ)
      → TailOk (request_of (ntoh_control_header buf).msg_type) s g
      → Returns (process_control_buf fd env buf s)
  unfolding process_control_buf
  control_buf-Returns buf tail =
      let type = (ntoh_control_header buf).msg_type in
      elim (Bool-cases (leb Msg.room_list_request type && leb type Msg.quit_request)) [
        | inl e ↦ rw e (member_msg-Returns (ntoh_control_header buf) buf tail)
        | inr e ↦ elim (Bool-cases (type == Msg.register_request)) [
          | inl f ↦ rw (e, f) (process_register_request-Returns s g fd env buf r o)
          | inr f ↦ rw (e, f) (s, g, refl, r)
        ]
      ]

pub process_control_msg-Returns :
    (s : Server) (g : Session) (fd : ℕ) (env : Env) (bytes : List ℕ)
    → IsReady s g
    → EnvOk env s g
    → TailOk (request_of (type_of bytes)) s g
    → Returns (process_control_msg fd env (some bytes) s)
      × Returns (process_control_msg fd env none s)
unfolding process_control_msg
process_control_msg-Returns s g fd env bytes r o tail =
    (control_buf-Returns s g fd env r o (fill_buffer bytes) tail, (s, g, refl, r))
