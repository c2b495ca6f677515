-- ===== src/Server/CreateRequest.antt =====
-- `process_create_room_request`: the answer to each result of `create_room`.
use csc469_advanced_operatin.Base.{
  ℕ, ◌≡◌, refl, ap, ◌∙◌, ◌≢◌, inl, inr, false, List, [], ◌∷◌, ◌++◌, ◌==◌, if◌then◌else◌, Bool-cases,
}
use csc469_advanced_operatin.Dll.{Ptr, null}
use csc469_advanced_operatin.Dll.Shape.{lst}
use csc469_advanced_operatin.Wire.Header.{control_msg}
use csc469_advanced_operatin.Wire.Msg
use csc469_advanced_operatin.Server.State.{Server, Output, ok, reply, and_then}
use csc469_advanced_operatin.Server.Requests.{
  create_room_reply, process_create_room_request, room_name_too_long, too_many_rooms, room_exists,
}
use csc469_advanced_operatin.Server.Answer.{
  Answered, sending, send_control_msg_reply-ok, sending-IsSound,
}
use csc469_advanced_operatin.Server.Sound.{Session, IsSound}
use csc469_advanced_operatin.Server.Create.{create_room-Created}
use csc469_advanced_operatin.Server.Create.Run.{create_result}
use csc469_advanced_operatin.Server.Create.Link.{with_room}

pub record Answer : Type 0 where
  pub type : ℕ
  pub text : List ℕ

abbrev pub create_answer : ℕ → Answer
create_answer result =
    if result == 1
    then record { type = Msg.create_room_fail; text = room_name_too_long }
    else if result == 2
    then record { type = Msg.create_room_fail; text = too_many_rooms }
    else if result == 3
    then record { type = Msg.create_room_fail; text = room_exists }
    else record { type = Msg.create_room_succ; text = [] }

create_room_reply-answer :
    (fd id result : ℕ) (s : Server)
    → create_room_reply fd id result s
      ≡ ok tt (
          sending s
            (reply fd (control_msg (create_answer result).type id (create_answer result).text)))
unfolding create_room_reply
create_room_reply-answer fd id result s = elim (Bool-cases (result == 1)) [
  | inl e ↦ rw e (send_control_msg_reply-ok fd Msg.create_room_fail id room_name_too_long s refl)
  | inr e ↦ elim (Bool-cases (result == 2)) [
    | inl f ↦ rw (e, f) (send_control_msg_reply-ok fd Msg.create_room_fail id too_many_rooms s refl)
    | inr f ↦ elim (Bool-cases (result == 3)) [
      | inl g ↦
          rw (e, f, g) (send_control_msg_reply-ok fd Msg.create_room_fail id room_exists s refl)
      | inr g ↦ rw (e, f, g) (send_control_msg_reply-ok fd Msg.create_room_succ id [] s refl)
    ]
  ]
]

-- A request for a new room, with fresh memory for it and a tail pointer that is the last room, gets
-- exactly one reply: the success if `create_room` returns 0, and the failure with the reason for
-- each other result. The room is in the session after the success and only then, and the members
-- keep their data.
pub process_create_room_request-Answered :
    (s : Server) (g : Session) (rt : Ptr) (fd : ℕ) (mt : Ptr) (name : List ℕ)
    → IsSound s g
    → s.live_room rt ≡ false
    → rt ≢ null
    → s.room_list_tail ≡ lst null g.rooms
    → (t : Server) × (process_create_room_request rt fd mt name s ≡ ok tt t)
      × Answered fd mt
          (create_answer (create_result s g name)).type
          (create_answer (create_result s g name)).text
          s
          t
          (if create_result s g name == 0 then with_room rt g else g)
unfolding process_create_room_request
process_create_room_request-Answered s g rt fd mt name sound fresh n end =
    let result = create_result s g name in
    let (t, run, c) = create_room-Created s g rt name sound fresh n end in
    (
      sending t (
          reply fd
            (control_msg (create_answer result).type (t.member_id mt) (create_answer result).text)),
      ap (λ r. and_then r (λ ret u. create_room_reply fd (u.member_id mt) ret u)) run
          ∙ create_room_reply-answer fd (t.member_id mt) result t,
      record {
        sound = sending-IsSound t _ (if result == 0 then with_room rt g else g) c.sound;
        sent =
            ap
              (λ (l : List Output).
                l
                ++ (reply fd (
                      control_msg (create_answer result).type (t.member_id mt)
                        (create_answer result).text)
                    ∷ []))
              c.own.sent
            ∙ ap
                (λ (f : Ptr → ℕ).
                  s.sent
                  ++ (reply fd
                        (control_msg (create_answer result).type (f mt) (create_answer result).text)
                      ∷ []))
                c.own.member_id;
        live_member = c.own.live_member;
        member_id = c.own.member_id;
        member_name = c.own.member_name;
        quiet_flag = c.own.quiet_flag;
        name_fits = c.name_fits;
      },
    )
