-- ===== src/Server/Switch.antt =====
-- `process_switch_room_request`: what it answers, and the session it leaves.
pub mod Moved
use csc469_advanced_operatin.Base.{
  ℕ, ◌+◌, ◌≤◌, ◌<◌, ◌≡◌, refl, sym, subst, ◌∙◌, ◌≢◌, inl, inr, Bool, true, false, List, [], arith,
  ◌==◌, has, length, ltb, if◌then◌else◌, Bool-cases, ==→≡, str_eq,
}
use csc469_advanced_operatin.Dll.{Ptr, null}
use csc469_advanced_operatin.Dll.Shape.{hd, All, All-has, not-has-null}
use csc469_advanced_operatin.Dll.Unlink.{erase}
use csc469_advanced_operatin.Wire.Header.{
  max_num_of_members_per_room, control_msg, control_header_size, max_msg_len,
}
use csc469_advanced_operatin.Wire.Msg
use csc469_advanced_operatin.Server.State.{Server, ok, reply, c_room_name}
use csc469_advanced_operatin.Server.Reply.{send_control_msg_reply}
use csc469_advanced_operatin.Server.Members.{leave_room, enter_room}
use csc469_advanced_operatin.Server.Leave.{leave_room-Left, occupants_live, room-ne-null, mt_live}
use csc469_advanced_operatin.Server.Enter.{enter_room-Entered}
use csc469_advanced_operatin.Server.Walk.{first, first-has}
use csc469_advanced_operatin.Server.Answer.{
  Answered, sending, send_control_msg_reply-ok, sending-IsSound, send_control_msg_reply-Answered,
}
use csc469_advanced_operatin.Server.Requests.{
  no_room_yet, room_is_full, already_there, room_not_found, switch_to, process_switch_room_request,
}
use csc469_advanced_operatin.Server.Find.{find_room-list}
use csc469_advanced_operatin.Server.Chain.{Chain-hd}
use csc469_advanced_operatin.Server.Sound.{
  Session, IsSound, has-erase, has-erase_self, length-erase_le, All-of_has,
}
use csc469_advanced_operatin.Server.Switch.Moved.{moved, move-IsSound}

not-both : (b : Bool) → b ≡ true → b ≡ false → ⊥
not-both true p q = ground arith
not-both false p q = ground arith

All-erase : (live : Ptr → Bool) (p : Ptr) (xs : List Ptr) → All live xs → All live (erase p xs)
All-erase live p xs h = All-of_has live (erase p xs) λ a m. All-has live xs a h (has-erase a p xs m)

has-ne : (a b : Ptr) (xs : List Ptr) → has a xs ≡ true → has b xs ≡ false → a ≢ b
has-ne a b xs h n e = ground arith

not-full :
    (k n : ℕ)
    → n ≤ max_num_of_members_per_room
    → (n == max_num_of_members_per_room) ≡ false
    → k ≤ n
    → k < max_num_of_members_per_room
not-full k n b f l = ground arith

-- The answer to a switch to the room `room`, and the session then.
pub record Outcome : Type 0 where
  pub type : ℕ
  pub text : List ℕ
  pub after : Session

abbrev pub refused : List ℕ → Session → Outcome
refused text g = record { type = Msg.switch_room_fail; text = text; after = g }

abbrev pub switch_outcome : (mt room : Ptr) → Session → Outcome
switch_outcome mt room g =
    if length (g.occupants room) == max_num_of_members_per_room
    then refused room_is_full g
    else if has mt (g.occupants room)
    then refused already_there g
    else record { type = Msg.switch_room_succ; text = []; after = moved mt room g }

module _ (s : Server) (g : Session) (sound : IsSound s g) (fd : ℕ) (mt : Ptr)
    (there : has mt g.members ≡ true) where
  module _ (room : Ptr) (m : has room g.rooms ≡ true) where
    -- The test `current_room == room` is whether the room's list has the member.
    current_room-has : (s.current_room mt == room) ≡ has mt (g.occupants room)
    current_room-has = elim (Bool-cases (has mt (g.occupants room))) [
      | inl h ↦ rw (h, (sound.occupants room m).there mt h) (ground arith)
      | inr h ↦ elim (Bool-cases (s.current_room mt == room)) [
        | inl e ↦ absurd (elim (sound.places.current mt there) [
          | inl z ↦ room-ne-null s g sound room m (sym (==→≡ (s.current_room mt) room e) ∙ z)
          | inr (mr, o) ↦ absurd (
              not-both (has mt (g.occupants room))
                (subst (λ r. has mt (g.occupants r) ≡ true) (==→≡ (s.current_room mt) room e) o) h)
        ])
        | inr e ↦ e ∙ sym h
      ]
    ]

    switch_to-run :
        (t u : Server)
        → (s.num_of_members room == max_num_of_members_per_room) ≡ false
        → (s.current_room mt == room) ≡ false
        → leave_room mt s ≡ ok tt t
        → enter_room mt room t ≡ ok tt u
        → switch_to fd mt room s
          ≡ send_control_msg_reply fd Msg.switch_room_succ (u.member_id mt) [] u
    unfolding switch_to
    switch_to-run t u a b c d = rw (a, b, c, d) refl

    switch_to-moved :
        (length (g.occupants room) == max_num_of_members_per_room) ≡ false
        → has mt (g.occupants room) ≡ false
        → (t : Server) × (switch_to fd mt room s ≡ ok tt t)
          × Answered fd mt Msg.switch_room_succ [] s t (moved mt room g)
    switch_to-moved full out =
        let (t, left, l) = leave_room-Left s g sound mt there in
        let (u, entered, n) =
          enter_room-Entered t mt room g.rooms (λ r. erase mt (g.occupants r)) l.occupants m
            (λ r mr. has-erase_self mt (g.occupants r) (sound.occupants r mr).shape.distinct)
            (not-full (length (erase mt (g.occupants room))) (length (g.occupants room))
              (sound.occupants room m).bound full (length-erase_le mt (g.occupants room)))
            (subst (λ v. All v (erase mt (g.occupants room))) (sym l.own.live_member)
              (All-erase s.live_member mt (g.occupants room) (occupants_live s g sound room m)))
            (rw l.own.live_member (mt_live s g sound mt there))
            (has-ne mt null g.members there (
              not-has-null s.mem_list.next s.mem_list.prev null g.members
                sound.members.shape.linked)) in
        (
          sending u (reply fd (control_msg Msg.switch_room_succ (u.member_id mt) [])),
          switch_to-run t u (rw (sound.occupants room m).count full) (current_room-has ∙ out) left
                entered
              ∙ send_control_msg_reply-ok fd Msg.switch_room_succ (u.member_id mt) [] u refl,
          record {
            sound =
                sending-IsSound u _ (moved mt room g)
                  (move-IsSound s g sound mt there room m t u l n);
            sent = rw (n.own.sent, l.own.sent, n.own.member_id, l.own.member_id) refl;
            live_member = n.own.live_member ∙ l.own.live_member;
            member_id = n.own.member_id ∙ l.own.member_id;
            member_name = n.own.member_name ∙ l.own.member_name;
            quiet_flag = n.own.quiet_flag ∙ l.own.quiet_flag;
            name_fits = λ r f. rw (n.rooms.room_name, l.rooms.room_name) f;
          },
        )

    Switched : Outcome → Type 0
    Switched o =
        (t : Server) × (switch_to fd mt room s ≡ ok tt t) × Answered fd mt o.type o.text s t o.after

    switch_to-full :
        (length (g.occupants room) == max_num_of_members_per_room) ≡ true
        → switch_to fd mt room s
          ≡ send_control_msg_reply fd Msg.switch_room_fail (s.member_id mt) room_is_full s
    unfolding switch_to
    switch_to-full e = rw ((sound.occupants room m).count, e) refl

    switch_to-there :
        (length (g.occupants room) == max_num_of_members_per_room) ≡ false
        → has mt (g.occupants room) ≡ true
        → switch_to fd mt room s
          ≡ send_control_msg_reply fd Msg.switch_room_fail (s.member_id mt) already_there s
    unfolding switch_to
    switch_to-there e h = rw ((sound.occupants room m).count, e, current_room-has, h) refl

    refuse :
        (text : List ℕ)
        → ltb (control_header_size + length text) max_msg_len ≡ true
        → switch_to fd mt room s
          ≡ send_control_msg_reply fd Msg.switch_room_fail (s.member_id mt) text s
        → Switched (refused text g)
    unfolding Switched
    refuse text e run =
        let (t, sent, a) =
          send_control_msg_reply-Answered fd mt Msg.switch_room_fail text s g sound e in
        (t, run ∙ sent, a)

    switch_to-Switched : Switched (switch_outcome mt room g)
    unfolding Switched
    switch_to-Switched =
        elim (Bool-cases (length (g.occupants room) == max_num_of_members_per_room)) [
          | inl e ↦ rw e (refuse room_is_full refl (switch_to-full e))
          | inr e ↦ elim (Bool-cases (has mt (g.occupants room))) [
            | inl h ↦ rw (e, h) (refuse already_there refl (switch_to-there e h))
            | inr h ↦ rw (e, h) (switch_to-moved e h)
          ]
        ]

-- The answer to a request that names the room by `text`.
abbrev pub switch_request : Server → Session → (mt : Ptr) → (text : List ℕ) → Outcome
switch_request s g mt text =
    let room = first (λ r. str_eq text (c_room_name s r)) g.rooms in
    if hd g.rooms == null
    then refused no_room_yet g
    else if room == null
    then refused room_not_found g
    else switch_outcome mt room g

module _ (s : Server) (g : Session) (sound : IsSound s g) (fd : ℕ) (mt : Ptr) (text : List ℕ) where
  no_rooms-run :
      (hd g.rooms == null) ≡ true
      → process_switch_room_request fd mt text s
        ≡ send_control_msg_reply fd Msg.switch_room_fail (s.member_id mt) no_room_yet s
  unfolding process_switch_room_request
  no_rooms-run e = rw (Chain-hd s.next_room s.room_list_head g.rooms sound.rooms.chain, e) refl

  found-run :
      (room : Ptr)
      → first (λ r. str_eq text (c_room_name s r)) g.rooms ≡ room
      → (hd g.rooms == null) ≡ false
      → process_switch_room_request fd mt text s ≡ (
          if room == null
          then send_control_msg_reply fd Msg.switch_room_fail (s.member_id mt) room_not_found s
          else switch_to fd mt room s)
  unfolding process_switch_room_request
  found-run room f e =
      rw
        (
          find_room-list s text g.rooms sound.rooms,
          f,
          Chain-hd s.next_room s.room_list_head g.rooms sound.rooms.chain,
          e,
        )
        refl

pub process_switch_room_request-Answered :
    (s : Server) (g : Session) (fd : ℕ) (mt : Ptr) (text : List ℕ)
    → IsSound s g
    → has mt g.members ≡ true
    → (t : Server) × (process_switch_room_request fd mt text s ≡ ok tt t)
      × Answered fd mt
          (switch_request s g mt text).type
          (switch_request s g mt text).text
          s
          t
          (switch_request s g mt text).after
unfolding Switched
process_switch_room_request-Answered s g fd mt text sound there =
    elim (Bool-cases (hd g.rooms == null)) [
      | inl e ↦
          let (t, sent, a) =
            send_control_msg_reply-Answered fd mt Msg.switch_room_fail no_room_yet s g sound refl in
          rw e (t, no_rooms-run s g sound fd mt text e ∙ sent, a)
      | inr e ↦ elim (Bool-cases (first (λ r. str_eq text (c_room_name s r)) g.rooms == null)) [
        | inl n ↦
            let (t, sent, a) =
              send_control_msg_reply-Answered fd mt Msg.switch_room_fail room_not_found s g sound
                refl in
            rw (e, n)
              (
                t,
                found-run s g sound fd mt text (first (λ r. str_eq text (c_room_name s r)) g.rooms)
                      refl e
                    ∙ rw n sent,
                a,
              )
        | inr n ↦
            let room = first (λ r. str_eq text (c_room_name s r)) g.rooms in
            let (t, sent, a) =
              switch_to-Switched s g sound fd mt there room
                (first-has (λ r. str_eq text (c_room_name s r)) g.rooms n) in
            rw (e, n) (t, found-run s g sound fd mt text room refl e ∙ rw n sent, a)
      ]
    ]
