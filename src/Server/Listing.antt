-- ===== src/Server/Listing.antt =====
-- `process_member_list_request`: the text of the reply.
use csc469_advanced_operatin.Base.{
  ℕ, zero, suc, ◌+◌, ◌*◌, ◌<◌, ◌≤◌, ◌≡◌, refl, ap, ◌∙◌, inl, inr, true, false, List, [], ◌∷◌, ◌++◌,
  ltb, ◌==◌, has, str_eq, length, length-append, arith, if◌then◌else◌, Bool-cases,
}
use csc469_advanced_operatin.Dll.{Ptr, null}
use csc469_advanced_operatin.Dll.Shape.{hd}
use csc469_advanced_operatin.Wire.Header.{
  control_header_size, max_msg_len, max_num_of_members_per_room, max_member_name_len,
}
use csc469_advanced_operatin.Wire.Msg
use csc469_advanced_operatin.Server.State.{Server, ok, c_room_name}
use csc469_advanced_operatin.Server.Reply.{send_control_msg_reply}
use csc469_advanced_operatin.Server.Requests.{
  member_entries, list_members, process_member_list_request, no_room_yet, room_not_found,
  nobody_there,
}
use csc469_advanced_operatin.Server.Chain.{Chain-hd}
use csc469_advanced_operatin.Server.Walk.{Walk, Walk-of_Linked, first, first-has}
use csc469_advanced_operatin.Server.Find.{find_room-list}
use csc469_advanced_operatin.Server.Leave.{occupants_live}
use csc469_advanced_operatin.Server.Answer.{Answered, send_control_msg_reply-Answered}
use csc469_advanced_operatin.Server.CreateRequest.{Answer}
use csc469_advanced_operatin.Server.Sound.{Session, IsSound}

-- The names in parentheses, a space between two.
abbrev pub member_text : (Ptr → List ℕ) → List Ptr → List ℕ
member_text name [] = []
member_text name (x ∷ []) = (b'(' ∷ name x) ++ (b')' ∷ [])
member_text name (x ∷ y ∷ xs) = (b'(' ∷ name x) ++ (b')' ∷ b' ' ∷ member_text name (y ∷ xs))

member_entries-text :
    (s : Server) (k : ℕ) (xs : List Ptr)
    → Walk s.next_room_member s.live_member xs
    → length xs < k
    → member_entries k (hd xs) s ≡ ok (member_text s.member_name xs) s
unfolding member_entries
member_entries-text s zero xs w b = absurd (omega (arith, b))
member_entries-text s (suc k) [] w b = refl
member_entries-text s (suc k) (x ∷ []) (a, l, e, w) b =
    let rest = member_entries-text s k [] tt (omega (arith, b)) in rw (a, l, e, rest) refl
member_entries-text s (suc k) (x ∷ y ∷ xs) (a, l, e, w) b =
    let rest = member_entries-text s k (y ∷ xs) w (omega (arith, b)) in rw (a, l, e, w.0, rest) refl

length-member_text :
    (name : Ptr → List ℕ) (xs : List Ptr)
    → ((p : Ptr) → has p xs ≡ true → length (name p) ≤ max_member_name_len)
    → length (member_text name xs) ≤ 27 * length xs
length-member_text name [] b = omega arith
length-member_text name (x ∷ []) b =
    omega (arith, b x (ground arith), length-append (name x) (b')' ∷ []))
length-member_text name (x ∷ y ∷ xs) b = omega (
  arith,
  b x (ground arith),
  length-append (name x) (b')' ∷ b' ' ∷ member_text name (y ∷ xs)),
  length-member_text name (y ∷ xs) (λ p h. b p (ground arith)),
)

-- The answer for the room `room` and for the room that `text` names.
abbrev pub room_answer : Server → Session → (room : Ptr) → Answer
room_answer s g room =
    if hd (g.occupants room) == null
    then record { type = Msg.member_list_fail; text = nobody_there }
    else record { type = Msg.member_list_succ; text = member_text s.member_name (g.occupants room) }

abbrev pub list_answer : Server → Session → (text : List ℕ) → Answer
list_answer s g text =
    let room = first (λ r. str_eq text (c_room_name s r)) g.rooms in
    if hd g.rooms == null
    then record { type = Msg.member_list_fail; text = no_room_yet }
    else if room == null
    then record { type = Msg.member_list_fail; text = room_not_found }
    else room_answer s g room

small-texts :
    (n k : ℕ)
    → n ≤ 27 * k
    → k ≤ max_num_of_members_per_room
    → (ltb n max_msg_len ≡ true) × (ltb (control_header_size + n) max_msg_len ≡ true)
small-texts n k a b = (ground arith, ground arith)

module _ (s : Server) (g : Session) (sound : IsSound s g) (fd : ℕ) (mt : Ptr)
    (names : (p : Ptr)
      → has p g.members ≡ true
      → length (s.member_name p) ≤ max_member_name_len) where
  module _ (room : Ptr) (m : has room g.rooms ≡ true) where
    nobody-run :
        (hd (g.occupants room) == null) ≡ true
        → list_members fd mt room s
          ≡ send_control_msg_reply fd Msg.member_list_fail (s.member_id mt) nobody_there s
    unfolding list_members
    nobody-run e = rw ((sound.occupants room m).shape.first, e) refl

    entries :
        member_entries (s.num_of_members room + 1) (s.member_list_head room) s
        ≡ ok (member_text s.member_name (g.occupants room)) s
    entries =
        ap (λ p. member_entries (s.num_of_members room + 1) p s)
          (sound.occupants room m).shape.first
        ∙ member_entries-text s (s.num_of_members room + 1) (g.occupants room)
            (Walk-of_Linked s.next_room_member s.prev_room_member s.live_member null
              (g.occupants room) (sound.occupants room m).shape.linked
              (occupants_live s g sound room m))
            (omega (arith, (sound.occupants room m).count))

    text_fits :
        (ltb (length (member_text s.member_name (g.occupants room))) max_msg_len ≡ true)
        × (ltb
              (control_header_size + length (member_text s.member_name (g.occupants room)))
              max_msg_len
            ≡ true)
    text_fits =
        small-texts (length (member_text s.member_name (g.occupants room)))
          (length (g.occupants room))
          (length-member_text s.member_name (g.occupants room)
            (λ p h. names p (sound.places.inside room p m h)))
          (sound.occupants room m).bound

    entries-run :
        (hd (g.occupants room) == null) ≡ false
        → list_members fd mt room s
          ≡ send_control_msg_reply fd Msg.member_list_succ
              (s.member_id mt)
              (member_text s.member_name (g.occupants room))
              s
    unfolding list_members
    entries-run e = rw (entries, text_fits.0, (sound.occupants room m).shape.first, e) refl

    list_members-Answered :
        (t : Server) × (list_members fd mt room s ≡ ok tt t)
        × Answered fd mt (room_answer s g room).type (room_answer s g room).text s t g
    list_members-Answered = elim (Bool-cases (hd (g.occupants room) == null)) [
      | inl e ↦
          let (t, sent, a) =
            send_control_msg_reply-Answered fd mt Msg.member_list_fail nobody_there s g sound
              refl in
          rw e (t, nobody-run e ∙ sent, a)
      | inr e ↦
          let (t, sent, a) =
            send_control_msg_reply-Answered fd mt Msg.member_list_succ
              (member_text s.member_name (g.occupants room)) s g sound text_fits.1 in
          rw e (t, entries-run e ∙ sent, a)
    ]

  no_rooms-run :
      (text : List ℕ)
      → (hd g.rooms == null) ≡ true
      → process_member_list_request fd mt text s
        ≡ send_control_msg_reply fd Msg.member_list_fail (s.member_id mt) no_room_yet s
  unfolding process_member_list_request
  no_rooms-run text e = rw (Chain-hd s.next_room s.room_list_head g.rooms sound.rooms.chain, e) refl

  found-run :
      (text : List ℕ) (room : Ptr)
      → first (λ r. str_eq text (c_room_name s r)) g.rooms ≡ room
      → (hd g.rooms == null) ≡ false
      → process_member_list_request fd mt text s ≡ (
          if room == null
          then send_control_msg_reply fd Msg.member_list_fail (s.member_id mt) room_not_found s
          else list_members fd mt room s)
  unfolding process_member_list_request
  found-run text room f e =
      rw
        (
          find_room-list s text g.rooms sound.rooms,
          f,
          Chain-hd s.next_room s.room_list_head g.rooms sound.rooms.chain,
          e,
        )
        refl

pub process_member_list_request-Answered :
    (s : Server) (g : Session) (fd : ℕ) (mt : Ptr) (text : List ℕ)
    → IsSound s g
    → ((p : Ptr) → has p g.members ≡ true → length (s.member_name p) ≤ max_member_name_len)
    → (t : Server) × (process_member_list_request fd mt text s ≡ ok tt t)
      × Answered fd mt (list_answer s g text).type (list_answer s g text).text s t g
process_member_list_request-Answered s g fd mt text sound names =
    elim (Bool-cases (hd g.rooms == null)) [
      | inl e ↦
          let (t, sent, a) =
            send_control_msg_reply-Answered fd mt Msg.member_list_fail no_room_yet s g sound refl in
          rw e (t, no_rooms-run s g sound fd mt names text e ∙ sent, a)
      | inr e ↦
          let room = first (λ r. str_eq text (c_room_name s r)) g.rooms in
          elim (Bool-cases (room == null)) [
            | inl n ↦
                let (t, sent, a) =
                  send_control_msg_reply-Answered fd mt Msg.member_list_fail room_not_found s g
                    sound refl in
                rw (e, n) (t, found-run s g sound fd mt names text room refl e ∙ rw n sent, a)
            | inr n ↦
                let (t, sent, a) =
                  list_members-Answered s g sound fd mt names room
                    (first-has (λ r. str_eq text (c_room_name s r)) g.rooms n) in
                rw (e, n) (t, found-run s g sound fd mt names text room refl e ∙ rw n sent, a)
          ]
    ]
