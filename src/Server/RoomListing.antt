-- ===== src/Server/RoomListing.antt =====
-- `process_room_list_request`: the text of the reply.
use csc469_advanced_operatin.Base.{
  ℕ, zero, suc, ◌+◌, ◌*◌, ◌/◌, ◌%◌, ◌<◌, ◌≤◌, ◌≡◌, refl, ap, ◌∙◌, inl, inr, Bool, true, false, List,
  [], ◌∷◌, ◌++◌, ltb, ◌==◌, has, length, length-append, arith, if◌then◌else◌, Bool-cases,
}
use csc469_advanced_operatin.Base.Bytes.{c_string}
use csc469_advanced_operatin.Dll.{Ptr}
use csc469_advanced_operatin.Dll.Shape.{hd}
use csc469_advanced_operatin.Wire.Header.{
  control_header_size, max_msg_len, max_num_of_rooms, max_room_name_len,
}
use csc469_advanced_operatin.Wire.Msg
use csc469_advanced_operatin.Server.State.{Server, ok, c_room_name, pointer_bytes}
use csc469_advanced_operatin.Server.Reply.{send_control_msg_reply}
use csc469_advanced_operatin.Server.Requests.{
  digits, room_entry, room_entries, process_room_list_request, no_rooms,
}
use csc469_advanced_operatin.Server.Chain.{Chain-hd}
use csc469_advanced_operatin.Server.Walk.{Walk}
use csc469_advanced_operatin.Server.Find.{RoomsOk-Walk}
use csc469_advanced_operatin.Server.Answer.{Answered, send_control_msg_reply-Answered}
use csc469_advanced_operatin.Server.CreateRequest.{Answer}
use csc469_advanced_operatin.Server.Sound.{Session, IsSound}

-- The entries of the rooms one after the other.
abbrev pub room_text : Server → List Ptr → List ℕ
room_text s [] = []
room_text s (r ∷ rs) = room_entry s r ++ room_text s rs

room_entries-text :
    (s : Server) (k : ℕ) (rs : List Ptr)
    → Walk s.next_room s.live_room rs
    → length rs < k
    → room_entries k (hd rs) s ≡ ok (room_text s rs) s
unfolding room_entries
room_entries-text s zero rs w b = absurd (omega (arith, b))
room_entries-text s (suc k) [] w b = refl
room_entries-text s (suc k) (x ∷ rs) (a, l, e, w) b =
    let rest = room_entries-text s k rs w (omega (arith, b)) in rw (a, l, e, rest) refl

length-c_string : (bs : List ℕ) → length (c_string bs) ≤ length bs
length-c_string [] = omega arith
length-c_string (b ∷ bs) = ground (arith, length-c_string bs)

length-pointer_bytes : (n : ℕ) (p : Ptr) → length (pointer_bytes n p) ≡ n
unfolding pointer_bytes
length-pointer_bytes zero p = refl
length-pointer_bytes (suc n) p = ap suc (length-pointer_bytes n (p / 256))

length-continued :
    (b : Bool) (xs ys : List ℕ)
    → length (if b then xs ++ c_string ys else xs) ≤ length xs + length ys
length-continued true xs ys = omega (arith, length-append xs (c_string ys), length-c_string ys)
length-continued false xs ys = omega arith

-- A name of at most 24 bytes has at most 32 as a C string.
length-c_room_name :
    (s : Server) (r : Ptr)
    → length (s.room_name r) ≤ max_room_name_len
    → length (c_room_name s r) ≤ 32
unfolding c_room_name
length-c_room_name s r b = omega (
  arith,
  b,
  length-pointer_bytes 8 (s.next_room r),
  length-continued (length (s.room_name r) == max_room_name_len) (s.room_name r)
      (pointer_bytes 8 (s.next_room r)),
)

length-either :
    (b : Bool) (d m : ℕ) (more : List ℕ)
    → length (if b then d ∷ [] else more ++ (m ∷ [])) ≤ length more + 1
length-either true d m more = omega arith
length-either false d m more = omega (arith, length-append more (m ∷ []))

length-digits : (k n : ℕ) → length (digits k n) ≤ k
unfolding digits
length-digits zero n = omega arith
length-digits (suc k) n = omega (
  arith,
  length-digits k (n / 10),
  length-either (ltb n 10) (48 + n) (48 + n % 10) (digits k (n / 10)),
)

length-last : (b : Bool) → length {A = ℕ} (if b then [] else b' ' ∷ []) ≤ 1
length-last true = omega arith
length-last false = omega arith

-- A whole entry has at most 48 bytes.
length-room_entry :
    (s : Server) (r : Ptr)
    → length (s.room_name r) ≤ max_room_name_len
    → length (room_entry s r) ≤ 48
unfolding room_entry
length-room_entry s r b =
    let name = c_room_name s r in
    let number = digits 10 (s.num_of_members r) in
    let end : List ℕ = if r == s.room_list_tail then [] else b' ' ∷ [] in
    omega (
      arith,
      length-c_room_name s r b,
      length-digits 10 (s.num_of_members r),
      length-last (r == s.room_list_tail),
      length-append (b'[' ∷ name) ((b' ' ∷ b'(' ∷ number) ++ (b')' ∷ b']' ∷ end)),
      length-append (b' ' ∷ b'(' ∷ number) (b')' ∷ b']' ∷ end),
    )

length-room_text :
    (s : Server) (rs : List Ptr)
    → ((r : Ptr) → has r rs ≡ true → length (s.room_name r) ≤ max_room_name_len)
    → length (room_text s rs) ≤ 48 * length rs
length-room_text s [] b = omega arith
length-room_text s (r ∷ rs) b = omega (
  arith,
  length-room_entry s r (b r (ground arith)),
  length-append (room_entry s r) (room_text s rs),
  length-room_text s rs (λ q h. b q (ground arith)),
)

small-texts :
    (n k : ℕ)
    → n ≤ 48 * k
    → k ≤ max_num_of_rooms
    → (ltb n max_msg_len ≡ true) × (ltb (control_header_size + n) max_msg_len ≡ true)
small-texts n k a b = (ground arith, ground arith)

abbrev pub rooms_answer : Server → Session → Answer
rooms_answer s g =
    if length g.rooms == 0
    then record { type = Msg.room_list_fail; text = no_rooms }
    else record { type = Msg.room_list_succ; text = room_text s g.rooms }

module _ (s : Server) (g : Session) (sound : IsSound s g) (fd : ℕ) (mt : Ptr)
    (names : (r : Ptr) → has r g.rooms ≡ true → length (s.room_name r) ≤ max_room_name_len) where
  none-run :
      (length g.rooms == 0) ≡ true
      → process_room_list_request fd mt s
        ≡ send_control_msg_reply fd Msg.room_list_fail (s.member_id mt) no_rooms s
  unfolding process_room_list_request
  none-run e = rw (ap (λ n. n == 0) sound.rooms.count ∙ e) refl

  entries : room_entries (s.total_num_of_rooms + 1) s.room_list_head s ≡ ok (room_text s g.rooms) s
  entries =
      ap (λ p. room_entries (s.total_num_of_rooms + 1) p s)
        (Chain-hd s.next_room s.room_list_head g.rooms sound.rooms.chain)
      ∙ room_entries-text s (s.total_num_of_rooms + 1) g.rooms (RoomsOk-Walk s g.rooms sound.rooms)
          (omega (arith, sound.rooms.count))

  text_fits :
      (ltb (length (room_text s g.rooms)) max_msg_len ≡ true)
      × (ltb (control_header_size + length (room_text s g.rooms)) max_msg_len ≡ true)
  text_fits =
      small-texts (length (room_text s g.rooms)) (length g.rooms) (length-room_text s g.rooms names)
        sound.rooms.bound

  some-run :
      (length g.rooms == 0) ≡ false
      → process_room_list_request fd mt s
        ≡ send_control_msg_reply fd Msg.room_list_succ (s.member_id mt) (room_text s g.rooms) s
  unfolding process_room_list_request
  some-run e = rw (entries, text_fits.0, ap (λ n. n == 0) sound.rooms.count ∙ e) refl

pub process_room_list_request-Answered :
    (s : Server) (g : Session) (fd : ℕ) (mt : Ptr)
    → IsSound s g
    → ((r : Ptr) → has r g.rooms ≡ true → length (s.room_name r) ≤ max_room_name_len)
    → (t : Server) × (process_room_list_request fd mt s ≡ ok tt t)
      × Answered fd mt (rooms_answer s g).type (rooms_answer s g).text s t g
process_room_list_request-Answered s g fd mt sound names = elim (Bool-cases (length g.rooms == 0)) [
  | inl e ↦
      let (t, sent, a) =
        send_control_msg_reply-Answered fd mt Msg.room_list_fail no_rooms s g sound refl in
      rw e (t, none-run s g sound fd mt names e ∙ sent, a)
  | inr e ↦
      let (t, sent, a) =
        send_control_msg_reply-Answered fd mt Msg.room_list_succ (room_text s g.rooms) s g sound
          (text_fits s g sound fd mt names).1 in
      rw e (t, some-run s g sound fd mt names e ∙ sent, a)
]
