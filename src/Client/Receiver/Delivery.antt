-- ===== src/Client/Receiver/Delivery.antt =====
-- What the members of a room see of a chat message.
use csc469_advanced_operatin.Base.{
  ℕ, zero, suc, ◌+◌, ◌-◌, ◌%◌, ◌^◌, ◌≤◌, ◌<◌, ◌≡◌, ◌≢◌, refl, sym, ap, ◌∙◌, Option, some, List, [],
  ◌∷◌, ◌++◌, ◌==◌, if◌then◌else◌, length, take, drop, replicate, min, take-append, ≢→==, arith,
}
use csc469_advanced_operatin.Base.Bytes.{c_string, IsText, u16_bytes, u16_at}
use csc469_advanced_operatin.Dll.{Ptr, null}
use csc469_advanced_operatin.Wire.Header.{max_msg_len, chat_header_size}
use csc469_advanced_operatin.Client.Requests.{strncpy}
use csc469_advanced_operatin.Client.Commands.{chat_msg}
use csc469_advanced_operatin.Client.Receiver.{handle_received_msg, recv_into}
use csc469_advanced_operatin.Client.Receiver.Chat.{
  packet, packet-append, length-packet, take-length, full_name, shown, received, filled,
  named_packet,
}
use csc469_advanced_operatin.Server.State.{Server, ok}
use csc469_advanced_operatin.Server.Chat.{put_name, process_chat_msg}
use csc469_advanced_operatin.Server.Sound.{Session, IsSound}
use csc469_advanced_operatin.Server.Walk.{first}
use csc469_advanced_operatin.Server.Chat.Delivery.{
  datagrams, audience, delivered, after_chat, process_chat_msg-delivered,
}

-- The sender's 24 bytes as the client fills them.
abbrev from_id : ℕ → List ℕ
from_id id = u16_bytes id ++ replicate 22 0

module _ (beyond : List ℕ) (id : ℕ) (text : List ℕ) (t : IsText text)
    (fits : length text + 27 ≤ max_msg_len) where
  size : ℕ
  size = length text + 27

  copied : (z : List ℕ) × (strncpy max_msg_len text ≡ text ++ (0 ∷ z))
  unfolding strncpy
  copied = (
    replicate (max_msg_len - length text - 1) 0,
    ap (λ l. take max_msg_len (l ++ replicate max_msg_len 0)) (no_zero text t)
        ∙ take-append max_msg_len text (replicate max_msg_len 0) (omega arith)
        ∙ ap (λ l. text ++ l)
            (zeros (max_msg_len - length text) max_msg_len (omega arith)
              ∙ one_more (max_msg_len - length text) (omega (arith, fits))),
  )
    where
      one_more : (k : ℕ) → 0 < k → replicate {A = ℕ} k 0 ≡ 0 ∷ replicate (k - 1) 0
      one_more zero b = absurd (omega arith)
      one_more (suc k) b = ap (λ n. 0 ∷ replicate n 0) (omega arith)

      no_zero : (text : List ℕ) → IsText text → c_string text ≡ text
      no_zero [] t = refl
      no_zero (x ∷ xs) t = ground (arith, no_zero xs t.1)

      zeros : (k n : ℕ) → k ≤ n → take {A = ℕ} k (replicate n 0) ≡ replicate k 0
      zeros zero n le = refl
      zeros (suc k) zero le = absurd (omega arith)
      zeros (suc k) (suc n) le = ap (λ l. 0 ∷ l) (zeros k n (omega arith))

  chat_msg-packet : chat_msg beyond id text ≡ packet (from_id id) size text []
  unfolding chat_msg size
  chat_msg-packet =
      let n = length text + 27 in
      let (z, copy) = copied in
      let small : (length text + chat_header_size + 1) % 2 ^ 16 ≡ n = omega (arith, fits) in
      ap
        (λ k.
          take k (u16_bytes id ++ (replicate 22 0 ++ (u16_bytes k ++ strncpy max_msg_len text))))
        small
      ∙ ap (λ l. take n (u16_bytes id ++ (replicate 22 0 ++ (u16_bytes n ++ l)))) copy
      ∙ ap (take n) (sym (packet-append (from_id id) n text z))
      ∙ take-length (packet (from_id id) n text []) z n
          (sym (length-packet (from_id id) n text refl))

  -- The heading and the text that every receiver shows.
  module _ (sendto : (addr port n : ℕ) → Option ℕ)
      (all : (addr port n : ℕ) → sendto addr port n ≡ some n) (s : Server) (g : Session)
      (sound : IsSound s g) (is_id : id < 65536) where
    id_read : (behind : List ℕ) → u16_at 0 (packet (from_id id) size text behind) ≡ id
    id_read behind = omega (arith, is_id)

    -- The bytes that the server sends on.
    forwarded : Ptr → List ℕ
    unfolding size
    forwarded mt =
        let name = s.member_name mt in
        packet (name ++ (0 ∷ drop (length name + 1) (from_id id))) (length text + 27) text []

    forwarded-after :
        (mt : Ptr)
        → mt ≢ null
        → first (λ m. s.member_id m == id) g.members ≡ mt
        → length (s.member_name mt) < 24
        → after_chat s g (chat_msg beyond id text) ≡ delivered s g mt size (forwarded mt)
    unfolding forwarded size
    forwarded-after mt ne found lt =
        let n = length text + 27 in
        let bytes = packet (from_id id) n text [] in
        let (behind, buffer) = filled text t n refl fits (from_id id) refl in
        let count : min (length bytes) max_msg_len ≡ n =
          omega (arith, length-packet (from_id id) n text refl, fits) in
        ap (after_chat s g) chat_msg-packet
        ∙ ap
            (λ buf.
              let m = first (λ m. s.member_id m == u16_at 0 buf) g.members in
              let k = min (length bytes) max_msg_len in
              if m == null then s else delivered s g m k (take k (put_name (s.member_name m) buf)))
            buffer
        ∙ ap
            (λ i.
              let m = first (λ m. s.member_id m == i) g.members in
              let k = min (length bytes) max_msg_len in
              if m == null
              then s
              else delivered s g m k
                  (take k (put_name (s.member_name m) (packet (from_id id) n text behind))))
            (id_read behind)
        ∙ ap
            (λ m.
              let k = min (length bytes) max_msg_len in
              if m == null
              then s
              else delivered s g m k
                  (take k (put_name (s.member_name m) (packet (from_id id) n text behind))))
            found
        ∙ ap
            (λ b.
              let k = min (length bytes) max_msg_len in
              if b
              then s
              else delivered s g mt k
                  (take k (put_name (s.member_name mt) (packet (from_id id) n text behind))))
            (≢→== mt null ne)
        ∙ ap
            (λ k.
              delivered s g mt k
                (take k (put_name (s.member_name mt) (packet (from_id id) n text behind))))
            count
        ∙ ap (λ l. delivered s g mt n l)
            (named_packet text t n refl fits (from_id id) (s.member_name mt) behind refl lt)

    forwarded-shown :
        (mt : Ptr) (old : List ℕ)
        → IsText (s.member_name mt)
        → length (s.member_name mt) < 24
        → handle_received_msg (recv_into (forwarded mt) old)
          ≡ s.member_name mt ++ (b':' ∷ b' ' ∷ text)
    unfolding forwarded
    forwarded-shown mt old named lt =
        let name = s.member_name mt in
        let n = length text + 27 in
        let whole = full_name (from_id id) name refl lt in
        let (behind, buffer) =
          received text t n refl fits (name ++ (0 ∷ drop (length name + 1) (from_id id))) old
            whole in
        ap handle_received_msg buffer
        ∙ shown text t n refl fits name (drop (length name + 1) (from_id id)) behind named whole

-- A line that a member types reaches every member of its room, and what each of their receivers shows
-- is the member's name, a colon, a space and the line, whatever the receiver's buffer held before.
-- This is for a member with a name of fewer than 24 characters whose 16-bit id is that of the first
-- member with it, a line without zeros that fits into a datagram of 2048 bytes with its header,
-- a well-formed server, and a `sendto` that sends what it is given; `beyond` is a parameter of
-- the client's functions.
pub chat-roundtrip :
    (beyond : List ℕ) (sendto : (addr port n : ℕ) → Option ℕ) (s : Server) (g : Session) (mt : Ptr)
    (id : ℕ) (text : List ℕ)
    → ((addr port n : ℕ) → sendto addr port n ≡ some n)
    → IsSound s g
    → (mt ≢ null) × (first (λ m. s.member_id m == id) g.members ≡ mt) × (id < 65536)
    → IsText (s.member_name mt) × (length (s.member_name mt) < 24)
    → IsText text × (length text + 27 ≤ max_msg_len)
    → (bytes : List ℕ) × (t : Server) × (process_chat_msg sendto (some (chat_msg beyond id text)) s
        ≡ ok tt t)
      × (t.sent ≡ s.sent ++ datagrams s bytes (audience s g mt))
      × ((old : List ℕ)
          → handle_received_msg (recv_into bytes old) ≡ s.member_name mt ++ (b':' ∷ b' ' ∷ text))
unfolding size
chat-roundtrip beyond sendto s g mt id text all sound (ne, found, is_id) (named, lt) (t, fits) =
    let bytes = forwarded beyond id text t fits sendto all s g sound is_id mt in
    (
      bytes,
      delivered s g mt (length text + 27) bytes,
      (process_chat_msg-delivered sendto s g (chat_msg beyond id text) all sound).0
          ∙ ap (ok tt)
              (forwarded-after beyond id text t fits sendto all s g sound is_id mt ne found lt),
      refl,
      λ old. forwarded-shown beyond id text t fits sendto all s g sound is_id mt old named lt,
    )
