-- ===== src/Client/Receiver/Chat.antt =====
-- A chat message on its way from one client over the server to the receivers of the others.
use csc469_advanced_operatin.Base.{
  ℕ, zero, suc, ◌+◌, ◌-◌, ◌/◌, ◌%◌, ◌≤◌, ◌<◌, ◌≡◌, refl, sym, ap, ◌∙◌, true, List, [], ◌∷◌, ◌++◌,
  leb, length, take, drop, replicate, get_or, take-append, append_assoc, append-nil, length-append,
  arith,
}
use csc469_advanced_operatin.Base.Bytes.{c_string, IsText, c_string-append_zero, u16_bytes, u16_at}
use csc469_advanced_operatin.Wire.Header.{chat_header_size, max_msg_len, fill_buffer}
use csc469_advanced_operatin.Client.Receiver.{at_most, handle_received_msg, recv_into}
use csc469_advanced_operatin.Server.Chat.{put_name}

drop-append : (k : ℕ) (xs ys : List ℕ) → k ≤ length xs → drop k (xs ++ ys) ≡ drop k xs ++ ys
drop-append zero xs ys b = refl
drop-append (suc k) [] ys b = absurd (omega (arith, b))
drop-append (suc k) (x ∷ xs) ys b = drop-append k xs ys (omega (arith, b))

length-drop : (k : ℕ) (xs : List ℕ) → length (drop k xs) ≡ length xs - k
length-drop zero xs = omega arith
length-drop (suc k) [] = omega arith
length-drop (suc k) (x ∷ xs) = omega (arith, length-drop k xs)

drop-length : (xs ys : List ℕ) (k : ℕ) → k ≡ length xs → drop k (xs ++ ys) ≡ ys
drop-length xs ys k e = ap (λ m. drop m (xs ++ ys)) e ∙ all xs ys
  where
    all : (xs ys : List ℕ) → drop (length xs) (xs ++ ys) ≡ ys
    all [] ys = refl
    all (x ∷ xs) ys = all xs ys

pub take-length : (xs ys : List ℕ) (k : ℕ) → k ≡ length xs → take k (xs ++ ys) ≡ xs
take-length xs ys k e = ap (λ m. take m (xs ++ ys)) e ∙ all xs ys
  where
    all : (xs ys : List ℕ) → take (length xs) (xs ++ ys) ≡ xs
    all [] ys = refl
    all (x ∷ xs) ys = ap (λ l. x ∷ l) (all xs ys)

get_or-append : (xs ys : List ℕ) (i d : ℕ) → get_or (xs ++ ys) (length xs + i) d ≡ get_or ys i d
get_or-append [] ys i d = ap (λ k. get_or ys k d) (omega arith)
get_or-append (x ∷ xs) ys i d =
    ap (λ k. get_or (x ∷ (xs ++ ys)) k d) (next (length xs) i) ∙ get_or-append xs ys i d
  where
    next : (n i : ℕ) → suc n + i ≡ suc (n + i)
    next n i = omega arith

pub full_name :
    (sender name : List ℕ)
    → length sender ≡ 24
    → length name < 24
    → length (name ++ (0 ∷ drop (length name + 1) sender)) ≡ 24
full_name sender name e lt = omega (
  arith,
  e,
  length-append name (0 ∷ drop (length name + 1) sender),
  length-drop (length name + 1) sender,
)

-- A datagram: 24 bytes for the sender, the length, the text with its terminator; `behind` is what
-- stands behind it in a buffer.
abbrev pub packet : List ℕ → ℕ → List ℕ → List ℕ → List ℕ
packet sender size text behind = sender ++ (u16_bytes size ++ (text ++ (0 ∷ behind)))

pub length-packet :
    (sender : List ℕ) (size : ℕ) (text : List ℕ)
    → length sender ≡ 24
    → length (packet sender size text []) ≡ length text + 27
length-packet sender size text e = omega (
  arith,
  e,
  length-append sender (u16_bytes size ++ (text ++ 0 ∷ [])),
  length-append text (0 ∷ []),
)

pub packet-append :
    (sender : List ℕ) (size : ℕ) (text ys : List ℕ)
    → packet sender size text [] ++ ys ≡ packet sender size text ys
packet-append sender size text ys =
    append_assoc sender (u16_bytes size ++ (text ++ 0 ∷ [])) ys
    ∙ ap (λ l. sender ++ (u16_bytes size ++ l)) (append_assoc text (0 ∷ []) ys)

module _ (text : List ℕ) (t : IsText text) (size : ℕ) (is_size : size ≡ length text + 27)
    (fits : size ≤ max_msg_len) where
  -- What the receiver makes of a datagram, whatever its buffer held before.
  text_read : (behind : List ℕ) → at_most size (text ++ (0 ∷ behind)) ≡ text
  unfolding at_most
  text_read behind =
      rw (c_string-append_zero text behind t, long)
        (ap (take (size - chat_header_size)) (sym (append-nil text))
          ∙ take-append (size - chat_header_size) text [] (omega arith)
          ∙ ap (λ l. text ++ l) (nothing (size - chat_header_size - length text))
          ∙ append-nil text)
    where
      long : leb chat_header_size size ≡ true
      long = ground (arith, is_size)

      nothing : (k : ℕ) → take {A = ℕ} k [] ≡ []
      nothing zero = refl
      nothing (suc k) = refl

  size_read :
      (sender behind : List ℕ)
      → length sender ≡ 24
      → u16_at 24 (packet sender size text behind) ≡ size
  size_read sender behind e =
      let tail = u16_bytes size ++ (text ++ (0 ∷ behind)) in
      let high : get_or (sender ++ tail) 24 0 ≡ size / 256 % 256 =
        ap (λ k. get_or (sender ++ tail) k 0) (omega (arith, e)) ∙ get_or-append sender tail 0 0 in
      let low : get_or (sender ++ tail) 25 0 ≡ size % 256 =
        ap (λ k. get_or (sender ++ tail) k 0) (omega (arith, e)) ∙ get_or-append sender tail 1 0 in
      omega (arith, high, low)

  pub shown :
      (name rest behind : List ℕ)
      → IsText name
      → length (name ++ (0 ∷ rest)) ≡ 24
      → handle_received_msg (packet (name ++ (0 ∷ rest)) size text behind)
        ≡ name ++ (b':' ∷ b' ' ∷ text)
  unfolding handle_received_msg
  shown name rest behind n e =
      let sender = name ++ (0 ∷ rest) in
      let buf = packet sender size text behind in
      let named : c_string buf ≡ name =
        ap c_string (append_assoc name (0 ∷ rest) (u16_bytes size ++ (text ++ (0 ∷ behind))))
        ∙ c_string-append_zero name (rest ++ (u16_bytes size ++ (text ++ (0 ∷ behind)))) n in
      let body : drop chat_header_size buf ≡ text ++ (0 ∷ behind) =
        ap (drop chat_header_size)
          (sym (append_assoc sender (u16_bytes size) (text ++ (0 ∷ behind))))
        ∙ drop-length (sender ++ u16_bytes size) (text ++ (0 ∷ behind)) chat_header_size
            (omega (arith, e, length-append sender (u16_bytes size))) in
      ap (λ l. l ++ (b':' ∷ b' ' ∷ at_most (u16_at 24 buf) (drop chat_header_size buf))) named
      ∙ ap (λ l. name ++ (b':' ∷ b' ' ∷ at_most (u16_at 24 buf) l)) body
      ∙ ap (λ k. name ++ (b':' ∷ b' ' ∷ at_most k (text ++ (0 ∷ behind))))
          (size_read sender behind e)
      ∙ ap (λ l. name ++ (b':' ∷ b' ' ∷ l)) (text_read behind)

  pub received :
      (sender old : List ℕ)
      → length sender ≡ 24
      → (behind : List ℕ) × (recv_into (packet sender size text []) old
          ≡ packet sender size text behind)
  unfolding recv_into
  received sender old e =
      let bytes = packet sender size text [] in
      let whole : take max_msg_len bytes ≡ bytes =
        ap (take max_msg_len) (sym (append-nil bytes))
        ∙ take-append max_msg_len bytes [] (omega (arith, length-packet sender size text e))
        ∙ ap (λ l. bytes ++ l) (nothing (max_msg_len - length bytes))
        ∙ append-nil bytes in
      (
        drop (length bytes) old,
        ap (λ l. l ++ drop (length l) old) whole
            ∙ packet-append sender size text (drop (length bytes) old),
      )
    where
      nothing : (k : ℕ) → take {A = ℕ} k [] ≡ []
      nothing zero = refl
      nothing (suc k) = refl

  -- The server's buffer, and the datagram with the name in front.
  pub filled :
      (sender : List ℕ)
      → length sender ≡ 24
      → (behind : List ℕ) × (fill_buffer (packet sender size text [])
          ≡ packet sender size text behind)
  unfolding fill_buffer
  filled sender e =
      let bytes = packet sender size text [] in
      let rest : List ℕ = take (max_msg_len - length bytes) (replicate max_msg_len 0) in
      (
        rest,
        take-append max_msg_len bytes (replicate max_msg_len 0)
              (omega (arith, length-packet sender size text e))
            ∙ packet-append sender size text rest,
      )

  pub named_packet :
      (sender name behind : List ℕ)
      → length sender ≡ 24
      → length name < 24
      → take size (put_name name (packet sender size text behind))
        ≡ packet (name ++ (0 ∷ drop (length name + 1) sender)) size text []
  unfolding put_name
  named_packet sender name behind e lt =
      let tail = u16_bytes size ++ (text ++ (0 ∷ behind)) in
      let sender' = name ++ (0 ∷ drop (length name + 1) sender) in
      let front : put_name name (packet sender size text behind) ≡ packet sender' size text behind =
        ap (λ l. name ++ (0 ∷ l)) (drop-append (length name + 1) sender tail (omega (arith, e, lt)))
        ∙ sym (append_assoc name (0 ∷ drop (length name + 1) sender) tail) in
      ap (take size) (front ∙ sym (packet-append sender' size text behind))
      ∙ take-length (packet sender' size text []) behind size
          (omega (arith, is_size, length-packet sender' size text (full_name sender name e lt)))
