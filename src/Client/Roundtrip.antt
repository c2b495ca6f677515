-- ===== src/Client/Roundtrip.antt =====
-- A request of the client as the server reads it.
use csc469_advanced_operatin.Base.{
  ℕ, suc, ◌+◌, ◌-◌, ◌<◌, ◌≤◌, ◌≡◌, refl, ap, ◌∙◌, true, List, [], ◌∷◌, ◌++◌, ltb, arith, length,
  take, replicate, take-append, append_assoc, length-append,
}
use csc469_advanced_operatin.Base.Bytes.{c_string, IsText, c_string-append_zero}
use csc469_advanced_operatin.Wire.Header.{
  max_room_name_len, control_header_size, ntoh_control_header, msgdata, fill_buffer,
}
use csc469_advanced_operatin.Wire.Roundtrip.{
  header_bytes, ntoh_control_header-bytes, fill_buffer-header, msgdata-header,
}
use csc469_advanced_operatin.Client.Requests.{strncpy, ctrl_buf, htons, send_ctrl_msg}

-- `strncpy` copies a whole text with its terminator.
strncpy-text :
    (name : List ℕ) → IsText name → strncpy (length name + 1) (name ++ 0 ∷ []) ≡ name ++ 0 ∷ []
unfolding strncpy
strncpy-text name t =
    ap (λ l. take (length name + 1) (l ++ replicate (length name + 1) 0))
      (c_string-append_zero name [] t)
    ∙ take-append (length name + 1) name (replicate (length name + 1) 0) (omega arith)
    ∙ ap (λ l. name ++ l) (one (length name))
  where
    one : (k : ℕ) → take {A = ℕ} (k + 1 - k) (replicate (k + 1) 0) ≡ 0 ∷ []
    one k =
        ap (λ m. take {A = ℕ} m (replicate (k + 1) 0)) (diff k)
        ∙ ap (λ m. take {A = ℕ} 1 (replicate m 0)) (next k)
      where
        diff : (k : ℕ) → k + 1 - k ≡ 1
        diff k = omega arith

        next : (k : ℕ) → k + 1 ≡ suc k
        next k = omega arith

take-header :
    (type id len n : ℕ) (rest : List ℕ)
    → 8 ≤ n
    → take n (header_bytes type id len rest) ≡ header_bytes type id len (take (n - 8) rest)
unfolding header_bytes
take-header type id len n rest b = ap (λ m. take m (header_bytes type id len rest)) (above n b)
  where
    above : (n : ℕ) → 8 ≤ n → n ≡ suc (suc (suc (suc (suc (suc (suc (suc (n - 8))))))))
    above n b = omega (arith, b)

header-append :
    (type id len : ℕ) (xs ys : List ℕ)
    → header_bytes type id len xs ++ ys ≡ header_bytes type id len (xs ++ ys)
unfolding header_bytes
header-append type id len xs ys = refl

ctrl_buf-header :
    (id type : ℕ) (name : List ℕ)
    → IsText name
    → ctrl_buf id type (name ++ 0 ∷ []) (control_header_size + length name + 1)
      ≡ header_bytes type id (control_header_size + length name + 1) (name ++ 0 ∷ [])
unfolding ctrl_buf header_bytes
ctrl_buf-header id type name t = rw (longer (length name)) (
    ap
      (λ n.
        header_bytes type id (control_header_size + length name + 1) (strncpy n (name ++ 0 ∷ [])))
      (shorter (length name))
    ∙ ap (λ l. header_bytes type id (control_header_size + length name + 1) l)
        (strncpy-text name t))
  where
    longer : (k : ℕ) → ltb control_header_size (control_header_size + k + 1) ≡ true
    longer k = ground arith

    shorter : (k : ℕ) → control_header_size + k + 1 - control_header_size ≡ k + 1
    shorter k = omega arith

-- With a length below 256 the swapped length is at least 2304, more than the buffer.
htons-short : (k : ℕ) → k ≤ max_room_name_len → 8 + (k + 1) ≤ htons (control_header_size + k + 1)
unfolding htons
htons-short k b = omega (arith, b)

c_string-first :
    (name : List ℕ) (m : ℕ) (rest : List ℕ)
    → IsText name
    → 0 < m
    → c_string (name ++ take m (0 ∷ rest)) ≡ name
c_string-first name m rest t b =
    ap (λ k. c_string (name ++ take k (0 ∷ rest))) (above m b)
    ∙ c_string-append_zero name (take (m - 1) rest) t
  where
    above : (m : ℕ) → 0 < m → m ≡ suc (m - 1)
    above m b = omega (arith, b)

module _ (beyond : List ℕ) (id type : ℕ) (name : List ℕ) (t : IsText name)
    (fits : length name ≤ max_room_name_len) where
  len : ℕ
  len = control_header_size + length name + 1

  send_ctrl_msg-header :
      (rest : List ℕ) × (send_ctrl_msg beyond id type (name ++ 0 ∷ []) len
        ≡ header_bytes type id len (name ++ 0 ∷ rest))
  unfolding len send_ctrl_msg
  send_ctrl_msg-header =
      let n = htons (control_header_size + length name + 1) in
      let b = htons-short (length name) fits in
      (
        take (n - 8 - length (name ++ 0 ∷ [])) beyond,
        ap (λ l. take n (l ++ beyond)) (ctrl_buf-header id type name t)
            ∙ ap (take n) (header-append type id len (name ++ 0 ∷ []) beyond)
            ∙ take-header type id len n ((name ++ 0 ∷ []) ++ beyond) (omega (arith, b))
            ∙ ap (header_bytes type id len) (
                take-append (n - 8) (name ++ 0 ∷ []) beyond
                  (omega (arith, b, length-append name (0 ∷ [])))
                ∙ append_assoc name (0 ∷ []) (take (n - 8 - length (name ++ 0 ∷ [])) beyond)),
      )

-- The server reads from a client's request for a room the type, the id, the length and the name
-- that the client put in, whatever lies in the client's memory behind the message: for a type and
-- an id of 16 bits, and a name without zeros of at most 24 characters.
pub send_ctrl_msg-roundtrip :
    (beyond : List ℕ) (id type : ℕ) (name : List ℕ)
    → (type < 65536) × (id < 65536)
    → IsText name
    → length name ≤ max_room_name_len
    → (ntoh_control_header (
          fill_buffer
            (send_ctrl_msg beyond id type (name ++ 0 ∷ []) (control_header_size + length name + 1)))
        ≡ record {
          msg_type = type;
          member_id = id;
          msg_len = control_header_size + length name + 1;
        })
      × (c_string (
            msgdata (
              fill_buffer (
                send_ctrl_msg beyond id type
                  (name ++ 0 ∷ [])
                  (control_header_size + length name + 1))))
          ≡ name)
unfolding len
send_ctrl_msg-roundtrip beyond id type name (a, b) t fits =
    let n = control_header_size + length name + 1 in
    let (rest, sent) = send_ctrl_msg-header beyond id type name t fits in
    let buf =
      ap fill_buffer sent ∙ fill_buffer-header type id n name (0 ∷ rest) (omega (arith, fits)) in
    (
      ap ntoh_control_header buf
          ∙ ntoh_control_header-bytes type id n _ (a, b, omega (arith, fits)),
      ap (λ l. c_string (msgdata l)) buf
          ∙ ap c_string (msgdata-header type id n _)
          ∙ c_string-first name (2040 - length name) _ t (omega (arith, fits)),
    )
