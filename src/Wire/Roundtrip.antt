-- ===== src/Wire/Roundtrip.antt =====
-- A reply of the server as the client reads it.
use csc469_advanced_operatin.Base.{
  ℕ, ◌+◌, ◌*◌, ◌-◌, ◌/◌, ◌%◌, ◌<◌, ◌≤◌, ◌≡◌, refl, ap, ◌∙◌, List, [], ◌∷◌, ◌++◌, arith, length,
  take, replicate, take-append, append_assoc, append-nil, sym, suc,
}
use csc469_advanced_operatin.Base.Bytes.{c_string, IsText, c_string-append_zero, u16_bytes}
use csc469_advanced_operatin.Wire.Header.{
  max_msg_len, control_header_size, control_msg, ntoh_control_header, msgdata, fill_buffer,
}

pub u16_value : (n : ℕ) → n < 65536 → n / 256 % 256 * 256 + n % 256 ≡ n
u16_value n b = omega arith

-- The eight bytes of a header before anything else.
unfoldable pub header_bytes : (type id len : ℕ) → List ℕ → List ℕ
header_bytes type id len rest =
    u16_bytes type ++ (u16_bytes id ++ (u16_bytes len ++ (0 ∷ 0 ∷ rest)))

pub ntoh_control_header-bytes :
    (type id len : ℕ) (rest : List ℕ)
    → (type < 65536) × (id < 65536) × (len < 65536)
    → ntoh_control_header (header_bytes type id len rest)
      ≡ record { msg_type = type; member_id = id; msg_len = len }
unfolding ntoh_control_header header_bytes
ntoh_control_header-bytes type id len rest (a, b, c) =
    rw (u16_value type a, u16_value id b, u16_value len c) refl

-- The buffer keeps what fits, and has zeros behind it.
pub fill_buffer-header :
    (type id len : ℕ) (text : List ℕ) (after : List ℕ)
    → control_header_size + length text ≤ max_msg_len
    → fill_buffer (header_bytes type id len (text ++ after))
      ≡ header_bytes type id len (
          text
          ++ take
              (max_msg_len - control_header_size - length text)
              (after ++ replicate max_msg_len 0))
unfolding fill_buffer header_bytes
fill_buffer-header type id len text after b =
    ap (λ l. u16_bytes type ++ (u16_bytes id ++ (u16_bytes len ++ (0 ∷ 0 ∷ l))))
      (ap (take 2040) (append_assoc text after (replicate max_msg_len 0))
        ∙ take-append 2040 text (after ++ replicate max_msg_len 0) (omega (arith, b)))

pub control_msg-header :
    (type id : ℕ) (text : List ℕ)
    → control_msg type id text ≡ header_bytes type id (control_header_size + length text) text
unfolding control_msg header_bytes
control_msg-header type id text = refl

pub msgdata-header :
    (type id len : ℕ) (rest : List ℕ) → msgdata (header_bytes type id len rest) ≡ rest
unfolding header_bytes
msgdata-header type id len rest = refl

above : (m : ℕ) → 0 < m → m ≡ suc (m - 1)
above m b = omega (arith, b)

c_string-padded :
    (text : List ℕ) (m : ℕ)
    → IsText text
    → 0 < m
    → c_string (text ++ take m (replicate max_msg_len 0)) ≡ text
c_string-padded text m t b =
    ap (λ k. c_string (text ++ take k (replicate max_msg_len 0))) (above m b)
    ∙ c_string-append_zero text (take (m - 1) (replicate 2047 0)) t

-- The header and the text of a reply that fits into the buffer, with type and id of 16 bits and a
-- text without zeros, are what the client reads from it.
pub control_msg-roundtrip :
    (type id : ℕ) (text : List ℕ)
    → (type < 65536) × (id < 65536)
    → IsText text
    → control_header_size + length text < max_msg_len
    → (ntoh_control_header (fill_buffer (control_msg type id text))
        ≡ record { msg_type = type; member_id = id; msg_len = control_header_size + length text })
      × (c_string (msgdata (fill_buffer (control_msg type id text))) ≡ text)
control_msg-roundtrip type id text (a, b) t fits =
    let len = control_header_size + length text in
    let buf : fill_buffer (control_msg type id text)
        ≡ header_bytes type id len (text ++ take (2040 - length text) (replicate max_msg_len 0)) =
      ap fill_buffer (control_msg-header type id text)
      ∙ ap (λ l. fill_buffer (header_bytes type id len l)) (sym (append-nil text))
      ∙ fill_buffer-header type id len text [] (omega (arith, fits)) in
    (
      ap ntoh_control_header buf
          ∙ ntoh_control_header-bytes type id len _ (a, b, omega (arith, fits)),
      ap (λ l. c_string (msgdata l)) buf
          ∙ ap c_string (msgdata-header type id len _)
          ∙ c_string-padded text (2040 - length text) t (omega (arith, fits)),
    )
