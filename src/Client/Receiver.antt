-- ===== src/Client/Receiver.antt =====
-- The receiver of A3/client_recv.c, the client's second process: the port that it finds, and what it
-- shows of the messages from the chat server and from the client's first process.
pub mod Ports
pub mod Chat
pub mod Delivery
use csc469_advanced_operatin.Base.{
  ℕ, zero, suc, ◌+◌, ◌-◌, Bool, true, false, Option, none, some, List, [], ◌∷◌, ◌++◌, ltb, leb,
  ◌==◌, if◌then◌else◌, length, take, drop,
}
use csc469_advanced_operatin.Base.Bytes.{c_string, u16_at}
use csc469_advanced_operatin.Wire.Header.{chat_header_size, max_msg_len}

abbrev pub port_start : ℕ
port_start = 7000

abbrev pub num_port_retry : ℕ
num_port_retry = 200

-- The message to the first process, and whether the receiver goes on: `send_ok` with the port, or
-- `send_error` with `BIND_FAILED` before `exit`.
pub data Started : Type 0 where
  send_ok : (port : ℕ) → Started
  send_bind_failed : Started
  no_fuel : Started

-- The loop around `bind`, which succeeds at the ports that are `free`.
unfoldable pub bind_from : ℕ → (ℕ → Bool) → ℕ → Started
bind_from zero free port_serv = no_fuel
bind_from (suc k) free port_serv = elim (free port_serv) [
  | true ↦ send_ok port_serv
  | false ↦ elim (ltb (port_start + num_port_retry) port_serv) [
    | true ↦ send_bind_failed
    | false ↦ bind_from k free (port_serv + 1)
  ]
]

-- `init_receiver` with a socket.
unfoldable pub init_receiver : (ℕ → Bool) → Started
unfolding bind_from
init_receiver free = bind_from (num_port_retry + 2) free port_start

-- What stands on the screen: the notice of a new channel, or the line of a message.
pub data Shown : Type 0 where
  switched_channel : Shown
  line : List ℕ → Shown

-- `printf("%.*s", n, text)` with `n` the length in the header without the header: a negative
-- number does not limit the text.
unfoldable pub at_most : ℕ → List ℕ → List ℕ
at_most msg_len text =
    if leb chat_header_size msg_len
    then take (msg_len - chat_header_size) (c_string text)
    else c_string text

-- `"%s: "` with the name, and the text.
unfoldable pub handle_received_msg : List ℕ → List ℕ
unfolding at_most
handle_received_msg buf =
    c_string buf ++ (b':' ∷ b' ' ∷ at_most (u16_at 24 buf) (drop chat_header_size buf))

-- `recv` writes over the front of the buffer; what was received before stands behind.
unfoldable pub recv_into : List ℕ → List ℕ → List ℕ
recv_into bytes buf = take max_msg_len bytes ++ drop (length (take max_msg_len bytes)) buf

-- What one round of the loop finds: the status in a message of the first process, and a datagram.
pub record Round : Type 0 where
  pub queue : Option ℕ
  pub datagram : Option (List ℕ)

abbrev pub chat_quit : ℕ
chat_quit = 3

abbrev pub switched_chan : ℕ
switched_chan = 4

unfoldable pub show_queue : Option ℕ → List Shown
show_queue none = []
show_queue (some status) = if status == switched_chan then switched_channel ∷ [] else []

-- An empty datagram is not shown.
unfoldable pub show_datagram : Option (List ℕ) → List ℕ → List Shown
unfolding handle_received_msg recv_into
show_datagram none buf = []
show_datagram (some []) buf = []
show_datagram (some (b ∷ bs)) buf = line (handle_received_msg (recv_into (b ∷ bs) buf)) ∷ []

unfoldable pub buffer_after : Option (List ℕ) → List ℕ → List ℕ
unfolding recv_into
buffer_after none buf = buf
buffer_after (some bytes) buf = recv_into bytes buf

unfoldable pub quits : Option ℕ → Bool
quits none = false
quits (some status) = status == chat_quit

-- What the rounds show; true if the loop was left.
unfoldable pub receive_msgs : List ℕ → List Round → List Shown × Bool
unfolding show_queue show_datagram buffer_after quits
receive_msgs buf [] = ([], false)
receive_msgs buf (r ∷ rounds) =
    let rest = receive_msgs (buffer_after r.datagram buf) rounds in
    if quits r.queue
    then ([], true)
    else (show_queue r.queue ++ (show_datagram r.datagram buf ++ rest.0), rest.1)
