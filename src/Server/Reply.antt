-- ===== src/Server/Reply.antt =====
-- `send_control_msg_reply` of A3/server_util.c. The log file, and `dump_control_msg` that writes
-- it, are left out.
use csc469_advanced_operatin.Base.{ℕ, ◌+◌, List, [], ◌∷◌, ◌++◌, ltb, length}
use csc469_advanced_operatin.Wire.Header.{control_msg, control_header_size, max_msg_len}
use csc469_advanced_operatin.Server.State.{reply, ok, Cmd, guard}

-- The text and its terminator must fit behind the header in `msg_buf`. No text is the empty one.
unfoldable pub send_control_msg_reply : ℕ → ℕ → ℕ → List ℕ → Cmd (Unit {0})
send_control_msg_reply fd type id text s =
    guard (ltb (control_header_size + length text) max_msg_len)
      (ok tt (record s { sent = s.sent ++ (reply fd (control_msg type id text) ∷ []) }))
