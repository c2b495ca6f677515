-- ===== src/Server/Chat.antt =====
-- `process_chat_msg` of A3/server_util.c: a chat message goes to everybody in the sender's room.
-- `sendto addr port n` is the result of that system call: the bytes sent, or `none` for an error.
pub mod Delivery
use csc469_advanced_operatin.Base.{
  ℕ, zero, suc, ◌+◌, Option, none, some, List, [], ◌∷◌, ◌++◌, take, drop, length, min, ◌==◌,
  if◌then◌else◌,
}
use csc469_advanced_operatin.Base.Bytes.{u16_at}
use csc469_advanced_operatin.Dll.{Ptr, null, update}
use csc469_advanced_operatin.Wire.Header.{fill_buffer, max_msg_len}
use csc469_advanced_operatin.Server.State.{Server, datagram, ok, no_fuel, Cmd, and_then, guard}
use csc469_advanced_operatin.Server.Members.{find_member_with_id}

-- `strcpy` of the sender's name over the front of the message, its terminator included.
unfoldable pub put_name : List ℕ → List ℕ → List ℕ
put_name name buf = name ++ (0 ∷ drop (length name + 1) buf)

-- What the message changes in its sender.
unfoldable pub count_chat : Ptr → (n : ℕ) → Server → Server
count_chat mt n s = record s {
  quiet_flag = update s.quiet_flag mt 0;
  num_chat_msgs = update s.num_chat_msgs mt (s.num_chat_msgs mt + 1);
  num_bytes_rcved = update s.num_bytes_rcved mt (s.num_bytes_rcved mt + n);
}

module _ (sendto : (addr port n : ℕ) → Option ℕ) where
  unfoldable pub broadcast : ℕ → (n : ℕ) → List ℕ → Ptr → Cmd (Unit {0})
  broadcast zero n buf p s = no_fuel
  broadcast (suc k) n buf p s =
      let to = datagram (s.udp_addr p) (s.udp_port p) (take n buf) in
      let rest = λ (m : ℕ).
        broadcast k m buf (s.next_room_member p) (record s { sent = s.sent ++ (to ∷ []) }) in
      if p == null
      then ok tt s
      else guard (s.live_member p)
          (elim (sendto (s.udp_addr p) (s.udp_port p) n) [ none ↦ ok tt s | some m ↦ rest m ])

  unfoldable pub process_chat_from : (n : ℕ) → List ℕ → Ptr → Cmd (Unit {0})
  process_chat_from n buf mt s =
      let room = s.current_room mt in
      if room == null
      then ok tt (count_chat mt n s)
      else guard (s.live_room room) (
          broadcast (s.num_of_members room + 1) n (put_name (s.member_name mt) buf)
            (s.member_list_head room) (count_chat mt n s))

  -- `none` is a `recvfrom` that fails; a longer datagram is cut to the buffer.
  unfoldable pub process_chat_msg : Option (List ℕ) → Cmd (Unit {0})
  process_chat_msg none s = ok tt s
  process_chat_msg (some bytes) s =
      let buf = fill_buffer bytes in
      and_then (find_member_with_id (u16_at 0 buf) s) λ mt t.
        if mt == null then ok tt t else process_chat_from (min (length bytes) max_msg_len) buf mt t
