-- ===== src/Server/State.antt =====
-- The server's memory (the structs and globals of A3/server.h) and commands over it.
use csc469_advanced_operatin.Base.{
  ℕ, zero, suc, ◌/◌, ◌%◌, Bool, List, [], ◌∷◌, ◌++◌, ◌==◌, if◌then◌else◌, length,
}
use csc469_advanced_operatin.Base.Bytes.{c_string}
use csc469_advanced_operatin.Dll.{Ptr, update, Dll}
use csc469_advanced_operatin.Wire.Header.{max_room_name_len}

-- What the server writes: a control message to a TCP connection, a datagram to a member's address.
pub data Output : Type 0 where
  reply : (fd : ℕ) → List ℕ → Output
  datagram : (addr port : ℕ) → List ℕ → Output

-- Each field of a struct is a map from addresses. `mem_list` holds `next_member` and `prev_member`
-- with the globals `mem_list_head` and `mem_list_tail`. The counters are `int`s that the code never
-- takes below 0 on a well-formed state.
pub record Server : Type 0 where
  pub live_member : Ptr → Bool
  pub member_id : Ptr → ℕ
  pub member_name : Ptr → List ℕ
  pub quiet_flag : Ptr → ℕ
  pub udp_addr : Ptr → ℕ
  pub udp_port : Ptr → ℕ
  pub num_chat_msgs : Ptr → ℕ
  pub num_bytes_rcved : Ptr → ℕ
  pub mem_list : Dll
  pub next_room_member : Ptr → Ptr
  pub prev_room_member : Ptr → Ptr
  pub current_room : Ptr → Ptr
  pub live_room : Ptr → Bool
  pub room_name : Ptr → List ℕ
  pub next_room : Ptr → Ptr
  pub num_of_members : Ptr → ℕ
  pub empty_flag : Ptr → ℕ
  pub member_list_head : Ptr → Ptr
  pub member_list_tail : Ptr → Ptr
  pub room_list_head : Ptr
  pub room_list_tail : Ptr
  pub total_num_of_members : ℕ
  pub total_num_of_rooms : ℕ
  pub sent : List Output

-- `fault` is a bad pointer or a write past a buffer, `exits` a call of `exit(1)`, and `no_fuel` a
-- loop that ran longer than the rounds it was given.
pub data Run (A : Type 0) : Type 0 where
  ok : A → Server → Run A
  fault exits no_fuel : Run A

abbrev pub Cmd : Type 0 → Type 0
Cmd A = Server → Run A

abbrev pub pure : {A : Type 0} → A → Cmd A
pure = ok

module _ {A B : Type 0} where
  abbrev pub and_then : Run A → (A → Cmd B) → Run B
  and_then (ok a s) k = k a s
  and_then fault k = fault
  and_then exits k = exits
  and_then no_fuel k = no_fuel

  infixl 5 ◌>>=◌ ◌>>◌
  abbrev pub ◌>>=◌ : Cmd A → (A → Cmd B) → Cmd B
  m >>= k = λ s. and_then (m s) k

  abbrev pub ◌>>◌ : Cmd A → Cmd B → Cmd B
  m >> n = m >>= λ _. n

abbrev pub Done : Type 0
Done = Run (Unit {0})

-- Go on only through a good pointer, or within a buffer.
abbrev pub guard : {A : Type 0} → Bool → Run A → Run A
guard good run = if good then run else fault

-- A pointer as it lies in memory: eight bytes, the lowest first.
unfoldable pub pointer_bytes : ℕ → Ptr → List ℕ
pointer_bytes zero p = []
pointer_bytes (suc n) p = (p % 256) ∷ pointer_bytes n (p / 256)

-- `rt->room_name` as a C string. A name of 24 bytes fills its array, so its text goes on in the
-- bytes of `rt->next_room`, the next field.
unfoldable pub c_room_name : Server → Ptr → List ℕ
c_room_name s rt =
    if length (s.room_name rt) == max_room_name_len
    then s.room_name rt ++ c_string (pointer_bytes 8 (s.next_room rt))
    else s.room_name rt

-- The list of the members of one room.
abbrev pub room_members : Server → Ptr → Dll
room_members s room = record {
  next = s.next_room_member;
  prev = s.prev_room_member;
  head = s.member_list_head room;
  tail = s.member_list_tail room;
}

abbrev pub put_room_members : Server → Ptr → Dll → Server
put_room_members s room l = record s {
  next_room_member = l.next;
  prev_room_member = l.prev;
  member_list_head = update s.member_list_head room l.head;
  member_list_tail = update s.member_list_tail room l.tail;
}
