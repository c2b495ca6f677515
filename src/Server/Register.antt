-- ===== src/Server/Register.antt =====
-- `process_register_request` of A3/server_util.c. What the C library returns comes in: the address
-- from `malloc`, the peer's address from `getpeername` (`none` if it fails), and the values of
-- `rand` one after the other.
pub mod Fresh
pub mod Ids
use csc469_advanced_operatin.Base.{
  ℕ, zero, suc, ◌+◌, ◌*◌, ◌/◌, ◌%◌, ◌^◌, Bool, true, false, Option, none, some, List, [], ◌∷◌, take,
  drop, ◌==◌, if◌then◌else◌, str_eq,
}
use csc469_advanced_operatin.Base.Bytes.{codes, c_string, u16_at}
use csc469_advanced_operatin.Dll.{Ptr, null, update, Dll, append}
use csc469_advanced_operatin.Wire.Header.{max_member_name_len, max_num_of_members, msgdata}
use csc469_advanced_operatin.Wire.Msg
use csc469_advanced_operatin.Server.State.{
  Server, Run, ok, fault, exits, no_fuel, Cmd, ◌>>◌, and_then, guard,
}
use csc469_advanced_operatin.Server.Reply.{send_control_msg_reply}

pub record Env : Type 0 where
  pub fresh : Ptr
  pub peer : Option ℕ
  pub rands : List ℕ

abbrev pub too_many_members : List ℕ
too_many_members = codes "Number of members reached maximum!"

abbrev pub name_taken : List ℕ
name_taken = codes "Name has already been used!"

-- `malloc`, `bzero`, and the name and port of the request.
unfoldable pub new_member : Ptr → (name : List ℕ) (port : ℕ) → Server → Server
new_member mt name port s = record s {
  live_member = update s.live_member mt true;
  member_id = update s.member_id mt 0;
  member_name = update s.member_name mt (take max_member_name_len name);
  quiet_flag = update s.quiet_flag mt 0;
  udp_addr = update s.udp_addr mt 0;
  udp_port = update s.udp_port mt port;
  num_chat_msgs = update s.num_chat_msgs mt 0;
  num_bytes_rcved = update s.num_bytes_rcved mt 0;
  mem_list = record (s.mem_list) {
    next = update s.mem_list.next mt null;
    prev = update s.mem_list.prev mt null;
  };
  next_room_member = update s.next_room_member mt null;
  prev_room_member = update s.prev_room_member mt null;
  current_room = update s.current_room mt null;
}

-- The first member from `p` on with this name, or `NULL`.
unfoldable pub find_name : ℕ → List ℕ → Ptr → Cmd Ptr
find_name zero name p s = no_fuel
find_name (suc k) name p s =
    let rest = find_name k name (s.mem_list.next p) s in
    if p == null
    then ok null s
    else guard (s.live_member p) (if str_eq (s.member_name p) name then ok p s else rest)

abbrev with_new_member : Server → Option Dll → Run Bool
with_new_member s none = fault
with_new_member s (some l) =
    ok true (record s { mem_list = l; total_num_of_members = s.total_num_of_members + 1 })

-- Into the member list, unless the name is taken.
unfoldable pub link_member : Ptr → Cmd Bool
link_member mt s =
    if s.mem_list.head == null
    then with_new_member s (append s.live_member s.mem_list mt)
    else and_then (find_name (s.total_num_of_members + 1) (s.member_name mt) s.mem_list.head s)
        λ found t.
          if found == null
          then with_new_member t (append t.live_member t.mem_list mt)
          else ok false t

-- `1 + (u_int16_t) (65535.0 * rand() / (RAND_MAX + 1.0))` with glibc's `RAND_MAX`, 2^31 - 1. The
-- product has fewer than 53 bits and the divisor is a power of 2, so the quotient is exact.
unfoldable pub draw_id : ℕ → ℕ
draw_id r = (1 + 65535 * r / 2 ^ 31 % 65536) % 65536

-- `while (tmp_ptr != mem_list_tail)`: does a member before the tail have this id?
unfoldable pub id_taken : ℕ → ℕ → Ptr → Cmd Bool
id_taken zero id p s = no_fuel
id_taken (suc k) id p s =
    let rest = id_taken k id (s.mem_list.next p) s in
    if p == s.mem_list.tail
    then ok false s
    else guard (s.live_member p) (if id == s.member_id p then ok true s else rest)

unfoldable pub set_tail_id : ℕ → Cmd (Unit {0})
set_tail_id id s =
    guard (s.live_member s.mem_list.tail)
      (ok tt (record s { member_id = update s.member_id s.mem_list.tail id }))

-- `for(;;)`: draw ids until one is free. `no_fuel` means that all the given values were used up.
unfoldable pub create_id : List ℕ → Cmd (Unit {0})
create_id [] s = no_fuel
create_id (r ∷ rs) s =
    let again = create_id rs s in
    and_then (id_taken (s.total_num_of_members + 1) (draw_id r) s.mem_list.head s)
      λ taken t. elim taken [ true ↦ again | false ↦ set_tail_id (draw_id r) t ]

unfoldable pub accept_member : (fd : ℕ) (rands : List ℕ) → Cmd (Unit {0})
accept_member fd rands = create_id rands >> λ t.
    send_control_msg_reply fd Msg.register_succ (t.member_id t.mem_list.tail) [] t

unfoldable pub register_from : (fd : ℕ) → Env → (addr : ℕ) → Cmd (Unit {0})
register_from fd env addr s =
    and_then (link_member env.fresh (record s { udp_addr = update s.udp_addr env.fresh addr }))
      λ linked t.
        if linked
        then accept_member fd env.rands t
        else send_control_msg_reply fd Msg.register_fail 0 name_taken t

register_peer : (fd : ℕ) → Env → Option ℕ → Cmd (Unit {0})
register_peer fd env none s = ok tt s
register_peer fd env (some addr) s = register_from fd env addr s

-- The data of the request: the port in two bytes, then the name.
unfoldable pub process_register_request : (fd : ℕ) → Env → (buf : List ℕ) → Cmd (Unit {0})
unfolding register_peer
process_register_request fd env buf s =
    if s.total_num_of_members == max_num_of_members
    then send_control_msg_reply fd Msg.register_fail 0 too_many_members s
    else if env.fresh == null
    then exits
    else register_peer fd env env.peer
        (new_member env.fresh (c_string (drop 2 (msgdata buf))) (u16_at 0 (msgdata buf)) s)
