-- ===== src/Server/Members.antt =====
-- The member list of A3/server_util.c, and a member's place in the list of its room.
use csc469_advanced_operatin.Base.{
  ℕ, zero, suc, ◌+◌, ◌-◌, false, Option, none, some, ◌==◌, if◌then◌else◌,
}
use csc469_advanced_operatin.Dll.{Ptr, null, update, Dll, unlink, append}
use csc469_advanced_operatin.Server.State.{
  Server, ok, fault, no_fuel, Done, Cmd, ◌>>◌, and_then, guard, room_members, put_room_members,
}

unfoldable pub find_member_from : ℕ → ℕ → Ptr → Cmd Ptr
find_member_from zero id p s = no_fuel
find_member_from (suc k) id p s =
    let rest = find_member_from k id (s.mem_list.next p) s in
    if p == null
    then ok null s
    else guard (s.live_member p) (if s.member_id p == id then ok p s else rest)

unfoldable pub find_member_with_id : ℕ → Cmd Ptr
find_member_with_id id s = find_member_from (s.total_num_of_members + 1) id s.mem_list.head s

-- The new list of the room, and the count of its members.
abbrev with_room_members : Server → Ptr → ℕ → Option Dll → Done
with_room_members s room n none = fault
with_room_members s room n (some l) =
    ok tt (record (put_room_members s room l) { num_of_members = update s.num_of_members room n })

-- Out of the list of its current room; the fields of `mt` itself are left as they are.
unfoldable pub leave_room : Ptr → Cmd (Unit {0})
leave_room mt s =
    let room = s.current_room mt in
    guard (s.live_member mt) (
      if room == null
      then ok tt s
      else guard (s.live_room room) (
          with_room_members s room (s.num_of_members room - 1)
            (unlink s.live_member (room_members s room) mt)))

abbrev with_mem_list : Server → Option Dll → Done
with_mem_list s none = fault
with_mem_list s (some l) =
    ok tt (record s { mem_list = l; total_num_of_members = s.total_num_of_members - 1 })

unfoldable pub leave_session : Ptr → Cmd (Unit {0})
leave_session mt s = with_mem_list s (unlink s.live_member s.mem_list mt)

-- The caller frees the memory.
unfoldable pub remove_member : Ptr → Cmd (Unit {0})
remove_member mt = leave_room mt >> leave_session mt

unfoldable pub free_member : Ptr → Cmd (Unit {0})
free_member mt s = ok tt (record s { live_member = update s.live_member mt false })

-- `mt` with no room behind and before it, in `room`.
unfoldable pub set_room : (mt room : Ptr) → Server → Server
set_room mt room s = record s {
  next_room_member = update s.next_room_member mt null;
  prev_room_member = update s.prev_room_member mt null;
  current_room = update s.current_room mt room;
}

unfoldable pub join_room : (mt room : Ptr) → Cmd (Unit {0})
join_room mt room s =
    with_room_members s room (s.num_of_members room + 1)
      (append s.live_member (room_members s room) mt)

unfoldable pub enter_room : (mt room : Ptr) → Cmd (Unit {0})
enter_room mt room s =
    and_then (join_room mt room (set_room mt room s))
      λ _ t. ok tt (record t { empty_flag = update t.empty_flag room 0 })
