-- ===== src/Server/Rooms.antt =====
-- The room list of A3/server_util.c: searching it, `create_room` and `remove_room`.
pub mod Remove
use csc469_advanced_operatin.Base.{
  ℕ, zero, suc, ◌+◌, ◌-◌, true, false, List, [], ltb, ◌==◌, if◌then◌else◌, length, str_eq,
}
use csc469_advanced_operatin.Dll.{Ptr, null, update}
use csc469_advanced_operatin.Wire.Header.{max_room_name_len, max_num_of_rooms}
use csc469_advanced_operatin.Server.State.{
  Server, ok, exits, no_fuel, Cmd, and_then, guard, c_room_name,
}

-- `for (tmp = p; tmp != NULL; tmp = tmp->next_room) if (!strcmp(name, tmp->room_name))`: the room
-- found, or `NULL`.
unfoldable pub find_room : ℕ → List ℕ → Ptr → Cmd Ptr
find_room zero name p s = no_fuel
find_room (suc k) name p s =
    let rest = find_room k name (s.next_room p) s in
    if p == null
    then ok null s
    else guard (s.live_room p) (if str_eq name (c_room_name s p) then ok p s else rest)

-- `malloc`, `bzero` and `strcpy` of the name.
unfoldable pub new_room : Ptr → List ℕ → Server → Server
new_room rt name s = record s {
  live_room = update s.live_room rt true;
  room_name = update s.room_name rt name;
  next_room = update s.next_room rt null;
  num_of_members = update s.num_of_members rt 0;
  empty_flag = update s.empty_flag rt 0;
  member_list_head = update s.member_list_head rt null;
  member_list_tail = update s.member_list_tail rt null;
}

unfoldable pub add_first_room : Ptr → Cmd ℕ
add_first_room rt s = ok 0 (record s {
  room_list_head = rt;
  room_list_tail = rt;
  total_num_of_rooms = s.total_num_of_rooms + 1;
})

unfoldable pub add_room : Ptr → Cmd ℕ
add_room rt s = guard (s.live_room s.room_list_tail) (
    ok 0 (record s {
      next_room = update s.next_room s.room_list_tail rt;
      room_list_tail = rt;
      total_num_of_rooms = s.total_num_of_rooms + 1;
    }))

-- The link of the new room into the list, unless its name is taken.
unfoldable pub link_room : Ptr → Cmd ℕ
link_room rt s =
    if s.room_list_head == null
    then add_first_room rt s
    else and_then (find_room (s.total_num_of_rooms + 1) (c_room_name s rt) s.room_list_head s)
        λ found. if found == null then add_room rt else ok 3

-- `rt` is what `malloc` returns. The results are 0, and 1 to 3 for the errors; a room that is
-- refused with 2 or 3 stays allocated.
unfoldable pub create_room : (rt : Ptr) → List ℕ → Cmd ℕ
create_room rt name s =
    if ltb max_room_name_len (length name)
    then ok 1 s
    else if rt == null
    then exits
    else if s.total_num_of_rooms == max_num_of_rooms
    then ok 2 (new_room rt name s)
    else link_room rt (new_room rt name s)

-- The loop of `remove_room`.
unfoldable pub remove_room_loop : ℕ → (rt trt : Ptr) → Cmd (Unit {0})
remove_room_loop zero rt trt s = no_fuel
remove_room_loop (suc k) rt trt s =
    let rest = remove_room_loop k rt (s.next_room trt) s in
    if trt == null
    then ok tt s
    else guard (s.live_room trt) (
        if trt == rt
        then ok tt (record s {
          room_list_head = s.next_room trt;
          room_list_tail = if s.next_room trt == null then null else s.room_list_tail;
        })
        else if s.next_room trt == rt
        then guard (s.live_room rt) (
            ok tt (record s {
              next_room = update s.next_room trt (s.next_room rt);
              room_list_tail = if s.next_room rt == null then null else s.room_list_tail;
            }))
        else rest)

unfoldable pub remove_room : Ptr → Cmd (Unit {0})
remove_room rt s = remove_room_loop (s.total_num_of_rooms + 1) rt s.room_list_head s

-- What `main` does behind `remove_room`.
unfoldable pub free_room : Ptr → Cmd (Unit {0})
free_room rt s = ok tt (record s {
  total_num_of_rooms = s.total_num_of_rooms - 1;
  live_room = update s.live_room rt false;
})
