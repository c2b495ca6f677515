-- ===== src/Server/Sweep.antt =====
-- The sweep that A3/server_main.c makes when `select` times out: members that were silent for a
-- whole interval leave, and rooms that stood empty for a whole interval go.
pub mod Members
pub mod Rooms
pub mod RoomLoop
pub mod Lists
pub mod Whole
use csc469_advanced_operatin.Base.{ℕ, zero, suc, ◌+◌, ◌==◌, if◌then◌else◌}
use csc469_advanced_operatin.Dll.{Ptr, null, update}
use csc469_advanced_operatin.Server.State.{ok, no_fuel, Cmd, ◌>>◌, and_then, guard}
use csc469_advanced_operatin.Server.Rooms.{remove_room, free_room}
use csc469_advanced_operatin.Server.Members.{remove_member, free_member}

-- The body of the first loop.
unfoldable pub sweep_member : Ptr → Cmd (Unit {0})
sweep_member mt s =
    if s.quiet_flag mt == 0
    then ok tt (record s { quiet_flag = update s.quiet_flag mt (s.quiet_flag mt + 1) })
    else (remove_member mt >> free_member mt) s

unfoldable pub sweep_members : ℕ → Ptr → Cmd (Unit {0})
sweep_members zero mt s = no_fuel
sweep_members (suc k) mt s =
    let tmp_mt = s.mem_list.next mt in
    if mt == null
    then ok tt s
    else guard (s.live_member mt) ((sweep_member mt >> sweep_members k tmp_mt) s)

-- The body of the second loop.
unfoldable pub sweep_room : Ptr → Cmd (Unit {0})
sweep_room rt s =
    if s.num_of_members rt == 0
    then if s.empty_flag rt == 0
      then ok tt (record s { empty_flag = update s.empty_flag rt (s.empty_flag rt + 1) })
      else (remove_room rt >> free_room rt) s
    else ok tt s

unfoldable pub sweep_rooms : ℕ → Ptr → Cmd (Unit {0})
sweep_rooms zero rt s = no_fuel
sweep_rooms (suc k) rt s =
    let tmp_rt = s.next_room rt in
    if rt == null
    then ok tt s
    else guard (s.live_room rt) ((sweep_room rt >> sweep_rooms k tmp_rt) s)

unfoldable pub sweep : Cmd (Unit {0})
sweep s =
    and_then (sweep_members (s.total_num_of_members + 1) s.mem_list.head s)
      λ _ t. sweep_rooms (t.total_num_of_rooms + 1) t.room_list_head t
