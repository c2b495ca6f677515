-- ===== src/Wire/Msg.antt =====
-- The message types of A3/defs.h.
use csc469_advanced_operatin.Base.{ℕ}

abbrev pub register_request : ℕ
register_request = 1

abbrev pub register_succ : ℕ
register_succ = 2

abbrev pub register_fail : ℕ
register_fail = 3

abbrev pub room_list_request : ℕ
room_list_request = 4

abbrev pub room_list_succ : ℕ
room_list_succ = 5

abbrev pub room_list_fail : ℕ
room_list_fail = 6

abbrev pub member_list_request : ℕ
member_list_request = 7

abbrev pub member_list_succ : ℕ
member_list_succ = 8

abbrev pub member_list_fail : ℕ
member_list_fail = 9

abbrev pub switch_room_request : ℕ
switch_room_request = 10

abbrev pub switch_room_succ : ℕ
switch_room_succ = 11

abbrev pub switch_room_fail : ℕ
switch_room_fail = 12

abbrev pub create_room_request : ℕ
create_room_request = 13

abbrev pub create_room_succ : ℕ
create_room_succ = 14

abbrev pub create_room_fail : ℕ
create_room_fail = 15

abbrev pub member_keep_alive : ℕ
member_keep_alive = 16

abbrev pub quit_request : ℕ
quit_request = 17
