-- ===== src/Tests/Ready.antt =====
-- The server from its start on: one registration, and the timeouts after it.
use csc469_advanced_operatin.Base.{
  ℕ, ◌≡◌, ◌≢◌, refl, true, some, none, List, [], ◌∷◌, map, has, length, inl, arith,
}
use csc469_advanced_operatin.Dll.{Ptr, null}
use csc469_advanced_operatin.Wire.Header.{ntoh_control_header, fill_buffer}
use csc469_advanced_operatin.Server.State.{Server, ok}
use csc469_advanced_operatin.Server.Register.{Env}
use csc469_advanced_operatin.Server.Register.Ids.{has_free}
use csc469_advanced_operatin.Server.Dispatch.{request_of, Request}
use csc469_advanced_operatin.Server.Sweep.{sweep}
use csc469_advanced_operatin.Server.Sound.{Session, IsSound}
use csc469_advanced_operatin.Server.Ready.Control.{type_of}
use csc469_advanced_operatin.Server.Ready.Reach.{
  control, handle, IsAllowed, Reach, start, Reach-handles, sweep-twice,
}
use csc469_advanced_operatin.Server.Start.{init_server, init_lists, empty_server}
use csc469_advanced_operatin.Tests.Start.{one_more, one_more-MallocOk}

abbrev env : Env
env = record { fresh = 3; peer = some 5; rands = 0 ∷ [] }

-- A request to register as `c` with the port 7000.
abbrev request : List ℕ
request = 0 ∷ 1 ∷ 0 ∷ 0 ∷ 0 ∷ 12 ∷ 0 ∷ 0 ∷ 27 ∷ 88 ∷ b'c' ∷ 0 ∷ []

no_room_request : request_of (type_of request) ≢ Request.create_room
unfolding request_of ntoh_control_header fill_buffer
no_room_request e = cc e

free_in_empty :
    (members : List Ptr)
    → 0 ≡ length members
    → has_free (λ id. has id (map empty_server.member_id members)) env.rands ≡ true
free_in_empty [] e = refl
free_in_empty (x ∷ xs) e = absurd (omega arith)

allowed : IsAllowed (control 4 env request) empty_server
allowed g ready = (
  record {
    non_null = λ e. omega arith;
    no_member = refl;
    no_room = refl;
    free_id = free_in_empty g.members ready.sound.members.count;
  },
  inl no_room_request,
)

-- A start without a file of rooms.
started : Reach empty_server
unfolding init_server init_lists
started = start one_more none one_more-MallocOk tt refl

-- The state with the new member, which two timeouts remove.
registered :
    (t : Server) × (g : Session) × (handle (control 4 env request) empty_server ≡ ok tt t)
    × Reach t
    × IsSound t g
registered = Reach-handles empty_server (control 4 env request) started allowed

abbrev with_member : Server
with_member = registered.0

sweep-twice_example :
    (t : Server) × (u : Server) × (sweep with_member ≡ ok tt t)
    × (sweep t ≡ ok tt u)
    × (u.total_num_of_members ≡ 0)
    × (u.mem_list.head ≡ null)
sweep-twice_example = sweep-twice with_member registered.3
