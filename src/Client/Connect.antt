-- ===== src/Client/Connect.antt =====
-- Registration and reconnection: the loops of `init_client` and `reconnect`. What `init_client`
-- does before it registers (the server's address, the sockets, the receiver) are system calls.
use csc469_advanced_operatin.Base.{
  ℕ, zero, suc, ◌+◌, ◌-◌, Option, none, some, List, [], ◌==◌, if◌then◌else◌, length,
}
use csc469_advanced_operatin.Wire.Header.{control_header_size}
use csc469_advanced_operatin.Wire.Msg
use csc469_advanced_operatin.Client.State.{
  ok, no_fuel, Cmd, and_then, Result, success, failure, disconnected, name_taken, shutdown_clean,
}
use csc469_advanced_operatin.Client.Requests.{
  attempt_request, handle_register_req, handle_switch_room_req,
}
use csc469_advanced_operatin.Client.Names.{next_name}

module _ (beyond : List ℕ) where
  -- The loop on the result of the last registration.
  unfoldable pub register_retry : ℕ → (suffix : ℕ) → Result → Cmd Result
  register_retry zero suffix result c = no_fuel
  register_retry (suc k) suffix success c = ok success c
  register_retry (suc k) suffix failure c = shutdown_clean c
  register_retry (suc k) suffix disconnected c = ok disconnected c
  register_retry (suc k) suffix name_taken c = elim (next_name suffix c) [
    | none ↦ shutdown_clean c
    | some d ↦ and_then (handle_register_req beyond d) (register_retry k (suffix + 1))
  ]

  -- The suffix 100 ends the loop, so 101 rounds are enough.
  unfoldable pub init_client : Cmd Result
  init_client c = and_then (handle_register_req beyond c) (register_retry 101 1)

  -- `from_start` is the loop with all retries again, `next` that with one fewer.
  unfoldable pub after_rejoin : (from_start : Cmd (Unit {0})) → Result → Cmd (Unit {0})
  after_rejoin from_start success c = ok tt c
  after_rejoin from_start failure c = ok tt (record c { last_channel = [] })
  after_rejoin from_start disconnected c = from_start c
  after_rejoin from_start name_taken c = ok tt c

  unfoldable pub after_init : (from_start next : Cmd (Unit {0})) → Result → Cmd (Unit {0})
  after_init from_start next success c =
      if length c.last_channel == 0
      then ok tt c
      else and_then (handle_switch_room_req beyond c.last_channel c) (after_rejoin from_start)
  after_init from_start next failure c = next c
  after_init from_start next disconnected c = next c
  after_init from_start next name_taken c = next c

  -- `reconnect` has `MAX_RETRIES` attempts, and again as many if the connection is lost when it
  -- rejoins the last room, so there is no bound on its rounds.
  unfoldable pub reconnect_loop : (fuel retries : ℕ) → Cmd (Unit {0})
  reconnect_loop zero retries c = no_fuel
  reconnect_loop (suc k) retries c =
      if retries == 0
      then shutdown_clean c
      else and_then (init_client c)
          (after_init (reconnect_loop k 5) (reconnect_loop k (retries - 1)))

  unfoldable pub reconnect : (fuel : ℕ) → Cmd (Unit {0})
  reconnect fuel = reconnect_loop fuel 5

  after_heartbeat : (fuel : ℕ) → Option (List ℕ) → Cmd (Unit {0})
  after_heartbeat fuel none c = reconnect fuel c
  after_heartbeat fuel (some res) c = ok tt c

  unfoldable pub heartbeat : (fuel : ℕ) → Cmd (Unit {0})
  unfolding after_heartbeat
  heartbeat fuel c =
      and_then (attempt_request beyond Msg.member_keep_alive [] control_header_size c)
        (after_heartbeat fuel)
