-- ===== src/Server/Loop.antt =====
-- One round of the loop in `main` of A3/server_main.c: what `select` reports, the table of the
-- connections, and the calls that the reports lead to.
pub mod Table
use csc469_advanced_operatin.Base.{
  ℕ, zero, suc, ◌+◌, ◌-◌, Bool, true, false, Option, none, some, List, [], ◌∷◌, ◌++◌, ltb, ◌==◌,
  if◌then◌else◌,
}
use csc469_advanced_operatin.Dll.{update}
use csc469_advanced_operatin.Server.State.{ok, exits, Cmd, and_then, guard}
use csc469_advanced_operatin.Server.Register.{Env}
use csc469_advanced_operatin.Server.Dispatch.{process_control_msg}
use csc469_advanced_operatin.Server.Chat.{process_chat_msg}
use csc469_advanced_operatin.Server.Sweep.{sweep}

abbrev pub max_control_sessions : ℕ
max_control_sessions = 50

-- `none` is the entry -1. `limit` is `max_fd_idx + 1`. `closed` lists the calls of `close`.
pub record Conns : Type 0 where
  pub fd_table : ℕ → Option ℕ
  pub limit : ℕ
  pub allset : ℕ → Bool
  pub closed : List ℕ

-- What `select` reports on the connections, and what comes with it: the datagram, the connection
-- that `accept` returns.
pub record Ready : Type 0 where
  pub num_ready_fds : ℕ
  pub udp : Option (Option (List ℕ))
  pub tcp : Option (Option ℕ)
  pub rset : ℕ → Bool

pub data Selected : Type 0 where
  failed timed_out : Selected
  events : Ready → Selected

-- The first free place from `i` on, `i + k` if there is none.
unfoldable pub free_place : (k : ℕ) → (ℕ → Option ℕ) → (i : ℕ) → ℕ
free_place zero table i = i
free_place (suc k) table i = elim (table i) [ none ↦ i | some _ ↦ free_place k table (i + 1) ]

-- The new connection goes to the place `i`; if that is behind the table it is closed, but kept in
-- the set and in the bound.
unfoldable pub store_connection : (fd i : ℕ) → Conns → Conns
store_connection fd i c = record {
  fd_table = if i == max_control_sessions then c.fd_table else update c.fd_table i (some fd);
  limit = if ltb c.limit (i + 1) then i + 1 else c.limit;
  allset = update c.allset fd true;
  closed = if i == max_control_sessions then c.closed ++ (fd ∷ []) else c.closed;
}

-- `none` is an `accept` that fails.
unfoldable pub accept_connection : Option ℕ → Conns → Conns
accept_connection none c = c
accept_connection (some fd) c = store_connection fd (free_place max_control_sessions c.fd_table 0) c

-- `close`, `FD_CLR` and the entry -1.
unfoldable pub close_connection : (i fd : ℕ) → Conns → Conns
close_connection i fd c = record c {
  fd_table = update c.fd_table i none;
  allset = update c.allset fd false;
  closed = c.closed ++ (fd ∷ []);
}

-- `if(i == max_fd_idx) max_fd_idx = tmp_fd_idx`, where `tmp` is `tmp_fd_idx + 1`.
unfoldable pub lower_limit : (i tmp : ℕ) → Conns → Conns
lower_limit i tmp c = if i + 1 == c.limit then record c { limit = tmp } else c

-- `env` and `input` give what `process_control_msg` gets for each connection.
module _ (env : ℕ → Env) (input : ℕ → Option (List ℕ)) where
  -- The loop over the table from `i` on, `k` entries before `max_fd_idx + 1`.
  unfoldable pub ready_loop : (k i num tmp : ℕ) → (ℕ → Bool) → Conns → Cmd Conns
  ready_loop zero i num tmp rset c s = ok (lower_limit i tmp c) s
  ready_loop (suc k) i num tmp rset c s = guard (ltb i max_control_sessions) (elim (c.fd_table i) [
    | none ↦ ready_loop k (i + 1) num tmp rset c s
    | some fd ↦
        if rset fd
        then and_then (process_control_msg fd (env fd) (input fd) s) (λ _.
          if ltb 1 num
          then ready_loop k (i + 1) (num - 1) tmp rset (close_connection i fd c)
          else ok (lower_limit i tmp (close_connection i fd c)))
        else ready_loop k (i + 1) num (i + 1) rset c s
  ])

  unfoldable pub check_table : (num : ℕ) → (ℕ → Bool) → Conns → Cmd Conns
  check_table num rset c = ready_loop c.limit 0 num 0 rset c

  unfoldable pub check_tcp : (num : ℕ) → Option (Option ℕ) → (ℕ → Bool) → Conns → Cmd Conns
  check_tcp num none rset c = check_table num rset c
  check_tcp num (some accepted) rset c =
      if ltb 1 num
      then check_table (num - 1) rset (accept_connection accepted c)
      else ok (accept_connection accepted c)

  module _ (sendto : (addr port n : ℕ) → Option ℕ) where
    unfoldable pub check_udp : Ready → Option (Option (List ℕ)) → Conns → Cmd Conns
    check_udp r none c s = check_tcp r.num_ready_fds r.tcp r.rset c s
    check_udp r (some datagram) c s = and_then (process_chat_msg sendto datagram s) (λ _.
        if ltb 1 r.num_ready_fds then check_tcp (r.num_ready_fds - 1) r.tcp r.rset c else ok c)

    -- One round, behind the call of `select`.
    unfoldable pub main_round : Selected → Conns → Cmd Conns
    main_round failed c s = exits
    main_round timed_out c s = and_then (sweep s) (λ _. ok c)
    main_round (events r) c s = check_udp r r.udp c s
