-- ===== src/Tests/Loop.antt =====
-- Runs of the server's main loop.
use csc469_advanced_operatin.Base.{
  ℕ, ◌<◌, ◌≡◌, ◌≢◌, refl, true, none, some, [], ◌==◌, ltb, if◌then◌else◌, arith,
}
use csc469_advanced_operatin.Server.State.{Server}
use csc469_advanced_operatin.Server.Register.{Env}
use csc469_advanced_operatin.Server.Loop.{Conns, max_control_sessions, accept_connection}
use csc469_advanced_operatin.Server.Loop.Table.{
  Within, IsTable, accept_connection-IsTable, accept_connection-full,
}

-- The connections 7 and 9 in the first two places.
abbrev conns : Conns
conns = record {
  fd_table = λ i. if i == 0 then some 7 else if i == 1 then some 9 else none;
  limit = 2;
  allset = λ fd. true;
  closed = [];
}

conns-IsTable : IsTable conns
conns-IsTable = record { within = inside; size = omega arith }
  where
    inside : Within conns.fd_table 2
    inside j n = ground arith

abbrev full : Conns
full = record {
  fd_table = λ i. if ltb i max_control_sessions then some i else none;
  limit = max_control_sessions;
  allset = λ fd. true;
  closed = [];
}

full-IsTable : IsTable full
full-IsTable = record { within = inside; size = omega arith }
  where
    inside : Within full.fd_table max_control_sessions
    inside j n = ground arith

abbrev env : ℕ → Env
env fd = record { fresh = 40; peer = none; rands = [] }

accept_connection-IsTable_example : IsTable (accept_connection (some 8) conns)
accept_connection-IsTable_example =
    accept_connection-IsTable conns conns-IsTable (some 8) 2 (omega arith) refl

accept_connection-full_example : (accept_connection (some 8) full).limit ≡ 51
accept_connection-full_example = accept_connection-full full 8 full-IsTable taken
  where
    taken : (j : ℕ) → j < max_control_sessions → full.fd_table j ≢ none
    taken j b e = ground arith
