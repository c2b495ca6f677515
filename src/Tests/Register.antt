-- ===== src/Tests/Register.antt =====
-- A registration with the sample session.
use csc469_advanced_operatin.Base.{
  ℕ, ◌≤◌, ◌≡◌, refl, false, some, List, [], ◌∷◌, ◌++◌, map, has, drop, replicate, arith,
}
use csc469_advanced_operatin.Base.Bytes.{c_string}
use csc469_advanced_operatin.Wire.Header.{msgdata}
use csc469_advanced_operatin.Server.State.{Server, ok}
use csc469_advanced_operatin.Server.Register.{Env, draw_id, process_register_request}
use csc469_advanced_operatin.Server.Register.Ids.{free_id, draw_id-bounds}
use csc469_advanced_operatin.Server.Walk.{first}
use csc469_advanced_operatin.Server.Registration.{Registered, process_register_request-Registered}
use csc469_advanced_operatin.Tests.Sample.{sample, session, sample-IsSound}

abbrev env : Env
env = record { fresh = 3; peer = some 5; rands = 0 ∷ [] }

-- The user `c` with the port 7000.
abbrev buf : List ℕ
buf = replicate 8 0 ++ 27 ∷ 88 ∷ b'c' ∷ 0 ∷ []

process_register_request-Registered_example :
    (t : Server) × (process_register_request 9 env buf sample ≡ ok tt t)
    × Registered env.fresh
        (c_string (drop 2 (msgdata buf)))
        (free_id (λ id. has id (map sample.member_id session.members)) env.rands)
        9
        sample
        t
        session
    × (has
          (free_id (λ id. has id (map sample.member_id session.members)) env.rands)
          (map sample.member_id session.members)
        ≡ false)
unfolding first draw_id
process_register_request-Registered_example =
    process_register_request-Registered sample session 9 env 5 buf sample-IsSound
      (refl, λ e. omega arith) refl refl refl refl

draw_id-bounds_example : (1 ≤ draw_id 0) × (draw_id 0 ≤ 65535)
draw_id-bounds_example = draw_id-bounds 0 (omega arith)
