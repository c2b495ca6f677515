-- ===== src/Tests/Client.antt =====
-- Runs of the client.
use csc469_advanced_operatin.Base.{◌+◌, ◌≡◌, ◌≢◌, refl, true, false, some, [], ◌∷◌, ◌++◌, arith}
use csc469_advanced_operatin.Base.Bytes.{codes, c_string}
use csc469_advanced_operatin.Wire.Header.{
  control_header_size, control_msg, ntoh_control_header, fill_buffer, msgdata,
}
use csc469_advanced_operatin.Wire.Roundtrip.{control_msg-roundtrip}
use csc469_advanced_operatin.Server.Requests.{digits}
use csc469_advanced_operatin.Client.State.{Client, no_fuel, answered}
use csc469_advanced_operatin.Client.Requests.{send_ctrl_msg}
use csc469_advanced_operatin.Client.Roundtrip.{send_ctrl_msg-roundtrip}
use csc469_advanced_operatin.Client.Names.{next_name}
use csc469_advanced_operatin.Client.Names.Retry.{Tried, next_name-Tried, next_name-restart}
use csc469_advanced_operatin.Client.Connect.{init_client}
use csc469_advanced_operatin.Client.Ends.{init_client-ends}

abbrev bob : Client
bob = record {
  member_name = codes "bob";
  member_id = 0;
  client_udp_port = 7000;
  last_channel = [];
  suffix_appended = false;
  suffix_len = 3;
  net = answered (codes "no") ∷ [];
  sent = [];
}

-- The same user after many retries.
abbrev bob_12 : Client
bob_12 = record bob { member_name = codes "bob (12)"; suffix_appended = true; suffix_len = 4 }

bob-Tried : Tried (codes "bob") 0 bob
bob-Tried = record { name = refl; appended = refl; len = refl }

bob_12-Tried : Tried (codes "bob") 12 bob_12
unfolding digits
bob_12-Tried = record { name = refl; appended = refl; len = refl }

next_name-Tried_example : (d : Client) × (next_name 1 bob ≡ some d) × Tried (codes "bob") 1 d
next_name-Tried_example = next_name-Tried (codes "bob") 0 bob bob-Tried (omega arith) (omega arith)

next_name-restart_example :
    (d : Client) × (next_name 1 bob_12 ≡ some d) × (d.member_name ≡ codes "bob" ++ codes " ((1)")
next_name-restart_example =
    next_name-restart (codes "bob") 12 bob_12 bob_12-Tried (omega arith, omega arith)

send_ctrl_msg-roundtrip_example :
    (ntoh_control_header (
        fill_buffer
          (send_ctrl_msg (1 ∷ []) 7 10 (codes "os" ++ 0 ∷ []) (control_header_size + 2 + 1)))
      ≡ record { msg_type = 10; member_id = 7; msg_len = control_header_size + 2 + 1 })
    × (c_string (
          msgdata (
            fill_buffer
              (send_ctrl_msg (1 ∷ []) 7 10 (codes "os" ++ 0 ∷ []) (control_header_size + 2 + 1))))
        ≡ codes "os")
send_ctrl_msg-roundtrip_example =
    send_ctrl_msg-roundtrip (1 ∷ []) 7 10 (codes "os") (omega arith, omega arith)
      (omega arith, (omega arith, tt)) (omega arith)

control_msg-roundtrip_example :
    (ntoh_control_header (fill_buffer (control_msg 5 7 (codes "os")))
      ≡ record { msg_type = 5; member_id = 7; msg_len = control_header_size + 2 })
    × (c_string (msgdata (fill_buffer (control_msg 5 7 (codes "os")))) ≡ codes "os")
control_msg-roundtrip_example =
    control_msg-roundtrip 5 7 (codes "os") (omega arith, omega arith)
      (omega arith, (omega arith, tt)) (omega arith)

init_client-ends_example : init_client [] bob ≢ no_fuel
init_client-ends_example = init_client-ends [] bob
