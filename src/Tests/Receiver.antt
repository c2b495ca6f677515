-- ===== src/Tests/Receiver.antt =====
-- The receiver at concrete ports and messages.
use csc469_advanced_operatin.Base.{
  ℕ, ◌≡◌, refl, true, false, some, none, List, [], ◌∷◌, ◌++◌, arith, ltb,
}
use csc469_advanced_operatin.Base.Bytes.{codes}
use csc469_advanced_operatin.Client.Receiver.{
  send_ok, send_bind_failed, init_receiver, handle_received_msg, recv_into, receive_msgs, line,
  switched_channel, at_most,
}
use csc469_advanced_operatin.Client.Receiver.Delivery.{chat-roundtrip}
use csc469_advanced_operatin.Client.Commands.{chat_msg}
use csc469_advanced_operatin.Server.State.{Server, ok}
use csc469_advanced_operatin.Server.Chat.{process_chat_msg}
use csc469_advanced_operatin.Server.Walk.{first}
use csc469_advanced_operatin.Server.Chat.Delivery.{datagrams, audience}
use csc469_advanced_operatin.Tests.Sample.{sample, session, sample-IsSound}

-- The ports up to 7002 are taken.
third_port : init_receiver (λ p. ltb 7002 p) ≡ send_ok 7003
unfolding init_receiver
third_port = refl

no_port : init_receiver (λ p. false) ≡ send_bind_failed
unfolding init_receiver
no_port = refl

-- A message of 1 byte with its terminator; the loop is left at the notice to quit.
receives :
    receive_msgs [] (
      record {
        queue = none;
        datagram =
            some (codes "al" ++ (0 ∷ codes "xxxxxxxxxxxxxxxxxxxxx") ++ 0 ∷ 28 ∷ b'h' ∷ 0 ∷ []);
      }
      ∷ record { queue = some 4; datagram = none }
      ∷ record { queue = some 3; datagram = some (1 ∷ []) }
      ∷ [])
    ≡ (line (codes "al: h") ∷ switched_channel ∷ [], true)
unfolding receive_msgs at_most
receives = refl

chat-roundtrip_example :
    (bytes : List ℕ) × (t : Server) × (process_chat_msg
        (λ _ _ n. some n)
        (some (chat_msg [] 11 (codes "hi")))
        sample
      ≡ ok tt t)
    × (t.sent ≡ sample.sent ++ datagrams sample bytes (audience sample session 1))
    × ((old : List ℕ)
        → handle_received_msg (recv_into bytes old)
          ≡ sample.member_name 1 ++ (b':' ∷ b' ' ∷ codes "hi"))
unfolding first
chat-roundtrip_example =
    chat-roundtrip [] (λ _ _ n. some n) sample session 1 11 (codes "hi") (λ _ _ n. refl)
      sample-IsSound ((λ e. omega arith), refl, omega arith) (omega arith, omega arith)
      (omega arith, omega arith)
