-- ===== src/Client/State.antt =====
-- The client's globals and what it exchanges with the server.
use csc469_advanced_operatin.Base.{ℕ, Bool, List, [], ◌∷◌, ◌++◌}

-- What the client sends: a control message, a chat message, and the two notices to its receiver.
pub data Output : Type 0 where
  request chat : List ℕ → Output
  switched_chan chat_quit : Output

-- How one TCP connection goes: `connect_tcp` fails, the `read` of the answer fails, or it gives the
-- bytes.
pub data Exchange : Type 0 where
  refused unanswered : Exchange
  answered : List ℕ → Exchange

-- `net` holds the connections that are still to come. The names are texts, without terminators.
pub record Client : Type 0 where
  pub member_name : List ℕ
  pub member_id : ℕ
  pub client_udp_port : ℕ
  pub last_channel : List ℕ
  pub suffix_appended : Bool
  pub suffix_len : ℕ
  pub net : List Exchange
  pub sent : List Output

-- `exits` is `shutdown_clean`. `no_net` means that all the given connections were used, and
-- `no_fuel` that a loop ran longer than its rounds.
pub data Run (A : Type 0) : Type 0 where
  ok : A → Client → Run A
  exits : Client → Run A
  no_net no_fuel : Run A

abbrev pub Cmd : Type 0 → Type 0
Cmd A = Client → Run A

module _ {A B : Type 0} where
  abbrev pub and_then : Run A → (A → Cmd B) → Run B
  and_then (ok a c) k = k a c
  and_then (exits c) k = exits c
  and_then no_net k = no_net
  and_then no_fuel k = no_fuel

abbrev pub put : Output → Client → Client
put out c = record c { sent = c.sent ++ out ∷ [] }

-- The results 0, -1, -2 and -3 of the handlers.
pub data Result : Type 0 where
  success failure disconnected name_taken : Result

unfoldable pub shutdown_clean : {A : Type 0} → Cmd A
shutdown_clean c = exits (put chat_quit c)
