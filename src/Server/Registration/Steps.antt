-- ===== src/Server/Registration/Steps.antt =====
-- The runs of `process_register_request`, step by step.
use csc469_advanced_operatin.Base.{
  ℕ, ◌+◌, ◌≡◌, refl, ap, ◌∙◌, true, false, some, List, [], ◌==◌, drop,
}
use csc469_advanced_operatin.Base.Bytes.{c_string, u16_at}
use csc469_advanced_operatin.Dll.{Ptr, null, update, Dll, append}
use csc469_advanced_operatin.Wire.Header.{max_num_of_members, msgdata, control_msg}
use csc469_advanced_operatin.Wire.Msg
use csc469_advanced_operatin.Server.State.{Server, Run, ok, reply, and_then}
use csc469_advanced_operatin.Server.Reply.{send_control_msg_reply}
use csc469_advanced_operatin.Server.Register.{
  Env, new_member, find_name, link_member, create_id, accept_member, register_from,
  process_register_request,
}
use csc469_advanced_operatin.Server.Register.Fresh.{joined}
use csc469_advanced_operatin.Server.Answer.{sending, send_control_msg_reply-ok}

pub link_member-first :
    (t : Server) (mt : Ptr) (k : Dll)
    → (t.mem_list.head == null) ≡ true
    → append t.live_member t.mem_list mt ≡ some k
    → link_member mt t ≡ ok true (joined t k)
unfolding link_member
link_member-first t mt k e a = rw (e, a) refl

pub link_member-new :
    (t : Server) (mt : Ptr) (k : Dll)
    → (t.mem_list.head == null) ≡ false
    → find_name (t.total_num_of_members + 1) (t.member_name mt) t.mem_list.head t ≡ ok null t
    → append t.live_member t.mem_list mt ≡ some k
    → link_member mt t ≡ ok true (joined t k)
unfolding link_member
link_member-new t mt k e f a = rw (e, f, a) refl

-- The new member's struct with its address.
abbrev pub addressed : Ptr → List ℕ → ℕ → ℕ → Server → Server
addressed mt name port addr s = record (new_member mt name port s) {
  udp_addr = update (new_member mt name port s).udp_addr mt addr;
}

pub register_from-joined :
    (t u v : Server) (mt : Ptr) (fd : ℕ) (env : Env) (addr : ℕ)
    → env.fresh ≡ mt
    → link_member mt (record t { udp_addr = update t.udp_addr mt addr }) ≡ ok true u
    → accept_member fd env.rands u ≡ ok tt v
    → register_from fd env addr t ≡ ok tt v
unfolding register_from
register_from-joined t u v mt fd env addr e l a = rw (e, l, a) refl

pub accept_member-ok :
    (fd : ℕ) (rands : List ℕ) (u v : Server)
    → create_id rands u ≡ ok tt v
    → accept_member fd rands u
      ≡ ok tt
          (sending v (reply fd (control_msg Msg.register_succ (v.member_id v.mem_list.tail) [])))
unfolding accept_member
accept_member-ok fd rands u v e =
    ap
      (λ (run : Run (Unit {0})).
        and_then run
          (λ _ t. send_control_msg_reply fd Msg.register_succ (t.member_id t.mem_list.tail) [] t))
      e
    ∙ send_control_msg_reply-ok fd Msg.register_succ (v.member_id v.mem_list.tail) [] v refl

pub process_register_request-peer :
    (fd : ℕ) (env : Env) (addr : ℕ) (buf : List ℕ) (s v : Server)
    → (s.total_num_of_members == max_num_of_members) ≡ false
    → (env.fresh == null) ≡ false
    → env.peer ≡ some addr
    → register_from fd env addr
        (new_member env.fresh (c_string (drop 2 (msgdata buf))) (u16_at 0 (msgdata buf)) s)
      ≡ ok tt v
    → process_register_request fd env buf s ≡ ok tt v
unfolding process_register_request register_from
process_register_request-peer fd env addr buf s v a b c d = rw (a, b, c) d
