-- ===== src/Server/Registration/Refused.antt =====
-- `process_register_request` where it does not succeed.
use csc469_advanced_operatin.Base.{
  ℕ, ◌≡◌, ◌≢◌, refl, ap, ◌∙◌, Bool, true, false, none, some, List, [], ◌∷◌, ◌==◌, drop, take,
  str_eq, length, ≢→==,
}
use csc469_advanced_operatin.Base.Bytes.{c_string, u16_at}
use csc469_advanced_operatin.Dll.{Ptr, null}
use csc469_advanced_operatin.Dll.Shape.{hd}
use csc469_advanced_operatin.Wire.Header.{
  max_num_of_members, max_member_name_len, msgdata, control_msg,
}
use csc469_advanced_operatin.Wire.Msg
use csc469_advanced_operatin.Server.State.{Server, reply, ok}
use csc469_advanced_operatin.Server.Register.{
  Env, new_member, link_member, register_from, process_register_request, name_taken,
  too_many_members,
}
use csc469_advanced_operatin.Server.Walk.{Walk, first}
use csc469_advanced_operatin.Server.Find.{find_name-list, MembersOk-Walk}
use csc469_advanced_operatin.Server.Sound.{Session, IsSound}
use csc469_advanced_operatin.Server.Answer.{sending, send_control_msg_reply-ok}
use csc469_advanced_operatin.Server.Registration.Steps.{process_register_request-peer}
use csc469_advanced_operatin.Server.Registration.{
  t1, t1-IsSound, t1-name, t1-others_name, member-ne, first-ext,
}

pub process_register_request-full :
    (s : Server) (g : Session) (fd : ℕ) (env : Env) (buf : List ℕ)
    → IsSound s g
    → (length g.members == max_num_of_members) ≡ true
    → process_register_request fd env buf s
      ≡ ok tt (sending s (reply fd (control_msg Msg.register_fail 0 too_many_members)))
unfolding process_register_request
process_register_request-full s g fd env buf sound full =
    rw (ap (λ c. c == max_num_of_members) sound.members.count ∙ full)
      (send_control_msg_reply-ok fd Msg.register_fail 0 too_many_members s refl)

pub process_register_request-no_peer :
    (s : Server) (g : Session) (fd : ℕ) (env : Env) (buf : List ℕ)
    → IsSound s g
    → (length g.members == max_num_of_members) ≡ false
    → env.fresh ≢ null
    → env.peer ≡ none
    → process_register_request fd env buf s
      ≡ ok tt (new_member env.fresh (c_string (drop 2 (msgdata buf))) (u16_at 0 (msgdata buf)) s)
unfolding process_register_request
process_register_request-no_peer s g fd env buf sound space n e =
    rw (ap (λ c. c == max_num_of_members) sound.members.count ∙ space, ≢→== env.fresh null n, e)
      refl

-- A list with a node that passes does not begin at `NULL`.
first-hd :
    (p : Ptr → Bool) (next : Ptr → Ptr) (live : Ptr → Bool) (xs : List Ptr)
    → Walk next live xs
    → (first p xs == null) ≡ false
    → (hd xs == null) ≡ false
unfolding first
first-hd p next live [] w e = e
first-hd p next live (x ∷ xs) w e = w.0

module _ (s : Server) (g : Session) (sound : IsSound s g) (mt : Ptr) (name : List ℕ) (port addr : ℕ)
    (fresh : s.live_member mt ≡ false) (n : mt ≢ null)
    (taken : (first (λ m. str_eq (s.member_name m) (take max_member_name_len name)) g.members
        == null)
      ≡ false) where
  t : Server
  t = t1 s g sound mt name port addr fresh n

  t-IsSound : IsSound t g
  unfolding t
  t-IsSound = t1-IsSound s g sound mt name port addr fresh n

  same_search :
      first (λ m. str_eq (t.member_name m) (t.member_name mt)) g.members
      ≡ first (λ m. str_eq (s.member_name m) (take max_member_name_len name)) g.members
  unfolding t
  same_search =
      first-ext (λ m. str_eq (t.member_name m) (t.member_name mt))
        (λ m. str_eq (s.member_name m) (take max_member_name_len name)) g.members
        (λ p h.
          ap (λ w. str_eq w (t.member_name mt))
            (t1-others_name s g sound mt name port addr fresh n p
              (member-ne s g sound mt name port addr fresh n p h))
          ∙ ap (str_eq (s.member_name p)) (t1-name s g sound mt name port addr fresh n))

  found-not-null :
      (first (λ m. str_eq (t.member_name m) (t.member_name mt)) g.members == null) ≡ false
  found-not-null = ap (λ p. p == null) same_search ∙ taken

  head-not-null : (t.mem_list.head == null) ≡ false
  head-not-null =
      ap (λ p. p == null) t-IsSound.members.shape.first
      ∙ first-hd (λ m. str_eq (t.member_name m) (t.member_name mt)) _ _ g.members
          (MembersOk-Walk t g.members t-IsSound.members) found-not-null

  link_member-taken : link_member mt t ≡ ok false t
  unfolding link_member
  link_member-taken =
      rw
        (
          head-not-null,
          find_name-list t (t.member_name mt) g.members t-IsSound.members,
          found-not-null,
        )
        refl

  register_from-taken :
      (fd : ℕ) (env : Env)
      → env.fresh ≡ mt
      → register_from fd env addr (new_member mt name port s)
        ≡ ok tt (sending t (reply fd (control_msg Msg.register_fail 0 name_taken)))
  unfolding register_from t t1
  register_from-taken fd env e =
      rw (e, link_member-taken) (send_control_msg_reply-ok fd Msg.register_fail 0 name_taken t refl)

-- With a taken name the new struct stays in no list.
pub process_register_request-taken :
    (s : Server) (g : Session) (fd : ℕ) (env : Env) (addr : ℕ) (buf : List ℕ)
    → IsSound s g
    → (s.live_member env.fresh ≡ false) × (env.fresh ≢ null)
    → env.peer ≡ some addr
    → (length g.members == max_num_of_members) ≡ false
    → (first
          (λ m.
            str_eq (s.member_name m) (take max_member_name_len (c_string (drop 2 (msgdata buf)))))
          g.members
        == null)
      ≡ false
    → (u : Server) × (process_register_request fd env buf s
        ≡ ok tt (sending u (reply fd (control_msg Msg.register_fail 0 name_taken))))
      × IsSound u g
      × (u.member_name
          ≡ (new_member env.fresh
              (c_string (drop 2 (msgdata buf)))
              (u16_at 0 (msgdata buf))
              s).member_name)
      × (u.room_name ≡ s.room_name)
unfolding t t1 new_member
process_register_request-taken s g fd env addr buf sound (fresh, n) peer space taken =
    let name = c_string (drop 2 (msgdata buf)) in
    let port = u16_at 0 (msgdata buf) in
    (
      t s g sound env.fresh name port addr fresh n taken,
      process_register_request-peer fd env addr buf s _
          (ap (λ c. c == max_num_of_members) sound.members.count ∙ space) (≢→== env.fresh null n)
          peer (register_from-taken s g sound env.fresh name port addr fresh n taken fd env refl),
      t-IsSound s g sound env.fresh name port addr fresh n taken,
      refl,
      refl,
    )
