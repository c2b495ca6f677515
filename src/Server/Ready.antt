-- ===== src/Server/Ready.antt =====
-- States from which every message is handled: the requests of A3/server_util.c one by one.
pub mod Control
pub mod Reach
use csc469_advanced_operatin.Base.{
  ℕ, ◌+◌, ◌≤◌, ◌≡◌, ◌≢◌, refl, sym, ap, subst, ◌∙◌, Bool, true, false, Option, none, some, List, [],
  ◌∷◌, ◌++◌, ◌==◌, take, drop, map, has, length, length-take, min, str_eq, if◌then◌else◌, ◌⊎◌, inl,
  inr, arith, Bool-cases, Option-cases, ==→≡,
}
use csc469_advanced_operatin.Base.Bytes.{c_string, u16_at}
use csc469_advanced_operatin.Dll.{Ptr, null, update}
use csc469_advanced_operatin.Wire.Header.{
  max_num_of_members, max_member_name_len, max_room_name_len, msgdata,
}
use csc469_advanced_operatin.Wire.Msg
use csc469_advanced_operatin.Server.State.{Server, Run, reply, ok}
use csc469_advanced_operatin.Server.Register.{
  Env, new_member, process_register_request, name_taken, too_many_members,
}
use csc469_advanced_operatin.Server.Register.Fresh.{new_member-IsSound, with_member}
use csc469_advanced_operatin.Server.Register.Ids.{has_free}
use csc469_advanced_operatin.Server.Walk.{first}
use csc469_advanced_operatin.Server.Sound.{Session, IsSound}
use csc469_advanced_operatin.Server.Answer.{Answered, sending, sending-IsSound}
use csc469_advanced_operatin.Server.Registration.{process_register_request-Registered}
use csc469_advanced_operatin.Server.Registration.Refused.{
  process_register_request-full, process_register_request-no_peer, process_register_request-taken,
}

-- Well formed, with names that fit into their fields.
pub record IsReady (s : Server) (g : Session) : Type 0 where
  pub sound : IsSound s g
  pub member_names : (p : Ptr) → length (s.member_name p) ≤ max_member_name_len
  pub room_names : (r : Ptr) → length (s.room_name r) ≤ max_room_name_len

-- What the C library gives for a message: memory that is not in use, and a free id among the values
-- of `rand`.
pub record EnvOk (env : Env) (s : Server) (g : Session) : Type 0 where
  pub non_null : env.fresh ≢ null
  pub no_member : s.live_member env.fresh ≡ false
  pub no_room : s.live_room env.fresh ≡ false
  pub free_id : has_free (λ id. has id (map s.member_id g.members)) env.rands ≡ true

-- A command returns, in a state that is ready for some session.
abbrev pub Returns : Run (Unit {0}) → Type 0
Returns run = (t : Server) × (g : Session) × (run ≡ ok tt t) × IsReady t g

pub sending-IsReady :
    (s : Server) (g : Session) (fd : ℕ) (bytes : List ℕ)
    → IsReady s g
    → IsReady (sending s (reply fd bytes)) g
sending-IsReady s g fd bytes r = record {
  sound = sending-IsSound s (reply fd bytes) g r.sound;
  member_names = r.member_names;
  room_names = r.room_names;
}

pub Answered-IsReady :
    (fd : ℕ) (mt : Ptr) (type : ℕ) (text : List ℕ) (s t : Server) (g h : Session)
    → IsReady s g
    → Answered fd mt type text s t h
    → IsReady t h
Answered-IsReady fd mt type text s t g h r a = record {
  sound = a.sound;
  member_names = λ p. rw a.member_name (r.member_names p);
  room_names = λ q. a.name_fits q (r.room_names q);
}

short_name :
    (names : Ptr → List ℕ) (mt : Ptr) (name : List ℕ)
    → ((p : Ptr) → length (names p) ≤ max_member_name_len)
    → (p : Ptr) → length (update names mt (take max_member_name_len name) p) ≤ max_member_name_len
unfolding update
short_name names mt name h p = elim (Bool-cases (p == mt)) [
  | inl e ↦ rw e (omega (arith, length-take max_member_name_len name))
  | inr e ↦ rw e (h p)
]

module _ (s : Server) (g : Session) (fd : ℕ) (env : Env) (buf : List ℕ) (r : IsReady s g)
    (o : EnvOk env s g) where
  name : List ℕ
  name = c_string (drop 2 (msgdata buf))

  called : Ptr
  unfolding name
  called = first (λ m. str_eq (s.member_name m) (take max_member_name_len name)) g.members

  loose : Server
  unfolding name
  loose = new_member env.fresh name (u16_at 0 (msgdata buf)) s

  loose-names : (p : Ptr) → length (loose.member_name p) ≤ max_member_name_len
  unfolding loose new_member
  loose-names = short_name s.member_name env.fresh _ r.member_names

  full-Returns :
      (length g.members == max_num_of_members) ≡ true
      → Returns (process_register_request fd env buf s)
  full-Returns e =
      (_, g, process_register_request-full s g fd env buf r.sound e, sending-IsReady s g fd _ r)

  no_peer-Returns :
      (length g.members == max_num_of_members) ≡ false
      → env.peer ≡ none
      → Returns (process_register_request fd env buf s)
  unfolding loose name new_member
  no_peer-Returns space e = (
    _,
    g,
    process_register_request-no_peer s g fd env buf r.sound space o.non_null e,
    record {
      sound =
          new_member-IsSound s g r.sound env.fresh name (u16_at 0 (msgdata buf)) o.no_member
            o.non_null;
      member_names = loose-names;
      room_names = r.room_names;
    },
  )

  taken-Returns :
      (addr : ℕ)
      → (length g.members == max_num_of_members) ≡ false
      → env.peer ≡ some addr
      → (called == null) ≡ false
      → Returns (process_register_request fd env buf s)
  unfolding called name loose
  taken-Returns addr space e taken =
      let (u, run, sound, names, rooms) =
        process_register_request-taken s g fd env addr buf r.sound (o.no_member, o.non_null) e space
          taken in
      (
        _,
        g,
        run,
        sending-IsReady u g fd _ (record {
          sound = sound;
          member_names = λ p. rw names (loose-names p);
          room_names = λ q. rw rooms (r.room_names q);
        }),
      )

  accepted-Returns :
      (addr : ℕ)
      → (length g.members == max_num_of_members) ≡ false
      → env.peer ≡ some addr
      → (called == null) ≡ true
      → Returns (process_register_request fd env buf s)
  unfolding called name
  accepted-Returns addr space e free =
      let (t, run, a, _) =
        process_register_request-Registered s g fd env addr buf r.sound (o.no_member, o.non_null) e
          space (==→≡ _ _ free) o.free_id in
      (
        t,
        with_member env.fresh g,
        run,
        record {
          sound = a.sound;
          member_names = λ p. elim (Bool-cases (p == env.fresh)) [
            | inl same ↦
                rw (==→≡ p env.fresh same, a.new_name)
                  (omega (arith, length-take max_member_name_len name))
            | inr other ↦ rw (a.others_name p (ne p other)) (r.member_names p)
          ];
          room_names = λ q. rw a.room_name (r.room_names q);
        },
      )
    where
      ne : (p : Ptr) → (p == env.fresh) ≡ false → p ≢ env.fresh
      ne p e = ground (arith, e)

  -- Every registration is answered or dropped.
  pub process_register_request-Returns : Returns (process_register_request fd env buf s)
  process_register_request-Returns = elim (Bool-cases (length g.members == max_num_of_members)) [
    | inl full ↦ full-Returns full
    | inr space ↦ elim (Option-cases env.peer) [
      | inl e ↦ no_peer-Returns space e
      | inr (addr, e) ↦ elim (Bool-cases (called == null)) [
        | inl free ↦ accepted-Returns addr space e free
        | inr taken ↦ taken-Returns addr space e taken
      ]
    ]
  ]
