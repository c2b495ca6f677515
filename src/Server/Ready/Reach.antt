-- ===== src/Server/Ready/Reach.antt =====
-- The states that messages and timeouts reach from the start of the server.
use csc469_advanced_operatin.Base.{
  ℕ, ◌≡◌, refl, sym, ap, subst, ◌∙◌, Bool, true, false, Option, some, List, [], ◌∷◌, ◌==◌, has,
  length, arith,
}
use csc469_advanced_operatin.Dll.{Ptr, null}
use csc469_advanced_operatin.Dll.Shape.{hd}
use csc469_advanced_operatin.Server.State.{Server, Run, Cmd, ok}
use csc469_advanced_operatin.Server.Register.{Env}
use csc469_advanced_operatin.Server.Dispatch.{request_of, process_control_msg}
use csc469_advanced_operatin.Server.Chat.{process_chat_msg, count_chat}
use csc469_advanced_operatin.Server.Chat.Delivery.{process_chat_msg-delivered, after_chat}
use csc469_advanced_operatin.Server.Sweep.{sweep}
use csc469_advanced_operatin.Server.Sweep.Lists.{keep}
use csc469_advanced_operatin.Server.Sweep.Whole.{swept, active, sweep-AfterSweep}
use csc469_advanced_operatin.Server.Start.{init_server, empty_server}
use csc469_advanced_operatin.Server.Start.Rooms.{MallocOk, IsRoomFile, init_server-Started}
use csc469_advanced_operatin.Server.Sound.{Session, IsSound}
use csc469_advanced_operatin.Server.Ready.{IsReady, EnvOk, Returns}
use csc469_advanced_operatin.Server.Ready.Control.{TailOk, type_of, process_control_msg-Returns}

-- What wakes the server: a control message on a connection, a chat datagram, or the timeout.
pub data Event : Type 0 where
  control : (fd : ℕ) (env : Env) (bytes : List ℕ) → Event
  chat : (sendto : (addr port n : ℕ) → Option ℕ) (bytes : List ℕ) → Event
  timeout : Event

unfoldable pub handle : Event → Cmd (Unit {0})
handle (control fd env bytes) = process_control_msg fd env (some bytes)
handle (chat sendto bytes) = process_chat_msg sendto (some bytes)
handle timeout = sweep

-- What the C library must give, and that no room is asked for while the tail of the room list is
-- lost. There is only one session of a state.
abbrev pub IsAllowed : Event → Server → Type 0
IsAllowed (control fd env bytes) s =
    (g : Session) → IsReady s g → EnvOk env s g × TailOk (request_of (type_of bytes)) s g
IsAllowed (chat sendto bytes) s = (addr port n : ℕ) → sendto addr port n ≡ some n
IsAllowed timeout s = Unit {0}

pub data Reach : Server → Type 0 where
  start :
      (malloc : ℕ → Ptr)
      → (file : Option (List ℕ)) → MallocOk malloc
      → IsRoomFile file
      → {s : Server} → init_server malloc file empty_server ≡ ok tt s
      → Reach s
  next : {s t : Server} → Reach s → (e : Event) → IsAllowed e s → handle e s ≡ ok tt t → Reach t

chat-Returns :
    (s : Server) (g : Session) (sendto : (addr port n : ℕ) → Option ℕ) (bytes : List ℕ)
    → ((addr port n : ℕ) → sendto addr port n ≡ some n)
    → IsReady s g
    → Returns (process_chat_msg sendto (some bytes) s)
unfolding count_chat
chat-Returns s g sendto bytes all r =
    let (run, sound) = process_chat_msg-delivered sendto s g bytes all r.sound in
    let (member_names, room_names) = same_names in
    (
      after_chat s g bytes,
      g,
      run,
      record {
        sound = sound;
        member_names = λ p. rw member_names (r.member_names p);
        room_names = λ q. rw room_names (r.room_names q);
      },
    )
  where
    same_names :
        ((after_chat s g bytes).member_name ≡ s.member_name)
        × ((after_chat s g bytes).room_name ≡ s.room_name)
    same_names = ground arith

sweep-Returns : (s : Server) (g : Session) → IsReady s g → Returns (sweep s)
sweep-Returns s g r =
    let (t, run, a) = sweep-AfterSweep s g r.sound in
    (
      t,
      swept s g,
      run,
      record {
        sound = a.sound;
        member_names = λ p. rw a.member_name (r.member_names p);
        room_names = λ q. rw a.room_name (r.room_names q);
      },
    )

handle-Returns :
    (e : Event) (s : Server) (g : Session) → IsAllowed e s → IsReady s g → Returns (handle e s)
unfolding handle
handle-Returns (control fd env bytes) s g allowed r =
    let (o, tail) = allowed g r in (process_control_msg-Returns s g fd env bytes r o tail).0
handle-Returns (chat sendto bytes) s g allowed r = chat-Returns s g sendto bytes allowed r
handle-Returns timeout s g allowed r = sweep-Returns s g r

state_of : (t u : Server) → ◌≡◌ {A = Run (Unit {0})} (ok tt t) (ok tt u) → t ≡ u
state_of t u e = cc e

Reach-IsReady : {s : Server} → Reach s → (g : Session) × IsReady s g
Reach-IsReady {s = s} (start malloc file m text run) =
    let (t, g, run', ready, tail, nobody) = init_server-Started malloc file m text in
    (g, subst (λ v. IsReady v g) (state_of t s (sym run' ∙ run)) ready)
Reach-IsReady {s = t} (next {s = s} r e allowed run) =
    let (g, ready) = Reach-IsReady r in
    let (u, h, run', ready') = handle-Returns e s g allowed ready in
    (h, subst (λ v. IsReady v h) (state_of u t (sym run' ∙ run)) ready')

pub Reach-handles :
    (s : Server) (e : Event)
    → Reach s
    → IsAllowed e s
    → (t : Server) × (g : Session) × (handle e s ≡ ok tt t) × Reach t × IsSound t g
Reach-handles s e r allowed =
    let (g, ready) = Reach-IsReady r in
    let (t, h, run, ready') = handle-Returns e s g allowed ready in
    (t, h, run, next r e allowed run, ready'.sound)

keep-none :
    (p : Ptr → Bool) (xs : List Ptr) → ((a : Ptr) → has a xs ≡ true → p a ≡ false) → keep p xs ≡ []
unfolding keep
keep-none p [] h = refl
keep-none p (x ∷ xs) h = rw (h x (ground arith)) (keep-none p xs (λ a m. h a (ground (arith, m))))

-- After two timeouts with no message between them no member is left, in any state that the server
-- reaches.
pub sweep-twice :
    (s : Server)
    → Reach s
    → (t : Server) × (u : Server) × (sweep s ≡ ok tt t)
      × (sweep t ≡ ok tt u)
      × (u.total_num_of_members ≡ 0)
      × (u.mem_list.head ≡ null)
sweep-twice s r =
    let (g, ready) = Reach-IsReady r in
    let (t, first, a) = sweep-AfterSweep s g ready.sound in
    let (u, second, b) = sweep-AfterSweep t (swept s g) a.sound in
    let none : (swept t (swept s g)).members ≡ [] =
      keep-none (active t) (keep (active s) g.members)
        (λ p m. ap (λ k. k == 0) (a.silent_once p m)) in
    (
      t,
      u,
      first,
      second,
      b.sound.members.count ∙ ap length none,
      b.sound.members.shape.first ∙ ap hd none,
    )
