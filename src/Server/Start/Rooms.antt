-- ===== src/Server/Start/Rooms.antt =====
-- The rooms that the server has when it starts.
use csc469_advanced_operatin.Base.{
  ℕ, ◌+◌, ◌<◌, ◌≡◌, ◌≢◌, inl, inr, refl, ap, ◌∙◌, true, false, Option, none, some, List, [], ◌∷◌,
  length, ◌==◌, if◌then◌else◌, arith, Bool-cases,
}
use csc469_advanced_operatin.Base.Bytes.{IsText}
use csc469_advanced_operatin.Dll.{Ptr, null}
use csc469_advanced_operatin.Dll.Shape.{lst}
use csc469_advanced_operatin.Server.State.{Server, ok, and_then}
use csc469_advanced_operatin.Server.Rooms.{create_room}
use csc469_advanced_operatin.Server.Create.{create_room-Created, Created}
use csc469_advanced_operatin.Server.Create.Run.{create_result}
use csc469_advanced_operatin.Server.Create.Link.{with_room}
use csc469_advanced_operatin.Server.Sound.{Session}
use csc469_advanced_operatin.Server.Ready.{IsReady}
use csc469_advanced_operatin.Server.Start.Lines.{file_names, read_rooms-names}
use csc469_advanced_operatin.Server.Start.{init_server, init_lists, create_rooms, empty_server}

abbrev pub IsRoomFile : Option (List ℕ) → Type 0
IsRoomFile none = Unit {0}
IsRoomFile (some file) = IsText file

-- Memory that `malloc` returns: never `NULL`, and never the same twice.
pub record MallocOk (malloc : ℕ → Ptr) : Type 0 where
  pub non_null : (k : ℕ) → malloc k ≢ null
  pub once : (j k : ℕ) → malloc j ≡ malloc k → j ≡ k

-- The session after some calls of `create_room`: nobody is there, and the rooms in memory come from
-- these calls.
pub record Started (malloc : ℕ → Ptr) (calls : ℕ) (s : Server) (g : Session) : Type 0 where
  pub ready : IsReady s g
  pub tail : s.room_list_tail ≡ lst null g.rooms
  pub nobody : g.members ≡ []
  pub allocated : (r : Ptr) → s.live_room r ≡ true → (k : ℕ) × (k < calls) × (r ≡ malloc k)

module _ (malloc : ℕ → Ptr) (m : MallocOk malloc) where
  pub Started-fresh :
      (calls : ℕ) (s : Server) (g : Session)
      → Started malloc calls s g
      → s.live_room (malloc calls) ≡ false
  Started-fresh calls s g h = elim (Bool-cases (s.live_room (malloc calls))) [
    | inr e ↦ e
    | inl e ↦
        let (k, lt, same) = h.allocated (malloc calls) e in
        absurd (omega (arith, lt, m.once calls k same))
  ]

  abbrev pub after : ℕ → ℕ → Session → Session
  after calls result g = if result == 0 then with_room (malloc calls) g else g

  after-nobody :
      (calls result : ℕ) (g : Session) → g.members ≡ [] → (after calls result g).members ≡ []
  after-nobody calls result g e = ground (arith, e)

  pub Created-Started :
      (calls result : ℕ) (name : List ℕ) (s t : Server) (g : Session)
      → Started malloc calls s g
      → Created (malloc calls) name result s t g
      → Started malloc (calls + 1) t (after calls result g)
  Created-Started calls result name s t g h c = record {
    ready = record {
      sound = c.sound;
      member_names = λ p. rw c.own.member_name (h.ready.member_names p);
      room_names = λ r. c.name_fits r (h.ready.room_names r);
    };
    tail = c.tail;
    nobody = after-nobody calls result g h.nobody;
    allocated = λ r l. elim (c.allocated r l) [
      | inr e ↦ (calls, omega arith, e)
      | inl old ↦ let (k, lt, e) = h.allocated r old in (k, omega (arith, lt), e)
    ];
  }

  pub step :
      (calls : ℕ) (name : List ℕ) (s : Server) (g : Session)
      → Started malloc calls s g
      → (t : Server) × (create_room (malloc calls) name s ≡ ok (create_result s g name) t)
        × Created (malloc calls) name (create_result s g name) s t g
  step calls name s g h =
      create_room-Created s g (malloc calls) name h.ready.sound (Started-fresh calls s g h)
        (m.non_null calls) h.tail

  pub create_rooms-Started :
      (names : List (List ℕ)) (calls : ℕ) (s : Server) (g : Session)
      → Started malloc calls s g
      → (t : Server) × (h : Session) × (n : ℕ) × (create_rooms malloc calls names s ≡ ok n t)
        × Started malloc n t h
  unfolding create_rooms
  create_rooms-Started [] calls s g h = (s, g, calls, refl, h)
  create_rooms-Started (name ∷ names) calls s g h =
      let (u, run, c) = step calls name s g h in
      let (t, k, n, rest, started) =
        create_rooms-Started names (calls + 1) u _
          (Created-Started calls (create_result s g name) name s u g h c) in
      (t, k, n, rw run rest, started)

abbrev pub empty_session : Session
empty_session = record { members = []; rooms = []; occupants = λ _. [] }

empty-IsReady : IsReady empty_server empty_session
empty-IsReady = record {
  sound = record {
    members = record {
      null_free = refl;
      shape = record { first = refl; last = refl; linked = tt; distinct = tt };
      live = tt;
      count = refl;
      bound = omega arith;
    };
    rooms = record {
      null_free = refl;
      chain = refl;
      live = tt;
      distinct = tt;
      count = refl;
      bound = omega arith;
      tail = inl refl;
    };
    occupants = λ r m. cc;
    places = record { inside = λ r p m. cc; current = λ p m. cc };
  };
  member_names = λ p. omega arith;
  room_names = λ r. omega arith;
}

pub start-Started : (malloc : ℕ → Ptr) → Started malloc 0 (init_lists empty_server) empty_session
unfolding init_lists
start-Started malloc = record {
  ready = empty-IsReady;
  tail = refl;
  nobody = refl;
  allocated = λ r l. cc l;
}

-- `init_server` ends, with nobody there and a tail pointer that is the last room.
pub init_server-Started :
    (malloc : ℕ → Ptr) (file : Option (List ℕ))
    → MallocOk malloc
    → IsRoomFile file
    → (t : Server) × (g : Session) × (init_server malloc file empty_server ≡ ok tt t)
      × IsReady t g
      × (t.room_list_tail ≡ lst null g.rooms)
      × (g.members ≡ [])
unfolding init_server
init_server-Started malloc none m text =
    let h = start-Started malloc in (_, _, refl, h.ready, h.tail, h.nobody)
init_server-Started malloc (some file) m text =
    let (t, g, n, run, h) =
      create_rooms-Started malloc m (file_names (length file + 1) file) 0 _ _
        (start-Started malloc) in
    (
      t,
      g,
      read_rooms-names malloc (length file + 1) file 0 _ text (omega arith)
          ∙ ap (λ r. and_then r (λ _. ok tt)) run,
      h.ready,
      h.tail,
      h.nobody,
    )
