-- ===== src/Server/Start/Names.antt =====
-- Which names of a file get a room.
use csc469_advanced_operatin.Base.{
  ℕ, suc, ◌+◌, ◌≡◌, inl, inr, refl, ap, ◌∙◌, Bool, true, false, not, ◌||◌, some, List, [], ◌∷◌,
  ◌++◌, map, length, has, has-append, str_eq, ltb, ◌==◌, if◌then◌else◌, arith, Bool-cases,
}
use mathlib.Core.List.{map-append}
use csc469_advanced_operatin.Base.Bytes.{IsText}
use csc469_advanced_operatin.Dll.{Ptr, null}
use csc469_advanced_operatin.Dll.Shape.{lst}
use csc469_advanced_operatin.Wire.Header.{max_num_of_rooms, max_room_name_len}
use csc469_advanced_operatin.Server.State.{Server, ok, and_then, c_room_name}
use csc469_advanced_operatin.Server.Walk.{first}
use csc469_advanced_operatin.Server.Create.{Created, has-ne_test}
use csc469_advanced_operatin.Server.Create.Fresh.{not-has_fresh}
use csc469_advanced_operatin.Server.Create.Run.{create_result}
use csc469_advanced_operatin.Server.Create.Link.{with_room}
use csc469_advanced_operatin.Server.Sound.{Session, Chain-not-null}
use csc469_advanced_operatin.Server.Ready.{IsReady}
use csc469_advanced_operatin.Server.Start.{init_server, create_rooms, empty_server}
use csc469_advanced_operatin.Server.Start.Lines.{file_names, read_rooms-names}
use csc469_advanced_operatin.Server.Start.Rooms.{
  MallocOk, Started, step, after, Created-Started, start-Started, Started-fresh,
}

abbrev pub has_name : List ℕ → List (List ℕ) → Bool
has_name name [] = false
has_name name (n ∷ names) = str_eq name n || has_name name names

-- The names of the rooms after one more is asked for: too long, no space, taken, or added.
abbrev pub admit : List (List ℕ) → List ℕ → List (List ℕ)
admit names name =
    if ltb max_room_name_len (length name)
    then names
    else if length names == max_num_of_rooms
    then names
    else if has_name name names
    then names
    else names ++ name ∷ []

abbrev pub admit_all : List (List ℕ) → List (List ℕ) → List (List ℕ)
admit_all names [] = names
admit_all names (name ∷ more) = admit_all (admit names name) more

-- No name fills its array to the last byte, where it would have no terminator.
abbrev pub HasEnds : List (List ℕ) → Type 0
HasEnds [] = Unit {0}
HasEnds (name ∷ names) = ((length name == max_room_name_len) ≡ false) × HasEnds names

HasEnds-append :
    (names : List (List ℕ)) (name : List ℕ)
    → HasEnds names
    → (length name == max_room_name_len) ≡ false
    → HasEnds (names ++ name ∷ [])
HasEnds-append [] name h e = (e, tt)
HasEnds-append (x ∷ names) name h e = (h.0, HasEnds-append names name h.1 e)

HasEnds-admit :
    (names : List (List ℕ)) (name : List ℕ)
    → HasEnds names
    → (length name == max_room_name_len) ≡ false
    → HasEnds (admit names name)
HasEnds-admit names name h e = ground (arith, h, HasEnds-append names name h e)

called-has_name :
    (s : Server) (name : List ℕ) (rooms : List Ptr)
    → has null rooms ≡ false
    → HasEnds (map s.room_name rooms)
    → (first (λ r. str_eq name (c_room_name s r)) rooms == null)
      ≡ not (has_name name (map s.room_name rooms))
unfolding first c_room_name
called-has_name s name [] n h = refl
called-has_name s name (r ∷ rooms) n h =
    let rest = called-has_name s name rooms (ground (arith, n)) h.1 in
    elim (Bool-cases (str_eq name (s.room_name r))) [
      | inl e ↦ rw (h.0, e) (ground (arith, n))
      | inr e ↦ rw (h.0, e) rest
    ]

map-same :
    (f g : Ptr → List ℕ) (rooms : List Ptr)
    → ((r : Ptr) → has r rooms ≡ true → f r ≡ g r)
    → map f rooms ≡ map g rooms
map-same f g [] h = refl
map-same f g (r ∷ rooms) h =
    ap2 (h r (ground arith)) (map-same f g rooms (λ q m. h q (ground (arith, m))))
  where
    ap2 : {x y : List ℕ} {xs ys : List (List ℕ)} → x ≡ y → xs ≡ ys → x ∷ xs ≡ y ∷ ys
    ap2 a b = cc (a, b)

length-names : (f : Ptr → List ℕ) (rooms : List Ptr) → length (map f rooms) ≡ length rooms
length-names f [] = refl
length-names f (r ∷ rooms) = ap suc (length-names f rooms)

module _ (s t : Server) (g : Session) (rt : Ptr) (name : List ℕ)
    (out : has rt g.rooms ≡ false) where
  in-with_room : (r : Ptr) → has r g.rooms ≡ true → has r (g.rooms ++ rt ∷ []) ≡ true
  in-with_room r m = has-append r g.rooms (rt ∷ []) ∙ ground (arith, m)

  self-with_room : has rt (g.rooms ++ rt ∷ []) ≡ true
  self-with_room = has-append rt g.rooms (rt ∷ []) ∙ ground arith

  Created-names :
      (result : ℕ)
      → Created rt name result s t g
      → map t.room_name (if result == 0 then with_room rt g else g).rooms
        ≡ (if result == 0 then map s.room_name g.rooms ++ name ∷ [] else map s.room_name g.rooms)
  Created-names result c = elim (Bool-cases (result == 0)) [
    | inr e ↦ rw e (
        map-same t.room_name s.room_name g.rooms
          λ r m. c.room_name r (rw e m) ∙ rw (has-ne_test r rt g.rooms m out) refl)
    | inl e ↦ rw e (
        map-append t.room_name g.rooms (rt ∷ [])
        ∙ ap (λ names. names ++ t.room_name rt ∷ [])
            (map-same t.room_name s.room_name g.rooms λ r m.
              c.room_name r (rw e (in-with_room r m)) ∙ rw (has-ne_test r rt g.rooms m out) refl)
        ∙ ap (λ n. map s.room_name g.rooms ++ n ∷ [])
            (c.room_name rt (rw e self-with_room) ∙ ground arith))
  ]

create_result-admit :
    (s : Server) (g : Session) (name : List ℕ)
    → has null g.rooms ≡ false
    → HasEnds (map s.room_name g.rooms)
    → (if create_result s g name == 0
        then map s.room_name g.rooms ++ name ∷ []
        else map s.room_name g.rooms)
      ≡ admit (map s.room_name g.rooms) name
create_result-admit s g name n h = elim (Bool-cases (ltb max_room_name_len (length name))) [
  | inl long ↦ rw long refl
  | inr fits ↦ elim (Bool-cases (length g.rooms == max_num_of_rooms)) [
    | inl full ↦ rw (fits, length-names s.room_name g.rooms, full) refl
    | inr space ↦ elim (Bool-cases (has_name name (map s.room_name g.rooms))) [
      | inl taken ↦
          rw
            (
              fits,
              length-names s.room_name g.rooms,
              space,
              taken,
              called-has_name s name g.rooms n h,
              taken,
            )
            refl
      | inr free ↦
          rw
            (
              fits,
              length-names s.room_name g.rooms,
              space,
              free,
              called-has_name s name g.rooms n h,
              free,
            )
            refl
    ]
  ]
]

module _ (malloc : ℕ → Ptr) (m : MallocOk malloc) where
  create_rooms-Names :
      (names : List (List ℕ)) (calls : ℕ) (s : Server) (g : Session)
      → Started malloc calls s g
      → HasEnds names
      → HasEnds (map s.room_name g.rooms)
      → (t : Server) × (h : Session) × (n : ℕ) × (create_rooms malloc calls names s ≡ ok n t)
        × Started malloc n t h
        × (map t.room_name h.rooms ≡ admit_all (map s.room_name g.rooms) names)
  unfolding create_rooms
  create_rooms-Names [] calls s g h e k = (s, g, calls, refl, h, refl)
  create_rooms-Names (name ∷ names) calls s g h e k =
      let (u, run, c) = step malloc m calls name s g h in
      let sound = h.ready.sound in
      let now : map u.room_name (after malloc m calls (create_result s g name) g).rooms
          ≡ admit (map s.room_name g.rooms) name =
        Created-names s u g (malloc calls) name
          (not-has_fresh s.live_room (malloc calls) g.rooms sound.rooms.live
            (Started-fresh malloc m calls s g h))
          (create_result s g name) c
        ∙ create_result-admit s g name
            (Chain-not-null s.next_room s.room_list_head g.rooms sound.rooms.chain) k in
      let (t, g', n, rest, started, same) =
        create_rooms-Names names (calls + 1) u _
          (Created-Started malloc m calls (create_result s g name) name s u g h c) e.1
          (rw now (HasEnds-admit _ name k e.0)) in
      (t, g', n, rw run rest, started, same ∙ ap (λ l. admit_all l names) now)

-- Started with a file of rooms that has no zero byte, and with memory of its own for each room, the
-- server reads the file to its end and starts with these rooms, in this order: a name of the file
-- is left out where it is longer than a name may be, where the list of rooms is full, and where a
-- room before it has it. Only names in lines that end before the end of the file count, and none of
-- them fills its array to the last byte. No member is there, the session is well formed, and the
-- tail pointer is the last room.
pub init_server-rooms :
    (malloc : ℕ → Ptr) (file : List ℕ)
    → MallocOk malloc
    → IsText file
    → HasEnds (file_names (length file + 1) file)
    → (t : Server) × (g : Session) × (init_server malloc (some file) empty_server ≡ ok tt t)
      × IsReady t g
      × (g.members ≡ [])
      × (t.room_list_tail ≡ lst null g.rooms)
      × (map t.room_name g.rooms ≡ admit_all [] (file_names (length file + 1) file))
unfolding init_server
init_server-rooms malloc file m text ends =
    let (t, g, n, run, h, names) =
      create_rooms-Names malloc m (file_names (length file + 1) file) 0 _ _ (start-Started malloc)
        ends tt in
    (
      t,
      g,
      read_rooms-names malloc (length file + 1) file 0 _ text (omega arith)
          ∙ ap (λ r. and_then r (λ _. ok tt)) run,
      h.ready,
      h.nobody,
      h.tail,
      names,
    )
