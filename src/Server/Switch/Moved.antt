-- ===== src/Server/Switch/Moved.antt =====
-- The state after a member left one room and entered another.
use csc469_advanced_operatin.Base.{
  ◌≡◌, ap, ◌∙◌, ◌≢◌, inl, inr, true, [], ◌∷◌, ◌++◌, arith, ◌==◌, has, has-append, if◌then◌else◌,
  Bool-cases, ==→≡, ==→≢,
}
use csc469_advanced_operatin.Dll.{Ptr, update}
use csc469_advanced_operatin.Dll.Shape.{update_self, update_ne}
use csc469_advanced_operatin.Dll.Unlink.{erase}
use csc469_advanced_operatin.Server.State.{Server}
use csc469_advanced_operatin.Server.Leave.{Left}
use csc469_advanced_operatin.Server.Enter.{Entered}
use csc469_advanced_operatin.Server.Same.{MembersOk-fields}
use csc469_advanced_operatin.Server.Sound.{
  Session, PlacesOk, IsSound, without_occupant, with_occupant, has-erase, has-erase_ne,
  RoomsOk-same,
}

-- Out of the room it was in, and behind all others in the new one.
abbrev pub moved : (mt room : Ptr) → Session → Session
moved mt room g = with_occupant mt room (without_occupant mt g)

module _ (s : Server) (g : Session) (sound : IsSound s g) (mt : Ptr)
    (there : has mt g.members ≡ true) (room : Ptr) (m : has room g.rooms ≡ true) where
  moved-inside :
      (r p : Ptr)
      → has r g.rooms ≡ true
      → has p (if r == room then erase mt (g.occupants r) ++ mt ∷ [] else erase mt (g.occupants r))
        ≡ true
      → has p g.members ≡ true
  moved-inside r p mr h = elim (Bool-cases (p == mt)) [
    | inl e ↦ rw (==→≡ p mt e) there
    | inr e ↦ sound.places.inside r p mr (
        has-erase p mt (g.occupants r)
          (ground (arith, has-append p (erase mt (g.occupants r)) (mt ∷ []))))
  ]

  moved-has_self :
      has mt (
        if room == room
        then erase mt (g.occupants room) ++ mt ∷ []
        else erase mt (g.occupants room))
      ≡ true
  moved-has_self = ground (arith, has-append mt (erase mt (g.occupants room)) (mt ∷ []))

  moved-has_other :
      (p r : Ptr)
      → p ≢ mt
      → has p (g.occupants r) ≡ true
      → has p (if r == room then erase mt (g.occupants r) ++ mt ∷ [] else erase mt (g.occupants r))
        ≡ true
  moved-has_other p r n h = ground (
    arith,
    has-erase_ne p mt (g.occupants r) n h,
    has-append p (erase mt (g.occupants r)) (mt ∷ []),
  )

  module _ (t : Server) (e : t.current_room ≡ update s.current_room mt room) where
    moved-PlacesOk : PlacesOk t (moved mt room g)
    moved-PlacesOk = record {
      inside = moved-inside;
      current = λ p h. elim (Bool-cases (p == mt)) [
        | inl q ↦ rw (e, ==→≡ p mt q, update_self s.current_room mt room) (inr (m, moved-has_self))
        | inr q ↦
            rw (e, update_ne s.current_room mt room p (==→≢ p mt q))
              (elim (sound.places.current p h) [
                | inl z ↦ inl z
                | inr (mr, o) ↦ inr (mr, moved-has_other p (s.current_room p) (==→≢ p mt q) o)
              ])
      ];
    }

  pub move-IsSound :
      (t u : Server)
      → Left mt s t g
      → Entered mt room t u g.rooms (λ r. erase mt (g.occupants r))
      → IsSound u (moved mt room g)
  move-IsSound t u l n = record {
    members =
        MembersOk-fields s u g.members (n.own.live_member ∙ l.own.live_member)
          (n.mem_list ∙ l.mem_list) (n.total_num_of_members ∙ l.total_num_of_members) sound.members;
    rooms = RoomsOk-same t u g.rooms n.rooms (RoomsOk-same s t g.rooms l.rooms sound.rooms);
    occupants = n.occupants;
    places = moved-PlacesOk u (n.current_room ∙ ap (λ f. update f mt room) l.current_room);
  }
