-- ===== src/Server/Register/Fresh.antt =====
-- The struct of a new member, before and after it is linked into the list of members.
use csc469_advanced_operatin.Base.{
  ℕ, ◌+◌, ◌≡◌, refl, sym, ap, subst, ◌∙◌, ◌≢◌, ◌⊎◌, inl, inr, true, false, List, [], ◌∷◌, ◌++◌,
  ◌==◌, has, has-append, length, length-append, arith, Bool-cases, ==→≡, ==→≢,
}
use csc469_advanced_operatin.Dll.{Ptr, null, Dll}
use csc469_advanced_operatin.Dll.Shape.{IsDll-same, All-has, update_ne}
use csc469_advanced_operatin.Dll.Append.{Appended}
use csc469_advanced_operatin.Wire.Header.{max_num_of_members}
use csc469_advanced_operatin.Server.State.{Server, room_members}
use csc469_advanced_operatin.Server.Register.{new_member}
use csc469_advanced_operatin.Server.Create.Fresh.{not-has_fresh}
use csc469_advanced_operatin.Server.Sound.{
  Session, MembersOk, RoomOk, PlacesOk, IsSound, SameRooms, RoomsOk-same, All-of_has,
}

has-ne : (a b : Ptr) (xs : List Ptr) → has a xs ≡ true → has b xs ≡ false → a ≢ b
has-ne a b xs h n e = ground arith

module _ (s : Server) (g : Session) (sound : IsSound s g) (mt : Ptr) (name : List ℕ) (port : ℕ)
    (fresh : s.live_member mt ≡ false) (n : mt ≢ null) where
  pub fresh-not-has : has mt g.members ≡ false
  fresh-not-has = not-has_fresh s.live_member mt g.members sound.members.live fresh

  member-ne : (p : Ptr) → has p g.members ≡ true → p ≢ mt
  member-ne p m = has-ne p mt g.members m fresh-not-has

  new_member-MembersOk : MembersOk (new_member mt name port s) g.members
  unfolding new_member
  new_member-MembersOk = record {
    null_free = update_ne s.live_member mt true null (λ e. n (sym e)) ∙ sound.members.null_free;
    shape =
        IsDll-same s.mem_list _ g.members refl refl
          (λ a m. (
            update_ne s.mem_list.next mt null a (member-ne a m),
            update_ne s.mem_list.prev mt null a (member-ne a m),
          ))
          sound.members.shape;
    live = All-of_has _ g.members λ a m.
        update_ne s.live_member mt true a (member-ne a m)
        ∙ All-has s.live_member g.members a sound.members.live m;
    count = sound.members.count;
    bound = sound.members.bound;
  }

  new_member-RoomOk :
      (r : Ptr) → has r g.rooms ≡ true → RoomOk (new_member mt name port s) (g.occupants r) r
  unfolding new_member
  new_member-RoomOk r m =
      let o = sound.occupants r m in
      record {
        shape =
            IsDll-same (room_members s r) _ (g.occupants r) refl refl
              (λ a h. (
                update_ne s.next_room_member mt null a (member-ne a (sound.places.inside r a m h)),
                update_ne s.prev_room_member mt null a (member-ne a (sound.places.inside r a m h)),
              ))
              o.shape;
        count = o.count;
        bound = o.bound;
        there = λ p h.
            update_ne s.current_room mt null p (member-ne p (sound.places.inside r p m h))
            ∙ o.there p h;
      }

  new_member-SameRooms : SameRooms s (new_member mt name port s)
  unfolding new_member
  new_member-SameRooms = record {
    live_room = refl;
    room_name = refl;
    next_room = refl;
    room_list_head = refl;
    room_list_tail = refl;
    total_num_of_rooms = refl;
  }

  new_member-current :
      (p : Ptr)
      → has p g.members ≡ true
      → (new_member mt name port s).current_room p ≡ s.current_room p
  unfolding new_member
  new_member-current p m = update_ne s.current_room mt null p (member-ne p m)

  new_member-PlacesOk : PlacesOk (new_member mt name port s) g
  new_member-PlacesOk = record {
    inside = sound.places.inside;
    current = λ p m.
        subst (λ r. (r ≡ null) ⊎ ((has r g.rooms ≡ true) × (has p (g.occupants r) ≡ true)))
          (sym (new_member-current p m)) (sound.places.current p m);
  }

  -- A member in no list changes nothing for the session.
  pub new_member-IsSound : IsSound (new_member mt name port s) g
  new_member-IsSound = record {
    members = new_member-MembersOk;
    rooms = RoomsOk-same s (new_member mt name port s) g.rooms new_member-SameRooms sound.rooms;
    occupants = new_member-RoomOk;
    places = new_member-PlacesOk;
  }

snoc-earlier :
    (a p : Ptr) (xs : List Ptr) → (a == p) ≡ false → has a (xs ++ p ∷ []) ≡ true → has a xs ≡ true
snoc-earlier a p xs e m = ground (arith, has-append a xs (p ∷ []))

snoc-longer : (a p : Ptr) (xs : List Ptr) → has a xs ≡ true → has a (xs ++ p ∷ []) ≡ true
snoc-longer a p xs h = ground (arith, has-append a xs (p ∷ []))

-- The session with `mt` behind the others.
abbrev pub with_member : Ptr → Session → Session
with_member mt g = record g { members = g.members ++ mt ∷ [] }

-- A state whose member list became `k`.
abbrev pub joined : Server → Dll → Server
joined s k = record s { mem_list = k; total_num_of_members = s.total_num_of_members + 1 }

module _ (s : Server) (g : Session) (sound : IsSound s g) (mt : Ptr) (k : Dll)
    (u : Appended g.members mt s.mem_list k) (live : s.live_member mt ≡ true)
    (nowhere : s.current_room mt ≡ null)
    (space : (length g.members == max_num_of_members) ≡ false) where
  joined-MembersOk : MembersOk (joined s k) (g.members ++ mt ∷ [])
  joined-MembersOk = record {
    null_free = sound.members.null_free;
    shape = u.shape;
    live = All-of_has s.live_member (g.members ++ mt ∷ []) λ a m. elim (Bool-cases (a == mt)) [
      | inl e ↦ ap s.live_member (==→≡ a mt e) ∙ live
      | inr e ↦
          All-has s.live_member g.members a sound.members.live (snoc-earlier a mt g.members e m)
    ];
    count = omega (arith, sound.members.count, length-append g.members (mt ∷ []));
    bound = omega (
      arith,
      sound.members.bound,
      length-append g.members (mt ∷ []),
      ==→≢ (length g.members) max_num_of_members space,
    );
  }

  joined-PlacesOk : PlacesOk (joined s k) (with_member mt g)
  joined-PlacesOk = record {
    inside = λ r p m h. snoc-longer p mt g.members (sound.places.inside r p m h);
    current = λ p h. elim (Bool-cases (p == mt)) [
      | inl e ↦ inl (ap s.current_room (==→≡ p mt e) ∙ nowhere)
      | inr e ↦ sound.places.current p (snoc-earlier p mt g.members e h)
    ];
  }

  pub joined-IsSound : IsSound (joined s k) (with_member mt g)
  joined-IsSound = record {
    members = joined-MembersOk;
    rooms =
        RoomsOk-same s (joined s k) g.rooms
          (record {
            live_room = refl;
            room_name = refl;
            next_room = refl;
            room_list_head = refl;
            room_list_tail = refl;
            total_num_of_rooms = refl;
          })
          sound.rooms;
    occupants = λ r m.
        let o = sound.occupants r m in
        record { shape = o.shape; count = o.count; bound = o.bound; there = o.there };
    places = joined-PlacesOk;
  }
