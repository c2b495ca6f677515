-- ===== src/Server/Leave.antt =====
-- A member leaves its room, or the session.
use csc469_advanced_operatin.Base.{
  ◌-◌, ◌≡◌, refl, sym, subst, ◌∙◌, ◌≢◌, inl, inr, true, false, some, List, arith, ◌==◌, has,
  Bool-cases, ==→≡, ==→≢, ≢→==,
}
use csc469_advanced_operatin.Dll.{Ptr, null, Dll, unlink}
use csc469_advanced_operatin.Dll.Shape.{All, All-has}
use csc469_advanced_operatin.Dll.Unlink.{erase, unlink-erase, Unlinked}
use csc469_advanced_operatin.Server.State.{Server, ok, room_members}
use csc469_advanced_operatin.Server.Members.{leave_room}
use csc469_advanced_operatin.Server.Occupants.{
  SameData-refl, SameRooms-refl, with_list-SameData, with_list-SameRooms, with_list,
  with_list-RoomOk_self, with_list-RoomOk_other,
}
use csc469_advanced_operatin.Server.Sound.{
  Session, RoomOk, OccupantsOk, IsSound, IsOutside, SameData, SameRooms, Chain-not-null, All-of_has,
  has-erase, erase_none, length-erase, length-erase_le,
}

not-has : (a : Ptr) (xs : List Ptr) → (has a xs ≡ true → ⊥) → has a xs ≡ false
not-has a xs h = elim (Bool-cases (has a xs)) [ inl e ↦ absurd (h e) | inr e ↦ e ]

has-ne : (a b : Ptr) (xs : List Ptr) → has a xs ≡ true → has b xs ≡ false → a ≢ b
has-ne a b xs h n e = ground arith

module _ (s : Server) (g : Session) (sound : IsSound s g) where
  -- Whoever is in a room's list is in that room.
  pub outside_others :
      (q a : Ptr) → has q g.rooms ≡ true → q ≢ s.current_room a → has a (g.occupants q) ≡ false
  outside_others q a m n = not-has a (g.occupants q) λ h. n (sym ((sound.occupants q m).there a h))

  pub occupants_live : (r : Ptr) → has r g.rooms ≡ true → All s.live_member (g.occupants r)
  occupants_live r m =
      All-of_has s.live_member (g.occupants r)
        λ a h. All-has s.live_member g.members a sound.members.live (sound.places.inside r a m h)

  pub room-ne-null : (r : Ptr) → has r g.rooms ≡ true → r ≢ null
  room-ne-null r m =
      has-ne r null g.rooms m
        (Chain-not-null s.next_room s.room_list_head g.rooms sound.rooms.chain)

  module _ (mt : Ptr) (there : has mt g.members ≡ true) where
    IsOutside-room_none : s.current_room mt ≡ null → IsOutside mt g
    IsOutside-room_none e r m = outside_others r mt m (λ q. room-ne-null r m (q ∙ e))

    leave-OccupantsOk :
        (room : Ptr) (k : Dll)
        → has room g.rooms ≡ true
        → s.current_room mt ≡ room
        → has mt (g.occupants room) ≡ true
        → Unlinked (g.occupants room) (erase mt (g.occupants room)) (room_members s room) k
        → OccupantsOk
            (with_list s room k (s.num_of_members room - 1))
            g.rooms
            (λ r. erase mt (g.occupants r))
    leave-OccupantsOk room k m e h u q mq = elim (Bool-cases (q == room)) [
      | inl same ↦
          subst
            (λ r.
              RoomOk (with_list s room k (s.num_of_members room - 1)) (erase mt (g.occupants r)) r)
            (sym (==→≡ q room same))
            (with_list-RoomOk_self s room k (s.num_of_members room - 1)
              (erase mt (g.occupants room)) u.shape
              (omega (arith, (sound.occupants room m).count, length-erase mt (g.occupants room) h))
              (omega (arith, (sound.occupants room m).bound, length-erase_le mt (g.occupants room)))
              λ p hp. (sound.occupants room m).there p (has-erase p mt (g.occupants room) hp))
      | inr differ ↦
          let ne = ==→≢ q room differ in
          rw (erase_none mt (g.occupants q) (outside_others q mt mq λ w. ne (w ∙ e))) (
            with_list-RoomOk_other s room k (s.num_of_members room - 1) (g.occupants q) q ne
              (λ a ha.
                u.same a
                  (outside_others room a m λ w. ne (sym (w ∙ (sound.occupants q mq).there a ha))))
              (sound.occupants q mq))
    ]

-- The state after `leave_room`: the lists of the rooms are those of the others, and all else is
-- as it was.
pub record Left (mt : Ptr) (s t : Server) (g : Session) : Type 0 where
  pub own : SameData s t
  pub rooms : SameRooms s t
  pub mem_list : t.mem_list ≡ s.mem_list
  pub total_num_of_members : t.total_num_of_members ≡ s.total_num_of_members
  pub current_room : t.current_room ≡ s.current_room
  pub empty_flag : t.empty_flag ≡ s.empty_flag
  pub occupants : OccupantsOk t g.rooms (λ r. erase mt (g.occupants r))

module _ (s : Server) (g : Session) (sound : IsSound s g) (mt : Ptr)
    (there : has mt g.members ≡ true) where
  pub mt_live : s.live_member mt ≡ true
  mt_live = All-has s.live_member g.members mt sound.members.live there

  leave_room-none : s.current_room mt ≡ null → leave_room mt s ≡ ok tt s
  unfolding leave_room
  leave_room-none e = rw (mt_live, e)

  leave_room-some :
      (room : Ptr) (k : Dll)
      → s.current_room mt ≡ room
      → has room g.rooms ≡ true
      → unlink s.live_member (room_members s room) mt ≡ some k
      → leave_room mt s ≡ ok tt (with_list s room k (s.num_of_members room - 1))
  unfolding leave_room
  leave_room-some room k e m u = rw (
    mt_live,
    e,
    ≢→== room null (room-ne-null s g sound room m),
    All-has s.live_room g.rooms room sound.rooms.live m,
    u,
  )

  -- Nobody's links are followed through a bad pointer, and the member is in no list afterwards.
  pub leave_room-Left : (t : Server) × (leave_room mt s ≡ ok tt t) × Left mt s t g
  leave_room-Left = elim (sound.places.current mt there) [
    | inl e ↦ (
      s,
      leave_room-none e,
      record {
        own = SameData-refl s;
        rooms = SameRooms-refl s;
        mem_list = refl;
        total_num_of_members = refl;
        current_room = refl;
        empty_flag = refl;
        occupants = λ r m.
            rw (erase_none mt (g.occupants r) (IsOutside-room_none s g sound mt there e r m))
              (sound.occupants r m);
      },
    )
    | inr (m, h) ↦
        let room = s.current_room mt in
        let (k, run, u) =
          unlink-erase s.live_member (room_members s room) mt (g.occupants room)
            (sound.occupants room m).shape (occupants_live s g sound room m) h in
        (
          with_list s room k (s.num_of_members room - 1),
          leave_room-some room k refl m run,
          record {
            own = with_list-SameData s room k (s.num_of_members room - 1);
            rooms = with_list-SameRooms s room k (s.num_of_members room - 1);
            mem_list = refl;
            total_num_of_members = refl;
            current_room = refl;
            empty_flag = refl;
            occupants = leave-OccupantsOk s g sound mt there room k m refl h u;
          },
        )
  ]
