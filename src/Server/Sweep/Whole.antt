-- ===== src/Server/Sweep/Whole.antt =====
-- The whole sweep.
use csc469_advanced_operatin.Base.{
  ℕ, ◌+◌, ◌≡◌, refl, sym, ap, subst, ◌∙◌, Bool, true, not, ◌||◌, List, [], Distinct, arith, ◌==◌,
  has, length, inl, inr,
}
use csc469_advanced_operatin.Dll.{Ptr, null}
use csc469_advanced_operatin.Dll.Shape.{hd}
use csc469_advanced_operatin.Server.State.{Server, ok, and_then}
use csc469_advanced_operatin.Server.Sound.{Session, IsSound, MembersOk, RoomsOk, RoomOk}
use csc469_advanced_operatin.Server.Chain.{Chain-hd}
use csc469_advanced_operatin.Server.Sweep.{sweep, sweep_members, sweep_rooms}
use csc469_advanced_operatin.Server.Sweep.Members.{drop_silent, Swept, sweep_members-Swept}
use csc469_advanced_operatin.Server.Sweep.Rooms.{drop_empty, SweptRooms}
use csc469_advanced_operatin.Server.Sweep.RoomLoop.{sweep_rooms-SweptRooms}
use csc469_advanced_operatin.Server.Sweep.Lists.{
  keep, keep-ext, has-keep, drop_list-keep, drop_list, stays_visited, drop_silent-lists,
  drop_empty-lists, bump-flag,
}

-- Who wrote since the last sweep.
abbrev pub active : Server → Ptr → Bool
active s p = s.quiet_flag p == 0

-- A room stays if an active member is in it, or if it was not yet empty at the last sweep.
abbrev pub in_use : Server → Session → Ptr → Bool
in_use s g r = not (length (keep (active s) (g.occupants r)) == 0) || (s.empty_flag r == 0)

abbrev pub swept : Server → Session → Session
swept s g = record {
  members = keep (active s) g.members;
  rooms = keep (in_use s g) g.rooms;
  occupants = λ r. keep (active s) (g.occupants r);
}

-- A session is given by its lists of members and rooms, and those of the members of its rooms.
pub IsSound-session :
    (s : Server) (g h : Session)
    → g.members ≡ h.members
    → g.rooms ≡ h.rooms
    → ((r : Ptr) → has r g.rooms ≡ true → g.occupants r ≡ h.occupants r)
    → IsSound s g
    → IsSound s h
IsSound-session s g h m r o sound = record {
  members = subst (MembersOk s) m sound.members;
  rooms = subst (RoomsOk s) r sound.rooms;
  occupants = λ q k. subst (λ xs. RoomOk s xs q) (o q (in_g q k)) (sound.occupants q (in_g q k));
  places = record {
    inside = λ q p k w.
        subst (λ xs. has p xs ≡ true) m
          (sound.places.inside q p (in_g q k)
            (subst (λ xs. has p xs ≡ true) (sym (o q (in_g q k))) w));
    current = λ p k. elim (sound.places.current p (subst (λ xs. has p xs ≡ true) (sym m) k)) [
      | inl e ↦ inl e
      | inr (w, v) ↦ inr (
        subst (λ xs. has (s.current_room p) xs ≡ true) r w,
        subst (λ xs. has p xs ≡ true) (o (s.current_room p) w) v,
      )
    ];
  };
}
  where
    in_g : (q : Ptr) → has q h.rooms ≡ true → has q g.rooms ≡ true
    in_g q k = subst (λ xs. has q xs ≡ true) (sym r) k

abbrev awake : Server → Session → Session
awake s g = record {
  members = keep (active s) g.members;
  rooms = g.rooms;
  occupants = λ r. keep (active s) (g.occupants r);
}

module _ (s : Server) (g : Session) (sound : IsSound s g) where
  filtered :
      (xs : List Ptr)
      → Distinct xs
      → ((a : Ptr) → has a xs ≡ true → has a g.members ≡ true)
      → drop_list (λ _. 0) s.quiet_flag g.members xs ≡ keep (active s) xs
  filtered xs d h =
      drop_list-keep (λ _. 0) s.quiet_flag g.members xs sound.members.shape.distinct d
      ∙ stays_visited (λ _. 0) s.quiet_flag g.members xs h

  awake-IsSound : (t : Server) → Swept s t g g.members → IsSound t (awake s g)
  awake-IsSound t w =
      IsSound-session t (drop_silent s.quiet_flag g.members g) (awake s g)
        ((lists null).0 ∙ filtered g.members sound.members.shape.distinct (λ a m. m)) (lists null).1
        (λ r m.
          let n = in_g r m in
          (lists r).2
          ∙ filtered (g.occupants r) (sound.occupants r n).shape.distinct
              (λ a k. sound.places.inside r a n k))
        w.sound
    where
      lists :
          (r : Ptr)
          → ((drop_silent s.quiet_flag g.members g).members
              ≡ drop_list (λ _. 0) s.quiet_flag g.members g.members)
            × ((drop_silent s.quiet_flag g.members g).rooms ≡ g.rooms)
            × ((drop_silent s.quiet_flag g.members g).occupants r
                ≡ drop_list (λ _. 0) s.quiet_flag g.members (g.occupants r))
      lists r = drop_silent-lists s.quiet_flag g.members g r

      in_g :
          (r : Ptr)
          → has r (drop_silent s.quiet_flag g.members g).rooms ≡ true
          → has r g.rooms ≡ true
      in_g r m = subst (λ xs. has r xs ≡ true) (lists r).1 m

  swept-IsSound :
      (t u : Server)
      → Swept s t g g.members
      → IsSound t (awake s g)
      → SweptRooms t u (awake s g) g.rooms
      → IsSound u (swept s g)
  swept-IsSound t u w h v =
      IsSound-session u (drop_empty t.num_of_members t.empty_flag g.rooms (awake s g)) (swept s g)
        lists.0 (lists.1 ∙ rooms) (λ r m i. lists.2 i r) v.sound
    where
      lists :
          ((drop_empty t.num_of_members t.empty_flag g.rooms (awake s g)).members
            ≡ (awake s g).members)
          × ((drop_empty t.num_of_members t.empty_flag g.rooms (awake s g)).rooms
              ≡ drop_list t.num_of_members t.empty_flag g.rooms g.rooms)
          × ((drop_empty t.num_of_members t.empty_flag g.rooms (awake s g)).occupants
              ≡ (awake s g).occupants)
      lists = drop_empty-lists t.num_of_members t.empty_flag g.rooms (awake s g)

      rooms : drop_list t.num_of_members t.empty_flag g.rooms g.rooms ≡ keep (in_use s g) g.rooms
      rooms =
          drop_list-keep t.num_of_members t.empty_flag g.rooms g.rooms sound.rooms.distinct
            sound.rooms.distinct
          ∙ stays_visited t.num_of_members t.empty_flag g.rooms g.rooms (λ a m. m)
          ∙ keep-ext (λ z. not (t.num_of_members z == 0) || (t.empty_flag z == 0)) (in_use s g)
              g.rooms (λ x m. rw ((h.occupants x m).count, ap (λ (f : Ptr → ℕ). f x) w.empty_flag))

-- The state after a sweep.
pub record AfterSweep (s t : Server) (g : Session) : Type 0 where
  pub sound : IsSound t (swept s g)
  pub silent_once : (p : Ptr) → has p (keep (active s) g.members) ≡ true → t.quiet_flag p ≡ 1
  pub member_id : t.member_id ≡ s.member_id
  pub member_name : t.member_name ≡ s.member_name
  pub current_room : t.current_room ≡ s.current_room
  pub sent : t.sent ≡ s.sent
  pub room_name : t.room_name ≡ s.room_name

sweep-run :
    (s t u : Server) (g : Session)
    → IsSound s g
    → IsSound t (awake s g)
    → sweep_members (s.total_num_of_members + 1) (hd g.members) s ≡ ok tt t
    → sweep_rooms (t.total_num_of_rooms + 1) (hd g.rooms) t ≡ ok tt u
    → sweep s ≡ ok tt u
unfolding sweep
sweep-run s t u g sound h first second =
    ap
      (λ p.
        and_then (sweep_members (s.total_num_of_members + 1) p s)
          λ _ t. sweep_rooms (t.total_num_of_rooms + 1) t.room_list_head t)
      sound.members.shape.first
    ∙ rw first (
        ap (λ p. sweep_rooms (t.total_num_of_rooms + 1) p t)
          (Chain-hd t.next_room t.room_list_head g.rooms h.rooms.chain)
        ∙ second)

-- From a well-formed state the sweep ends, follows no bad pointer and sends nothing. Exactly the
-- members that wrote since the last sweep stay, in their order, in the list of members and in the
-- lists of the rooms, each marked as silent once. A room stays exactly if such a member is in it
-- or if its flag did not yet say that it stood empty. The state is well formed for these.
pub sweep-AfterSweep :
    (s : Server) (g : Session) → IsSound s g → (t : Server) × (sweep s ≡ ok tt t) × AfterSweep s t g
sweep-AfterSweep s g sound =
    let (t, first, w) =
      sweep_members-Swept (s.total_num_of_members + 1) s g [] g.members sound refl
        (omega (arith, sound.members.count)) in
    let h : IsSound t (awake s g) = awake-IsSound s g sound t w in
    let (u, second, v) =
      sweep_rooms-SweptRooms (t.total_num_of_rooms + 1) t (awake s g) [] g.rooms h refl
        (omega (arith, h.rooms.count)) in
    (
      u,
      sweep-run s t u g sound h first second,
      record {
        sound = swept-IsSound s g sound t u w h v;
        silent_once = λ p m.
            (λ i. v.quiet_flag i p)
            ∙ (λ i. w.quiet_flag i p)
            ∙ bump-flag s.quiet_flag g.members p sound.members.shape.distinct
            ∙ ground (arith, has-keep (active s) p g.members);
        member_id = v.member_id ∙ w.member_id;
        member_name = v.member_name ∙ w.member_name;
        current_room = v.current_room ∙ w.current_room;
        sent = v.sent ∙ w.sent;
        room_name = v.room_name ∙ w.rooms.room_name;
      },
    )
