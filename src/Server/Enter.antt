-- ===== src/Server/Enter.antt =====
-- A member that is in no room's list enters a room.
use csc469_advanced_operatin.Base.{
  ◌<◌, ◌+◌, ◌≡◌, refl, sym, subst, ◌∙◌, ◌≢◌, inl, inr, true, false, some, List, [], ◌∷◌, ◌++◌,
  arith, ◌==◌, has, has-append, length, length-append, if◌then◌else◌, Bool-cases, ==→≡, ==→≢,
}
use csc469_advanced_operatin.Dll.{Ptr, null, update, Dll, append}
use csc469_advanced_operatin.Dll.Shape.{All, IsDll, IsDll-same, update_self, update_ne}
use csc469_advanced_operatin.Dll.Append.{append-snoc, Appended}
use csc469_advanced_operatin.Wire.Header.{max_num_of_members_per_room}
use csc469_advanced_operatin.Server.State.{Server, ok, room_members}
use csc469_advanced_operatin.Server.Members.{set_room, join_room, enter_room}
use csc469_advanced_operatin.Server.Occupants.{
  with_list, with_list-RoomOk_self, with_list-RoomOk_other,
}
use csc469_advanced_operatin.Server.Sound.{RoomOk, OccupantsOk, SameData, SameRooms}

has-ne : (a b : Ptr) (xs : List Ptr) → has a xs ≡ true → has b xs ≡ false → a ≢ b
has-ne a b xs h n e = ground arith

module _ (t : Server) (mt room : Ptr) (rooms : List Ptr) (occ : Ptr → List Ptr)
    (o : OccupantsOk t rooms occ) (m : has room rooms ≡ true)
    (out : (r : Ptr) → has r rooms ≡ true → has mt (occ r) ≡ false) where
  set_room-RoomOk :
      (q : Ptr) → has q rooms ≡ true → IsDll (room_members (set_room mt room t) q) (occ q)
  unfolding set_room
  set_room-RoomOk q mq =
      IsDll-same (room_members t q) _ (occ q) refl refl
        (λ a ha. (
          update_ne t.next_room_member mt null a (has-ne a mt (occ q) ha (out q mq)),
          update_ne t.prev_room_member mt null a (has-ne a mt (occ q) ha (out q mq)),
        ))
        (o q mq).shape

  set_room-there :
      (q : Ptr)
      → has q rooms ≡ true
      → (p : Ptr) → has p (occ q) ≡ true
      → (set_room mt room t).current_room p ≡ q
  unfolding set_room
  set_room-there q mq p hp =
      update_ne t.current_room mt room p (has-ne p mt (occ q) hp (out q mq)) ∙ (o q mq).there p hp

  set_room-RoomOk' : (q : Ptr) → has q rooms ≡ true → RoomOk (set_room mt room t) (occ q) q
  unfolding set_room
  set_room-RoomOk' q mq = record {
    shape = set_room-RoomOk q mq;
    count = (o q mq).count;
    bound = (o q mq).bound;
    there = set_room-there q mq;
  }

  abbrev entered : Dll → Server
  entered k = record (with_list (set_room mt room t) room k (t.num_of_members room + 1)) {
    empty_flag = update t.empty_flag room 0;
  }

  module _ (k : Dll) (u : Appended (occ room) mt (room_members (set_room mt room t) room) k) where
    entered_self :
        length (occ room) < max_num_of_members_per_room
        → RoomOk
            (with_list (set_room mt room t) room k (t.num_of_members room + 1))
            (occ room ++ mt ∷ [])
            room
    unfolding set_room
    entered_self b =
        with_list-RoomOk_self (set_room mt room t) room k (t.num_of_members room + 1)
          (occ room ++ mt ∷ []) u.shape
          (omega (arith, (o room m).count, length-append (occ room) (mt ∷ [])))
          (omega (arith, length-append (occ room) (mt ∷ [])))
          λ p hp. elim (Bool-cases (p == mt)) [
            | inl e ↦ rw (==→≡ p mt e) (update_self t.current_room mt room)
            | inr e ↦ set_room-there room m p (ground (arith, has-append p (occ room) (mt ∷ [])))
          ]

    entered_other :
        (q : Ptr)
        → has q rooms ≡ true
        → q ≢ room
        → RoomOk (with_list (set_room mt room t) room k (t.num_of_members room + 1)) (occ q) q
    entered_other q mq ne =
        with_list-RoomOk_other (set_room mt room t) room k (t.num_of_members room + 1) (occ q) q ne
          (λ a ha. u.same a (apart a ha)) (set_room-RoomOk' q mq)
      where
        apart : (a : Ptr) → has a (occ q) ≡ true → has a (occ room ++ mt ∷ []) ≡ false
        apart a ha = elim (Bool-cases (has a (occ room))) [
          | inl h ↦ absurd (ne (sym ((o q mq).there a ha) ∙ (o room m).there a h))
          | inr h ↦ ground (arith, has-append a (occ room) (mt ∷ []), out q mq)
        ]

-- The state after `mt` entered `room`.
pub record Entered (mt room : Ptr) (s t : Server) (rs : List Ptr) (occ : Ptr → List Ptr)
    : Type 0 where
  pub own : SameData s t
  pub rooms : SameRooms s t
  pub mem_list : t.mem_list ≡ s.mem_list
  pub total_num_of_members : t.total_num_of_members ≡ s.total_num_of_members
  pub current_room : t.current_room ≡ update s.current_room mt room
  pub empty_flag : t.empty_flag ≡ update s.empty_flag room 0
  pub occupants : OccupantsOk t rs (λ r. if r == room then occ r ++ mt ∷ [] else occ r)

module _ (t : Server) (mt room : Ptr) (rooms : List Ptr) (occ : Ptr → List Ptr)
    (o : OccupantsOk t rooms occ) (m : has room rooms ≡ true)
    (out : (r : Ptr) → has r rooms ≡ true → has mt (occ r) ≡ false)
    (space : length (occ room) < max_num_of_members_per_room) where
  entered-OccupantsOk :
      (k : Dll)
      → Appended (occ room) mt (room_members (set_room mt room t) room) k
      → OccupantsOk
          (entered t mt room rooms occ o m out k)
          rooms
          (λ r. if r == room then occ r ++ mt ∷ [] else occ r)
  entered-OccupantsOk k u q mq = elim (Bool-cases (q == room)) [
    | inl e ↦ rw e (
        subst (λ r. RoomOk (entered t mt room rooms occ o m out k) (occ r ++ mt ∷ []) r)
          (sym (==→≡ q room e))
          (flagged (occ room ++ mt ∷ []) room (entered_self t mt room rooms occ o m out k u space)))
    | inr e ↦
        rw e
          (flagged (occ q) q (entered_other t mt room rooms occ o m out k u q mq (==→≢ q room e)))
  ]
    where
      flagged :
          (xs : List Ptr) (r : Ptr)
          → RoomOk (with_list (set_room mt room t) room k (t.num_of_members room + 1)) xs r
          → RoomOk (entered t mt room rooms occ o m out k) xs r
      flagged xs r h = record { shape = h.shape; count = h.count; bound = h.bound; there = h.there }

  enter_room-some :
      (k : Dll)
      → append t.live_member (room_members (set_room mt room t) room) mt ≡ some k
      → enter_room mt room t ≡ ok tt (entered t mt room rooms occ o m out k)
  unfolding enter_room join_room set_room
  enter_room-some k e = rw e refl

  pub enter_room-Entered :
      All t.live_member (occ room)
      → t.live_member mt ≡ true
      → mt ≢ null
      → (u : Server) × (enter_room mt room t ≡ ok tt u) × Entered mt room t u rooms occ
  unfolding set_room
  enter_room-Entered live lm n =
      let (k, run, u) =
        append-snoc t.live_member (room_members (set_room mt room t) room) mt (occ room)
          (set_room-RoomOk t mt room rooms occ o m out room m) live lm n (out room m)
          (update_self t.next_room_member mt null, update_self t.prev_room_member mt null) in
      (
        entered t mt room rooms occ o m out k,
        enter_room-some k run,
        record {
          own = record {
            live_member = refl;
            member_id = refl;
            member_name = refl;
            quiet_flag = refl;
            udp_addr = refl;
            udp_port = refl;
            num_chat_msgs = refl;
            num_bytes_rcved = refl;
            sent = refl;
          };
          rooms = record {
            live_room = refl;
            room_name = refl;
            next_room = refl;
            room_list_head = refl;
            room_list_tail = refl;
            total_num_of_rooms = refl;
          };
          mem_list = refl;
          total_num_of_members = refl;
          current_room = refl;
          empty_flag = refl;
          occupants = entered-OccupantsOk k u;
        },
      )
