-- ===== src/Server/Sweep/Members.antt =====
-- The first loop of the sweep: who was silent for a whole interval leaves.
use csc469_advanced_operatin.Base.{
  ℕ, zero, suc, ◌<◌, ◌+◌, ◌≡◌, refl, sym, ap, subst, ◌∙◌, inl, inr, true, false, List, [], ◌∷◌,
  ◌++◌, arith, ◌==◌, has, Distinct, length, if◌then◌else◌, Bool-cases, append_assoc, has-append,
  ≢→==,
}
use csc469_advanced_operatin.Dll.{Ptr, null, update}
use csc469_advanced_operatin.Dll.Shape.{hd, Linked, All-has}
use csc469_advanced_operatin.Dll.Unlink.{erase}
use csc469_advanced_operatin.Server.State.{Server, ok, ◌>>◌}
use csc469_advanced_operatin.Server.Sound.{Session, IsSound, without_member, SameRooms}
use csc469_advanced_operatin.Server.Same.{IsSound-same}
use csc469_advanced_operatin.Server.Occupants.{SameRooms-refl}
use csc469_advanced_operatin.Server.Remove.{Gone, remove_member-Gone}
use csc469_advanced_operatin.Server.Members.{remove_member, free_member}
use csc469_advanced_operatin.Server.Sweep.{sweep_member, sweep_members}

-- The flags after the loop: a member that stays was active, and has now been silent once.
unfoldable pub bump : (Ptr → ℕ) → List Ptr → Ptr → ℕ
bump quiet [] = quiet
bump quiet (y ∷ ys) = if quiet y == 0 then bump (update quiet y (quiet y + 1)) ys else bump quiet ys

-- The session after the loop over `ys`.
unfoldable pub drop_silent : (Ptr → ℕ) → List Ptr → Session → Session
drop_silent quiet [] g = g
drop_silent quiet (y ∷ ys) g =
    if quiet y == 0
    then drop_silent (update quiet y (quiet y + 1)) ys g
    else drop_silent quiet ys (without_member y g)

-- What the loop over `ys` leaves of the state `s`.
pub record Swept (s t : Server) (g : Session) (ys : List Ptr) : Type 0 where
  pub sound : IsSound t (drop_silent s.quiet_flag ys g)
  pub quiet_flag : t.quiet_flag ≡ bump s.quiet_flag ys
  pub member_id : t.member_id ≡ s.member_id
  pub member_name : t.member_name ≡ s.member_name
  pub sent : t.sent ≡ s.sent
  pub current_room : t.current_room ≡ s.current_room
  pub empty_flag : t.empty_flag ≡ s.empty_flag
  pub rooms : SameRooms s t

abbrev quieter : Server → Ptr → Server
quieter s mt = record s { quiet_flag = update s.quiet_flag mt (s.quiet_flag mt + 1) }

quieter-IsSound : (s : Server) (g : Session) (mt : Ptr) → IsSound s g → IsSound (quieter s mt) g
quieter-IsSound s g mt =
    IsSound-same s (quieter s mt)
      (record {
        live_member = refl;
        mem_list = refl;
        total_num_of_members = refl;
        next_room_member = refl;
        prev_room_member = refl;
        member_list_head = refl;
        member_list_tail = refl;
        current_room = refl;
        num_of_members = refl;
      })
      (record {
        live_room = refl;
        room_name = refl;
        next_room = refl;
        room_list_head = refl;
        room_list_tail = refl;
        total_num_of_rooms = refl;
      })
      g

-- Where the loop stands: `ys` is still to come.
node_of :
    (next prev : Ptr → Ptr) (back y : Ptr) (xs ys : List Ptr)
    → Linked next prev back (xs ++ y ∷ ys)
    → (next y ≡ hd ys) × ((y == null) ≡ false)
node_of next prev back y [] ys l = (l.2, ≢→== y null l.0)
node_of next prev back y (x ∷ xs) ys l = node_of next prev x y xs ys l.3

pub erase-append :
    (y : Ptr) (xs ys : List Ptr) → Distinct (xs ++ y ∷ ys) → erase y (xs ++ y ∷ ys) ≡ xs ++ ys
unfolding erase
erase-append y [] ys d = ground arith
erase-append y (x ∷ xs) ys d = ground (arith, erase-append y xs ys d.1, has-append x xs (y ∷ ys))

pub has-middle : (y : Ptr) (xs ys : List Ptr) → has y (xs ++ y ∷ ys) ≡ true
has-middle y xs ys = ground (arith, has-append y xs (y ∷ ys))

module _ (k : ℕ) (s : Server) (y : Ptr) (ys : List Ptr) where
  sweep_members_active :
      (t : Server)
      → ((y == null) ≡ false) × (s.live_member y ≡ true) × (s.mem_list.next y ≡ hd ys)
      → (s.quiet_flag y == 0) ≡ true
      → sweep_members k (hd ys) (quieter s y) ≡ ok tt t
      → sweep_members (suc k) y s ≡ ok tt t
  unfolding sweep_members sweep_member
  sweep_members_active t (n, v, e) q run = rw (n, v, q, e) run

  sweep_members_silent :
      (u t : Server)
      → ((y == null) ≡ false) × (s.live_member y ≡ true) × (s.mem_list.next y ≡ hd ys)
      → (s.quiet_flag y == 0) ≡ false
      → sweep_member y s ≡ ok tt u
      → sweep_members k (hd ys) u ≡ ok tt t
      → sweep_members (suc k) y s ≡ ok tt t
  unfolding sweep_members
  sweep_members_silent u t (n, v, e) q step run = rw (n, v, step, e) run

-- The facts about the node `y` that the loop has come to.
module _ (s : Server) (g : Session) (sound : IsSound s g) (xs ys : List Ptr) (y : Ptr)
    (e : g.members ≡ xs ++ y ∷ ys) where
  at_node : ((y == null) ≡ false) × (s.live_member y ≡ true) × (s.mem_list.next y ≡ hd ys)
  at_node =
      let n =
        node_of s.mem_list.next s.mem_list.prev null y xs ys
          (subst (Linked s.mem_list.next s.mem_list.prev null) e sound.members.shape.linked) in
      (n.1, All-has s.live_member g.members y sound.members.live (rw e (has-middle y xs ys)), n.0)

  Swept-active :
      (t : Server)
      → (s.quiet_flag y == 0) ≡ true
      → Swept (quieter s y) t g ys
      → Swept s t g (y ∷ ys)
  unfolding bump drop_silent
  Swept-active t q w = record {
    sound = rw q w.sound;
    quiet_flag = rw q w.quiet_flag;
    member_id = w.member_id;
    member_name = w.member_name;
    sent = w.sent;
    current_room = w.current_room;
    empty_flag = w.empty_flag;
    rooms = record {
      live_room = w.rooms.live_room;
      room_name = w.rooms.room_name;
      next_room = w.rooms.next_room;
      room_list_head = w.rooms.room_list_head;
      room_list_tail = w.rooms.room_list_tail;
      total_num_of_rooms = w.rooms.total_num_of_rooms;
    };
  }

  Swept-silent :
      (u t : Server)
      → (s.quiet_flag y == 0) ≡ false
      → Gone y s u g
      → Swept u t (without_member y g) ys
      → Swept s t g (y ∷ ys)
  unfolding bump drop_silent
  Swept-silent u t q gone w = record {
    sound = rw q (rw gone.quiet_flag at w.sound);
    quiet_flag = rw q (rw gone.quiet_flag at w.quiet_flag);
    member_id = w.member_id ∙ gone.member_id;
    member_name = w.member_name ∙ gone.member_name;
    sent = w.sent ∙ gone.sent;
    current_room = w.current_room ∙ gone.current_room;
    empty_flag = w.empty_flag ∙ gone.empty_flag;
    rooms = record {
      live_room = w.rooms.live_room ∙ gone.rooms.live_room;
      room_name = w.rooms.room_name ∙ gone.rooms.room_name;
      next_room = w.rooms.next_room ∙ gone.rooms.next_room;
      room_list_head = w.rooms.room_list_head ∙ gone.rooms.room_list_head;
      room_list_tail = w.rooms.room_list_tail ∙ gone.rooms.room_list_tail;
      total_num_of_rooms = w.rooms.total_num_of_rooms ∙ gone.rooms.total_num_of_rooms;
    };
  }

sweep_member_silent :
    (s u : Server) (y : Ptr)
    → (s.quiet_flag y == 0) ≡ false
    → (remove_member y >> free_member y) s ≡ ok tt u
    → sweep_member y s ≡ ok tt u
unfolding sweep_member
sweep_member_silent s u y q run = rw q run

sweep_members-end : (k : ℕ) (s : Server) → sweep_members (suc k) null s ≡ ok tt s
unfolding sweep_members
sweep_members-end k s = refl

Swept-refl : (s : Server) (g : Session) → IsSound s g → Swept s s g []
unfolding bump drop_silent
Swept-refl s g sound = record {
  sound = sound;
  quiet_flag = refl;
  member_id = refl;
  member_name = refl;
  sent = refl;
  current_room = refl;
  empty_flag = refl;
  rooms = SameRooms-refl s;
}

-- Enough rounds run the loop over the rest `ys` of the member list to its end.
pub sweep_members-Swept :
    (k : ℕ) (s : Server) (g : Session) (xs ys : List Ptr)
    → IsSound s g
    → g.members ≡ xs ++ ys
    → length ys < k
    → (t : Server) × (sweep_members k (hd ys) s ≡ ok tt t) × Swept s t g ys
sweep_members-Swept zero s g xs ys sound e fuel = absurd (omega arith)
sweep_members-Swept (suc k) s g xs [] sound e fuel =
    (s, sweep_members-end k s, Swept-refl s g sound)
sweep_members-Swept (suc k) s g xs (y ∷ ys) sound e fuel = elim (Bool-cases (s.quiet_flag y == 0)) [
  | inl q ↦
      let (t, run, w) =
        sweep_members-Swept k (quieter s y) g (xs ++ y ∷ []) ys (quieter-IsSound s g y sound)
          (e ∙ sym (append_assoc xs (y ∷ []) ys)) (omega arith) in
      (
        t,
        sweep_members_active k s y ys t (at_node s g sound xs ys y e) q run,
        Swept-active s g sound xs ys y e t q w,
      )
  | inr q ↦
      let (u, step, gone) = remove_member-Gone s g y sound (rw e (has-middle y xs ys)) in
      let (t, run, w) =
        sweep_members-Swept k u (without_member y g) xs ys gone.sound
          (ap (erase y) e ∙ erase-append y xs ys (subst Distinct e sound.members.shape.distinct))
          (omega arith) in
      (
        t,
        sweep_members_silent k s y ys u t (at_node s g sound xs ys y e) q
            (sweep_member_silent s u y q step) run,
        Swept-silent s g sound xs ys y e u t q gone w,
      )
]
