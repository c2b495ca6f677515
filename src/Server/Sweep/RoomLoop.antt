-- ===== src/Server/Sweep/RoomLoop.antt =====
-- The second loop of the sweep, over the rooms.
use csc469_advanced_operatin.Base.{
  ℕ, zero, suc, ◌<◌, ◌≡◌, refl, sym, ap, subst, ◌∙◌, inl, inr, true, false, List, [], ◌∷◌, ◌++◌,
  arith, ◌==◌, has, Distinct, length, Bool-cases, append_assoc, ≢→==,
}
use csc469_advanced_operatin.Dll.{Ptr, null}
use csc469_advanced_operatin.Dll.Shape.{hd, All-has}
use csc469_advanced_operatin.Dll.Unlink.{erase}
use csc469_advanced_operatin.Server.State.{Server, ok}
use csc469_advanced_operatin.Server.Rooms.Remove.{remove_room-RoomGone}
use csc469_advanced_operatin.Server.Chain.{Chain-node}
use csc469_advanced_operatin.Server.Sound.{Session, IsSound, Chain}
use csc469_advanced_operatin.Server.Sweep.{sweep_room, sweep_rooms}
use csc469_advanced_operatin.Server.Sweep.Members.{erase-append, has-middle}
use csc469_advanced_operatin.Server.Sweep.Rooms.{
  SweptRooms, SweptRooms-cons, Round, Round-full, Round-first, Round-second, emptier, without_room,
  bump_empty, drop_empty, sweep_room-full, sweep_room-first, sweep_room-second,
}

-- One round, when the loop has come to `y`: where it goes on, and before what rest.
Progress : (s : Server) (g : Session) (y : Ptr) (ys : List Ptr) → Type 0
Progress s g y ys =
    (u : Server) × (h : Session) × (zs : List Ptr) × (sweep_room y s ≡ ok tt u)
    × Round s u g h y
    × (h.rooms ≡ zs ++ ys)

sweep_room-Progress :
    (s : Server) (g : Session) (xs ys : List Ptr) (y : Ptr)
    → IsSound s g
    → g.rooms ≡ xs ++ y ∷ ys
    → Progress s g y ys
unfolding Progress
sweep_room-Progress s g xs ys y sound e =
    let m : has y g.rooms ≡ true = rw e (has-middle y xs ys) in
    let later = e ∙ sym (append_assoc xs (y ∷ []) ys) in
    elim (Bool-cases (s.num_of_members y == 0)) [
      | inr full ↦
          (s, g, xs ++ y ∷ [], sweep_room-full s y full, Round-full s g sound y m full, later)
      | inl empty ↦ elim (Bool-cases (s.empty_flag y == 0)) [
        | inl first ↦ (
          emptier s y,
          g,
          xs ++ y ∷ [],
          sweep_room-first s y empty first,
          Round-first s g sound y m empty first,
          later,
        )
        | inr second ↦
            let (u, run, gone) = remove_room-RoomGone s y g.rooms sound.rooms m in
            (
              u,
              without_room y g,
              xs,
              sweep_room-second s y u empty second run,
              Round-second s g sound y m u empty second gone,
              ap (erase y) e ∙ erase-append y xs ys (subst Distinct e sound.rooms.distinct),
            )
      ]
    ]

sweep_rooms-end : (k : ℕ) (s : Server) → sweep_rooms (suc k) null s ≡ ok tt s
unfolding sweep_rooms
sweep_rooms-end k s = refl

sweep_rooms-step :
    (k : ℕ) (s u t : Server) (y : Ptr) (ys : List Ptr)
    → ((y == null) ≡ false) × (s.live_room y ≡ true) × (s.next_room y ≡ hd ys)
    → sweep_room y s ≡ ok tt u
    → sweep_rooms k (hd ys) u ≡ ok tt t
    → sweep_rooms (suc k) y s ≡ ok tt t
unfolding sweep_rooms
sweep_rooms-step k s u t y ys (n, v, e) step run = rw (n, v, step, e) run

at_room :
    (s : Server) (g : Session) (xs ys : List Ptr) (y : Ptr)
    → IsSound s g
    → g.rooms ≡ xs ++ y ∷ ys
    → ((y == null) ≡ false) × (s.live_room y ≡ true) × (s.next_room y ≡ hd ys)
at_room s g xs ys y sound e =
    let n =
      Chain-node s.next_room s.room_list_head y xs ys
        (subst (Chain s.next_room s.room_list_head) e sound.rooms.chain) in
    (
      ≢→== y null n.0,
      All-has s.live_room g.rooms y sound.rooms.live (rw e (has-middle y xs ys)),
      n.1,
    )

SweptRooms-refl : (s : Server) (g : Session) → IsSound s g → SweptRooms s s g []
unfolding bump_empty drop_empty
SweptRooms-refl s g sound = record {
  sound = sound;
  empty_flag = refl;
  num_of_members = refl;
  quiet_flag = refl;
  member_id = refl;
  member_name = refl;
  room_name = refl;
  current_room = refl;
  sent = refl;
}

-- Enough rounds run the loop over the rest `ys` of the room list to its end.
pub sweep_rooms-SweptRooms :
    (k : ℕ) (s : Server) (g : Session) (xs ys : List Ptr)
    → IsSound s g
    → g.rooms ≡ xs ++ ys
    → length ys < k
    → (t : Server) × (sweep_rooms k (hd ys) s ≡ ok tt t) × SweptRooms s t g ys
unfolding Progress
sweep_rooms-SweptRooms zero s g xs ys sound e fuel = absurd (omega arith)
sweep_rooms-SweptRooms (suc k) s g xs [] sound e fuel =
    (s, sweep_rooms-end k s, SweptRooms-refl s g sound)
sweep_rooms-SweptRooms (suc k) s g xs (y ∷ ys) sound e fuel =
    let (u, h, zs, step, round, rest) = sweep_room-Progress s g xs ys y sound e in
    let (t, run, w) = sweep_rooms-SweptRooms k u h zs ys round.sound rest (omega arith) in
    (
      t,
      sweep_rooms-step k s u t y ys (at_room s g xs ys y sound e) step run,
      SweptRooms-cons s u t g h y ys round w,
    )
