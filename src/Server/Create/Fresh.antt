-- ===== src/Server/Create/Fresh.antt =====
-- The room that `create_room` allocates, before it is linked into the room list.
use csc469_advanced_operatin.Base.{
  ℕ, ◌≡◌, refl, sym, ap, ◌∙◌, ◌≢◌, Bool, true, false, List, [], ◌∷◌, arith, ◌==◌, has, length,
  append-nil, str_eq, if◌then◌else◌, ≢→==,
}
use csc469_advanced_operatin.Base.Bytes.{c_string}
use csc469_advanced_operatin.Dll.{Ptr, null}
use csc469_advanced_operatin.Dll.Shape.{All, All-has, IsDll-same, update_self, update_ne}
use csc469_advanced_operatin.Wire.Header.{max_room_name_len}
use csc469_advanced_operatin.Server.State.{Server, room_members, c_room_name, pointer_bytes}
use csc469_advanced_operatin.Server.Rooms.{new_room}
use csc469_advanced_operatin.Server.Chain.{Chain-update}
use csc469_advanced_operatin.Server.Same.{MembersOk-fields}
use csc469_advanced_operatin.Server.Walk.{first}
use csc469_advanced_operatin.Server.Sound.{Session, RoomsOk, RoomOk, PlacesOk, IsSound, All-of_has}

has-ne : (a b : Ptr) (xs : List Ptr) → has a xs ≡ true → has b xs ≡ false → a ≢ b
has-ne a b xs h n e = ground arith

-- Memory from `malloc` is none of what is allocated.
pub not-has_fresh :
    (live : Ptr → Bool) (p : Ptr) (xs : List Ptr) → All live xs → live p ≡ false → has p xs ≡ false
not-has_fresh live p [] h e = refl
not-has_fresh live p (x ∷ xs) h e =
    rw (≢→== p x (λ q. ne (ap live q))) (not-has_fresh live p xs h.1 e)
  where
    ne : live p ≡ live x → ⊥
    ne q = absurd (different (sym e ∙ q ∙ h.0))
      where
        different : false ≡ true → ⊥
        different d = ground arith

module _ (s : Server) (rt : Ptr) (name : List ℕ) where
  new_room-RoomOk :
      (r : Ptr) (xs : List Ptr) → r ≢ rt → RoomOk s xs r → RoomOk (new_room rt name s) xs r
  unfolding new_room
  new_room-RoomOk r xs n o = record {
    shape =
        IsDll-same (room_members s r) _ xs (update_ne s.member_list_head rt null r n)
          (update_ne s.member_list_tail rt null r n) (λ a m. (refl, refl)) o.shape;
    count = update_ne s.num_of_members rt 0 r n ∙ o.count;
    bound = o.bound;
    there = o.there;
  }

  pub new_room-RoomOk_self : RoomOk (new_room rt name s) [] rt
  unfolding new_room
  new_room-RoomOk_self = record {
    shape = record {
      first = update_self s.member_list_head rt null;
      last = update_self s.member_list_tail rt null;
      linked = tt;
      distinct = tt;
    };
    count = update_self s.num_of_members rt 0;
    bound = omega arith;
    there = λ p h. ground arith;
  }

  module _ (g : Session) (sound : IsSound s g) (fresh : s.live_room rt ≡ false)
      (n : rt ≢ null) where
    pub fresh-not-has : has rt g.rooms ≡ false
    fresh-not-has = not-has_fresh s.live_room rt g.rooms sound.rooms.live fresh

    new_room-RoomsOk : RoomsOk (new_room rt name s) g.rooms
    unfolding new_room
    new_room-RoomsOk = record {
      null_free = update_ne s.live_room rt true null (λ e. n (sym e)) ∙ sound.rooms.null_free;
      chain =
          Chain-update s.next_room rt null s.room_list_head g.rooms fresh-not-has sound.rooms.chain;
      live = All-of_has _ g.rooms λ a m.
          update_ne s.live_room rt true a (has-ne a rt g.rooms m fresh-not-has)
          ∙ All-has s.live_room g.rooms a sound.rooms.live m;
      distinct = sound.rooms.distinct;
      count = sound.rooms.count;
      bound = sound.rooms.bound;
      tail = sound.rooms.tail;
    }

    new_room-PlacesOk : PlacesOk (new_room rt name s) g
    unfolding new_room
    new_room-PlacesOk = record { inside = sound.places.inside; current = sound.places.current }

    -- A room in no list changes nothing for the session.
    pub new_room-IsSound : IsSound (new_room rt name s) g
    unfolding new_room
    new_room-IsSound = record {
      members = MembersOk-fields s (new_room rt name s) g.members refl refl refl sound.members;
      rooms = new_room-RoomsOk;
      occupants = λ r m.
          new_room-RoomOk r (g.occupants r) (has-ne r rt g.rooms m fresh-not-has)
            (sound.occupants r m);
      places = new_room-PlacesOk;
    }

  null_bytes : c_string (pointer_bytes 8 null) ≡ []
  unfolding pointer_bytes
  null_bytes = refl

  pub c_room_name-new_self : c_room_name (new_room rt name s) rt ≡ name
  unfolding c_room_name new_room
  c_room_name-new_self =
      rw
        (
          update_self s.room_name rt name,
          update_self s.next_room rt null,
          null_bytes,
          append-nil name,
        )
        (both (length name == max_room_name_len))
    where
      both : (b : Bool) → (if b then name else name) ≡ name
      both true = refl
      both false = refl

  pub c_room_name-new_other :
      (r : Ptr) → r ≢ rt → c_room_name (new_room rt name s) r ≡ c_room_name s r
  unfolding c_room_name new_room
  c_room_name-new_other r e =
      rw (update_ne s.room_name rt name r e, update_ne s.next_room rt null r e) refl

  -- The other rooms answer to the same names.
  pub first-new_room :
      (text : List ℕ) (xs : List Ptr)
      → has rt xs ≡ false
      → first (λ r. str_eq text (c_room_name (new_room rt name s) r)) xs
        ≡ first (λ r. str_eq text (c_room_name s r)) xs
  unfolding first
  first-new_room text [] out = refl
  first-new_room text (x ∷ xs) out =
      rw (c_room_name-new_other x (head-ne x xs out), first-new_room text xs (later x xs out)) refl
    where
      head-ne : (x : Ptr) (xs : List Ptr) → has rt (x ∷ xs) ≡ false → x ≢ rt
      head-ne x xs h = ground arith

      later : (x : Ptr) (xs : List Ptr) → has rt (x ∷ xs) ≡ false → has rt xs ≡ false
      later x xs h = ground arith
