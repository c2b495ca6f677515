-- ===== src/Server/Create/Run.antt =====
-- The runs of `create_room`, branch by branch.
use csc469_advanced_operatin.Base.{
  ℕ, ◌+◌, ◌≡◌, refl, sym, ap, subst, ◌∙◌, ◌≢◌, true, false, List, ltb, ◌==◌, length, if◌then◌else◌,
  ≢→==, str_eq,
}
use csc469_advanced_operatin.Dll.{Ptr, null, update}
use csc469_advanced_operatin.Dll.Shape.{hd, update_self}
use csc469_advanced_operatin.Wire.Header.{max_num_of_rooms, max_room_name_len}
use csc469_advanced_operatin.Server.State.{Server, ok, fault, c_room_name}
use csc469_advanced_operatin.Server.Rooms.{
  create_room, link_room, add_room, add_first_room, new_room, find_room,
}
use csc469_advanced_operatin.Server.Chain.{Chain-hd}
use csc469_advanced_operatin.Server.Find.{find_room-list}
use csc469_advanced_operatin.Server.Walk.{first}
use csc469_advanced_operatin.Server.Same.{SameShape}
use csc469_advanced_operatin.Server.Sound.{Session, IsSound, SameData}
use csc469_advanced_operatin.Server.Create.Fresh.{
  new_room-IsSound, fresh-not-has, c_room_name-new_self, first-new_room,
}
use csc469_advanced_operatin.Server.Create.Link.{as_first, behind_tail}

-- The first room that answers to the name, or `NULL`.
abbrev pub room_called : Server → Session → List ℕ → Ptr
room_called s g name = first (λ r. str_eq name (c_room_name s r)) g.rooms

abbrev pub create_result : Server → Session → List ℕ → ℕ
create_result s g name =
    if ltb max_room_name_len (length name)
    then 1
    else if length g.rooms == max_num_of_rooms
    then 2
    else if room_called s g name == null
    then 0
    else 3

pub link_room-as_first :
    (t : Server) (rt : Ptr)
    → (t.room_list_head == null) ≡ true
    → link_room rt t ≡ ok 0 (as_first rt t)
unfolding link_room add_first_room
link_room-as_first t rt e = rw e refl

link_room-found :
    (t : Server) (rt p : Ptr)
    → (t.room_list_head == null) ≡ false
    → find_room (t.total_num_of_rooms + 1) (c_room_name t rt) t.room_list_head t ≡ ok p t
    → link_room rt t ≡ (if p == null then add_room rt else ok 3) t
unfolding link_room
link_room-found t rt p e f = rw (e, f) refl

module _ (s : Server) (g : Session) (sound : IsSound s g) (rt : Ptr) (name : List ℕ)
    (fresh : s.live_room rt ≡ false) (n : rt ≢ null)
    (fits : ltb max_room_name_len (length name) ≡ false) where
  pub create_room-full :
      (length g.rooms == max_num_of_rooms) ≡ true
      → create_room rt name s ≡ ok 2 (new_room rt name s)
  unfolding create_room
  create_room-full e = rw (fits, ≢→== rt null n, sound.rooms.count, e) refl

  pub create_room-link :
      (length g.rooms == max_num_of_rooms) ≡ false
      → create_room rt name s ≡ link_room rt (new_room rt name s)
  unfolding create_room
  create_room-link e = rw (fits, ≢→== rt null n, sound.rooms.count, e) refl

  module _ (t : Server) (new : t ≡ new_room rt name s) where
    pub head-rooms : t.room_list_head ≡ hd g.rooms
    unfolding new_room
    head-rooms =
        ap (λ (u : Server). u.room_list_head) new
        ∙ Chain-hd s.next_room s.room_list_head g.rooms sound.rooms.chain

    found :
        find_room (t.total_num_of_rooms + 1) (c_room_name t rt) t.room_list_head t
        ≡ ok (room_called s g name) t
    found =
        subst
          (λ u.
            find_room (u.total_num_of_rooms + 1) (c_room_name u rt) u.room_list_head u
            ≡ ok (room_called s g name) u)
          (sym new)
          (ap
              (λ w.
                find_room ((new_room rt name s).total_num_of_rooms + 1) w
                  (new_room rt name s).room_list_head (new_room rt name s))
              (c_room_name-new_self s rt name)
            ∙ find_room-list (new_room rt name s) name g.rooms
                (new_room-IsSound s rt name g sound fresh n).rooms
            ∙ ap (λ p. ok p (new_room rt name s))
                (first-new_room s rt name name g.rooms (fresh-not-has s rt name g sound fresh n)))

    pub link_room-taken :
        (hd g.rooms == null) ≡ false
        → (room_called s g name == null) ≡ false
        → link_room rt t ≡ ok 3 t
    link_room-taken e f =
        link_room-found t rt (room_called s g name) (ap (λ p. p == null) head-rooms ∙ e) found
        ∙ ap (λ b. (if b then add_room rt else ok 3) t) f

    pub link_room-new :
        (hd g.rooms == null) ≡ false
        → (room_called s g name == null) ≡ true
        → link_room rt t ≡ add_room rt t
    link_room-new e f =
        link_room-found t rt (room_called s g name) (ap (λ p. p == null) head-rooms ∙ e) found
        ∙ ap (λ b. (if b then add_room rt else ok 3) t) f

pub add_room-ok :
    (t : Server) (rt : Ptr)
    → t.live_room t.room_list_tail ≡ true
    → add_room rt t ≡ ok 0 (behind_tail rt t)
unfolding add_room
add_room-ok t rt e = rw e refl

pub add_room-fault :
    (t : Server) (rt : Ptr) → t.live_room t.room_list_tail ≡ false → add_room rt t ≡ fault
unfolding add_room
add_room-fault t rt e = rw e refl

module _ (s : Server) (rt : Ptr) (name : List ℕ) where
  pub new_room-own : SameData s (new_room rt name s)
  unfolding new_room
  new_room-own = record {
    live_member = refl;
    member_id = refl;
    member_name = refl;
    quiet_flag = refl;
    udp_addr = refl;
    udp_port = refl;
    num_chat_msgs = refl;
    num_bytes_rcved = refl;
    sent = refl;
  }

  pub as_first-own : SameData s (as_first rt (new_room rt name s))
  unfolding new_room
  as_first-own = record {
    live_member = refl;
    member_id = refl;
    member_name = refl;
    quiet_flag = refl;
    udp_addr = refl;
    udp_port = refl;
    num_chat_msgs = refl;
    num_bytes_rcved = refl;
    sent = refl;
  }

  pub behind_tail-own : SameData s (behind_tail rt (new_room rt name s))
  unfolding new_room
  behind_tail-own = record {
    live_member = refl;
    member_id = refl;
    member_name = refl;
    quiet_flag = refl;
    udp_addr = refl;
    udp_port = refl;
    num_chat_msgs = refl;
    num_bytes_rcved = refl;
    sent = refl;
  }

  pub new_room-name :
      (r : Ptr) → (new_room rt name s).room_name r ≡ (if r == rt then name else s.room_name r)
  unfolding new_room update
  new_room-name r = refl

  pub new_room-live : s.live_room rt ≡ false → (new_room rt name s).live_room rt ≡ true
  unfolding new_room
  new_room-live e = update_self s.live_room rt true

  pub new_room-end : (new_room rt name s).next_room rt ≡ null
  unfolding new_room
  new_room-end = update_self s.next_room rt null

  pub new_room-tail : (new_room rt name s).room_list_tail ≡ s.room_list_tail
  unfolding new_room
  new_room-tail = refl

  pub as_first-SameShape : (t : Server) → SameShape t (as_first rt t)
  as_first-SameShape t = record {
    live_member = refl;
    mem_list = refl;
    total_num_of_members = refl;
    next_room_member = refl;
    prev_room_member = refl;
    member_list_head = refl;
    member_list_tail = refl;
    current_room = refl;
    num_of_members = refl;
  }

  pub behind_tail-SameShape : (t : Server) → SameShape t (behind_tail rt t)
  behind_tail-SameShape t = record {
    live_member = refl;
    mem_list = refl;
    total_num_of_members = refl;
    next_room_member = refl;
    prev_room_member = refl;
    member_list_head = refl;
    member_list_tail = refl;
    current_room = refl;
    num_of_members = refl;
  }
