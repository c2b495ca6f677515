-- ===== src/Server/Find.antt =====
-- The searches of A3/server_util.c, on well-formed lists.
use csc469_advanced_operatin.Base.{
  ℕ, zero, suc, ◌+◌, ◌<◌, ◌≡◌, refl, ap, ◌∙◌, List, [], ◌∷◌, arith, ◌==◌, length, str_eq,
  Bool-cases, inl, inr,
}
use csc469_advanced_operatin.Dll.{Ptr, null}
use csc469_advanced_operatin.Dll.Shape.{hd}
use csc469_advanced_operatin.Server.State.{Server, ok, c_room_name}
use csc469_advanced_operatin.Server.Members.{find_member_from, find_member_with_id}
use csc469_advanced_operatin.Server.Rooms.{find_room}
use csc469_advanced_operatin.Server.Chain.{Chain-hd}
use csc469_advanced_operatin.Server.Register.{find_name}
use csc469_advanced_operatin.Server.Sound.{MembersOk, RoomsOk}
use csc469_advanced_operatin.Server.Walk.{Walk, Walk-of_Linked, Walk-of_Chain, first}

module _ (s : Server) where
  find_member_from-first :
      (k id : ℕ) (xs : List Ptr)
      → Walk s.mem_list.next s.live_member xs
      → length xs < k
      → find_member_from k id (hd xs) s ≡ ok (first (λ m. s.member_id m == id) xs) s
  unfolding find_member_from first
  find_member_from-first zero id xs w f = absurd (omega arith)
  find_member_from-first (suc k) id [] w f = refl
  find_member_from-first (suc k) id (x ∷ xs) (n, v, e, w) f =
      let rest = find_member_from-first k id xs w (omega arith) in
      rw (n, v, e) (elim (Bool-cases (s.member_id x == id)) [ inl h ↦ rw h | inr h ↦ rw h rest ])

  find_name-first :
      (k : ℕ) (name : List ℕ) (xs : List Ptr)
      → Walk s.mem_list.next s.live_member xs
      → length xs < k
      → find_name k name (hd xs) s ≡ ok (first (λ m. str_eq (s.member_name m) name) xs) s
  unfolding find_name first
  find_name-first zero name xs w f = absurd (omega arith)
  find_name-first (suc k) name [] w f = refl
  find_name-first (suc k) name (x ∷ xs) (n, v, e, w) f =
      let rest = find_name-first k name xs w (omega arith) in
      rw (n, v, e)
        (elim (Bool-cases (str_eq (s.member_name x) name)) [ inl h ↦ rw h | inr h ↦ rw h rest ])

  find_room-first :
      (k : ℕ) (name : List ℕ) (xs : List Ptr)
      → Walk s.next_room s.live_room xs
      → length xs < k
      → find_room k name (hd xs) s ≡ ok (first (λ r. str_eq name (c_room_name s r)) xs) s
  unfolding find_room first
  find_room-first zero name xs w f = absurd (omega arith)
  find_room-first (suc k) name [] w f = refl
  find_room-first (suc k) name (x ∷ xs) (n, v, e, w) f =
      let rest = find_room-first k name xs w (omega arith) in
      rw (n, v, e)
        (elim (Bool-cases (str_eq name (c_room_name s x))) [ inl h ↦ rw h | inr h ↦ rw h rest ])

pub MembersOk-Walk :
    (s : Server) (xs : List Ptr) → MembersOk s xs → Walk s.mem_list.next s.live_member xs
MembersOk-Walk s xs m =
    Walk-of_Linked s.mem_list.next s.mem_list.prev s.live_member null xs m.shape.linked m.live

pub RoomsOk-Walk : (s : Server) (xs : List Ptr) → RoomsOk s xs → Walk s.next_room s.live_room xs
RoomsOk-Walk s xs r = Walk-of_Chain s.next_room s.live_room s.room_list_head xs r.chain r.live

-- The search for a member by its id returns the first one of the list that has the id, or `NULL`,
-- and changes nothing.
pub find_member_with_id-first :
    (s : Server) (id : ℕ) (xs : List Ptr)
    → MembersOk s xs
    → find_member_with_id id s ≡ ok (first (λ m. s.member_id m == id) xs) s
unfolding find_member_with_id
find_member_with_id-first s id xs m =
    ap (λ p. find_member_from (s.total_num_of_members + 1) id p s) m.shape.first
    ∙ find_member_from-first s (s.total_num_of_members + 1) id xs (MembersOk-Walk s xs m)
        (omega (arith, m.count))

pub find_name-list :
    (s : Server) (name : List ℕ) (xs : List Ptr)
    → MembersOk s xs
    → find_name (s.total_num_of_members + 1) name s.mem_list.head s
      ≡ ok (first (λ m. str_eq (s.member_name m) name) xs) s
find_name-list s name xs m =
    ap (λ p. find_name (s.total_num_of_members + 1) name p s) m.shape.first
    ∙ find_name-first s (s.total_num_of_members + 1) name xs (MembersOk-Walk s xs m)
        (omega (arith, m.count))

pub find_room-list :
    (s : Server) (name : List ℕ) (xs : List Ptr)
    → RoomsOk s xs
    → find_room (s.total_num_of_rooms + 1) name s.room_list_head s
      ≡ ok (first (λ r. str_eq name (c_room_name s r)) xs) s
find_room-list s name xs r =
    ap (λ p. find_room (s.total_num_of_rooms + 1) name p s)
      (Chain-hd s.next_room s.room_list_head xs r.chain)
    ∙ find_room-first s (s.total_num_of_rooms + 1) name xs (RoomsOk-Walk s xs r)
        (omega (arith, r.count))
