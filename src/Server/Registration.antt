-- ===== src/Server/Registration.antt =====
-- `process_register_request` where it succeeds.
pub mod Steps
pub mod Refused
use csc469_advanced_operatin.Base.{
  ℕ, ◌+◌, ◌≡◌, refl, ap, ◌∙◌, ◌≢◌, inl, inr, Bool, true, false, some, List, [], ◌∷◌, ◌++◌, map,
  ◌==◌, has, str_eq, length, take, drop, arith, Bool-cases, ≢→==,
}
use csc469_advanced_operatin.Base.Bytes.{c_string, u16_at}
use csc469_advanced_operatin.Dll.{Ptr, null, update, Dll, append}
use csc469_advanced_operatin.Dll.Shape.{lst-append, update_self, update_ne}
use csc469_advanced_operatin.Dll.Append.{append-snoc, Appended}
use csc469_advanced_operatin.Wire.Header.{
  max_num_of_members, max_member_name_len, msgdata, control_msg,
}
use csc469_advanced_operatin.Wire.Msg
use csc469_advanced_operatin.Server.State.{Server, ok, reply}
use csc469_advanced_operatin.Server.Register.{
  Env, new_member, find_name, link_member, create_id, process_register_request,
}
use csc469_advanced_operatin.Server.Register.Fresh.{
  new_member-IsSound, fresh-not-has, with_member, joined, joined-IsSound,
}
use csc469_advanced_operatin.Server.Register.Ids.{free_id, has_free, create_id-free, free_id-free}
use csc469_advanced_operatin.Server.Walk.{first}
use csc469_advanced_operatin.Server.Find.{find_name-list, MembersOk-Walk}
use csc469_advanced_operatin.Server.Same.{IsSound-same}
use csc469_advanced_operatin.Server.Answer.{sending, sending-IsSound}
use csc469_advanced_operatin.Server.Sound.{Session, IsSound}
use csc469_advanced_operatin.Server.Registration.Steps.{
  addressed, link_member-first, link_member-new, register_from-joined, accept_member-ok,
  process_register_request-peer,
}

-- The state in which `mt` is registered for the session.
pub record Registered (mt : Ptr) (name : List ℕ) (id fd : ℕ) (s t : Server) (g : Session)
    : Type 0 where
  pub sound : IsSound t (with_member mt g)
  pub new_id : t.member_id mt ≡ id
  pub new_name : t.member_name mt ≡ take max_member_name_len name
  pub others_id : (p : Ptr) → p ≢ mt → t.member_id p ≡ s.member_id p
  pub others_name : (p : Ptr) → p ≢ mt → t.member_name p ≡ s.member_name p
  pub sent : t.sent ≡ s.sent ++ reply fd (control_msg Msg.register_succ id []) ∷ []
  pub room_name : t.room_name ≡ s.room_name

first-ext :
    (f g : Ptr → Bool) (xs : List Ptr)
    → ((p : Ptr) → has p xs ≡ true → f p ≡ g p)
    → first f xs ≡ first g xs
unfolding first
first-ext f g [] e = refl
first-ext f g (x ∷ xs) e =
    rw (e x (ground arith), first-ext f g xs (λ p h. e p (ground arith))) refl

map-ext :
    (f g : Ptr → ℕ) (xs : List Ptr)
    → ((p : Ptr) → has p xs ≡ true → f p ≡ g p)
    → map f xs ≡ map g xs
map-ext f g [] e = refl
map-ext f g (x ∷ xs) e = rw (e x (ground arith), map-ext f g xs (λ p h. e p (ground arith))) refl

module _ (s : Server) (g : Session) (sound : IsSound s g) (mt : Ptr) (name : List ℕ) (port addr : ℕ)
    (fresh : s.live_member mt ≡ false) (n : mt ≢ null) where
  t1 : Server
  t1 = addressed mt name port addr s

  t1-IsSound : IsSound t1 g
  unfolding t1
  t1-IsSound =
      IsSound-same (new_member mt name port s) t1
        (record {
          live_member = refl;
          mem_list = refl;
          total_num_of_members = refl;
          next_room_member = refl;
          prev_room_member = refl;
          member_list_head = refl;
          member_list_tail = refl;
          current_room = refl;
          num_of_members = refl;
        })
        (record {
          live_room = refl;
          room_name = refl;
          next_room = refl;
          room_list_head = refl;
          room_list_tail = refl;
          total_num_of_rooms = refl;
        })
        g (new_member-IsSound s g sound mt name port fresh n)

  out : has mt g.members ≡ false
  out = fresh-not-has s g sound mt name port fresh n

  member-ne : (p : Ptr) → has p g.members ≡ true → p ≢ mt
  member-ne p h e = ground (arith, out)

  t1-live : t1.live_member mt ≡ true
  unfolding t1 new_member
  t1-live = update_self s.live_member mt true

  t1-nowhere : t1.current_room mt ≡ null
  unfolding t1 new_member
  t1-nowhere = update_self s.current_room mt null

  t1-links : (t1.mem_list.next mt ≡ null) × (t1.mem_list.prev mt ≡ null)
  unfolding t1 new_member
  t1-links = (update_self s.mem_list.next mt null, update_self s.mem_list.prev mt null)

  t1-name : t1.member_name mt ≡ take max_member_name_len name
  unfolding t1 new_member
  t1-name = update_self s.member_name mt (take max_member_name_len name)

  t1-others_name : (p : Ptr) → p ≢ mt → t1.member_name p ≡ s.member_name p
  unfolding t1 new_member
  t1-others_name p e = update_ne s.member_name mt (take max_member_name_len name) p e

  t1-others_id : (p : Ptr) → p ≢ mt → t1.member_id p ≡ s.member_id p
  unfolding t1 new_member
  t1-others_id p e = update_ne s.member_id mt 0 p e

  t1-sent : t1.sent ≡ s.sent
  unfolding t1 new_member
  t1-sent = refl

  t1-room_name : t1.room_name ≡ s.room_name
  unfolding t1 new_member
  t1-room_name = refl

  search-null :
      first (λ m. str_eq (s.member_name m) (take max_member_name_len name)) g.members ≡ null
      → find_name (t1.total_num_of_members + 1) (t1.member_name mt) t1.mem_list.head t1 ≡ ok null t1
  search-null e =
      find_name-list t1 (t1.member_name mt) g.members t1-IsSound.members
      ∙ ap (λ p. ok p t1)
          (first-ext (λ m. str_eq (t1.member_name m) (t1.member_name mt))
              (λ m. str_eq (s.member_name m) (take max_member_name_len name)) g.members
              (λ p h.
                ap (λ w. str_eq w (t1.member_name mt)) (t1-others_name p (member-ne p h))
                ∙ ap (str_eq (s.member_name p)) t1-name)
            ∙ e)

  module _ (k : Dll) (run : append t1.live_member t1.mem_list mt ≡ some k) where
    link-joined :
        first (λ m. str_eq (s.member_name m) (take max_member_name_len name)) g.members ≡ null
        → link_member mt t1 ≡ ok true (joined t1 k)
    link-joined e = elim (Bool-cases (t1.mem_list.head == null)) [
      | inl h ↦ link_member-first t1 mt k h run
      | inr h ↦ link_member-new t1 mt k h (search-null e) run
    ]

    numbered : ℕ → Server
    numbered id = record (joined t1 k) { member_id = update t1.member_id mt id }

    numbered-IsSound :
        (id : ℕ)
        → IsSound (joined t1 k) (with_member mt g)
        → IsSound (numbered id) (with_member mt g)
    unfolding numbered
    numbered-IsSound id =
        IsSound-same (joined t1 k) (numbered id)
          (record {
            live_member = refl;
            mem_list = refl;
            total_num_of_members = refl;
            next_room_member = refl;
            prev_room_member = refl;
            member_list_head = refl;
            member_list_tail = refl;
            current_room = refl;
            num_of_members = refl;
          })
          (record {
            live_room = refl;
            room_name = refl;
            next_room = refl;
            room_list_head = refl;
            room_list_tail = refl;
            total_num_of_rooms = refl;
          })
          (with_member mt g)

    module _ (u : Appended g.members mt t1.mem_list k)
        (space : (length g.members == max_num_of_members) ≡ false) where
      linked : IsSound (joined t1 k) (with_member mt g)
      linked = joined-IsSound t1 g t1-IsSound mt k u t1-live t1-nowhere space

      tail : k.tail ≡ mt
      tail = u.shape.last ∙ lst-append null g.members (mt ∷ [])

      ids : map t1.member_id g.members ≡ map s.member_id g.members
      ids = map-ext t1.member_id s.member_id g.members (λ p h. t1-others_id p (member-ne p h))

      create_id-run :
          (rs : List ℕ)
          → has_free (λ id. has id (map s.member_id g.members)) rs ≡ true
          → create_id rs (joined t1 k)
            ≡ ok tt (numbered (free_id (λ id. has id (map s.member_id g.members)) rs))
      unfolding numbered
      create_id-run rs free =
          create_id-free (joined t1 k) mt tail rs g.members
            (MembersOk-Walk (joined t1 k) (g.members ++ mt ∷ []) linked.members) out u.shape.first
            (omega (arith, t1-IsSound.members.count)) t1-live
            (ap (λ l. has_free (λ id. has id l) rs) ids ∙ free)
          ∙ ap
              (λ l. ok tt (record (joined t1 k) {
                member_id = update t1.member_id mt (free_id (λ id. has id l) rs);
              }))
              ids

      abbrev registered : (fd id : ℕ) → Server
      registered fd id = sending (numbered id) (
          reply fd (
            control_msg Msg.register_succ ((numbered id).member_id (numbered id).mem_list.tail) []))

      registered-Registered : (fd id : ℕ) → Registered mt name id fd s (registered fd id) g
      unfolding numbered
      registered-Registered fd id = record {
        sound = sending-IsSound (numbered id) _ (with_member mt g) (numbered-IsSound id linked);
        new_id = update_self t1.member_id mt id;
        new_name = t1-name;
        others_id = λ p e. update_ne t1.member_id mt id p e ∙ t1-others_id p e;
        others_name = t1-others_name;
        room_name = t1-room_name;
        sent =
            ap
              (λ l.
                l
                ++ reply fd (control_msg Msg.register_succ (update t1.member_id mt id k.tail) [])
                  ∷ [])
              t1-sent
            ∙ ap (λ i. s.sent ++ reply fd (control_msg Msg.register_succ i []) ∷ [])
                (ap (update t1.member_id mt id) tail ∙ update_self t1.member_id mt id);
      }

-- A registration in a well-formed session that is not full, with fresh memory, a peer address, a
-- name (cut to 24 characters) that no member has, and a free id among those drawn, succeeds: the
-- new member stands behind the others in a well-formed session, in no room, with the name and the
-- first drawn id that no other member has; the others keep their ids and names, and the id goes
-- out in the only reply.
pub process_register_request-Registered :
    (s : Server) (g : Session) (fd : ℕ) (env : Env) (addr : ℕ) (buf : List ℕ)
    → IsSound s g
    → (s.live_member env.fresh ≡ false) × (env.fresh ≢ null)
    → env.peer ≡ some addr
    → (length g.members == max_num_of_members) ≡ false
    → first
        (λ m. str_eq (s.member_name m) (take max_member_name_len (c_string (drop 2 (msgdata buf)))))
        g.members
      ≡ null
    → has_free (λ id. has id (map s.member_id g.members)) env.rands ≡ true
    → (t : Server) × (process_register_request fd env buf s ≡ ok tt t)
      × Registered env.fresh
          (c_string (drop 2 (msgdata buf)))
          (free_id (λ id. has id (map s.member_id g.members)) env.rands)
          fd
          s
          t
          g
      × (has
            (free_id (λ id. has id (map s.member_id g.members)) env.rands)
            (map s.member_id g.members)
          ≡ false)
unfolding t1
process_register_request-Registered s g fd env addr buf sound (fresh, n) peer space taken free =
    let mt = env.fresh in
    let name = c_string (drop 2 (msgdata buf)) in
    let port = u16_at 0 (msgdata buf) in
    let id = free_id (λ id. has id (map s.member_id g.members)) env.rands in
    let h = t1-IsSound s g sound mt name port addr fresh n in
    let (k, run, u) =
      append-snoc (t1 s g sound mt name port addr fresh n).live_member
        (t1 s g sound mt name port addr fresh n).mem_list mt g.members h.members.shape
        h.members.live (t1-live s g sound mt name port addr fresh n) n
        (out s g sound mt name port addr fresh n) (t1-links s g sound mt name port addr fresh n) in
    (
      registered s g sound mt name port addr fresh n k run u space fd id,
      process_register_request-peer fd env addr buf s _
          (ap (λ c. c == max_num_of_members) sound.members.count ∙ space) (≢→== mt null n) peer
          (register_from-joined (new_member mt name port s)
            (joined (t1 s g sound mt name port addr fresh n) k) _ mt fd env addr refl
            (link-joined s g sound mt name port addr fresh n k run taken)
            (accept_member-ok fd env.rands (joined (t1 s g sound mt name port addr fresh n) k) _
              (create_id-run s g sound mt name port addr fresh n k run u space env.rands free))),
      registered-Registered s g sound mt name port addr fresh n k run u space fd id,
      free_id-free (λ id. has id (map s.member_id g.members)) env.rands free,
    )
