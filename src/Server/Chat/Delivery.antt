-- ===== src/Server/Chat/Delivery.antt =====
-- Whom a chat message reaches.
use csc469_advanced_operatin.Base.{
  ℕ, zero, suc, ◌+◌, ◌<◌, ◌≡◌, refl, sym, ap, ◌∙◌, inl, inr, true, false, Option, some, List, [],
  ◌∷◌, ◌++◌, map, append-nil, append_assoc, arith, ◌==◌, has, length, min, take, if◌then◌else◌,
  Bool-cases, ==→≢,
}
use csc469_advanced_operatin.Base.Bytes.{u16_at}
use csc469_advanced_operatin.Dll.{Ptr, null}
use csc469_advanced_operatin.Dll.Shape.{hd, All-has}
use csc469_advanced_operatin.Wire.Header.{fill_buffer, max_msg_len}
use csc469_advanced_operatin.Server.State.{Server, Output, datagram, ok}
use csc469_advanced_operatin.Server.Sound.{Session, IsSound}
use csc469_advanced_operatin.Server.Same.{IsSound-same}
use csc469_advanced_operatin.Server.Walk.{Walk, Walk-of_Linked, first, first-has}
use csc469_advanced_operatin.Server.Find.{find_member_with_id-first}
use csc469_advanced_operatin.Server.Leave.{occupants_live}
use csc469_advanced_operatin.Server.Chat.{
  put_name, count_chat, broadcast, process_chat_from, process_chat_msg,
}

-- The datagrams with the same bytes to each of the members `xs`.
abbrev pub datagrams : Server → List ℕ → List Ptr → List Output
datagrams s bytes xs = map (λ p. datagram (s.udp_addr p) (s.udp_port p) bytes) xs

module _ (sendto : (addr port n : ℕ) → Option ℕ)
    (all : (addr port n : ℕ) → sendto addr port n ≡ some n) where
  broadcast-list :
      (k n : ℕ) (buf : List ℕ) (xs : List Ptr) (s : Server) (out : List Output)
      → Walk s.next_room_member s.live_member xs
      → length xs < k
      → broadcast sendto k n buf (hd xs) (record s { sent = out })
        ≡ ok tt (record s { sent = out ++ datagrams s (take n buf) xs })
  unfolding broadcast
  broadcast-list zero n buf xs s out w b = absurd (omega (arith, b))
  broadcast-list (suc k) n buf [] s out w b =
      ap (λ l. ok tt (record s { sent = l })) (sym (append-nil out))
  broadcast-list (suc k) n buf (x ∷ xs) s out (a, l, e, w) b =
      let here = datagram (s.udp_addr x) (s.udp_port x) (take n buf) in
      rw (a, l, all (s.udp_addr x) (s.udp_port x) n)
        (ap (λ p. broadcast sendto k n buf p (record s { sent = out ++ here ∷ [] })) e
          ∙ broadcast-list k n buf xs s (out ++ here ∷ []) w (omega (arith, b))
          ∙ ap (λ l. ok tt (record s { sent = l }))
              (append_assoc out (here ∷ []) (datagrams s (take n buf) xs)))

-- Who gets a message of the member `mt`: everybody in its room.
abbrev pub audience : Server → Session → Ptr → List Ptr
audience s g mt = if s.current_room mt == null then [] else g.occupants (s.current_room mt)

-- The state after a message of `n` bytes of the member `mt`, whose bytes are then `bytes`.
abbrev pub delivered : Server → Session → (mt : Ptr) → (n : ℕ) → List ℕ → Server
delivered s g mt n bytes = record (count_chat mt n s) {
  sent = s.sent ++ datagrams s bytes (audience s g mt);
}

module _ (s : Server) (mt : Ptr) (n : ℕ) where
  delivered-IsSound :
      (g : Session) (bytes : List ℕ) → IsSound s g → IsSound (delivered s g mt n bytes) g
  unfolding count_chat
  delivered-IsSound g bytes sound =
      IsSound-same s (delivered s g mt n bytes)
        (record {
          live_member = refl;
          mem_list = refl;
          total_num_of_members = refl;
          next_room_member = refl;
          prev_room_member = refl;
          member_list_head = refl;
          member_list_tail = refl;
          current_room = refl;
          num_of_members = refl;
        })
        (record {
          live_room = refl;
          room_name = refl;
          next_room = refl;
          room_list_head = refl;
          room_list_tail = refl;
          total_num_of_rooms = refl;
        })
        g sound

module _ (sendto : (addr port n : ℕ) → Option ℕ)
    (all : (addr port n : ℕ) → sendto addr port n ≡ some n) (s : Server) (g : Session)
    (sound : IsSound s g) (mt : Ptr) (there : has mt g.members ≡ true) (n : ℕ) (buf : List ℕ) where
  process_chat_from-none :
      (s.current_room mt == null) ≡ true
      → process_chat_from sendto n buf mt s ≡ ok tt (count_chat mt n s)
  unfolding process_chat_from
  process_chat_from-none e = rw e refl

  process_chat_from-room :
      (s.current_room mt == null) ≡ false
      → s.live_room (s.current_room mt) ≡ true
      → process_chat_from sendto n buf mt s
        ≡ broadcast sendto
            (s.num_of_members (s.current_room mt) + 1)
            n
            (put_name (s.member_name mt) buf)
            (s.member_list_head (s.current_room mt))
            (count_chat mt n s)
  unfolding process_chat_from
  process_chat_from-room e l = rw (e, l) refl

  process_chat_from-room_list :
      has (s.current_room mt) g.rooms ≡ true
      → broadcast sendto
          (s.num_of_members (s.current_room mt) + 1)
          n
          (put_name (s.member_name mt) buf)
          (s.member_list_head (s.current_room mt))
          (count_chat mt n s)
        ≡ ok tt (record (count_chat mt n s) {
          sent =
              s.sent
              ++ datagrams s
                  (take n (put_name (s.member_name mt) buf))
                  (g.occupants (s.current_room mt));
        })
  unfolding count_chat
  process_chat_from-room_list m =
      let room = s.current_room mt in
      let o = sound.occupants room m in
      ap
        (λ p.
          broadcast sendto (s.num_of_members room + 1) n (put_name (s.member_name mt) buf) p
            (count_chat mt n s))
        o.shape.first
      ∙ broadcast-list sendto all (s.num_of_members room + 1) n (put_name (s.member_name mt) buf)
          (g.occupants room) (count_chat mt n s) s.sent
          (Walk-of_Linked s.next_room_member s.prev_room_member s.live_member null
            (g.occupants room) o.shape.linked (occupants_live s g sound room m))
          (omega (arith, o.count))

  process_chat_from-delivered :
      process_chat_from sendto n buf mt s
      ≡ ok tt (delivered s g mt n (take n (put_name (s.member_name mt) buf)))
  unfolding count_chat
  process_chat_from-delivered = elim (Bool-cases (s.current_room mt == null)) [
    | inl e ↦
        process_chat_from-none e
        ∙ ap (λ l. ok tt (record (count_chat mt n s) { sent = l }))
            (no_more
              ∙ sym (
                  ap
                    (λ b.
                      s.sent
                      ++ datagrams s (take n (put_name (s.member_name mt) buf))
                          (if b then [] else g.occupants (s.current_room mt)))
                    e))
    | inr e ↦
        let m = in_rooms e in
        process_chat_from-room e
          (All-has s.live_room g.rooms (s.current_room mt) sound.rooms.live m)
        ∙ process_chat_from-room_list m
        ∙ ap
            (λ b. ok tt (record (count_chat mt n s) {
              sent =
                  s.sent
                  ++ datagrams s (take n (put_name (s.member_name mt) buf))
                      (if b then [] else g.occupants (s.current_room mt));
            }))
            (sym e)
  ]
    where
      in_rooms : (s.current_room mt == null) ≡ false → has (s.current_room mt) g.rooms ≡ true
      in_rooms e = elim (sound.places.current mt there) [
        | inl z ↦ absurd (==→≢ (s.current_room mt) null e z)
        | inr (m, o) ↦ m
      ]

      no_more : s.sent ≡ s.sent ++ []
      no_more = sym (append-nil s.sent)

-- The state after a datagram whose first bytes are `bytes`.
abbrev pub after_chat : Server → Session → (bytes : List ℕ) → Server
after_chat s g bytes =
    let buf = fill_buffer bytes in
    let mt = first (λ m. s.member_id m == u16_at 0 buf) g.members in
    let n = min (length bytes) max_msg_len in
    if mt == null then s else delivered s g mt n (take n (put_name (s.member_name mt) buf))

-- While `sendto` sends what it is given, a chat message is ignored if no member has its id.
-- Otherwise it goes, with the sender's name written over its front and cut to its length, to
-- everybody in the room of the first member with the id, the sender too, once each in the order of
-- the room's list, and to nobody if that member is in no room; it is counted, and the sender is no
-- longer silent. The state stays well formed for the same session.
pub process_chat_msg-delivered :
    (sendto : (addr port n : ℕ) → Option ℕ) (s : Server) (g : Session) (bytes : List ℕ)
    → ((addr port n : ℕ) → sendto addr port n ≡ some n)
    → IsSound s g
    → (process_chat_msg sendto (some bytes) s ≡ ok tt (after_chat s g bytes))
      × IsSound (after_chat s g bytes) g
unfolding process_chat_msg
process_chat_msg-delivered sendto s g bytes all sound =
    let buf = fill_buffer bytes in
    let mt = first (λ m. s.member_id m == u16_at 0 buf) g.members in
    let n = min (length bytes) max_msg_len in
    let found = find_member_with_id-first s (u16_at 0 buf) g.members sound.members in
    elim (Bool-cases (mt == null)) [
      | inl e ↦ rw (found, e) (refl, sound)
      | inr e ↦
          rw (found, e)
            (
              process_chat_from-delivered sendto all s g sound mt
                  (first-has (λ m. s.member_id m == u16_at 0 buf) g.members e) n buf,
              delivered-IsSound s mt n g (take n (put_name (s.member_name mt) buf)) sound,
            )
    ]
