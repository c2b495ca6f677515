-- ===== src/Server/Rooms/Remove.antt =====
-- `remove_room` on a well-formed room list.
use mathlib.Core.Path.{ap₂}
use csc469_advanced_operatin.Base.{
  ℕ, zero, suc, ◌<◌, ◌+◌, ◌-◌, ◌≡◌, refl, sym, ap, subst, ◌∙◌, ◌≢◌, inl, inr, true, false, List, [],
  ◌∷◌, ◌++◌, arith, ◌==◌, has, Distinct, length, if◌then◌else◌, Bool-cases, ==→≡, ==→≢, ≢→==,
}
use csc469_advanced_operatin.Dll.{Ptr, null, update}
use csc469_advanced_operatin.Dll.Shape.{lst, All, All-has, update_self, update_ne, lst-append}
use csc469_advanced_operatin.Dll.Unlink.{erase, split}
use csc469_advanced_operatin.Server.State.{Server, Run, ok, ◌>>◌}
use csc469_advanced_operatin.Server.Rooms.{remove_room, remove_room_loop, free_room}
use csc469_advanced_operatin.Server.Sound.{
  Chain, RoomsOk, All-of_has, has-erase, length-erase, length-erase_le, not-has_erased,
  Distinct-erase, update-eq_false,
}
use csc469_advanced_operatin.Server.Chain.{Chain-update, Chain-from, Chain-node}

-- The state after the loop unlinked `rt` behind `w`, and after it unlinked the head.
abbrev pub cut : Server → (w rt : Ptr) → Server
cut s w rt = record s {
  next_room = update s.next_room w (s.next_room rt);
  room_list_tail = if s.next_room rt == null then null else s.room_list_tail;
}

abbrev pub cut_head : Server → Ptr → Server
cut_head s rt = record s {
  room_list_head = s.next_room rt;
  room_list_tail = if s.next_room rt == null then null else s.room_list_tail;
}

module _ (s : Server) (rt : Ptr) where
  remove_room_loop-head :
      (k : ℕ)
      → rt ≢ null
      → s.live_room rt ≡ true
      → remove_room_loop (suc k) rt rt s ≡ ok tt (cut_head s rt)
  unfolding remove_room_loop
  remove_room_loop-head k n v = ground arith

  remove_room_loop-found :
      (k : ℕ) (x : Ptr)
      → (x ≢ null) × (x ≢ rt)
      → (s.live_room x ≡ true) × (s.live_room rt ≡ true)
      → s.next_room x ≡ rt
      → remove_room_loop (suc k) rt x s ≡ ok tt (cut s x rt)
  unfolding remove_room_loop
  remove_room_loop-found k x (n, m) (v, w) e =
      rw (≢→== x null n, v, ≢→== x rt m, e, w) (ground arith)

  remove_room_loop-next :
      (k : ℕ) (x : Ptr) (t : Server)
      → (x ≢ null) × (x ≢ rt)
      → s.live_room x ≡ true
      → s.next_room x ≢ rt
      → remove_room_loop k rt (s.next_room x) s ≡ ok tt t
      → remove_room_loop (suc k) rt x s ≡ ok tt t
  unfolding remove_room_loop
  remove_room_loop-next k x t (n, m) v d run =
      rw (≢→== x null n, v, ≢→== x rt m, ≢→== (s.next_room x) rt d) run

  hit-Chain :
      (x y : Ptr) (ys : List Ptr)
      → rt ≡ y
      → Chain s.next_room x (x ∷ y ∷ ys)
      → Distinct (x ∷ y ∷ ys)
      → Chain (update s.next_room x (s.next_room rt)) x (x ∷ ys)
  hit-Chain x y ys e c d = (
    refl,
    c.1,
    rw (update_self s.next_room x (s.next_room rt)) (
        Chain-update s.next_room x (s.next_room rt) (s.next_room rt) ys (ground arith)
          (rw e c.2.2)),
  )

  miss-Chain :
      (x y w : Ptr) (ys zs : List Ptr)
      → Chain s.next_room x (x ∷ y ∷ ys)
      → has w (y ∷ ys) ≡ true
      → has x (y ∷ ys) ≡ false
      → Chain (update s.next_room w (s.next_room rt)) y (y ∷ zs)
      → Chain (update s.next_room w (s.next_room rt)) x (x ∷ y ∷ zs)
  miss-Chain x y w ys zs c m out rest = (
    refl,
    c.1,
    rw (update_ne s.next_room w (s.next_room rt) x (has-ne x w (y ∷ ys) out m), c.2.0) rest,
  )
    where
      has-ne : (a b : Ptr) (xs : List Ptr) → has a xs ≡ false → has b xs ≡ true → a ≢ b
      has-ne a b xs h h' e = ground arith

  erase_hit : (y : Ptr) (ys : List Ptr) → (rt == y) ≡ true → erase rt (y ∷ ys) ≡ ys
  unfolding erase
  erase_hit y ys e = rw e

  erase_miss : (y : Ptr) (ys : List Ptr) → (rt == y) ≡ false → erase rt (y ∷ ys) ≡ y ∷ erase rt ys
  unfolding erase
  erase_miss y ys e = rw e

  -- Behind a node that is not `rt`, the loop finds the predecessor `w` of `rt`.
  remove_room_loop-cut :
      (k : ℕ) (x : Ptr) (ys : List Ptr)
      → Chain s.next_room x (x ∷ ys)
      → All s.live_room (x ∷ ys)
      → Distinct (x ∷ ys)
      → x ≢ rt
      → has rt ys ≡ true
      → length ys < k
      → (w : Ptr) × (has w (x ∷ ys) ≡ true)
        × (remove_room_loop k rt x s ≡ ok tt (cut s w rt))
        × Chain (update s.next_room w (s.next_room rt)) x (x ∷ erase rt ys)
  remove_room_loop-cut k x [] c v d n m f = ground arith
  remove_room_loop-cut zero x (y ∷ ys) c v d n m f = absurd (omega arith)
  remove_room_loop-cut (suc k) x (y ∷ ys) c v d n m f = elim (Bool-cases (rt == y)) [
    | inl e ↦ (
      x,
      ground arith,
      remove_room_loop-found k x (c.1, n) (v.0, All-has s.live_room (y ∷ ys) rt v.1 m)
          (c.2.0 ∙ sym (==→≡ rt y e)),
      rw (erase_hit y ys e) (hit-Chain x y ys (==→≡ rt y e) c d),
    )
    | inr e ↦
        let other : y ≢ rt = λ q. ==→≢ rt y e (sym q) in
        let (w, mw, run, rest) =
          remove_room_loop-cut k y ys (refl, c.2.1, c.2.2) v.1 d.1 other (ground arith)
            (omega arith) in
        (
          w,
          ground arith,
          remove_room_loop-next k x (cut s w rt) (c.1, n) v.0 (λ q. other (sym c.2.0 ∙ q))
              (rw c.2.0 run),
          rw (erase_miss y ys e) (miss-Chain x y w ys (erase rt ys) c mw d.0 rest),
        )
  ]

-- The state after `remove_room rt`: the links `n` and the head `h`.
abbrev pub unlisted : Server → Ptr → (Ptr → Ptr) → Ptr → Server
unlisted s rt n h = record s {
  next_room = n;
  room_list_head = h;
  room_list_tail = if s.next_room rt == null then null else s.room_list_tail;
}

remove_room-loop :
    (s : Server) (rt h : Ptr) (k : ℕ) (r : Run (Unit {0}))
    → s.total_num_of_rooms + 1 ≡ k
    → s.room_list_head ≡ h
    → remove_room_loop k rt h s ≡ r
    → remove_room rt s ≡ r
unfolding remove_room
remove_room-loop s rt h k r c e run = ap₂ (λ k h. remove_room_loop k rt h s) c e ∙ run

remove_room-Chain :
    (s : Server) (rt : Ptr) (rooms : List Ptr)
    → RoomsOk s rooms
    → has rt rooms ≡ true
    → (n : Ptr → Ptr) × (h : Ptr) × (remove_room rt s ≡ ok tt (unlisted s rt n h))
      × Chain n h (erase rt rooms)
unfolding erase
remove_room-Chain s rt [] r m = ground arith
remove_room-Chain s rt (x ∷ xs) r m = elim (Bool-cases (rt == x)) [
  | inl e ↦
      let q = ==→≡ rt x e in
      (
        s.next_room,
        s.next_room rt,
        remove_room-loop s rt rt (suc s.total_num_of_rooms) _ (omega arith) (r.chain.0 ∙ sym q) (
            remove_room_loop-head s rt s.total_num_of_rooms
              (subst (λ a. a ≢ null) (sym q) r.chain.1) (ap s.live_room q ∙ r.live.0)),
        rw e (subst (λ a. Chain s.next_room (s.next_room a) xs) (sym q) r.chain.2),
      )
  | inr e ↦
      let (w, mw, run, rest) =
        remove_room_loop-cut s rt (s.total_num_of_rooms + 1) x xs (refl, r.chain.1, r.chain.2)
          r.live r.distinct (λ q. ==→≢ rt x e (sym q)) (ground arith) (omega (arith, r.count)) in
      (
        update s.next_room w (s.next_room rt),
        s.room_list_head,
        remove_room-loop s rt x (s.total_num_of_rooms + 1) _ refl r.chain.0 run,
        rw e (Chain-from _ s.room_list_head x (x ∷ erase rt xs) r.chain.0 rest),
      )
]

-- The rooms that are left after `remove_room` and `free`.
pub record RoomGone (rt : Ptr) (s t : Server) (rooms : List Ptr) : Type 0 where
  pub left : RoomsOk t (erase rt rooms)
  pub others : t ≡ record s {
    next_room = t.next_room;
    room_list_head = t.room_list_head;
    room_list_tail = t.room_list_tail;
    total_num_of_rooms = t.total_num_of_rooms;
    live_room = update s.live_room rt false;
  }
  pub tail : t.room_list_tail ≡ (if lst null rooms == rt then null else s.room_list_tail)

has-lst : (y : Ptr) (ys : List Ptr) → has (lst y ys) (y ∷ ys) ≡ true
has-lst y [] = ground arith
has-lst y (z ∷ ys) = ground (arith, has-lst z ys)

Distinct-after : (p : Ptr) (xs ys : List Ptr) → Distinct (xs ++ p ∷ ys) → has p ys ≡ false
Distinct-after p [] ys d = d.0
Distinct-after p (x ∷ xs) ys d = Distinct-after p xs ys d.1

has-false_ne : (a b : Ptr) (xs : List Ptr) → has a xs ≡ false → has b xs ≡ true → b ≢ a
has-false_ne a b xs h h' e = ground arith

Chain-ne :
    (next : Ptr → Ptr) (p rt y : Ptr) (xs ys : List Ptr)
    → Chain next p (xs ++ rt ∷ y ∷ ys)
    → y ≢ null
Chain-ne next p rt y [] ys c = c.2.1
Chain-ne next p rt y (x ∷ xs) ys c = Chain-ne next (next x) rt y xs ys c.2

-- Is `rt` the last room? The code asks whether its link is `NULL`.
last_test :
    (next : Ptr → Ptr) (p rt : Ptr) (xs ys : List Ptr)
    → Chain next p (xs ++ rt ∷ ys)
    → Distinct (xs ++ rt ∷ ys)
    → ((next rt == null) ≡ (lst null (xs ++ rt ∷ ys) == rt))
      × ((next rt == null) ≡ false → lst null (xs ++ ys) ≡ lst null (xs ++ rt ∷ ys))
last_test next p rt xs [] c d =
    let n = Chain-node next p rt xs [] c in
    (rw (lst-append null xs (rt ∷ []), n.1) (ground arith), λ h. absurd (==→≢ (next rt) null h n.1))
last_test next p rt xs (y ∷ ys) c d =
    let n = Chain-node next p rt xs (y ∷ ys) c in
    let ne : lst y ys ≢ rt =
      has-false_ne rt (lst y ys) (y ∷ ys) (Distinct-after rt xs (y ∷ ys) d) (has-lst y ys) in
    (
      ≢→== (next rt) null (λ e. Chain-ne next p rt y xs ys c (sym n.1 ∙ e))
          ∙ sym (≢→== (lst null (xs ++ rt ∷ y ∷ ys)) rt (rw lst-append ne)),
      λ h. lst-append null xs (y ∷ ys) ∙ sym (lst-append null xs (rt ∷ y ∷ ys)),
    )

module _ (s : Server) (rt : Ptr) (rooms : List Ptr) (r : RoomsOk s rooms)
    (m : has rt rooms ≡ true) where
  last_room :
      ((s.next_room rt == null) ≡ (lst null rooms == rt))
      × ((s.next_room rt == null) ≡ false → lst null (erase rt rooms) ≡ lst null rooms)
  last_room =
      let (xs, ys, e, f) = split rt rooms m in
      let t =
        last_test s.next_room s.room_list_head rt xs ys
          (subst (Chain s.next_room s.room_list_head) e r.chain) (subst Distinct e r.distinct) in
      (
        t.0 ∙ ap (λ zs. lst null zs == rt) (sym e),
        λ h. ap (lst null) f ∙ t.1 h ∙ ap (lst null) (sym e),
      )

  freed-RoomsOk :
      (n : Ptr → Ptr) (h : Ptr)
      → Chain n h (erase rt rooms)
      → RoomsOk
          (record (unlisted s rt n h) {
            total_num_of_rooms = s.total_num_of_rooms - 1;
            live_room = update s.live_room rt false;
          })
          (erase rt rooms)
  freed-RoomsOk n h c = record {
    null_free = update-eq_false s.live_room rt null r.null_free;
    chain = c;
    live = All-of_has _ (erase rt rooms) λ a k.
        update_ne s.live_room rt false a (not-has_erased rt rooms r.distinct a k)
        ∙ All-has s.live_room rooms a r.live (has-erase a rt rooms k);
    distinct = Distinct-erase rt rooms r.distinct;
    count = omega (arith, r.count, length-erase rt rooms m);
    bound = omega (arith, r.bound, length-erase_le rt rooms);
    tail = elim (Bool-cases (s.next_room rt == null)) [
      | inl e ↦ inr (rw e)
      | inr e ↦ rw (e, last_room.1 e) r.tail
    ];
  }

  -- On a well-formed room list, `remove_room` and `free` of one of its rooms follow no bad pointer
  -- and leave a well-formed list of the others. The tail is forgotten exactly when the room was
  -- the last one.
  pub remove_room-RoomGone :
      (t : Server) × ((remove_room rt >> free_room rt) s ≡ ok tt t) × RoomGone rt s t rooms
  unfolding free_room
  remove_room-RoomGone =
      let (n, h, run, c) = remove_room-Chain s rt rooms r m in
      (
        record (unlisted s rt n h) {
          total_num_of_rooms = s.total_num_of_rooms - 1;
          live_room = update s.live_room rt false;
        },
        rw run,
        record {
          left = freed-RoomsOk n h c;
          others = refl;
          tail = ap (λ b. if b then null else s.room_list_tail) last_room.0;
        },
      )
