-- ===== src/Server/Chain.antt =====
-- The singly linked list of the rooms: `next_room` of A3/server.h.
use csc469_advanced_operatin.Base.{◌≡◌, ◌≢◌, false, List, [], ◌∷◌, ◌++◌, arith, has}
use csc469_advanced_operatin.Dll.{Ptr, null, update}
use csc469_advanced_operatin.Dll.Shape.{hd, update_ne}
use csc469_advanced_operatin.Server.Sound.{Chain}

module _ (next : Ptr → Ptr) where
  pub Chain-update :
      (q v p : Ptr) (xs : List Ptr)
      → has q xs ≡ false
      → Chain next p xs
      → Chain (update next q v) p xs
  Chain-update q v p [] out c = c
  Chain-update q v p (x ∷ xs) out c = (
    c.0,
    c.1,
    rw (update_ne next q v x (has-ne q x xs out))
        (Chain-update q v (next x) xs (has-later q x xs out) c.2),
  )
    where
      has-ne : (q x : Ptr) (xs : List Ptr) → has q (x ∷ xs) ≡ false → x ≢ q
      has-ne q x xs h = ground arith

      has-later : (q x : Ptr) (xs : List Ptr) → has q (x ∷ xs) ≡ false → has q xs ≡ false
      has-later q x xs h = ground arith

  pub Chain-from : (h p : Ptr) (xs : List Ptr) → h ≡ p → Chain next p xs → Chain next h xs
  Chain-from h p xs e c = rw e c

  pub Chain-hd : (p : Ptr) (xs : List Ptr) → Chain next p xs → p ≡ hd xs
  Chain-hd p [] c = c
  Chain-hd p (x ∷ xs) c = c.0

  pub Chain-node :
      (p y : Ptr) (xs ys : List Ptr) → Chain next p (xs ++ y ∷ ys) → (y ≢ null) × (next y ≡ hd ys)
  Chain-node p y [] ys c = (c.1, Chain-hd (next y) ys c.2)
  Chain-node p y (x ∷ xs) ys c = Chain-node (next x) y xs ys c.2
