-- ===== src/Dll.antt =====
-- The doubly linked lists of A3/server_util.c: the list of members and each room's list of its
-- members are the same code over two pairs of link fields. A field of a C struct is a map from
-- addresses; `live` says which addresses hold an allocated struct, and a read or a write through
-- any other address (`NULL` among them) is a fault, `none`.
pub mod Shape
pub mod Unlink
pub mod Append
unfoldable pub use csc469_advanced_operatin.Base.{update}
use csc469_advanced_operatin.Base.{ℕ, Bool, ◌&&◌, Option, none, some, ◌==◌, if◌then◌else◌}

abbrev pub Ptr : Type 0
Ptr = ℕ

abbrev pub null : Ptr
null = 0

-- One list: its two link fields, and the pointers to its first and last node.
pub record Dll : Type 0 where
  pub next : Ptr → Ptr
  pub prev : Ptr → Ptr
  pub head : Ptr
  pub tail : Ptr

unlink_first : (Ptr → Bool) → Dll → Ptr → Option Dll
unlink_first live l next =
    if next == null
    then some (record l { head = next; tail = next })
    else if live next
    then some (record l { head = next; prev = update l.prev next null })
    else none

-- The second test reads `mt->next` again, after the write through `mt->prev`.
unlink_inner : (Ptr → Bool) → Dll → Ptr → Option Dll
unlink_inner live l p =
    let next' = update l.next (l.prev p) (l.next p) in
    let l' = record l { next = next' } in
    if live (l.prev p)
    then if next' p == null
      then some (record l' { tail = l.prev p })
      else if live (next' p)
      then some (record l' { prev = update l.prev (next' p) (l.prev p) })
      else none
    else none

-- Take the node `p` out of its list.
unfoldable pub unlink : (Ptr → Bool) → Dll → Ptr → Option Dll
unfolding unlink_first unlink_inner
unlink live l p =
    if live p
    then if l.prev p == null then unlink_first live l (l.next p) else unlink_inner live l p
    else none

-- Put the node `p`, whose links are `NULL`, behind the last one.
unfoldable pub append : (Ptr → Bool) → Dll → Ptr → Option Dll
append live l p =
    let next' = update l.next l.tail p in
    if l.head == null
    then some (record l { head = p; tail = p })
    else if live l.tail && live p
    then some (record l { next = next'; prev = update l.prev p l.tail; tail = next' l.tail })
    else none
