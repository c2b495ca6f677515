-- ===== src/Server/Sweep/Lists.antt =====
-- The two loops of the sweep as filters on lists.
use csc469_advanced_operatin.Base.{
  ℕ, ◌+◌, ◌≡◌, refl, sym, ap, ◌∙◌, Bool, true, false, not, ◌&&◌, ◌||◌, List, [], ◌∷◌, arith, ◌==◌,
  has, Distinct, if◌then◌else◌, Bool-cases, ==→≡, inl, inr,
}
use csc469_advanced_operatin.Dll.{Ptr, update}
use csc469_advanced_operatin.Dll.Unlink.{erase}
use csc469_advanced_operatin.Server.Sound.{Session, without_member, Distinct-erase}
use csc469_advanced_operatin.Server.Sweep.Members.{bump, drop_silent}
use csc469_advanced_operatin.Server.Sweep.Rooms.{drop_empty, without_room}

-- Those of a list that pass a test, in their order.
unfoldable pub keep : (Ptr → Bool) → List Ptr → List Ptr
keep p [] = []
keep p (x ∷ xs) = if p x then x ∷ keep p xs else keep p xs

pub keep-ext :
    (p q : Ptr → Bool) (xs : List Ptr)
    → ((x : Ptr) → has x xs ≡ true → p x ≡ q x)
    → keep p xs ≡ keep q xs
unfolding keep
keep-ext p q [] h = refl
keep-ext p q (x ∷ xs) h = ground (arith, h x, keep-ext p q xs (λ a m. h a (ground arith)))

keep_all : (p : Ptr → Bool) (xs : List Ptr) → ((x : Ptr) → p x ≡ true) → keep p xs ≡ xs
unfolding keep
keep_all p [] h = refl
keep_all p (x ∷ xs) h = ground (arith, h x, keep_all p xs h)

pub has-keep : (p : Ptr → Bool) (a : Ptr) (xs : List Ptr) → has a (keep p xs) ≡ (has a xs && p a)
unfolding keep
has-keep p a [] = refl
has-keep p a (x ∷ xs) = elim (Bool-cases (a == x)) [
  | inl e ↦ rw (==→≡ a x e) (ground (arith, has-keep p x xs))
  | inr e ↦ ground (arith, has-keep p a xs)
]

-- One list under the loop: a node whose number is 0 and whose flag is not goes.
pub drop_list : (num flag : Ptr → ℕ) → List Ptr → List Ptr → List Ptr
drop_list num flag [] zs = zs
drop_list num flag (y ∷ ys) zs =
    if num y == 0
    then if flag y == 0
      then drop_list num (update flag y (flag y + 1)) ys zs
      else drop_list num flag ys (erase y zs)
    else drop_list num flag ys zs

abbrev pub stays : (num flag : Ptr → ℕ) → List Ptr → Ptr → Bool
stays num flag ys z = not (has z ys) || (not (num z == 0) || (flag z == 0))

stays_more :
    (num flag : Ptr → ℕ) (y : Ptr) (ys : List Ptr) (z : Ptr)
    → has y ys ≡ false
    → (num y == 0) ≡ false
    → stays num flag ys z ≡ stays num flag (y ∷ ys) z
stays_more num flag y ys z out e = elim (Bool-cases (z == y)) [
  | inl h ↦ rw (==→≡ z y h) (ground arith)
  | inr h ↦ rw h
]

stays_flag :
    (num flag : Ptr → ℕ) (y : Ptr) (ys : List Ptr) (z : Ptr)
    → has y ys ≡ false
    → (flag y == 0) ≡ true
    → stays num (update flag y (flag y + 1)) ys z ≡ stays num flag (y ∷ ys) z
unfolding update
stays_flag num flag y ys z out e = elim (Bool-cases (z == y)) [
  | inl h ↦ rw (==→≡ z y h) (ground arith)
  | inr h ↦ rw h
]

stays_ne :
    (num flag : Ptr → ℕ) (y : Ptr) (ys : List Ptr) (z : Ptr)
    → (z == y) ≡ false
    → stays num flag ys z ≡ stays num flag (y ∷ ys) z
stays_ne num flag y ys z h = rw h

keep_miss : (p : Ptr → Bool) (x : Ptr) (xs : List Ptr) → p x ≡ false → keep p (x ∷ xs) ≡ keep p xs
unfolding keep
keep_miss p x xs h = rw h

keep_same :
    (p q : Ptr → Bool) (x : Ptr) (xs ys : List Ptr)
    → p x ≡ q x
    → keep p xs ≡ keep q ys
    → keep p (x ∷ xs) ≡ keep q (x ∷ ys)
unfolding keep
keep_same p q x xs ys h e = rw (h, e)

erase_hit : (y z : Ptr) (zs : List Ptr) → (y == z) ≡ true → erase y (z ∷ zs) ≡ zs
unfolding erase
erase_hit y z zs e = rw e

erase_miss : (y z : Ptr) (zs : List Ptr) → (y == z) ≡ false → erase y (z ∷ zs) ≡ z ∷ erase y zs
unfolding erase
erase_miss y z zs e = rw e

has-ne : (a b : Ptr) (xs : List Ptr) → has a xs ≡ true → has b xs ≡ false → (a == b) ≡ false
has-ne a b xs h h' = ground arith

==-flip : (a b : Ptr) → (a == b) ≡ false → (b == a) ≡ false
==-flip a b h = ground arith

stays-erase :
    (num flag : Ptr → ℕ) (y : Ptr) (ys zs : List Ptr)
    → Distinct zs
    → (num y == 0) ≡ true
    → (flag y == 0) ≡ false
    → keep (stays num flag ys) (erase y zs) ≡ keep (stays num flag (y ∷ ys)) zs
unfolding keep erase
stays-erase num flag y ys [] d e f = refl
stays-erase num flag y ys (z ∷ zs) d e f = elim (Bool-cases (y == z)) [
  | inl h ↦
      let q = ==→≡ y z h in
      ap (keep (stays num flag ys)) (erase_hit y z zs h)
      ∙ keep-ext (stays num flag ys) (stays num flag (y ∷ ys)) zs
          (λ x m. stays_ne num flag y ys x (has-ne x y zs m (rw q d.0)))
      ∙ sym (keep_miss (stays num flag (y ∷ ys)) z zs (rw (← q) (ground arith)))
  | inr h ↦
      ap (keep (stays num flag ys)) (erase_miss y z zs h)
      ∙ keep_same (stays num flag ys) (stays num flag (y ∷ ys)) z (erase y zs) zs
          (stays_ne num flag y ys z (==-flip y z h)) (stays-erase num flag y ys zs d.1 e f)
]

-- The loop over `ys` is a filter.
pub drop_list-keep :
    (num flag : Ptr → ℕ) (ys zs : List Ptr)
    → Distinct ys
    → Distinct zs
    → drop_list num flag ys zs ≡ keep (stays num flag ys) zs
unfolding drop_list
drop_list-keep num flag [] zs d c = sym (keep_all (stays num flag []) zs (λ x. refl))
drop_list-keep num flag (y ∷ ys) zs d c = elim (Bool-cases (num y == 0)) [
  | inr e ↦ rw e (
      drop_list-keep num flag ys zs d.1 c
      ∙ keep-ext (stays num flag ys) (stays num flag (y ∷ ys)) zs
          (λ x m. stays_more num flag y ys x d.0 e))
  | inl e ↦ elim (Bool-cases (flag y == 0)) [
    | inl f ↦
        rw (e, f)
          (drop_list-keep num (update flag y (flag y + 1)) ys zs d.1 c
            ∙ keep-ext (stays num (update flag y (flag y + 1)) ys) (stays num flag (y ∷ ys)) zs
                (λ x m. stays_flag num flag y ys x d.0 f))
    | inr f ↦
        rw (e, f)
          (drop_list-keep num flag ys (erase y zs) d.1 (Distinct-erase y zs c)
            ∙ stays-erase num flag y ys zs c e f)
  ]
]

-- The test that is left where every node of the list is visited.
pub stays_visited :
    (num flag : Ptr → ℕ) (ys zs : List Ptr)
    → ((a : Ptr) → has a zs ≡ true → has a ys ≡ true)
    → keep (stays num flag ys) zs ≡ keep (λ z. not (num z == 0) || (flag z == 0)) zs
stays_visited num flag ys zs h =
    keep-ext (stays num flag ys) (λ z. not (num z == 0) || (flag z == 0)) zs λ x m. rw (h x m)

pub drop_silent-lists :
    (quiet : Ptr → ℕ) (ys : List Ptr) (g : Session) (r : Ptr)
    → ((drop_silent quiet ys g).members ≡ drop_list (λ _. 0) quiet ys g.members)
      × ((drop_silent quiet ys g).rooms ≡ g.rooms)
      × ((drop_silent quiet ys g).occupants r ≡ drop_list (λ _. 0) quiet ys (g.occupants r))
unfolding drop_silent drop_list
drop_silent-lists quiet [] g r = (refl, refl, refl)
drop_silent-lists quiet (y ∷ ys) g r = elim (Bool-cases (quiet y == 0)) [
  | inl e ↦ rw e (drop_silent-lists (update quiet y (quiet y + 1)) ys g r)
  | inr e ↦ rw e (drop_silent-lists quiet ys (without_member y g) r)
]

pub drop_empty-lists :
    (num flag : Ptr → ℕ) (ys : List Ptr) (g : Session)
    → ((drop_empty num flag ys g).members ≡ g.members)
      × ((drop_empty num flag ys g).rooms ≡ drop_list num flag ys g.rooms)
      × ((drop_empty num flag ys g).occupants ≡ g.occupants)
unfolding drop_empty drop_list
drop_empty-lists num flag [] g = (refl, refl, refl)
drop_empty-lists num flag (y ∷ ys) g = elim (Bool-cases (num y == 0)) [
  | inr e ↦ rw e (drop_empty-lists num flag ys g)
  | inl e ↦ elim (Bool-cases (flag y == 0)) [
    | inl f ↦ rw (e, f) (drop_empty-lists num (update flag y (flag y + 1)) ys g)
    | inr f ↦ rw (e, f) (drop_empty-lists num flag ys (without_room y g))
  ]
]

-- The flags afterwards.
pub bump-flag :
    (quiet : Ptr → ℕ) (ys : List Ptr) (z : Ptr)
    → Distinct ys
    → bump quiet ys z ≡ (if has z ys && (quiet z == 0) then 1 else quiet z)
unfolding bump update
bump-flag quiet [] z d = refl
bump-flag quiet (y ∷ ys) z d = elim (Bool-cases (z == y)) [
  | inl e ↦
      rw (==→≡ z y e) (
        ground (arith, bump-flag (update quiet y (quiet y + 1)) ys y d.1, bump-flag quiet ys y d.1))
  | inr e ↦
      ground (arith, bump-flag (update quiet y (quiet y + 1)) ys z d.1, bump-flag quiet ys z d.1)
]
