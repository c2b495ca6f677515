-- ===== src/Server/Register/Ids.antt =====
-- The ids of new members: `draw_id` and `create_id`.
use csc469_advanced_operatin.Base.{
  ℕ, zero, suc, ◌+◌, ◌^◌, ◌<◌, ◌≤◌, ◌≡◌, refl, sym, ap, ◌∙◌, inl, inr, Bool, true, false, List, [],
  ◌∷◌, ◌++◌, map, ◌==◌, has, length, arith, if◌then◌else◌, Bool-cases,
}
use csc469_advanced_operatin.Dll.{Ptr, update}
use csc469_advanced_operatin.Dll.Shape.{hd}
use csc469_advanced_operatin.Server.State.{Server, Run, ok, and_then}
use csc469_advanced_operatin.Server.Walk.{Walk}
use csc469_advanced_operatin.Server.Register.{draw_id, id_taken, set_tail_id, create_id}

-- A value of `rand` gives an id from 1 to 65535.
pub draw_id-bounds : (r : ℕ) → r < 2 ^ 31 → (1 ≤ draw_id r) × (draw_id r ≤ 65535)
unfolding draw_id
draw_id-bounds r b = (omega (arith, b), omega (arith, b))

-- The first of the drawn ids that nobody has; 0 where there is none.
abbrev pub free_id : (taken : ℕ → Bool) → List ℕ → ℕ
free_id taken [] = 0
free_id taken (r ∷ rs) = if taken (draw_id r) then free_id taken rs else draw_id r

-- Is one of the drawn ids free?
abbrev pub has_free : (taken : ℕ → Bool) → List ℕ → Bool
has_free taken [] = false
has_free taken (r ∷ rs) = if taken (draw_id r) then has_free taken rs else true

module _ (s : Server) (f : Ptr) (tail : s.mem_list.tail ≡ f) where
  id_taken-has :
      (k id : ℕ) (xs : List Ptr)
      → Walk s.mem_list.next s.live_member (xs ++ f ∷ [])
      → has f xs ≡ false
      → length xs < k
      → id_taken k id (hd (xs ++ f ∷ [])) s ≡ ok (has id (map s.member_id xs)) s
  unfolding id_taken
  id_taken-has zero id xs w out b = absurd (omega (arith, b))
  id_taken-has (suc k) id [] w out b = rw (ap (λ q. f == q) tail ∙ same f) refl
    where
      same : (n : ℕ) → (n == n) ≡ true
      same n = ground arith
  id_taken-has (suc k) id (x ∷ xs) (a, l, e, w) out b =
      let rest = id_taken-has k id xs w (later x xs out) (omega (arith, b)) in
      rw (ap (λ q. x == q) tail ∙ head x xs out, l, e, rest)
        (elim (Bool-cases (id == s.member_id x)) [ inl h ↦ rw h refl | inr h ↦ rw h refl ])
    where
      head : (x : Ptr) (xs : List Ptr) → has f (x ∷ xs) ≡ false → (x == f) ≡ false
      head x xs h = ground arith

      later : (x : Ptr) (xs : List Ptr) → has f (x ∷ xs) ≡ false → has f xs ≡ false
      later x xs h = ground arith

  set_tail_id-ok :
      (id : ℕ)
      → s.live_member f ≡ true
      → set_tail_id id s ≡ ok tt (record s { member_id = update s.member_id f id })
  unfolding set_tail_id
  set_tail_id-ok id l = rw (tail, l) refl

  pub create_id-free :
      (rs : List ℕ) (xs : List Ptr)
      → Walk s.mem_list.next s.live_member (xs ++ f ∷ [])
      → has f xs ≡ false
      → s.mem_list.head ≡ hd (xs ++ f ∷ [])
      → s.total_num_of_members ≡ length xs + 1
      → s.live_member f ≡ true
      → has_free (λ id. has id (map s.member_id xs)) rs ≡ true
      → create_id rs s
        ≡ ok tt (record s {
          member_id = update s.member_id f (free_id (λ id. has id (map s.member_id xs)) rs);
        })
  unfolding create_id
  create_id-free [] xs w out h c l free = ground arith
  create_id-free (r ∷ rs) xs w out h c l free =
      let id = draw_id r in
      let search : id_taken (s.total_num_of_members + 1) id s.mem_list.head s
          ≡ ok (has id (map s.member_id xs)) s =
        ap (λ p. id_taken (s.total_num_of_members + 1) id p s) h
        ∙ id_taken-has (s.total_num_of_members + 1) id xs w out (omega (arith, c)) in
      let taken : ℕ → Bool = λ id. has id (map s.member_id xs) in
      let after : Bool → Run (Unit {0}) =
        λ b. elim b [ true ↦ create_id rs s | false ↦ set_tail_id id s ] in
      let state : ℕ → Server = λ n. record s { member_id = update s.member_id f n } in
      let first =
        ap
          (λ (run : Run Bool).
            and_then {B = Unit {0}} run
              (λ taken t. elim taken [ true ↦ create_id rs s | false ↦ set_tail_id id t ]))
          search in
      let last : Bool → Run (Unit {0}) = λ b. ok tt (state (if b then free_id taken rs else id)) in
      elim (Bool-cases (taken id)) [
        | inl e ↦
            first
            ∙ ap after e
            ∙ create_id-free rs xs w out h c l
                (sym (ap (λ b. if b then has_free taken rs else true) e) ∙ free)
            ∙ sym (ap last e)
        | inr e ↦ first ∙ ap after e ∙ set_tail_id-ok id l ∙ sym (ap last e)
      ]

pub free_id-free :
    (taken : ℕ → Bool) (rs : List ℕ) → has_free taken rs ≡ true → taken (free_id taken rs) ≡ false
free_id-free taken [] e = ground arith
free_id-free taken (r ∷ rs) e = elim (Bool-cases (taken (draw_id r))) [
  | inl h ↦
      rw h (free_id-free taken rs (sym (ap (λ b. if b then has_free taken rs else true) h) ∙ e))
  | inr h ↦ ap (λ b. taken (if b then free_id taken rs else draw_id r)) h ∙ h
]
