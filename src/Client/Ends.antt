-- ===== src/Client/Ends.antt =====
-- The loop of `init_client` ends.
use csc469_advanced_operatin.Base.{
  ℕ, zero, suc, ◌+◌, ◌≤◌, ◌≡◌, ◌≢◌, ◌⊎◌, inl, inr, refl, sym, subst, Bool, true, false, Option,
  none, some, Option-cases, List, [], ◌∷◌, arith, ltb, ◌==◌, ◌&&◌, Bool-cases, ==→≡, length,
}
use csc469_advanced_operatin.Wire.Header.{max_member_name_len}
use csc469_advanced_operatin.Client.State.{
  Exchange, refused, unanswered, answered, Client, Run, ok, exits, no_net, no_fuel, Cmd, and_then,
  put, request, Result, success, failure, disconnected, name_taken, shutdown_clean,
}
use csc469_advanced_operatin.Client.Requests.{
  send_ctrl_msg, attempts, attempt_request, register_answer, handle_register_req,
}
use csc469_advanced_operatin.Client.Names.{make_space, write_suffix, next_name}
use csc469_advanced_operatin.Client.Connect.{register_retry, init_client}

-- A run that does not run out of rounds, and whose result and state, if it has them, fulfil `P`.
abbrev pub Ends : {A : Type 0} → (A → Client → Type 0) → Run A → Type 0
Ends P (ok a c) = P a c
Ends P (exits c) = Unit {0}
Ends P no_net = Unit {0}
Ends P no_fuel = ⊥

Ends-and_then :
    {A B : Type 0} (P : A → Client → Type 0) (Q : B → Client → Type 0) (m : Run A) (k : A → Cmd B)
    → Ends P m
    → ((a : A) (c : Client) → P a c → Ends Q (k a c))
    → Ends Q (and_then m k)
Ends-and_then P Q (ok a c) k h f = f a c h
Ends-and_then P Q (exits c) k h f = tt
Ends-and_then P Q no_net k h f = tt
Ends-and_then P Q no_fuel k h f = h

Keeps : {A : Type 0} → Bool → A → Client → Type 0
Keeps b a c = c.suffix_appended ≡ b

-- What holds of the client, if there is one.
Holds : (Client → Type 0) → Option Client → Type 0
Holds P none = Unit {0}
Holds P (some d) = P d

Retried : ℕ → Client → Type 0
Retried suffix d = (d.suffix_appended ≡ true) × (suffix ≤ 99)

make_space-Holds_appended :
    (suffix : ℕ) (c : Client)
    → c.suffix_appended ≡ true
    → Holds (Retried suffix) (make_space suffix c)
unfolding make_space Holds Retried
make_space-Holds_appended suffix c e =
    rw e (elim (Bool-cases (c.suffix_len == 4 && ltb suffix 10)) [
      | inl p ↦ rw p (refl, ground arith)
      | inr p ↦ elim (Bool-cases (suffix == 10)) [
        | inl q ↦ elim (Bool-cases (ltb max_member_name_len (length c.member_name + 2))) [
          | inl r ↦ rw (p, q, r) tt
          | inr r ↦ rw (p, q, r) (refl, omega (arith, ==→≡ suffix 10 q))
        ]
        | inr q ↦ elim (Bool-cases (ltb 99 suffix)) [
          | inl r ↦ rw (p, q, r) tt
          | inr r ↦ rw (p, q, r) (refl, ground arith)
        ]
      ]
    ])

make_space-Holds_first :
    (suffix : ℕ) (c : Client)
    → c.suffix_appended ≡ false
    → suffix ≤ 99
    → Holds (Retried suffix) (make_space suffix c)
unfolding make_space Holds Retried
make_space-Holds_first suffix c e b =
    elim (Bool-cases (ltb max_member_name_len (length c.member_name + 5))) [
      | inl r ↦ rw (e, r) tt
      | inr r ↦ rw (e, r) (refl, b)
    ]

make_space-Holds :
    (suffix : ℕ) (c : Client)
    → (c.suffix_appended ≡ true) ⊎ (suffix ≤ 99)
    → Holds (Retried suffix) (make_space suffix c)
make_space-Holds suffix c (inl e) = make_space-Holds_appended suffix c e
make_space-Holds suffix c (inr b) = elim (Bool-cases c.suffix_appended) [
  | inl e ↦ make_space-Holds_appended suffix c e
  | inr e ↦ make_space-Holds_first suffix c e b
]

write-Holds :
    (suffix : ℕ) (o : Option Client)
    → Holds (Retried suffix) o
    → Holds (Retried suffix) (elim o [ none ↦ none | some d ↦ some (write_suffix suffix d) ])
unfolding Holds Retried write_suffix
write-Holds suffix none h = tt
write-Holds suffix (some d) h = h

next_name-Holds :
    (suffix : ℕ) (c : Client)
    → (c.suffix_appended ≡ true) ⊎ (suffix ≤ 99)
    → Holds (Retried suffix) (next_name suffix c)
unfolding next_name
next_name-Holds suffix c h = write-Holds suffix (make_space suffix c) (make_space-Holds suffix c h)

next_name-Retried :
    (suffix : ℕ) (c d : Client)
    → (c.suffix_appended ≡ true) ⊎ (suffix ≤ 99)
    → next_name suffix c ≡ some d
    → Retried suffix d
unfolding Holds
next_name-Retried suffix c d h e = subst (Holds (Retried suffix)) e (next_name-Holds suffix c h)

Any : {A : Type 0} → A → Client → Type 0
Any a c = Unit {0}

module _ (beyond : List ℕ) where
  -- On the connections `net`.
  attempts-Ends :
      (k type : ℕ) (body : List ℕ) (len : ℕ) (b : Bool) (net : List Exchange) (c : Client)
      → c.suffix_appended ≡ b
      → Ends (Keeps b) (attempts beyond k type body len (record c { net = net }))
  unfolding attempts Keeps
  attempts-Ends zero type body len b net c e = e
  attempts-Ends (suc k) type body len b [] c e = tt
  attempts-Ends (suc k) type body len b (refused ∷ net) c e = e
  attempts-Ends (suc k) type body len b (unanswered ∷ net) c e =
      attempts-Ends k type body len b net
        (put (request (send_ctrl_msg beyond c.member_id type body len)) c) e
  attempts-Ends (suc k) type body len b (answered bytes ∷ net) c e = e

  register_answer-Ends :
      (b : Bool) (o : Option (List ℕ)) (c : Client)
      → Keeps b o c
      → Ends (Keeps b) (register_answer beyond o c)
  unfolding register_answer Keeps
  register_answer-Ends b none c e = e
  register_answer-Ends b (some res) c e = ground arith

  handle_register_req-Ends :
      (b : Bool) (c : Client)
      → c.suffix_appended ≡ b
      → Ends (Keeps b) (handle_register_req beyond c)
  unfolding handle_register_req attempt_request
  handle_register_req-Ends b c e =
      Ends-and_then (Keeps b) (Keeps b) _ (register_answer beyond)
        (attempts-Ends 10 _ _ _ b c.net c e) (register_answer-Ends b)

  register_retry-Ends :
      (k suffix : ℕ) (r : Result) (c : Client)
      → suffix ≤ 100
      → 102 ≤ k + suffix
      → (c.suffix_appended ≡ true) ⊎ (suffix ≤ 99)
      → Ends Any (register_retry beyond k suffix r c)
  unfolding register_retry Any shutdown_clean Keeps Retried
  register_retry-Ends zero suffix r c a b h = absurd (omega (arith, a, b))
  register_retry-Ends (suc k) suffix success c a b h = tt
  register_retry-Ends (suc k) suffix failure c a b h = tt
  register_retry-Ends (suc k) suffix disconnected c a b h = tt
  register_retry-Ends (suc k) suffix name_taken c a b h = elim (Option-cases (next_name suffix c)) [
    | inl e ↦ subst (λ o. Ends Any (retry_as o)) (sym e) tt
    | inr (d, e) ↦
        let (q, w) = next_name-Retried suffix c d h e in
        subst (λ o. Ends Any (retry_as o)) (sym e)
          (Ends-and_then (Keeps true) Any (handle_register_req beyond d)
            (register_retry beyond k (suffix + 1)) (handle_register_req-Ends true d q)
            λ r' c' kept.
              register_retry-Ends k (suffix + 1) r' c' (omega (arith, w)) (omega (arith, b))
                (inl kept))
  ]
    where
      retry_as : Option Client → Run Result
      retry_as o = elim o [
        | none ↦ shutdown_clean c
        | some d ↦ and_then (handle_register_req beyond d) (register_retry beyond k (suffix + 1))
      ]

-- `init_client` never runs out of the rounds of its loop, whatever name the client has and
-- whatever the server answers.
pub init_client-ends : (beyond : List ℕ) (c : Client) → init_client beyond c ≢ no_fuel
unfolding init_client Any Keeps
init_client-ends beyond c e = subst (Ends Any) e (
    Ends-and_then (Keeps c.suffix_appended) Any (handle_register_req beyond c)
      (register_retry beyond 101 1) (handle_register_req-Ends beyond c.suffix_appended c refl)
      λ r d kept.
        register_retry-Ends beyond 101 1 r d (omega arith) (omega arith) (inr (omega arith)))
