-- ===== src/Client/Names/Retry.antt =====
-- The names that are tried one after the other.
use csc469_advanced_operatin.Base.{
  ℕ, zero, suc, ◌+◌, ◌-◌, ◌/◌, ◌%◌, ◌<◌, ◌≤◌, ◌≡◌, ◌≢◌, refl, sym, ap, ◌∙◌, take-append,
  length-append, append-nil, append_assoc, true, false, Option, none, some, List, [], ◌∷◌, ◌++◌,
  ltb, ◌==◌, ◌&&◌, if◌then◌else◌, length, take, arith, ≢→==, ==→≡, ==→≢, Bool-cases, inl, inr,
  subst,
}
use csc469_advanced_operatin.Base.Bytes.{codes}
use csc469_advanced_operatin.Wire.Header.{max_member_name_len}
use csc469_advanced_operatin.Server.Requests.{digits, decimal}
use csc469_advanced_operatin.Client.State.{Client}
use csc469_advanced_operatin.Client.Names.{make_space, write_suffix, next_name}

-- The base name and the suffix that is written behind it.
abbrev pub numbered : List ℕ → ℕ → List ℕ
numbered base k = base ++ ((b' ' ∷ b'(' ∷ decimal k) ++ (b')' ∷ []))

-- A client before its first retry, or after the server refused it as `base (k)`.
pub record Tried (base : List ℕ) (k : ℕ) (c : Client) : Type 0 where
  pub name : c.member_name ≡ (if k == 0 then base else numbered base k)
  pub appended : c.suffix_appended ≡ ltb 0 k
  pub len : c.suffix_len ≡ (if ltb k 10 then 3 else 4)

digits-one : (k n : ℕ) → ltb n 10 ≡ true → digits (suc k) n ≡ (48 + n) ∷ []
unfolding digits
digits-one k n e = rw e refl

digits-more :
    (k n : ℕ) → ltb n 10 ≡ false → digits (suc k) n ≡ digits k (n / 10) ++ ((48 + n % 10) ∷ [])
unfolding digits
digits-more k n e = rw e refl

decimal-one : (n : ℕ) → n < 10 → decimal n ≡ (48 + n) ∷ []
decimal-one n b = digits-one 9 n (ground arith)

decimal-two : (n : ℕ) → 10 ≤ n → n < 100 → decimal n ≡ (48 + n / 10) ∷ (48 + n % 10) ∷ []
decimal-two n b c =
    digits-more 9 n (ground arith)
    ∙ ap (λ l. l ++ ((48 + n % 10) ∷ [])) (digits-one 8 (n / 10) (ground arith))

-- Cutting the suffix off again.
take-cut :
    (base text : List ℕ) (n : ℕ)
    → length text ≡ n
    → take (length (base ++ text) - n) (base ++ text) ≡ base
take-cut base text n e =
    ap (λ k. take k (base ++ text)) (cut (length base) (length text) n e (length-append base text))
    ∙ take-append (length base) base text (omega arith)
    ∙ nothing
  where
    cut : (a b n : ℕ) {k : ℕ} → b ≡ n → k ≡ a + b → k - n ≡ a
    cut a b n e f = omega (arith, e, f)

    nothing : base ++ take (length base - length base) text ≡ base
    nothing = ap (λ k. base ++ take k text) (zero_diff (length base)) ∙ append-nil base
      where
        zero_diff : (k : ℕ) → k - k ≡ 0
        zero_diff k = omega arith

-- What `write_suffix` makes of a name that ends in an old suffix of the right length.
write_suffix-numbered :
    (base old : List ℕ) (k : ℕ) (c : Client)
    → c.member_name ≡ (base ++ b' ' ∷ []) ++ old
    → length old ≡ c.suffix_len
    → (write_suffix k c).member_name ≡ numbered base k
unfolding write_suffix digits
write_suffix-numbered base old k c e l =
    ap (λ n. take (length n - c.suffix_len) n ++ ((b'(' ∷ decimal k) ++ (b')' ∷ []))) e
    ∙ ap (λ n. n ++ ((b'(' ∷ decimal k) ++ (b')' ∷ [])))
        (take-cut (base ++ b' ' ∷ []) old c.suffix_len l)
    ∙ append_assoc base (b' ' ∷ []) ((b'(' ∷ decimal k) ++ (b')' ∷ []))

next_name-some :
    (k : ℕ) (c d : Client) → make_space k c ≡ some d → next_name k c ≡ some (write_suffix k d)
unfolding next_name
next_name-some k c d e =
    ap (λ (o : Option Client). elim o [ none ↦ none | some d ↦ some (write_suffix k d) ]) e

make_space-first :
    (c : Client)
    → c.suffix_appended ≡ false
    → length c.member_name + 5 ≤ max_member_name_len
    → make_space 1 c
      ≡ some (record c { member_name = c.member_name ++ codes " (1)"; suffix_appended = true })
unfolding make_space
make_space-first c e b = rw e (ground arith)

make_space-same :
    (k : ℕ) (c : Client)
    → c.suffix_appended ≡ true
    → c.suffix_len ≡ (if ltb k 10 then 3 else 4)
    → k ≢ 10
    → k ≤ 99
    → make_space k c ≡ some c
unfolding make_space
make_space-same k c e l n b = rw (e, not-shrinking c.suffix_len k l, ≢→== k 10 n, small k b) refl
  where
    not-shrinking : (n k : ℕ) → n ≡ (if ltb k 10 then 3 else 4) → (n == 4 && ltb k 10) ≡ false
    not-shrinking n k e = ground arith

    small : (k : ℕ) → k ≤ 99 → ltb 99 k ≡ false
    small k b = ground arith

make_space-ten :
    (c : Client)
    → c.suffix_appended ≡ true
    → c.suffix_len ≡ 3
    → length c.member_name + 2 ≤ max_member_name_len
    → make_space 10 c
      ≡ some (record c {
        member_name = take (length c.member_name - 3) c.member_name ++ codes "(10)";
        suffix_len = c.suffix_len + 1;
      })
unfolding make_space
make_space-ten c e l b = rw (e, l) (ground arith)

suffix_text : ℕ → List ℕ
unfolding digits
suffix_text k = (b'(' ∷ decimal k) ++ (b')' ∷ [])

length-suffix_text : (k : ℕ) → k ≤ 99 → length (suffix_text k) ≡ (if ltb k 10 then 3 else 4)
unfolding suffix_text
length-suffix_text k b = elim (Bool-cases (ltb k 10)) [
  | inl e ↦
      ap (λ l. length ((b'(' ∷ l) ++ (b')' ∷ []))) (decimal-one k (ground arith))
      ∙ sym (ap (λ t. if t then 3 else 4) e)
  | inr e ↦
      ap (λ l. length ((b'(' ∷ l) ++ (b')' ∷ []))) (decimal-two k (ground arith) (ground arith))
      ∙ sym (ap (λ t. if t then 3 else 4) e)
]

numbered-split : (base : List ℕ) (k : ℕ) → numbered base k ≡ (base ++ b' ' ∷ []) ++ suffix_text k
unfolding suffix_text
numbered-split base k = sym (append_assoc base (b' ' ∷ []) (suffix_text k))

write_suffix-appended :
    (k : ℕ) (c : Client) → (write_suffix k c).suffix_appended ≡ c.suffix_appended
unfolding write_suffix
write_suffix-appended k c = refl

write_suffix-suffix_len : (k : ℕ) (c : Client) → (write_suffix k c).suffix_len ≡ c.suffix_len
unfolding write_suffix
write_suffix-suffix_len k c = refl

tried_name :
    (base : List ℕ) (k : ℕ) → 0 < k → (if k == 0 then base else numbered base k) ≡ numbered base k
tried_name base k b = rw (≢→== k 0 (λ e. omega (arith, b, e))) refl

is_positive : (k : ℕ) → 0 < k → ltb 0 k ≡ true
is_positive k b = ground arith

write_suffix-Tried :
    (base old : List ℕ) (k : ℕ) (c : Client)
    → 0 < k
    → c.member_name ≡ (base ++ b' ' ∷ []) ++ old
    → length old ≡ c.suffix_len
    → c.suffix_appended ≡ true
    → c.suffix_len ≡ (if ltb k 10 then 3 else 4)
    → Tried base k (write_suffix k c)
write_suffix-Tried base old k c b e l a s = record {
  name = write_suffix-numbered base old k c e l ∙ sym (tried_name base k b);
  appended = write_suffix-appended k c ∙ a ∙ sym (is_positive k b);
  len = write_suffix-suffix_len k c ∙ s;
}

next_name-other :
    (base : List ℕ) (k : ℕ) (c : Client)
    → Tried base k c
    → (0 < k) × (k < 99)
    → k ≢ 9
    → (d : Client) × (next_name (suc k) c ≡ some d) × Tried base (suc k) d
next_name-other base k c t (b, a) n = (
  write_suffix (suc k) c,
  next_name-some (suc k) c c (
      make_space-same (suc k) c (t.appended ∙ is_positive k b) (t.len ∙ same_len k n)
        (λ e. n (omega (arith, e))) (omega (arith, a))),
  write_suffix-Tried base (suffix_text k) (suc k) c (omega arith)
      (t.name ∙ tried_name base k b ∙ numbered-split base k)
      (length-suffix_text k (omega (arith, a)) ∙ sym t.len) (t.appended ∙ is_positive k b)
      (t.len ∙ same_len k n),
)
  where
    same_len :
        (k : ℕ) → k ≢ 9 → ◌≡◌ {A = ℕ} (if ltb k 10 then 3 else 4) (if ltb (suc k) 10 then 3 else 4)
    same_len k n = ground arith

next_name-ten :
    (base : List ℕ) (c : Client)
    → Tried base 9 c
    → length base + 6 ≤ max_member_name_len
    → (d : Client) × (next_name 10 c ≡ some d) × Tried base 10 d
next_name-ten base c t space =
    let name = t.name ∙ numbered-split base 9 in
    let e = record c {
      member_name = take (length c.member_name - 3) c.member_name ++ codes "(10)";
      suffix_len = c.suffix_len + 1;
    } in
    (
      write_suffix 10 e,
      next_name-some 10 c e (
          make_space-ten c t.appended t.len (
            rw name (
              omega (
                arith,
                space,
                length-append (base ++ b' ' ∷ []) (suffix_text 9),
                length-append base (b' ' ∷ []),
                length-suffix_text 9 (omega arith),
              )))),
      write_suffix-Tried base (codes "(10)") 10 e (omega arith)
          (ap (λ n. take (length n - 3) n ++ codes "(10)") name
            ∙ ap (λ l. l ++ codes "(10)")
                (take-cut (base ++ b' ' ∷ []) (suffix_text 9) 3
                  (length-suffix_text 9 (omega arith))))
          (sym (ap (λ n. n + 1) t.len)) t.appended (ap (λ n. n + 1) t.len),
    )

-- The client that was refused as `base (k)`, or for `k` 0 as `base`, tries `base (k + 1)` next, up
-- to the number 99: for a base name of at most 18 characters.
pub next_name-Tried :
    (base : List ℕ) (k : ℕ) (c : Client)
    → Tried base k c
    → k < 99
    → length base + 6 ≤ max_member_name_len
    → (d : Client) × (next_name (suc k) c ≡ some d) × Tried base (suc k) d
next_name-Tried base zero c t b space =
    let e = record c { member_name = c.member_name ++ codes " (1)"; suffix_appended = true } in
    (
      write_suffix 1 e,
      next_name-some 1 c e (make_space-first c t.appended (rw t.name (omega (arith, space)))),
      write_suffix-Tried base (codes "(1)") 1 e (omega arith)
          (ap (λ n. n ++ codes " (1)") t.name ∙ sym (append_assoc base (b' ' ∷ []) (codes "(1)")))
          (sym t.len) refl t.len,
    )
next_name-Tried base (suc j) c t b space = elim (Bool-cases (suc j == 9)) [
  | inl nine ↦
      subst (λ k. (d : Client) × (next_name (suc k) c ≡ some d) × Tried base (suc k) d)
        (sym (==→≡ (suc j) 9 nine))
        (next_name-ten base c (subst (λ k. Tried base k c) (==→≡ (suc j) 9 nine) t) space)
  | inr other ↦ next_name-other base (suc j) c t (omega arith, b) (==→≢ (suc j) 9 other)
]

make_space-shrink :
    (c : Client)
    → c.suffix_appended ≡ true
    → c.suffix_len ≡ 4
    → make_space 1 c ≡ some (record c { suffix_len = 3 })
unfolding make_space
make_space-shrink c e l = rw (e, l) refl

write_suffix-cut :
    (front old : List ℕ) (c : Client)
    → c.member_name ≡ front ++ old
    → length old ≡ c.suffix_len
    → (write_suffix 1 c).member_name ≡ front ++ codes "(1)"
unfolding write_suffix digits
write_suffix-cut front old c e l =
    ap (λ n. take (length n - c.suffix_len) n ++ codes "(1)") e
    ∙ ap (λ n. n ++ codes "(1)") (take-cut front old c.suffix_len l)

-- A client that was registered as `base (k)` with two digits in `k`, and whose name is taken when
-- it registers again, cuts one character too few off its name: it tries `base ((1)`.
pub next_name-restart :
    (base : List ℕ) (k : ℕ) (c : Client)
    → Tried base k c
    → (10 ≤ k) × (k ≤ 99)
    → (d : Client) × (next_name 1 c ≡ some d) × (d.member_name ≡ base ++ codes " ((1)")
next_name-restart base k c t (b, a) =
    let e = record c { suffix_len = 3 } in
    let two = decimal-two k b (omega (arith, a)) in
    (
      write_suffix 1 e,
      next_name-some 1 c e
          (make_space-shrink c (t.appended ∙ is_positive k (omega (arith, b))) (t.len ∙ four k b)),
      write_suffix-cut (base ++ codes " (") (decimal k ++ b')' ∷ []) e
            (t.name
              ∙ tried_name base k (omega (arith, b))
              ∙ sym (append_assoc base (codes " (") (decimal k ++ b')' ∷ [])))
            (ap (λ l. length (l ++ b')' ∷ [])) two)
          ∙ append_assoc base (codes " (") (codes "(1)"),
    )
  where
    four : (k : ℕ) → 10 ≤ k → ◌≡◌ {A = ℕ} (if ltb k 10 then 3 else 4) 4
    four k b = ground arith
