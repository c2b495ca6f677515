-- ===== src/Server/Loop/Table.antt =====
-- Every connection of the table stands before the bound of the loop.
use csc469_advanced_operatin.Base.{
  ℕ, zero, suc, ◌+◌, ◌<◌, ◌≤◌, ◌≡◌, ◌≢◌, sym, ap, ◌∙◌, Option, none, some, Option-cases, ltb, ◌==◌,
  if◌then◌else◌, arith, Bool-cases, inl, inr, ==→≢, ≢→==,
}
use csc469_advanced_operatin.Dll.Shape.{update_ne}
use csc469_advanced_operatin.Server.State.{Server}
use csc469_advanced_operatin.Server.Loop.{
  max_control_sessions, Conns, free_place, store_connection, accept_connection,
}

-- The entries up to `bound` and no others are in use.
abbrev pub Within : (ℕ → Option ℕ) → ℕ → Type 0
Within table bound = (j : ℕ) → table j ≢ none → j < bound

pub record IsTable (c : Conns) : Type 0 where
  pub within : Within c.fd_table c.limit
  pub size : c.limit ≤ max_control_sessions

free_place-none : (k i : ℕ) (table : ℕ → Option ℕ) → table i ≡ none → free_place (suc k) table i ≡ i
unfolding free_place
free_place-none k i table e =
    ap (λ (o : Option ℕ). elim o [ none ↦ i | some _ ↦ free_place k table (i + 1) ]) e

free_place-some :
    (k i fd : ℕ) (table : ℕ → Option ℕ)
    → table i ≡ some fd
    → free_place (suc k) table i ≡ free_place k table (i + 1)
unfolding free_place
free_place-some k i fd table e =
    ap (λ (o : Option ℕ). elim o [ none ↦ i | some _ ↦ free_place k table (i + 1) ]) e

none-some : {fd : ℕ} → none ≡ some fd → ⊥
none-some e = ground arith

free_place-below :
    (k i : ℕ) (table : ℕ → Option ℕ) (j : ℕ)
    → i ≤ j
    → j < i + k
    → table j ≡ none
    → free_place k table i < i + k
free_place-below zero i table j a b e = absurd (omega (arith, a, b))
free_place-below (suc k) i table j a b e = elim (Option-cases (table i)) [
  | inl n ↦ omega (arith, free_place-none k i table n)
  | inr (fd, s) ↦
      let later : i + 1 ≤ j =
        omega (arith, a, λ (q : i ≡ j). none-some (sym e ∙ ap table (sym q) ∙ s)) in
      omega (
        arith,
        free_place-some k i fd table s,
        free_place-below k (i + 1) table j later (omega (arith, b)) e,
      )
]

module _ (c : Conns) (t : IsTable c) where
  store-IsTable : (fd i : ℕ) → i < max_control_sessions → IsTable (store_connection fd i c)
  unfolding store_connection
  store-IsTable fd i b = record {
    within = λ j n. elim (Bool-cases (j == i)) [
      | inl e ↦ ground (arith, e)
      | inr e ↦ bound_grows c.limit i j (
          t.within j (λ q. n (
            rw (≢→== i max_control_sessions (λ z. omega (arith, b, z)))
              (update_ne c.fd_table i (some fd) j (==→≢ j i e) ∙ q))))
    ];
    size = ground (arith, t.size);
  }
    where
      bound_grows : (l i j : ℕ) → j < l → j < (if ltb l (i + 1) then i + 1 else l)
      bound_grows l i j h = ground arith

  -- While a place of the table is free, accepting a connection leaves every connection of the table
  -- before the bound of the loop, and the bound within the table.
  pub accept_connection-IsTable :
      (accepted : Option ℕ) (j : ℕ)
      → j < max_control_sessions
      → c.fd_table j ≡ none
      → IsTable (accept_connection accepted c)
  unfolding accept_connection
  accept_connection-IsTable none j b e = t
  accept_connection-IsTable (some fd) j b e =
      store-IsTable fd (free_place max_control_sessions c.fd_table 0)
        (free_place-below max_control_sessions 0 c.fd_table j (omega arith) b e)

-- The table while the loop is at `i`: the entries behind it that are in use stand before `tmp`.
record Visited (i tmp : ℕ) (c : Conns) : Type 0 where
  table : IsTable c
  seen : (j : ℕ) → j < i → c.fd_table j ≢ none → j < tmp
  order : tmp ≤ i

free_place-full :
    (k i : ℕ) (table : ℕ → Option ℕ)
    → ((j : ℕ) → j < i + k → table j ≢ none)
    → free_place k table i ≡ i + k
unfolding free_place
free_place-full zero i table f = omega arith
free_place-full (suc k) i table f = elim (Option-cases (table i)) [
  | inl n ↦ absurd (f i (omega arith) n)
  | inr (fd, s) ↦
      free_place-some k i fd table s
      ∙ free_place-full k (i + 1) table (λ j b. f j (omega (arith, b)))
      ∙ omega arith
]

store-full :
    (fd : ℕ) (c : Conns)
    → c.limit ≤ max_control_sessions
    → (store_connection fd max_control_sessions c).limit ≡ max_control_sessions + 1
unfolding store_connection
store-full fd c b = ground arith

-- A connection that comes when every place of the table is in use raises the bound of the loop to
-- one entry behind the table.
pub accept_connection-full :
    (c : Conns) (fd : ℕ)
    → IsTable c
    → ((j : ℕ) → j < max_control_sessions → c.fd_table j ≢ none)
    → (accept_connection (some fd) c).limit ≡ max_control_sessions + 1
unfolding accept_connection
accept_connection-full c fd t f =
    ap (λ i. (store_connection fd i c).limit) (free_place-full max_control_sessions 0 c.fd_table f)
    ∙ store-full fd c t.size
