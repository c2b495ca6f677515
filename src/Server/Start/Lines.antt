-- ===== src/Server/Start/Lines.antt =====
-- Reading the file of rooms is one run of `create_room` for each of its names.
use csc469_advanced_operatin.Base.{
  ℕ, zero, suc, ◌+◌, ◌<◌, ◌≡◌, ◌⊎◌, inl, inr, false, refl, sym, ap, subst, ◌∙◌, Option, none, some,
  List, [], ◌∷◌, ◌++◌, length, length-append, arith, ◌==◌, Bool-cases,
}
use csc469_advanced_operatin.Base.Bytes.{c_string, IsText}
use csc469_advanced_operatin.Dll.{Ptr}
use csc469_advanced_operatin.Wire.Header.{max_num_of_rooms}
use csc469_advanced_operatin.Server.State.{Server, Run, Cmd, ok, fault, exits, no_fuel, and_then}
use csc469_advanced_operatin.Server.Rooms.{create_room}
use csc469_advanced_operatin.Server.Start.{read_rooms, create_rooms, words, drop_newline, fgets}

abbrev pub more_names : (List ℕ → List (List ℕ)) → Option (List ℕ × List ℕ) → List (List ℕ)
more_names next none = []
more_names next (some (line, rest)) =
    words max_num_of_rooms (drop_newline (c_string line)) ++ next rest

-- The names in the first `k` lines of a file. Only a line that ends before the end of the file
-- counts.
unfoldable pub file_names : (k : ℕ) → List ℕ → List (List ℕ)
file_names zero file = []
file_names (suc k) file = more_names (file_names k) (fgets 255 file)

abbrev Split : ℕ → List ℕ → Type 0
Split n cs =
    (fgets n cs ≡ none)
    ⊎ ((line : List ℕ) × (rest : List ℕ) × (fgets n cs ≡ some (line, rest)) × (cs ≡ line ++ rest))

fgets-Split : (n : ℕ) (cs : List ℕ) → Split n cs
unfolding fgets
fgets-Split zero cs = inr ([], cs, refl, refl)
fgets-Split (suc n) [] = inl refl
fgets-Split (suc n) (c ∷ cs) = elim (Bool-cases (c == b'\n')) [
  | inl e ↦ inr (c ∷ [], cs, rw e refl, refl)
  | inr e ↦ elim (fgets-Split n cs) [
    | inl ends ↦ inl (rw (e, ends) refl)
    | inr (line, rest, read, split) ↦ inr (c ∷ line, rest, rw (e, read) refl, rw split refl)
  ]
]

-- A line has a byte.
abbrev Line : ℕ → List ℕ → Type 0
Line n cs =
    (fgets (suc n) cs ≡ none)
    ⊎ ((c : ℕ) × (line : List ℕ) × (rest : List ℕ) × (fgets (suc n) cs ≡ some (c ∷ line, rest))
        × (cs ≡ c ∷ line ++ rest))

fgets-Line : (n : ℕ) (cs : List ℕ) → Line n cs
unfolding fgets
fgets-Line n [] = inl refl
fgets-Line n (c ∷ cs) = elim (Bool-cases (c == b'\n')) [
  | inl e ↦ inr (c, [], cs, rw e refl, refl)
  | inr e ↦ elim (fgets-Split n cs) [
    | inl ends ↦ inl (rw (e, ends) refl)
    | inr (line, rest, read, split) ↦ inr (c, line, rest, rw (e, read) refl, rw split refl)
  ]
]

IsText-append : (xs ys : List ℕ) → IsText (xs ++ ys) → IsText ys
IsText-append [] ys t = t
IsText-append (x ∷ xs) ys t = IsText-append xs ys t.1

and_then_assoc :
    {A B C : Type 0} (r : Run A) (f : A → Cmd B) (g : B → Cmd C)
    → and_then (and_then r f) g ≡ and_then r (λ a s. and_then (f a s) g)
and_then_assoc (ok a s) f g = refl
and_then_assoc fault f g = refl
and_then_assoc exits f g = refl
and_then_assoc no_fuel f g = refl

and_then_same :
    {A B : Type 0} (r : Run A) (f g : A → Cmd B)
    → ((a : A) (s : Server) → f a s ≡ g a s)
    → and_then r f ≡ and_then r g
and_then_same (ok a s) f g h = h a s
and_then_same fault f g h = refl
and_then_same exits f g h = refl
and_then_same no_fuel f g h = refl

module _ (malloc : ℕ → Ptr) where
  create_rooms-append :
      (xs ys : List (List ℕ)) (calls : ℕ) (s : Server)
      → create_rooms malloc calls (xs ++ ys) s
        ≡ and_then (create_rooms malloc calls xs s) λ n. create_rooms malloc n ys
  unfolding create_rooms
  create_rooms-append [] ys calls s = refl
  create_rooms-append (x ∷ xs) ys calls s =
      and_then_same (create_room (malloc calls) x s) _ _
        (λ _ t. create_rooms-append xs ys (calls + 1) t)
      ∙ sym (and_then_assoc (create_room (malloc calls) x s) _ _)

  -- With a round for each byte and one more, the loop ends.
  pub read_rooms-names :
      (k : ℕ) (file : List ℕ) (calls : ℕ) (s : Server)
      → IsText file
      → length file < k
      → read_rooms k malloc calls file s
        ≡ and_then (create_rooms malloc calls (file_names k file) s) λ _. ok tt
  unfolding read_rooms file_names create_rooms
  read_rooms-names zero file calls s t b = absurd (omega (arith, b))
  read_rooms-names (suc k) file calls s t b = elim (fgets-Line 254 file) [
    | inl ends ↦ rw ends refl
    | inr (c, line, rest, read, split) ↦
        let t' : IsText (c ∷ line ++ rest) = subst IsText split t in
        let no_end : (c == 0) ≡ false = ground (arith, t'.0) in
        let shorter : length rest < k =
          omega (arith, b, ap length split, length-append (c ∷ line) rest) in
        let names : List (List ℕ) = words max_num_of_rooms (drop_newline (c ∷ c_string line)) in
        rw (read, no_end)
          (and_then_same _ _ _
              (λ n u. read_rooms-names k rest n u (IsText-append line rest t'.1) shorter)
            ∙ sym (
                and_then_assoc (create_rooms malloc calls names s)
                  (λ n. create_rooms malloc n (file_names k rest)) (λ _. ok tt))
            ∙ ap (λ r. and_then r (λ _. ok tt))
                (sym (create_rooms-append names (file_names k rest) calls s)))
  ]
