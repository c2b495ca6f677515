-- ===== src/Server/Start/Format.antt =====
-- The file of rooms as a user writes it, like A3/room.cfg: lines of names with blanks between them.
use csc469_advanced_operatin.Base.{
  ℕ, zero, suc, ◌+◌, ◌≤◌, ◌<◌, ◌≡◌, refl, sym, ap, subst, ◌∙◌, false, none, some, List, [], ◌∷◌,
  ◌++◌, map, length, length-append, ◌==◌, if◌then◌else◌, arith,
}
use csc469_advanced_operatin.Base.Bytes.{c_string, IsText}
use csc469_advanced_operatin.Dll.{Ptr}
use csc469_advanced_operatin.Wire.Header.{max_num_of_rooms}
use csc469_advanced_operatin.Server.State.{Server, ok}
use csc469_advanced_operatin.Server.Sound.{Session}
use csc469_advanced_operatin.Server.Ready.{IsReady}
use csc469_advanced_operatin.Server.Start.{
  init_server, empty_server, fgets, drop_newline, strtok, words, word, next_word, skip_blanks,
}
use csc469_advanced_operatin.Server.Start.Lines.{file_names}
use csc469_advanced_operatin.Server.Start.Rooms.{MallocOk}
use csc469_advanced_operatin.Server.Start.Names.{admit_all, HasEnds, init_server-rooms}

abbrev pub print_line : List (List ℕ) → List ℕ
print_line [] = []
print_line (name ∷ []) = name
print_line (name ∷ next ∷ names) = name ++ b' ' ∷ print_line (next ∷ names)

abbrev pub print_file : List (List (List ℕ)) → List ℕ
print_file [] = []
print_file (line ∷ lines) = print_line line ++ b'\n' ∷ print_file lines

abbrev pub concat_lines : List (List (List ℕ)) → List (List ℕ)
concat_lines [] = []
concat_lines (line ∷ lines) = line ++ concat_lines lines

-- Without a zero byte and a newline, and for a name also without a blank.
abbrev Clean : List ℕ → Type 0
Clean [] = Unit {0}
Clean (b ∷ bs) = (0 < b) × ((b == b'\n') ≡ false) × Clean bs

abbrev pub Plain : List ℕ → Type 0
Plain [] = Unit {0}
Plain (b ∷ bs) = (0 < b) × ((b == b'\n') ≡ false) × ((b == b' ') ≡ false) × Plain bs

abbrev pub NamesOk : List (List ℕ) → Type 0
NamesOk [] = Unit {0}
NamesOk (name ∷ names) = (0 < length name) × Plain name × NamesOk names

-- LinesOk that fit into `line`, with at most as many names as there may be rooms.
abbrev pub LinesOk : List (List (List ℕ)) → Type 0
LinesOk [] = Unit {0}
LinesOk (line ∷ lines) =
    NamesOk line
    × (length line ≤ max_num_of_rooms)
    × (length (print_line line) ≤ 254)
    × LinesOk lines

fgets-line :
    (n : ℕ) (text rest : List ℕ)
    → Clean text
    → length text < n
    → fgets n (text ++ b'\n' ∷ rest) ≡ some (text ++ b'\n' ∷ [], rest)
unfolding fgets
fgets-line zero text rest c b = absurd (omega (arith, b))
fgets-line (suc n) [] rest c b = refl
fgets-line (suc n) (x ∷ text) rest c b =
    rw (c.1, fgets-line n text rest c.2 (omega (arith, b))) refl

c_string-line : (text : List ℕ) → Clean text → c_string (text ++ b'\n' ∷ []) ≡ text ++ b'\n' ∷ []
c_string-line [] c = refl
c_string-line (x ∷ text) c = ground (arith, c.0, c_string-line text c.2)

drop_newline-line : (text : List ℕ) → drop_newline (text ++ b'\n' ∷ []) ≡ text
unfolding drop_newline
drop_newline-line [] = refl
drop_newline-line (x ∷ []) = refl
drop_newline-line (x ∷ y ∷ text) = ap (λ l. x ∷ l) (drop_newline-line (y ∷ text))

word-blank : (name rest : List ℕ) → Plain name → word (name ++ b' ' ∷ rest) ≡ (name, rest)
word-blank [] rest p = refl
word-blank (x ∷ name) rest p = rw (p.2, word-blank name rest p.3) refl

word-end : (name : List ℕ) → Plain name → word name ≡ (name, [])
word-end [] p = refl
word-end (x ∷ name) p = rw (p.2, word-end name p.3) refl

strtok-start : (x : ℕ) (cs : List ℕ) → (x == b' ') ≡ false → strtok (x ∷ cs) ≡ some (word (x ∷ cs))
unfolding strtok
strtok-start x cs e = ap (λ b. next_word (if b then skip_blanks cs else x ∷ cs)) e

strtok-blank :
    (name rest : List ℕ)
    → 0 < length name
    → Plain name
    → strtok (name ++ b' ' ∷ rest) ≡ some (name, rest)
strtok-blank [] rest b p = absurd (omega (arith, b))
strtok-blank (x ∷ name) rest b p =
    strtok-start x _ p.2 ∙ ap (λ w. some w) (word-blank (x ∷ name) rest p)

strtok-end : (name : List ℕ) → 0 < length name → Plain name → strtok name ≡ some (name, [])
strtok-end [] b p = absurd (omega (arith, b))
strtok-end (x ∷ name) b p = strtok-start x _ p.2 ∙ ap (λ w. some w) (word-end (x ∷ name) p)

fgets-nothing : (n : ℕ) → fgets (suc n) [] ≡ none
unfolding fgets
fgets-nothing n = refl

words-nothing : (n : ℕ) → words n [] ≡ []
unfolding words strtok
words-nothing zero = refl
words-nothing (suc n) = refl

words-print :
    (n : ℕ) (names : List (List ℕ))
    → NamesOk names
    → length names ≤ n
    → words n (print_line names) ≡ names
unfolding words
words-print n [] h b = words-nothing n
words-print zero (name ∷ names) h b = absurd (omega (arith, b))
words-print (suc n) (name ∷ []) h b = rw (strtok-end name h.0 h.1, words-nothing n) refl
words-print (suc n) (name ∷ next ∷ names) h b =
    rw
      (
        strtok-blank name (print_line (next ∷ names)) h.0 h.1,
        words-print n (next ∷ names) h.2 (omega (arith, b)),
      )
      refl

Plain-Clean : (name : List ℕ) → Plain name → Clean name
Plain-Clean [] p = tt
Plain-Clean (x ∷ name) p = (p.0, p.1, Plain-Clean name p.3)

Clean-append : (xs ys : List ℕ) → Clean xs → Clean ys → Clean (xs ++ ys)
Clean-append [] ys c d = d
Clean-append (x ∷ xs) ys c d = (c.0, c.1, Clean-append xs ys c.2 d)

print_line-Clean : (names : List (List ℕ)) → NamesOk names → Clean (print_line names)
print_line-Clean [] h = tt
print_line-Clean (name ∷ []) h = Plain-Clean name h.1
print_line-Clean (name ∷ next ∷ names) h =
    Clean-append name _ (Plain-Clean name h.1)
      (omega arith, refl, print_line-Clean (next ∷ names) h.2)

Clean-IsText : (text rest : List ℕ) → Clean text → IsText rest → IsText (text ++ rest)
Clean-IsText [] rest c t = t
Clean-IsText (x ∷ text) rest c t = (c.0, Clean-IsText text rest c.2 t)

print_file-IsText : (lines : List (List (List ℕ))) → LinesOk lines → IsText (print_file lines)
print_file-IsText [] h = tt
print_file-IsText (line ∷ lines) h =
    Clean-IsText (print_line line) _ (print_line-Clean line h.0)
      (omega arith, print_file-IsText lines h.3)

length-print_file : (lines : List (List (List ℕ))) → length lines ≤ length (print_file lines)
length-print_file [] = omega arith
length-print_file (line ∷ lines) =
    omega
      (arith, length-append (print_line line) (b'\n' ∷ print_file lines), length-print_file lines)

line-names :
    (line : List (List ℕ))
    → NamesOk line
    → length line ≤ max_num_of_rooms
    → words max_num_of_rooms (drop_newline (c_string (print_line line ++ b'\n' ∷ []))) ≡ line
line-names line h b =
    rw
      (
        c_string-line (print_line line) (print_line-Clean line h),
        drop_newline-line (print_line line),
      )
      (words-print max_num_of_rooms line h b)

file_names-print :
    (k : ℕ) (lines : List (List (List ℕ)))
    → LinesOk lines
    → length lines ≤ k
    → file_names k (print_file lines) ≡ concat_lines lines
unfolding file_names
file_names-print zero [] h b = refl
file_names-print (suc k) [] h b = rw (fgets-nothing 254) refl
file_names-print zero (line ∷ lines) h b = absurd (omega (arith, b))
file_names-print (suc k) (line ∷ lines) h b =
    rw
      (
        fgets-line 255 (print_line line) (print_file lines) (print_line-Clean line h.0)
            (omega (arith, h.2)),
        line-names line h.0 h.1,
        file_names-print k lines h.3 (omega (arith, b)),
      )
      refl

-- A file of lines that each end in a newline, with one blank between two names, is read in full:
-- the server starts, and its rooms are those of the names of all lines in order, without a name
-- that is longer than a name may be, that a room before it has, or that comes when the list of
-- rooms is full. A name is not empty, has no blank, newline or zero byte, and does not fill its
-- array to the last byte; a line has at most 40 names in 254 bytes. Each room has memory of its own.
pub init_server-print_file :
    (malloc : ℕ → Ptr) (lines : List (List (List ℕ)))
    → MallocOk malloc
    → LinesOk lines
    → HasEnds (concat_lines lines)
    → (t : Server) × (g : Session) × (init_server malloc (some (print_file lines)) empty_server
        ≡ ok tt t)
      × IsReady t g
      × (map t.room_name g.rooms ≡ admit_all [] (concat_lines lines))
init_server-print_file malloc lines m h ends =
    let names =
      file_names-print (length (print_file lines) + 1) lines h
        (omega (arith, length-print_file lines)) in
    let (t, g, run, ready, nobody, tail, rooms) =
      init_server-rooms malloc (print_file lines) m (print_file-IsText lines h)
        (subst HasEnds (sym names) ends) in
    (t, g, run, ready, rooms ∙ ap (admit_all []) names)
