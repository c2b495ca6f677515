-- ===== src/Tests/Start.antt =====
-- Files of rooms.
use csc469_advanced_operatin.Base.{
  ℕ, ◌+◌, ◌≡◌, refl, arith, map, length, none, some, List, [], ◌∷◌, ◌++◌,
}
use csc469_advanced_operatin.Base.Bytes.{codes}
use csc469_advanced_operatin.Dll.{Ptr, null}
use csc469_advanced_operatin.Dll.Shape.{lst}
use csc469_advanced_operatin.Server.State.{Server, ok}
use csc469_advanced_operatin.Server.Sound.{Session}
use csc469_advanced_operatin.Server.Ready.{IsReady}
use csc469_advanced_operatin.Server.Start.{
  fgets, strtok, words, drop_newline, init_server, empty_server,
}
use csc469_advanced_operatin.Server.Start.Lines.{file_names}
use csc469_advanced_operatin.Server.Start.Rooms.{MallocOk}
use csc469_advanced_operatin.Server.Start.Names.{admit_all, init_server-rooms}
use csc469_advanced_operatin.Server.Start.Format.{print_file, concat_lines, init_server-print_file}

words_test : words 40 (codes "  ab c  d ") ≡ codes "ab" ∷ codes "c" ∷ codes "d" ∷ []
unfolding words strtok
words_test = refl

words_test_most : words 2 (codes "a b c") ≡ codes "a" ∷ codes "b" ∷ []
unfolding words strtok
words_test_most = refl

fgets_test :
    fgets 255 (codes "ab" ++ b'\n' ∷ codes "c") ≡ some (codes "ab" ++ b'\n' ∷ [], codes "c")
unfolding fgets
fgets_test = refl

-- The text behind the last newline is not read.
fgets_test_end : fgets 255 (codes "ab") ≡ none
unfolding fgets
fgets_test_end = refl

drop_newline_test : drop_newline (codes "ab" ++ b'\n' ∷ []) ≡ codes "ab"
unfolding drop_newline
drop_newline_test = refl

abbrev pub one_more : ℕ → Ptr
one_more k = k + 1

pub one_more-MallocOk : MallocOk one_more
one_more-MallocOk = record { non_null = λ k e. omega arith; once = λ j k e. omega arith }

-- Two lines and a third that nothing ends.
abbrev file : List ℕ
file = codes "a bc" ++ b'\n' ∷ codes "bc d" ++ b'\n' ∷ codes "e"

file_names_test : file_names 12 file ≡ codes "a" ∷ codes "bc" ∷ codes "bc" ∷ codes "d" ∷ []
unfolding file_names fgets words strtok drop_newline
file_names_test = refl

admit_all_test :
    admit_all [] (codes "a" ∷ codes "bc" ∷ codes "bc" ∷ codes "d" ∷ [])
    ≡ codes "a" ∷ codes "bc" ∷ codes "d" ∷ []
admit_all_test = refl

init_server-rooms_example :
    (t : Server) × (g : Session) × (init_server one_more (some file) empty_server ≡ ok tt t)
    × IsReady t g
    × (g.members ≡ [])
    × (t.room_list_tail ≡ lst null g.rooms)
    × (map t.room_name g.rooms ≡ admit_all [] (file_names (length file + 1) file))
unfolding file_names fgets words strtok drop_newline
init_server-rooms_example =
    init_server-rooms one_more file one_more-MallocOk (ground arith) (ground arith)

-- A3/room.cfg
abbrev room_cfg : List (List (List ℕ))
room_cfg = (codes "golf" ∷ codes "basketball" ∷ []) ∷ (codes "soccer" ∷ codes "hockey" ∷ []) ∷ []

init_server-print_file_example :
    (t : Server) × (g : Session) × (init_server one_more (some (print_file room_cfg)) empty_server
      ≡ ok tt t)
    × IsReady t g
    × (map t.room_name g.rooms ≡ admit_all [] (concat_lines room_cfg))
init_server-print_file_example =
    init_server-print_file one_more room_cfg one_more-MallocOk (ground arith) (ground arith)
