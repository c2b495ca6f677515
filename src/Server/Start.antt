-- ===== src/Server/Start.antt =====
-- The start of the server: the lists that `init_server` of A3/server_util.c clears and the rooms
-- that it reads from a file. Host name, sockets and the log are system calls; the table of the
-- connections is in Server.Loop.
pub mod Format
pub mod Lines
pub mod Names
pub mod Rooms
use csc469_advanced_operatin.Base.{
  ℕ, zero, suc, ◌+◌, ◌-◌, Bool, true, false, Option, none, some, List, [], ◌∷◌, length, ◌==◌,
  if◌then◌else◌,
}
use mathlib.Core.Option.{map}
use csc469_advanced_operatin.Base.Bytes.{c_string}
use csc469_advanced_operatin.Dll.{Ptr, null}
use csc469_advanced_operatin.Wire.Header.{max_num_of_rooms}
use csc469_advanced_operatin.Server.State.{Server, ok, fault, no_fuel, Cmd, and_then}
use csc469_advanced_operatin.Server.Rooms.{create_room}

abbrev pub max_line_len : ℕ
max_line_len = 256

-- The globals before `init_server`, which C sets to zero.
abbrev pub empty_server : Server
empty_server = record {
  live_member = λ _. false;
  member_id = λ _. 0;
  member_name = λ _. [];
  quiet_flag = λ _. 0;
  udp_addr = λ _. 0;
  udp_port = λ _. 0;
  num_chat_msgs = λ _. 0;
  num_bytes_rcved = λ _. 0;
  mem_list = record { next = λ _. null; prev = λ _. null; head = null; tail = null };
  next_room_member = λ _. null;
  prev_room_member = λ _. null;
  current_room = λ _. null;
  live_room = λ _. false;
  room_name = λ _. [];
  next_room = λ _. null;
  num_of_members = λ _. 0;
  empty_flag = λ _. 0;
  member_list_head = λ _. null;
  member_list_tail = λ _. null;
  room_list_head = null;
  room_list_tail = null;
  total_num_of_members = 0;
  total_num_of_rooms = 0;
  sent = [];
}

-- "member, room initialization"
unfoldable pub init_lists : Server → Server
init_lists s = record s {
  mem_list = record s.mem_list { head = null; tail = null };
  total_num_of_members = 0;
  room_list_head = null;
  room_list_tail = null;
  total_num_of_rooms = 0;
}

abbrev pub put_byte : ℕ → List ℕ × List ℕ → List ℕ × List ℕ
put_byte c (line, rest) = (c ∷ line, rest)

-- `fgets` with room for `n` bytes: the line with its newline and the rest of the file, or `none`
-- where it comes to the end of the file and sets `feof`.
unfoldable pub fgets : (n : ℕ) → List ℕ → Option (List ℕ × List ℕ)
fgets zero cs = some ([], cs)
fgets (suc n) [] = none
fgets (suc n) (c ∷ cs) =
    let rest = fgets n cs in if c == b'\n' then some (c ∷ [], cs) else map (put_byte c) rest

-- The text without a newline at its end.
unfoldable pub drop_newline : List ℕ → List ℕ
drop_newline [] = []
drop_newline (c ∷ []) = if c == b'\n' then [] else c ∷ []
drop_newline (c ∷ d ∷ cs) = c ∷ drop_newline (d ∷ cs)

abbrev pub skip_blanks : List ℕ → List ℕ
skip_blanks [] = []
skip_blanks (c ∷ cs) = if c == b' ' then skip_blanks cs else c ∷ cs

abbrev pub word : List ℕ → List ℕ × List ℕ
word [] = ([], [])
word (c ∷ cs) = let rest = word cs in if c == b' ' then ([], cs) else put_byte c rest

abbrev pub next_word : List ℕ → Option (List ℕ × List ℕ)
next_word [] = none
next_word (c ∷ cs) = some (word (c ∷ cs))

-- `strtok` with the delimiter " ": the word and what it goes on with.
unfoldable pub strtok : List ℕ → Option (List ℕ × List ℕ)
strtok line = next_word (skip_blanks line)

abbrev pub more_words : (List ℕ → List (List ℕ)) → Option (List ℕ × List ℕ) → List (List ℕ)
more_words next none = []
more_words next (some (name, rest)) = name ∷ next rest

-- The words of a line that the loop over `str` makes rooms of, at most `n`.
unfoldable pub words : (n : ℕ) → List ℕ → List (List ℕ)
words zero line = []
words (suc n) line = more_words (words n) (strtok line)

-- `malloc k` is what the `k`-th call of `create_room` has for its room. The result is the number of
-- calls; what `create_room` returns is not looked at.
unfoldable pub create_rooms : (malloc : ℕ → Ptr) → (calls : ℕ) → List (List ℕ) → Cmd ℕ
create_rooms malloc calls [] s = ok calls s
create_rooms malloc calls (name ∷ names) s =
    and_then (create_room (malloc calls) name s) λ _. create_rooms malloc (calls + 1) names

-- One line. Where it has no text before a zero byte, `line[strlen(line)-1]` lies outside of the
-- array.
abbrev pub read_text :
    (malloc : ℕ → Ptr) → (calls : ℕ) → (ℕ → Cmd (Unit {0})) → List ℕ → Cmd (Unit {0})
read_text malloc calls next [] s = fault
read_text malloc calls next (c ∷ cs) s =
    and_then (create_rooms malloc calls (words max_num_of_rooms (drop_newline (c ∷ cs))) s) next

abbrev pub read_line :
    (malloc : ℕ → Ptr)
    → (calls : ℕ) → (ℕ → List ℕ → Cmd (Unit {0}))
    → Option (List ℕ × List ℕ)
    → Cmd (Unit {0})
read_line malloc calls next none s = ok tt s
read_line malloc calls next (some (line, rest)) s =
    read_text malloc calls (λ n. next n rest) (c_string line) s

-- `while(!feof(rfp))`
unfoldable pub read_rooms : ℕ → (malloc : ℕ → Ptr) → (calls : ℕ) → List ℕ → Cmd (Unit {0})
read_rooms zero malloc calls file s = no_fuel
read_rooms (suc k) malloc calls file s =
    read_line malloc calls (read_rooms k malloc) (fgets (max_line_len - 1) file) s

-- The file of rooms is `none` where there is no name for it or `fopen` fails.
unfoldable pub init_server : (malloc : ℕ → Ptr) → Option (List ℕ) → Cmd (Unit {0})
init_server malloc none s = ok tt (init_lists s)
init_server malloc (some file) s = read_rooms (length file + 1) malloc 0 file (init_lists s)
