-- ===== src/Client/Parse.antt =====
-- Which lines are commands.
use csc469_advanced_operatin.Base.{ℕ, ◌≡◌, false, Option, none, some, List, [], ◌∷◌, ltb, length}
use csc469_advanced_operatin.Wire.Header.{max_room_name_len}
use csc469_advanced_operatin.Client.Commands.{
  Command, list_rooms, quit, create, list_members, switch, has_blank,
}

-- The line of a command, and when its name is one.
abbrev pub print_command : Command → List ℕ
print_command list_rooms = b'r' ∷ []
print_command quit = b'q' ∷ []
print_command (create name) = b'c' ∷ b' ' ∷ name
print_command (list_members name) = b'm' ∷ b' ' ∷ name
print_command (switch name) = b's' ∷ b' ' ∷ name

abbrev pub IsName : List ℕ → Type 0
IsName name = (has_blank name ≡ false) × (ltb max_room_name_len (length name) ≡ false)

abbrev pub IsValid : Command → Type 0
IsValid list_rooms = Unit {0}
IsValid quit = Unit {0}
IsValid (create name) = IsName name
IsValid (list_members name) = IsName name
IsValid (switch name) = IsName name

Parsed : List ℕ → Option Command → Type 0
Parsed line none = Unit {0}
Parsed line (some cmd) = (line ≡ print_command cmd) × IsValid cmd
