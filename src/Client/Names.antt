-- ===== src/Client/Names.antt =====
-- The names that `init_client` tries when the server says that the name is taken.
pub mod Retry
use csc469_advanced_operatin.Base.{
  ℕ, ◌+◌, ◌-◌, true, Option, none, some, [], ◌∷◌, ◌++◌, ltb, ◌==◌, ◌&&◌, if◌then◌else◌, length,
  take,
}
use csc469_advanced_operatin.Base.Bytes.{codes}
use csc469_advanced_operatin.Wire.Header.{max_member_name_len}
use csc469_advanced_operatin.Server.Requests.{digits, decimal}
use csc469_advanced_operatin.Client.State.{Client}

-- The tests before the suffix is written: `none` is `shutdown_clean`.
unfoldable pub make_space : ℕ → Client → Option Client
make_space suffix c =
    let name = c.member_name in
    if c.suffix_appended
    then if c.suffix_len == 4 && ltb suffix 10
      then some (record c { suffix_len = 3 })
      else if suffix == 10
      then if ltb max_member_name_len (length name + 2)
        then none
        else some (record c {
          member_name = take (length name - 3) name ++ codes "(10)";
          suffix_len = c.suffix_len + 1;
        })
      else if ltb 99 suffix
      then none
      else some c
    else if ltb max_member_name_len (length name + 5)
    then none
    else some (record c { member_name = name ++ codes " (1)"; suffix_appended = true })

-- `sprintf(member_name + strlen(member_name) - suffix_len, "(%d)", suffix)`
unfoldable pub write_suffix : ℕ → Client → Client
unfolding digits
write_suffix suffix c = record c {
  member_name =
      take (length c.member_name - c.suffix_len) c.member_name
      ++ ((b'(' ∷ decimal suffix) ++ (b')' ∷ []));
}

-- The next name, `none` where the client gives up.
unfoldable pub next_name : ℕ → Client → Option Client
next_name suffix c = elim (make_space suffix c) [
  | none ↦ none
  | some d ↦ some (write_suffix suffix d)
]
