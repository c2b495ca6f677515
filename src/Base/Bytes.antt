-- ===== src/Base/Bytes.antt =====
-- Buffers of bytes: C strings, `htons`/`ntohs` on two bytes, writes at an offset.
use Prim.Native.Char.{code}
use Prim.Native.String.{String}
use Prim.Native.Nat.{ℕ, ◌+◌, ◌*◌, ◌/◌, ◌%◌, ◌<◌}
use mathlib.Core.Path.{◌≡◌, refl}
use mathlib.Core.List.{List, [], ◌∷◌, ◌++◌}
use native.Mathlib.Omega.{arith}
use csc469_advanced_operatin.Base.Tests.{◌==◌, if◌then◌else◌}
use csc469_advanced_operatin.Base.Lists.{get_or}

-- The bytes of an ASCII literal.
abbrev pub codes : String → List ℕ
codes String.[] = []
codes (String.◌∷◌ c s) = code c ∷ codes s

-- The text that starts at a buffer's first byte: what `strlen`, `strcmp` and `strcpy` read.
abbrev pub c_string : List ℕ → List ℕ
c_string [] = []
c_string (b ∷ bs) = if b == 0 then [] else b ∷ c_string bs

-- No byte of a text is its terminator.
abbrev pub IsText : List ℕ → Type 0
IsText [] = Unit {0}
IsText (b ∷ bs) = (0 < b) × IsText bs

pub c_string-append_zero : (xs ys : List ℕ) → IsText xs → c_string (xs ++ (0 ∷ ys)) ≡ xs
c_string-append_zero [] ys t = refl
c_string-append_zero (x ∷ xs) ys t = ground (arith, c_string-append_zero xs ys t.1)

-- A `u_int16_t` in network byte order.
abbrev pub u16_bytes : ℕ → List ℕ
u16_bytes n = (n / 256 % 256) ∷ (n % 256) ∷ []

abbrev pub u16_at : ℕ → List ℕ → ℕ
u16_at i buf = get_or buf i 0 * 256 + get_or buf (i + 1) 0
