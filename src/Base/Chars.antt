-- ===== src/Base/Chars.antt =====
-- Byte strings: the content of a `std::string`, each byte as the number of an `unsigned char`.
-- Comparison, C strings and the character classes of the "C" locale.
use Prim.Native.Char.{code}
use Prim.Native.Nat.{ℕ, ◌+◌}
use Prim.Native.String.{String}
use mathlib.Core.Bool.{Bool, true, false, ◌&&◌, ◌||◌}
use mathlib.Core.List.{List, [], ◌∷◌, map}
use mathlib.Core.Logic.{◌↔◌}
use mathlib.Core.Path.{◌≡◌}
use native.Mathlib.Omega.{arith}
use wfrest.Base.Tests.{◌==◌, leb, if◌then◌else◌}

abbrev pub Bytes : Type 0
Bytes = List ℕ

-- The code points of a text: its bytes, where it is ASCII.
abbrev pub codes : String → Bytes
codes String.[] = []
codes (String.◌∷◌ c s) = code c ∷ codes s

abbrev pub equal : Bytes → Bytes → Bool
equal (c ∷ s) (d ∷ t) = c == d && equal s t
equal [] [] = true
equal _ _ = false

pub equal_iff : (a b : Bytes) → (equal a b ≡ true) ↔ (a ≡ b)
equal_iff (x ∷ a) (y ∷ b) = ground (arith, equal_iff a b)
equal_iff _ _ = ground arith

-- What `c_str()` shows to a reader of C strings: the bytes before the first NUL.
unfoldable pub c_str : Bytes → Bytes
c_str [] = []
c_str (c ∷ s) = if c == 0 then [] else c ∷ c_str s

-- `isspace`.
unfoldable pub is_space : ℕ → Bool
is_space c = c == b' ' || (leb 9 c && leb c 13)

-- `tolower`.
unfoldable pub to_lower : ℕ → ℕ
to_lower c = if leb b'A' c && leb c b'Z' then c + 32 else c

-- `strcasecmp(a, b) == 0`, of the C strings that two byte strings hold.
unfoldable pub equal_nocase : Bytes → Bytes → Bool
unfolding c_str to_lower
equal_nocase a b = equal (map to_lower (c_str a)) (map to_lower (c_str b))
