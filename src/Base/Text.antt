-- ===== src/Base/Text.antt =====
-- C strings as lists of bytes, without the NUL that ends them: the parts of <string.h>,
-- <strings.h> and <ctype.h> that the program calls, in the C locale.
use Prim.Native.Nat.{ℕ, ◌+◌, ◌<◌}
use Prim.Native.Char.{code}
use Prim.Native.String.{String}
use mathlib.Core.Path.{◌≡◌, refl}
use mathlib.Core.Logic.{◌↔◌}
use mathlib.Core.Bool.{Bool, true, false, ◌&&◌, ◌||◌}
use mathlib.Core.List.{List, [], ◌∷◌, ◌++◌, map}
use native.Mathlib.Omega.{arith}
use sys_autopilot.Base.Tests.{leb, ◌==◌, if◌then◌else◌}

abbrev pub Bytes : Type 0
Bytes = List ℕ

-- The code points of a text; every literal of the development is ASCII.
abbrev pub codes : String → Bytes
codes String.[] = []
codes (String.◌∷◌ c s) = code c ∷ codes s

abbrev pub IsByte : ℕ → Type 0
IsByte b = b < 256

-- What a C string holds: any byte but NUL.
abbrev pub IsChar : ℕ → Type 0
IsChar b = (0 < b) × (b < 256)

-- What a C string function sees of a buffer: up to the first NUL.
abbrev pub c_str : Bytes → Bytes
c_str [] = []
c_str (c ∷ cs) = if c == 0 then [] else c ∷ c_str cs

-- strcmp(a, b) == 0
abbrev pub streq : Bytes → Bytes → Bool
streq [] [] = true
streq [] (b ∷ bs) = false
streq (a ∷ xs) [] = false
streq (a ∷ xs) (b ∷ ys) = (a == b) && streq xs ys

-- strncmp(s, p, strlen(p)) == 0
abbrev pub starts_with : Bytes → Bytes → Bool
starts_with s [] = true
starts_with [] (p ∷ ps) = false
starts_with (c ∷ s) (p ∷ ps) = (c == p) && starts_with s ps

abbrev pub is_upper : ℕ → Bool
is_upper c = leb b'A' c && leb c b'Z'

abbrev pub is_lower : ℕ → Bool
is_lower c = leb b'a' c && leb c b'z'

abbrev pub is_digit : ℕ → Bool
is_digit c = leb b'0' c && leb c b'9'

-- tolower
abbrev pub to_lower : ℕ → ℕ
to_lower c = if is_upper c then c + 32 else c

-- strcasecmp(a, b) == 0
abbrev pub strcase_eq : Bytes → Bytes → Bool
strcase_eq a b = streq (map to_lower a) (map to_lower b)

-- strncasecmp(s, p, strlen(p)) == 0
abbrev pub case_starts_with : Bytes → Bytes → Bool
case_starts_with s p = starts_with (map to_lower s) (map to_lower p)

-- isspace
abbrev pub is_space : ℕ → Bool
is_space c = (c == 32) || (leb 9 c && leb c 13)

pub streq_iff : (a b : Bytes) → (streq a b ≡ true) ↔ (a ≡ b)
streq_iff [] [] = ground arith
streq_iff [] (b ∷ bs) = ground arith
streq_iff (a ∷ xs) [] = ground arith
streq_iff (a ∷ xs) (b ∷ ys) = ground (arith, streq_iff xs ys)

pub streq_refl : (a : Bytes) → streq a a ≡ true
streq_refl a = (streq_iff a a).1 refl

pub starts_with_append : (p t : Bytes) → starts_with (p ++ t) p ≡ true
starts_with_append [] t = refl
starts_with_append (c ∷ p) t = ground (arith, starts_with_append p t)
