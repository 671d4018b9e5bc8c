-- ===== src/Http/Auth.antt =====
-- `http_secure_streq`, `http_check_basic_auth` and `http_get_bearer` of source/core/http.c. A C
-- string is the list of its characters; `auth` is the Authorization header, "" if absent.
pub mod Equality
pub mod Credentials
use sys_autopilot.Base.{
  ℕ, ◌+◌, ◌%◌, bit_or, bit_xor, Bool, true, false, not, ◌&&◌, ◌||◌, Option, none, some, List, [],
  ◌∷◌, ◌++◌, length, drop, ltb, leb, ◌==◌, if◌then◌else◌,
}
use sys_autopilot.Base.Text.{Bytes, codes, c_str, case_starts_with}
use sys_autopilot.Base64.{b64_decode}

-- The loop: a string that has ended gives zeros.
unfoldable pub diff_loop : ℕ → Bytes → Bytes → ℕ
diff_loop diff [] [] = diff
diff_loop diff (a ∷ as') [] = diff_loop (bit_or diff (bit_xor a 0 % 256)) as' []
diff_loop diff [] (b ∷ bs) = diff_loop (bit_or diff (bit_xor 0 b % 256)) [] bs
diff_loop diff (a ∷ as') (b ∷ bs) = diff_loop (bit_or diff (bit_xor a b % 256)) as' bs

-- The lengths' difference is cut to a byte too.
unfoldable pub http_secure_streq : Bytes → Bytes → Bool
http_secure_streq a b = diff_loop (bit_xor (length a) (length b) % 256) a b == 0

-- snprintf("%s:%s") into `expected`.
abbrev pub credentials : Bytes → Bytes → Bytes
credentials user pass = user ++ (b':' ∷ pass)

-- A decoded text of no bytes is refused with the failures; the comparison reads up to a NUL.
unfoldable pub check_decoded : Option Bytes → Bytes → Bytes → Bool
check_decoded none user pass = false
check_decoded (some []) user pass = false
check_decoded (some (c ∷ cs)) user pass =
    if leb 200 (length (credentials user pass))
    then false
    else http_secure_streq (c_str (c ∷ cs)) (credentials user pass)

unfoldable pub http_check_basic_auth : Bytes → Bytes → Bytes → Bool
http_check_basic_auth auth user pass =
    if not (case_starts_with auth (codes "Basic "))
    then false
    else check_decoded (b64_decode (drop 6 auth) 200) user pass

unfoldable pub skip_spaces : Bytes → Bytes
skip_spaces [] = []
skip_spaces (c ∷ cs) = if c == b' ' then skip_spaces cs else c ∷ cs

-- The token, if it and its terminator fit `outsz`.
unfoldable pub http_get_bearer : Bytes → ℕ → Option Bytes
http_get_bearer auth outsz =
    let v = skip_spaces (drop 7 auth) in
    if not (case_starts_with auth (codes "Bearer "))
    then none
    else if length v == 0 || ltb outsz (length v + 1)
    then none
    else some v
