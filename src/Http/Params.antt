-- ===== src/Http/Params.antt =====
-- `url_decode`, `http_param_get` and `http_query_get` of source/core/http.c. A parameter string is
-- the list of its characters without the NUL; a result is what `out` holds before its NUL.
pub mod Decode
pub mod Lookup
pub mod Chars
use sys_autopilot.Base.{
  ℕ, zero, suc, ◌+◌, ◌*◌, ◌-◌, Bool, true, false, not, ◌&&◌, ◌||◌, Option, none, some, List, [],
  ◌∷◌, ◌++◌, length, drop, get_or, ltb, leb, ◌==◌, if◌then◌else◌,
}
use sys_autopilot.Base.Text.{Bytes, starts_with}
use sys_autopilot.Json.Escape.{hex_value}

-- isxdigit
abbrev pub is_xdigit : ℕ → Bool
is_xdigit c = elim (hex_value c) as (λ _. Bool) [ none ↦ false | some _ ↦ true ]

-- strtol(hex, NULL, 16) of two digits.
abbrev pub two_digits : ℕ → ℕ → ℕ
two_digits a b =
    (elim (hex_value a) as (λ _. ℕ) [ none ↦ 0 | some d ↦ d ]) * 16
    + (elim (hex_value b) as (λ _. ℕ) [ none ↦ 0 | some d ↦ d ])

-- What `c` and the text behind it decode to first, and the text left.
unfoldable pub decode_char : ℕ → Bytes → ℕ × Bytes
decode_char c (a ∷ b ∷ rest) =
    if c == b'+'
    then (b' ', a ∷ b ∷ rest)
    else if c == b'%' && is_xdigit a && is_xdigit b
    then (two_digits a b, rest)
    else (c, a ∷ b ∷ rest)
decode_char c rest = (if c == b'+' then b' ' else c, rest)

-- The loop with `o` characters written. Each round reads one at least, so the length is fuel enough.
unfoldable pub url_decode_loop : ℕ → Bytes → ℕ → ℕ → Bytes
url_decode_loop fuel [] o outsz = []
url_decode_loop zero (c ∷ src) o outsz = []
url_decode_loop (suc fuel) (c ∷ src) o outsz =
    let rest = url_decode_loop fuel (decode_char c src).1 (o + 1) outsz in
    if ltb (o + 1) outsz then (decode_char c src).0 ∷ rest else []

unfoldable pub url_decode : Bytes → ℕ → Bytes
url_decode src outsz = url_decode_loop (length src) src 0 outsz

-- The pair at the front, and what follows its '&' if there is one.
unfoldable pub split_amp : Bytes → Bytes × Option Bytes
split_amp [] = ([], none)
split_amp (c ∷ cs) =
    let (pair, rest) = split_amp cs in if c == b'&' then ([], some cs) else (c ∷ pair, rest)

-- The loop over the pairs; `none` is false. Each round but the last drops an '&'.
unfoldable pub param_loop : ℕ → Bytes → Bytes → ℕ → Option Bytes
param_loop fuel [] key outsz = none
param_loop zero (c ∷ p) key outsz = none
param_loop (suc fuel) (c ∷ p) key outsz =
    let (pair, after) = split_amp (c ∷ p) in
    let more = (elim after as (λ _. Option Bytes) [
      | none ↦ none
      | some rest ↦ param_loop fuel rest key outsz
    ]) in
    let matches = starts_with (c ∷ p) key in
    if ltb (length key) (length pair) && matches && get_or (c ∷ p) (length key) 0 == b'='
    then some (url_decode (drop (length key + 1) pair) outsz)
    else if length pair == length key && matches
    then some []
    else more

unfoldable pub http_param_get : Bytes → Bytes → ℕ → Option Bytes
http_param_get params key outsz = param_loop (length params) params key outsz
