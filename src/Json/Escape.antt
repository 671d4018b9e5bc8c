-- ===== src/Json/Escape.antt =====
-- `escape_char`, `json_escaped_len`, `json_escape`, and the unescaping loop of `json_get_string`
-- in source/util/json.c. `none` is (size_t)-1 or false; a `size_t` stays below the buffer sizes.
pub mod RoundTrip
pub mod Size
use sys_autopilot.Base.{
  ℕ, zero, suc, ◌+◌, ◌-◌, ◌*◌, ◌/◌, ◌%◌, ◌^◌, bit_and, bit_or, Bool, true, false, not, ◌&&◌, ◌||◌,
  Option, none, some, List, [], ◌∷◌, ◌++◌, length, ltb, leb, ◌==◌, if◌then◌else◌, get_or,
}
use sys_autopilot.Base.Text.{Bytes, codes, is_space, is_digit}
use mathlib.Core.Option

-- The digits of %x.
unfoldable pub hex_digit : ℕ → ℕ
hex_digit d = get_or (codes "0123456789abcdef") d 0

-- What one byte becomes.
unfoldable pub escape_char : ℕ → Bytes
unfolding hex_digit
escape_char c =
    if c == b'"'
    then b'\\' ∷ b'"' ∷ []
    else if c == b'\\'
    then b'\\' ∷ b'\\' ∷ []
    else if c == 10
    then b'\\' ∷ b'n' ∷ []
    else if c == 9
    then b'\\' ∷ b't' ∷ []
    else if c == 13
    then b'\\' ∷ b'r' ∷ []
    else if c == 8
    then b'\\' ∷ b'b' ∷ []
    else if c == 12
    then b'\\' ∷ b'f' ∷ []
    else if ltb c 0x20
    then b'\\' ∷ b'u' ∷ b'0' ∷ b'0' ∷ hex_digit (c / 16) ∷ hex_digit (c % 16) ∷ []
    else c ∷ []

unfoldable pub json_escaped_len : Bytes → ℕ
json_escaped_len [] = 0
json_escaped_len (c ∷ cs) = length (escape_char c) + json_escaped_len cs

-- `o` bytes are written; the result is what the rest adds, without the terminator.
unfoldable pub escape_loop : Bytes → ℕ → ℕ → Option Bytes
escape_loop [] o outsz = some []
escape_loop (c ∷ cs) o outsz =
    let piece = escape_char c in
    let rest = escape_loop cs (o + length piece) outsz in
    if ltb outsz (o + length piece + 1) then none else Option.map (λ more. piece ++ more) rest

unfoldable pub json_escape : Bytes → ℕ → Option Bytes
json_escape cs outsz = escape_loop cs 0 outsz

-- The value of a hexadecimal digit.
unfoldable pub hex_value : ℕ → Option ℕ
hex_value c =
    if is_digit c
    then some (c - b'0')
    else if leb b'a' c && leb c b'f'
    then some (c - b'a' + 10)
    else if leb b'A' c && leb c b'F'
    then some (c - b'A' + 10)
    else none

unfoldable pub hex_digits : ℕ → Bytes → ℕ
hex_digits acc [] = acc
hex_digits acc (c ∷ cs) = elim (hex_value c) [ none ↦ acc | some d ↦ hex_digits (acc * 16 + d) cs ]

-- strtoul(…, 16) behind white space and a sign: an optional 0x, then digits.
unfoldable pub hex_prefixed : Bytes → ℕ
hex_prefixed (z ∷ x ∷ d ∷ cs) =
    let digit = (elim (hex_value d) as (λ _. Bool) [ none ↦ false | some _ ↦ true ]) in
    if z == b'0' && (x == b'x' || x == b'X') && digit
    then hex_digits 0 (d ∷ cs)
    else hex_digits 0 (z ∷ x ∷ d ∷ cs)
hex_prefixed cs = hex_digits 0 cs

unfoldable pub strtoul16 : Bytes → ℕ
strtoul16 [] = 0
strtoul16 (c ∷ cs) =
    if is_space c
    then strtoul16 cs
    else if c == b'-'
    then (2 ^ 64 - hex_prefixed cs) % 2 ^ 64
    else if c == b'+'
    then hex_prefixed cs
    else hex_prefixed (c ∷ cs)

-- The UTF-8 form of a code point of the Basic Multilingual Plane; a surrogate gives '?'.
unfoldable pub utf8 : ℕ → Bytes
utf8 cp =
    if ltb cp 0x80
    then cp ∷ []
    else if ltb cp 0x800
    then bit_or 0xc0 (cp / 2 ^ 6) % 256 ∷ bit_or 0x80 (bit_and cp 0x3f) ∷ []
    else if leb 0xd800 cp && leb cp 0xdfff
    then b'?' ∷ []
    else bit_or 0xe0 (cp / 2 ^ 12) % 256
      ∷ bit_or 0x80 (bit_and (cp / 2 ^ 6) 0x3f)
      ∷ bit_or 0x80 (bit_and cp 0x3f)
      ∷ []

-- The character behind a backslash, but for `u`.
unfoldable pub simple_escape : ℕ → Option ℕ
simple_escape c =
    if c == b'"'
    then some b'"'
    else if c == b'\\'
    then some b'\\'
    else if c == b'/'
    then some b'/'
    else if c == b'n'
    then some 10
    else if c == b't'
    then some 9
    else if c == b'r'
    then some 13
    else if c == b'b'
    then some 8
    else if c == b'f'
    then some 12
    else none

-- \uXXXX, from behind the `u`. `(unsigned)` cuts the value to 32 bits.
unfoldable pub unicode_escape : Bytes → Option (Bytes × Bytes)
unicode_escape (a ∷ b ∷ c ∷ d ∷ cs) = some (utf8 (strtoul16 (a ∷ b ∷ c ∷ d ∷ []) % 2 ^ 32), cs)
unicode_escape _ = none

-- The switch: what stands behind a backslash, and the text after it.
unfoldable pub escape_sequence : Bytes → Option (Bytes × Bytes)
unfolding simple_escape
escape_sequence [] = none
escape_sequence (c ∷ cs) =
    if c == b'u'
    then unicode_escape cs
    else elim (simple_escape c) [ none ↦ none | some v ↦ some (v ∷ [], cs) ]

-- What one round of the loop writes, and the text after it.
unfoldable pub next_piece : ℕ → Bytes → Option (Bytes × Bytes)
next_piece c cs = if not (c == b'\\') then some (c ∷ [], cs) else escape_sequence cs

-- The loop over the token's text, `o` bytes written so far. Each round takes a byte at least, so
-- the length of the text is fuel enough (`unescape_loop-fuel` in Json/Escape/Size).
unfoldable pub unescape_loop : ℕ → Bytes → ℕ → ℕ → Option Bytes
unescape_loop fuel [] o outsz = some []
unescape_loop zero (c ∷ cs) o outsz = none
unescape_loop (suc fuel) (c ∷ cs) o outsz =
    if leb outsz (o + 4) then none else elim (next_piece c cs) [
      | none ↦ none
      | some (piece, rest) ↦
          Option.map (λ more. piece ++ more) (unescape_loop fuel rest (o + length piece) outsz)
    ]

unfoldable pub unescape : Bytes → ℕ → Option Bytes
unescape cs outsz = unescape_loop (length cs) cs 0 outsz
