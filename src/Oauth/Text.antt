-- ===== src/Oauth/Text.antt =====
-- The bounded text builders of source/features/oauth/oauth.c. A buffer is the text written to it;
-- each operation gives the buffer and whether all of it fitted.
pub mod Safety
pub mod Url
use sys_autopilot.Base.{
  ℕ, ◌+◌, ◌/◌, ◌^◌, bit_and, Bool, true, false, not, ◌&&◌, ◌||◌, [], ◌∷◌, ◌++◌, length, get_or, ltb,
  leb, ◌==◌, if◌then◌else◌,
}
use sys_autopilot.Base.Text.{Bytes, codes, starts_with}
use sys_autopilot.Http.Params.Decode.{is_unreserved}

-- `rep` for a character.
unfoldable pub html_char : ℕ → Bytes
html_char c =
    if c == b'&'
    then codes "&amp;"
    else if c == b'<'
    then codes "&lt;"
    else if c == b'>'
    then codes "&gt;"
    else if c == b'"'
    then codes "&quot;"
    else if c == 39
    then codes "&#39;"
    else c ∷ []

unfoldable pub html_escape_append : ℕ → Bytes → Bytes → Bytes × Bool
html_escape_append cap buf [] = (buf, true)
html_escape_append cap buf (c ∷ src) =
    let rest = html_escape_append cap (buf ++ html_char c) src in
    if ltb cap (length buf + length (html_char c) + 1) then (buf, false) else rest

abbrev pub upper_hex : ℕ → ℕ
upper_hex d = get_or (codes "0123456789ABCDEF") d 0

unfoldable pub url_char : ℕ → Bytes
url_char c =
    if is_unreserved c then c ∷ [] else b'%' ∷ upper_hex (c / 2 ^ 4) ∷ upper_hex (bit_and c 15) ∷ []

-- Four more bytes are asked for whatever the character takes.
unfoldable pub url_encode_append : ℕ → Bytes → Bytes → Bytes × Bool
url_encode_append cap buf [] = (buf, true)
url_encode_append cap buf (c ∷ src) =
    let rest = url_encode_append cap (buf ++ url_char c) src in
    if ltb cap (length buf + 4) then (buf, false) else rest

pub record Sb : Type 0 where
  pub cap : ℕ
  pub buf : Bytes
  pub ok : Bool

unfoldable pub sb_puts : Sb → Bytes → Sb
sb_puts sb s =
    if not sb.ok || ltb sb.cap (length sb.buf + length s + 1)
    then record sb { ok = false }
    else record sb { buf = sb.buf ++ s }

unfoldable pub sb_puts_html : Sb → Bytes → Sb
sb_puts_html sb s =
    let (buf, ok) = html_escape_append sb.cap sb.buf s in
    if sb.ok then record sb { buf = buf; ok = ok } else sb

-- strstr(uri, "://") != NULL
unfoldable pub has_scheme : Bytes → Bool
has_scheme [] = false
has_scheme (c ∷ cs) = starts_with (c ∷ cs) (codes "://") || has_scheme cs

unfoldable pub uri_chars_ok : Bytes → Bool
uri_chars_ok [] = true
uri_chars_ok (c ∷ cs) = not (leb c 0x20 || c == b'"' || c == b'<' || c == b'>') && uri_chars_ok cs

unfoldable pub redirect_uri_ok : Bytes → Bool
redirect_uri_ok uri = if length uri == 0 then false else uri_chars_ok uri && has_scheme uri
