-- ===== src/Oauth/Text/Url.antt =====
-- `url_encode_append` and `redirect_uri_ok` of source/features/oauth/oauth.c: what they let into a
-- header.
use sys_autopilot.Base.{
  ℕ, ◌+◌, ◌/◌, ◌%◌, ◌≤◌, ◌<◌, ◌≡◌, ◌⊎◌, ◌∙◌, refl, sym, ap, true, false, ◌&&◌, [], ◌∷◌, ◌++◌,
  append-nil, append_assoc, length, All, All-append, length-append, ltb, ◌==◌, arith, inl, inr,
}
use sys_autopilot.Base.Bits.{bit_and_fifteen}
use sys_autopilot.Base.Tables.{all_below, all_below→at}
use sys_autopilot.Base.Text.{Bytes, IsByte}
use sys_autopilot.Json.Escape.{hex_value}
use sys_autopilot.Http.Params.{is_xdigit, two_digits, url_decode}
use sys_autopilot.Http.Params.Decode.{encoded_by, percent_by, url_decode-encoded_by}
use sys_autopilot.Oauth.Text.{upper_hex, url_char, url_encode_append, uri_chars_ok, redirect_uri_ok}

-- No blank, no line break, no other byte up to 0x20.
abbrev pub IsVisible : ℕ → Type 0
IsVisible c = 32 < c

abbrev pub url_encoded : Bytes → Bytes
url_encoded cs = encoded_by upper_hex cs

upper_table :
    all_below 256 (λ c.
      is_xdigit (upper_hex (c / 16))
      && is_xdigit (upper_hex (c % 16))
      && two_digits (upper_hex (c / 16)) (upper_hex (c % 16)) == c)
    ≡ true
unfolding all_below hex_value
upper_table = refl

visible_table :
    all_below 256 (λ c. ltb 32 (upper_hex (c / 16)) && ltb 32 (upper_hex (c % 16))) ≡ true
unfolding all_below
visible_table = refl

url_char-percent_by : (c : ℕ) → url_char c ≡ percent_by upper_hex c
unfolding url_char
url_char-percent_by c = rw (bit_and_fifteen c) refl

url_char-IsVisible : (c : ℕ) → c < 256 → All IsVisible (url_char c)
unfolding url_char
url_char-IsVisible c h =
    let table = all_below→at 256 _ c visible_table h in
    rw (bit_and_fifteen c) (ground (arith, table))

-- What one more character does.
url_append_step :
    (cap : ℕ) (buf : Bytes) (c : ℕ) (src : Bytes)
    → (url_encode_append cap buf (c ∷ src) ≡ (buf, false))
      ⊎ ((length buf + 4 ≤ cap)
          × (url_encode_append cap buf (c ∷ src) ≡ url_encode_append cap (buf ++ url_char c) src))
unfolding url_encode_append
url_append_step cap buf c src = ground arith

length-url_char : (c : ℕ) → length (url_char c) ≤ 3
unfolding url_char
length-url_char c = ground arith

-- The buffer keeps room for its NUL, whether the text fits or not, and holds visible characters only
-- if it did before.
pub url_encode_append-IsVisible :
    (cap : ℕ) (buf src : Bytes)
    → All IsByte src
    → All IsVisible buf
    → length buf < cap
    → All IsVisible (url_encode_append cap buf src).0
      × (length (url_encode_append cap buf src).0 < cap)
url_encode_append-IsVisible cap buf [] a v h = unfold url_encode_append in (v, h)
url_encode_append-IsVisible cap buf (c ∷ src) a v h = elim (url_append_step cap buf c src) [
  | inl e ↦ rw e ((v, h))
  | inr (room, e) ↦ rw e (
      url_encode_append-IsVisible cap (buf ++ url_char c) src a.1
        (All-append IsVisible buf (url_char c) v (url_char-IsVisible c a.0))
        (omega (arith, room, length-append buf (url_char c), length-url_char c)))
]

url_encode_append-text :
    (cap : ℕ) (buf src : Bytes)
    → (url_encode_append cap buf src).1 ≡ true
    → (url_encode_append cap buf src).0 ≡ buf ++ url_encoded src
url_encode_append-text cap buf [] t = unfold url_encode_append in sym (append-nil buf)
url_encode_append-text cap buf (c ∷ src) t = elim (url_append_step cap buf c src) [
  | inl e ↦ absurd (ground (arith, rw e at t))
  | inr (room, e) ↦ rw e (
      url_encode_append-text cap (buf ++ url_char c) src (rw e at t)
      ∙ append_assoc buf (url_char c) (url_encoded src)
      ∙ ap (λ (s : Bytes). buf ++ (s ++ url_encoded src)) (url_char-percent_by c))
]

-- When `url_encode_append` succeeds, what it has put behind the buffer's text is decoded by
-- `url_decode` to the value that was encoded.
pub url_decode-url_encode_append :
    (cap outsz : ℕ) (buf src : Bytes)
    → All IsByte src
    → length src < outsz
    → (url_encode_append cap buf src).1 ≡ true
    → (added : Bytes) × ((url_encode_append cap buf src).0 ≡ buf ++ added)
      × (url_decode added outsz ≡ src)
url_decode-url_encode_append cap outsz buf src a h t = (
  url_encoded src,
  url_encode_append-text cap buf src t,
  url_decode-encoded_by upper_hex (λ c lt. all_below→at 256 _ c upper_table lt) src outsz a h,
)

uri_chars_ok-IsVisible : (uri : Bytes) → uri_chars_ok uri ≡ true → All IsVisible uri
unfolding uri_chars_ok
uri_chars_ok-IsVisible [] h = tt
uri_chars_ok-IsVisible (c ∷ uri) h =
    (ground (arith, h), uri_chars_ok-IsVisible uri (ground (arith, h)))

pub redirect_uri_ok-IsVisible : (uri : Bytes) → redirect_uri_ok uri ≡ true → All IsVisible uri
unfolding redirect_uri_ok
redirect_uri_ok-IsVisible uri h = uri_chars_ok-IsVisible uri (ground (arith, h))
