-- ===== src/Http/Params/Decode.antt =====
-- `url_decode` of source/core/http.c: its bounds, and percent-encoded texts.
use sys_autopilot.Base.{
  ℕ, zero, suc, ◌+◌, ◌/◌, ◌%◌, ◌≤◌, ◌<◌, ◌≡◌, refl, ap, ◌∙◌, Bool, true, ◌&&◌, ◌||◌, [], ◌∷◌, ◌++◌,
  length, length-append, All, arith, lt→ltb, Bool-cases, inl, inr, ◌==◌, if◌then◌else◌,
}
use sys_autopilot.Base.Tables.{all_below, all_below→at}
use sys_autopilot.Base.Text.{Bytes, IsByte, is_upper, is_lower, is_digit}
use sys_autopilot.Json.Escape.{hex_digit, hex_value}
use sys_autopilot.Http.Params.{is_xdigit, two_digits, decode_char, url_decode_loop, url_decode}

decode_char_shorter : (c : ℕ) (src : Bytes) → length (decode_char c src).1 ≤ length src
unfolding decode_char
decode_char_shorter c (a ∷ b ∷ rest) = ground arith
decode_char_shorter c (a ∷ []) = omega arith
decode_char_shorter c [] = omega arith

-- The output never grows past the input, so decoding in place never writes ahead of its reading.
length-url_decode_loop :
    (fuel : ℕ) (src : Bytes) (o outsz : ℕ)
    → (length (url_decode_loop fuel src o outsz) ≤ length src)
      × (o < outsz → o + length (url_decode_loop fuel src o outsz) < outsz)
unfolding url_decode_loop
length-url_decode_loop fuel [] o outsz = (omega arith, λ h. omega arith)
length-url_decode_loop zero (c ∷ src) o outsz = (omega arith, λ h. omega arith)
length-url_decode_loop (suc fuel) (c ∷ src) o outsz =
    let (short, fits) = length-url_decode_loop fuel (decode_char c src).1 (o + 1) outsz in
    ground (arith, short, fits, decode_char_shorter c src)

-- A decoded text and its NUL fit any buffer that is not empty, and it is no longer than its source,
-- so the in-place decoding of the request path is safe.
pub length-url_decode :
    (src : Bytes) (outsz : ℕ)
    → 0 < outsz
    → (length (url_decode src outsz) ≤ length src) × (length (url_decode src outsz) < outsz)
unfolding url_decode
length-url_decode src outsz h =
    let (short, fits) = length-url_decode_loop (length src) src 0 outsz in
    (short, omega (arith, fits h))

-- RFC 3986: unreserved characters stand for themselves, any other byte is escaped.
abbrev pub is_unreserved : ℕ → Bool
is_unreserved c =
    is_upper c || is_lower c || is_digit c || c == b'-' || c == b'.' || c == b'_' || c == b'~'

escape_table :
    all_below 256 (λ c.
      is_xdigit (hex_digit (c / 16))
      && is_xdigit (hex_digit (c % 16))
      && two_digits (hex_digit (c / 16)) (hex_digit (c % 16)) == c)
    ≡ true
unfolding all_below hex_digit hex_value
escape_table = refl

decode_char-plain : (c : ℕ) (rest : Bytes) → is_unreserved c ≡ true → decode_char c rest ≡ (c, rest)
unfolding decode_char
decode_char-plain c (a ∷ b ∷ rest) h = ground (arith, h)
decode_char-plain c (a ∷ []) h = ground (arith, h)
decode_char-plain c [] h = ground (arith, h)

-- What an escape stands for, by the digits behind the '%'.
abbrev Escapes : ℕ → ℕ → ℕ → Type 0
Escapes x y c = (is_xdigit x && is_xdigit y && two_digits x y == c) ≡ true

decode_char-escape :
    (x y c : ℕ) (rest : Bytes) → Escapes x y c → decode_char b'%' (x ∷ y ∷ rest) ≡ (c, rest)
unfolding decode_char
decode_char-escape x y c rest h = ground (arith, h)

-- Percent-encoding with the digits `digit` of a byte's two halves.
abbrev pub percent_by : (ℕ → ℕ) → ℕ → Bytes
percent_by digit c = if is_unreserved c then c ∷ [] else b'%' ∷ digit (c / 16) ∷ digit (c % 16) ∷ []

abbrev pub encoded_by : (ℕ → ℕ) → Bytes → Bytes
encoded_by digit [] = []
encoded_by digit (c ∷ cs) = percent_by digit c ++ encoded_by digit cs

module _ (digit : ℕ → ℕ)
    (good : (c : ℕ) → c < 256 → Escapes (digit (c / 16)) (digit (c % 16)) c) where
  -- One round on the escaped form of `c`.
  loop-percent :
      (fuel c : ℕ) (rest : Bytes) (o outsz : ℕ)
      → c < 256
      → o + 1 < outsz
      → url_decode_loop (suc fuel) (percent_by digit c ++ rest) o outsz
        ≡ c ∷ url_decode_loop fuel rest (o + 1) outsz
  unfolding url_decode_loop
  loop-percent fuel c rest o outsz h room = elim (Bool-cases (is_unreserved c)) [
    | inl plain ↦ rw plain (rw (decode_char-plain c rest plain) (rw (lt→ltb _ _ room)))
    | inr other ↦ rw other (rw (decode_char-escape _ _ c rest (good c h)) (rw (lt→ltb _ _ room)))
  ]

  length-le-encoded_by : (cs : Bytes) → length cs ≤ length (encoded_by digit cs)
  length-le-encoded_by [] = omega arith
  length-le-encoded_by (c ∷ cs) =
      ground
        (arith, length-append (percent_by digit c) (encoded_by digit cs), length-le-encoded_by cs)

  loop-encoded_by :
      (cs : Bytes) (fuel o outsz : ℕ)
      → All IsByte cs
      → length cs ≤ fuel
      → o + length cs < outsz
      → url_decode_loop fuel (encoded_by digit cs) o outsz ≡ cs
  loop-encoded_by [] fuel o outsz h k room = unfold url_decode_loop in refl
  loop-encoded_by (c ∷ cs) zero o outsz h k room = absurd (omega arith)
  loop-encoded_by (c ∷ cs) (suc fuel) o outsz h k room =
      loop-percent fuel c (encoded_by digit cs) o outsz h.0 (omega arith)
      ∙ ap (◌∷◌ c) (loop-encoded_by cs fuel (o + 1) outsz h.1 (omega arith) (omega arith))

  pub url_decode-encoded_by :
      (cs : Bytes) (outsz : ℕ)
      → All IsByte cs
      → length cs < outsz
      → url_decode (encoded_by digit cs) outsz ≡ cs
  unfolding url_decode
  url_decode-encoded_by cs outsz h room =
      loop-encoded_by cs _ 0 outsz h (length-le-encoded_by cs) (omega arith)

abbrev pub percent : ℕ → Bytes
percent c = percent_by hex_digit c

abbrev pub percent_encoded : Bytes → Bytes
percent_encoded cs = encoded_by hex_digit cs

-- `url_decode` inverts percent-encoding of any bytes, given room for them and the NUL.
pub url_decode-percent_encoded :
    (cs : Bytes) (outsz : ℕ)
    → All IsByte cs
    → length cs < outsz
    → url_decode (percent_encoded cs) outsz ≡ cs
url_decode-percent_encoded cs outsz h room =
    url_decode-encoded_by hex_digit (λ c lt. all_below→at 256 _ c escape_table lt) cs outsz h room
