-- ===== src/Base64/UrlSafe.antt =====
-- `b64url_encode` of source/util/base64.c: its alphabet and its length.
use sys_autopilot.Base.{
  ℕ, ◌+◌, ◌*◌, ◌/◌, ◌%◌, ◌≡◌, refl, Bool, true, not, ◌&&◌, ◌||◌, [], ◌∷◌, length, All, arith, ◌==◌,
  if◌then◌else◌,
}
use sys_autopilot.Base.Bits.{bit_and_63}
use sys_autopilot.Base.Tables.{all_below, all_below→at}
use sys_autopilot.Base.Text.{Bytes, is_upper, is_lower, is_digit}
use sys_autopilot.Base64.{symbol, b64_encode, url_safe, b64url_encode}

-- The alphabet of RFC 4648, section 5, without padding.
abbrev pub is_url_safe : ℕ → Bool
is_url_safe c = is_upper c || is_lower c || is_digit c || c == b'-' || c == b'_'

abbrev translated : ℕ → ℕ
translated c = if c == b'+' then b'-' else if c == b'/' then b'_' else c

symbol_table :
    all_below 64 (λ v. is_url_safe (translated (symbol v)) && not (symbol v == b'=')) ≡ true
unfolding all_below symbol
symbol_table = refl

symbol_low : (v : ℕ) → symbol (v % 64) ≡ symbol v
unfolding symbol
symbol_low v = rw (bit_and_63 v) (rw (bit_and_63 (v % 64)) (rw same))
  where
    same : v % 64 % 64 ≡ v % 64
    same = omega arith

symbol-safe : (v : ℕ) → (is_url_safe (translated (symbol v)) && not (symbol v == b'=')) ≡ true
symbol-safe v = rw (symbol_low v) at (all_below→at 64 _ (v % 64) symbol_table (omega arith))

url_safe-symbol :
    (v : ℕ) (cs : Bytes)
    → (url_safe (symbol v ∷ cs) ≡ translated (symbol v) ∷ url_safe cs)
      × (is_url_safe (translated (symbol v)) ≡ true)
unfolding url_safe
url_safe-symbol v cs = ground (arith, symbol-safe v)

-- `n` characters of that alphabet.
abbrev pub UrlSafe : Bytes → ℕ → Type 0
UrlSafe cs n = All (λ c. is_url_safe c ≡ true) cs × (length cs ≡ n)

-- A symbol in front, and the padding at the end.
UrlSafe-symbol :
    (v n : ℕ) (cs : Bytes) → UrlSafe (url_safe cs) n → UrlSafe (url_safe (symbol v ∷ cs)) (n + 1)
UrlSafe-symbol v n cs (safe, len) =
    let (e, s) = url_safe-symbol v cs in rw e ((s, safe), omega (arith, len))

UrlSafe-pad : (cs : Bytes) → UrlSafe (url_safe (b'=' ∷ cs)) 0
unfolding url_safe
UrlSafe-pad cs = (tt, refl)

UrlSafe-b64_encode : (bs : Bytes) → UrlSafe (url_safe (b64_encode bs)) ((8 * length bs + 5) / 6)
unfolding b64_encode
UrlSafe-b64_encode [] = unfold url_safe in (tt, refl)
UrlSafe-b64_encode (a ∷ []) = UrlSafe-symbol _ 1 _ (UrlSafe-symbol _ 0 _ (UrlSafe-pad (b'=' ∷ [])))
UrlSafe-b64_encode (a ∷ b ∷ []) =
    UrlSafe-symbol _ 2 _ (UrlSafe-symbol _ 1 _ (UrlSafe-symbol _ 0 _ (UrlSafe-pad [])))
UrlSafe-b64_encode (a ∷ b ∷ c ∷ bs) =
    let n = (8 * length bs + 5) / 6 in
    let e : n + 1 + 1 + 1 + 1 ≡ (8 * length (a ∷ b ∷ c ∷ bs) + 5) / 6 = omega arith in
    rw (← e) (
      UrlSafe-symbol _ (n + 1 + 1 + 1) _ (
        UrlSafe-symbol _ (n + 1 + 1) _
          (UrlSafe-symbol _ (n + 1) _ (UrlSafe-symbol _ n _ (UrlSafe-b64_encode bs)))))

-- `b64url_encode` writes a letter, a digit, `-` or `_` each time, never padding, and as many of
-- them as six bits each hold the input, rounded up.
pub b64url_encode-UrlSafe : (bs : Bytes) → UrlSafe (b64url_encode bs) ((8 * length bs + 5) / 6)
unfolding b64url_encode
b64url_encode-UrlSafe bs = UrlSafe-b64_encode bs
