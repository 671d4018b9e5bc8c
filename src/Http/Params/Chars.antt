-- ===== src/Http/Params/Chars.antt =====
-- What `http_param_get` of source/core/http.c leaves of bytes: bytes, and read as a C string characters.
use sys_autopilot.Base.{
  ℕ, zero, suc, ◌+◌, ◌≡◌, ◌&&◌, Option, none, some, [], ◌∷◌, length, drop, get_or, All, ltb, ◌==◌,
  if◌then◌else◌, arith, if_both, Bool-cases, Option-cases, inl, inr, subst,
}
use sys_autopilot.Base.Text.{Bytes, IsByte, IsChar, c_str, starts_with}
use sys_autopilot.Json.Escape.{hex_value}
use sys_autopilot.Http.Params.{
  is_xdigit, two_digits, decode_char, url_decode_loop, url_decode, split_amp, param_loop,
  http_param_get,
}

pub c_str-IsChar : (s : Bytes) → All IsByte s → All IsChar (c_str s)
c_str-IsChar [] a = tt
c_str-IsChar (c ∷ s) a = elim (Bool-cases (c == 0)) [
  | inl nul ↦ rw nul tt
  | inr other ↦ rw other ((ground (arith, other, a.0), c_str-IsChar s a.1))
]

drop-All : (n : ℕ) (s : Bytes) → All IsByte s → All IsByte (drop n s)
drop-All zero s a = a
drop-All (suc n) [] a = tt
drop-All (suc n) (c ∷ s) a = drop-All n s a.1

two_digits-IsByte : (a b : ℕ) → IsByte (two_digits a b)
unfolding hex_value
two_digits-IsByte a b = ground arith

abbrev AreBytes : ℕ × Bytes → Type 0
AreBytes r = IsByte r.0 × All IsByte r.1

decode_char-IsByte :
    (c : ℕ) (s : Bytes)
    → IsByte c
    → All IsByte s
    → IsByte (decode_char c s).0 × All IsByte (decode_char c s).1
unfolding decode_char
decode_char-IsByte c [] h a = (ground (arith, h), tt)
decode_char-IsByte c (d ∷ []) h a = (ground (arith, h), a)
decode_char-IsByte c (d ∷ e ∷ s) h a =
    if_both AreBytes (c == b'+') {x = (b' ', d ∷ e ∷ s)} (omega arith, a)
      (if_both AreBytes (c == b'%' && is_xdigit d && is_xdigit e) {x = (two_digits d e, s)}
        {y = (c, d ∷ e ∷ s)} (two_digits-IsByte d e, a.1.1) (h, a))

url_decode_loop-IsByte :
    (fuel : ℕ) (s : Bytes) (o outsz : ℕ)
    → All IsByte s
    → All IsByte (url_decode_loop fuel s o outsz)
unfolding url_decode_loop
url_decode_loop-IsByte fuel [] o outsz a = tt
url_decode_loop-IsByte zero (c ∷ s) o outsz a = tt
url_decode_loop-IsByte (suc fuel) (c ∷ s) o outsz a =
    let (first, rest) = decode_char-IsByte c s a.0 a.1 in
    if_both (All IsByte) (ltb (o + 1) outsz)
      (first, url_decode_loop-IsByte fuel (decode_char c s).1 (o + 1) outsz rest) tt

url_decode-IsByte : (s : Bytes) (outsz : ℕ) → All IsByte s → All IsByte (url_decode s outsz)
unfolding url_decode
url_decode-IsByte s outsz a = url_decode_loop-IsByte (length s) s 0 outsz a

abbrev AllSome : Option Bytes → Type 0
AllSome none = Unit
AllSome (some s) = All IsByte s

split_amp-IsByte : (s : Bytes) → All IsByte s → All IsByte (split_amp s).0 × AllSome (split_amp s).1
unfolding split_amp
split_amp-IsByte [] a = (tt, tt)
split_amp-IsByte (c ∷ s) a =
    let (pair, rest) = split_amp-IsByte s a.1 in
    if_both (λ (r : Bytes × Option Bytes). All IsByte r.0 × AllSome r.1) (c == b'&') (tt, a.1)
      ((a.0, pair), rest)

param_loop-IsByte :
    (fuel : ℕ) (p key : Bytes) (outsz : ℕ) → All IsByte p → AllSome (param_loop fuel p key outsz)
param_loop-IsByte fuel [] key outsz a = unfold param_loop in tt
param_loop-IsByte zero (c ∷ p) key outsz a = unfold param_loop in tt
param_loop-IsByte (suc fuel) (c ∷ p) key outsz a = elim (Option-cases (split_amp (c ∷ p)).1) [
  | inl e ↦ last e
  | inr (rest, e) ↦
      between rest e
        (param_loop-IsByte fuel rest key outsz (subst AllSome e (split_amp-IsByte (c ∷ p) a).1))
]
  where
    chosen :
        (more : Option Bytes)
        → AllSome more
        → AllSome (
            if ltb (length key) (length (split_amp (c ∷ p)).0)
              && starts_with (c ∷ p) key
              && get_or (c ∷ p) (length key) 0 == b'='
            then some (url_decode (drop (length key + 1) (split_amp (c ∷ p)).0) outsz)
            else if length (split_amp (c ∷ p)).0 == length key && starts_with (c ∷ p) key
            then some []
            else more)
    chosen more m =
        let pair = (split_amp (c ∷ p)).0 in
        let matches = starts_with (c ∷ p) key in
        let value : All IsByte (url_decode (drop (length key + 1) pair) outsz) =
          url_decode-IsByte (drop (length key + 1) pair) outsz
            (drop-All (length key + 1) pair (split_amp-IsByte (c ∷ p) a).0) in
        if_both AllSome
          (ltb (length key) (length pair) && matches && get_or (c ∷ p) (length key) 0 == b'=')
          {x = some (url_decode (drop (length key + 1) pair) outsz)} value
          (if_both AllSome (length pair == length key && matches) {x = some []} {y = more} tt m)

    last : (split_amp (c ∷ p)).1 ≡ none → AllSome (param_loop (suc fuel) (c ∷ p) key outsz)
    last e = unfold param_loop in rw e (chosen none tt)

    between :
        (rest : Bytes)
        → (split_amp (c ∷ p)).1 ≡ some rest
        → AllSome (param_loop fuel rest key outsz)
        → AllSome (param_loop (suc fuel) (c ∷ p) key outsz)
    between rest e m = unfold param_loop in rw e (chosen (param_loop fuel rest key outsz) m)

pub http_param_get-IsByte :
    (params key : Bytes) (outsz : ℕ) (value : Bytes)
    → All IsByte params
    → http_param_get params key outsz ≡ some value
    → All IsByte value
unfolding http_param_get
http_param_get-IsByte params key outsz value a e =
    subst AllSome e (param_loop-IsByte (length params) params key outsz a)
