-- ===== src/Base64.antt =====
-- source/util/base64.c and base64.h: the encoder, its URL-safe form, and the streaming decoder.
-- A `uint32_t` is a number with `% 2 ^ 32` where it can wrap; `none` is a return of -1, and for
-- `b64_decode` the return of 0 before the terminator is written.
pub mod RoundTrip
pub mod Stream
pub mod UrlSafe
use sys_autopilot.Base.{
  ℕ, ◌+◌, ◌-◌, ◌*◌, ◌/◌, ◌%◌, ◌^◌, bit_and, bit_or, Bool, true, false, not, ◌&&◌, ◌||◌, Option,
  none, some, List, [], ◌∷◌, ◌++◌, length, get_or, ltb, leb, ◌==◌, if◌then◌else◌,
}
use sys_autopilot.Base.Text.{Bytes, codes, is_upper, is_lower, is_digit}
use mathlib.Core.Option

abbrev pub k_enc : Bytes
k_enc = codes "ABCDEFGHIJKLMNOPQRSTUVWXYZabcdefghijklmnopqrstuvwxyz0123456789+/"

-- kEnc[(v >> k) & 0x3F]
unfoldable pub symbol : ℕ → ℕ
symbol v = get_or k_enc (bit_and v 0x3f) 0

unfoldable pub b64_encode : Bytes → Bytes
b64_encode [] = []
b64_encode (a ∷ []) =
    let v = a * 2 ^ 16 in symbol (v / 2 ^ 18) ∷ symbol (v / 2 ^ 12) ∷ b'=' ∷ b'=' ∷ []
b64_encode (a ∷ b ∷ []) =
    let v = bit_or (a * 2 ^ 16) (b * 2 ^ 8) in
    symbol (v / 2 ^ 18) ∷ symbol (v / 2 ^ 12) ∷ symbol (v / 2 ^ 6) ∷ b'=' ∷ []
b64_encode (a ∷ b ∷ c ∷ rest) =
    let v = bit_or (bit_or (a * 2 ^ 16) (b * 2 ^ 8)) c in
    symbol (v / 2 ^ 18) ∷ symbol (v / 2 ^ 12) ∷ symbol (v / 2 ^ 6) ∷ symbol v ∷ b64_encode rest

abbrev pub b64_encoded_len : ℕ → ℕ
b64_encoded_len n = (n + 2) / 3 * 4

-- The loop of `b64url_encode`: it stops at the padding.
unfoldable pub url_safe : Bytes → Bytes
url_safe [] = []
url_safe (c ∷ cs) =
    if c == b'+'
    then b'-' ∷ url_safe cs
    else if c == b'/'
    then b'_' ∷ url_safe cs
    else if c == b'='
    then []
    else c ∷ url_safe cs

unfoldable pub b64url_encode : Bytes → Bytes
b64url_encode bs = url_safe (b64_encode bs)

unfoldable pub b64_val : ℕ → Option ℕ
b64_val c =
    if is_upper c
    then some (c - b'A')
    else if is_lower c
    then some (c - b'a' + 26)
    else if is_digit c
    then some (c - b'0' + 52)
    else if c == b'+'
    then some 62
    else if c == b'/'
    then some 63
    else none

pub record B64Decoder : Type 0 where
  pub acc : ℕ
  pub bits : ℕ
  pub quad : ℕ
  pub pad : ℕ
  pub err : Bool

abbrev pub b64dec_init : B64Decoder
b64dec_init = record { acc = 0; bits = 0; quad = 0; pad = 0; err = false }

-- A symbol of the alphabet: the state after it and the byte that it completes, if any.
unfoldable pub take_symbol : B64Decoder → ℕ → B64Decoder × Bytes
take_symbol d v =
    let acc = bit_or (d.acc * 2 ^ 6 % 2 ^ 32) v in
    let bits = d.bits + 6 in
    let quad = (d.quad + 1) % 4 in
    if leb 8 bits
    then (
      record d { acc = acc; bits = bits - 8; quad = quad },
      bit_and (acc / 2 ^ (bits - 8)) 0xff ∷ [],
    )
    else (record d { acc = acc; bits = bits; quad = quad }, [])

-- The body of the loop on one character; `none` sets `err` and returns -1.
unfoldable pub take_char : B64Decoder → ℕ → Option (B64Decoder × Bytes)
take_char d c =
    if c == b'\n' || c == b'\r'
    then some (d, [])
    else if c == b'='
    then (if ltb d.quad 2 || leb 4 (d.quad + d.pad)
        then none
        else some (record d { pad = d.pad + 1 }, []))
    else elim (b64_val c) [
      | none ↦ none
      | some v ↦ if ltb 0 d.pad then none else some (take_symbol d v)
    ]

-- The bytes of a later part behind those of an earlier one.
abbrev pub behind : Bytes → B64Decoder × Option Bytes → B64Decoder × Option Bytes
behind out (d, r) = (d, Option.map (λ more. out ++ more) r)

unfoldable pub update_loop : B64Decoder → Bytes → B64Decoder × Option Bytes
update_loop d [] = (d, some [])
update_loop d (c ∷ cs) = elim (take_char d c) [
  | none ↦ (record d { err = true }, none)
  | some (d', out) ↦ behind out (update_loop d' cs)
]

unfoldable pub b64dec_update : B64Decoder → Bytes → B64Decoder × Option Bytes
b64dec_update d cs = if d.err then (d, none) else update_loop d cs

unfoldable pub b64dec_finish : B64Decoder → Bool
b64dec_finish d =
    not d.err
    && not (d.quad == 1 || (ltb 0 d.pad && not (d.quad + d.pad == 4)))
    && not (not (d.bits == 0) && not (bit_and d.acc (2 ^ d.bits - 1) == 0))

-- The result without its terminator.
unfoldable pub b64_decode : Bytes → ℕ → Option Bytes
b64_decode cs outsz =
    if ltb outsz ((length cs / 4 + 1) * 3 + 1)
    then none
    else let (d, r) = b64dec_update b64dec_init cs in if b64dec_finish d then r else none
