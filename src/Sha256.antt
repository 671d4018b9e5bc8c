-- ===== src/Sha256.antt =====
-- source/util/sha256.c, the portable implementation, and source/util/hex.c. A `uint32_t` is a number
-- with `% 2 ^ 32` where it can wrap; `block` is the first `datalen` bytes of the field `data`.
pub mod Stream
use sys_autopilot.Base.{
  ℕ, zero, suc, ◌+◌, ◌-◌, ◌*◌, ◌/◌, ◌%◌, ◌^◌, bit_and, bit_or, bit_xor, Bool, true, false, List, [],
  ◌∷◌, ◌++◌, length, take, drop, get_or, replicate, ltb, leb, ◌==◌, if◌then◌else◌,
}
use sys_autopilot.Base.Text.{Bytes, codes}

pub record Sha256Ctx : Type 0 where
  pub state : List ℕ
  pub bitlen : ℕ
  pub block : Bytes

abbrev pub k_table : List ℕ
k_table =
    0x428a2f98 ∷ 0x71374491 ∷ 0xb5c0fbcf ∷ 0xe9b5dba5 ∷ 0x3956c25b ∷ 0x59f111f1 ∷ 0x923f82a4
    ∷ 0xab1c5ed5 ∷ 0xd807aa98 ∷ 0x12835b01 ∷ 0x243185be ∷ 0x550c7dc3 ∷ 0x72be5d74 ∷ 0x80deb1fe
    ∷ 0x9bdc06a7 ∷ 0xc19bf174 ∷ 0xe49b69c1 ∷ 0xefbe4786 ∷ 0x0fc19dc6 ∷ 0x240ca1cc ∷ 0x2de92c6f
    ∷ 0x4a7484aa ∷ 0x5cb0a9dc ∷ 0x76f988da ∷ 0x983e5152 ∷ 0xa831c66d ∷ 0xb00327c8 ∷ 0xbf597fc7
    ∷ 0xc6e00bf3 ∷ 0xd5a79147 ∷ 0x06ca6351 ∷ 0x14292967 ∷ 0x27b70a85 ∷ 0x2e1b2138 ∷ 0x4d2c6dfc
    ∷ 0x53380d13 ∷ 0x650a7354 ∷ 0x766a0abb ∷ 0x81c2c92e ∷ 0x92722c85 ∷ 0xa2bfe8a1 ∷ 0xa81a664b
    ∷ 0xc24b8b70 ∷ 0xc76c51a3 ∷ 0xd192e819 ∷ 0xd6990624 ∷ 0xf40e3585 ∷ 0x106aa070 ∷ 0x19a4c116
    ∷ 0x1e376c08 ∷ 0x2748774c ∷ 0x34b0bcb5 ∷ 0x391c0cb3 ∷ 0x4ed8aa4a ∷ 0x5b9cca4f ∷ 0x682e6ff3
    ∷ 0x748f82ee ∷ 0x78a5636f ∷ 0x84c87814 ∷ 0x8cc70208 ∷ 0x90befffa ∷ 0xa4506ceb ∷ 0xbef9a3f7
    ∷ 0xc67178f2 ∷ []

-- ROTR(x, n)
abbrev pub rotr : ℕ → ℕ → ℕ
rotr x n = bit_or (x / 2 ^ n) (x * 2 ^ (32 - n) % 2 ^ 32)

abbrev pub rotr3 : ℕ → ℕ → ℕ → ℕ → ℕ
rotr3 x a b c = bit_xor (bit_xor (rotr x a) (rotr x b)) (rotr x c)

-- A big-endian word at each four bytes.
unfoldable pub words : Bytes → List ℕ
words (a ∷ b ∷ c ∷ d ∷ rest) =
    bit_or (bit_or (bit_or (a * 2 ^ 24) (b * 2 ^ 16)) (c * 2 ^ 8)) d ∷ words rest
words rest = []

-- m[16], m[17] and so on, `n` of them, behind those that there are.
unfoldable pub schedule : ℕ → List ℕ → List ℕ
schedule zero m = m
schedule (suc n) m =
    let i = length m in
    let w15 = get_or m (i - 15) 0 in
    let w2 = get_or m (i - 2) 0 in
    let s0 = bit_xor (bit_xor (rotr w15 7) (rotr w15 18)) (w15 / 2 ^ 3) in
    let s1 = bit_xor (bit_xor (rotr w2 17) (rotr w2 19)) (w2 / 2 ^ 10) in
    let next = (get_or m (i - 16) 0 + s0 + get_or m (i - 7) 0 + s1) % 2 ^ 32 in
    schedule n (m ++ (next ∷ []))

-- The eight working variables, a to h.
pub record Vars : Type 0 where
  pub a : ℕ
  pub b : ℕ
  pub c : ℕ
  pub d : ℕ
  pub e : ℕ
  pub f : ℕ
  pub g : ℕ
  pub h : ℕ

-- One round, with K[i] and m[i].
unfoldable pub round : Vars → ℕ → ℕ → Vars
round v k m =
    let ch = bit_xor (bit_and v.e v.f) (bit_and (2 ^ 32 - 1 - v.e) v.g) in
    let t1 = (v.h + rotr3 v.e 6 11 25 + ch + k + m) % 2 ^ 32 in
    let maj = bit_xor (bit_xor (bit_and v.a v.b) (bit_and v.a v.c)) (bit_and v.b v.c) in
    let t2 = (rotr3 v.a 2 13 22 + maj) % 2 ^ 32 in
    record {
      a = (t1 + t2) % 2 ^ 32;
      b = v.a;
      c = v.b;
      d = v.c;
      e = (v.d + t1) % 2 ^ 32;
      f = v.e;
      g = v.f;
      h = v.g;
    }

unfoldable pub rounds : Vars → List ℕ → List ℕ → Vars
rounds v [] ms = v
rounds v (k ∷ ks) [] = v
rounds v (k ∷ ks) (m ∷ ms) = rounds (round v k m) ks ms

unfoldable pub vars_of : List ℕ → Vars
vars_of s = record {
  a = get_or s 0 0;
  b = get_or s 1 0;
  c = get_or s 2 0;
  d = get_or s 3 0;
  e = get_or s 4 0;
  f = get_or s 5 0;
  g = get_or s 6 0;
  h = get_or s 7 0;
}

-- The state after a block.
unfoldable pub transform : List ℕ → Bytes → List ℕ
transform s block =
    let v = vars_of s in
    let w = rounds v k_table (schedule 48 (words block)) in
    (v.a + w.a) % 2 ^ 32
    ∷ (v.b + w.b) % 2 ^ 32
    ∷ (v.c + w.c) % 2 ^ 32
    ∷ (v.d + w.d) % 2 ^ 32
    ∷ (v.e + w.e) % 2 ^ 32
    ∷ (v.f + w.f) % 2 ^ 32
    ∷ (v.g + w.g) % 2 ^ 32
    ∷ (v.h + w.h) % 2 ^ 32
    ∷ []

unfoldable pub ctx_init : Sha256Ctx
ctx_init = record {
  state =
      0x6a09e667 ∷ 0xbb67ae85 ∷ 0x3c6ef372 ∷ 0xa54ff53a ∷ 0x510e527f ∷ 0x9b05688c ∷ 0x1f83d9ab
      ∷ 0x5be0cd19 ∷ [];
  bitlen = 0;
  block = [];
}

-- One byte of the loop.
unfoldable pub ctx_byte : Sha256Ctx → ℕ → Sha256Ctx
ctx_byte ctx p =
    let block = ctx.block ++ (p ∷ []) in
    if length block == 64
    then record {
      state = transform ctx.state block;
      bitlen = (ctx.bitlen + 512) % 2 ^ 64;
      block = [];
    }
    else record ctx { block = block }

unfoldable pub ctx_update : Sha256Ctx → Bytes → Sha256Ctx
ctx_update ctx [] = ctx
ctx_update ctx (p ∷ ps) = ctx_update (ctx_byte ctx p) ps

-- The eight bytes of the length, the high one first.
unfoldable pub length_bytes : ℕ → ℕ → Bytes
length_bytes zero bits = []
length_bytes (suc j) bits = bits / 2 ^ (j * 8) % 256 ∷ length_bytes j bits

-- The state after the padding.
unfoldable pub ctx_pad : Sha256Ctx → List ℕ
ctx_pad ctx =
    let bits = (ctx.bitlen + length ctx.block * 8) % 2 ^ 64 in
    let marked = ctx.block ++ (0x80 ∷ []) in
    if ltb 56 (length marked)
    then transform (transform ctx.state (marked ++ replicate (64 - length marked) 0))
        (replicate 56 0 ++ length_bytes 8 bits)
    else transform ctx.state (marked ++ replicate (56 - length marked) 0 ++ length_bytes 8 bits)

unfoldable pub state_bytes : List ℕ → Bytes
state_bytes [] = []
state_bytes (w ∷ ws) =
    w / 2 ^ 24 % 256 ∷ w / 2 ^ 16 % 256 ∷ w / 2 ^ 8 % 256 ∷ w % 256 ∷ state_bytes ws

unfoldable pub ctx_final : Sha256Ctx → Bytes
ctx_final ctx = state_bytes (ctx_pad ctx)

unfoldable pub sha256_hash : Bytes → Bytes
sha256_hash block = ctx_final (ctx_update ctx_init block)

abbrev pub hex_char : ℕ → ℕ
hex_char d = get_or (codes "0123456789abcdef") d 0

unfoldable pub hex_encode : Bytes → Bytes
hex_encode [] = []
hex_encode (b ∷ bs) = hex_char (b / 2 ^ 4) ∷ hex_char (bit_and b 15) ∷ hex_encode bs
