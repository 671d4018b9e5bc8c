-- ===== src/Base64/RoundTrip.antt =====
-- The decoder of source/util/base64.c on what the encoder writes.
use sys_autopilot.Base.{
  ℕ, ◌+◌, ◌*◌, ◌/◌, ◌%◌, ◌^◌, ◌≤◌, ◌<◌, ◌≡◌, refl, ap, ◌∙◌, Bool, true, false, none, some, [], ◌∷◌,
  bit_or, length, All, arith, ◌==◌,
}
use sys_autopilot.Base.Bits.{bit_or_fields, bit_and_63, bit_and_255, bit_and_three, bit_and_fifteen}
use sys_autopilot.Base.Tables.{all_below, all_below→at}
use sys_autopilot.Base.Text.{Bytes, IsByte}
use sys_autopilot.Base64.{
  B64Decoder, b64dec_init, symbol, b64_val, b64_encode, take_char, take_symbol, behind, update_loop,
  b64dec_update, b64dec_finish, b64_decode, b64_encoded_len,
}
use sys_autopilot.Base64.Stream.{update_loop_next, update_going}

-- A character that stands for `v`, and is neither a line break nor padding.
abbrev stands_for : ℕ → ℕ → Bool
stands_for c v = (elim (b64_val c) as (λ _. Bool) [ none ↦ false | some w ↦ w == v ])

symbol_table : all_below 64 (λ v. stands_for (symbol v) v) ≡ true
unfolding all_below symbol b64_val
symbol_table = refl

b64_val-stands : (c v : ℕ) → stands_for c v ≡ true → b64_val c ≡ some v
b64_val-stands c v h = ground arith

-- A decoder between the characters of an unpadded text.
abbrev at : ℕ → ℕ → ℕ → B64Decoder
at acc bits quad = record { acc = acc; bits = bits; quad = quad; pad = 0; err = false }

abbrev shift_in : ℕ → ℕ → ℕ
shift_in acc v = acc * 64 % 2 ^ 32 + v

shift_in_lem : (acc v : ℕ) → v < 64 → bit_or (acc * 2 ^ 6 % 2 ^ 32) v ≡ shift_in acc v
shift_in_lem acc v h =
    omega
      (arith, bit_or_fields 6 (acc * 2 ^ 6 % 2 ^ 32 / 64) v h, ap (λ (t : ℕ). bit_or t v) multiple)
  where
    multiple : acc * 2 ^ 6 % 2 ^ 32 ≡ acc * 2 ^ 6 % 2 ^ 32 / 64 * 2 ^ 6
    multiple = omega arith

module _ (acc v : ℕ) (fits : v < 64) where
  value : b64_val (symbol v) ≡ some v
  value = b64_val-stands _ v (all_below→at 64 _ v symbol_table fits)

  symbol_taken : (d : B64Decoder) → d.pad ≡ 0 → take_char d (symbol v) ≡ some (take_symbol d v)
  unfolding take_char b64_val
  symbol_taken d p = ground (arith, value)

  stepped :
      (bits quad : ℕ) {r : B64Decoder × Bytes}
      → take_symbol (at acc bits quad) v ≡ r
      → take_char (at acc bits quad) (symbol v) ≡ some r
  stepped bits quad e = symbol_taken (at acc bits quad) refl ∙ ap some e

  first_symbol : take_char (at acc 0 0) (symbol v) ≡ some (at (shift_in acc v) 6 1, [])
  first_symbol = stepped 0 0 (unfold take_symbol in ground (arith, shift_in_lem acc v fits))

  second_symbol :
      take_char (at acc 6 1) (symbol v)
      ≡ some (at (shift_in acc v) 4 2, shift_in acc v / 16 % 256 ∷ [])
  second_symbol = stepped 6 1 (
      unfold take_symbol in
      ground (arith, shift_in_lem acc v fits, bit_and_255 (shift_in acc v / 16)))

  third_symbol :
      take_char (at acc 4 2) (symbol v)
      ≡ some (at (shift_in acc v) 2 3, shift_in acc v / 4 % 256 ∷ [])
  third_symbol = stepped 4 2 (
      unfold take_symbol in
      ground (arith, shift_in_lem acc v fits, bit_and_255 (shift_in acc v / 4)))

  fourth_symbol :
      take_char (at acc 2 3) (symbol v) ≡ some (at (shift_in acc v) 0 0, shift_in acc v % 256 ∷ [])
  fourth_symbol =
      stepped 2 3 (
        unfold take_symbol in ground (arith, shift_in_lem acc v fits, bit_and_255 (shift_in acc v)))

symbol_low : (v : ℕ) → symbol v ≡ symbol (v % 64)
unfolding symbol
symbol_low v = rw (bit_and_63 v) (rw (bit_and_63 (v % 64)) (rw same))
  where
    same : v % 64 % 64 ≡ v % 64
    same = omega arith

step :
    (d : B64Decoder) (v : ℕ) (cs : Bytes) {d' : B64Decoder} {out : Bytes}
    → take_char d (symbol (v % 64)) ≡ some (d', out)
    → update_loop d (symbol v ∷ cs) ≡ behind out (update_loop d' cs)
step d v cs e = update_loop_next d (symbol v) cs (ap (take_char d) (symbol_low v) ∙ e)

-- What the decoder holds after `v` has been shifted in.
abbrev next : ℕ → ℕ → ℕ
next acc v = shift_in acc (v % 64)

two_symbols :
    (acc x y : ℕ) (cs : Bytes)
    → update_loop (at acc 0 0) (symbol x ∷ symbol y ∷ cs)
      ≡ behind [] (
          behind
            (next (next acc x) y / 16 % 256 ∷ [])
            (update_loop (at (next (next acc x) y) 4 2) cs))
two_symbols acc x y cs =
    step (at acc 0 0) x (symbol y ∷ cs) (first_symbol acc (x % 64) (omega arith))
    ∙ ap (behind [])
        (step (at (next acc x) 6 1) y cs (second_symbol (next acc x) (y % 64) (omega arith)))

three_symbols :
    (acc x y z : ℕ) (cs : Bytes)
    → update_loop (at acc 0 0) (symbol x ∷ symbol y ∷ symbol z ∷ cs)
      ≡ behind [] (
          behind (next (next acc x) y / 16 % 256 ∷ []) (
            behind
              (next (next (next acc x) y) z / 4 % 256 ∷ [])
              (update_loop (at (next (next (next acc x) y) z) 2 3) cs)))
three_symbols acc x y z cs =
    two_symbols acc x y (symbol z ∷ cs)
    ∙ ap (λ r. behind [] (behind (next (next acc x) y / 16 % 256 ∷ []) r))
        (step (at (next (next acc x) y) 4 2) z cs
          (third_symbol (next (next acc x) y) (z % 64) (omega arith)))

four_symbols :
    (acc x y z w : ℕ) (cs : Bytes)
    → update_loop (at acc 0 0) (symbol x ∷ symbol y ∷ symbol z ∷ symbol w ∷ cs)
      ≡ behind [] (
          behind (next (next acc x) y / 16 % 256 ∷ []) (
            behind (next (next (next acc x) y) z / 4 % 256 ∷ []) (
              behind
                (next (next (next (next acc x) y) z) w % 256 ∷ [])
                (update_loop (at (next (next (next (next acc x) y) z) w) 0 0) cs))))
four_symbols acc x y z w cs =
    three_symbols acc x y z (symbol w ∷ cs)
    ∙ ap
        (λ r. behind [] (
          behind (next (next acc x) y / 16 % 256 ∷ [])
            (behind (next (next (next acc x) y) z / 4 % 256 ∷ []) r)))
        (step (at (next (next (next acc x) y) z) 2 3) w cs
          (fourth_symbol (next (next (next acc x) y) z) (w % 64) (omega arith)))

-- The three bytes of a full group.
group_value :
    (a b c : ℕ)
    → b < 256
    → c < 256
    → bit_or (bit_or (a * 2 ^ 16) (b * 2 ^ 8)) c ≡ a * 65536 + b * 256 + c
group_value a b c hb hc = omega (
  arith,
  bit_or_fields 16 a (b * 2 ^ 8) (omega arith),
  ap (λ (t : ℕ). bit_or t c) (bit_or_fields 16 a (b * 2 ^ 8) (omega arith) ∙ shifted),
  bit_or_fields 8 (a * 256 + b) c hc,
)
  where
    shifted : a * 2 ^ 16 + b * 2 ^ 8 ≡ (a * 256 + b) * 2 ^ 8
    shifted = omega arith

-- `Reads acc out d cs`: from an empty group the decoder takes `cs`, gives `out`, and ends
-- in a state that `b64dec_finish` accepts.
abbrev Reads : ℕ → Bytes → Bytes → Type 0
Reads acc cs out =
    (d : B64Decoder) × (update_loop (at acc 0 0) cs ≡ (d, some out)) × (b64dec_finish d ≡ true)

full_group :
    (acc a b c : ℕ) (v : ℕ) (cs out : Bytes)
    → a < 256
    → b < 256
    → c < 256
    → v ≡ a * 65536 + b * 256 + c
    → ((acc' : ℕ) → Reads acc' cs out)
    → Reads acc
        (symbol (v / 2 ^ 18) ∷ symbol (v / 2 ^ 12) ∷ symbol (v / 2 ^ 6) ∷ symbol v ∷ cs)
        (a ∷ b ∷ c ∷ out)
full_group acc a b c v cs out ha hb hc e later =
    let x = next acc (v / 2 ^ 18) in
    let y = next x (v / 2 ^ 12) in
    let z = next y (v / 2 ^ 6) in
    let w = next z v in
    let (d, run, fin) = later w in
    let first : y / 16 % 256 ≡ a = omega arith in
    let second : z / 4 % 256 ≡ b = omega arith in
    let third : w % 256 ≡ c = omega arith in
    (
      d,
      four_symbols acc (v / 2 ^ 18) (v / 2 ^ 12) (v / 2 ^ 6) v cs
          ∙ rw run (rw first (rw second (rw third))),
      fin,
    )

one_byte_tail :
    (acc y : ℕ)
    → y % 16 ≡ 0
    → (d : B64Decoder) × (update_loop (at y 4 2) (b'=' ∷ b'=' ∷ []) ≡ (d, some []))
      × (b64dec_finish d ≡ true)
unfolding update_loop take_char b64dec_finish
one_byte_tail acc y e = (
  record { acc = y; bits = 4; quad = 2; pad = 2; err = false },
  refl,
  ground (arith, bit_and_fifteen y),
)

two_byte_tail :
    (acc y : ℕ)
    → y % 4 ≡ 0
    → (d : B64Decoder) × (update_loop (at y 2 3) (b'=' ∷ []) ≡ (d, some []))
      × (b64dec_finish d ≡ true)
unfolding update_loop take_char b64dec_finish
two_byte_tail acc y e = (
  record { acc = y; bits = 2; quad = 3; pad = 1; err = false },
  refl,
  ground (arith, bit_and_three y),
)

Reads-b64_encode : (bs : Bytes) (acc : ℕ) → All IsByte bs → Reads acc (b64_encode bs) bs
Reads-b64_encode [] acc h =
    (at acc 0 0, unfold b64_encode update_loop in refl, unfold b64dec_finish in refl)
Reads-b64_encode (a ∷ []) acc (ha, _) =
    let v = a * 2 ^ 16 in
    let y = next (next acc (v / 2 ^ 18)) (v / 2 ^ 12) in
    let (d, run, fin) = one_byte_tail acc y (omega arith) in
    let first : y / 16 % 256 ≡ a = omega arith in
    (d, unfold b64_encode in two_symbols acc (v / 2 ^ 18) (v / 2 ^ 12) _ ∙ rw run (rw first), fin)
Reads-b64_encode (a ∷ b ∷ []) acc (ha, (hb, _)) =
    let v = bit_or (a * 2 ^ 16) (b * 2 ^ 8) in
    let y = next (next acc (v / 2 ^ 18)) (v / 2 ^ 12) in
    let z = next y (v / 2 ^ 6) in
    let whole : v ≡ a * 65536 + b * 256 = bit_or_fields 16 a (b * 2 ^ 8) (omega arith) in
    let (d, run, fin) = two_byte_tail acc z (omega arith) in
    let first : y / 16 % 256 ≡ a = omega arith in
    let second : z / 4 % 256 ≡ b = omega arith in
    (
      d,
      unfold b64_encode in
          three_symbols acc (v / 2 ^ 18) (v / 2 ^ 12) (v / 2 ^ 6) _ ∙ rw run (rw first (rw second)),
      fin,
    )
Reads-b64_encode (a ∷ b ∷ c ∷ bs) acc (ha, (hb, (hc, hs))) = opened (
    full_group acc a b c (bit_or (bit_or (a * 2 ^ 16) (b * 2 ^ 8)) c) (b64_encode bs) bs ha hb hc
      (group_value a b c hb hc) (λ acc'. Reads-b64_encode bs acc' hs))
  where
    opened :
        (let v = bit_or (bit_or (a * 2 ^ 16) (b * 2 ^ 8)) c in
          Reads acc
            (symbol (v / 2 ^ 18)
              ∷ symbol (v / 2 ^ 12)
              ∷ symbol (v / 2 ^ 6)
              ∷ symbol v
              ∷ b64_encode bs)
            (a ∷ b ∷ c ∷ bs))
        → Reads acc (b64_encode (a ∷ b ∷ c ∷ bs)) (a ∷ b ∷ c ∷ bs)
    opened r = unfold b64_encode in r

-- Decoding the encoding of any bytes gives those bytes back, with no error.
pub b64dec_update-b64_encode :
    (bs : Bytes)
    → All IsByte bs
    → ((b64dec_update b64dec_init (b64_encode bs)).1 ≡ some bs)
      × (b64dec_finish (b64dec_update b64dec_init (b64_encode bs)).0 ≡ true)
b64dec_update-b64_encode bs h =
    let (d, run, fin) = Reads-b64_encode bs 0 h in
    rw (update_going b64dec_init (b64_encode bs) refl ∙ run) (refl, fin)

pub length-b64_encode : (bs : Bytes) → length (b64_encode bs) ≡ b64_encoded_len (length bs)
unfolding b64_encode
length-b64_encode [] = refl
length-b64_encode (a ∷ []) = refl
length-b64_encode (a ∷ b ∷ []) = refl
length-b64_encode (a ∷ b ∷ c ∷ bs) = omega (arith, length-b64_encode bs)

-- `b64_decode` of an encoding gives the bytes, in any output buffer that the size check accepts.
pub b64_decode-b64_encode :
    (bs : Bytes) (outsz : ℕ)
    → All IsByte bs
    → (b64_encoded_len (length bs) / 4 + 1) * 3 + 1 ≤ outsz
    → b64_decode (b64_encode bs) outsz ≡ some bs
unfolding b64_decode
b64_decode-b64_encode bs outsz h fits =
    let (run, fin) = b64dec_update-b64_encode bs h in ground (arith, run, fin, length-b64_encode bs)
