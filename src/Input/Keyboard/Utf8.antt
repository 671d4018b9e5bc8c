-- ===== src/Input/Keyboard/Utf8.antt =====
-- The bit layout of UTF-8, and that source/features/input/keyboard.c decodes it. The layout alone does
-- not exclude a form that is longer than it must be, a surrogate, or a value past U+10FFFF.
use sys_autopilot.Base.{
  ℕ, zero, suc, ◌+◌, ◌-◌, ◌*◌, ◌^◌, ◌≤◌, ◌<◌, ◌≡◌, ◌⊎◌, bit_and, bit_or, refl, sym, ap, ◌∙◌, true,
  false, not, ◌&&◌, Option, none, some, [], ◌∷◌, length, ltb, leb, ◌==◌, if◌then◌else◌, All, arith,
  Bool-cases, inl, inr, subst,
}
use sys_autopilot.Base.Bits.{bit_and_63, bit_or_fields}
use sys_autopilot.Base.Tables.{all_below, all_below→at}
use sys_autopilot.Base.Text.{Bytes, IsByte}
use sys_autopilot.Input.Keyboard.{sequence_length, continuation, keyboard_next_codepoint}

-- The first byte of a character, the number of bytes behind it, and the bits of its own: 0xxxxxxx,
-- 110xxxxx, 1110xxxx and 11110xxx.
pub data Lead : ℕ → ℕ → ℕ → Type 0 where
  one : {c : ℕ} → c < 128 → Lead c 0 c
  two : {c : ℕ} → 192 ≤ c → c < 224 → Lead c 1 (c - 192)
  three : {c : ℕ} → 224 ≤ c → c < 240 → Lead c 2 (c - 224)
  four : {c : ℕ} → 240 ≤ c → c < 248 → Lead c 3 (c - 240)

-- The bytes 10xxxxxx behind it, the bits up to there and in all, and the text left.
pub data Tails : ℕ → ℕ → Bytes → ℕ → Bytes → Type 0 where
  done : {v : ℕ} {p : Bytes} → Tails zero v p v p
  more :
      {n v b cp : ℕ} {p rest : Bytes}
      → 128 ≤ b
      → b < 192
      → Tails n (v * 64 + (b - 128)) p cp rest
      → Tails (suc n) v (b ∷ p) cp rest

-- The text starts with the character `cp`, and `rest` is left.
pub data Reads : Bytes → ℕ → Bytes → Type 0 where
  reads : {c n v cp : ℕ} {p rest : Bytes} → Lead c n v → Tails n v p cp rest → Reads (c ∷ p) cp rest

tail_table :
    all_below 256
      (λ b. if bit_and b 0xC0 == 0x80 then leb 128 b && ltb b 192 else not (leb 128 b && ltb b 192))
    ≡ true
unfolding all_below
tail_table = refl

tail-good : (b : ℕ) → 128 ≤ b → b < 192 → (bit_and b 0xC0 == 0x80) ≡ true
tail-good b low high = ground (arith, all_below→at 256 _ b tail_table (omega (arith, high)))

tail-bounds : (b : ℕ) → IsByte b → (bit_and b 0xC0 == 0x80) ≡ true → (128 ≤ b) × (b < 192)
tail-bounds b h e =
    let at_b = all_below→at 256 _ b tail_table h in
    (ground (arith, at_b, e), ground (arith, at_b, e))

lead_table :
    all_below 256 (λ c.
      if ltb c 128
      then sequence_length c == 1
      else if ltb c 192
      then sequence_length c == 0
      else if ltb c 224
      then sequence_length c == 2 && bit_and c 31 == c - 192
      else if ltb c 240
      then sequence_length c == 3 && bit_and c 15 == c - 224
      else if ltb c 248
      then sequence_length c == 4 && bit_and c 7 == c - 240
      else sequence_length c == 0)
    ≡ true
unfolding all_below sequence_length
lead_table = refl

next-Lead :
    (c n v : ℕ) (p : Bytes) → Lead c n v → keyboard_next_codepoint (c ∷ p) ≡ continuation n v p
unfolding keyboard_next_codepoint
next-Lead c n v p (Lead.one h) =
    let at_c = all_below→at 256 _ c lead_table (omega (arith, h)) in
    let len : sequence_length c ≡ 1 = ground (arith, at_c, h) in rw len refl
next-Lead c n v p (Lead.two low high) =
    let at_c = all_below→at 256 _ c lead_table (omega (arith, high)) in
    let len : sequence_length c ≡ 2 = ground (arith, at_c, low, high) in
    let bits : bit_and c 31 ≡ c - 192 = ground (arith, at_c, low, high) in
    rw len (ap (λ (t : ℕ). continuation 1 t p) bits)
next-Lead c n v p (Lead.three low high) =
    let at_c = all_below→at 256 _ c lead_table (omega (arith, high)) in
    let len : sequence_length c ≡ 3 = ground (arith, at_c, low, high) in
    let bits : bit_and c 15 ≡ c - 224 = ground (arith, at_c, low, high) in
    rw len (ap (λ (t : ℕ). continuation 2 t p) bits)
next-Lead c n v p (Lead.four low high) =
    let at_c = all_below→at 256 _ c lead_table (omega (arith, high)) in
    let len : sequence_length c ≡ 4 = ground (arith, at_c, low, high) in
    let bits : bit_and c 7 ≡ c - 240 = ground (arith, at_c, low, high) in
    rw len (ap (λ (t : ℕ). continuation 3 t p) bits)

Lead-cases : (c : ℕ) → IsByte c → ((n : ℕ) × (v : ℕ) × Lead c n v) ⊎ (sequence_length c ≡ 0)
Lead-cases c h =
    let at_c = all_below→at 256 _ c lead_table h in
    elim (Bool-cases (ltb c 128)) [
      | inl b1 ↦ inl (0, c, Lead.one (ground (arith, b1)))
      | inr b1 ↦ elim (Bool-cases (ltb c 192)) [
        | inl b2 ↦ inr (ground (arith, at_c, b1, b2))
        | inr b2 ↦ elim (Bool-cases (ltb c 224)) [
          | inl b3 ↦ inl (1, c - 192, Lead.two (ground (arith, b2)) (ground (arith, b3)))
          | inr b3 ↦ elim (Bool-cases (ltb c 240)) [
            | inl b4 ↦ inl (2, c - 224, Lead.three (ground (arith, b3)) (ground (arith, b4)))
            | inr b4 ↦ elim (Bool-cases (ltb c 248)) [
              | inl b5 ↦ inl (3, c - 240, Lead.four (ground (arith, b4)) (ground (arith, b5)))
              | inr b5 ↦ inr (ground (arith, at_c, b1, b2, b3, b4, b5))
            ]
          ]
        ]
      ]
    ]

next-nil : keyboard_next_codepoint [] ≡ none
unfolding keyboard_next_codepoint
next-nil = refl

next-none : (c : ℕ) (p : Bytes) → sequence_length c ≡ 0 → keyboard_next_codepoint (c ∷ p) ≡ none
unfolding keyboard_next_codepoint
next-none c p e = rw e refl

module _ (n v b : ℕ) (p : Bytes) where
  continuation-more :
      128 ≤ b → b < 192 → continuation (suc n) v (b ∷ p) ≡ continuation n (v * 64 + (b - 128)) p
  unfolding continuation
  continuation-more low high = rw (tail-good b low high) (ap (λ (t : ℕ). continuation n t p) bits)
    where
      bits : bit_or (v * 2 ^ 6) (bit_and b 0x3F) ≡ v * 64 + (b - 128)
      bits = omega (
        arith,
        bit_and_63 b,
        low,
        high,
        bit_or_fields 6 v (bit_and b 0x3F) (omega (arith, bit_and_63 b)),
      )

  continuation-bad : (bit_and b 0xC0 == 0x80) ≡ false → continuation (suc n) v (b ∷ p) ≡ none
  unfolding continuation
  continuation-bad h = rw h refl

continuation-nil : (n v : ℕ) → continuation (suc n) v [] ≡ none
unfolding continuation
continuation-nil n v = refl

continuation-Tails :
    {n v cp : ℕ} {p rest : Bytes} → Tails n v p cp rest → continuation n v p ≡ some (cp, rest)
continuation-Tails Tails.done = unfold continuation in refl
continuation-Tails (Tails.more {n} {v} {b} {cp} {p} {rest} low high t) =
    continuation-more n v b p low high ∙ continuation-Tails t

abbrev IsRead : ℕ → ℕ → Bytes → Option (ℕ × Bytes) → Type 0
IsRead n v p none = Unit
IsRead n v p (some (cp, rest)) = Tails n v p cp rest × All IsByte rest

longer :
    (n v b : ℕ) (p : Bytes) (o : Option (ℕ × Bytes))
    → 128 ≤ b
    → b < 192
    → IsRead n (v * 64 + (b - 128)) p o
    → IsRead (suc n) v (b ∷ p) o
longer n v b p none low high t = tt
longer n v b p (some (cp, rest)) low high t = (Tails.more low high t.0, t.1)

continuation-IsRead : (n v : ℕ) (p : Bytes) → All IsByte p → IsRead n v p (continuation n v p)
continuation-IsRead zero v p a = unfold continuation in (Tails.done, a)
continuation-IsRead (suc n) v [] a = subst (IsRead (suc n) v []) (sym (continuation-nil n v)) tt
continuation-IsRead (suc n) v (b ∷ p) a = elim (Bool-cases (bit_and b 0xC0 == 0x80)) [
  | inl good ↦
      let (low, high) = tail-bounds b a.0 good in
      subst (IsRead (suc n) v (b ∷ p)) (sym (continuation-more n v b p low high))
        (longer n v b p _ low high (continuation-IsRead n (v * 64 + (b - 128)) p a.1))
  | inr bad ↦ subst (IsRead (suc n) v (b ∷ p)) (sym (continuation-bad n v b p bad)) tt
]

pub Reads-next :
    {text rest : Bytes} {cp : ℕ}
    → Reads text cp rest
    → keyboard_next_codepoint text ≡ some (cp, rest)
Reads-next (Reads.reads {c} {n} {v} {cp} {p} {rest} lead tails) =
    next-Lead c n v p lead ∙ continuation-Tails tails

Tails-shorter : {n v cp : ℕ} {p rest : Bytes} → Tails n v p cp rest → length rest ≤ length p
Tails-shorter Tails.done = omega arith
Tails-shorter (Tails.more low high t) = omega (arith, Tails-shorter t)

pub Reads-shorter :
    {text rest : Bytes} {cp : ℕ} → Reads text cp rest → length rest + 1 ≤ length text
Reads-shorter (Reads.reads lead tails) = omega (arith, Tails-shorter tails)

-- What `keyboard_next_codepoint` gives of bytes is a character of that layout, and bytes are left.
pub next-Reads :
    (text : Bytes) (cp : ℕ) (rest : Bytes)
    → All IsByte text
    → keyboard_next_codepoint text ≡ some (cp, rest)
    → Reads text cp rest × All IsByte rest
next-Reads [] cp rest a e = absurd (ground (arith, sym next-nil ∙ e))
next-Reads (c ∷ p) cp rest a e = elim (Lead-cases c a.0) [
  | inr bad ↦ absurd (ground (arith, sym (next-none c p bad) ∙ e))
  | inl (n, v, lead) ↦
      let t : IsRead n v p (some (cp, rest)) =
        subst (IsRead n v p) (sym (next-Lead c n v p lead) ∙ e) (continuation-IsRead n v p a.1) in
      (Reads.reads lead t.0, t.1)
]
