-- ===== src/Json/Escape/Size.antt =====
-- source/util/json.c: the sizes of escaped and of unescaped texts.
use sys_autopilot.Base.{
  ℕ, zero, suc, ◌+◌, ◌%◌, ◌^◌, ◌≤◌, ◌<◌, ◌≡◌, refl, ap, sym, ◌∙◌, ◌⊎◌, inl, inr, true, false,
  Option, none, some, [], ◌∷◌, ◌++◌, length, length-append, Option-cases, Bool-cases, arith, ltb,
  leb, if◌then◌else◌,
}
use sys_autopilot.Base.Text.{Bytes}
use sys_autopilot.Json.Escape.{
  escape_char, json_escaped_len, escape_loop, json_escape, utf8, strtoul16, unicode_escape,
  escape_sequence, next_piece, unescape_loop, unescape,
}
use mathlib.Core.Option

-- The escaped text as one list.
abbrev pub escaped : Bytes → Bytes
escaped [] = []
escaped (c ∷ cs) = escape_char c ++ escaped cs

length-escaped : (cs : Bytes) → length (escaped cs) ≡ json_escaped_len cs
unfolding json_escaped_len
length-escaped [] = refl
length-escaped (c ∷ cs) =
    omega (arith, length-append (escape_char c) (escaped cs), length-escaped cs)

escape_loop-fits :
    (cs : Bytes) (o outsz : ℕ)
    → o + json_escaped_len cs + 1 ≤ outsz
    → escape_loop cs o outsz ≡ some (escaped cs)
unfolding escape_loop json_escaped_len
escape_loop-fits [] o outsz h = refl
escape_loop-fits (c ∷ cs) o outsz h =
    ground (arith, escape_loop-fits cs (o + length (escape_char c)) outsz)

escape_loop-full :
    (cs : Bytes) (o outsz : ℕ)
    → o + 1 ≤ outsz
    → outsz < o + json_escaped_len cs + 1
    → escape_loop cs o outsz ≡ none
unfolding escape_loop json_escaped_len
escape_loop-full [] o outsz h k = absurd (omega arith)
escape_loop-full (c ∷ cs) o outsz h k =
    ground (arith, escape_loop-full cs (o + length (escape_char c)) outsz)

-- Into a buffer that is not empty, `json_escape` gives the whole escaped text when that and its
-- terminator fit, by the length that `json_escaped_len` computes, and fails otherwise.
pub json_escape-exact :
    (cs : Bytes) (outsz : ℕ)
    → 0 < outsz
    → json_escape cs outsz
      ≡ (if ltb outsz (json_escaped_len cs + 1) then none else some (escaped cs))
unfolding json_escape
json_escape-exact cs outsz h = elim (Bool-cases (ltb outsz (json_escaped_len cs + 1))) [
  | inl full ↦ rw full (escape_loop-full cs 0 outsz (omega arith) (ground arith))
  | inr fits ↦ rw fits (escape_loop-fits cs 0 outsz (ground arith))
]

length-utf8 : (cp : ℕ) → length (utf8 cp) ≤ 3
unfolding utf8
length-utf8 cp = ground arith

unicode_escape_small :
    (cs piece rest : Bytes)
    → unicode_escape cs ≡ some (piece, rest)
    → (length piece ≤ 3) × (length rest ≤ length cs)
unfolding unicode_escape
unicode_escape_small (a ∷ b ∷ c ∷ d ∷ cs) piece rest e =
    ground (arith, length-utf8 (strtoul16 (a ∷ b ∷ c ∷ d ∷ []) % 2 ^ 32))
unicode_escape_small _ piece rest e = ground arith

escape_sequence_small :
    (cs piece rest : Bytes)
    → escape_sequence cs ≡ some (piece, rest)
    → (length piece ≤ 3) × (length rest ≤ length cs)
unfolding escape_sequence
escape_sequence_small [] piece rest e = ground arith
escape_sequence_small (c ∷ cs) piece rest e = ground (arith, unicode_escape_small cs piece rest)

next_piece_small :
    (c : ℕ) (cs piece rest : Bytes)
    → next_piece c cs ≡ some (piece, rest)
    → (length piece ≤ 3) × (length rest ≤ length cs)
unfolding next_piece
next_piece_small c cs piece rest e = ground (arith, escape_sequence_small cs piece rest)

module _ (fuel c : ℕ) (cs : Bytes) (o outsz : ℕ) where
  unescape_loop_stop :
      (leb outsz (o + 4) ≡ true) ⊎ (next_piece c cs ≡ none)
      → unescape_loop (suc fuel) (c ∷ cs) o outsz ≡ none
  unfolding unescape_loop
  unescape_loop_stop (inl full) = rw full
  unescape_loop_stop (inr bad) = ground (arith, bad)

  pub unescape_loop_next :
      {piece rest : Bytes}
      → leb outsz (o + 4) ≡ false
      → next_piece c cs ≡ some (piece, rest)
      → unescape_loop (suc fuel) (c ∷ cs) o outsz
        ≡ Option.map (λ more. piece ++ more) (unescape_loop fuel rest (o + length piece) outsz)
  unfolding unescape_loop
  unescape_loop_next room e = rw (room, e, unescape_loop)

-- Fuel beyond the length of the text changes nothing.
pub unescape_loop-fuel :
    (n m : ℕ) (cs : Bytes) (o outsz : ℕ)
    → length cs ≤ n
    → length cs ≤ m
    → unescape_loop n cs o outsz ≡ unescape_loop m cs o outsz
unescape_loop-fuel n m [] o outsz h k = unfold unescape_loop in refl
unescape_loop-fuel zero m (c ∷ cs) o outsz h k = absurd (omega arith)
unescape_loop-fuel (suc n) zero (c ∷ cs) o outsz h k = absurd (omega arith)
unescape_loop-fuel (suc n) (suc m) (c ∷ cs) o outsz h k = elim (Bool-cases (leb outsz (o + 4))) [
  | inl full ↦
      unescape_loop_stop n c cs o outsz (inl full)
      ∙ sym (unescape_loop_stop m c cs o outsz (inl full))
  | inr room ↦ elim (Option-cases (next_piece c cs)) [
    | inl bad ↦
        unescape_loop_stop n c cs o outsz (inr bad)
        ∙ sym (unescape_loop_stop m c cs o outsz (inr bad))
    | inr ((piece, rest), e) ↦
        unescape_loop_next n c cs o outsz room e
        ∙ ap (Option.map (λ more. piece ++ more)) (
            unescape_loop-fuel n m rest (o + length piece) outsz
              (omega (arith, next_piece_small c cs piece rest e))
              (omega (arith, next_piece_small c cs piece rest e)))
        ∙ sym (unescape_loop_next m c cs o outsz room e)
  ]
]

-- A result that leaves room for a terminator behind `o` bytes.
abbrev Fits : ℕ → ℕ → Option Bytes → Type 0
Fits o outsz none = Unit
Fits o outsz (some out) = o + length out < outsz

Fits-map :
    (piece : Bytes) (o outsz : ℕ) (r : Option Bytes)
    → Fits (o + length piece) outsz r
    → Fits o outsz (Option.map (λ more. piece ++ more) r)
Fits-map piece o outsz none h = tt
Fits-map piece o outsz (some more) h = omega (arith, length-append piece more)

unescape_loop-Fits :
    (fuel : ℕ) (cs : Bytes) (o outsz : ℕ) → o < outsz → Fits o outsz (unescape_loop fuel cs o outsz)
unescape_loop-Fits fuel [] o outsz h = unfold unescape_loop in omega arith
unescape_loop-Fits zero (c ∷ cs) o outsz h = unfold unescape_loop in tt
unescape_loop-Fits (suc fuel) (c ∷ cs) o outsz h = elim (Bool-cases (leb outsz (o + 4))) [
  | inl full ↦ rw (unescape_loop_stop fuel c cs o outsz (inl full)) tt
  | inr room ↦ elim (Option-cases (next_piece c cs)) [
    | inl bad ↦ rw (unescape_loop_stop fuel c cs o outsz (inr bad)) tt
    | inr ((piece, rest), e) ↦
        let small = next_piece_small c cs piece rest e in
        rw (unescape_loop_next fuel c cs o outsz room e) (
          Fits-map piece o outsz _
            (unescape_loop-Fits fuel rest (o + length piece) outsz (ground (arith, small))))
  ]
]

-- The unescaped text always leaves room for its terminator in the buffer.
pub length-unescape :
    (cs out : Bytes) (outsz : ℕ) → 0 < outsz → unescape cs outsz ≡ some out → length out < outsz
unfolding unescape
length-unescape cs out outsz h e =
    let fits : Fits 0 outsz (some out) = rw e at (unescape_loop-Fits (length cs) cs 0 outsz h) in
    omega (arith, fits)
