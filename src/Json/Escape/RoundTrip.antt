-- ===== src/Json/Escape/RoundTrip.antt =====
-- source/util/json.c: `json_get_string` on what `json_escape` wrote.
use sys_autopilot.Base.{
  ℕ, zero, suc, ◌+◌, ◌/◌, ◌%◌, ◌≤◌, ◌<◌, ◌≡◌, refl, ap, ◌∙◌, true, Option, none, some, [], ◌∷◌,
  ◌++◌, length, length-append, arith, ◌==◌,
}
use sys_autopilot.Base.Tables.{all_below, all_below→at}
use sys_autopilot.Base.Text.{Bytes}
use sys_autopilot.Json.Escape.{
  escape_char, hex_digit, hex_value, hex_digits, hex_prefixed, strtoul16, utf8, unicode_escape,
  escape_sequence, next_piece, unescape_loop, unescape,
}
use sys_autopilot.Json.Escape.Size.{escaped, unescape_loop_next}
use mathlib.Core.Option

abbrev first_piece : Bytes → Option (Bytes × Bytes)
first_piece [] = none
first_piece (c ∷ cs) = next_piece c cs

control_table :
    all_below 32 (λ c. strtoul16 (b'0' ∷ b'0' ∷ hex_digit (c / 16) ∷ hex_digit (c % 16) ∷ []) == c)
    ≡ true
unfolding all_below strtoul16 hex_prefixed hex_digits hex_value hex_digit
control_table = refl

control_value :
    (c : ℕ) → c < 32 → strtoul16 (b'0' ∷ b'0' ∷ hex_digit (c / 16) ∷ hex_digit (c % 16) ∷ []) ≡ c
control_value c h = let e = all_below→at 32 _ c control_table h in ground arith

first_piece-escape_char :
    (c : ℕ) (rest : Bytes) → first_piece (escape_char c ++ rest) ≡ some (c ∷ [], rest)
unfolding escape_char next_piece escape_sequence unicode_escape utf8
first_piece-escape_char c rest = ground (arith, control_value c)

unescape_loop-step :
    (fuel c : ℕ) (cs rest : Bytes) (o outsz : ℕ)
    → cs ≡ escape_char c ++ rest
    → o + 4 < outsz
    → unescape_loop (suc fuel) cs o outsz
      ≡ Option.map (λ more. c ∷ more) (unescape_loop fuel rest (o + 1) outsz)
unescape_loop-step fuel c [] rest o outsz e h =
    cc (first_piece-escape_char c rest, ap first_piece e)
unescape_loop-step fuel c (x ∷ cs) rest o outsz e h =
    unescape_loop_next fuel x cs o outsz (ground arith)
      (ap first_piece e ∙ first_piece-escape_char c rest)

unescape_loop-escaped :
    (cs : Bytes) (fuel o outsz : ℕ)
    → length cs ≤ fuel
    → o + length cs + 4 ≤ outsz
    → unescape_loop fuel (escaped cs) o outsz ≡ some cs
unescape_loop-escaped [] fuel o outsz h k = unfold unescape_loop in refl
unescape_loop-escaped (c ∷ cs) zero o outsz h k = absurd (omega arith)
unescape_loop-escaped (c ∷ cs) (suc fuel) o outsz h k =
    unescape_loop-step fuel c (escaped (c ∷ cs)) (escaped cs) o outsz refl (omega arith)
    ∙ ap (Option.map (λ more. c ∷ more))
        (unescape_loop-escaped cs fuel (o + 1) outsz (omega arith) (omega arith))

length-le-escaped : (cs : Bytes) → length cs ≤ length (escaped cs)
length-le-escaped [] = omega arith
length-le-escaped (c ∷ cs) =
    omega (arith, length-append (escape_char c) (escaped cs), length-le-escaped cs, one_at_least c)
  where
    one_at_least : (c : ℕ) → 1 ≤ length (escape_char c)
    one_at_least c = unfold escape_char in ground arith

-- Unescaping the escaped form of any text, control characters and quotes included, gives the text
-- back, in a buffer of four bytes more than it.
pub unescape-escaped :
    (cs : Bytes) (outsz : ℕ) → length cs + 4 ≤ outsz → unescape (escaped cs) outsz ≡ some cs
unfolding unescape
unescape-escaped cs outsz h =
    unescape_loop-escaped cs (length (escaped cs)) 0 outsz (length-le-escaped cs) (omega arith)
