-- ===== src/Http/Auth/Equality.antt =====
-- `http_secure_streq` of source/core/http.c and equality of strings.
use sys_autopilot.Base.{
  ℕ, ◌%◌, ◌<◌, ◌≡◌, refl, ap, ◌∙◌, ◌↔◌, bit_or, bit_xor, true, [], ◌∷◌, length, All, arith, ==_iff,
}
use sys_autopilot.Base.Bits.{
  bit_or-eq-zero, bit_xor-eq-zero, bit_xor_self, bit_xor_byte, zero-bit_or,
}
use sys_autopilot.Base.Text.{Bytes, IsChar}
use sys_autopilot.Http.Auth.{diff_loop, http_secure_streq}

-- The loop never clears a bit of `diff`.
diff_loop-eq-zero : (a b : Bytes) (diff : ℕ) → diff_loop diff a b ≡ 0 → diff ≡ 0
unfolding diff_loop
diff_loop-eq-zero [] [] diff e = e
diff_loop-eq-zero (a ∷ xs) [] diff e =
    (bit_or-eq-zero diff (bit_xor a 0 % 256) (diff_loop-eq-zero xs [] _ e)).0
diff_loop-eq-zero [] (b ∷ ys) diff e =
    (bit_or-eq-zero diff (bit_xor 0 b % 256) (diff_loop-eq-zero [] ys _ e)).0
diff_loop-eq-zero (a ∷ xs) (b ∷ ys) diff e =
    (bit_or-eq-zero diff (bit_xor a b % 256) (diff_loop-eq-zero xs ys _ e)).0

-- A byte's difference that is zero means equal bytes.
same_byte : (diff a b : ℕ) → a < 256 → b < 256 → bit_or diff (bit_xor a b % 256) ≡ 0 → a ≡ b
same_byte diff a b p q e =
    bit_xor-eq-zero a b
      (omega (arith, (bit_or-eq-zero diff (bit_xor a b % 256) e).1, bit_xor_byte a b p q))

diff_loop-eq :
    (a b : Bytes) (diff : ℕ) → All IsChar a → All IsChar b → diff_loop diff a b ≡ 0 → a ≡ b
diff_loop-eq [] [] diff p q e = refl
diff_loop-eq (a ∷ xs) [] diff p q e =
    absurd (omega (arith, same_byte diff a 0 p.0.1 (omega arith) (first e)))
  where
    first : diff_loop diff (a ∷ xs) [] ≡ 0 → bit_or diff (bit_xor a 0 % 256) ≡ 0
    first k = diff_loop-eq-zero xs [] _ (unfold diff_loop in k)
diff_loop-eq [] (b ∷ ys) diff p q e =
    absurd (omega (arith, same_byte diff 0 b (omega arith) q.0.1 (first e)))
  where
    first : diff_loop diff [] (b ∷ ys) ≡ 0 → bit_or diff (bit_xor 0 b % 256) ≡ 0
    first k = diff_loop-eq-zero [] ys _ (unfold diff_loop in k)
diff_loop-eq (a ∷ xs) (b ∷ ys) diff p q e =
    let head = same_byte diff a b p.0.1 q.0.1 (diff_loop-eq-zero xs ys _ (opened e)) in
    let tail = diff_loop-eq xs ys _ p.1 q.1 (opened e) in
    ap (λ (c : ℕ). c ∷ xs) head ∙ ap (◌∷◌ b) tail
  where
    opened :
        diff_loop diff (a ∷ xs) (b ∷ ys) ≡ 0 → diff_loop (bit_or diff (bit_xor a b % 256)) xs ys ≡ 0
    opened k = unfold diff_loop in k

no_difference : (c : ℕ) → bit_or 0 (bit_xor c c % 256) ≡ 0
no_difference c = zero-bit_or _ ∙ ap (λ (t : ℕ). t % 256) (bit_xor_self c)

diff_loop_self : (a : Bytes) → diff_loop 0 a a ≡ 0
unfolding diff_loop
diff_loop_self [] = refl
diff_loop_self (c ∷ xs) = ap (λ (t : ℕ). diff_loop t xs xs) (no_difference c) ∙ diff_loop_self xs

-- `http_secure_streq` accepts exactly equal strings, also when their lengths differ by a multiple
-- of 256, which the byte that holds the difference does not see.
pub http_secure_streq_iff :
    (a b : Bytes) → All IsChar a → All IsChar b → (http_secure_streq a b ≡ true) ↔ (a ≡ b)
unfolding http_secure_streq
http_secure_streq_iff a b p q =
    (λ e. diff_loop-eq a b _ p q ((==_iff _ 0).0 e), λ e. (==_iff _ 0).1 (same e))
  where
    start : bit_xor (length a) (length a) % 256 ≡ 0
    start = ap (λ (t : ℕ). t % 256) (bit_xor_self (length a))

    same : a ≡ b → diff_loop (bit_xor (length a) (length b) % 256) a b ≡ 0
    same e = rw (← e) (ap (λ (t : ℕ). diff_loop t a a) start ∙ diff_loop_self a)

pub http_secure_streq_refl : (a : Bytes) → http_secure_streq a a ≡ true
unfolding http_secure_streq
http_secure_streq_refl a =
    (==_iff _ 0).1
      (ap (λ (t : ℕ). diff_loop (t % 256) a a) (bit_xor_self (length a)) ∙ diff_loop_self a)
