-- ===== src/Oauth/Tokens/Digest.antt =====
-- The comparison of digests in source/features/oauth/oauth.c, and the tokens that a table accepts.
use sys_autopilot.Base.{
  ℕ, ◌*◌, ◌≡◌, ◌⊎◌, ◌↔◌, refl, sym, ap, ◌∙◌, bit_or, bit_xor, true, false, List, [], ◌∷◌, ◌++◌,
  length, All, ltb, ==_iff, arith, Bool-cases, inl, inr, subst,
}
use sys_autopilot.Base.Bits.{bit_or-eq-zero, bit_xor-eq-zero, bit_xor_self, zero-bit_or}
use sys_autopilot.Base.Text.{Bytes}
use sys_autopilot.Sha256.{
  Sha256Ctx, transform, state_bytes, ctx_pad, ctx_final, sha256_hash, ctx_init, ctx_update,
}
use sys_autopilot.Oauth.Tokens.{digest_diff, digest_eq, match_loop}

digest_diff-eq-zero : (a b : Bytes) (diff : ℕ) → digest_diff diff a b ≡ 0 → diff ≡ 0
unfolding digest_diff
digest_diff-eq-zero [] b diff e = e
digest_diff-eq-zero (x ∷ a) [] diff e = e
digest_diff-eq-zero (x ∷ a) (y ∷ b) diff e =
    (bit_or-eq-zero diff (bit_xor x y) (digest_diff-eq-zero a b _ e)).0

digest_diff-eq : (a b : Bytes) (diff : ℕ) → length a ≡ length b → digest_diff diff a b ≡ 0 → a ≡ b
digest_diff-eq [] [] diff h e = refl
digest_diff-eq [] (y ∷ b) diff h e = absurd (omega (arith, h))
digest_diff-eq (x ∷ a) [] diff h e = absurd (omega (arith, h))
digest_diff-eq (x ∷ a) (y ∷ b) diff h e =
    let zero_diff = digest_diff-eq-zero a b _ (opened e) in
    let head = bit_xor-eq-zero x y (bit_or-eq-zero diff (bit_xor x y) zero_diff).1 in
    ap (λ (c : ℕ). c ∷ a) head ∙ ap (◌∷◌ y) (digest_diff-eq a b _ (omega (arith, h)) (opened e))
  where
    opened : digest_diff diff (x ∷ a) (y ∷ b) ≡ 0 → digest_diff (bit_or diff (bit_xor x y)) a b ≡ 0
    opened k = unfold digest_diff in k

digest_diff_self : (a : Bytes) → digest_diff 0 a a ≡ 0
unfolding digest_diff
digest_diff_self [] = refl
digest_diff_self (x ∷ a) =
    ap (λ (t : ℕ). digest_diff t a a) (zero-bit_or (bit_xor x x) ∙ bit_xor_self x)
    ∙ digest_diff_self a

pub digest_eq_iff : (a b : Bytes) → length a ≡ length b → (digest_eq a b ≡ true) ↔ (a ≡ b)
unfolding digest_eq
digest_eq_iff a b h = (
  λ e. digest_diff-eq a b 0 h ((==_iff _ 0).0 e),
  λ e. (==_iff _ 0).1 (subst (λ (t : Bytes). digest_diff 0 a t ≡ 0) e (digest_diff_self a)),
)

length-transform : (s : List ℕ) (block : Bytes) → length (transform s block) ≡ 8
unfolding transform
length-transform s block = refl

length-state_bytes : (ws : List ℕ) → length (state_bytes ws) ≡ 4 * length ws
unfolding state_bytes
length-state_bytes [] = refl
length-state_bytes (w ∷ ws) = omega (arith, length-state_bytes ws)

length-ctx_pad : (ctx : Sha256Ctx) → length (ctx_pad ctx) ≡ 8
unfolding ctx_pad
length-ctx_pad ctx = elim (Bool-cases (ltb 56 (length (ctx.block ++ (0x80 ∷ []))))) [
  | inl two ↦ rw two (length-transform _ _)
  | inr one ↦ rw one (length-transform _ _)
]

-- A digest has 32 bytes.
pub length-sha256_hash : (bs : Bytes) → length (sha256_hash bs) ≡ 32
unfolding sha256_hash ctx_final
length-sha256_hash bs =
    let ctx = ctx_update ctx_init bs in
    omega (arith, length-state_bytes (ctx_pad ctx), length-ctx_pad ctx)

-- A table of digests.
abbrev pub IsDigest : Bytes → Type 0
IsDigest d = length d ≡ 32

abbrev pub Listed : Bytes → List Bytes → Type 0
Listed digest [] = ⊥
Listed digest (d ∷ ds) = (digest ≡ d) ⊎ Listed digest ds

match_loop-true : (digest : Bytes) (ds : List Bytes) → match_loop true digest ds ≡ true
unfolding match_loop
match_loop-true digest [] = refl
match_loop-true digest (d ∷ ds) = elim (Bool-cases (digest_eq digest d)) [
  | inl is ↦ rw is (match_loop-true digest ds)
  | inr other ↦ rw other (match_loop-true digest ds)
]

module _ (digest d : Bytes) (ds : List Bytes) where
  match_loop-found : digest_eq digest d ≡ true → match_loop false digest (d ∷ ds) ≡ true
  unfolding match_loop
  match_loop-found is = rw is (match_loop-true digest ds)

  match_loop-other :
      digest_eq digest d ≡ false → match_loop false digest (d ∷ ds) ≡ match_loop false digest ds
  unfolding match_loop
  match_loop-other other = rw other refl

-- The loop over every entry finds exactly the digests of the table.
pub match_loop_iff :
    (digest : Bytes) (ds : List Bytes)
    → IsDigest digest
    → All IsDigest ds
    → (match_loop false digest ds ≡ true) ↔ Listed digest ds
match_loop_iff digest [] h a = (λ e. unfold match_loop in ground (arith, e), λ l. absurd l)
match_loop_iff digest (d ∷ ds) h a =
    let same = digest_eq_iff digest d (h ∙ sym a.0) in
    elim (Bool-cases (digest_eq digest d)) [
      | inl is ↦ (λ e. inl (same.0 is), λ l. match_loop-found digest d ds is)
      | inr other ↦
          let (there, back) = match_loop_iff digest ds h a.1 in
          (
            λ e. inr (there (sym (match_loop-other digest d ds other) ∙ e)),
            λ l.
                match_loop-other digest d ds other
                ∙ back (elim l [
                  | inl e ↦ absurd (ground (arith, other, same.1 e))
                  | inr later ↦ later
                ]),
          )
    ]
