-- ===== src/Http/Auth/Credentials.antt =====
-- Basic and bearer authentication of source/core/http.c: the headers that pass.
use sys_autopilot.Base.{
  ℕ, ◌+◌, ◌≤◌, ◌<◌, ◌≡◌, ◌≢◌, refl, ap, ◌∙◌, inl, inr, true, false, none, some, [], ◌∷◌, ◌++◌,
  length, length-append, All, All-append, drop, arith, ◌==◌, Bool-cases, Option-cases,
}
use sys_autopilot.Base.Text.{Bytes, codes, c_str, case_starts_with, IsByte, IsChar}
use sys_autopilot.Base64.{b64_encode, b64_decode}
use sys_autopilot.Base64.RoundTrip.{b64_decode-b64_encode}
use sys_autopilot.Base64.Stream.{b64_decode-IsByte}
use sys_autopilot.Http.Auth.{
  credentials, check_decoded, http_check_basic_auth, skip_spaces, http_get_bearer,
}
use sys_autopilot.Http.Auth.Equality.{http_secure_streq_iff}

c_str-IsChar : (a : Bytes) → All IsByte a → All IsChar (c_str a)
c_str-IsChar [] h = tt
c_str-IsChar (c ∷ cs) h = elim (Bool-cases (c == 0)) [
  | inl nul ↦ rw nul tt
  | inr char ↦ rw char ((ground arith, h.0), c_str-IsChar cs h.1)
]

c_str_chars : (a : Bytes) → All IsChar a → c_str a ≡ a
c_str_chars [] h = refl
c_str_chars (c ∷ cs) h = ground (arith, c_str_chars cs h.1)

chars-bytes : (a : Bytes) → All IsChar a → All IsByte a
chars-bytes [] h = tt
chars-bytes (c ∷ cs) h = (h.0.1, chars-bytes cs h.1)

credentials-IsChar :
    (user pass : Bytes) → All IsChar user → All IsChar pass → All IsChar (credentials user pass)
credentials-IsChar user pass p q =
    All-append IsChar user (b':' ∷ pass) p ((omega arith, omega arith), q)

-- What an accepted Authorization header holds.
pub record Carries (auth user pass : Bytes) : Type 0 where
  pub decoded : Bytes
  pub scheme : case_starts_with auth (codes "Basic ") ≡ true
  pub decodes : b64_decode (drop 6 auth) 200 ≡ some decoded
  pub same : c_str decoded ≡ credentials user pass

decoded_matches :
    (user pass : Bytes) (out : Bytes)
    → All IsChar user
    → All IsChar pass
    → All IsByte out
    → check_decoded (some out) user pass ≡ true
    → c_str out ≡ credentials user pass
unfolding check_decoded
decoded_matches user pass [] p q bytes e = cc
decoded_matches user pass (c ∷ cs) p q bytes e =
    (http_secure_streq_iff (c_str (c ∷ cs)) (credentials user pass) (c_str-IsChar (c ∷ cs) bytes)
        (credentials-IsChar user pass p q)).0
      (ground (arith, e))

-- Basic authentication passes only a header whose scheme is Basic, in any case, and whose base64
-- text is valid and decodes, up to a NUL, to the configured user, a colon and the password.
pub http_check_basic_auth-Carries :
    (auth user pass : Bytes)
    → All IsChar user
    → All IsChar pass
    → http_check_basic_auth auth user pass ≡ true
    → Carries auth user pass
unfolding http_check_basic_auth
http_check_basic_auth-Carries auth user pass p q e =
    elim (Option-cases (b64_decode (drop 6 auth) 200)) [
      | inl bad ↦ absurd (cc (refused bad))
      | inr (out, good) ↦ record {
        decoded = out;
        scheme = ground (arith, e);
        decodes = good;
        same =
            decoded_matches user pass out p q (b64_decode-IsByte _ out 200 good)
              (ground (arith, e, good));
      }
    ]
  where
    refused : b64_decode (drop 6 auth) 200 ≡ none → false ≡ true
    refused bad = unfold check_decoded in ground (arith, e, bad)

-- The header that a client with the right user and password sends.
abbrev pub basic_header : Bytes → Bytes → Bytes
basic_header user pass = codes "Basic " ++ b64_encode (credentials user pass)

check_decoded_own :
    (user pass out : Bytes)
    → All IsChar user
    → All IsChar pass
    → All IsChar out
    → out ≡ credentials user pass
    → length (credentials user pass) < 200
    → check_decoded (some out) user pass ≡ true
unfolding check_decoded
check_decoded_own user pass [] p q chars e h =
    absurd (omega (arith, ap length e, length-append user (b':' ∷ pass)))
check_decoded_own user pass (c ∷ cs) p q chars e h =
    let equal =
      (http_secure_streq_iff (c_str (c ∷ cs)) (credentials user pass)
          (c_str-IsChar (c ∷ cs) (chars-bytes (c ∷ cs) chars)) (credentials-IsChar user pass p q)).1
        (c_str_chars (c ∷ cs) chars ∙ e) in
    ground (arith, equal, h)

-- The right credentials pass, up to 195 characters with the colon, which the 63 characters each that
-- the configuration holds always are.
pub http_check_basic_auth-basic_header :
    (user pass : Bytes)
    → All IsChar user
    → All IsChar pass
    → length (credentials user pass) ≤ 195
    → http_check_basic_auth (basic_header user pass) user pass ≡ true
unfolding http_check_basic_auth
http_check_basic_auth-basic_header user pass p q h =
    let chars = credentials-IsChar user pass p q in
    let decoded =
      b64_decode-b64_encode (credentials user pass) 200 (chars-bytes _ chars) (omega arith) in
    rw decoded (check_decoded_own user pass _ p q chars refl (omega arith))

skip_spaces_head : (xs : Bytes) (c : ℕ) (cs : Bytes) → skip_spaces xs ≡ c ∷ cs → c ≢ b' '
unfolding skip_spaces
skip_spaces_head [] c cs e = absurd (cc e)
skip_spaces_head (x ∷ xs) c cs e = ground (arith, skip_spaces_head xs c cs)

-- A bearer token, when one is given, is not empty, has no space in front, and fits its buffer with
-- the terminator.
pub http_get_bearer_bounds :
    (auth : Bytes) (outsz c : ℕ) (cs : Bytes)
    → http_get_bearer auth outsz ≡ some (c ∷ cs)
    → (c ≢ b' ') × (length (c ∷ cs) + 1 ≤ outsz)
unfolding http_get_bearer
http_get_bearer_bounds auth outsz c cs e = ground (arith, skip_spaces_head (drop 7 auth) c cs)

-- The token behind `Bearer` and one space is given as it stands.
pub http_get_bearer_header :
    (outsz c : ℕ) (cs : Bytes)
    → c ≢ b' '
    → length (c ∷ cs) + 1 ≤ outsz
    → http_get_bearer (codes "Bearer " ++ (c ∷ cs)) outsz ≡ some (c ∷ cs)
unfolding http_get_bearer skip_spaces
http_get_bearer_header outsz c cs h fits = ground (arith, h)
