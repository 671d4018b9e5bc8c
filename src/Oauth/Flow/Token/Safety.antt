-- ===== src/Oauth/Flow/Token/Safety.antt =====
-- When the token endpoint of source/features/oauth/oauth.c writes a token, and that it does.
use sys_autopilot.Base.{
  ℕ, zero, suc, ◌≤◌, ◌≡◌, ◌⊎◌, refl, sym, subst, ◌∙◌, true, ◌||◌, some, List, [], ◌∷◌, length, take,
  All, arith, ◌==◌, Bool-cases, Option-cases, inl, inr,
}
use sys_autopilot.Base.Text.{Bytes, IsByte, IsChar, codes, streq, streq_iff}
use sys_autopilot.Base64.{b64url_encode}
use sys_autopilot.Base64.UrlSafe.{is_url_safe, b64url_encode-UrlSafe}
use sys_autopilot.Sha256.{sha256_hash}
use sys_autopilot.Http.Auth.Equality.{http_secure_streq_iff}
use sys_autopilot.Oauth.Codes.{AuthCode, spent, code_take}
use sys_autopilot.Oauth.Codes.Single.{
  Event, issued, redeemed, Issued, IsUnused, Reach, code_take-Reach,
}
use sys_autopilot.Oauth.Tokens.Digest.{digest_eq_iff, length-sha256_hash}
use sys_autopilot.Oauth.Flow.{param_or_empty}
use sys_autopilot.Oauth.Flow.Params.{param_or_empty-IsChar}
use sys_autopilot.Oauth.Flow.Token.{State, World, redirect_matches, pkce_matches, redeem, grant}

-- Neither the file nor the table has changed.
abbrev pub NoToken : State → State → Type 0
NoToken st st' = (st'.file ≡ st.file) × (st'.store ≡ st.store)

-- The texts that an authorization leaves are C strings.
abbrev pub IsText : Event → Type 0
IsText (issued now code challenge redirect_uri) = All IsChar code × All IsChar challenge
IsText (redeemed code) = Unit

-- What a request must show, `es` being the history of the codes.
pub record IsEntitled (w : World) (body : Bytes) (es : List Event) : Type 0 where
  pub entry : AuthCode
  pub grant_type : param_or_empty body (codes "grant_type") 40 ≡ codes "authorization_code"
  pub same_code : param_or_empty body (codes "code") 64 ≡ entry.code
  pub known : Issued es entry
  pub unused : IsUnused es entry.code
  pub alive : w.now ≤ entry.expires_at
  pub same_redirect :
      (param_or_empty body (codes "redirect_uri") 512 ≡ [])
      ⊎ (sha256_hash (param_or_empty body (codes "redirect_uri") 512) ≡ entry.redirect_hash)
  pub same_challenge :
      b64url_encode (sha256_hash (param_or_empty body (codes "code_verifier") 160))
      ≡ entry.challenge

take-IsChar : (n : ℕ) (s : Bytes) → All IsChar s → All IsChar (take n s)
take-IsChar zero s a = tt
take-IsChar (suc n) [] a = tt
take-IsChar (suc n) (c ∷ s) a = (a.0, take-IsChar n s a.1)

-- What an entry of the history is made of.
Issued-sound :
    (es : List Event) (d : AuthCode)
    → All IsText es
    → Issued es d
    → All IsChar d.code × All IsChar d.challenge × (length d.redirect_hash ≡ 32)
Issued-sound [] d a i = absurd i
Issued-sound (redeemed code ∷ es) d a i = Issued-sound es d a.1 i
Issued-sound (issued now code challenge uri ∷ es) d a i = elim i [
  | inr old ↦ Issued-sound es d a.1 old
  | inl (c, ch, hash, _) ↦ (
    subst (All IsChar) (sym c) a.0.0,
    subst (All IsChar) (sym ch) (take-IsChar 47 challenge a.0.1),
    rw hash (length-sha256_hash uri),
  )
]

redirect_matches-same :
    (d : AuthCode) (uri : Bytes)
    → length d.redirect_hash ≡ 32
    → redirect_matches (spent d) uri ≡ true
    → (uri ≡ []) ⊎ (sha256_hash uri ≡ d.redirect_hash)
unfolding redirect_matches spent
redirect_matches-same d [] n e = inl refl
redirect_matches-same d (c ∷ uri) n e = inr (
    (digest_eq_iff (sha256_hash (c ∷ uri)) d.redirect_hash (length-sha256_hash (c ∷ uri) ∙ sym n)).0
      (ground (arith, e)))

url_safe-IsChar : (s : Bytes) → All (λ c. is_url_safe c ≡ true) s → All IsChar s
url_safe-IsChar [] a = tt
url_safe-IsChar (c ∷ s) a = (ground (arith, a.0), url_safe-IsChar s a.1)

pkce_matches-same :
    (d : AuthCode) (verifier : Bytes)
    → All IsChar d.challenge
    → pkce_matches (spent d) verifier ≡ true
    → b64url_encode (sha256_hash verifier) ≡ d.challenge
unfolding pkce_matches spent
pkce_matches-same d verifier a e =
    (http_secure_streq_iff (b64url_encode (sha256_hash verifier)) d.challenge
        (url_safe-IsChar _ (b64url_encode-UrlSafe (sha256_hash verifier)).0) a).0
      e

redeem-cases :
    (w : World) (uri verifier : Bytes) (entry : AuthCode) (st : State)
    → NoToken st (redeem w uri verifier entry st).1
      ⊎ ((redirect_matches entry uri ≡ true) × (pkce_matches entry verifier ≡ true))
unfolding redeem
redeem-cases w uri verifier entry st = elim (Bool-cases (redirect_matches entry uri)) [
  | inl u ↦ elim (Bool-cases (pkce_matches entry verifier)) [
    | inl p ↦ inr (u, p)
    | inr bad ↦ inl (rw (u, bad) ((refl, refl)))
  ]
  | inr bad ↦ inl (rw bad ((refl, refl)))
]

grant-cases :
    (w : World) (body : Bytes) (st : State)
    → NoToken st (grant w body st).1
      ⊎ ((streq (param_or_empty body (codes "grant_type") 40) (codes "authorization_code") ≡ true)
          × ((entry : AuthCode) × ((code_take w.now
                  (param_or_empty body (codes "code") 64)
                  st.held).0
                ≡ some entry)
              × ((grant w body st)
                  ≡ redeem w
                      (param_or_empty body (codes "redirect_uri") 512)
                      (param_or_empty body (codes "code_verifier") 160)
                      entry
                      (record st {
                        held = (code_take w.now (param_or_empty body (codes "code") 64) st.held).1;
                      }))))
unfolding grant
grant-cases w body st =
    elim (Bool-cases
      (streq (param_or_empty body (codes "grant_type") 40) (codes "authorization_code"))) [
        | inr bad ↦ inl (rw bad ((refl, refl)))
        | inl good ↦
            elim (Bool-cases (
              length (param_or_empty body (codes "code") 64) == 0
              || length (param_or_empty body (codes "code_verifier") 160) == 0)) [
                | inl missing ↦ inl (rw (good, missing) ((refl, refl)))
                | inr given ↦
                    elim (Option-cases
                      (code_take w.now (param_or_empty body (codes "code") 64) st.held).0) [
                        | inl e ↦ inl (rw (good, given, e) ((refl, refl)))
                        | inr (entry, e) ↦ inr (good, (entry, e, rw (good, given, e) refl))
                      ]
              ]
      ]

-- In any history of the codes whose random bytes do not repeat, the token endpoint writes no token, in tokens.txt or in the table, unless
-- the request names the authorization_code grant and its code is that of an entry that was issued at
-- most 300 seconds before its deadline, has not been redeemed since and whose deadline has not passed,
-- its redirect URI, where it gives one, has the SHA-256 digest of the one the code was issued for, and
-- the base64url text of its verifier's SHA-256 digest is the challenge that the code was issued for, of
-- which the first 47 characters are kept.
-- The body is bytes and the history's codes and challenges are C strings.
pub grant-IsEntitled :
    (w : World) (body : Bytes) (st : State) (es : List Event)
    → Reach st.held es
    → All IsText es
    → All IsByte body
    → NoToken st (grant w body st).1 ⊎ IsEntitled w body es
grant-IsEntitled w body st es r a b = elim (grant-cases w body st) [
  | inl none_written ↦ inl none_written
  | inr (good, (entry, e, step)) ↦
      elim (redeem-cases w (param_or_empty body (codes "redirect_uri") 512)
        (param_or_empty body (codes "code_verifier") 160) entry
        (record st {
          held = (code_take w.now (param_or_empty body (codes "code") 64) st.held).1;
        })) [
          | inl kept ↦ inl (rw step kept)
          | inr (uri, pkce) ↦
              let (d, known, unused, alive, code, same) =
                code_take-Reach w.now (param_or_empty body (codes "code") 64) r e in
              let (text, challenge, hash) = Issued-sound es d a known in
              inr (record {
                entry = d;
                grant_type = (streq_iff _ _).0 good;
                same_code =
                    (http_secure_streq_iff _ d.code (param_or_empty-IsChar body _ 64 b) text).0
                      code;
                known = known;
                unused = unused;
                alive = alive;
                same_redirect = redirect_matches-same d _ hash (
                    subst
                      (λ (c : AuthCode).
                        redirect_matches c (param_or_empty body (codes "redirect_uri") 512) ≡ true)
                      same uri);
                same_challenge = pkce_matches-same d _ challenge (
                    subst
                      (λ (c : AuthCode).
                        pkce_matches c (param_or_empty body (codes "code_verifier") 160) ≡ true)
                      same pkce);
              })
        ]
]
