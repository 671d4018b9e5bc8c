-- ===== src/Oauth/Flow/Token/Granted.antt =====
-- The login of source/features/oauth/oauth.c from the authorization code to the token.
use sys_autopilot.Base.{
  ℕ, ◌+◌, ◌≤◌, ◌<◌, ◌^◌, ◌≡◌, refl, ◌∙◌, Bool, true, false, ◌||◌, some, ◌++◌, length, take,
  take-length, All, ◌==◌, arith,
}
use sys_autopilot.Base.Text.{Bytes, codes}
use sys_autopilot.Base64.{b64url_encode}
use sys_autopilot.Base64.UrlSafe.{b64url_encode-UrlSafe}
use sys_autopilot.Sha256.{sha256_hash, hex_encode}
use sys_autopilot.Http.Auth.Equality.{http_secure_streq_refl}
use sys_autopilot.Oauth.Codes.{AuthCode, new_code, code_create, code_take, spent, takes}
use sys_autopilot.Oauth.Codes.Fresh.{code_take-code_create}
use sys_autopilot.Oauth.Tokens.{tokens_append, oauth_mint_token, token_line}
use sys_autopilot.Oauth.Tokens.Digest.{digest_eq_iff, length-sha256_hash}
use sys_autopilot.Oauth.Flow.{json, param_or_empty}
use sys_autopilot.Oauth.Flow.Token.{
  State, World, token_reply, issue_token, redirect_matches, pkce_matches, redeem, grant,
}

-- The parameters of a request that redeems `code`, its authorization being for `uri`.
pub record Redeems (body code verifier uri : Bytes) : Type 0 where
  pub grant_type : param_or_empty body (codes "grant_type") 40 ≡ codes "authorization_code"
  pub code_given : param_or_empty body (codes "code") 64 ≡ code
  pub some_code : 0 < length code
  pub verifier_given : param_or_empty body (codes "code_verifier") 160 ≡ verifier
  pub some_verifier : 0 < length verifier
  pub same_uri : param_or_empty body (codes "redirect_uri") 512 ≡ uri

abbrev pub challenge_of : Bytes → Bytes
challenge_of verifier = b64url_encode (sha256_hash verifier)

short_challenge : (verifier : Bytes) → take 47 (challenge_of verifier) ≡ challenge_of verifier
short_challenge verifier =
    take-length 47 (challenge_of verifier)
      (omega (arith, (b64url_encode-UrlSafe (sha256_hash verifier)).1, length-sha256_hash verifier))

module _ (now : ℕ) (rnd verifier uri : Bytes) where
  new_entry : AuthCode
  new_entry = spent (new_code now rnd (challenge_of verifier) uri)

  new_entry-pkce : pkce_matches new_entry verifier ≡ true
  unfolding pkce_matches new_entry spent new_code
  new_entry-pkce = rw (short_challenge verifier) (http_secure_streq_refl (challenge_of verifier))

  new_entry-redirect : redirect_matches new_entry uri ≡ true
  unfolding redirect_matches new_entry spent new_code
  new_entry-redirect =
      rw ((digest_eq_iff (sha256_hash uri) (sha256_hash uri) refl).1 refl) (or-true _)
    where
      or-true : (b : Bool) → (b || true) ≡ true
      or-true true = refl
      or-true false = refl

  redeem-new_entry :
      (w : World) (st : State) → redeem w uri verifier new_entry st ≡ issue_token w st
  unfolding redeem
  redeem-new_entry w st = rw (new_entry-redirect, new_entry-pkce) refl

issue_token-opens :
    (w : World) (st : State)
    → w.opens ≡ true
    → ((issue_token w st).0 ≡ json 200 (token_reply (hex_encode w.rnd)))
      × ((issue_token w st).1.file
          ≡ st.file ++ token_line (hex_encode w.rnd) w.stamp (codes "via oauth login"))
unfolding issue_token oauth_mint_token tokens_append
issue_token-opens w st h = rw h ((refl, refl))

grant-Redeems :
    (w : World) (body code verifier uri : Bytes) (entry : AuthCode) (st : State)
    → Redeems body code verifier uri
    → (code_take w.now code st.held).0 ≡ some entry
    → grant w body st
      ≡ redeem w uri verifier entry (record st { held = (code_take w.now code st.held).1 })
unfolding grant
grant-Redeems w body code verifier uri entry st r e =
    rw (r.grant_type, r.code_given, r.verifier_given)
      (rw (given, e) (rw (r.code_given, r.verifier_given, r.same_uri) refl))
  where
    given : (length code == 0 || length verifier == 0) ≡ false
    given = ground (arith, r.some_code, r.some_verifier)

-- A client that shows the code that `code_create` has just made for its challenge, before any other
-- code is made or taken and within 300 seconds, with the verifier of that challenge and the same
-- redirect URI, is answered with a new token, which tokens.txt then holds, provided that the file opens,
-- that there is a slot, that the clock does not wrap, and that no live code was the same before.
pub grant-code_create :
    (w : World) (body verifier uri rnd : Bytes) (now : ℕ) (st : State)
    → Redeems body (hex_encode rnd) verifier uri
    → w.opens ≡ true
    → 0 < length st.held
    → now + 300 < 2 ^ 64
    → w.now ≤ now + 300
    → All (λ c. takes w.now (hex_encode rnd) c ≡ false) st.held
    → let issued = record st { held = code_create now rnd (challenge_of verifier) uri st.held } in
      ((grant w body issued).0 ≡ json 200 (token_reply (hex_encode w.rnd)))
      × ((grant w body issued).1.file
          ≡ st.file ++ token_line (hex_encode w.rnd) w.stamp (codes "via oauth login"))
grant-code_create w body verifier uri rnd now st r opens slots fits live a =
    let issued : State = record st {
      held = code_create now rnd (challenge_of verifier) uri st.held;
    } in
    let taken =
      code_take-code_create now w.now rnd (challenge_of verifier) uri st.held slots fits live a in
    let st' : State = record issued { held = (code_take w.now (hex_encode rnd) issued.held).1 } in
    let step : grant w body issued ≡ issue_token w st' =
      grant-Redeems w body (hex_encode rnd) verifier uri (new_entry now rnd verifier uri) issued r
        (taken ∙ (unfold new_entry in refl))
      ∙ redeem-new_entry now rnd verifier uri w st' in
    rw step (issue_token-opens w st' opens)
