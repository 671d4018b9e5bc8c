-- ===== src/Oauth/Flow/Token.antt =====
-- The token endpoint of source/features/oauth/oauth.c.
pub mod Safety
pub mod Granted
use sys_autopilot.Base.{
  ℕ, Bool, not, ◌||◌, Option, none, some, List, ◌∷◌, ◌++◌, length, ◌==◌, if◌then◌else◌,
}
use sys_autopilot.Base.Text.{Bytes, codes, streq}
use sys_autopilot.Base64.{b64url_encode}
use sys_autopilot.Sha256.{sha256_hash}
use sys_autopilot.Http.Auth.{http_secure_streq}
use sys_autopilot.Oauth.Codes.{AuthCode, code_take}
use sys_autopilot.Oauth.Tokens.{Store, digest_eq, oauth_mint_token}
use sys_autopilot.Oauth.Flow.{
  Answer, json, Request, body_read, unreadable, read_small_body, param_or_empty, quoted, field,
}

unfoldable pub send_oauth_error : ℕ → Bytes → Bytes → Answer
send_oauth_error status code desc = json status (
    (b'{' ∷ field (codes "error") (quoted code))
    ++ (b',' ∷ field (codes "error_description") (quoted desc))
    ++ codes "}")

-- The state that the token endpoint changes: the pending codes, tokens.txt and the table.
pub record State : Type 0 where
  pub held : List AuthCode
  pub file : Bytes
  pub store : Store

-- What the token endpoint takes from the machine.
pub record World : Type 0 where
  pub now : ℕ
  pub rnd : Bytes
  pub opens : Bool
  pub stamp : Bytes
  pub mtime : Option ℕ

abbrev invalid_grant : Bytes → Answer
invalid_grant desc = send_oauth_error 400 (codes "invalid_grant") desc

unfoldable pub token_reply : Bytes → Bytes
token_reply token =
    (b'{' ∷ field (codes "access_token") (quoted token))
    ++ (b',' ∷ field (codes "token_type") (quoted (codes "Bearer")))
    ++ codes "}"

-- Behind the checks on the code.
unfoldable pub issue_token : World → State → Answer × State
issue_token w st =
    let (token, file, store) =
      oauth_mint_token w.opens w.stamp w.mtime st.file w.rnd 65 (codes "via oauth login")
        st.store in
    elim token as (λ _. Answer × State) [
      | none ↦ (
        send_oauth_error 500 (codes "server_error") (codes "failed to persist token"),
        record st { file = file; store = store },
      )
      | some text ↦ (json 200 (token_reply text), record st { file = file; store = store })
    ]

-- Whether the request's redirect URI, where it gives one, is that of the authorization.
unfoldable pub redirect_matches : AuthCode → Bytes → Bool
redirect_matches entry redirect_uri =
    length redirect_uri == 0 || digest_eq (sha256_hash redirect_uri) entry.redirect_hash

-- PKCE S256.
unfoldable pub pkce_matches : AuthCode → Bytes → Bool
pkce_matches entry verifier =
    http_secure_streq (b64url_encode (sha256_hash verifier)) entry.challenge

unfoldable pub redeem : World → Bytes → Bytes → AuthCode → State → Answer × State
redeem w redirect_uri verifier entry st =
    if not (redirect_matches entry redirect_uri)
    then (invalid_grant (codes "redirect_uri mismatch"), st)
    else if not (pkce_matches entry verifier)
    then (invalid_grant (codes "PKCE verification failed"), st)
    else issue_token w st

unfoldable pub grant : World → Bytes → State → Answer × State
grant w body st =
    let code = param_or_empty body (codes "code") 64 in
    let verifier = param_or_empty body (codes "code_verifier") 160 in
    let redirect_uri = param_or_empty body (codes "redirect_uri") 512 in
    let (found, held) = code_take w.now code st.held in
    if not (streq (param_or_empty body (codes "grant_type") 40) (codes "authorization_code"))
    then (
      send_oauth_error 400 (codes "unsupported_grant_type")
          (codes "only authorization_code is supported"),
      st,
    )
    else if length code == 0 || length verifier == 0
    then (
      send_oauth_error 400 (codes "invalid_request") (codes "code and code_verifier are required"),
      st,
    )
    else elim found as (λ _. Answer × State) [
      | none ↦ (
        invalid_grant (codes "unknown, expired, or already-used code"),
        record st { held = held },
      )
      | some entry ↦ redeem w redirect_uri verifier entry (record st { held = held })
    ]

unfoldable pub handle_token : World → Request → State → Answer × State
handle_token w req st = elim (read_small_body req 4096) as (λ _. Answer × State) [
  | unreadable answer ↦ (answer, st)
  | body_read body ↦ grant w body st
]
