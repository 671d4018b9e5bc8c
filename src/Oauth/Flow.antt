-- ===== src/Oauth/Flow.antt =====
-- The endpoints of source/features/oauth/oauth.c. A handler gives what it answers and the state it
-- leaves; what jsmn makes of a document, the clock and the random bytes are parameters, and so are the
-- chunks that `http_read_body` gives, of which each fits the room left: `none` for -1, the list's end
-- for 0. `mtime` is what stat gives for tokens.txt behind a write.
pub mod Metadata
pub mod Authorize
pub mod Token
pub mod Params
use sys_autopilot.Base.{
  ℕ, zero, suc, ◌+◌, ◌-◌, Bool, true, false, not, ◌&&◌, ◌||◌, Option, none, some, List, [], ◌∷◌,
  ◌++◌, length, take, ltb, leb, ◌==◌, if◌then◌else◌,
}
use sys_autopilot.Base.Text.{Bytes, codes, c_str, streq}
use sys_autopilot.Base64.{b64url_encode}
use sys_autopilot.Sha256.{sha256_hash}
use sys_autopilot.Config.{Config, cut, config_hostname}
use sys_autopilot.Request.{request_alloc}
use sys_autopilot.Json.Document.{JsonDoc, json_obj_get, json_raw}
use sys_autopilot.Http.Response.{decimal}
use sys_autopilot.Http.Params.{http_param_get}
use sys_autopilot.Http.Auth.{http_secure_streq}
use sys_autopilot.Mcp.Server.{is_object}
use sys_autopilot.Oauth.Text.{Sb, sb_puts, sb_puts_html, url_encode_append, redirect_uri_ok}
use sys_autopilot.Oauth.Codes.{AuthCode, new_code, code_create, code_take}
use sys_autopilot.Oauth.Tokens.{Store, digest_eq, oauth_mint_token}

-- What goes out.
pub data Answer : Type 0 where
  http_error : ℕ → Bytes → Answer
  json : ℕ → Bytes → Answer
  page : ℕ → Bytes → Answer
  redirect : Bytes → Answer

-- The reading loop, with the body so far; `none` for a read that failed.
unfoldable pub read_loop : ℕ → Bytes → List (Option Bytes) → Bytes
read_loop want body [] = body
read_loop want body (none ∷ chunks) = body
read_loop want body (some [] ∷ chunks) = body
read_loop want body (some (c ∷ chunk) ∷ chunks) =
    let rest = read_loop want (body ++ (c ∷ chunk)) chunks in
    if ltb (length body) want then rest else body

-- The fields of HttpRequest that the handlers read, with its query's and memory's place.
pub record Request : Type 0 where
  pub has_content_length : Bool
  pub content_length : ℕ
  pub chunks : List (Option Bytes)
  pub query : Bytes
  pub host : Bytes
  pub mcp : Bool
  pub mem_used : ℕ

-- The body, as the C string that the callers read, or the error sent.
pub data Read : Type 0 where
  body_read : Bytes → Read
  unreadable : Answer → Read

unfoldable pub read_small_body : Request → ℕ → Read
read_small_body req cap =
    let body = read_loop req.content_length [] req.chunks in
    if not req.has_content_length
    then unreadable (http_error 411 (codes "Content-Length required"))
    else if leb cap req.content_length
    then unreadable (http_error 413 (codes "request body too large"))
    else elim (request_alloc req.mcp req.mem_used cap).0 as (λ _. Read) [
      | none ↦ unreadable (http_error 500 (codes "out of request memory"))
      | some buf ↦
          if length body == req.content_length
          then body_read (c_str body)
          else unreadable (http_error 400 (codes "incomplete body"))
    ]

-- A buffer that starts as "" and is left so by a parameter that is missing, as the C string that the
-- handlers read.
unfoldable pub param_or_empty : Bytes → Bytes → ℕ → Bytes
param_or_empty body key size = elim (http_param_get body key size) as (λ _. Bytes) [
  | none ↦ []
  | some value ↦ c_str value
]

-- http_query_get
unfoldable pub query_or_empty : Request → Bytes → ℕ → Bytes
query_or_empty req key size = param_or_empty req.query key size

-- A text between double quotes, and a member of an object.
abbrev pub quoted : Bytes → Bytes
quoted s = b'"' ∷ (s ++ (b'"' ∷ []))

abbrev pub field : Bytes → Bytes → Bytes
field name value = quoted name ++ (b':' ∷ value)
