-- ===== src/Oauth/Flow/Metadata.antt =====
-- The discovery documents and the client registration of source/features/oauth/oauth.c.
pub mod Sizes
use sys_autopilot.Base.{ℕ, Option, none, some, [], ◌∷◌, ◌++◌, length, ◌==◌, if◌then◌else◌}
use sys_autopilot.Base.Text.{Bytes, codes}
use sys_autopilot.Config.{Config, cut, config_hostname}
use sys_autopilot.Json.Document.{JsonDoc, json_obj_get, json_raw}
use sys_autopilot.Http.Response.{decimal}
use sys_autopilot.Mcp.Server.{is_object}
use sys_autopilot.Oauth.Flow.{
  Answer, json, Request, body_read, unreadable, read_small_body, quoted, field,
}

unfoldable pub base_text : Config → Bytes → Request → Bytes
base_text cfg serial req =
    if length req.host == 0
    then codes "http://" ++ config_hostname cfg serial 64 ++ codes ".local:" ++ decimal cfg.port
    else codes "http://" ++ req.host

unfoldable pub base_url : Config → Bytes → Request → ℕ → Bytes
base_url cfg serial req outsz = cut outsz (base_text cfg serial req)

unfoldable pub protected_resource : Bytes → Bytes
protected_resource base =
    (b'{' ∷ field (codes "resource") (quoted (base ++ codes "/mcp")))
    ++ (b',' ∷ field (codes "authorization_servers") ((b'[' ∷ quoted base) ++ (b']' ∷ [])))
    ++ (b',' ∷ field (codes "bearer_methods_supported") (codes "[\"header\"]}"))

unfoldable pub handle_protected_resource : Config → Bytes → Request → Answer
handle_protected_resource cfg serial req =
    json 200 (protected_resource (base_url cfg serial req 160))

unfoldable pub as_metadata : Bytes → Bytes
as_metadata base =
    (b'{' ∷ field (codes "issuer") (quoted base))
    ++ (b',' ∷ field (codes "authorization_endpoint") (quoted (base ++ codes "/oauth/authorize")))
    ++ (b',' ∷ field (codes "token_endpoint") (quoted (base ++ codes "/oauth/token")))
    ++ (b',' ∷ field (codes "registration_endpoint") (quoted (base ++ codes "/oauth/register")))
    ++ (b',' ∷ field (codes "response_types_supported") (codes "[\"code\"]"))
    ++ (b',' ∷ field (codes "grant_types_supported") (codes "[\"authorization_code\"]"))
    ++ (b',' ∷ field (codes "token_endpoint_auth_methods_supported") (codes "[\"none\"]"))
    ++ (b',' ∷ field (codes "code_challenge_methods_supported") (codes "[\"S256\"]}"))

unfoldable pub handle_as_metadata : Config → Bytes → Request → Answer
handle_as_metadata cfg serial req = json 200 (as_metadata (base_url cfg serial req 160))

-- redirect_uris as it is echoed, "[]" unless the document gives one that fits.
unfoldable pub echoed_uris : Option JsonDoc → Bytes
echoed_uris none = codes "[]"
echoed_uris (some doc) =
    let uris = json_obj_get doc (some 0) (codes "redirect_uris") in
    if is_object doc
    then elim uris as (λ _. Bytes) [
      | none ↦ codes "[]"
      | some i ↦ elim (json_raw doc (some i) 1024) as (λ _. Bytes) [
        | none ↦ codes "[]"
        | some raw ↦ raw
      ]
    ]
    else codes "[]"

unfoldable pub registration : Bytes → Bytes
registration uris =
    (b'{' ∷ field (codes "client_id") (quoted (codes "sys-autopilot")))
    ++ (b',' ∷ field (codes "redirect_uris") uris)
    ++ (b',' ∷ field (codes "token_endpoint_auth_method") (quoted (codes "none")))
    ++ (b',' ∷ field (codes "grant_types") (codes "[\"authorization_code\"]"))
    ++ (b',' ∷ field (codes "response_types") (codes "[\"code\"]}"))

-- `json_parse` gives `none` also where there is no memory for a document.
unfoldable pub handle_register : (Bytes → Option JsonDoc) → Request → Answer
handle_register json_parse req = elim (read_small_body req 8192) as (λ _. Answer) [
  | unreadable answer ↦ answer
  | body_read body ↦ json 201 (registration (echoed_uris (json_parse body)))
]
