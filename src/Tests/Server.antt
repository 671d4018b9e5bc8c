-- ===== src/Tests/Server.antt =====
-- Runs and instances for Http and Router.
use sys_autopilot.Base.{ℕ, ◌≡◌, ◌↔◌, refl, inl, inr, Bool, true, false, none, List, [], ◌∷◌, arith}
use sys_autopilot.Base.Text.{Bytes, codes}
use sys_autopilot.Http.Auth.{http_secure_streq, http_check_basic_auth, http_get_bearer, credentials}
use sys_autopilot.Http.Auth.Equality.{http_secure_streq_iff}
use sys_autopilot.Http.Auth.Credentials.{
  Carries, basic_header, http_check_basic_auth-Carries, http_check_basic_auth-basic_header,
}
use sys_autopilot.Http.Params.{http_param_get}
use sys_autopilot.Http.Params.Lookup.{query_text, first_value, http_param_get-query_text}
use sys_autopilot.Http.Auth
use sys_autopilot.Router
use sys_autopilot.Router.{
  Server, Credentials, Request, Route, Action, handled, route_loop, http_server_dispatch,
  http_server_wait_ms,
}
use sys_autopilot.Router.Register.{Outcome, route_loop-Outcome}
use sys_autopilot.Router.Policy.{Allowed, AreChars, Contains, http_server_dispatch-Allowed}

http_secure_streq_iff_example :
    (http_secure_streq (codes "tok") (codes "tok") ≡ true) ↔ (codes "tok" ≡ codes "tok")
http_secure_streq_iff_example =
    http_secure_streq_iff (codes "tok") (codes "tok") (omega arith) (omega arith)

http_check_basic_auth-Carries_example :
    Carries (basic_header (codes "me") (codes "pw")) (codes "me") (codes "pw")
http_check_basic_auth-Carries_example =
    http_check_basic_auth-Carries (basic_header (codes "me") (codes "pw")) (codes "me") (codes "pw")
      (omega arith) (omega arith)
      (http_check_basic_auth-basic_header (codes "me") (codes "pw") (omega arith) (omega arith)
        (omega arith))

abbrev pairs : List (Bytes × Bytes)
pairs = (codes "path", codes "/a b") ∷ (codes "offset", codes "-5") ∷ []

http_param_get-query_text_example :
    http_param_get (query_text pairs) (codes "offset") 16 ≡ first_value (codes "offset") pairs
http_param_get-query_text_example =
    http_param_get-query_text pairs (codes "offset") 16 (omega arith) (omega arith)

abbrev a_route : Bytes → Bytes → ℕ → Bool → Route
a_route m p h prefix = record { method = m; path = p; handler = h; prefix = prefix }

abbrev server : Server
server = record {
  routes =
      a_route (codes "GET") (codes "/status") 1 false
      ∷ a_route (codes "PUT") (codes "/files") 2 true
      ∷ [];
  public_prefixes = codes "/oauth/" ∷ [];
  token_validator = none;
  request_hooks = 7 ∷ [];
}

abbrev config : Credentials
config = record { username = []; password = []; token = codes "secret" }

abbrev request : Request
request = record {
  method = codes "GET";
  path = codes "/status";
  auth = codes "Bearer secret";
  mem_used = 100;
}

served : (http_server_dispatch server config request).0 ≡ Action.hook 7 ∷ handled 1 ∷ []
unfolding http_server_dispatch Router.config_auth_enabled Router.config_basic_enabled
    Router.path_is_public Router.any_prefix Router.authorized http_get_bearer Auth.skip_spaces
    Router.validate_bearer http_secure_streq Auth.diff_loop Router.route route_loop
    Router.route_matches
served = refl

refused :
    (http_server_dispatch server config (record request { auth = codes "Bearer wrong" })).0
    ≡ Action.unauthorized false ∷ []
unfolding http_server_dispatch Router.config_auth_enabled Router.config_basic_enabled
    Router.path_is_public Router.any_prefix Router.authorized http_get_bearer Auth.skip_spaces
    Router.validate_bearer http_secure_streq Auth.diff_loop
refused = refl

request_chars : AreChars config request
request_chars = omega arith

served_handler : Contains (handled 1) (http_server_dispatch server config request).0
served_handler = rw served (inr (inl refl))

http_server_dispatch-Allowed_example : Allowed server config request
http_server_dispatch-Allowed_example =
    http_server_dispatch-Allowed server config request 1 request_chars served_handler

route_loop-Outcome_example :
    Outcome server.routes
      (record request { path = codes "/files/a" })
      (route_loop server.routes (record request { path = codes "/files/a" }) false)
route_loop-Outcome_example =
    route_loop-Outcome server.routes (record request { path = codes "/files/a" })
