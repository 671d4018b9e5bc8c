-- ===== src/Router.antt =====
-- source/core/http_router.c and http_server.h: the tables of routes, public prefixes and request
-- hooks, the authentication policy, and dispatch. A handler, a hook and a reply are values that the
-- dispatch lists in the order of their effects; what a handler does is not modelled here.
pub mod Register
pub mod Policy
pub mod Wait
use sys_autopilot.Base.{
  ℕ, zero, suc, ◌+◌, ◌-◌, Bool, true, false, not, ◌&&◌, ◌||◌, Option, none, some, List, [], ◌∷◌,
  ◌++◌, length, map, ltb, leb, ◌==◌, if◌then◌else◌,
}
use sys_autopilot.Base.Text.{Bytes, codes, streq, starts_with}
use sys_autopilot.Http.Auth.{http_check_basic_auth, http_get_bearer, http_secure_streq}

-- A function pointer is a number.
pub record Route : Type 0 where
  pub method : Bytes
  pub path : Bytes
  pub handler : ℕ
  pub prefix : Bool

abbrev pub http_max_routes : ℕ
http_max_routes = 64

abbrev pub max_public_prefixes : ℕ
max_public_prefixes = 4

abbrev pub http_max_request_hooks : ℕ
http_max_request_hooks = 2

-- The statics of http_router.c. The token validator is what OAuth registers.
pub record Server : Type 0 where
  pub routes : List Route
  pub public_prefixes : List Bytes
  pub token_validator : Option (Bytes → Bool)
  pub request_hooks : List ℕ

-- The fields of `Config` that the policy reads (core/config.h).
pub record Credentials : Type 0 where
  pub username : Bytes
  pub password : Bytes
  pub token : Bytes

-- The fields of `HttpRequest` that dispatch reads.
pub record Request : Type 0 where
  pub method : Bytes
  pub path : Bytes
  pub auth : Bytes
  pub mem_used : ℕ

unfoldable pub http_server_on_request : Server → ℕ → Server × Bool
http_server_on_request s hook =
    if leb http_max_request_hooks (length s.request_hooks)
    then (s, false)
    else (record s { request_hooks = s.request_hooks ++ (hook ∷ []) }, true)

unfoldable pub add_route : Server → Bytes → Bytes → ℕ → Bool → Server × Bool
add_route s method path handler prefix =
    if leb http_max_routes (length s.routes) then (s, false) else (
      record s {
        routes =
            s.routes
            ++ (record { method = method; path = path; handler = handler; prefix = prefix } ∷ []);
      },
      true,
    )

abbrev pub http_server_register_route : Server → Bytes → Bytes → ℕ → Server × Bool
http_server_register_route s method path handler = add_route s method path handler false

abbrev pub http_server_register_prefix : Server → Bytes → Bytes → ℕ → Server × Bool
http_server_register_prefix s method path handler = add_route s method path handler true

unfoldable pub http_server_add_public_prefix : Server → Bytes → Server × Bool
http_server_add_public_prefix s prefix =
    if leb max_public_prefixes (length s.public_prefixes)
    then (s, false)
    else (record s { public_prefixes = s.public_prefixes ++ (prefix ∷ []) }, true)

abbrev pub is_empty : Bytes → Bool
is_empty [] = true
is_empty (c ∷ cs) = false

-- source/core/config.c
unfoldable pub config_basic_enabled : Credentials → Bool
config_basic_enabled cfg = not (is_empty cfg.username) && not (is_empty cfg.password)

unfoldable pub config_auth_enabled : Credentials → Bool
config_auth_enabled cfg = not (is_empty cfg.token) || config_basic_enabled cfg

unfoldable pub any_prefix : Bytes → List Bytes → Bool
any_prefix path [] = false
any_prefix path (p ∷ ps) = starts_with path p || any_prefix path ps

abbrev pub is_options : Request → Bool
is_options req = streq req.method (codes "OPTIONS")

unfoldable pub path_is_public : Server → Request → Bool
path_is_public s req = if is_options req then true else any_prefix req.path s.public_prefixes

unfoldable pub validate_bearer : Server → Credentials → Bytes → Bool
validate_bearer s cfg bearer =
    if not (is_empty cfg.token) && http_secure_streq bearer cfg.token
    then true
    else elim s.token_validator as (λ _. Bool) [ none ↦ false | some valid ↦ valid bearer ]

-- The answer, and `*out_basic_cfg`.
unfoldable pub authorized : Server → Credentials → Request → Bool × Bool
authorized s cfg req =
    let basic = config_basic_enabled cfg in
    if basic && http_check_basic_auth req.auth cfg.username cfg.password then (true, basic) else (
      elim (http_get_bearer req.auth 160) as (λ _. Bool) [
        | none ↦ false
        | some bearer ↦ validate_bearer s cfg bearer
      ],
      basic,
    )

unfoldable pub route_matches : Route → Bytes → Bool
route_matches r path = if r.prefix then starts_with path r.path else streq path r.path

-- What a request sets off, in order.
pub data Action : Type 0 where
  hook : ℕ → Action
  handled : ℕ → Action
  preflight : Action
  method_not_allowed : Action
  not_found : Action
  unauthorized : Bool → Action

-- The loop of `route` over the table, with `path_found` so far.
unfoldable pub route_loop : List Route → Request → Bool → Action
route_loop [] req path_found = if path_found then method_not_allowed else not_found
route_loop (r ∷ rs) req path_found =
    let skipped = route_loop rs req path_found in
    let other_method = route_loop rs req true in
    if not (route_matches r req.path)
    then skipped
    else if streq req.method r.method
    then handled r.handler
    else other_method

unfoldable pub route : Server → Request → Action
route s req = if is_options req then preflight else route_loop s.routes req false

-- The effects, and the request with its memory released.
unfoldable pub http_server_dispatch : Server → Credentials → Request → List Action × Request
http_server_dispatch s cfg req =
    let (granted, basic) = authorized s cfg req in
    let actions =
      (if config_auth_enabled cfg && not (path_is_public s req) && not granted
        then unauthorized basic ∷ []
        else map hook s.request_hooks ++ (route s req ∷ [])) in
    (actions, record req { mem_used = 0 })

-- `http_server_wait_ms`: the sleeps of `ms` milliseconds in slices, each after the idle hook has
-- agreed. `agrees` lists the hook's answers; a missing one stands for no hook or for a yes.
unfoldable pub wait_slices : ℕ → ℕ → List Bool → Bool × List ℕ
wait_slices fuel zero agrees = (true, [])
wait_slices zero (suc ms) agrees = (true, [])
wait_slices (suc fuel) (suc ms) [] =
    let slice = (if ltb (suc ms) 500 then suc ms else 500) in
    let rest = wait_slices fuel (suc ms - slice) [] in (rest.0, slice ∷ rest.1)
wait_slices (suc fuel) (suc ms) (answer ∷ agrees) =
    let slice = (if ltb (suc ms) 500 then suc ms else 500) in
    let rest = wait_slices fuel (suc ms - slice) agrees in
    if answer then (rest.0, slice ∷ rest.1) else (false, [])

-- Each slice takes a millisecond at least, so `ms` rounds are enough.
unfoldable pub http_server_wait_ms : ℕ → List Bool → Bool × List ℕ
http_server_wait_ms ms agrees = wait_slices ms ms agrees
