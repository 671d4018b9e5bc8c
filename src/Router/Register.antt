-- ===== src/Router/Register.antt =====
-- The route table of source/core/http_router.c: which route a request gets.
use sys_autopilot.Base.{
  ℕ, ◌≤◌, ◌≡◌, refl, ap, Bool, true, false, ◌&&◌, List, [], ◌∷◌, ◌++◌, length, length-append, All,
  arith, Bool-cases, inl, inr,
}
use sys_autopilot.Base.Text.{Bytes, streq}
use sys_autopilot.Router.{
  Route, Server, Request, add_route, http_server_on_request, http_server_add_public_prefix,
  route_matches, Action, handled, method_not_allowed, not_found, route_loop,
}

abbrev pub serves : Request → Route → Bool
serves req r = route_matches r req.path && streq req.method r.method

-- What the table says of a request, the first route that serves it coming first.
pub data Outcome (routes : List Route) (req : Request) : Action → Type 0 where
  served :
      (before : List Route) (r : Route) (after : List Route)
      → routes ≡ before ++ (r ∷ after)
      → All (λ q. serves req q ≡ false) before
      → serves req r ≡ true
      → Outcome routes req (handled r.handler)
  wrong_method :
      (before : List Route) (r : Route) (after : List Route)
      → routes ≡ before ++ (r ∷ after)
      → route_matches r req.path ≡ true
      → All (λ q. serves req q ≡ false) routes
      → Outcome routes req method_not_allowed
  missing : All (λ q. route_matches q req.path ≡ false) routes → Outcome routes req not_found

module _ (req : Request) (r : Route) (rs : List Route) where
  -- A route in front that does not serve the request.
  Outcome-cons :
      {a : Action}
      → serves req r ≡ false
      → route_matches r req.path ≡ false
      → Outcome rs req a
      → Outcome (r ∷ rs) req a
  Outcome-cons h m (served before q after e none_before s) =
      served (r ∷ before) q after (ap (◌∷◌ r) e) (h, none_before) s
  Outcome-cons h m (wrong_method before q after e found none_serves) =
      wrong_method (r ∷ before) q after (ap (◌∷◌ r) e) found (h, none_serves)
  Outcome-cons h m (missing none_match) = missing (m, none_match)

-- Behind a route of another method: served by a later one, or by none.
data Rest (routes : List Route) (req : Request) : Action → Type 0 where
  found :
      (before : List Route) (r : Route) (after : List Route)
      → routes ≡ before ++ (r ∷ after)
      → All (λ q. serves req q ≡ false) before
      → serves req r ≡ true
      → Rest routes req (handled r.handler)
  none_serves : All (λ q. serves req q ≡ false) routes → Rest routes req method_not_allowed

Rest-cons :
    (req : Request) (r : Route) (rs : List Route) {a : Action}
    → serves req r ≡ false
    → Rest rs req a
    → Rest (r ∷ rs) req a
Rest-cons req r rs h (found before q after e none_before s) =
    found (r ∷ before) q after (ap (◌∷◌ r) e) (h, none_before) s
Rest-cons req r rs h (none_serves none_serve) = none_serves (h, none_serve)

-- The three ways through a round of the loop.
module _ (req : Request) (r : Route) (rs : List Route) (path_found : Bool) where
  round_served : serves req r ≡ true → route_loop (r ∷ rs) req path_found ≡ handled r.handler
  unfolding route_loop
  round_served h = ground (arith, h)

  round_skipped :
      route_matches r req.path ≡ false
      → route_loop (r ∷ rs) req path_found ≡ route_loop rs req path_found
  unfolding route_loop
  round_skipped h = ground (arith, h)

  round_other_method :
      route_matches r req.path ≡ true
      → serves req r ≡ false
      → route_loop (r ∷ rs) req path_found ≡ route_loop rs req true
  unfolding route_loop
  round_other_method h k = ground (arith, h, k)

serves_not : (req : Request) (r : Route) → route_matches r req.path ≡ false → serves req r ≡ false
serves_not req r h = rw h

route_loop-Rest : (rs : List Route) (req : Request) → Rest rs req (route_loop rs req true)
route_loop-Rest [] req = unfold route_loop in none_serves tt
route_loop-Rest (r ∷ rs) req = elim (Bool-cases (serves req r)) [
  | inl s ↦ rw (round_served req r rs true s) (found [] r rs refl tt s)
  | inr h ↦ elim (Bool-cases (route_matches r req.path)) [
    | inl m ↦
        rw (round_other_method req r rs true m h) (Rest-cons req r rs h (route_loop-Rest rs req))
    | inr m ↦ rw (round_skipped req r rs true m) (Rest-cons req r rs h (route_loop-Rest rs req))
  ]
]

Outcome-Rest :
    (req : Request) (r : Route) (rs : List Route) {a : Action}
    → route_matches r req.path ≡ true
    → serves req r ≡ false
    → Rest rs req a
    → Outcome (r ∷ rs) req a
Outcome-Rest req r rs m h (found before q after e none_before s) =
    served (r ∷ before) q after (ap (◌∷◌ r) e) (h, none_before) s
Outcome-Rest req r rs m h (none_serves none_serve) = wrong_method [] r rs refl m (h, none_serve)

-- The first route, in the order of registration, whose path and method fit gets the request. With
-- none, the answer is 405 when some route's path fits and 404 when no route's does.
pub route_loop-Outcome :
    (rs : List Route) (req : Request) → Outcome rs req (route_loop rs req false)
route_loop-Outcome [] req = unfold route_loop in missing tt
route_loop-Outcome (r ∷ rs) req = elim (Bool-cases (serves req r)) [
  | inl s ↦ rw (round_served req r rs false s) (served [] r rs refl tt s)
  | inr h ↦ elim (Bool-cases (route_matches r req.path)) [
    | inl m ↦
        rw (round_other_method req r rs false m h)
          (Outcome-Rest req r rs m h (route_loop-Rest rs req))
    | inr m ↦
        rw (round_skipped req r rs false m) (Outcome-cons req r rs h m (route_loop-Outcome rs req))
  ]
]

-- The tables never pass their arrays.
pub record TablesFit (s : Server) : Type 0 where
  pub routes_fit : length s.routes ≤ 64
  pub public_fit : length s.public_prefixes ≤ 4
  pub hooks_fit : length s.request_hooks ≤ 2

-- What the feature code registers.
pub data Registration : Type 0 where
  add : Bytes → Bytes → ℕ → Bool → Registration
  public_prefix : Bytes → Registration
  request_hook : ℕ → Registration

abbrev pub register : Registration → Server → Server
register (add method path handler prefix) s = (add_route s method path handler prefix).0
register (public_prefix p) s = (http_server_add_public_prefix s p).0
register (request_hook h) s = (http_server_on_request s h).0

abbrev pub register_all : List Registration → Server → Server
register_all [] s = s
register_all (x ∷ xs) s = register_all xs (register x s)

register-TablesFit : (x : Registration) (s : Server) → TablesFit s → TablesFit (register x s)
unfolding add_route http_server_add_public_prefix http_server_on_request
register-TablesFit (add method path handler prefix) s v = ground (
  arith,
  v,
  length-append s.routes
      (record { method = method; path = path; handler = handler; prefix = prefix } ∷ []),
)
register-TablesFit (public_prefix p) s v =
    ground (arith, v, length-append s.public_prefixes (p ∷ []))
register-TablesFit (request_hook h) s v = ground (arith, v, length-append s.request_hooks (h ∷ []))

-- However much is registered, the tables stay within their arrays: what does not fit is dropped.
pub register_all-TablesFit :
    (xs : List Registration) (s : Server) → TablesFit s → TablesFit (register_all xs s)
register_all-TablesFit [] s v = v
register_all-TablesFit (x ∷ xs) s v =
    register_all-TablesFit xs (register x s) (register-TablesFit x s v)
