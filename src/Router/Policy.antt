-- ===== src/Router/Policy.antt =====
-- The authentication policy of source/core/http_router.c: the requests that reach a handler.
use sys_autopilot.Base.{
  ℕ, zero, suc, ◌≡◌, ◌≢◌, refl, ap, ◌∙◌, Bool, true, false, not, ◌&&◌, none, some, List, [], ◌∷◌,
  All, arith, drop, Bool-cases, Option-cases, inl, inr, ◌⊎◌, ◌==◌,
}
use sys_autopilot.Base.Text.{Bytes, codes, streq_iff, starts_with, IsChar}
use sys_autopilot.Http.Auth.{http_check_basic_auth, http_get_bearer, http_secure_streq, skip_spaces}
use sys_autopilot.Http.Auth.Equality.{http_secure_streq_iff}
use sys_autopilot.Http.Auth.Credentials.{Carries, http_check_basic_auth-Carries}
use sys_autopilot.Router.{
  Server, Credentials, Request, is_empty, config_basic_enabled, config_auth_enabled, any_prefix,
  is_options, path_is_public, validate_bearer, authorized, Action, handled, unauthorized,
  http_server_dispatch,
}

abbrev pub Contains : Action → List Action → Type 0
Contains a [] = ⊥
Contains a (b ∷ bs) = (a ≡ b) ⊎ Contains a bs

abbrev pub SomePrefix : Bytes → List Bytes → Type 0
SomePrefix path [] = ⊥
SomePrefix path (p ∷ ps) = (starts_with path p ≡ true) ⊎ SomePrefix path ps

-- Why a request may be served.
pub data Allowed (s : Server) (cfg : Credentials) (req : Request) : Type 0 where
  open_server : cfg.token ≡ [] → (cfg.username ≡ []) ⊎ (cfg.password ≡ []) → Allowed s cfg req
  preflight_request : req.method ≡ codes "OPTIONS" → Allowed s cfg req
  public_path : SomePrefix req.path s.public_prefixes → Allowed s cfg req
  basic_login :
      cfg.username ≢ []
      → cfg.password ≢ []
      → Carries req.auth cfg.username cfg.password
      → Allowed s cfg req
  static_token : http_get_bearer req.auth 160 ≡ some cfg.token → cfg.token ≢ [] → Allowed s cfg req
  issued_token :
      (bearer : Bytes) (valid : Bytes → Bool)
      → s.token_validator ≡ some valid
      → http_get_bearer req.auth 160 ≡ some bearer
      → valid bearer ≡ true
      → Allowed s cfg req

-- The texts involved are C strings.
pub record AreChars (cfg : Credentials) (req : Request) : Type 0 where
  pub username_chars : All IsChar cfg.username
  pub password_chars : All IsChar cfg.password
  pub token_chars : All IsChar cfg.token
  pub auth_chars : All IsChar req.auth

is_empty_nil : (t : Bytes) → is_empty t ≡ true → t ≡ []
is_empty_nil [] h = refl
is_empty_nil (c ∷ cs) h = cc

is_empty_ne : (t : Bytes) → is_empty t ≡ false → t ≢ []
is_empty_ne [] h = cc
is_empty_ne (c ∷ cs) h = λ e. cc

auth_disabled :
    (s : Server) (cfg : Credentials) (req : Request)
    → config_auth_enabled cfg ≡ false
    → Allowed s cfg req
unfolding config_auth_enabled config_basic_enabled
auth_disabled s cfg req h =
    open_server (is_empty_nil cfg.token (ground (arith, h))) (half (ground (arith, h)))
  where
    half :
        (is_empty cfg.username ≡ true) ⊎ (is_empty cfg.password ≡ true)
        → (cfg.username ≡ []) ⊎ (cfg.password ≡ [])
    half (inl e) = inl (is_empty_nil cfg.username e)
    half (inr e) = inr (is_empty_nil cfg.password e)

any_prefix-SomePrefix :
    (path : Bytes) (ps : List Bytes) → any_prefix path ps ≡ true → SomePrefix path ps
unfolding any_prefix
any_prefix-SomePrefix path [] h = cc
any_prefix-SomePrefix path (p ∷ ps) h = elim (Bool-cases (starts_with path p)) [
  | inl e ↦ inl e
  | inr e ↦ inr (any_prefix-SomePrefix path ps (ground (arith, e, h)))
]

public-Allowed :
    (s : Server) (cfg : Credentials) (req : Request)
    → path_is_public s req ≡ true
    → Allowed s cfg req
unfolding path_is_public
public-Allowed s cfg req h = elim (Bool-cases (is_options req)) [
  | inl e ↦ preflight_request ((streq_iff req.method (codes "OPTIONS")).0 e)
  | inr e ↦ public_path (any_prefix-SomePrefix req.path s.public_prefixes (ground (arith, e, h)))
]

skip_spaces-IsChar : (t : Bytes) → All IsChar t → All IsChar (skip_spaces t)
unfolding skip_spaces
skip_spaces-IsChar [] h = tt
skip_spaces-IsChar (c ∷ cs) h = elim (Bool-cases (c == b' ')) [
  | inl e ↦ rw e (skip_spaces-IsChar cs h.1)
  | inr e ↦ rw e h
]

drop-IsChar : (n : ℕ) (t : Bytes) → All IsChar t → All IsChar (drop n t)
drop-IsChar zero t h = h
drop-IsChar (suc n) [] h = tt
drop-IsChar (suc n) (c ∷ cs) h = drop-IsChar n cs h.1

bearer_text :
    (auth bearer : Bytes)
    → http_get_bearer auth 160 ≡ some bearer
    → bearer ≡ skip_spaces (drop 7 auth)
unfolding http_get_bearer
bearer_text auth bearer h = ground (arith, h)

bearer-Allowed :
    (s : Server) (cfg : Credentials) (req : Request) (bearer : Bytes)
    → AreChars cfg req
    → http_get_bearer req.auth 160 ≡ some bearer
    → validate_bearer s cfg bearer ≡ true
    → Allowed s cfg req
bearer-Allowed s cfg req bearer t got h =
    elim (Bool-cases (not (is_empty cfg.token) && http_secure_streq bearer cfg.token)) [
      | inl static ↦
          let same =
            (http_secure_streq_iff bearer cfg.token chars t.token_chars).0
              (ground (arith, static)) in
          static_token (got ∙ ap some same) (is_empty_ne cfg.token (ground (arith, static)))
      | inr other ↦ elim (Option-cases s.token_validator) [
        | inl unset ↦ absurd (cc (unset_refuses other unset))
        | inr (valid, set) ↦ issued_token bearer valid set got (valid_accepts other valid set)
      ]
    ]
  where
    chars : All IsChar bearer
    chars =
        rw (bearer_text req.auth bearer got)
          (skip_spaces-IsChar _ (drop-IsChar 7 req.auth t.auth_chars))

    unset_refuses :
        (not (is_empty cfg.token) && http_secure_streq bearer cfg.token) ≡ false
        → s.token_validator ≡ none
        → false ≡ true
    unset_refuses other unset = unfold validate_bearer in ground (arith, h, other, unset)

    valid_accepts :
        (not (is_empty cfg.token) && http_secure_streq bearer cfg.token) ≡ false
        → (valid : Bytes → Bool) → s.token_validator ≡ some valid
        → valid bearer ≡ true
    valid_accepts other valid set = unfold validate_bearer in ground (arith, h, other, set)

authorized-Allowed :
    (s : Server) (cfg : Credentials) (req : Request)
    → AreChars cfg req
    → (authorized s cfg req).0 ≡ true
    → Allowed s cfg req
unfolding authorized
authorized-Allowed s cfg req t h =
    elim (Bool-cases
      (config_basic_enabled cfg && http_check_basic_auth req.auth cfg.username cfg.password)) [
        | inl basic ↦
            basic_login
              (is_empty_ne cfg.username (unfold config_basic_enabled in ground (arith, basic)))
              (is_empty_ne cfg.password (unfold config_basic_enabled in ground (arith, basic)))
              (http_check_basic_auth-Carries req.auth cfg.username cfg.password t.username_chars
                t.password_chars (ground (arith, basic)))
        | inr other ↦ elim (Option-cases (http_get_bearer req.auth 160)) [
          | inl absent ↦ absurd (cc (nothing other absent))
          | inr (bearer, got) ↦
              bearer-Allowed s cfg req bearer t got (ground (arith, h, other, got))
        ]
      ]
  where
    nothing :
        (config_basic_enabled cfg && http_check_basic_auth req.auth cfg.username cfg.password)
          ≡ false
        → http_get_bearer req.auth 160 ≡ none
        → false ≡ true
    nothing other absent = ground (arith, h, other, absent)

-- A handler runs only for a request that may be served: the server has no credentials set, or the
-- request is a preflight, or its path is public, or it carries the configured user and password, the
-- configured token, or a token that the OAuth validator accepts.
pub http_server_dispatch-Allowed :
    (s : Server) (cfg : Credentials) (req : Request) (handler : ℕ)
    → AreChars cfg req
    → Contains (handled handler) (http_server_dispatch s cfg req).0
    → Allowed s cfg req
unfolding http_server_dispatch
http_server_dispatch-Allowed s cfg req handler t h = elim (Bool-cases (config_auth_enabled cfg)) [
  | inr off ↦ auth_disabled s cfg req off
  | inl on ↦ elim (Bool-cases (path_is_public s req)) [
    | inl public ↦ public-Allowed s cfg req public
    | inr closed ↦ elim (Bool-cases (authorized s cfg req).0) [
      | inl granted ↦ authorized-Allowed s cfg req t granted
      | inr refused ↦ absurd (never (rw (on, closed, refused) at h))
    ]
  ]
]
  where
    never : Contains (handled handler) (unauthorized (authorized s cfg req).1 ∷ []) → ⊥
    never (inl e) = cc
    never (inr e) = e
