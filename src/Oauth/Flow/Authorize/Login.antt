-- ===== src/Oauth/Flow/Authorize/Login.antt =====
-- When source/features/oauth/oauth.c issues an authorization code, and what it puts into the
-- Location header.
use sys_autopilot.Base.{
  ℕ, ◌+◌, ◌/◌, ◌%◌, ◌^◌, ◌<◌, ◌≡◌, ◌⊎◌, refl, true, not, ◌||◌, List, [], ◌∷◌, length, All,
  All-append, length-append, ltb, ◌==◌, if_both, arith, Bool-cases, inl, inr,
}
use sys_autopilot.Base.Bits.{bit_and_fifteen}
use sys_autopilot.Base.Tables.{all_below, all_below→at}
use sys_autopilot.Base.Text.{Bytes, IsByte, IsChar, codes}
use sys_autopilot.Sha256.{hex_char, hex_encode}
use sys_autopilot.Config.{Config}
use sys_autopilot.Http.Auth.{http_secure_streq}
use sys_autopilot.Http.Auth.Equality.{http_secure_streq_iff}
use sys_autopilot.Oauth.Text.{Sb, sb_puts, redirect_uri_ok}
use sys_autopilot.Oauth.Text.Url.{IsVisible, url_encode_append-IsVisible, redirect_uri_ok-IsVisible}
use sys_autopilot.Oauth.Codes.{AuthCode, code_create}
use sys_autopilot.Oauth.Flow.{Answer, Request, body_read, read_small_body, param_or_empty}
use sys_autopilot.Oauth.Flow.Params.{
  AreBytes, Read-cases, read_small_body-IsByte, param_or_empty-IsChar,
}
use sys_autopilot.Oauth.Flow.Authorize.{
  creds_configured, location_front, with_state, location, has_question, authorize,
  handle_authorize_post,
}

hex_table : all_below 16 (λ d. ltb 32 (hex_char d)) ≡ true
unfolding all_below
hex_table = refl

hex_char-IsVisible : (d : ℕ) → d < 16 → IsVisible (hex_char d)
hex_char-IsVisible d h = ground (arith, all_below→at 16 _ d hex_table h)

hex_encode-IsVisible : (bs : Bytes) → All IsByte bs → All IsVisible (hex_encode bs)
unfolding hex_encode
hex_encode-IsVisible [] a = tt
hex_encode-IsVisible (b ∷ bs) a = rw (bit_and_fifteen b) (
    (
      hex_char-IsVisible (b / 2 ^ 4) (omega (arith, a.0)),
      (hex_char-IsVisible (b % 16) (omega arith), hex_encode-IsVisible bs a.1),
    ))

-- A builder of visible characters, with room for the NUL.
abbrev IsGood : Sb → Type 0
IsGood sb = All IsVisible sb.buf × (length sb.buf < sb.cap) × (sb.cap ≡ 1024)

sb_puts-IsGood : (sb : Sb) (s : Bytes) → All IsVisible s → IsGood sb → IsGood (sb_puts sb s)
unfolding sb_puts
sb_puts-IsGood sb s a (v, h, n) =
    elim (Bool-cases (not sb.ok || ltb sb.cap (length sb.buf + length s + 1))) [
      | inl full ↦ rw full ((v, h, n))
      | inr room ↦
          rw room
            ((All-append IsVisible sb.buf s v a, ground (arith, room, length-append sb.buf s), n))
    ]

location_front-IsGood :
    (redirect_uri code : Bytes)
    → All IsVisible redirect_uri
    → All IsVisible code
    → IsGood (location_front redirect_uri code)
unfolding location_front
location_front-IsGood redirect_uri code u c = sb_puts-IsGood _ code c (
    sb_puts-IsGood _ _
      (if_both (All IsVisible) (has_question redirect_uri) (omega arith) (omega arith))
      (sb_puts-IsGood _ redirect_uri u (tt, omega arith, refl)))

with_state-IsGood :
    (sb : Sb) (state : Bytes) → All IsByte state → IsGood sb → IsGood (with_state sb state)
unfolding with_state
with_state-IsGood sb state a good =
    let (v, h, n) = sb_puts-IsGood sb (codes "&state=") (omega arith) good in
    let (v', h') = url_encode_append-IsVisible _ _ state a v h in
    if_both IsGood (length state == 0) good (v', h', n)

-- For a redirect URI that passes `redirect_uri_ok`, a state and random bytes, the Location header of
-- the login's redirect holds no byte up to 0x20, so no blank and no line break with which a redirect
-- URI or a state could add a header, and stays below the buffer's 1024 bytes.
pub location-IsVisible :
    (redirect_uri state rnd : Bytes)
    → redirect_uri_ok redirect_uri ≡ true
    → All IsByte state
    → All IsByte rnd
    → All IsVisible (location redirect_uri (hex_encode rnd) state).buf
      × (length (location redirect_uri (hex_encode rnd) state).buf < 1024)
unfolding location
location-IsVisible redirect_uri state rnd ok s r =
    let (v, h, n) = with_state-IsGood (location_front redirect_uri (hex_encode rnd)) state s (
      location_front-IsGood redirect_uri (hex_encode rnd)
        (redirect_uri_ok-IsVisible redirect_uri ok) (hex_encode-IsVisible rnd r)) in
    (v, omega (arith, h, n))

-- What a login must show; the codes are those that `code_create` leaves.
pub record IsLogin (cfg : Config) (now : ℕ) (rnd body : Bytes) (held held' : List AuthCode)
    : Type 0 where
  pub username_set : 0 < length cfg.username
  pub password_set : 0 < length cfg.password
  pub same_username : param_or_empty body (codes "username") 64 ≡ cfg.username
  pub same_password : param_or_empty body (codes "password") 64 ≡ cfg.password
  pub shown : All IsVisible (param_or_empty body (codes "redirect_uri") 512)
  pub uri_given : 0 < length (param_or_empty body (codes "redirect_uri") 512)
  pub challenge : 0 < length (param_or_empty body (codes "code_challenge") 96)
  pub created :
      held'
      ≡ code_create now rnd
          (param_or_empty body (codes "code_challenge") 96)
          (param_or_empty body (codes "redirect_uri") 512)
          held

-- The user name and the password of the configuration are C strings.
abbrev pub IsText : Config → Type 0
IsText cfg = All IsChar cfg.username × All IsChar cfg.password

some_uri : (uri : Bytes) → redirect_uri_ok uri ≡ true → 0 < length uri
unfolding redirect_uri_ok
some_uri uri h = ground (arith, h)

authorize-cases :
    (cfg : Config) (req : Request) (now : ℕ) (rnd body : Bytes) (held : List AuthCode)
    → let uri = param_or_empty body (codes "redirect_uri") 512 in
      let challenge = param_or_empty body (codes "code_challenge") 96 in
      ((authorize cfg req now rnd body held).1 ≡ held)
      ⊎ ((http_secure_streq (param_or_empty body (codes "username") 64) cfg.username ≡ true)
          × (http_secure_streq (param_or_empty body (codes "password") 64) cfg.password ≡ true)
          × (redirect_uri_ok uri ≡ true)
          × (0 < length challenge)
          × ((authorize cfg req now rnd body held).1 ≡ code_create now rnd challenge uri held))
unfolding authorize
authorize-cases cfg req now rnd body held =
    let uri = param_or_empty body (codes "redirect_uri") 512 in
    let challenge = param_or_empty body (codes "code_challenge") 96 in
    let user = http_secure_streq (param_or_empty body (codes "username") 64) cfg.username in
    let pass = http_secure_streq (param_or_empty body (codes "password") 64) cfg.password in
    elim (Bool-cases (not (redirect_uri_ok uri) || length challenge == 0)) [
      | inl bad ↦ inl (rw bad refl)
      | inr good ↦ elim (Bool-cases (not user || not pass)) [
        | inl bad ↦ inl (rw (good, bad) refl)
        | inr known ↦ inr (
          ground (arith, known),
          ground (arith, known),
          ground (arith, good),
          ground (arith, good),
          rw (good, known)
              (if_both
                (λ (r : Answer × List AuthCode). r.1 ≡ code_create now rnd challenge uri held) _
                refl refl),
        )
      ]
    ]

authorize-IsLogin :
    (cfg : Config) (req : Request) (now : ℕ) (rnd body : Bytes) (held : List AuthCode)
    → (0 < length cfg.username) × (0 < length cfg.password)
    → IsText cfg
    → All IsByte body
    → ((authorize cfg req now rnd body held).1 ≡ held)
      ⊎ IsLogin cfg now rnd body held (authorize cfg req now rnd body held).1
authorize-IsLogin cfg req now rnd body held (some_name, some_word) (name, word) a =
    elim (authorize-cases cfg req now rnd body held) [
      | inl kept ↦ inl kept
      | inr (user, pass, ok, given, made) ↦ inr (record {
        username_set = some_name;
        password_set = some_word;
        same_username =
            (http_secure_streq_iff _ cfg.username (param_or_empty-IsChar body _ 64 a) name).0 user;
        same_password =
            (http_secure_streq_iff _ cfg.password (param_or_empty-IsChar body _ 64 a) word).0 pass;
        shown = redirect_uri_ok-IsVisible _ ok;
        uri_given = some_uri _ ok;
        challenge = given;
        created = made;
      })
    ]

creds_configured-set :
    (cfg : Config)
    → creds_configured cfg ≡ true
    → (0 < length cfg.username) × (0 < length cfg.password)
unfolding creds_configured
creds_configured-set cfg on = (ground (arith, on), ground (arith, on))

-- Posting the login form changes the pending codes only when a user name and a password are
-- configured, the form's are equal to them, its redirect URI is given and has no byte up to 0x20, and a
-- challenge is given; then a code for that challenge and URI is created. The request's chunks are
-- bytes, and the configured texts are C strings.
pub handle_authorize_post-IsLogin :
    (cfg : Config) (req : Request) (now : ℕ) (rnd : Bytes) (held : List AuthCode)
    → IsText cfg
    → All AreBytes req.chunks
    → ((handle_authorize_post cfg req now rnd held).1 ≡ held)
      ⊎ ((body : Bytes) × (read_small_body req 4096 ≡ body_read body)
          × IsLogin cfg now rnd body held (handle_authorize_post cfg req now rnd held).1)
unfolding handle_authorize_post
handle_authorize_post-IsLogin cfg req now rnd held text a =
    elim (Bool-cases (creds_configured cfg)) [
      | inr off ↦ inl (rw off refl)
      | inl on ↦ elim (Read-cases (read_small_body req 4096)) [
        | inl (answer, e) ↦ inl (rw (on, e) refl)
        | inr (body, e) ↦
            elim (authorize-IsLogin cfg req now rnd body held (creds_configured-set cfg on) text
              (read_small_body-IsByte req 4096 body a e)) [
                | inl kept ↦ inl (rw (on, e) kept)
                | inr login ↦ inr (body, e, rw (on, e) login)
              ]
      ]
    ]
