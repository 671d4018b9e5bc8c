-- ===== src/Oauth/Flow/Authorize.antt =====
-- The login page and the authorization endpoint of source/features/oauth/oauth.c.
pub mod Login
use sys_autopilot.Base.{
  ℕ, Bool, true, false, not, ◌&&◌, ◌||◌, Option, none, some, List, [], ◌∷◌, ◌++◌, length, ◌==◌,
  if◌then◌else◌,
}
use sys_autopilot.Base.Text.{Bytes, codes, streq}
use sys_autopilot.Config.{Config}
use sys_autopilot.Request.{request_alloc}
use sys_autopilot.Http.Auth.{http_secure_streq}
use sys_autopilot.Oauth.Text.{Sb, sb_puts, sb_puts_html, url_encode_append, redirect_uri_ok}
use sys_autopilot.Oauth.Codes.{AuthCode, new_code, code_create}
use sys_autopilot.Oauth.Flow.{
  Answer, http_error, page, redirect, Request, body_read, unreadable, read_small_body,
  param_or_empty, query_or_empty,
}

unfoldable pub page_head : Bytes
page_head =
    codes "<!DOCTYPE html><html><head><meta charset=\"utf-8\">"
    ++ codes "<meta name=\"viewport\" content=\"width=device-width, initial-scale=1\">"
    ++ codes "<title>sys-autopilot</title><style>"
    ++ codes "body{font-family:-apple-system,system-ui,sans-serif;background:#1a1b1e;"
    ++ codes "color:#e8e8e8;display:flex;justify-content:center;align-items:center;"
    ++ codes "min-height:100vh;margin:0}"
    ++ codes "form{background:#26272b;padding:2rem;border-radius:12px;width:20rem;"
    ++ codes "display:flex;flex-direction:column;gap:.75rem}"
    ++ codes "h1{font-size:1.2rem;margin:0}"
    ++ codes "p{margin:0;color:#9a9aa3;font-size:.9rem}"
    ++ codes ".err{color:#ff6b6b;font-size:.9rem;margin:0}"
    ++ codes "input{background:#1a1b1e;border:1px solid #3a3b40;border-radius:8px;"
    ++ codes "padding:.6rem .8rem;color:#e8e8e8;font-size:1rem}"
    ++ codes "button{background:#e60012;border:none;border-radius:8px;padding:.7rem;"
    ++ codes "color:#fff;font-size:1rem;font-weight:600;cursor:pointer}"
    ++ codes "</style></head><body>"

abbrev page_foot : Bytes
page_foot = codes "</body></html>"

unfoldable pub hidden_input : Sb → Bytes → Bytes → Sb
hidden_input sb name value =
    sb_puts
      (sb_puts_html
        (sb_puts (sb_puts (sb_puts sb (codes "<input type=\"hidden\" name=\"")) name)
          (codes "\" value=\""))
        value)
      (codes "\">")

unfoldable pub error_line : Sb → Option Bytes → Sb
error_line sb none = sb
error_line sb (some error) =
    sb_puts (sb_puts_html (sb_puts sb (codes "<p class=\"err\">")) error) (codes "</p>")

-- The page's builder at the end.
unfoldable pub login_page : Option Bytes → Bytes → Bytes → Bytes → Sb
login_page error redirect_uri state challenge =
    let front = sb_puts (sb_puts (record { cap = 8192; buf = []; ok = true }) page_head) (
      codes "<form method=\"POST\" action=\"/oauth/authorize\">"
      ++ codes "<h1>sys-autopilot</h1>"
      ++ codes "<p>An application is requesting access to your Switch.</p>") in
    let first = hidden_input (error_line front error) (codes "redirect_uri") redirect_uri in
    let second = hidden_input first (codes "state") state in
    let third = hidden_input second (codes "code_challenge") challenge in
    sb_puts
      (sb_puts third (
        codes "<input name=\"username\" placeholder=\"Username\" autofocus>"
        ++ codes "<input type=\"password\" name=\"password\" placeholder=\"Password\">"
        ++ codes "<button>Sign in</button></form>"))
      page_foot

unfoldable pub send_login_page : Request → ℕ → Option Bytes → Bytes → Bytes → Bytes → Answer
send_login_page req mem_used error redirect_uri state challenge =
    let sb = login_page error redirect_uri state challenge in
    elim (request_alloc req.mcp mem_used 8192).0 as (λ _. Answer) [
      | none ↦ http_error 500 (codes "out of request memory")
      | some buf ↦
          if sb.ok then page 200 sb.buf else http_error 400 (codes "request parameters too long")
    ]

-- config_basic_enabled
unfoldable pub creds_configured : Config → Bool
creds_configured cfg = not (length cfg.username == 0) && not (length cfg.password == 0)

abbrev no_credentials_page : Bytes
no_credentials_page =
    page_head
    ++ codes "<form><h1>sys-autopilot</h1>"
    ++ codes "<p class=\"err\">No credentials configured. Set username and "
    ++ codes "password in config/sys-autopilot/config.ini on the SD card "
    ++ codes "and reboot, then try again.</p></form>"
    ++ page_foot

unfoldable pub handle_authorize_get : Config → Request → Answer
handle_authorize_get cfg req =
    let redirect_uri = query_or_empty req (codes "redirect_uri") 512 in
    let state = query_or_empty req (codes "state") 256 in
    let challenge = query_or_empty req (codes "code_challenge") 96 in
    let method = query_or_empty req (codes "code_challenge_method") 16 in
    if not (creds_configured cfg)
    then page 403 no_credentials_page
    else if not (redirect_uri_ok redirect_uri)
    then http_error 400 (codes "missing or invalid redirect_uri")
    else if length challenge == 0 || (not (length method == 0) && not (streq method (codes "S256")))
    then http_error 400 (codes "PKCE S256 code_challenge required")
    else send_login_page req req.mem_used none redirect_uri state challenge

unfoldable pub has_question : Bytes → Bool
has_question [] = false
has_question (c ∷ cs) = c == b'?' || has_question cs

-- The builder of the redirect's location with the code, and with the state behind it.
unfoldable pub location_front : Bytes → Bytes → Sb
location_front redirect_uri code =
    let separator = (if has_question redirect_uri then codes "&code=" else codes "?code=") in
    let start : Sb = record { cap = 1024; buf = []; ok = true } in
    sb_puts (sb_puts (sb_puts start redirect_uri) separator) code

unfoldable pub with_state : Sb → Bytes → Sb
with_state sb state =
    let marked = sb_puts sb (codes "&state=") in
    let (buf, ok) = url_encode_append marked.cap marked.buf state in
    if length state == 0 then sb else record marked { buf = buf; ok = ok && marked.ok }

unfoldable pub location : Bytes → Bytes → Bytes → Sb
location redirect_uri code state = with_state (location_front redirect_uri code) state

-- The answer and the pending codes; `now` and `rnd` are the clock and the random bytes.
unfoldable pub authorize :
    Config → Request → ℕ → Bytes → Bytes → List AuthCode → Answer × List AuthCode
authorize cfg req now rnd body codes_held =
    let redirect_uri = param_or_empty body (codes "redirect_uri") 512 in
    let state = param_or_empty body (codes "state") 256 in
    let challenge = param_or_empty body (codes "code_challenge") 96 in
    let username = param_or_empty body (codes "username") 64 in
    let password = param_or_empty body (codes "password") 64 in
    let held' = code_create now rnd challenge redirect_uri codes_held in
    let sb = location redirect_uri (new_code now rnd challenge redirect_uri).code state in
    if not (redirect_uri_ok redirect_uri) || length challenge == 0
    then (http_error 400 (codes "missing or invalid OAuth parameters"), codes_held)
    else if not (http_secure_streq username cfg.username)
        || not (http_secure_streq password cfg.password)
    then (
      send_login_page req (request_alloc req.mcp req.mem_used 4096).1
          (some (codes "Incorrect username or password.")) redirect_uri state challenge,
      codes_held,
    )
    else if sb.ok
    then (redirect sb.buf, held')
    else (http_error 400 (codes "redirect_uri too long"), held')

unfoldable pub handle_authorize_post :
    Config → Request → ℕ → Bytes → List AuthCode → Answer × List AuthCode
handle_authorize_post cfg req now rnd codes_held =
    if not (creds_configured cfg)
    then (http_error 403 (codes "no credentials configured"), codes_held)
    else elim (read_small_body req 4096) as (λ _. Answer × List AuthCode) [
      | unreadable answer ↦ (answer, codes_held)
      | body_read body ↦ authorize cfg req now rnd body codes_held
    ]
