-- ===== src/Tests/Oauth.antt =====
-- Runs and instances for Oauth.
use sys_autopilot.Base.{
  ℕ, ◌<◌, ◌≤◌, ◌≡◌, ◌≢◌, ◌⊎◌, ◌↔◌, refl, true, false, some, List, [], ◌∷◌, length, get_or, ap,
  replicate, All, arith,
}
use sys_autopilot.Base.Text.{Bytes, codes}
use sys_autopilot.Sha256.{
  sha256_hash, hex_encode, ctx_final, ctx_pad, ctx_update, ctx_byte, ctx_init, transform, words,
  schedule, rounds, round, vars_of, length_bytes, state_bytes,
}
use sys_autopilot.Config.{Config, default_config, fgets}
use sys_autopilot.Http.Auth.{http_secure_streq, diff_loop}
use sys_autopilot.Http.Params.{
  http_param_get, param_loop, split_amp, url_decode, url_decode_loop, decode_char,
}
use sys_autopilot.Json.Escape.{hex_value}
use sys_autopilot.Http.Response.{http_send_json, http_send_response}
use sys_autopilot.Oauth.Text.{redirect_uri_ok, uri_chars_ok, has_scheme}
use sys_autopilot.Oauth.Text.Safety.{IsInert, Escaped, Appends, html_escape_append_iff}
use sys_autopilot.Oauth.Text.Url.{IsVisible}
use sys_autopilot.Oauth.Codes.{
  AuthCode, no_codes, pick_slot, first_deadline, new_code, code_create, takes, spent, code_take,
}
use sys_autopilot.Oauth.Codes.Single.{Event, Reach, Issued, IsUnused, issued, code_take-Reach}
use sys_autopilot.Oauth.Tokens.{
  Store, File, Answers, digest_diff, digest_eq, lines_loop, file_lines, line_token, skip_blanks,
  first_field, length_ok, load_loop, tokens_load, tokens_refresh, match_loop, oauth_token_valid,
  token_line, oauth_mint_token, oauth_revoke_token,
}
use sys_autopilot.Oauth.Tokens.Lines.{without}
use sys_autopilot.Oauth.Tokens.Table.{oauth_mint_token-valid_iff}
use sys_autopilot.Oauth.Tokens.Revoke.{
  NoCollision, oauth_revoke_token-without, oauth_revoke_token-refused,
}
use sys_autopilot.Oauth.Flow.{Request, json, param_or_empty, read_loop, read_small_body, body_read}
use sys_autopilot.Request.{aligned, request_alloc}
use sys_autopilot.Mcp.Server.{is_object}
use sys_autopilot.Json.Document.{
  Token, TokenType, JsonDoc, json_obj_get, obj_loop, json_skip, skip_loop,
}
use sys_autopilot.Oauth.Flow.Metadata.{registration, handle_register}
use sys_autopilot.Oauth.Flow.Metadata.Sizes.{GivesUris, handle_register-sent}
use sys_autopilot.Oauth.Flow.Authorize.{location, handle_authorize_post}
use sys_autopilot.Oauth.Flow.Authorize.Login.{
  IsLogin, location-IsVisible, handle_authorize_post-IsLogin,
}
use sys_autopilot.Oauth.Flow.Token.{State, World, grant, token_reply}
use sys_autopilot.Oauth.Flow.Token.Safety.{IsText, NoToken, IsEntitled, grant-IsEntitled}
use sys_autopilot.Oauth.Flow.Token.Granted.{Redeems, challenge_of, grant-code_create}

html_escape_append_iff_example :
    (text : Bytes) × Escaped (codes "<a'\">") text
    × All IsInert text
    × Appends 40 (codes "x") (codes "<a'\">") text
html_escape_append_iff_example =
    html_escape_append_iff 40 (codes "x") (codes "<a'\">") (omega arith)

-- A client that registers one redirect URI, and what jsmn makes of its document.
abbrev client_text : Bytes
client_text = codes "{\"redirect_uris\":[\"a:b\"]}"

abbrev token : TokenType → ℕ → ℕ → ℕ → Token
token kind start stop size = record { kind = kind; start = start; stop = stop; size = size }

abbrev client_doc : JsonDoc
client_doc = record {
  src = client_text;
  tok = λ i.
      get_or
        (token TokenType.object 0 25 1
          ∷ token TokenType.string 2 15 1
          ∷ token TokenType.array 17 24 1
          ∷ token TokenType.string 19 22 0
          ∷ [])
        i (token TokenType.primitive 0 0 0);
  ntok = 4;
}

abbrev client_request : Request
client_request = record {
  has_content_length = true;
  content_length = length client_text;
  chunks = some client_text ∷ [];
  query = [];
  host = [];
  mcp = true;
  mem_used = 0;
}

client_gives : GivesUris (λ body. some client_doc) client_request client_doc 2
unfolding read_small_body read_loop request_alloc aligned json_obj_get obj_loop json_skip skip_loop
    is_object
client_gives = record {
  body = client_text;
  read = refl;
  parsed = refl;
  object = refl;
  found = refl;
  inside = omega arith;
  array = refl;
  stop_inside = omega arith;
}

handle_register-sent_example :
    (reply : Bytes) × (handle_register (λ body. some client_doc) client_request ≡ json 201 reply)
    × (http_send_json true 201 reply
        ≡ http_send_response true 201 (codes "application/json") (registration (codes "[\"a:b\"]")))
handle_register-sent_example =
    handle_register-sent true (λ body. some client_doc) client_request client_doc 2 client_gives

abbrev some_uri : Bytes
some_uri = codes "http://localhost/cb"

some_uri_ok : redirect_uri_ok some_uri ≡ true
unfolding redirect_uri_ok uri_chars_ok has_scheme
some_uri_ok = refl

location-IsVisible_example :
    All IsVisible (location some_uri (hex_encode (1 ∷ 171 ∷ [])) (codes "a b")).buf
    × (length (location some_uri (hex_encode (1 ∷ 171 ∷ [])) (codes "a b")).buf < 1024)
location-IsVisible_example =
    location-IsVisible some_uri (codes "a b") (1 ∷ 171 ∷ []) some_uri_ok (omega arith) (omega arith)

abbrev with_login : Config
with_login = record default_config { username = codes "me"; password = codes "pw" }

abbrev form : Bytes
form =
    codes
      "redirect_uri=http%3A%2F%2Flocalhost%2Fcb&state=s&code_challenge=x&username=me&password=pw"

abbrev login_request : Request
login_request = record {
  has_content_length = true;
  content_length = length form;
  chunks = some form ∷ [];
  query = [];
  host = [];
  mcp = true;
  mem_used = 0;
}

handle_authorize_post-IsLogin_example :
    ((handle_authorize_post with_login login_request 100 (7 ∷ []) no_codes).1 ≡ no_codes)
    ⊎ ((body : Bytes) × (read_small_body login_request 4096 ≡ body_read body)
        × IsLogin with_login 100
            (7 ∷ [])
            body
            no_codes
            (handle_authorize_post with_login login_request 100 (7 ∷ []) no_codes).1)
handle_authorize_post-IsLogin_example =
    handle_authorize_post-IsLogin with_login login_request 100 (7 ∷ []) no_codes (omega arith)
      (omega arith)

abbrev one_issued : List Event
one_issued = issued 100 (hex_encode (7 ∷ [])) (codes "x") some_uri ∷ []

one_code : Reach (code_create 100 (7 ∷ []) (codes "x") some_uri no_codes) one_issued
one_code = Reach.create 100 (7 ∷ []) (codes "x") some_uri tt Reach.boot

one_taken :
    (code_take 400 (codes "07") (code_create 100 (7 ∷ []) (codes "x") some_uri no_codes)).0
    ≡ some (spent (new_code 100 (7 ∷ []) (codes "x") some_uri))
unfolding code_take code_create no_codes pick_slot first_deadline takes new_code hex_encode
    http_secure_streq diff_loop
one_taken = refl

code_take-Reach_example :
    (d : AuthCode) × Issued one_issued d
    × IsUnused one_issued d.code
    × (400 ≤ d.expires_at)
    × (http_secure_streq (codes "07") d.code ≡ true)
    × (spent (new_code 100 (7 ∷ []) (codes "x") some_uri) ≡ spent d)
code_take-Reach_example = code_take-Reach 400 (codes "07") one_code one_taken

abbrev some_world : World
some_world = record { now = 200; rnd = replicate 32 9; opens = true; stamp = []; mtime = some 5 }

abbrev empty_state : State
empty_state = record { held = no_codes; file = []; store = record { digests = []; mtime = 0 } }

abbrev token_form : Bytes
token_form =
    codes "grant_type=authorization_code&code=07&code_verifier=v&redirect_uri=http://localhost/cb"

-- The state behind the authorization of `one_issued`.
abbrev issued_state : State
issued_state = record empty_state { held = code_create 100 (7 ∷ []) (codes "x") some_uri no_codes }

one_issued-IsText : All IsText one_issued
unfolding hex_encode
one_issued-IsText = omega arith

grant-IsEntitled_example :
    NoToken issued_state (grant some_world token_form issued_state).1
    ⊎ IsEntitled some_world token_form one_issued
grant-IsEntitled_example =
    grant-IsEntitled some_world token_form issued_state one_issued one_code one_issued-IsText
      (omega arith)

token_form-Redeems : Redeems token_form (hex_encode (7 ∷ [])) (codes "v") some_uri
unfolding param_or_empty http_param_get param_loop split_amp url_decode url_decode_loop decode_char
    hex_value hex_encode
token_form-Redeems = record {
  grant_type = refl;
  code_given = refl;
  some_code = omega arith;
  verifier_given = refl;
  some_verifier = omega arith;
  same_uri = refl;
}

none_live : All (λ c. takes 200 (hex_encode (7 ∷ [])) c ≡ false) no_codes
unfolding no_codes takes
none_live = (refl, (refl, (refl, (refl, (refl, (refl, (refl, (refl, tt))))))))

eight_slots : 0 < length no_codes
unfolding no_codes
eight_slots = omega arith

grant-code_create_example :
    let made = record empty_state {
      held = code_create 100 (7 ∷ []) (challenge_of (codes "v")) some_uri no_codes;
    } in
    ((grant some_world token_form made).0 ≡ json 200 (token_reply (hex_encode (replicate 32 9))))
    × ((grant some_world token_form made).1.file
        ≡ token_line (hex_encode (replicate 32 9)) [] (codes "via oauth login"))
grant-code_create_example =
    grant-code_create some_world token_form (codes "v") some_uri (7 ∷ []) 100 empty_state
      token_form-Redeems refl eight_slots (omega arith) (omega arith) none_live

oauth_mint_token-valid_iff_example :
    let minted =
      oauth_mint_token true []
        (some 5)
        []
        (replicate 32 9)
        65
        []
        (record { digests = []; mtime = 0 }) in
    let file : File = record { stat = some 5; bytes = some minted.1 } in
    (minted.0 ≡ some (hex_encode (replicate 32 9)))
    × (((oauth_token_valid file (hex_encode (replicate 32 9)) minted.2).0 ≡ true) ↔ ((0 < 32) ⊎ ⊥))
oauth_mint_token-valid_iff_example =
    oauth_mint_token-valid_iff [] [] (replicate 32 9) [] 65 5 (record { digests = []; mtime = 0 })
      refl (omega arith) tt

-- Two tokens, the first with a note.
abbrev first_token : Bytes
first_token = codes "aaaaaaaaaaaaaaaa"

abbrev tokens_txt : Bytes
tokens_txt = codes "aaaaaaaaaaaaaaaa # phone\nbbbbbbbbbbbbbbbb\n"

abbrev tokens_file : File
tokens_file = record { stat = some 5; bytes = some tokens_txt }

abbrev unread : Store
unread = record { digests = []; mtime = 0 }

abbrev sound_answers : Answers
sound_answers = record { tmp_opens = true; renamed = true; time = some 6 }

revoked : (oauth_revoke_token sound_answers tokens_file first_token unread).0 ≡ true
unfolding oauth_revoke_token oauth_token_valid tokens_refresh tokens_load load_loop file_lines
    lines_loop fgets line_token skip_blanks first_field length_ok match_loop digest_eq digest_diff
    sha256_hash ctx_final ctx_pad ctx_update ctx_byte ctx_init transform words schedule rounds round
    vars_of length_bytes state_bytes
revoked = refl

tokens_txt-lines :
    file_lines tokens_txt ≡ codes "aaaaaaaaaaaaaaaa # phone\n" ∷ codes "bbbbbbbbbbbbbbbb\n" ∷ []
unfolding file_lines lines_loop fgets
tokens_txt-lines = refl

oauth_revoke_token-without_example :
    (kept : Bytes) × ((oauth_revoke_token sound_answers tokens_file first_token unread).1
      ≡ some kept)
    × (file_lines kept ≡ without first_token (file_lines tokens_txt))
    × ((oauth_revoke_token sound_answers tokens_file first_token unread).2.digests
        ≡ load_loop 32 (without first_token (file_lines tokens_txt)))
oauth_revoke_token-without_example =
    oauth_revoke_token-without sound_answers tokens_file first_token unread tokens_txt (omega arith)
      refl revoked

-- The first line holds the token itself, the second's digest differs.
first_token-alone : NoCollision first_token (file_lines tokens_txt)
unfolding file_lines lines_loop fgets line_token skip_blanks first_field sha256_hash ctx_final
    ctx_pad ctx_update ctx_byte ctx_init transform words schedule rounds round vars_of length_bytes
    state_bytes
first_token-alone =
    (λ e. refl, (λ e. absurd (omega (arith, ap (λ (t : Bytes). get_or t 0 0) e)), tt))

oauth_revoke_token-refused_example :
    let after = oauth_revoke_token sound_answers tokens_file first_token unread in
    let file : File = record { stat = some 6; bytes = after.1 } in
    (oauth_token_valid file first_token after.2).0 ≢ true
oauth_revoke_token-refused_example =
    oauth_revoke_token-refused sound_answers tokens_file first_token unread tokens_txt (omega arith)
      first_token-alone refl revoked
