-- ===== src/Oauth/Flow/Metadata/Sizes.antt =====
-- Which replies of source/features/oauth/oauth.c fit the buffers of source/core/http.c.
use sys_autopilot.Base.{
  ℕ, ◌+◌, ◌-◌, ◌*◌, ◌≤◌, ◌<◌, ◌≡◌, ◌≢◌, refl, Bool, true, false, Option, none, some, [], ◌∷◌, drop,
  length, length-append, length-take, length-drop, ltb, leb, le→leb, if◌then◌else◌, arith,
  Bool-cases, inl, inr, ap,
}
use sys_autopilot.Base.Text.{Bytes, codes}
use sys_autopilot.Http.Response.{
  redirect_header, http_send_redirect, http_send_json, http_send_response, conn_hdr,
}
use sys_autopilot.Config.{Config}
use sys_autopilot.Json.Document.{JsonDoc, TokenType, text, json_obj_get, json_raw}
use sys_autopilot.Mcp.Server.{is_object}
use sys_autopilot.Oauth.Flow.{Request, json, body_read, read_small_body}
use sys_autopilot.Oauth.Flow.Metadata.{
  base_text, base_url, as_metadata, registration, echoed_uris, handle_register,
}

length-as_metadata : (base : Bytes) → length (as_metadata base) ≡ 307 + 4 * length base
unfolding as_metadata
length-as_metadata base = grind (arith, length-append)

length-registration : (uris : Bytes) → length (registration uris) ≡ 145 + length uris
unfolding registration
length-registration uris = grind (arith, length-append)

gt→leb : (text : Bytes) → length text < 1024 → leb 1024 (length text) ≡ false
gt→leb text h = ground arith

length-base_url :
    (cfg : Config) (serial : Bytes) (req : Request) → length (base_url cfg serial req 160) ≤ 159
unfolding base_url
length-base_url cfg serial req = omega (arith, length-take 159 (base_text cfg serial req))

-- The authorization server's document is sent whole for any base URL that `base_url` can give.
pub as_metadata-whole :
    (keep_alive : Bool) (cfg : Config) (serial : Bytes) (req : Request)
    → http_send_json keep_alive 200 (as_metadata (base_url cfg serial req 160))
      ≡ http_send_response keep_alive 200
          (codes "application/json")
          (as_metadata (base_url cfg serial req 160))
unfolding http_send_json
as_metadata-whole keep_alive cfg serial req =
    let base = base_url cfg serial req 160 in
    let fits : length (as_metadata base) < 1024 =
      omega (arith, length-as_metadata base, length-base_url cfg serial req) in
    rw (gt→leb (as_metadata base) fits) refl

-- The array that a client gives as its redirect URIs, in a document that `json_parse` accepted, with
-- offsets as jsmn sets them.
pub record GivesUris (json_parse : Bytes → Option JsonDoc) (req : Request) (doc : JsonDoc) (i : ℕ)
    : Type 0 where
  pub body : Bytes
  pub read : read_small_body req 8192 ≡ body_read body
  pub parsed : json_parse body ≡ some doc
  pub object : is_object doc ≡ true
  pub found : json_obj_get doc (some 0) (codes "redirect_uris") ≡ some i
  pub inside : i < doc.ntok
  pub array : (doc.tok i).kind ≡ TokenType.array
  pub stop_inside : (doc.tok i).stop ≤ length doc.src

length-text :
    (doc : JsonDoc) (i : ℕ)
    → (doc.tok i).stop ≤ length doc.src
    → length (text doc i) ≡ (doc.tok i).stop - (doc.tok i).start
length-text doc i h = omega (
  arith,
  h,
  length-drop (doc.tok i).start doc.src,
  length-take ((doc.tok i).stop - (doc.tok i).start) (drop (doc.tok i).start doc.src),
)

json_raw-array :
    (doc : JsonDoc) (i : ℕ)
    → i < doc.ntok
    → (doc.tok i).kind ≡ TokenType.array
    → (doc.tok i).stop ≤ length doc.src
    → json_raw doc (some i) 1024
      ≡ (if ltb (length (text doc i)) 1024 then some (text doc i) else none)
unfolding json_raw
json_raw-array doc i inside kind h = rw kind (ground (arith, inside, length-text doc i h))

abbrev uris_kept : Bytes → Bytes
uris_kept raw = if ltb (length raw) 1024 then raw else codes "[]"

echoed_uris-GivesUris :
    (json_parse : Bytes → Option JsonDoc) (req : Request) (doc : JsonDoc) (i : ℕ)
    → GivesUris json_parse req doc i
    → echoed_uris (some doc) ≡ uris_kept (text doc i)
unfolding echoed_uris
echoed_uris-GivesUris json_parse req doc i g =
    rw (g.object, g.found, json_raw-array doc i g.inside g.array g.stop_inside, echoed_uris)
      (ground arith)

handle_register-GivesUris :
    (json_parse : Bytes → Option JsonDoc) (req : Request) (doc : JsonDoc) (i : ℕ)
    → GivesUris json_parse req doc i
    → handle_register json_parse req ≡ json 201 (registration (uris_kept (text doc i)))
unfolding handle_register
handle_register-GivesUris json_parse req doc i g =
    rw (g.read, handle_register)
      (rw g.parsed (
        ap (λ (uris : Bytes). json 201 (registration uris))
          (echoed_uris-GivesUris json_parse req doc i g)))

sent_whole :
    (keep_alive : Bool) (reply : Bytes)
    → length reply < 1024
    → http_send_json keep_alive 201 reply
      ≡ http_send_response keep_alive 201 (codes "application/json") reply
unfolding http_send_json
sent_whole keep_alive reply h = rw (gt→leb reply h) refl

sent_error :
    (keep_alive : Bool) (reply : Bytes)
    → 1024 ≤ length reply
    → http_send_json keep_alive 201 reply
      ≡ http_send_response keep_alive 500
          (codes "application/json")
          (codes "{\"error\":\"response too large\"}")
unfolding http_send_json
sent_error keep_alive reply h = rw (le→leb 1024 (length reply) h) refl

-- What the registration of a client that gives an array of redirect URIs is answered with: the array
-- itself with status 201 for up to 878 bytes, an error with status 500 for 879 to 1023 bytes, and an
-- empty array with status 201 for more. The request's body is read and parsed.
pub handle_register-sent :
    (keep_alive : Bool) (json_parse : Bytes → Option JsonDoc) (req : Request) (doc : JsonDoc)
    (i : ℕ)
    → GivesUris json_parse req doc i
    → (reply : Bytes) × (handle_register json_parse req ≡ json 201 reply)
      × (http_send_json keep_alive 201 reply ≡ (
          if ltb (length (text doc i)) 879
          then http_send_response keep_alive 201
              (codes "application/json")
              (registration (text doc i))
          else if ltb (length (text doc i)) 1024
          then http_send_response keep_alive 500
              (codes "application/json")
              (codes "{\"error\":\"response too large\"}")
          else http_send_response keep_alive 201
              (codes "application/json")
              (registration (codes "[]"))))
handle_register-sent keep_alive json_parse req doc i g = (
  registration (uris_kept (text doc i)),
  handle_register-GivesUris json_parse req doc i g,
  sent (text doc i),
)
  where
    sent :
        (raw : Bytes)
        → http_send_json keep_alive 201 (registration (uris_kept raw)) ≡ (
            if ltb (length raw) 879
            then http_send_response keep_alive 201 (codes "application/json") (registration raw)
            else if ltb (length raw) 1024
            then http_send_response keep_alive 500
                (codes "application/json")
                (codes "{\"error\":\"response too large\"}")
            else http_send_response keep_alive 201
                (codes "application/json")
                (registration (codes "[]")))
    sent raw = elim (Bool-cases (ltb (length raw) 1024)) [
      | inr long ↦
          let more : ltb (length raw) 879 ≡ false = ground (arith, long) in
          rw (long, more)
            (sent_whole keep_alive (registration (codes "[]"))
              (omega (arith, length-registration (codes "[]"))))
      | inl kept ↦ elim (Bool-cases (ltb (length raw) 879)) [
        | inl small ↦
            rw (kept, small)
              (sent_whole keep_alive (registration raw)
                (ground (arith, small, length-registration raw)))
        | inr large ↦
            rw (kept, large)
              (sent_error keep_alive (registration raw)
                (ground (arith, large, length-registration raw)))
      ]
    ]

sent_or_dropped :
    (hdr : Bytes) (n : ℕ)
    → length hdr ≡ n
    → 0 < n
    → let out = (if ltb (length hdr) 1024 then hdr else []) in
      (n < 1024 → out ≢ []) × (1024 ≤ n → out ≡ [])
sent_or_dropped [] n e h = absurd (omega (arith, e))
sent_or_dropped (c ∷ hdr) n e h = ground (arith, e)

length-redirect_header :
    (keep_alive : Bool) (location : Bytes)
    → length (redirect_header keep_alive location)
      ≡ length location + (if keep_alive then 123 else 95)
unfolding redirect_header conn_hdr
length-redirect_header true location = grind (arith, length-append)
length-redirect_header false location = grind (arith, length-append)

-- `http_send_redirect` sends its header when the location has fewer than 901 bytes on a connection
-- that is kept open, 929 on one that is closed, and sends nothing for a longer one.
pub http_send_redirect-sent :
    (keep_alive : Bool) (location : Bytes)
    → let n = length location + (if keep_alive then 123 else 95) in
      (n < 1024 → http_send_redirect keep_alive location ≢ [])
      × (1024 ≤ n → http_send_redirect keep_alive location ≡ [])
unfolding http_send_redirect
http_send_redirect-sent keep_alive location =
    sent_or_dropped (redirect_header keep_alive location) _
      (length-redirect_header keep_alive location) (positive keep_alive)
  where
    positive : (b : Bool) → 0 < length location + (if b then 123 else 95)
    positive true = omega arith
    positive false = omega arith
