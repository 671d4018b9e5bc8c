-- ===== src/Http/Response.antt =====
-- The responses of source/core/http.c, as the bytes that they hand to `http_write_all`.
use sys_autopilot.Base.{
  ℕ, zero, suc, ◌+◌, ◌/◌, ◌%◌, Bool, Option, none, some, [], ◌∷◌, ◌++◌, length, ltb, leb, ◌==◌,
  if◌then◌else◌,
}
use sys_autopilot.Base.Text.{Bytes, codes}
use sys_autopilot.Json.Escape.{json_escape}

abbrev line : Bytes → Bytes
line s = s ++ (13 ∷ 10 ∷ [])

-- A text between double quotes.
abbrev quoted : Bytes → Bytes
quoted s = b'"' ∷ (s ++ (b'"' ∷ []))

-- %d of a number that is not negative, and %zu; a number has no more digits than its value plus one.
unfoldable pub decimal_digits : ℕ → ℕ → Bytes
decimal_digits zero n = []
decimal_digits (suc fuel) n =
    let high = decimal_digits fuel (n / 10) in
    if ltb n 10 then (b'0' + n) ∷ [] else high ++ ((b'0' + n % 10) ∷ [])

-- 20 digits hold any 64-bit number.
abbrev pub decimal : ℕ → Bytes
decimal n = decimal_digits 20 n

unfoldable pub conn_hdr : Bool → Bytes
conn_hdr keep_alive =
    if keep_alive
    then line (codes "Connection: keep-alive") ++ line (codes "Keep-Alive: timeout=1")
    else line (codes "Connection: close")

unfoldable pub status_reason : ℕ → Bytes
status_reason code =
    if code == 200
    then codes "OK"
    else if code == 201
    then codes "Created"
    else if code == 202
    then codes "Accepted"
    else if code == 400
    then codes "Bad Request"
    else if code == 401
    then codes "Unauthorized"
    else if code == 403
    then codes "Forbidden"
    else if code == 404
    then codes "Not Found"
    else if code == 405
    then codes "Method Not Allowed"
    else if code == 409
    then codes "Conflict"
    else if code == 411
    then codes "Length Required"
    else if code == 413
    then codes "Payload Too Large"
    else if code == 500
    then codes "Internal Server Error"
    else if code == 503
    then codes "Service Unavailable"
    else if code == 507
    then codes "Insufficient Storage"
    else codes "Unknown"

-- A header that does not fit its buffer is not sent at all.
unfoldable pub send_header_extra : Bool → ℕ → Bytes → ℕ → Bytes → Bytes
send_header_extra keep_alive code content_type content_length extra =
    let hdr =
      line (codes "HTTP/1.1 " ++ decimal code ++ codes " " ++ status_reason code)
      ++ line (codes "Server: sys-autopilot")
      ++ line (codes "Access-Control-Allow-Origin: *")
      ++ extra
      ++ line (codes "Content-Type: " ++ content_type)
      ++ line (codes "Content-Length: " ++ decimal content_length)
      ++ conn_hdr keep_alive
      ++ line [] in
    if leb 768 (length hdr) then [] else hdr

unfoldable pub http_send_header : Bool → ℕ → Bytes → ℕ → Bytes
http_send_header keep_alive code content_type content_length =
    send_header_extra keep_alive code content_type content_length []

unfoldable pub redirect_header : Bool → Bytes → Bytes
redirect_header keep_alive location =
    line (codes "HTTP/1.1 302 Found")
    ++ line (codes "Server: sys-autopilot")
    ++ line (codes "Location: " ++ location)
    ++ line (codes "Content-Length: 0")
    ++ conn_hdr keep_alive
    ++ line []

unfoldable pub http_send_redirect : Bool → Bytes → Bytes
http_send_redirect keep_alive location =
    let hdr = redirect_header keep_alive location in if ltb (length hdr) 1024 then hdr else []

unfoldable pub http_send_response : Bool → ℕ → Bytes → Bytes → Bytes
http_send_response keep_alive code content_type body =
    http_send_header keep_alive code content_type (length body) ++ body

-- The formatted text is given; one that would be cut is replaced.
unfoldable pub http_send_json : Bool → ℕ → Bytes → Bytes
http_send_json keep_alive code body =
    if leb 1024 (length body)
    then http_send_response keep_alive 500 (codes "application/json")
        (codes "{\"error\":\"response too large\"}")
    else http_send_response keep_alive code (codes "application/json") body

unfoldable pub http_send_error : Bool → ℕ → Bytes → Bytes
http_send_error keep_alive code msg =
    let escaped = (elim (json_escape msg 512) as (λ _. Bytes) [
      | none ↦ codes "error message too long"
      | some text ↦ text
    ]) in
    http_send_json keep_alive code (codes "{\"error\":\"" ++ escaped ++ codes "\"}")

-- The WWW-Authenticate lines, within the bounds of their buffer. `metadata` is none for NULL.
unfoldable pub challenges : Bool → Bytes → Option Bytes → Bytes
challenges offer_basic host metadata =
    let realm = codes "realm=" ++ quoted (codes "sys-autopilot") in
    let plain = line (codes "WWW-Authenticate: Bearer " ++ realm) in
    (if offer_basic then line (codes "WWW-Authenticate: Basic " ++ realm) else [])
    ++ (elim metadata as (λ _. Bytes) [
      | none ↦ plain
      | some path ↦
          if length host == 0
          then plain
          else line (
              codes "WWW-Authenticate: Bearer "
              ++ realm
              ++ codes ", resource_metadata="
              ++ quoted (codes "http://" ++ host ++ path))
    ])

unfoldable pub http_send_unauthorized : Bool → Bytes → Bool → Option Bytes → Bytes
http_send_unauthorized keep_alive host offer_basic metadata =
    let body = codes "{\"error\":\"unauthorized\"}" in
    send_header_extra keep_alive 401 (codes "application/json") (length body)
      (challenges offer_basic host metadata)
    ++ body
