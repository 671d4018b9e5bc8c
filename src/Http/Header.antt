-- ===== src/Http/Header.antt =====
-- `header_is`, `cap` and `http_read_request` of source/core/http.c. Each `recv` is what it gives,
-- `none` for an error; a string in the request buffer is the list of its characters.
use sys_autopilot.Base.{
  ℕ, zero, suc, ◌+◌, ◌-◌, ◌*◌, ◌%◌, ◌^◌, Bool, true, false, ◌&&◌, ◌||◌, Option, none, some, List,
  [], ◌∷◌, ◌++◌, length, take, drop, ltb, ◌==◌, if◌then◌else◌,
}
use sys_autopilot.Base.Text.{Bytes, codes, c_str, starts_with, case_starts_with, is_space, is_digit}
use sys_autopilot.Http.Params.{url_decode}

-- HTTP_MAX_HEADER
abbrev pub http_max_header : ℕ
http_max_header = 8192

abbrev crlf : Bytes
crlf = 13 ∷ 10 ∷ []

-- The text in front of the first `mark`, and behind it: strstr, and strchr for one character.
unfoldable pub split_mark : Bytes → Bytes → Option (Bytes × Bytes)
split_mark mark [] = none
split_mark mark (c ∷ s) =
    if starts_with (c ∷ s) mark
    then some ([], drop (length mark) (c ∷ s))
    else with_front (split_mark mark s)
  where
    with_front : Option (Bytes × Bytes) → Option (Bytes × Bytes)
    with_front none = none
    with_front (some halves) = some (c ∷ halves.0, halves.1)

unfoldable pub skip_blanks : Bytes → Bytes
skip_blanks [] = []
skip_blanks (c ∷ s) = if c == b' ' || c == 9 then skip_blanks s else c ∷ s

-- The value, if the line is that header.
unfoldable pub header_is : Bytes → Bytes → Option Bytes
header_is line name =
    if case_starts_with line name && starts_with (drop (length name) line) (b':' ∷ [])
    then some (skip_blanks (drop (length name + 1) line))
    else none

-- strtoull(value, NULL, 10): saturating, and a minus sign negates in 64 bits.
unfoldable pub decimal_value : ℕ → Bytes → ℕ
decimal_value n [] = n
decimal_value n (c ∷ s) = if is_digit c then decimal_value (n * 10 + (c - b'0')) s else n

abbrev saturate : ℕ → ℕ
saturate n = if ltb (2 ^ 64 - 1) n then 2 ^ 64 - 1 else n

unfoldable pub strtoull : Bytes → ℕ
strtoull [] = 0
strtoull (c ∷ s) =
    let rest = strtoull s in
    let value = decimal_value 0 s in
    if is_space c
    then rest
    else if c == b'-'
    then (if ltb (2 ^ 64 - 1) value then 2 ^ 64 - 1 else (2 ^ 64 - value) % 2 ^ 64)
    else if c == b'+'
    then saturate value
    else saturate (decimal_value 0 (c ∷ s))

pub record Parsed : Type 0 where
  pub method : Bytes
  pub path : Bytes
  pub query : Bytes
  pub host : Bytes
  pub auth : Bytes
  pub content_length : ℕ
  pub has_content_length : Bool
  pub expect_100 : Bool
  pub http11 : Bool
  pub conn_close : Bool
  pub leftover : Bytes

-- The chain of headers, each with what it does.
unfoldable pub header_line : Parsed → Bytes → Parsed
header_line req line = elim (header_is line (codes "Content-Length")) as (λ _. Parsed) [
  | some v ↦ record req { content_length = strtoull v; has_content_length = true }
  | none ↦ elim (header_is line (codes "Host")) as (λ _. Parsed) [
    | some v ↦ record req { host = take 127 v }
    | none ↦ elim (header_is line (codes "Authorization")) as (λ _. Parsed) [
      | some v ↦ record req { auth = take 255 v }
      | none ↦ elim (header_is line (codes "Expect")) as (λ _. Parsed) [
        | some v ↦ record req {
          expect_100 = req.expect_100 || case_starts_with v (codes "100-continue");
        }
        | none ↦ elim (header_is line (codes "Connection")) as (λ _. Parsed) [
          | some v ↦ record req {
            conn_close = req.conn_close || case_starts_with v (codes "close");
          }
          | none ↦ req
        ]
      ]
    ]
  ]
]

-- The loop over the lines. Each round drops a line break, so the length is fuel enough.
unfoldable pub header_loop : ℕ → Parsed → Bytes → Parsed
header_loop fuel req [] = req
header_loop zero req (c ∷ s) = req
header_loop (suc fuel) req (c ∷ s) = elim (split_mark crlf (c ∷ s)) as (λ _. Parsed) [
  | none ↦ header_line req (c ∷ s)
  | some halves ↦ header_loop fuel (header_line req halves.0) halves.1
]

-- The request line and the headers; `none` is false.
unfoldable pub parse_head : Bytes → Bytes → Option Parsed
parse_head head leftover =
    let (line, headers) = (elim (split_mark crlf head) as (λ _. Bytes × Bytes) [
      | none ↦ (head, [])
      | some halves ↦ halves
    ]) in
    elim (split_mark (b' ' ∷ []) line) as (λ _. Option Parsed) [
      | none ↦ none
      | some (method, rest) ↦ elim (split_mark (b' ' ∷ []) rest) as (λ _. Option Parsed) [
        | none ↦ none
        | some (target, version) ↦
            let (path, query) = (elim (split_mark (b'?' ∷ []) target) as (λ _. Bytes × Bytes) [
              | none ↦ (target, [])
              | some halves ↦ halves
            ]) in
            some (
              header_loop (length headers)
                (record {
                  method = take 7 method;
                  path = c_str (url_decode path 512);
                  query = take 2047 query;
                  host = [];
                  auth = [];
                  content_length = 0;
                  has_content_length = false;
                  expect_100 = false;
                  http11 = starts_with version (codes "HTTP/1.1");
                  conn_close = false;
                  leftover = leftover;
                })
                headers)
      ]
    ]

-- Reads until the blank line, with the buffer so far.
unfoldable pub read_head : List (Option Bytes) → Bytes → Option Parsed
read_head [] buf = none
read_head (none ∷ chunks) buf = none
read_head (some chunk ∷ chunks) buf =
    let room = http_max_header - 1 - length buf in
    let filled = buf ++ take room chunk in
    let more = read_head chunks filled in
    if room == 0 || length chunk == 0
    then none
    else elim (split_mark (crlf ++ crlf) (c_str filled)) as (λ _. Option Parsed) [
      | none ↦ more
      | some (head, _) ↦ parse_head head (drop (length head + 4) filled)
    ]

unfoldable pub http_read_request : List (Option Bytes) → Option Parsed
http_read_request chunks = read_head chunks []
