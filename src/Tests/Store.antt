-- ===== src/Tests/Store.antt =====
-- Runs and instances for Files, Config, Sha256 and Http.Body.
use sys_autopilot.Base.{
  length-take, ap, ◌⊎◌, if◌then◌else◌, ℕ, ◌+◌, ◌<◌, ◌≡◌, ◌≢◌, ◌↔◌, refl, true, false, none, some,
  inl, inr, List, [], ◌∷◌, ◌++◌, length, take, arith, Option,
}
use sys_autopilot.Base.Text.{Bytes, codes, streq}
use sys_autopilot.Files.Disk.{Disk, files_move_path, files_move_path_iff}
use sys_autopilot.Log.{LogState, log_format_line}
use sys_autopilot.Json.Escape.{json_escape, escape_loop, escape_char, hex_value}
use sys_autopilot.Http.Params.{url_decode, url_decode_loop, decode_char}
use sys_autopilot.Http.Header.{
  http_read_request, read_head, parse_head, header_loop, header_line, header_is, skip_blanks,
  split_mark, strtoull, decimal_value,
}
use sys_autopilot.Http.Response.{
  http_send_error, http_send_json, http_send_response, http_send_header, send_header_extra,
  status_reason, conn_hdr, decimal_digits,
}
use sys_autopilot.Input.{button_from_name, button_loop}
use sys_autopilot.Files.{
  files_resolve, traversal_loop, segment_ends, path_traversal, search_file, search_loop, mem_find,
  files_root,
}
use sys_autopilot.Files.Resolve.{files_resolve-Resolves, Resolves}
use sys_autopilot.Files.Search.{search_file-StandsAt, StandsAt}
use sys_autopilot.Config.{
  Config, config_load, default_config, config_loop, config_line, fgets, trim, trim_front, trim_back,
  split_at, set_value, set_key, atoi, digits_value, parse_log_level, is_true, config_hostname,
  append_sanitized,
}
use sys_autopilot.Config
use sys_autopilot.Config.Bounds.{IsLabel, config_hostname-IsLabel, config_load-IsValid}
use sys_autopilot.Config.Bounds
use sys_autopilot.Sha256.{
  ctx_init, ctx_byte, ctx_update, transform, words, schedule, rounds, round, vars_of, length_bytes,
  ctx_pad, state_bytes, ctx_final, sha256_hash, hex_encode,
}
use sys_autopilot.Http.Body.{
  sent, interrupted, would_block, refused, SendResult, Body, Socket, http_read_body,
}
use sys_autopilot.Http.Body.Transfer.{Bounded, Counted, http_read_body-Counted}

-- FIPS 180-4.
abc_hash :
    hex_encode (sha256_hash (codes "abc"))
    ≡ codes "ba7816bf8f01cfea414140de5dae2223b00361a396177a9cb410ff61f20015ad"
unfolding hex_encode sha256_hash ctx_final ctx_pad ctx_update ctx_byte ctx_init transform words
    schedule rounds round vars_of length_bytes state_bytes
abc_hash = refl

climbing_path : files_resolve (codes "/switch/../x") 768 ≡ inl path_traversal
unfolding files_resolve traversal_loop segment_ends
climbing_path = refl

dots_in_a_name : files_resolve (codes "/a..b/...") 768 ≡ inr (codes "sdmc:/a..b/...")
unfolding files_resolve traversal_loop segment_ends
dots_in_a_name = refl

across_reads : search_file (some (codes "abcdefgh")) 0 (codes "def") 4 ≡ true
unfolding search_file search_loop mem_find
across_reads = refl

abbrev sample_ini : Bytes
sample_ini =
    codes
      "[server]\n; a comment\n port = 8080 \nUserName=ann\nport=99999\n[power]\nkeep_awake = off\n"

sample_config :
    config_load (some sample_ini)
    ≡ record default_config { port = 8080; username = codes "ann"; keep_awake = false }
unfolding config_load default_config config_loop config_line fgets trim trim_front trim_back
    split_at set_value set_key atoi digits_value is_true
sample_config = refl

serial_name : config_hostname default_config (codes "XAW1002345_6") 64 ≡ codes "switch-456"
unfolding config_hostname default_config append_sanitized
serial_name = refl

files_resolve-Resolves_example :
    (files_resolve (codes "/a/b") 768 ≡ inr (codes "sdmc:/a/b"))
    ↔ (Resolves (codes "/a/b") 768 × (codes "sdmc:/a/b" ≡ files_root ++ codes "/a/b"))
files_resolve-Resolves_example = files_resolve-Resolves (codes "/a/b") (codes "sdmc:/a/b") 768

search_file-StandsAt_example :
    (search_file (some (codes "abcdefgh")) 4 (codes "def") 4 ≡ true)
    ↔ ((i : ℕ) × ((4 < i + 3) × StandsAt (codes "abcdefgh") (codes "def") i))
search_file-StandsAt_example =
    search_file-StandsAt (codes "abcdefgh") (codes "def") 4 4 (omega arith) (omega arith)

-- One file, /a.
abbrev one_file : Disk
one_file = record {
  stat_dir = λ path. if streq path (codes "sdmc:/a") then some false else none;
  entries = λ _. none;
  rmdir_ok = λ _. true;
  remove_ok = λ _. true;
  rename_ok = λ _ _. true;
}

files_move_path_iff_example :
    ((files_move_path one_file (codes "sdmc:/a") (codes "sdmc:/b/c")).1 ≡ none) ↔ (
      (one_file.stat_dir (codes "sdmc:/a") ≢ none)
      × ((codes "sdmc:/a" ≡ codes "sdmc:/b/c")
          ⊎ ((one_file.stat_dir (codes "sdmc:/b/c") ≡ none)
              × (one_file.rename_ok (codes "sdmc:/a") (codes "sdmc:/b/c") ≡ true))))
files_move_path_iff_example = files_move_path_iff one_file (codes "sdmc:/a") (codes "sdmc:/b/c")

config_load-IsValid_example : Config.Bounds.IsValid (config_load (some sample_ini))
config_load-IsValid_example = config_load-IsValid (some sample_ini)

abbrev answers : List SendResult
answers = would_block true ∷ sent 2 ∷ interrupted ∷ sent 1 ∷ refused ∷ []

-- A body of five bytes, two of them behind the headers, on a connection that has more.
abbrev five_bytes : Body
five_bytes = record {
  has_content_length = true;
  content_length = 5;
  leftover = [];
  consumed = 2;
  expect_100 = true;
  sent_100 = false;
}

abbrev long_socket : Socket
long_socket = record { continue_ok = true; recv = λ n. some (take n (codes "cdeGET")) }

long_socket-Bounded : Bounded long_socket
long_socket-Bounded = record {
  recv_le = λ n bytes e.
      omega (arith, ap (λ (o : Option Bytes). get_length o) e, length-take n (codes "cdeGET"));
}
  where
    get_length : Option Bytes → ℕ
    get_length none = 0
    get_length (some bytes) = length bytes

http_read_body-Counted_example : Counted five_bytes 64 (http_read_body long_socket five_bytes 64)
http_read_body-Counted_example =
    http_read_body-Counted long_socket five_bytes 64 long_socket-Bounded
      (record { stated = omega arith; within = omega arith }) refl

logged : log_format_line 8 (codes "|I|") (codes "hello") ≡ codes "|I|hel\n"
unfolding log_format_line
logged = refl

abbrev quiet : LogState
quiet = record { level = 1; suspended = false; file = []; old_file = [] }

a_request :
    http_read_request (
      some (codes "POST /a%20b?x=1 HTTP/1.1\r\nContent-Le")
      ∷ some (codes "ngth: 3\r\n\r\nabc")
      ∷ [])
    ≡ some (record {
      method = codes "POST";
      path = codes "/a b";
      query = codes "x=1";
      host = [];
      auth = [];
      content_length = 3;
      has_content_length = true;
      expect_100 = false;
      http11 = true;
      conn_close = false;
      leftover = codes "abc";
    })
unfolding hex_value http_read_request read_head parse_head header_loop header_line header_is
    skip_blanks split_mark strtoull decimal_value url_decode url_decode_loop decode_char
a_request = refl

a_response :
    http_send_error false 404 (codes "no")
    ≡ codes
        "HTTP/1.1 404 Not Found\r\nServer: sys-autopilot\r\nAccess-Control-Allow-Origin: *\r\nContent-Type: application/json\r\nContent-Length: 14\r\nConnection: close\r\n\r\n{\"error\":\"no\"}"
unfolding http_send_error http_send_json http_send_response http_send_header send_header_extra
    status_reason conn_hdr decimal_digits json_escape escape_loop escape_char
a_response = refl

capture_button : button_from_name (codes "Capture") ≡ some 0x80000
unfolding button_from_name button_loop
capture_button = refl
