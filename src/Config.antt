-- ===== src/Config.antt =====
-- source/core/config.c and config.h: the parser of config.ini and the host name. The file is its
-- bytes, `none` when it does not open; a C string is the list of its characters.
pub mod Bounds
use sys_autopilot.Base.{
  ℕ, zero, suc, ◌+◌, ◌-◌, ◌*◌, Bool, true, false, not, ◌&&◌, ◌||◌, Option, none, some, List, [],
  ◌∷◌, ◌++◌, length, take, drop, ltb, leb, ◌==◌, if◌then◌else◌,
}
use sys_autopilot.Base.Text.{
  Bytes, codes, c_str, strcase_eq, is_space, is_digit, is_upper, is_lower,
}

pub data LogLevel : Type 0 where
  debug : LogLevel
  info : LogLevel
  warn : LogLevel
  error : LogLevel
  off : LogLevel

pub record Config : Type 0 where
  pub port : ℕ
  pub username : Bytes
  pub password : Bytes
  pub token : Bytes
  pub hostname : Bytes
  pub log_level : LogLevel
  pub keep_awake : Bool

unfoldable pub trim_front : Bytes → Bytes
trim_front [] = []
trim_front (c ∷ s) = if is_space c then trim_front s else c ∷ s

-- Without the spaces at the end.
unfoldable pub trim_back : Bytes → Bytes
trim_back [] = []
trim_back (c ∷ s) = keep (trim_back s)
  where
    keep : Bytes → Bytes
    keep [] = if is_space c then [] else c ∷ []
    keep (d ∷ t) = c ∷ d ∷ t

unfoldable pub trim : Bytes → Bytes
trim s = trim_back (trim_front s)

unfoldable pub is_true : Bytes → Bool
is_true v =
    strcase_eq v (codes "true")
    || strcase_eq v (codes "1")
    || strcase_eq v (codes "yes")
    || strcase_eq v (codes "on")

unfoldable pub parse_log_level : Bytes → LogLevel
parse_log_level v =
    if is_true v
    then info
    else if strcase_eq v (codes "warning")
    then warn
    else if strcase_eq v (codes "debug")
    then debug
    else if strcase_eq v (codes "info")
    then info
    else if strcase_eq v (codes "warn")
    then warn
    else if strcase_eq v (codes "error")
    then error
    else off

-- The digits at the front.
unfoldable pub digits_value : ℕ → Bytes → ℕ
digits_value n [] = n
digits_value n (c ∷ s) = if is_digit c then digits_value (n * 10 + (c - b'0')) s else n

-- atoi where it is positive, and 0 where it is not. A number past `int` is undefined in C; here it
-- stays too large.
unfoldable pub atoi : Bytes → ℕ
atoi [] = 0
atoi (c ∷ s) = if c == b'+' then digits_value 0 s else digits_value 0 (c ∷ s)

-- The text in front of the first `c`, and behind it.
unfoldable pub split_at : ℕ → Bytes → Option (Bytes × Bytes)
split_at d [] = none
split_at d (c ∷ s) = if c == d then some ([], s) else with_front (split_at d s)
  where
    with_front : Option (Bytes × Bytes) → Option (Bytes × Bytes)
    with_front none = none
    with_front (some halves) = some (c ∷ halves.0, halves.1)

-- snprintf("%s") into `size` bytes.
abbrev pub cut : ℕ → Bytes → Bytes
cut size s = take (size - 1) s

unfoldable pub default_config : Config
default_config = record {
  port = 4150;
  username = [];
  password = [];
  token = [];
  hostname = [];
  log_level = off;
  keep_awake = true;
}

unfoldable pub set_key : Config → Bytes → Bytes → Config
set_key cfg key val =
    if strcase_eq key (codes "port")
    then (if ltb 0 (atoi val) && leb (atoi val) 65535 then record cfg { port = atoi val } else cfg)
    else if strcase_eq key (codes "username")
    then record cfg { username = cut 64 val }
    else if strcase_eq key (codes "password")
    then record cfg { password = cut 64 val }
    else if strcase_eq key (codes "token")
    then record cfg { token = cut 128 val }
    else if strcase_eq key (codes "hostname")
    then record cfg { hostname = cut 64 val }
    else if strcase_eq key (codes "log")
    then record cfg { log_level = parse_log_level val }
    else cfg

unfoldable pub set_value : Config → Bytes → Bytes → Bytes → Config
set_value cfg section key val =
    if strcase_eq section (codes "power")
    then (if strcase_eq key (codes "keep_awake")
        then record cfg { keep_awake = is_true val }
        else cfg)
    else if not (strcase_eq section (codes "server"))
    then cfg
    else set_key cfg key val

-- The body of the loop, on a trimmed line, with the section.
unfoldable pub config_line : Config → Bytes → Bytes → Config × Bytes
config_line cfg section [] = (cfg, section)
config_line cfg section (c ∷ s) =
    if c == b';' || c == b'#'
    then (cfg, section)
    else if c == b'['
    then (
      cfg,
      elim (split_at b']' s) as (λ _. Bytes) [ none ↦ section | some halves ↦ cut 32 halves.0 ],
    )
    else (
      elim (split_at b'=' (c ∷ s)) as (λ _. Config) [
        | none ↦ cfg
        | some halves ↦ set_value cfg section (trim halves.0) (trim halves.1)
      ],
      section,
    )

-- fgets into `room` more characters: the line with its line break, and the rest of the file.
unfoldable pub fgets : ℕ → Bytes → Bytes × Bytes
fgets zero file = ([], file)
fgets (suc room) [] = ([], [])
fgets (suc room) (c ∷ file) =
    let (line, rest) = fgets room file in if c == 10 then (c ∷ [], file) else (c ∷ line, rest)

-- Each line holds a byte at least, so the length is fuel enough.
unfoldable pub config_loop : ℕ → Config → Bytes → Bytes → Config
config_loop zero cfg section file = cfg
config_loop (suc fuel) cfg section [] = cfg
config_loop (suc fuel) cfg section (c ∷ file) =
    let (line, rest) = fgets 255 (c ∷ file) in
    let (cfg', section') = config_line cfg section (trim (c_str line)) in
    config_loop fuel cfg' section' rest

unfoldable pub config_load : Option Bytes → Config
config_load none = default_config
config_load (some file) = config_loop (length file) default_config [] file

-- The characters kept, with `len` in the buffer before them.
unfoldable pub append_sanitized : ℕ → ℕ → Bytes → Bytes
append_sanitized cap len [] = []
append_sanitized cap len (c ∷ s) =
    let lower = (if is_upper c then c + 32 else c) in
    let kept = append_sanitized cap (len + 1) s in
    let skipped = append_sanitized cap len s in
    if not (ltb (len + 1) cap)
    then []
    else if is_lower lower || is_digit lower || lower == b'-'
    then lower ∷ kept
    else skipped

unfoldable pub config_hostname : Config → Bytes → ℕ → Bytes
config_hostname cfg serial cap =
    let prefix = append_sanitized cap 0 (codes "switch") in
    let dashed = (if ltb (length prefix + 1) cap then prefix ++ (b'-' ∷ []) else prefix) in
    let suffix = (if ltb 4 (length serial) then drop (length serial - 4) serial else serial) in
    if not (length cfg.hostname == 0)
    then cut cap cfg.hostname
    else if length serial == 0
    then prefix
    else dashed ++ append_sanitized cap (length dashed) suffix
