-- ===== src/Config/Bounds.antt =====
-- The sizes of source/core/config.h's Config, and the characters of the host name.
use sys_autopilot.Base.{
  ℕ, zero, suc, ◌+◌, ◌-◌, ◌≤◌, ◌<◌, ◌≡◌, refl, true, ◌&&◌, ◌||◌, inl, inr, Option, none, some, [],
  ◌∷◌, ◌++◌, length, All, All-append, ltb, leb, ◌==◌, if◌then◌else◌, length-append, length-take,
  take-length, Bool-cases, if_both, not, arith,
}
use sys_autopilot.Base.Text.{Bytes, codes, c_str, strcase_eq, is_digit, is_lower}
use sys_autopilot.Config.{
  Config, cut, atoi, trim, split_at, set_key, set_value, config_line, config_loop, config_load,
  default_config, fgets, append_sanitized, config_hostname,
}

-- A port that can be listened on, and strings that fit their arrays with the terminator.
pub record IsValid (cfg : Config) : Type 0 where
  pub some_port : 0 < cfg.port
  pub port_fits : cfg.port ≤ 65535
  pub username_fits : length cfg.username < 64
  pub password_fits : length cfg.password < 64
  pub token_fits : length cfg.token < 128
  pub hostname_fits : length cfg.hostname < 64

cut-lt : (n : ℕ) (s : Bytes) → 0 < n → length (cut n s) < n
cut-lt n s h = omega (arith, h, length-take (n - 1) s)

set_port-IsValid :
    (cfg : Config) (n : ℕ)
    → IsValid cfg
    → IsValid (if ltb 0 n && leb n 65535 then record cfg { port = n } else cfg)
set_port-IsValid cfg n v = ground (arith, v)

-- The keys that hold a string.
set_string-IsValid :
    (cfg : Config) (val : Bytes)
    → IsValid cfg
    → (IsValid (record cfg { username = cut 64 val })
        × IsValid (record cfg { password = cut 64 val }))
      × (IsValid (record cfg { token = cut 128 val })
          × IsValid (record cfg { hostname = cut 64 val }))
set_string-IsValid cfg val v = ground (arith, v, cut-lt 64 val, cut-lt 128 val)

set_key-IsValid : (cfg : Config) (key val : Bytes) → IsValid cfg → IsValid (set_key cfg key val)
unfolding set_key
set_key-IsValid cfg key val v =
    let ((username, password), (token, hostname)) = set_string-IsValid cfg val v in
    if_both IsValid (strcase_eq key (codes "port")) (set_port-IsValid cfg (atoi val) v) (
      if_both IsValid (strcase_eq key (codes "username")) username (
        if_both IsValid (strcase_eq key (codes "password")) password (
          if_both IsValid (strcase_eq key (codes "token")) token (
            if_both IsValid (strcase_eq key (codes "hostname")) hostname
              (if_both IsValid (strcase_eq key (codes "log")) (ground (arith, v)) v)))))

set_value-IsValid :
    (cfg : Config) (section key val : Bytes) → IsValid cfg → IsValid (set_value cfg section key val)
unfolding set_value
set_value-IsValid cfg section key val v =
    if_both IsValid (strcase_eq section (codes "power"))
      (if_both IsValid (strcase_eq key (codes "keep_awake")) (ground (arith, v)) v)
      (if_both IsValid (not (strcase_eq section (codes "server"))) v
        (set_key-IsValid cfg key val v))

config_line-IsValid :
    (cfg : Config) (section line : Bytes) → IsValid cfg → IsValid (config_line cfg section line).0
unfolding config_line
config_line-IsValid cfg section [] v = v
config_line-IsValid cfg section (c ∷ s) v =
    let P : Config × Bytes → Type 0 = λ r. IsValid r.0 in
    if_both P (c == b';' || c == b'#') v (if_both P (c == b'[') v (pair (split_at b'=' (c ∷ s))))
  where
    pair :
        (halves : Option (Bytes × Bytes))
        → IsValid (elim halves as (λ _. Config) [
          | none ↦ cfg
          | some halves ↦ set_value cfg section (trim halves.0) (trim halves.1)
        ])
    pair none = v
    pair (some halves) = set_value-IsValid cfg section (trim halves.0) (trim halves.1) v

config_loop-IsValid :
    (fuel : ℕ) (cfg : Config) (section file : Bytes)
    → IsValid cfg
    → IsValid (config_loop fuel cfg section file)
unfolding config_loop
config_loop-IsValid zero cfg section file v = v
config_loop-IsValid (suc fuel) cfg section [] v = v
config_loop-IsValid (suc fuel) cfg section (c ∷ file) v =
    let line = trim (c_str (fgets 255 (c ∷ file)).0) in
    config_loop-IsValid fuel (config_line cfg section line).0 (config_line cfg section line).1
      (fgets 255 (c ∷ file)).1 (config_line-IsValid cfg section line v)

-- Whatever config.ini holds, and also without one, the port is from 1 to 65535 and each string fits
-- its array.
pub config_load-IsValid : (file : Option Bytes) → IsValid (config_load file)
unfolding config_load default_config
config_load-IsValid none = ground arith
config_load-IsValid (some file) =
    config_loop-IsValid (length file) default_config [] file (ground arith)

-- A character of a DNS label, in lower case.
unfoldable pub IsLabelChar : ℕ → Type 0
IsLabelChar c = ((is_lower c || is_digit c) || c == b'-') ≡ true

append_sanitized-All : (cap len : ℕ) (s : Bytes) → All IsLabelChar (append_sanitized cap len s)
unfolding append_sanitized IsLabelChar
append_sanitized-All cap len [] = tt
append_sanitized-All cap len (c ∷ s) =
    ground (arith, append_sanitized-All cap (len + 1) s, append_sanitized-All cap len s)

length-append_sanitized :
    (cap len : ℕ) (s : Bytes) → len < cap → len + length (append_sanitized cap len s) < cap
unfolding append_sanitized
length-append_sanitized cap len [] h = omega (arith, h)
length-append_sanitized cap len (c ∷ s) h =
    ground (arith, h, length-append_sanitized cap (len + 1) s, length-append_sanitized cap len s)

-- A label that fits a buffer of `cap` bytes with its terminator.
pub record IsLabel (cap : ℕ) (s : Bytes) : Type 0 where
  pub chars : All IsLabelChar s
  pub fits : length s < cap

append_sanitized-IsLabel :
    (cap : ℕ) (front s : Bytes)
    → IsLabel cap front
    → IsLabel cap (front ++ append_sanitized cap (length front) s)
append_sanitized-IsLabel cap front s h = record {
  chars =
      All-append IsLabelChar front (append_sanitized cap (length front) s) h.chars
        (append_sanitized-All cap (length front) s);
  fits = omega (
    arith,
    h,
    length-append front (append_sanitized cap (length front) s),
    length-append_sanitized cap (length front) s h.fits,
  );
}

dashed-IsLabel :
    (cap : ℕ) (front : Bytes)
    → IsLabel cap front
    → IsLabel cap (if ltb (length front + 1) cap then front ++ (b'-' ∷ []) else front)
dashed-IsLabel cap front h = elim (Bool-cases (ltb (length front + 1) cap)) [
  | inl fits ↦ rw fits (record {
    chars = All-append IsLabelChar front (b'-' ∷ []) h.chars (unfold IsLabelChar in (refl, tt));
    fits = ground (arith, fits, length-append front (b'-' ∷ []));
  })
  | inr full ↦ rw full h
]

cut-IsLabel : (cap : ℕ) (s : Bytes) → 0 < cap → s ≡ [] → IsLabel cap (cut cap s)
cut-IsLabel cap [] h e =
    rw (take-length {A = ℕ} (cap - 1) [] (omega arith)) (record { chars = tt; fits = h })
cut-IsLabel cap (c ∷ s) h e = absurd (ground (arith, e))

-- Without a configured host name, the one that is made up of any serial number is a DNS label in
-- lower case, and fits its buffer.
pub config_hostname-IsLabel :
    (cfg : Config) (serial : Bytes) (cap : ℕ)
    → cfg.hostname ≡ []
    → 0 < cap
    → IsLabel cap (config_hostname cfg serial cap)
unfolding config_hostname
config_hostname-IsLabel cfg serial cap unset some_room =
    let prefix =
      append_sanitized-IsLabel cap [] (codes "switch") (record { chars = tt; fits = some_room }) in
    if_both (IsLabel cap) (not (length cfg.hostname == 0))
      (cut-IsLabel cap cfg.hostname some_room unset)
      (if_both (IsLabel cap) (length serial == 0) prefix
        (append_sanitized-IsLabel cap _ _ (dashed-IsLabel cap _ prefix)))
