-- ===== src/Oauth/Codes.antt =====
-- The pending authorization codes of source/features/oauth/oauth.c. The clock and the random bytes are
-- parameters; `g_codes` is the list of its eight slots.
pub mod Slots
pub mod Single
pub mod Fresh
use sys_autopilot.Base.{
  ℕ, zero, suc, ◌+◌, ◌%◌, ◌^◌, Bool, true, false, not, ◌&&◌, ◌||◌, Option, none, some, List, [],
  ◌∷◌, ◌++◌, length, take, set, replicate, ltb, leb, ◌==◌, if◌then◌else◌,
}
use sys_autopilot.Base.Text.{Bytes}
use sys_autopilot.Sha256.{sha256_hash, hex_encode}
use sys_autopilot.Http.Auth.{http_secure_streq}

pub record AuthCode : Type 0 where
  pub code : Bytes
  pub challenge : Bytes
  pub redirect_hash : Bytes
  pub expires_at : ℕ

abbrev pub code_lifetime_secs : ℕ
code_lifetime_secs = 300

abbrev pub max_auth_codes : ℕ
max_auth_codes = 8

unfoldable pub no_codes : List AuthCode
no_codes =
    replicate max_auth_codes
      (record { code = []; challenge = []; redirect_hash = replicate 32 0; expires_at = 0 })

-- The loop over the slots from number `i` on, with the slot chosen up to there and its deadline.
unfoldable pub pick_slot : ℕ → List AuthCode → ℕ → ℕ → ℕ → ℕ
pick_slot now [] i slot deadline = slot
pick_slot now (c ∷ cs) i slot deadline =
    let older = pick_slot now cs (i + 1) i c.expires_at in
    let other = pick_slot now cs (i + 1) slot deadline in
    if c.expires_at == 0 || ltb c.expires_at now
    then i
    else if ltb c.expires_at deadline
    then older
    else other

unfoldable pub first_deadline : List AuthCode → ℕ
first_deadline [] = 0
first_deadline (c ∷ cs) = c.expires_at

unfoldable pub new_code : ℕ → Bytes → Bytes → Bytes → AuthCode
new_code now rnd challenge redirect_uri = record {
  code = hex_encode rnd;
  challenge = take 47 challenge;
  redirect_hash = sha256_hash redirect_uri;
  expires_at = (now + code_lifetime_secs) % 2 ^ 64;
}

unfoldable pub code_create : ℕ → Bytes → Bytes → Bytes → List AuthCode → List AuthCode
code_create now rnd challenge redirect_uri slots =
    set slots (pick_slot now slots 0 0 (first_deadline slots))
      (new_code now rnd challenge redirect_uri)

-- Whether `code_take` gives this slot.
unfoldable pub takes : ℕ → Bytes → AuthCode → Bool
takes now code c = not (c.expires_at == 0) && leb now c.expires_at && http_secure_streq code c.code

unfoldable pub spent : AuthCode → AuthCode
spent c = record c { expires_at = 0 }

-- The entry taken, and the slots.
unfoldable pub code_take : ℕ → Bytes → List AuthCode → Option AuthCode × List AuthCode
code_take now code [] = (none, [])
code_take now code (c ∷ cs) =
    let rest = code_take now code cs in
    if takes now code c then (some (spent c), spent c ∷ cs) else (rest.0, c ∷ rest.1)
