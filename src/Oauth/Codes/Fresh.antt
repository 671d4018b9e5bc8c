-- ===== src/Oauth/Codes/Fresh.antt =====
-- A new authorization code of source/features/oauth/oauth.c is redeemed.
use sys_autopilot.Base.{
  ℕ, zero, suc, ◌+◌, ◌^◌, ◌≤◌, ◌<◌, ◌≡◌, ap, ◌∙◌, true, false, ◌||◌, Option, some, List, [], ◌∷◌,
  length, set, All, ltb, ◌==◌, if_both, arith,
}
use sys_autopilot.Base.Text.{Bytes}
use sys_autopilot.Sha256.{hex_encode}
use sys_autopilot.Http.Auth.Equality.{http_secure_streq_refl}
use sys_autopilot.Oauth.Codes.Slots.{code_take-here, code_take-there}
use sys_autopilot.Oauth.Codes.{
  AuthCode, pick_slot, first_deadline, new_code, code_create, takes, spent, code_take,
}

pick_slot-lt :
    (now : ℕ) (cs : List AuthCode) (i slot deadline : ℕ)
    → slot < i + length cs
    → pick_slot now cs i slot deadline < i + length cs
unfolding pick_slot
pick_slot-lt now [] i slot deadline h = h
pick_slot-lt now (c ∷ cs) i slot deadline h =
    if_both (λ n. n < i + suc (length cs)) (c.expires_at == 0 || ltb c.expires_at now) (omega arith)
      (if_both (λ n. n < i + suc (length cs)) (ltb c.expires_at deadline)
        (omega (arith, pick_slot-lt now cs (i + 1) i c.expires_at))
        (omega (arith, pick_slot-lt now cs (i + 1) slot deadline)))

code_take-set :
    (now : ℕ) (code : Bytes) (slots : List AuthCode) (i : ℕ) (v : AuthCode)
    → All (λ c. takes now code c ≡ false) slots
    → takes now code v ≡ true
    → i < length slots
    → (code_take now code (set slots i v)).0 ≡ some (spent v)
code_take-set now code [] i v a t h = absurd (omega arith)
code_take-set now code (c ∷ cs) zero v a t h =
    ap (λ (r : Option AuthCode × List AuthCode). r.0) (code_take-here now code v cs t)
code_take-set now code (c ∷ cs) (suc i) v a t h =
    ap (λ (r : Option AuthCode × List AuthCode). r.0) (code_take-there now code c (set cs i v) a.0)
    ∙ code_take-set now code cs i v a.1 t (omega arith)

takes-new_code :
    (now later : ℕ) (rnd challenge uri : Bytes)
    → now + 300 < 2 ^ 64
    → later ≤ now + 300
    → takes later (hex_encode rnd) (new_code now rnd challenge uri) ≡ true
unfolding takes new_code
takes-new_code now later rnd challenge uri fits h =
    ground (arith, http_secure_streq_refl (hex_encode rnd))

-- A code that `code_create` has just made is redeemed by `code_take` for 300 seconds, with its
-- challenge and the digest of its redirect URI, whichever slot was chosen, unless a live slot held
-- the same random code before.
pub code_take-code_create :
    (now later : ℕ) (rnd challenge uri : Bytes) (slots : List AuthCode)
    → 0 < length slots
    → now + 300 < 2 ^ 64
    → later ≤ now + 300
    → All (λ c. takes later (hex_encode rnd) c ≡ false) slots
    → (code_take later (hex_encode rnd) (code_create now rnd challenge uri slots)).0
      ≡ some (spent (new_code now rnd challenge uri))
unfolding code_create
code_take-code_create now later rnd challenge uri slots some_slot fits h a =
    code_take-set later (hex_encode rnd) slots _ (new_code now rnd challenge uri) a
      (takes-new_code now later rnd challenge uri fits h)
      (omega (arith, pick_slot-lt now slots 0 0 (first_deadline slots)))
