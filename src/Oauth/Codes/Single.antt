-- ===== src/Oauth/Codes/Single.antt =====
-- The life of an authorization code in source/features/oauth/oauth.c: issued once, redeemed once.
use sys_autopilot.Base.{
  ℕ, ◌+◌, ◌≤◌, ◌≡◌, ◌≢◌, ◌⊎◌, refl, sym, ap, ◌∙◌, true, Option, none, some, List, [], ◌∷◌, take,
  All, arith, inl, inr, subst,
}
use sys_autopilot.Base.Text.{Bytes}
use sys_autopilot.Sha256.{sha256_hash, hex_encode}
use sys_autopilot.Http.Auth.{http_secure_streq}
use sys_autopilot.Oauth.Codes.{AuthCode, no_codes, new_code, code_create, spent, code_take}
use sys_autopilot.Oauth.Codes.Slots.{
  IsLive, Differs, Apart, Taken, spent-dead, code_take-TakenBy, code_take-none, All-Taken,
  All-spent, All-set, All-imply, Apart-set, Apart-spent, All-Gone, takes-IsLive, spent-code,
}

pub data Event : Type 0 where
  issued : (now : ℕ) (code challenge redirect_uri : Bytes) → Event
  redeemed : (code : Bytes) → Event

-- The code was issued for this challenge and redirect URI, with its life ending at `deadline` or later.
abbrev pub Issued : List Event → AuthCode → Type 0
Issued [] c = ⊥
Issued (issued now code challenge uri ∷ es) c =
    ((c.code ≡ code)
      × (c.challenge ≡ take 47 challenge)
      × (c.redirect_hash ≡ sha256_hash uri)
      × (c.expires_at ≤ now + 300))
    ⊎ Issued es c
Issued (redeemed code ∷ es) c = Issued es c

abbrev pub IsNew : List Event → Bytes → Type 0
IsNew [] code = Unit
IsNew (issued now other challenge uri ∷ es) code = (code ≢ other) × IsNew es code
IsNew (redeemed other ∷ es) code = (code ≢ other) × IsNew es code

abbrev pub IsUnused : List Event → Bytes → Type 0
IsUnused [] code = Unit
IsUnused (issued now other challenge uri ∷ es) code = IsUnused es code
IsUnused (redeemed other ∷ es) code = (code ≢ other) × IsUnused es code

-- The slots and the events, the last first, that calls of `code_create` and `code_take` lead to. The
-- random bytes of a new code have not been drawn before.
pub data Reach : List AuthCode → List Event → Type 0 where
  boot : Reach no_codes []
  create :
      {slots : List AuthCode} {es : List Event}
      → (now : ℕ) (rnd challenge uri : Bytes) → IsNew es (hex_encode rnd)
      → Reach slots es
      → Reach
          (code_create now rnd challenge uri slots)
          (issued now (hex_encode rnd) challenge uri ∷ es)
  refuse :
      {slots slots' : List AuthCode} {es : List Event}
      → (now : ℕ) (code : Bytes) → code_take now code slots ≡ (none, slots')
      → Reach slots es
      → Reach slots' es
  redeem :
      {slots slots' : List AuthCode} {es : List Event} {c : AuthCode}
      → (now : ℕ) (code : Bytes) → code_take now code slots ≡ (some c, slots')
      → Reach slots es
      → Reach slots' (redeemed c.code ∷ es)

-- What holds of a slot.
abbrev Tracked : List Event → AuthCode → Type 0
Tracked es c = IsLive c → Issued es c × IsUnused es c.code

new-Issued :
    (es : List Event) (c : AuthCode) (code : Bytes) → IsNew es code → Issued es c → c.code ≢ code
new-Issued [] c code n i = absurd i
new-Issued (issued now other challenge uri ∷ es) c code n i = elim i [
  | inl is ↦ λ e. n.0 (sym e ∙ is.0)
  | inr old ↦ new-Issued es c code n.1 old
]
new-Issued (redeemed other ∷ es) c code n i = new-Issued es c code n.1 i

IsNew-IsUnused : (es : List Event) (code : Bytes) → IsNew es code → IsUnused es code
IsNew-IsUnused [] code n = tt
IsNew-IsUnused (issued now other challenge uri ∷ es) code n = IsNew-IsUnused es code n.1
IsNew-IsUnused (redeemed other ∷ es) code n = (n.0, IsNew-IsUnused es code n.1)

abbrev Inv : List AuthCode → List Event → Type 0
Inv slots es = All (Tracked es) slots × Apart slots

Inv-boot : Inv no_codes []
unfolding no_codes
Inv-boot = ground arith

Inv-create :
    (slots : List AuthCode) (es : List Event) (now : ℕ) (rnd challenge uri : Bytes)
    → IsNew es (hex_encode rnd)
    → Inv slots es
    → Inv (code_create now rnd challenge uri slots) (issued now (hex_encode rnd) challenge uri ∷ es)
unfolding code_create
Inv-create slots es now rnd challenge uri n (tracked, apart) = (
  All-set _ slots _ _ fresh (All-imply _ _ (λ c t l. (inr (t l).0, (t l).1)) slots tracked),
  Apart-set slots _ _ (All-imply _ _ differs slots tracked) apart,
)
  where
    fresh :
        Tracked (issued now (hex_encode rnd) challenge uri ∷ es) (new_code now rnd challenge uri)
    fresh l =
        unfold new_code in
        (inl (refl, refl, refl, omega arith), IsNew-IsUnused es (hex_encode rnd) n)

    differs : (c : AuthCode) → Tracked es c → Differs (new_code now rnd challenge uri) c
    differs c t lv lc e =
        new-Issued es c (hex_encode rnd) n (t lc).0 (sym e ∙ (unfold new_code in refl))

Inv-redeem :
    {d : AuthCode} {slots slots' : List AuthCode} (es : List Event)
    → IsLive d
    → Taken d slots slots'
    → Inv slots es
    → Inv slots' (redeemed d.code ∷ es)
Inv-redeem {d} {slots} {slots'} es l taken (tracked, apart) = (
  both slots' (All-spent (Tracked es) taken (λ dead. absurd (dead (spent-dead _))) tracked)
      (All-Gone l taken apart),
  Apart-spent taken apart,
)
  where
    both :
        (cs : List AuthCode)
        → All (Tracked es) cs
        → All (λ c. IsLive c → c.code ≢ d.code) cs
        → All (Tracked (redeemed d.code ∷ es)) cs
    both [] a b = tt
    both (c ∷ cs) a b = (λ lc. ((a.0 lc).0, (b.0 lc, (a.0 lc).1)), both cs a.1 b.1)

Reach-Inv : {slots : List AuthCode} {es : List Event} → Reach slots es → Inv slots es
Reach-Inv Reach.boot = Inv-boot
Reach-Inv (Reach.create {slots} {es} now rnd challenge uri n r) =
    Inv-create slots es now rnd challenge uri n (Reach-Inv r)
Reach-Inv (Reach.refuse {slots} {slots'} {es} now code e r) =
    let same : slots' ≡ slots =
      sym (ap (λ (t : Option AuthCode × List AuthCode). t.1) e)
      ∙ code_take-none now code slots (ap (λ (t : Option AuthCode × List AuthCode). t.0) e) in
    subst (λ (t : List AuthCode). Inv t es) (sym same) (Reach-Inv r)
Reach-Inv (Reach.redeem {slots} {slots'} {es} {c} now code e r) =
    let (d, t, same, taken) =
      code_take-TakenBy now code slots c (ap (λ (t : Option AuthCode × List AuthCode). t.0) e) in
    let after : (code_take now code slots).1 ≡ slots' =
      ap (λ (t : Option AuthCode × List AuthCode). t.1) e in
    let code_of : d.code ≡ c.code = sym (ap (λ (t : AuthCode). t.code) same ∙ spent-code d) in
    let inv : Inv (code_take now code slots).1 (redeemed d.code ∷ es) =
      Inv-redeem es (takes-IsLive now code d t).0 taken (Reach-Inv r) in
    subst (λ (t : Bytes). Inv slots' (redeemed t ∷ es)) code_of
      (subst (λ (t : List AuthCode). Inv t (redeemed d.code ∷ es)) after inv)

-- In any history of `code_create` and `code_take` whose random codes do not repeat, a code that
-- `code_take` accepts was issued before with the challenge and the redirect URI's digest of the
-- entry, at most 300 seconds ago, and has not been redeemed since.
pub code_take-Reach :
    {slots : List AuthCode} {es : List Event} {c : AuthCode} (now : ℕ) (code : Bytes)
    → Reach slots es
    → (code_take now code slots).0 ≡ some c
    → (d : AuthCode) × Issued es d
      × IsUnused es d.code
      × (now ≤ d.expires_at)
      × (http_secure_streq code d.code ≡ true)
      × (c ≡ spent d)
code_take-Reach {slots} {es} {c} now code r e =
    let (d, t, same, taken) = code_take-TakenBy now code slots c e in
    let (live, fresh, equal) = takes-IsLive now code d t in
    let known = All-Taken (Tracked es) taken (Reach-Inv r).0 live in
    (d, known.0, known.1, fresh, equal, same)
