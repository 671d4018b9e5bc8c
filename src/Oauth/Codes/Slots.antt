-- ===== src/Oauth/Codes/Slots.antt =====
-- The slots of the authorization codes of source/features/oauth/oauth.c, read and changed.
use sys_autopilot.Base.{
  ℕ, zero, suc, ◌≤◌, ◌≡◌, ◌≢◌, refl, sym, ap, ◌∙◌, true, false, Option, none, some, List, [], ◌∷◌,
  set, All, arith, Bool-cases, inl, inr,
}
use sys_autopilot.Base.Text.{Bytes}
use sys_autopilot.Http.Auth.{http_secure_streq}
use sys_autopilot.Oauth.Codes.{AuthCode, takes, spent, code_take}

abbrev pub IsLive : AuthCode → Type 0
IsLive c = c.expires_at ≢ 0

abbrev pub Differs : AuthCode → AuthCode → Type 0
Differs c d = IsLive c → IsLive d → c.code ≢ d.code

abbrev pub Apart : List AuthCode → Type 0
Apart [] = Unit
Apart (c ∷ cs) = All (Differs c) cs × Apart cs

-- `slots'` is `slots` with `d`, one of them, spent.
pub data Taken (d : AuthCode) : List AuthCode → List AuthCode → Type 0 where
  here : {cs : List AuthCode} → Taken d (d ∷ cs) (spent d ∷ cs)
  there : {c : AuthCode} {cs cs' : List AuthCode} → Taken d cs cs' → Taken d (c ∷ cs) (c ∷ cs')

abbrev pub TakenBy : ℕ → Bytes → AuthCode → List AuthCode → List AuthCode → Type 0
TakenBy now code c slots slots' =
    (d : AuthCode) × (takes now code d ≡ true) × (c ≡ spent d) × Taken d slots slots'

pub spent-dead : (d : AuthCode) → (spent d).expires_at ≡ 0
unfolding spent
spent-dead d = refl

module _ (now : ℕ) (code : Bytes) (s : AuthCode) (slots : List AuthCode) where
  pub code_take-here :
      takes now code s ≡ true → code_take now code (s ∷ slots) ≡ (some (spent s), spent s ∷ slots)
  unfolding code_take
  code_take-here is = rw is refl

  pub code_take-there :
      takes now code s ≡ false
      → code_take now code (s ∷ slots)
        ≡ ((code_take now code slots).0, s ∷ (code_take now code slots).1)
  unfolding code_take
  code_take-there other = rw other refl

pub code_take-TakenBy :
    (now : ℕ) (code : Bytes) (slots : List AuthCode) (c : AuthCode)
    → (code_take now code slots).0 ≡ some c
    → TakenBy now code c slots (code_take now code slots).1
code_take-TakenBy now code [] c e = absurd (unfold code_take in ground (arith, e))
code_take-TakenBy now code (s ∷ slots) c e = elim (Bool-cases (takes now code s)) [
  | inl is ↦
      let step = code_take-here now code s slots is in
      rw step ((s, is, ground (arith, rw step at e), Taken.here))
  | inr other ↦
      let step = code_take-there now code s slots other in
      let (d, t, same, taken) = code_take-TakenBy now code slots c (rw step at e) in
      rw step ((d, t, same, Taken.there taken))
]

module _ (P : AuthCode → Type 0) where
  pub All-Taken :
      {d : AuthCode} {slots slots' : List AuthCode} → Taken d slots slots' → All P slots → P d
  All-Taken Taken.here a = a.0
  All-Taken (Taken.there t) a = All-Taken t a.1

  pub All-spent :
      {d : AuthCode} {slots slots' : List AuthCode}
      → Taken d slots slots'
      → P (spent d)
      → All P slots
      → All P slots'
  All-spent Taken.here p a = (p, a.1)
  All-spent (Taken.there t) p a = (a.0, All-spent t p a.1)

  pub All-set :
      (slots : List AuthCode) (i : ℕ) (v : AuthCode) → P v → All P slots → All P (set slots i v)
  All-set [] i v p a = a
  All-set (c ∷ cs) zero v p a = (p, a.1)
  All-set (c ∷ cs) (suc i) v p a = (a.0, All-set cs i v p a.1)

  pub All-imply :
      (Q : AuthCode → Type 0)
      → ((c : AuthCode) → P c → Q c)
      → (slots : List AuthCode) → All P slots
      → All Q slots
  All-imply Q f [] a = tt
  All-imply Q f (c ∷ cs) a = (f c a.0, All-imply Q f cs a.1)

pub Apart-set :
    (slots : List AuthCode) (i : ℕ) (v : AuthCode)
    → All (Differs v) slots
    → Apart slots
    → Apart (set slots i v)
Apart-set [] i v p a = a
Apart-set (c ∷ cs) zero v p a = (p.1, a.1)
Apart-set (c ∷ cs) (suc i) v p a =
    (All-set (Differs c) cs i v (λ lc lv e. p.0 lv lc (sym e)) a.0, Apart-set cs i v p.1 a.1)

pub Apart-spent :
    {d : AuthCode} {slots slots' : List AuthCode}
    → Taken d slots slots'
    → Apart slots
    → Apart slots'
Apart-spent Taken.here a = (All-imply _ _ (λ c k dead. absurd (dead (spent-dead _))) _ a.0, a.1)
Apart-spent (Taken.there {c} t) a =
    (All-spent (Differs c) t (λ lc dead. absurd (dead (spent-dead _))) a.0, Apart-spent t a.1)

-- Once `d` is spent, no live slot has its code.
pub All-Gone :
    {d : AuthCode} {slots slots' : List AuthCode}
    → IsLive d
    → Taken d slots slots'
    → Apart slots
    → All (λ c. IsLive c → c.code ≢ d.code) slots'
All-Gone l Taken.here a = (
  λ dead. absurd (dead (spent-dead _)),
  All-imply _ _ (λ c differs lc e. differs l lc (sym e)) _ a.0,
)
All-Gone l (Taken.there {c} t) a = (λ lc. All-Taken (Differs c) t a.0 lc l, All-Gone l t a.1)

pub takes-IsLive :
    (now : ℕ) (code : Bytes) (c : AuthCode)
    → takes now code c ≡ true
    → IsLive c × (now ≤ c.expires_at) × (http_secure_streq code c.code ≡ true)
unfolding takes
takes-IsLive now code c t = ground (arith, t)

pub spent-code : (d : AuthCode) → (spent d).code ≡ d.code
unfolding spent
spent-code d = refl

pub code_take-none :
    (now : ℕ) (code : Bytes) (slots : List AuthCode)
    → (code_take now code slots).0 ≡ none
    → (code_take now code slots).1 ≡ slots
code_take-none now code [] e = unfold code_take in refl
code_take-none now code (s ∷ slots) e = elim (Bool-cases (takes now code s)) [
  | inl is ↦ absurd (ground (arith, rw (code_take-here now code s slots is) at e))
  | inr other ↦
      let step = code_take-there now code s slots other in
      ap (λ (r : Option AuthCode × List AuthCode). r.1) step
      ∙ ap (◌∷◌ s) (code_take-none now code slots (rw step at e))
]
