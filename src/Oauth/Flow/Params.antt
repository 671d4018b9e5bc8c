-- ===== src/Oauth/Flow/Params.antt =====
-- The parameters that the handlers of source/features/oauth/oauth.c read are C strings,
-- and the bodies that they read are bytes.
use sys_autopilot.Base.{
  ℕ, ◌≡◌, ◌⊎◌, refl, not, List, [], ◌∷◌, ◌++◌, length, ltb, leb, ◌==◌, if_both, Option, none, some,
  All, All-append, Option-cases, inl, inr, subst, sym,
}
use sys_autopilot.Base.Text.{Bytes, IsByte, IsChar, c_str}
use sys_autopilot.Http.Params.{http_param_get}
use sys_autopilot.Http.Params.Chars.{c_str-IsChar, http_param_get-IsByte}
use sys_autopilot.Request.{request_alloc}
use sys_autopilot.Oauth.Flow.{
  Answer, Request, Read, body_read, unreadable, read_loop, read_small_body, param_or_empty,
}

pub param_or_empty-IsChar :
    (body key : Bytes) (size : ℕ) → All IsByte body → All IsChar (param_or_empty body key size)
unfolding param_or_empty
param_or_empty-IsChar body key size a = elim (Option-cases (http_param_get body key size)) [
  | inl e ↦ subst AreChars (sym e) tt
  | inr (value, e) ↦
      subst AreChars (sym e) (c_str-IsChar value (http_param_get-IsByte body key size value a e))
]
  where
    AreChars : Option Bytes → Type 0
    AreChars given =
        All IsChar (elim given as (λ _. Bytes) [ none ↦ [] | some value ↦ c_str value ])

-- What a read gives is bytes.
abbrev pub AreBytes : Option Bytes → Type 0
AreBytes none = Unit
AreBytes (some chunk) = All IsByte chunk

read_loop-IsByte :
    (want : ℕ) (body : Bytes) (chunks : List (Option Bytes))
    → All IsByte body
    → All AreBytes chunks
    → All IsByte (read_loop want body chunks)
unfolding read_loop
read_loop-IsByte want body [] a b = a
read_loop-IsByte want body (none ∷ chunks) a b = a
read_loop-IsByte want body (some [] ∷ chunks) a b = a
read_loop-IsByte want body (some (c ∷ chunk) ∷ chunks) a b =
    if_both (All IsByte) (ltb (length body) want)
      (read_loop-IsByte want (body ++ (c ∷ chunk)) chunks (All-append IsByte body (c ∷ chunk) a b.0)
        b.1)
      a

pub Read-cases :
    (r : Read)
    → ((answer : Answer) × (r ≡ unreadable answer)) ⊎ ((body : Bytes) × (r ≡ body_read body))
Read-cases (unreadable answer) = inl (answer, refl)
Read-cases (body_read body) = inr (body, refl)

abbrev HoldsBytes : Read → Type 0
HoldsBytes (unreadable answer) = Unit
HoldsBytes (body_read body) = All IsByte body

c_str-IsByte : (s : Bytes) → All IsByte s → All IsByte (c_str s)
c_str-IsByte [] a = tt
c_str-IsByte (c ∷ s) a = if_both (All IsByte) (c == 0) tt (a.0, c_str-IsByte s a.1)

read_small_body-HoldsBytes :
    (req : Request) (cap : ℕ) → All AreBytes req.chunks → HoldsBytes (read_small_body req cap)
unfolding read_small_body
read_small_body-HoldsBytes req cap a = if_both HoldsBytes (not req.has_content_length) tt (
    if_both HoldsBytes (leb cap req.content_length) tt
      (elim (Option-cases (request_alloc req.mcp req.mem_used cap).0) [
        | inl full ↦ rw full tt
        | inr (buf, e) ↦ rw e (
            if_both HoldsBytes
              (length (read_loop req.content_length [] req.chunks) == req.content_length)
              (c_str-IsByte _ (read_loop-IsByte req.content_length [] req.chunks tt a)) tt)
      ]))

pub read_small_body-IsByte :
    (req : Request) (cap : ℕ) (body : Bytes)
    → All AreBytes req.chunks
    → read_small_body req cap ≡ body_read body
    → All IsByte body
read_small_body-IsByte req cap body a e = subst HoldsBytes e (read_small_body-HoldsBytes req cap a)
