-- ===== src/Oauth/Text/Safety.antt =====
-- What the text builders of source/features/oauth/oauth.c write.
use sys_autopilot.Base.{
  ℕ, ◌+◌, ◌<◌, ◌≡◌, ◌≢◌, ◌↔◌, ◌⊎◌, refl, sym, subst, ◌∙◌, true, false, [], ◌∷◌, ◌++◌, append-nil,
  append_assoc, length, All, length-append, ◌==◌, arith, inl, inr, Bool-cases,
}
use sys_autopilot.Base.Text.{Bytes, codes}
use sys_autopilot.Oauth.Text.{html_char, html_escape_append}

-- Neither markup nor the end of a quoted attribute.
abbrev pub IsInert : ℕ → Type 0
IsInert c = (c ≢ b'<') × (c ≢ b'>') × (c ≢ b'"') × (c ≢ 39)

-- A text and its escaped form, written out from the five entities of HTML that a text needs.
pub data Escaped : Bytes → Bytes → Type 0 where
  nothing : Escaped [] []
  ampersand : {src text : Bytes} → Escaped src text → Escaped (b'&' ∷ src) (codes "&amp;" ++ text)
  less : {src text : Bytes} → Escaped src text → Escaped (b'<' ∷ src) (codes "&lt;" ++ text)
  greater : {src text : Bytes} → Escaped src text → Escaped (b'>' ∷ src) (codes "&gt;" ++ text)
  quote : {src text : Bytes} → Escaped src text → Escaped (b'"' ∷ src) (codes "&quot;" ++ text)
  apostrophe : {src text : Bytes} → Escaped src text → Escaped (39 ∷ src) (codes "&#39;" ++ text)
  itself :
      {src text : Bytes} {c : ℕ}
      → c ≢ b'&'
      → IsInert c
      → Escaped src text
      → Escaped (c ∷ src) (c ∷ text)

Escaped-IsInert : {src text : Bytes} → Escaped src text → All IsInert text
Escaped-IsInert nothing = tt
Escaped-IsInert (ampersand e) = ground (arith, Escaped-IsInert e)
Escaped-IsInert (less e) = ground (arith, Escaped-IsInert e)
Escaped-IsInert (greater e) = ground (arith, Escaped-IsInert e)
Escaped-IsInert (quote e) = ground (arith, Escaped-IsInert e)
Escaped-IsInert (apostrophe e) = ground (arith, Escaped-IsInert e)
Escaped-IsInert (itself h i e) = (i, Escaped-IsInert e)

module _ {src text : Bytes} (e : Escaped src text) where
  -- An entity stands for its character.
  named :
      (c m : ℕ) (entity : Bytes)
      → html_char m ≡ entity
      → Escaped (m ∷ src) (entity ++ text)
      → c ≡ m
      → Escaped (c ∷ src) (html_char c ++ text)
  named c m entity is here same =
      subst (λ (k : ℕ). Escaped (k ∷ src) (html_char k ++ text)) (sym same)
        (subst (λ (rep : Bytes). Escaped (m ∷ src) (rep ++ text)) (sym is) here)

  html_char-Escaped : (c : ℕ) → Escaped (c ∷ src) (html_char c ++ text)
  html_char-Escaped c = elim (Bool-cases (c == b'&')) [
    | inl amp ↦
        named c b'&' (codes "&amp;") (unfold html_char in refl) (ampersand e) (ground (arith, amp))
    | inr amp ↦ elim (Bool-cases (c == b'<')) [
      | inl lt ↦
          named c b'<' (codes "&lt;") (unfold html_char in refl) (less e) (ground (arith, lt))
      | inr lt ↦ elim (Bool-cases (c == b'>')) [
        | inl gt ↦
            named c b'>' (codes "&gt;") (unfold html_char in refl) (greater e) (ground (arith, gt))
        | inr gt ↦ elim (Bool-cases (c == b'"')) [
          | inl quot ↦
              named c b'"' (codes "&quot;") (unfold html_char in refl) (quote e)
                (ground (arith, quot))
          | inr quot ↦ elim (Bool-cases (c == 39)) [
            | inl apos ↦
                named c 39 (codes "&#39;") (unfold html_char in refl) (apostrophe e)
                  (ground (arith, apos))
            | inr apos ↦
                let plain : html_char c ≡ c ∷ [] =
                  unfold html_char in rw (amp, lt, gt, quot, apos) refl in
                rw plain (itself (ground (arith, amp)) (ground (arith, lt, gt, quot, apos)) e)
          ]
        ]
      ]
    ]
  ]

-- What one more character does.
html_append_step :
    (cap : ℕ) (buf : Bytes) (c : ℕ) (src : Bytes)
    → (cap < length buf + length (html_char c) + 1)
        × (html_escape_append cap buf (c ∷ src) ≡ (buf, false))
      ⊎ ((length buf + length (html_char c) < cap)
          × (html_escape_append cap buf (c ∷ src)
              ≡ html_escape_append cap (buf ++ html_char c) src))
unfolding html_escape_append
html_append_step cap buf c src = ground arith

-- What `html_escape_append` does with a text whose escaped form is `text`.
abbrev pub Appends : ℕ → Bytes → Bytes → Bytes → Type 0
Appends cap buf src text =
    (((html_escape_append cap buf src).1 ≡ true) ↔ (length buf + length text < cap))
    × ((html_escape_append cap buf src).1 ≡ true → (html_escape_append cap buf src).0 ≡ buf ++ text)

html_escape_append-Appends :
    (cap : ℕ) (buf src : Bytes)
    → length buf < cap
    → (text : Bytes) × Escaped src text × Appends cap buf src text
html_escape_append-Appends cap buf [] h = (
  [],
  nothing,
  unfold html_escape_append in ((λ _. omega arith, λ _. refl), λ _. sym (append-nil buf)),
)
html_escape_append-Appends cap buf (c ∷ src) h = elim (html_append_step cap buf c src) [
  | inl (full, e) ↦
      let (text, form, _) = html_escape_append-Appends cap [] src (omega (arith, h)) in
      (
        html_char c ++ text,
        html_char-Escaped form c,
        rw e (
          (
            λ t. absurd (ground (arith, t)),
            λ room. absurd (omega (arith, full, room, length-append (html_char c) text)),
          ),
          λ t. absurd (ground (arith, t)),
        ),
      )
  | inr (room, e) ↦
      let longer = length-append buf (html_char c) in
      let (text, form, (fits, holds)) =
        html_escape_append-Appends cap (buf ++ html_char c) src (omega (arith, room, longer)) in
      let all_of_it = length-append (html_char c) text in
      (
        html_char c ++ text,
        html_char-Escaped form c,
        rw e (
          (
            λ t. omega (arith, fits.0 t, longer, all_of_it),
            λ all. fits.1 (omega (arith, all, longer, all_of_it)),
          ),
          λ t. holds t ∙ append_assoc buf (html_char c) text,
        ),
      )
]

-- Each text has an escaped form, with &amp; &lt; &gt; &quot; and &#39; for the five characters of
-- markup and every other character as it is, in which nothing opens or closes a tag or ends a quoted
-- attribute. For a buffer that is not full, `html_escape_append` succeeds exactly when what it holds,
-- the whole escaped form and a NUL fit, and then the form stands behind what it held.
pub html_escape_append_iff :
    (cap : ℕ) (buf src : Bytes)
    → length buf < cap
    → (text : Bytes) × Escaped src text × All IsInert text × Appends cap buf src text
html_escape_append_iff cap buf src h =
    let (text, form, appends) = html_escape_append-Appends cap buf src h in
    (text, form, Escaped-IsInert form, appends)
