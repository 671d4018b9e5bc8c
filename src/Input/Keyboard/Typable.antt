-- ===== src/Input/Keyboard/Typable.antt =====
-- Which texts source/features/input/keyboard.c can type.
use sys_autopilot.Base.{
  ℕ, zero, suc, ◌+◌, ◌-◌, ◌≤◌, ◌≡◌, ◌≢◌, ◌⊎◌, refl, sym, ap, ◌∙◌, true, false, Option, none, some,
  List, [], ◌∷◌, length, ◌==◌, arith, Bool-cases, Option-cases, inl, inr, subst, All,
}
use sys_autopilot.Base.Text.{Bytes, IsByte}
use sys_autopilot.Input.Keyboard.{
  KeyStroke, keyboard_next_codepoint, keyboard_strokes, typed, unsupported_loop,
  keyboard_find_unsupported,
}
use sys_autopilot.Input.Keyboard.Utf8.{Reads, Reads-next, Reads-shorter, next-Reads}

-- A text, read by the bit layout of UTF-8 character by character: all of it can be typed, or the first
-- place where there is no character of that layout, or one without key strokes, stands behind `n` bytes.
pub data Verdict (layout : ℕ) : Bytes → Option ℕ → Type 0 where
  empty : Verdict layout [] none
  stuck :
      {text : Bytes}
      → text ≢ []
      → ((cp : ℕ) (rest : Bytes) → Reads text cp rest → keyboard_strokes layout cp ≡ [])
      → Verdict layout text (some 0)
  fits :
      {text rest : Bytes} {cp : ℕ}
      → Reads text cp rest
      → keyboard_strokes layout cp ≢ []
      → Verdict layout rest none
      → Verdict layout text none
  later :
      {text rest : Bytes} {cp n : ℕ}
      → Reads text cp rest
      → keyboard_strokes layout cp ≢ []
      → Verdict layout rest (some n)
      → Verdict layout text (some (length text - length rest + n))

abbrev character : Option (ℕ × Bytes) → ℕ
character none = 0
character (some r) = r.0

unfoldable plus : ℕ → Option ℕ → Option ℕ
plus n none = none
plus n (some m) = some (n + m)

abbrev Types : ℕ → Bytes → ℕ → Bytes → Type 0
Types layout text cp rest =
    (keyboard_next_codepoint text ≡ some (cp, rest)) × (keyboard_strokes layout cp ≢ [])

no_entries : (l : List KeyStroke) → (length l == 0) ≡ true → l ≡ []
no_entries [] h = refl
no_entries (k ∷ l) h = absurd (ground (arith, h))

typed-cases :
    (layout : ℕ) (text : Bytes)
    → ((typed layout text ≡ none)
        × ((cp : ℕ) (rest : Bytes)
            → keyboard_next_codepoint text ≡ some (cp, rest)
            → keyboard_strokes layout cp ≡ []))
      ⊎ ((cp : ℕ) × (rest : Bytes) × (typed layout text ≡ some rest) × Types layout text cp rest)
unfolding typed
typed-cases layout text = elim (Option-cases (keyboard_next_codepoint text)) [
  | inl e ↦ inl (rw (e, typed) refl, λ cp rest f. absurd (ground (arith, sym e ∙ f)))
  | inr ((cp, rest), e) ↦ elim (Bool-cases (length (keyboard_strokes layout cp) == 0)) [
    | inl bad ↦ inl (
      rw (e, typed) (rw bad refl),
      λ cp' rest' f. no_strokes (cp, rest) (cp', rest') (sym e ∙ f) bad,
    )
    | inr good ↦ inr (cp, rest, rw (e, typed) (rw good refl), (e, some_strokes cp good))
  ]
]
  where
    no_strokes :
        (a b : ℕ × Bytes)
        → some a ≡ some b
        → (length (keyboard_strokes layout a.0) == 0) ≡ true
        → keyboard_strokes layout b.0 ≡ []
    no_strokes a b e bad =
        subst (λ (t : ℕ). keyboard_strokes layout t ≡ []) (ap character e)
          (no_entries (keyboard_strokes layout a.0) bad)

    some_strokes :
        (cp : ℕ)
        → (length (keyboard_strokes layout cp) == 0) ≡ false
        → keyboard_strokes layout cp ≢ []
    some_strokes cp good e = ground (arith, e, good)

module _ (fuel layout c : ℕ) (p : Bytes) (at_byte : ℕ) where
  loop-stuck :
      typed layout (c ∷ p) ≡ none
      → unsupported_loop (suc fuel) layout (c ∷ p) at_byte ≡ some at_byte
  unfolding unsupported_loop
  loop-stuck e = rw (e, unsupported_loop) refl

  loop-typed :
      (rest : Bytes)
      → typed layout (c ∷ p) ≡ some rest
      → unsupported_loop (suc fuel) layout (c ∷ p) at_byte
        ≡ unsupported_loop fuel layout rest (at_byte + (length (c ∷ p) - length rest))
  unfolding unsupported_loop
  loop-typed rest e = rw (e, unsupported_loop) refl

abbrev Judged : ℕ → Bytes → ℕ → Option ℕ → Type 0
Judged layout text at_byte o = (r : Option ℕ) × Verdict layout text r × (o ≡ plus at_byte r)

loop-Judged :
    (fuel layout : ℕ) (text : Bytes) (at_byte : ℕ)
    → length text ≤ fuel
    → All IsByte text
    → Judged layout text at_byte (unsupported_loop fuel layout text at_byte)
loop-Judged fuel layout [] at_byte h a = (none, Verdict.empty, unfold unsupported_loop plus in refl)
loop-Judged zero layout (c ∷ p) at_byte h a = absurd (omega arith)
loop-Judged (suc fuel) layout (c ∷ p) at_byte h a = elim (typed-cases layout (c ∷ p)) [
  | inl (e, bad) ↦ (
    some 0,
    Verdict.stuck (λ f. ground (arith, f)) (λ cp rest r. bad cp rest (Reads-next r)),
    loop-stuck fuel layout c p at_byte e ∙ (unfold plus in ap some (omega arith)),
  )
  | inr (cp, rest, e, (next, strokes)) ↦
      let (read, bytes) = next-Reads (c ∷ p) cp rest a next in
      behind cp rest e read strokes (
        loop-Judged fuel layout rest (at_byte + (length (c ∷ p) - length rest))
          (omega (arith, h, Reads-shorter read)) bytes)
]
  where
    behind :
        (cp : ℕ) (rest : Bytes)
        → typed layout (c ∷ p) ≡ some rest
        → Reads (c ∷ p) cp rest
        → keyboard_strokes layout cp ≢ []
        → Judged layout rest
            (at_byte + (length (c ∷ p) - length rest))
            (unsupported_loop fuel layout rest (at_byte + (length (c ∷ p) - length rest)))
        → Judged layout (c ∷ p) at_byte (unsupported_loop (suc fuel) layout (c ∷ p) at_byte)
    behind cp rest e next strokes (none, v, same) = (
      none,
      Verdict.fits next strokes v,
      loop-typed fuel layout c p at_byte rest e ∙ same ∙ (unfold plus in refl),
    )
    behind cp rest e next strokes (some n, v, same) = (
      some (length (c ∷ p) - length rest + n),
      Verdict.later next strokes v,
      loop-typed fuel layout c p at_byte rest e ∙ same ∙ (unfold plus in ap some (omega arith)),
    )

-- For a text of bytes, `keyboard_find_unsupported` gives -1 exactly when the text is a row of characters
-- in the bit layout of UTF-8, of which each has key strokes on the layout, and else the number of bytes
-- in front of the first place where that fails. The bit layout admits forms that are longer than needed.
pub keyboard_find_unsupported-Verdict :
    (layout : ℕ) (text : Bytes)
    → All IsByte text
    → Verdict layout text (keyboard_find_unsupported layout text)
unfolding keyboard_find_unsupported
keyboard_find_unsupported-Verdict layout text a =
    let (r, v, e) = loop-Judged (length text) layout text 0 (omega arith) a in
    subst (Verdict layout text) (sym (e ∙ plus_zero r)) v
  where
    plus_zero : (r : Option ℕ) → plus 0 r ≡ r
    plus_zero none = unfold plus in refl
    plus_zero (some n) = unfold plus in ap some (omega arith)
