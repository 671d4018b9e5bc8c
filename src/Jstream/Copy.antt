-- ===== src/Jstream/Copy.antt =====
-- source/features/mcp/jstream.c on a document with no content field.
use sys_autopilot.Base.{
  ℕ, zero, ◌≡◌, refl, ap, sym, ◌∙◌, ◌⊎◌, inl, inr, true, false, none, [], ◌∷◌, ◌++◌, append_assoc,
  append-nil, Bool-cases, Option-cases, arith, ◌==◌,
}
use sys_autopilot.Base.Text.{Bytes}
use sys_autopilot.Jstream.{
  Jstream, if_ok, doc_append, string_char, open_string, open_container, close_container, structural,
  jstream_feed,
}
use sys_autopilot.Jstream.Machine.{step, step_copy, run, run-err, run-cons, seen}
use sys_autopilot.Jstream.Chunks.{jstream_feed-run}

-- One byte outside the content: it is copied, or it opens the content.
record Copies (js : Jstream) (c : ℕ) (js' : Jstream) : Type 0 where
  copied : js'.doc ≡ js.doc ++ (c ∷ [])
  same_divert : js'.divert ≡ false
  same_found : js'.content_found ≡ js.content_found

doc_append-Copies :
    (js : Jstream) (c : ℕ)
    → js.divert ≡ false
    → (doc_append js (c ∷ [])).err ≡ none
    → Copies js c (doc_append js (c ∷ []))
unfolding doc_append
doc_append-Copies js c d ok = ground (arith, d, ok)

string_char-same :
    (js : Jstream) (c : ℕ)
    → ((string_char js c).doc ≡ js.doc)
      × ((string_char js c).divert ≡ js.divert)
      × ((string_char js c).content_found ≡ js.content_found)
      × ((string_char js c).err ≡ js.err)
unfolding string_char
string_char-same js c = ground arith

open_string-Copies :
    (js : Jstream)
    → js.err ≡ none
    → js.divert ≡ false
    → (open_string js b'"').err ≡ none
    → Copies js b'"' (open_string js b'"') ⊎ ((open_string js b'"').content_found ≡ true)
unfolding open_string
open_string-Copies js h d ok = ground (arith, h, d, ok)

open_container-Copies :
    (js : Jstream) (c : ℕ)
    → js.divert ≡ false
    → (open_container js c).err ≡ none
    → Copies js c (open_container js c)
unfolding open_container
open_container-Copies js c d ok = ground (arith, d, ok)

close_container-Copies :
    (js : Jstream) (c : ℕ)
    → js.divert ≡ false
    → (close_container js c).err ≡ none
    → Copies js c (close_container js c)
unfolding close_container
close_container-Copies js c d ok = ground (arith, d, ok)

structural-Copies :
    (js : Jstream) (c : ℕ)
    → js.err ≡ none
    → js.divert ≡ false
    → (structural js c).err ≡ none
    → Copies js c (structural js c) ⊎ ((structural js c).content_found ≡ true)
unfolding structural doc_append
structural-Copies js c h d ok = elim (Bool-cases (c == b'"')) [
  | inl quote ↦ ground (arith, quote, h, d, ok, open_string-Copies js h d)
  | inr other ↦
      inl (
        ground
          (arith, other, h, d, ok, open_container-Copies js c d, close_container-Copies js c d))
]

string_step-Copies :
    (js : Jstream) (c : ℕ)
    → js.err ≡ none
    → js.divert ≡ false
    → (if_ok (doc_append js (c ∷ [])) (λ js'. string_char js' c)).err ≡ none
    → Copies js c (if_ok (doc_append js (c ∷ [])) (λ js'. string_char js' c))
string_step-Copies js c h d ok =
    ground (arith, h, d, ok, doc_append-Copies js c d, string_char-same (doc_append js (c ∷ [])) c)

step-Copies :
    (js : Jstream) (c : ℕ)
    → js.err ≡ none
    → js.divert ≡ false
    → (step js c).0.err ≡ none
    → Copies js c (step js c).0 ⊎ ((step js c).0.content_found ≡ true)
unfolding step
step-Copies js c h d ok = elim (Bool-cases js.in_string) [
  | inl inside ↦ inl (ground (arith, h, d, ok, inside, string_step-Copies js c h d))
  | inr outside ↦ ground (arith, h, d, ok, outside, structural-Copies js c h d)
]

-- Once the content is found it stays found.
doc_append-found : (js : Jstream) (t : Bytes) → (doc_append js t).content_found ≡ js.content_found
unfolding doc_append
doc_append-found js t = ground arith

structural-found :
    (js : Jstream) (c : ℕ) → js.content_found ≡ true → (structural js c).content_found ≡ true
unfolding structural open_string open_container close_container doc_append
structural-found js c h = ground (arith, h)

step-found : (js : Jstream) (c : ℕ) → js.content_found ≡ true → (step js c).0.content_found ≡ true
unfolding step
step-found js c h = ground (
  arith,
  h,
  structural-found js c h,
  doc_append-found js (c ∷ []),
  string_char-same (doc_append js (c ∷ [])) c,
)

run-found :
    (cs : Bytes) (js : Jstream) → js.content_found ≡ true → (run js cs).0.content_found ≡ true
run-found [] js h = unfold run in h
run-found (c ∷ cs) js h = elim (Option-cases js.err) [
  | inl going ↦ rw (run-cons js c cs going) (run-found cs (step js c).0 (step-found js c h))
  | inr (e, failed) ↦ rw (run-err js (c ∷ cs) e failed) h
]

run-no_err : (cs : Bytes) (js : Jstream) → (run js cs).0.err ≡ none → js.err ≡ none
run-no_err [] js ok = unfold run in ok
run-no_err (c ∷ cs) js ok = elim (Option-cases js.err) [
  | inl going ↦ going
  | inr (e, failed) ↦ absurd (cc (run-err js (c ∷ cs) e failed))
]

run-Copies :
    (cs : Bytes) (js : Jstream)
    → js.divert ≡ false
    → (run js cs).0.err ≡ none
    → (run js cs).0.content_found ≡ false
    → ((run js cs).0.doc ≡ js.doc ++ cs) × ((run js cs).1 ≡ [])
run-Copies [] js d ok missing = unfold run in (sym (append-nil js.doc), refl)
run-Copies (c ∷ cs) js d ok missing =
    let next = (step js c).0 in
    let h : js.err ≡ none = run-no_err (c ∷ cs) js ok in
    let e = run-cons js c cs h in
    let ok' : (run next cs).0.err ≡ none = rw e at ok in
    let missing' : (run next cs).0.content_found ≡ false = rw e at missing in
    elim (step-Copies js c h d (run-no_err cs next ok')) [
      | inr found ↦ absurd (cc (run-found cs next found, missing'))
      | inl k ↦
          let (copied, silent) = run-Copies cs next k.same_divert ok' missing' in
          (
            ap (λ (r : Jstream × Bytes). r.0.doc) e
                ∙ copied
                ∙ ap (λ (t : Bytes). t ++ cs) k.copied
                ∙ append_assoc js.doc (c ∷ []) cs,
            ap (λ (r : Jstream × Bytes). r.1) e
                ∙ ap (λ (t : Bytes). t ++ (run next cs).1) (step_copy zero js c cs d)
                ∙ silent,
          )
    ]

-- A chunk that is fed without an error and without meeting the content field is copied to the
-- document byte for byte, and the sink gets nothing.
pub jstream_feed-Copies :
    (js : Jstream) (cs : Bytes)
    → js.divert ≡ false
    → (jstream_feed js cs).0.err ≡ none
    → (jstream_feed js cs).0.content_found ≡ false
    → ((jstream_feed js cs).0.doc ≡ js.doc ++ cs) × ((seen (jstream_feed js cs)).1 ≡ [])
jstream_feed-Copies js cs d ok missing =
    let e = jstream_feed-run js cs in
    let (copied, silent) =
      run-Copies cs js d (sym (ap (λ (r : Jstream × Bytes). r.0.err) e) ∙ ok)
        (sym (ap (λ (r : Jstream × Bytes). r.0.content_found) e) ∙ missing) in
    (ap (λ (r : Jstream × Bytes). r.0.doc) e ∙ copied, ap (λ (r : Jstream × Bytes). r.1) e ∙ silent)
