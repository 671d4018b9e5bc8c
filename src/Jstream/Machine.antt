-- ===== src/Jstream/Machine.antt =====
-- The filter of source/features/mcp/jstream.c one byte at a time, with no batches and no fuel: an
-- independent description of it.
use sys_autopilot.Base.{
  ℕ, suc, ◌≤◌, ◌≡◌, refl, ap, sym, ◌∙◌, ◌⊎◌, inl, inr, true, false, none, some, List, [], ◌∷◌, ◌++◌,
  append_assoc, length, Bool-cases, Option-cases, arith, ◌==◌, if◌then◌else◌,
}
use sys_autopilot.Base.Text.{Bytes}
use sys_autopilot.Jstream.{
  Error, econtent, Jstream, fail, if_ok, doc_append, string_char, structural, content_escape,
  is_clean, clean_run, after_sink, feed_loop,
}

-- The state after one byte, and what the byte gives to the sink.
unfoldable pub step : Jstream → ℕ → Jstream × Bytes
step js c =
    let divert_escape = (elim (content_escape c) as (λ _. Jstream × Bytes) [
      | none ↦ (fail (record js { esc = false }) econtent, [])
      | some u ↦ (record js { esc = false }, u ∷ [])
    ]) in
    if js.divert
    then (if js.esc
        then divert_escape
        else if c == b'"'
        then (record js { divert = false }, [])
        else if c == b'\\'
        then (record js { esc = true }, [])
        else (js, c ∷ []))
    else if js.in_string
    then (if_ok (doc_append js (c ∷ [])) (λ js'. string_char js' c), [])
    else (structural js c, [])

abbrev pub behind : Bytes → Jstream × Bytes → Jstream × Bytes
behind out (js, more) = (js, out ++ more)

-- The whole input; nothing is read once an error is set.
unfoldable pub run : Jstream → Bytes → Jstream × Bytes
run js [] = (js, [])
run js (c ∷ cs) = elim js.err [
  | some e ↦ (js, [])
  | none ↦ behind (step js c).1 (run (step js c).0 cs)
]

pub run-err : (js : Jstream) (cs : Bytes) (e : Error) → js.err ≡ some e → run js cs ≡ (js, [])
unfolding run
run-err js [] e h = refl
run-err js (c ∷ cs) e h = ground (arith, h)

pub run-cons :
    (js : Jstream) (c : ℕ) (cs : Bytes)
    → js.err ≡ none
    → run js (c ∷ cs) ≡ behind (step js c).1 (run (step js c).0 cs)
unfolding run
run-cons js c cs h = ground (arith, h)

pub behind-behind : (a b : Bytes) (r : Jstream × Bytes) → behind a (behind b r) ≡ behind (a ++ b) r
behind-behind a b (js, more) = ap (λ (o : Bytes). (js, o)) (sym (append_assoc a b more))

pub run-append :
    (a b : Bytes) (js : Jstream) → run js (a ++ b) ≡ behind (run js a).1 (run (run js a).0 b)
run-append [] b js = unfold run in refl
run-append (c ∷ a) b js = elim (Option-cases js.err) [
  | inl going ↦
      run-cons js c (a ++ b) going
      ∙ ap (behind (step js c).1) (run-append a b (step js c).0)
      ∙ behind-behind (step js c).1 (run (step js c).0 a).1 _
      ∙ sym (ap (λ (r : Jstream × Bytes). behind r.1 (run r.0 b)) (run-cons js c a going))
  | inr (e, failed) ↦
      run-err js (c ∷ (a ++ b)) e failed
      ∙ sym (
          ap (λ (r : Jstream × Bytes). behind r.1 (run r.0 b)) (run-err js (c ∷ a) e failed)
          ∙ run-err js b e failed)
]

abbrev pub joined : List Bytes → Bytes
joined [] = []
joined (chunk ∷ chunks) = chunk ++ joined chunks

-- The state and the sink's bytes, the bounds of the calls forgotten.
abbrev pub seen : Jstream × List Bytes → Jstream × Bytes
seen (js, calls) = (js, joined calls)

step-clean :
    (js : Jstream) (c : ℕ)
    → js.divert ≡ true
    → js.esc ≡ false
    → is_clean c ≡ true
    → step js c ≡ (js, c ∷ [])
unfolding step
step-clean js c d e clean = ground (arith, d, e, clean)

-- A clean run in the content is what the sink gets, and the state stays.
pub run-clean_run :
    (js : Jstream) (cs : Bytes)
    → js.err ≡ none
    → js.divert ≡ true
    → js.esc ≡ false
    → run js cs ≡ behind (clean_run cs).0 (run js (clean_run cs).1)
unfolding clean_run
run-clean_run js [] h d e = refl
run-clean_run js (c ∷ cs) h d e = elim (Bool-cases (is_clean c)) [
  | inl clean ↦ rw clean (
      run-cons js c cs h
      ∙ ap (λ (r : Jstream × Bytes). behind r.1 (run r.0 cs)) (step-clean js c d e clean)
      ∙ ap (behind (c ∷ [])) (run-clean_run js cs h d e)
      ∙ behind-behind (c ∷ []) (clean_run cs).0 (run js (clean_run cs).1))
  | inr stop ↦ rw stop
]

length-clean_run : (cs : Bytes) → length (clean_run cs).1 ≤ length cs
unfolding clean_run
length-clean_run [] = omega arith
length-clean_run (c ∷ cs) = ground (arith, length-clean_run cs)

pub length-clean_run_cons :
    (c : ℕ) (cs : Bytes) → is_clean c ≡ true → length (clean_run (c ∷ cs)).1 ≤ length cs
unfolding clean_run
length-clean_run_cons c cs h = rw h (length-clean_run cs)

pub seen-after_sink :
    (chunk : Bytes) (r : Jstream × List Bytes) → seen (after_sink chunk r) ≡ behind chunk (seen r)
seen-after_sink chunk (js, calls) = refl

-- A round of the loop that takes one byte.
module _ (fuel : ℕ) (js : Jstream) (c : ℕ) (cs : Bytes) where
  pub feed_copy :
      js.divert ≡ false
      → (step js c).0.err ≡ none
      → feed_loop (suc fuel) js (c ∷ cs) ≡ feed_loop fuel (step js c).0 cs
  unfolding feed_loop step
  feed_copy d ok = ground (arith, d, ok)

  pub feed_copy_err :
      (e : Error)
      → js.divert ≡ false
      → (step js c).0.err ≡ some e
      → feed_loop (suc fuel) js (c ∷ cs) ≡ ((step js c).0, [])
  unfolding feed_loop step
  feed_copy_err e d bad = ground (arith, d, bad)

  pub step_copy : js.divert ≡ false → (step js c).1 ≡ []
  unfolding step
  step_copy d = ground (arith, d)

  pub feed_clean :
      js.divert ≡ true
      → js.esc ≡ false
      → is_clean c ≡ true
      → feed_loop (suc fuel) js (c ∷ cs)
        ≡ after_sink (clean_run (c ∷ cs)).0 (feed_loop fuel js (clean_run (c ∷ cs)).1)
  unfolding feed_loop
  feed_clean d e clean = ground (arith, d, e, clean)

  pub feed_escape :
      (u : ℕ)
      → js.divert ≡ true
      → js.esc ≡ true
      → content_escape c ≡ some u
      → feed_loop (suc fuel) js (c ∷ cs)
        ≡ after_sink (step js c).1 (feed_loop fuel (step js c).0 cs)
  unfolding feed_loop step
  feed_escape u d e known = ground (arith, d, e, known)

  pub feed_bad_escape :
      js.divert ≡ true
      → js.esc ≡ true
      → content_escape c ≡ none
      → (feed_loop (suc fuel) js (c ∷ cs) ≡ ((step js c).0, []))
        × ((step js c).0.err ≡ some econtent)
        × ((step js c).1 ≡ [])
  unfolding feed_loop step
  feed_bad_escape d e unknown = ground (arith, d, e, unknown)

  pub feed_mark :
      js.divert ≡ true
      → js.esc ≡ false
      → is_clean c ≡ false
      → (feed_loop (suc fuel) js (c ∷ cs) ≡ feed_loop fuel (step js c).0 cs) × ((step js c).1 ≡ [])
  unfolding feed_loop step
  feed_mark d e mark = ground (arith, d, e, mark)

  -- In the content only a bad escape sets the error.
  pub step_content_err :
      js.err ≡ none
      → js.divert ≡ true
      → (js.esc ≡ false) ⊎ ((u : ℕ) × (content_escape c ≡ some u))
      → (step js c).0.err ≡ none
  unfolding step
  step_content_err h d (inl e) = ground (arith, h, d, e)
  step_content_err h d (inr (u, known)) = ground (arith, h, d, known)
