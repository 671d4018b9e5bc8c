-- ===== src/Jstream/Chunks.antt =====
-- `jstream_feed` of source/features/mcp/jstream.c, the byte-at-a-time machine, and the chunks of a
-- request body.
use sys_autopilot.Base.{
  ℕ, zero, suc, ◌≤◌, ◌≡◌, refl, ap, sym, ◌∙◌, inl, inr, true, false, none, some, [], ◌∷◌, ◌++◌,
  length, Bool-cases, Option-cases, arith,
}
use sys_autopilot.Base.Text.{Bytes}
use sys_autopilot.Jstream.{
  Error, Jstream, is_clean, clean_run, content_escape, feed_loop, jstream_feed,
}
use sys_autopilot.Jstream.Machine.{
  step, behind, run, run-err, run-cons, run-append, seen, run-clean_run, length-clean_run_cons,
  feed_copy, feed_copy_err, step_copy, feed_clean, feed_escape, feed_bad_escape, feed_mark,
  step_content_err,
}

-- What the induction gives for the rest of the input.
abbrev Follows : ℕ → Type 0
Follows fuel =
    (js : Jstream) (cs : Bytes)
    → js.err ≡ none
    → length cs ≤ fuel
    → seen (feed_loop fuel js cs) ≡ run js cs

module _ (fuel : ℕ) (ih : Follows fuel) (js : Jstream) (c : ℕ) (cs : Bytes) (h : js.err ≡ none)
    (k : length cs ≤ fuel) where
  -- A round that goes on with the state of `step`, and one that stops at its error.
  goes_on :
      (step js c).0.err ≡ none
      → seen (feed_loop (suc fuel) js (c ∷ cs))
        ≡ behind (step js c).1 (seen (feed_loop fuel (step js c).0 cs))
      → seen (feed_loop (suc fuel) js (c ∷ cs)) ≡ run js (c ∷ cs)
  goes_on ok e = e ∙ ap (behind (step js c).1) (ih (step js c).0 cs ok k) ∙ sym (run-cons js c cs h)

  stops :
      (e : Error)
      → (step js c).0.err ≡ some e
      → (step js c).1 ≡ []
      → ((step js c).0, []) ≡ run js (c ∷ cs)
  stops e bad silent = sym (
      run-cons js c cs h
      ∙ ap (behind (step js c).1) (run-err (step js c).0 cs e bad)
      ∙ ap (λ (o : Bytes). behind o ((step js c).0, [])) silent)

  copy_follows : js.divert ≡ false → seen (feed_loop (suc fuel) js (c ∷ cs)) ≡ run js (c ∷ cs)
  copy_follows d = elim (Option-cases (step js c).0.err) [
    | inl ok ↦ goes_on ok (
        ap seen (feed_copy fuel js c cs d ok)
        ∙ sym (
            ap (λ (o : Bytes). behind o (seen (feed_loop fuel (step js c).0 cs)))
              (step_copy fuel js c cs d)))
    | inr (e, bad) ↦
        ap seen (feed_copy_err fuel js c cs e d bad) ∙ stops e bad (step_copy fuel js c cs d)
  ]

  escape_follows :
      js.divert ≡ true → js.esc ≡ true → seen (feed_loop (suc fuel) js (c ∷ cs)) ≡ run js (c ∷ cs)
  escape_follows d e = elim (Option-cases (content_escape c)) [
    | inl unknown ↦
        let (stop, bad, silent) = feed_bad_escape fuel js c cs d e unknown in
        ap seen stop ∙ stops _ bad silent
    | inr (u, known) ↦
        goes_on (step_content_err fuel js c cs h d (inr (u, known)))
          (ap seen (feed_escape fuel js c cs u d e known))
  ]

  plain_follows :
      js.divert ≡ true → js.esc ≡ false → seen (feed_loop (suc fuel) js (c ∷ cs)) ≡ run js (c ∷ cs)
  plain_follows d e = elim (Bool-cases (is_clean c)) [
    | inl clean ↦
        let rest = clean_run (c ∷ cs) in
        ap seen (feed_clean fuel js c cs d e clean)
        ∙ ap (behind rest.0) (ih js rest.1 h (omega (arith, length-clean_run_cons c cs clean)))
        ∙ sym (run-clean_run js (c ∷ cs) h d e)
    | inr mark ↦
        let (next, silent) = feed_mark fuel js c cs d e mark in
        goes_on (step_content_err fuel js c cs h d (inl e)) (
          ap seen next
          ∙ sym (ap (λ (o : Bytes). behind o (seen (feed_loop fuel (step js c).0 cs))) silent))
  ]

  round_follows : seen (feed_loop (suc fuel) js (c ∷ cs)) ≡ run js (c ∷ cs)
  round_follows = elim (Bool-cases js.divert) [
    | inr copied ↦ copy_follows copied
    | inl diverted ↦ elim (Bool-cases js.esc) [
      | inl e ↦ escape_follows diverted e
      | inr e ↦ plain_follows diverted e
    ]
  ]

feed_loop-run : (fuel : ℕ) → Follows fuel
feed_loop-run fuel js [] h k = unfold feed_loop run in refl
feed_loop-run zero js (c ∷ cs) h k = absurd (omega arith)
feed_loop-run (suc fuel) js (c ∷ cs) h k =
    round_follows fuel (feed_loop-run fuel) js c cs h (omega arith)

feed_going :
    (js : Jstream) (cs : Bytes) → js.err ≡ none → jstream_feed js cs ≡ feed_loop (length cs) js cs
unfolding jstream_feed
feed_going js cs h = ground (arith, h)

feed_failed :
    (js : Jstream) (cs : Bytes) (e : Error) → js.err ≡ some e → jstream_feed js cs ≡ (js, [])
unfolding jstream_feed
feed_failed js cs e h = ground (arith, h)

-- Feeding a chunk, with its batches, its early returns and the fuel of its loop, leaves the state
-- and gives the sink the bytes that the byte-at-a-time machine does.
pub jstream_feed-run : (js : Jstream) (cs : Bytes) → seen (jstream_feed js cs) ≡ run js cs
jstream_feed-run js cs = elim (Option-cases js.err) [
  | inl going ↦
      ap seen (feed_going js cs going) ∙ feed_loop-run (length cs) js cs going (omega arith)
  | inr (e, failed) ↦ ap seen (feed_failed js cs e failed) ∙ sym (run-err js cs e failed)
]

-- Feeding a body in two chunks gives the state, the copied document and the sink's bytes of
-- feeding it at once, wherever it is cut: also inside a key, an escape or the content.
pub jstream_feed-append :
    (js : Jstream) (a b : Bytes)
    → seen (jstream_feed js (a ++ b))
      ≡ behind (seen (jstream_feed js a)).1 (seen (jstream_feed (seen (jstream_feed js a)).0 b))
jstream_feed-append js a b =
    jstream_feed-run js (a ++ b)
    ∙ run-append a b js
    ∙ sym (
        ap (λ (r : Jstream × Bytes). behind r.1 (seen (jstream_feed r.0 b))) (jstream_feed-run js a)
        ∙ ap (behind (run js a).1) (jstream_feed-run (run js a).0 b))
