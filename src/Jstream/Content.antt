-- ===== src/Jstream/Content.antt =====
-- The content field in source/features/mcp/jstream.c: what the sink and the document get of it.
use sys_autopilot.Base.{
  ℕ, ◌+◌, ◌≤◌, ◌≡◌, refl, ◌≢◌, ap, sym, ◌∙◌, true, false, none, some, [], ◌∷◌, ◌++◌, length, arith,
}
use sys_autopilot.Base.Text.{Bytes}
use sys_autopilot.Jstream.{
  Jstream, open_string, structural, jstream_feed, k_placeholder, is_clean, content_escape,
}
use sys_autopilot.Jstream.Machine.{step, behind, behind-behind, run, run-cons, seen}
use sys_autopilot.Jstream.Chunks.{jstream_feed-run}

-- The filter stands before the value of params.arguments.content, the first one.
pub record AtContent (js : Jstream) : Type 0 where
  pub no_err : js.err ≡ none
  pub outside : js.in_string ≡ false
  pub copying : js.divert ≡ false
  pub unescaped : js.esc ≡ false
  pub at_value : js.next_is_key ≡ false
  pub content_next : js.next_value_is_content ≡ true
  pub first : js.content_found ≡ false
  pub room : length js.doc + 12 ≤ js.doc_cap

-- An escape that base64 text can carry, by its second character, and the byte that it stands for.
pub data Unescapes : ℕ → ℕ → Type 0 where
  slash : Unescapes b'/' b'/'
  line_feed : Unescapes b'n' 10
  carriage_return : Unescapes b'r' 13

content_escape-Unescapes : {c u : ℕ} → Unescapes c u → content_escape c ≡ some u
unfolding content_escape
content_escape-Unescapes slash = refl
content_escape-Unescapes line_feed = refl
content_escape-Unescapes carriage_return = refl

is_clean-plain : (c : ℕ) → c ≢ b'"' → c ≢ b'\\' → is_clean c ≡ true
is_clean-plain c q e = ground (arith)

-- The text between the quotes, and what it stands for: any byte but a quote and a backslash, and
-- the escapes that base64 text can carry.
pub data ContentText : Bytes → Bytes → Type 0 where
  done : ContentText [] []
  plain :
      {c : ℕ} {cs text : Bytes}
      → c ≢ b'"'
      → c ≢ b'\\'
      → ContentText cs text
      → ContentText (c ∷ cs) (c ∷ text)
  escape :
      {c u : ℕ} {cs text : Bytes}
      → Unescapes c u
      → ContentText cs text
      → ContentText (b'\\' ∷ c ∷ cs) (u ∷ text)

abbrev pub content_open : Jstream → Jstream
content_open js = record js {
  doc = js.doc ++ k_placeholder;
  content_found = true;
  divert = true;
  next_value_is_content = false;
  next_value_on_path = false;
}

-- The state behind the content's closing quote.
abbrev pub content_done : Jstream → Jstream
content_done js = record (content_open js) { divert = false }

step-open : (js : Jstream) → AtContent js → step js b'"' ≡ (content_open js, [])
unfolding step structural open_string
step-open js a = ground (arith, a)

-- A byte of the content, in the state inside it.
record InContent (js : Jstream) : Type 0 where
  no_err : js.err ≡ none
  diverting : js.divert ≡ true
  unescaped : js.esc ≡ false

step-plain : (js : Jstream) (c : ℕ) → InContent js → is_clean c ≡ true → step js c ≡ (js, c ∷ [])
unfolding step
step-plain js c i h = ground (arith, i, h)

step-escape :
    (js : Jstream) (c u : ℕ)
    → InContent js
    → content_escape c ≡ some u
    → (step js b'\\' ≡ (record js { esc = true }, []))
      × (step (record js { esc = true }) c ≡ (js, u ∷ []))
unfolding step
step-escape js c u i h = ground (arith, i, h)

step-close : (js : Jstream) → InContent js → step js b'"' ≡ (record js { divert = false }, [])
unfolding step
step-close js i = ground (arith, i)

run-step :
    (js : Jstream) (c : ℕ) (cs : Bytes) {js' : Jstream} {out : Bytes}
    → js.err ≡ none
    → step js c ≡ (js', out)
    → run js (c ∷ cs) ≡ behind out (run js' cs)
run-step js c cs h e = run-cons js c cs h ∙ ap (λ (r : Jstream × Bytes). behind r.1 (run r.0 cs)) e

run-ContentText :
    {cs text : Bytes} (js : Jstream) (rest : Bytes)
    → InContent js
    → ContentText cs text
    → run js (cs ++ (b'"' ∷ rest)) ≡ behind text (run (record js { divert = false }) rest)
run-ContentText js rest i done = run-step js b'"' rest i.no_err (step-close js i)
run-ContentText js rest i (plain {c} {cs} {text} q e t) =
    run-step js c (cs ++ (b'"' ∷ rest)) i.no_err (step-plain js c i (is_clean-plain c q e))
    ∙ ap (behind (c ∷ [])) (run-ContentText js rest i t)
    ∙ behind-behind (c ∷ []) text (run (record js { divert = false }) rest)
run-ContentText js rest i (escape {c} {u} {cs} {text} h t) =
    let (opens, closes) = step-escape js c u i (content_escape-Unescapes h) in
    run-step js b'\\' (c ∷ (cs ++ (b'"' ∷ rest))) i.no_err opens
    ∙ ap (behind []) (
        run-step (record js { esc = true }) c (cs ++ (b'"' ∷ rest)) i.no_err closes
        ∙ ap (behind (u ∷ [])) (run-ContentText js rest i t)
        ∙ behind-behind (u ∷ []) text (run (record js { divert = false }) rest))

-- At the content's value, a string gives its text to the sink, the escapes of `/` and of line breaks
-- undone; the document gets the placeholder for it, and filtering goes on behind its closing quote.
pub jstream_feed-ContentText :
    {cs text : Bytes} (js : Jstream) (rest : Bytes)
    → AtContent js
    → ContentText cs text
    → seen (jstream_feed js (b'"' ∷ (cs ++ (b'"' ∷ rest))))
      ≡ behind text (seen (jstream_feed (content_done js) rest))
jstream_feed-ContentText {cs} {text} js rest a t =
    jstream_feed-run js (b'"' ∷ (cs ++ (b'"' ∷ rest)))
    ∙ run-step js b'"' (cs ++ (b'"' ∷ rest)) a.no_err (step-open js a)
    ∙ run-ContentText (content_open js) rest (ground (arith, a)) t
    ∙ ap (behind text) (sym (jstream_feed-run (content_done js) rest))
