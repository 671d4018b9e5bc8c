-- ===== src/Jstream.antt =====
-- source/features/mcp/jstream.c and jstream.h: the streaming filter in front of the JSON parser. It
-- copies a JSON-RPC document and diverts the text of params.arguments.content to a sink.
-- The sink's calls are a list, in order; the document is the list of bytes copied so far.
pub mod Machine
pub mod Chunks
pub mod Bounds
pub mod Content
pub mod Copy
use sys_autopilot.Base.{
  ℕ, zero, suc, ◌+◌, ◌-◌, ◌≤◌, ◌<◌, ◌≡◌, Bool, true, false, not, ◌&&◌, ◌||◌, Option, none, some,
  List, [], ◌∷◌, ◌++◌, length, get_or, set, replicate, ltb, leb, ◌==◌, if◌then◌else◌,
}
use sys_autopilot.Base.Text.{Bytes, codes, streq, c_str}

-- JSTREAM_EDOC and so on.
pub data Error : Type 0 where
  edoc edepth econtent edup epartial : Error

abbrev pub max_depth : ℕ
max_depth = 15

abbrev pub max_key : ℕ
max_key = 39

-- kTarget
abbrev pub k_target : ℕ → Bytes
k_target zero = codes "params"
k_target (suc zero) = codes "arguments"
k_target _ = codes "content"

abbrev pub k_placeholder : Bytes
k_placeholder = codes "\"<streamed>\""

-- `doc_len` and `key_len` are the lengths of `doc` and `key`.
pub record Jstream : Type 0 where
  pub doc : Bytes
  pub doc_cap : ℕ
  pub depth : ℕ
  pub on_path : List Bool
  pub is_obj : List Bool
  pub in_string : Bool
  pub is_key : Bool
  pub esc : Bool
  pub next_is_key : Bool
  pub next_value_on_path : Bool
  pub next_value_is_content : Bool
  pub divert : Bool
  pub content_found : Bool
  pub key : Bytes
  pub key_overflow : Bool
  pub err : Option Error

abbrev pub jstream_init : ℕ → Jstream
jstream_init cap = record {
  doc = [];
  doc_cap = cap;
  depth = 0;
  on_path = replicate 16 false;
  is_obj = replicate 16 false;
  in_string = false;
  is_key = false;
  esc = false;
  next_is_key = false;
  next_value_on_path = false;
  next_value_is_content = false;
  divert = false;
  content_found = false;
  key = [];
  key_overflow = false;
  err = none;
}

-- A round of the loop: the state, with `err` set when the round returns it.
abbrev pub fail : Jstream → Error → Jstream
fail js e = record js { err = some e }

unfoldable pub doc_append : Jstream → Bytes → Jstream
doc_append js text =
    if ltb js.doc_cap (length js.doc + length text)
    then fail js edoc
    else record js { doc = js.doc ++ text }

unfoldable pub key_complete : Jstream → Jstream
key_complete js =
    let d = js.depth in
    let js' = record js { next_value_on_path = false; next_value_is_content = false } in
    if js.key_overflow || ltb d 1 || ltb 3 d || not (get_or js.on_path d false)
    then js'
    else if not (streq (c_str js.key) (k_target (d - 1)))
    then js'
    else if ltb d 3
    then record js' { next_value_on_path = true }
    else record js' { next_value_is_content = true }

-- A character inside a copied string, behind its append.
unfoldable pub string_char : Jstream → ℕ → Jstream
unfolding key_complete
string_char js c =
    if js.esc
    then record js { esc = false; key_overflow = js.key_overflow || js.is_key }
    else if c == b'\\'
    then record js { esc = true }
    else if c == b'"'
    then (let js' = record js { in_string = false } in if js.is_key then key_complete js' else js')
    else if js.is_key
    then (if ltb (length js.key) max_key
        then record js { key = js.key ++ (c ∷ []) }
        else record js { key_overflow = true })
    else js

-- A failed append returns at once; otherwise the round goes on.
abbrev pub if_ok : Jstream → (Jstream → Jstream) → Jstream
if_ok js f = elim js.err [ none ↦ f js | some e ↦ js ]

-- case '"' outside strings.
unfoldable pub open_string : Jstream → ℕ → Jstream
unfolding doc_append
open_string js c =
    let starting_key = leb 1 js.depth && get_or js.is_obj js.depth false && js.next_is_key in
    if not starting_key && js.next_value_is_content
    then (let js' = record js { next_value_is_content = false; next_value_on_path = false } in
        if js.content_found
        then fail js' edup
        else doc_append (record js' { content_found = true; divert = true }) k_placeholder)
    else (let js' = record js {
      in_string = true;
      is_key = starting_key;
      key = [];
      key_overflow = false;
    } in
        doc_append
          (record js' {
            next_value_is_content = js.next_value_is_content && starting_key;
            next_value_on_path = js.next_value_on_path && starting_key;
          })
          (c ∷ []))

-- case '{' and case '['.
unfoldable pub open_container : Jstream → ℕ → Jstream
unfolding doc_append
open_container js c =
    if leb max_depth js.depth
    then fail js edepth
    else (let d = js.depth + 1 in
        let path = (if c == b'[' then false else if d == 1 then true else js.next_value_on_path) in
        doc_append
          (record js {
            depth = d;
            is_obj = set js.is_obj d (c == b'{');
            on_path = set js.on_path d path;
            next_value_on_path = false;
            next_value_is_content = false;
            next_is_key = c == b'{';
          })
          (c ∷ []))

unfoldable pub close_container : Jstream → ℕ → Jstream
unfolding doc_append
close_container js c =
    if leb js.depth 0
    then fail js edepth
    else doc_append (record js { depth = js.depth - 1 }) (c ∷ [])

-- The switch outside strings.
unfoldable pub structural : Jstream → ℕ → Jstream
structural js c =
    if c == b'"'
    then open_string js c
    else if c == b'{' || c == b'['
    then open_container js c
    else if c == b'}' || c == b']'
    then close_container js c
    else if c == b':'
    then doc_append (record js { next_is_key = false }) (c ∷ [])
    else if c == b','
    then doc_append (record js { next_is_key = leb 1 js.depth && get_or js.is_obj js.depth false })
        (c ∷ [])
    else if c == b' ' || c == 9 || c == 13 || c == 10
    then doc_append js (c ∷ [])
    else doc_append (record js { next_value_on_path = false; next_value_is_content = false })
        (c ∷ [])

-- What the three escapes of base64 text stand for.
unfoldable pub content_escape : ℕ → Option ℕ
content_escape c =
    if c == b'/'
    then some b'/'
    else if c == b'n'
    then some 10
    else if c == b'r'
    then some 13
    else none

abbrev pub is_clean : ℕ → Bool
is_clean c = not (c == b'"') && not (c == b'\\')

-- The inner `while`: the clean run at the front, and what follows it.
unfoldable pub clean_run : Bytes → Bytes × Bytes
clean_run [] = ([], [])
clean_run (c ∷ cs) =
    let (run, rest) = clean_run cs in if is_clean c then (c ∷ run, rest) else ([], c ∷ cs)

-- A sink call in front of those of the rest of the loop.
abbrev pub after_sink : Bytes → Jstream × List Bytes → Jstream × List Bytes
after_sink chunk (js, calls) = (js, chunk ∷ calls)

-- The `while` of `jstream_feed`. Each round takes a byte at least, so the length is fuel enough.
unfoldable pub feed_loop : ℕ → Jstream → Bytes → Jstream × List Bytes
feed_loop fuel js [] = (js, [])
feed_loop zero js (c ∷ cs) = (js, [])
feed_loop (suc fuel) js (c ∷ cs) =
    let continue = λ (js' : Jstream). feed_loop fuel js' cs in
    let copied =
      (if js.in_string
        then if_ok (doc_append js (c ∷ [])) (λ js'. string_char js' c)
        else structural js c) in
    let run = clean_run (c ∷ cs) in
    let streamed = after_sink run.0 (feed_loop fuel js run.1) in
    let divert_escape = (elim (content_escape c) as (λ _. Jstream × List Bytes) [
      | none ↦ (fail (record js { esc = false }) econtent, [])
      | some u ↦ after_sink (u ∷ []) (continue (record js { esc = false }))
    ]) in
    let diverted =
      (if js.esc
        then divert_escape
        else if c == b'"'
        then continue (record js { divert = false })
        else if c == b'\\'
        then continue (record js { esc = true })
        else streamed) in
    let copy = (elim copied.err as (λ _. Jstream × List Bytes) [
      | none ↦ continue copied
      | some e ↦ (copied, [])
    ]) in
    if js.divert then diverted else copy

-- The new state, with the returned error in `err`, and the calls of the sink.
unfoldable pub jstream_feed : Jstream → Bytes → Jstream × List Bytes
jstream_feed js text = elim js.err [ none ↦ feed_loop (length text) js text | some e ↦ (js, []) ]

-- The state, and `content_found` unless an error is returned.
unfoldable pub jstream_finish : Jstream → Jstream × Option Bool
jstream_finish js = elim js.err [
  | some e ↦ (js, none)
  | none ↦
      if js.in_string || js.divert || not (js.depth == 0)
      then (fail js epartial, none)
      else (js, some js.content_found)
]
