-- ===== src/Tests/Filter.antt =====
-- Runs and instances for Jstream.
use sys_autopilot.Base.{◌≡◌, refl, true, false, none, some, [], ◌∷◌, ◌++◌, arith}
use sys_autopilot.Base.Text.{Bytes, codes}
use sys_autopilot.Jstream.{
  Jstream, jstream_init, jstream_feed, jstream_finish, feed_loop, clean_run, content_escape,
  structural, open_string, open_container, close_container, doc_append, string_char, key_complete,
}
use sys_autopilot.Jstream.Machine.{seen, behind, run, joined}
use sys_autopilot.Jstream.Chunks.{jstream_feed-run, jstream_feed-append}
use sys_autopilot.Jstream.Content.{
  AtContent, ContentText, Unescapes, content_done, jstream_feed-ContentText,
}
use sys_autopilot.Jstream.Copy.{jstream_feed-Copies}

abbrev upload : Bytes
upload = codes "{\"params\":{\"arguments\":{\"path\":\"/a\",\"content\":\"Zm9v\\/w==\"}}}"

-- A tool call with its content diverted; the escaped slash reaches the sink plain.
upload_run :
    ((jstream_feed (jstream_init 200) upload).0.doc
      ≡ codes "{\"params\":{\"arguments\":{\"path\":\"/a\",\"content\":\"<streamed>\"}}}")
    × (joined (jstream_feed (jstream_init 200) upload).1 ≡ codes "Zm9v/w==")
    × ((jstream_finish (jstream_feed (jstream_init 200) upload).0).1 ≡ some true)
unfolding jstream_feed jstream_finish feed_loop clean_run content_escape structural open_string
    open_container close_container doc_append string_char key_complete
upload_run = (refl, refl, refl)

jstream_feed-run_example :
    seen (jstream_feed (jstream_init 200) upload) ≡ run (jstream_init 200) upload
jstream_feed-run_example = jstream_feed-run (jstream_init 200) upload

jstream_feed-append_example :
    seen (jstream_feed (jstream_init 200) (codes "{\"para" ++ codes "ms\":1}"))
    ≡ behind (seen (jstream_feed (jstream_init 200) (codes "{\"para"))).1 (
        seen (
          jstream_feed
            (seen (jstream_feed (jstream_init 200) (codes "{\"para"))).0
            (codes "ms\":1}")))
jstream_feed-append_example =
    jstream_feed-append (jstream_init 200) (codes "{\"para") (codes "ms\":1}")

-- The state behind {"params":{"arguments":{"content": .
abbrev before_content : Jstream
before_content = record (jstream_init 200) { depth = 3; next_value_is_content = true }

before_content-AtContent : AtContent before_content
before_content-AtContent = record {
  no_err = refl;
  outside = refl;
  copying = refl;
  unescaped = refl;
  at_value = refl;
  content_next = refl;
  first = refl;
  room = omega arith;
}

some_text : ContentText (b'Z' ∷ b'\\' ∷ b'/' ∷ []) (b'Z' ∷ b'/' ∷ [])
some_text =
    ContentText.plain (omega arith) (omega arith)
      (ContentText.escape Unescapes.slash ContentText.done)

jstream_feed-ContentText_example :
    seen (jstream_feed before_content (codes "\"Z\\/\"}"))
    ≡ behind (codes "Z/") (seen (jstream_feed (content_done before_content) (codes "}")))
jstream_feed-ContentText_example =
    jstream_feed-ContentText before_content (codes "}") before_content-AtContent some_text

abbrev plain_call : Bytes
plain_call = codes "{\"params\":[1, \"x\\\"y\"]}"

plain_call_ends :
    ((jstream_feed (jstream_init 200) plain_call).0.err ≡ none)
    × ((jstream_feed (jstream_init 200) plain_call).0.content_found ≡ false)
unfolding jstream_feed feed_loop clean_run content_escape structural open_string open_container
    close_container doc_append string_char key_complete
plain_call_ends = (refl, refl)

jstream_feed-Copies_example :
    ((jstream_feed (jstream_init 200) plain_call).0.doc ≡ (jstream_init 200).doc ++ plain_call)
    × ((seen (jstream_feed (jstream_init 200) plain_call)).1 ≡ [])
jstream_feed-Copies_example =
    jstream_feed-Copies (jstream_init 200) plain_call refl plain_call_ends.0 plain_call_ends.1
