-- ===== src/Mcp/Server/Stream.antt =====
-- A whole POST body through source/features/mcp/mcp_server.c: the filter, its sink and the file.
use sys_autopilot.Base.{
  ℕ, ◌+◌, ◌≤◌, ◌≡◌, ◌≢◌, refl, sym, ap, ◌∙◌, subst, Bool, true, false, Option, none, some, List, [],
  ◌∷◌, ◌++◌, length, All, append_assoc, append-nil, arith, Option-cases, ◌⊎◌, inl, inr,
}
use sys_autopilot.Base.Text.{Bytes, IsByte}
use sys_autopilot.Base64.{b64_encode}
use sys_autopilot.Jstream.{Error, Jstream, jstream_feed}
use sys_autopilot.Jstream.Machine.{joined, behind, run, run-append, run-err}
use sys_autopilot.Jstream.Chunks.{jstream_feed-run}
use sys_autopilot.Base64.RoundTrip.{length-b64_encode}
use sys_autopilot.Request.{request_memory_size}
use sys_autopilot.Mcp.Upload.Decoded.{Works, upload_all-b64_encode}
use sys_autopilot.Mcp.Upload.{
  upload_init, upload_decode_size, mcp_call_streamed_content, Card, Upload, upload_all, upload_sink,
}
use sys_autopilot.Mcp.Server.{receive}

-- What the loop leaves is the filter's state at the end of the body, and the upload of texts that
-- make up what the filter gives its sink.
pub record Received (card : Card) (js : Jstream) (u : Upload) (body : Bytes)
    (r : (Jstream × Upload) × Bool) : Type 0 where
  pub filtered : r.0.0 ≡ (run js body).0
  pub texts : List Bytes
  pub handed : joined texts ≡ (run js body).1
  pub uploaded : r.0.1 ≡ upload_all card u texts
  pub whole : r.1 ≡ false

upload_all-append :
    (card : Card) (u : Upload) (xs ys : List Bytes)
    → upload_all card u (xs ++ ys) ≡ upload_all card (upload_all card u xs) ys
unfolding upload_all
upload_all-append card u [] ys = refl
upload_all-append card u (x ∷ xs) ys = upload_all-append card (upload_sink card u x) xs ys

joined-append : (xs ys : List Bytes) → joined (xs ++ ys) ≡ joined xs ++ joined ys
joined-append [] ys = refl
joined-append (x ∷ xs) ys =
    ap (x ++◌) (joined-append xs ys) ∙ sym (append_assoc x (joined xs) (joined ys))

-- The chunks of a body, none of whose reads failed.
unfoldable pub chunks_of : List Bytes → List (Option Bytes)
chunks_of [] = []
chunks_of (chunk ∷ chunks) = some chunk ∷ chunks_of chunks

receive_going :
    (card : Card) (js : Jstream) (u : Upload) (chunk : Bytes) (chunks : List (Option Bytes))
    → (jstream_feed js chunk).0.err ≡ none
    → receive card js u (some chunk ∷ chunks)
      ≡ receive card (jstream_feed js chunk).0 (upload_all card u (jstream_feed js chunk).1) chunks
unfolding receive
receive_going card js u chunk chunks h = rw (h, receive) refl

receive_stopped :
    (card : Card) (js : Jstream) (u : Upload) (chunk : Bytes) (chunks : List (Option Bytes))
    (e : Error)
    → (jstream_feed js chunk).0.err ≡ some e
    → receive card js u (some chunk ∷ chunks)
      ≡ (((jstream_feed js chunk).0, upload_all card u (jstream_feed js chunk).1), false)
unfolding receive
receive_stopped card js u chunk chunks e h = rw (h, receive) refl

-- The filter behind a chunk, and the texts of the chunk in front of those of the rest.
module _ (card : Card) (js : Jstream) (u : Upload) (chunk body : Bytes) where
  state_behind : (jstream_feed js chunk).0 ≡ (run js chunk).0
  state_behind = ap (λ (r : Jstream × Bytes). r.0) (jstream_feed-run js chunk)

  texts_behind : joined (jstream_feed js chunk).1 ≡ (run js chunk).1
  texts_behind = ap (λ (r : Jstream × Bytes). r.1) (jstream_feed-run js chunk)

  both_behind :
      run js (chunk ++ body) ≡ behind (run js chunk).1 (run (jstream_feed js chunk).0 body)
  both_behind =
      run-append chunk body js
      ∙ ap (λ (k : Jstream). behind (run js chunk).1 (run k body)) (sym state_behind)

module _ (card : Card) (js : Jstream) (u : Upload) (chunk : Bytes) (body : Bytes) where
  Received-going :
      (rest : (Jstream × Upload) × Bool)
      → Received card
          (jstream_feed js chunk).0
          (upload_all card u (jstream_feed js chunk).1)
          body
          rest
      → Received card js u (chunk ++ body) rest
  Received-going rest ih = record {
    filtered =
        ih.filtered ∙ sym (ap (λ (r : Jstream × Bytes). r.0) (both_behind card js u chunk body));
    texts = (jstream_feed js chunk).1 ++ ih.texts;
    handed =
        joined-append (jstream_feed js chunk).1 ih.texts
        ∙ ap (λ (t : Bytes). t ++ joined ih.texts) (texts_behind card js u chunk body)
        ∙ ap ((run js chunk).1 ++◌) ih.handed
        ∙ sym (ap (λ (r : Jstream × Bytes). r.1) (both_behind card js u chunk body));
    uploaded = ih.uploaded ∙ sym (upload_all-append card u (jstream_feed js chunk).1 ih.texts);
    whole = ih.whole;
  }

  Received-stopped :
      (e : Error)
      → (jstream_feed js chunk).0.err ≡ some e
      → Received card js u
          (chunk ++ body)
          (((jstream_feed js chunk).0, upload_all card u (jstream_feed js chunk).1), false)
  Received-stopped e failed = record {
    filtered = sym (ap (λ (r : Jstream × Bytes). r.0) ended);
    texts = (jstream_feed js chunk).1;
    handed =
        texts_behind card js u chunk body
        ∙ sym (ap (λ (r : Jstream × Bytes). r.1) ended ∙ append-nil (run js chunk).1);
    uploaded = refl;
    whole = refl;
  }
    where
      ended : run js (chunk ++ body) ≡ behind (run js chunk).1 ((jstream_feed js chunk).0, [])
      ended =
          both_behind card js u chunk body
          ∙ ap (behind (run js chunk).1) (run-err (jstream_feed js chunk).0 body e failed)

-- However a body is cut into chunks, the filter ends in the state that it ends in over the whole, and
-- the texts that the upload is handed make up all that the filter gives its sink: also when an error
-- ends the loop early.
pub receive-Received :
    (card : Card) (js : Jstream) (u : Upload) (chunks : List Bytes)
    → Received card js u (joined chunks) (receive card js u (chunks_of chunks))
unfolding chunks_of
receive-Received card js u [] =
    unfold receive chunks_of run upload_all in
    (record { filtered = refl; texts = []; handed = refl; uploaded = refl; whole = refl })
receive-Received card js u (chunk ∷ chunks) =
    split (Option-cases js'.err) (receive-Received card js' (upload_all card u calls) chunks)
  where
    js' : Jstream
    js' = (jstream_feed js chunk).0

    calls : List Bytes
    calls = (jstream_feed js chunk).1

    split :
        (js'.err ≡ none) ⊎ ((e : Error) × (js'.err ≡ some e))
        → Received card js'
            (upload_all card u calls)
            (joined chunks)
            (receive card js' (upload_all card u calls) (chunks_of chunks))
        → Received card js u
            (chunk ++ joined chunks)
            (receive card js u (some chunk ∷ chunks_of chunks))
    split (inl going) ih =
        subst (Received card js u (chunk ++ joined chunks))
          (sym (receive_going card js u chunk (chunks_of chunks) going))
          (Received-going card js u chunk (joined chunks)
            (receive card js' (upload_all card u calls) (chunks_of chunks)) ih)
    split (inr (e, failed)) ih =
        subst (Received card js u (chunk ++ joined chunks))
          (sym (receive_stopped card js u chunk (chunks_of chunks) e failed))
          (Received-stopped card js u chunk (joined chunks) e failed)

upload_texts :
    (card : Card) (used : ℕ) (tmp : Option Bytes) (texts : List Bytes) (bs : Bytes)
    → Works card
    → used + 15 + upload_decode_size ≤ request_memory_size true
    → All IsByte bs
    → bs ≢ []
    → joined texts ≡ b64_encode bs
    → let u = upload_all card (upload_init used tmp) texts in
      (u.tmp ≡ some bs) × ((mcp_call_streamed_content true u).0 ≡ some (length bs))
upload_texts card used tmp (text ∷ texts) bs w room bytes more e =
    upload_all-b64_encode card used tmp text texts bs w room bytes e
upload_texts card used tmp [] [] w room bytes more e = absurd (more refl)
upload_texts card used tmp [] (b ∷ bs) w room bytes more e =
    absurd (ground (arith, ap length e, length-b64_encode (b ∷ bs)))

-- A body, cut into chunks anywhere, whose content field holds the base64 encoding of some bytes leaves
-- exactly those bytes in the temporary file and their number for the tool: given that the filter
-- hands on that text, at least one byte, room for the decoding buffer, and a card that works.
pub receive-b64_encode :
    (card : Card) (js : Jstream) (used : ℕ) (tmp : Option Bytes) (chunks : List Bytes) (bs : Bytes)
    → Works card
    → used + 15 + upload_decode_size ≤ request_memory_size true
    → All IsByte bs
    → bs ≢ []
    → (run js (joined chunks)).1 ≡ b64_encode bs
    → let u = (receive card js (upload_init used tmp) (chunks_of chunks)).0.1 in
      (u.tmp ≡ some bs) × ((mcp_call_streamed_content true u).0 ≡ some (length bs))
receive-b64_encode card js used tmp chunks bs w room bytes more e =
    let r = receive-Received card js (upload_init used tmp) chunks in
    subst
      (λ (u : Upload).
        (u.tmp ≡ some bs) × ((mcp_call_streamed_content true u).0 ≡ some (length bs)))
      (sym r.uploaded) (upload_texts card used tmp r.texts bs w room bytes more (r.handed ∙ e))
