-- ===== src/Mcp/Upload/Decoded.antt =====
-- The file that source/features/mcp/mcp_server.c writes of the base64 text that its sink is handed.
use sys_autopilot.Base.{
  ℕ, ◌+◌, ◌≤◌, ◌≡◌, ◌≢◌, refl, sym, ap, ◌∙◌, subst, true, false, Option, none, some, List, [], ◌∷◌,
  ◌++◌, length, All, append-nil, append_assoc, arith, inl, inr, length-append, Bool-cases,
}
use sys_autopilot.Base.Text.{Bytes, IsByte}
use sys_autopilot.Base64.{behind, B64Decoder, b64dec_init, b64dec_update, b64dec_finish, b64_encode}
use sys_autopilot.Base64.Stream.{resume, b64dec_update-append}
use sys_autopilot.Base64.{update_loop}
use sys_autopilot.Base64.RoundTrip.{b64dec_update-b64_encode}
use sys_autopilot.Jstream.Machine.{joined}
use sys_autopilot.Mcp.Reply.Content.{alloc_fits}
use sys_autopilot.Request.{request_alloc, request_memory_size}
use sys_autopilot.Mcp.Upload.{
  Card, Upload, upload_init, take_buffer, open_file, contents, write_decoded, upload_sink,
  upload_all, upload_decode_size, mcp_call_streamed_content,
}

-- A card on which everything works.
pub record Works (card : Card) : Type 0 where
  pub opens : card.opens ≡ true
  pub writes : (done more : Bytes) → card.writes done more ≡ true

-- The upload of the text so far, once something has been handed over.
pub record Holds (u : Upload) (text : Bytes) : Type 0 where
  pub buffered : u.has_buffer ≡ true
  pub open_file : u.is_open ≡ true
  pub decoder : u.dec ≡ (b64dec_update b64dec_init text).0
  pub decoded : (u.failed ≡ false) → (b64dec_update b64dec_init text).1 ≡ some (contents u.tmp)
  pub failure : (u.failed ≡ true) → (b64dec_update b64dec_init text).1 ≡ none
  pub kept : u.tmp ≢ none
  pub counted : (u.failed ≡ false) → u.bytes ≡ length (contents u.tmp)

pub sink_failed :
    (card : Card) (u : Upload) (more : Bytes) → u.failed ≡ true → upload_sink card u more ≡ u
unfolding upload_sink take_buffer open_file
sink_failed card u more h = ground (arith, h)

sink_ready :
    (card : Card) (u : Upload) (more : Bytes)
    → u.failed ≡ false
    → u.has_buffer ≡ true
    → u.is_open ≡ true
    → upload_sink card u more ≡ write_decoded card u (b64dec_update u.dec more)
unfolding upload_sink take_buffer open_file
sink_ready card u more h k m = ground (arith, h, k, m)

write-Holds :
    (card : Card) (u : Upload) (text more : Bytes)
    → Works card
    → Holds u text
    → u.failed ≡ false
    → (r : B64Decoder × Option Bytes)
    → b64dec_update b64dec_init (text ++ more) ≡ behind (contents u.tmp) r
    → Holds (write_decoded card u r) (text ++ more)
unfolding write_decoded
write-Holds card u text more w h going (dec, none) e = ground (arith, h, e, going)
write-Holds card u text more w h going (dec, some out) e =
    ground (arith, h, e, going, w.writes (contents u.tmp) out, length-append (contents u.tmp) out)

resume-some :
    (r : B64Decoder × Option Bytes) (out more : Bytes)
    → r.1 ≡ some out
    → resume r more ≡ behind out (b64dec_update r.0 more)
resume-some (d, none) out more h = ground (arith, h)
resume-some (d, some o) out more h = ground (arith, h)

resume-none : (r : B64Decoder × Option Bytes) (more : Bytes) → r.1 ≡ none → resume r more ≡ r
resume-none (d, none) more h = refl
resume-none (d, some o) more h = ground (arith, h)

sink-Holds :
    (card : Card) (u : Upload) (text more : Bytes)
    → Works card
    → Holds u text
    → Holds (upload_sink card u more) (text ++ more)
sink-Holds card u text more w h = elim (Bool-cases u.failed) [
  | inl failed ↦ drained failed (
      b64dec_update-append b64dec_init text more
      ∙ resume-none (b64dec_update b64dec_init text) more (h.failure failed))
  | inr going ↦
      subst (λ (v : Upload). Holds v (text ++ more))
        (sym (sink_ready card u more going h.buffered h.open_file))
        (write-Holds card u text more w h going (b64dec_update u.dec more) (
          b64dec_update-append b64dec_init text more
          ∙ resume-some (b64dec_update b64dec_init text) (contents u.tmp) more (h.decoded going)
          ∙ ap (λ (d : B64Decoder). behind (contents u.tmp) (b64dec_update d more))
              (sym h.decoder)))
]
  where
    drained :
        u.failed ≡ true
        → b64dec_update b64dec_init (text ++ more) ≡ b64dec_update b64dec_init text
        → Holds (upload_sink card u more) (text ++ more)
    drained failed e = ground (arith, h, e, failed, sink_failed card u more failed)

upload_all-Holds :
    (card : Card) (u : Upload) (text : Bytes) (texts : List Bytes)
    → Works card
    → Holds u text
    → Holds (upload_all card u texts) (text ++ joined texts)
unfolding upload_all
upload_all-Holds card u text [] w h = rw (append-nil text) h
upload_all-Holds card u text (more ∷ texts) w h =
    subst (λ (t : Bytes). Holds (upload_all card (upload_sink card u more) texts) t)
      (append_assoc text more (joined texts))
      (upload_all-Holds card (upload_sink card u more) (text ++ more) texts w
        (sink-Holds card u text more w h))

-- The upload with its buffer and its file, before the first text.
abbrev started : ℕ → Upload
started used = record {
  used = (request_alloc true used upload_decode_size).1;
  has_buffer = true;
  is_open = true;
  dec = b64dec_init;
  bytes = 0;
  failed = false;
  tmp = some [];
}

started-Holds : (used : ℕ) → Holds (started used) []
unfolding b64dec_update update_loop
started-Holds used = ground arith

first_sink :
    (card : Card) (used : ℕ) (tmp : Option Bytes) (text : Bytes)
    → Works card
    → used + 15 + upload_decode_size ≤ request_memory_size true
    → upload_sink card (upload_init used tmp) text ≡ upload_sink card (started used) text
unfolding upload_sink take_buffer open_file upload_init
first_sink card used tmp text w room = ground (arith, w, alloc_fits used upload_decode_size room)

-- An upload of a text that decodes to `bs`.
pub encoded :
    (u : Upload) (text bs : Bytes)
    → Holds u text
    → (b64dec_update b64dec_init text).1 ≡ some bs
    → b64dec_finish (b64dec_update b64dec_init text).0 ≡ true
    → (u.tmp ≡ some bs) × ((mcp_call_streamed_content true u).0 ≡ some (length bs))
unfolding mcp_call_streamed_content
encoded u text bs h run fin = ground (arith, h, run, fin)

pub upload-Holds :
    (card : Card) (used : ℕ) (tmp : Option Bytes) (text : Bytes) (texts : List Bytes)
    → Works card
    → used + 15 + upload_decode_size ≤ request_memory_size true
    → Holds (upload_all card (upload_init used tmp) (text ∷ texts)) (joined (text ∷ texts))
unfolding upload_all
upload-Holds card used tmp text texts w room =
    subst (λ (u : Upload). Holds (upload_all card u texts) (text ++ joined texts))
      (sym (first_sink card used tmp text w room))
      (upload_all-Holds card (upload_sink card (started used) text) text texts w
        (sink-Holds card (started used) [] text w (started-Holds used)))

-- The texts that the sink is handed, however the encoding of some bytes is cut into them, leave those
-- bytes in the temporary file, and the size that the tool is given is theirs: on a card that works,
-- with room for the decoding buffer, and whatever file was left there before.
pub upload_all-b64_encode :
    (card : Card) (used : ℕ) (tmp : Option Bytes) (text : Bytes) (texts : List Bytes) (bs : Bytes)
    → Works card
    → used + 15 + upload_decode_size ≤ request_memory_size true
    → All IsByte bs
    → joined (text ∷ texts) ≡ b64_encode bs
    → let u = upload_all card (upload_init used tmp) (text ∷ texts) in
      (u.tmp ≡ some bs) × ((mcp_call_streamed_content true u).0 ≡ some (length bs))
upload_all-b64_encode card used tmp text texts bs w room bytes e =
    let (run, fin) = b64dec_update-b64_encode bs bytes in
    encoded (upload_all card (upload_init used tmp) (text ∷ texts)) (b64_encode bs) bs
      (subst (Holds (upload_all card (upload_init used tmp) (text ∷ texts))) e
        (upload-Holds card used tmp text texts w room))
      run fin
