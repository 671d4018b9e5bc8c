-- ===== src/Mcp/Upload/Cleanup.antt =====
-- What source/features/mcp/mcp_server.c leaves of an upload behind a request.
use sys_autopilot.Base.{
  ℕ, ◌+◌, ◌≤◌, ◌≡◌, ◌⊎◌, refl, ap, ◌∙◌, true, false, Option, none, some, List, [], ◌∷◌, length, All,
  arith,
}
use sys_autopilot.Base.Text.{Bytes, IsByte}
use sys_autopilot.Base64.{
  B64Decoder, behind, take_char, update_loop, b64dec_init, b64dec_update, b64dec_finish, b64_encode,
}
use sys_autopilot.Base64.RoundTrip.{b64dec_update-b64_encode}
use sys_autopilot.Jstream.Machine.{joined}
use sys_autopilot.Request.{request_memory_size}
use sys_autopilot.Mcp.Upload.{
  Card, Upload, take_buffer, open_file, upload_init, upload_sink, upload_all, upload_cleanup,
  mcp_call_streamed_content, upload_decode_size,
}
use sys_autopilot.Mcp.Upload.Decoded.{Works, Holds, encoded, sink_failed, upload-Holds}

-- A line feed or a carriage return.
abbrev pub IsBreak : ℕ → Type 0
IsBreak c = (c ≡ 10) ⊎ (c ≡ 13)

-- A content field and the bytes it stands for: their encoding, or line breaks for no bytes.
pub data Payload : Bytes → Bytes → Type 0 where
  encoding : {bs : Bytes} → All IsByte bs → Payload (b64_encode bs) bs
  breaks : {text : Bytes} → All IsBreak text → Payload text []

take_char-IsBreak : (d : B64Decoder) (c : ℕ) → IsBreak c → take_char d c ≡ some (d, [])
unfolding take_char
take_char-IsBreak d c h = ground (arith, h)

update_loop-IsBreak :
    (d : B64Decoder) (text : Bytes) → All IsBreak text → update_loop d text ≡ (d, some [])
unfolding update_loop
update_loop-IsBreak d [] a = refl
update_loop-IsBreak d (c ∷ text) a =
    rw (take_char-IsBreak d c a.0, update_loop)
      (ap (λ (r : B64Decoder × Option Bytes). behind [] r) (update_loop-IsBreak d text a.1))

-- The decoder accepts the content as a whole.
Payload-decodes :
    (text bs : Bytes)
    → Payload text bs
    → ((b64dec_update b64dec_init text).1 ≡ some bs)
      × (b64dec_finish (b64dec_update b64dec_init text).0 ≡ true)
Payload-decodes text bs (Payload.encoding bytes) = b64dec_update-b64_encode bs bytes
Payload-decodes text bs (Payload.breaks a) =
    let run : b64dec_update b64dec_init text ≡ (b64dec_init, some []) =
      unfold b64dec_update in update_loop-IsBreak b64dec_init text a in
    (
      ap (λ (r : B64Decoder × Option Bytes). r.1) run,
      ap (λ (r : B64Decoder × Option Bytes). b64dec_finish r.0) run
          ∙ (unfold b64dec_finish in refl),
    )

-- What the cleanup leaves behind a tool that has asked for the bytes.
abbrev pub left : Bytes → Option Bytes
left [] = some []
left (b ∷ bs) = none

cleanup-left :
    (u : Upload) (text bs : Bytes)
    → Holds u text
    → (b64dec_update b64dec_init text).1 ≡ some bs
    → b64dec_finish (b64dec_update b64dec_init text).0 ≡ true
    → ((mcp_call_streamed_content true u).1.tmp ≡ some bs)
      × ((upload_cleanup (mcp_call_streamed_content true u).1).tmp ≡ left bs)
      × ((upload_cleanup u).tmp ≡ none)
unfolding upload_cleanup mcp_call_streamed_content
cleanup-left u text [] h run fin = ground (arith, h, run, fin)
cleanup-left u text (b ∷ bs) h run fin = ground (arith, h, run, fin)

sink_shut :
    (card : Card) (used : ℕ) (tmp : Option Bytes) (text : Bytes)
    → card.opens ≡ false
    → (upload_sink card (upload_init used tmp) text).failed ≡ true
unfolding upload_sink take_buffer open_file upload_init
sink_shut card used tmp text h = ground (arith, h)

all_failed :
    (card : Card) (u : Upload) (texts : List Bytes) → u.failed ≡ true → upload_all card u texts ≡ u
unfolding upload_all
all_failed card u [] h = refl
all_failed card u (text ∷ texts) h =
    ap (λ (v : Upload). upload_all card v texts) (sink_failed card u text h)
    ∙ all_failed card u texts h

cleanup-failed : (u : Upload) → u.failed ≡ true → (upload_cleanup u).tmp ≡ none
unfolding upload_cleanup
cleanup-failed u h = ground (arith, h)

cleanup-shut :
    (card : Card) (used : ℕ) (tmp : Option Bytes) (text : Bytes) (texts : List Bytes)
    → card.opens ≡ false
    → (upload_cleanup (upload_all card (upload_init used tmp) (text ∷ texts))).tmp ≡ none
unfolding upload_all
cleanup-shut card used tmp text texts h =
    let failed = sink_shut card used tmp text h in
    rw (all_failed card (upload_sink card (upload_init used tmp) text) texts failed)
      (cleanup-failed (upload_sink card (upload_init used tmp) text) failed)

-- On a card that works, with room for the decoding buffer, content that encodes some bytes or is line
-- breaks only, handed to the sink in one text or more, leaves just those bytes in the temporary file and
-- their number for a tool that asks. When the tool has not moved the file away, the cleanup behind the
-- request removes it, save that an empty file stays on the card; when no tool has asked, it removes the
-- file in any case. On the same card with the file refused, it removes what an earlier run left there.
pub upload_cleanup-left :
    (card : Card) (used : ℕ) (tmp : Option Bytes) (text : Bytes) (texts : List Bytes) (bs : Bytes)
    → Works card
    → used + 15 + upload_decode_size ≤ request_memory_size true
    → Payload (joined (text ∷ texts)) bs
    → let u = upload_all card (upload_init used tmp) (text ∷ texts) in
      let shut = upload_all (record card { opens = false }) (upload_init used tmp) (text ∷ texts) in
      let asked = mcp_call_streamed_content true u in
      (asked.0 ≡ some (length bs))
      × (asked.1.tmp ≡ some bs)
      × ((upload_cleanup asked.1).tmp ≡ left bs)
      × ((upload_cleanup u).tmp ≡ none)
      × ((upload_cleanup shut).tmp ≡ none)
upload_cleanup-left card used tmp text texts bs w room payload =
    let u : Upload = upload_all card (upload_init used tmp) (text ∷ texts) in
    let holds = upload-Holds card used tmp text texts w room in
    let (run, fin) = Payload-decodes (joined (text ∷ texts)) bs payload in
    let (kept, cleaned, unasked) = cleanup-left u (joined (text ∷ texts)) bs holds run fin in
    (
      (encoded u (joined (text ∷ texts)) bs holds run fin).1,
      kept,
      cleaned,
      unasked,
      cleanup-shut (record card { opens = false }) used tmp text texts refl,
    )
