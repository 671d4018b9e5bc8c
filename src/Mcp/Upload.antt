-- ===== src/Mcp/Upload.antt =====
-- The upload of source/features/mcp/mcp_server.c: the decoder behind the filter's sink, and the
-- temporary file. What the card answers to opening the file and to each write is a parameter.
pub mod Decoded
pub mod Cleanup
use sys_autopilot.Base.{
  ℕ, zero, suc, ◌+◌, Bool, true, false, not, ◌&&◌, ◌||◌, Option, none, some, List, [], ◌∷◌, ◌++◌,
  length, ltb, if◌then◌else◌,
}
use sys_autopilot.Base.Text.{Bytes}
use sys_autopilot.Base64.{B64Decoder, b64dec_init, b64dec_update, b64dec_finish}
use sys_autopilot.Request.{request_alloc}

-- `opens`: fopen works; `writes done more`: the write of `more` behind `done` does.
pub record Card : Type 0 where
  pub opens : Bool
  pub writes : Bytes → Bytes → Bool

-- UploadCtx, `mem_used` of the request, and the file MCP_UPLOAD_TMP on the card.
pub record Upload : Type 0 where
  pub used : ℕ
  pub has_buffer : Bool
  pub is_open : Bool
  pub dec : B64Decoder
  pub bytes : ℕ
  pub failed : Bool
  pub tmp : Option Bytes

-- UPLOAD_DECODE_SIZE
abbrev pub upload_decode_size : ℕ
upload_decode_size = 6147

-- As `handle_post` starts it, on whatever file an earlier run left.
unfoldable pub upload_init : ℕ → Option Bytes → Upload
upload_init used tmp = record {
  used = used;
  has_buffer = false;
  is_open = false;
  dec = b64dec_init;
  bytes = 0;
  failed = false;
  tmp = tmp;
}

unfoldable pub take_buffer : Upload → Upload
take_buffer u =
    let (block, used') = request_alloc true u.used upload_decode_size in
    if u.failed || u.has_buffer then u else elim block as (λ _. Upload) [
      | none ↦ record u { failed = true }
      | some ptr ↦ record u { used = used'; has_buffer = true }
    ]

unfoldable pub open_file : Card → Upload → Upload
open_file card u =
    if u.failed || u.is_open
    then u
    else if card.opens
    then record u { is_open = true; tmp = some [] }
    else record u { failed = true }

-- What the file holds.
abbrev pub contents : Option Bytes → Bytes
contents none = []
contents (some bytes) = bytes

unfoldable pub write_decoded : Card → Upload → B64Decoder × Option Bytes → Upload
write_decoded card u (dec, none) = record u { dec = dec; failed = true }
write_decoded card u (dec, some out) =
    if card.writes (contents u.tmp) out
    then record u { dec = dec; bytes = u.bytes + length out; tmp = some (contents u.tmp ++ out) }
    else record u { dec = dec; failed = true }

unfoldable pub upload_sink : Card → Upload → Bytes → Upload
upload_sink card u text =
    let ready = open_file card (take_buffer u) in
    if ready.failed then ready else write_decoded card ready (b64dec_update ready.dec text)

-- The calls of the sink, in order.
unfoldable pub upload_all : Card → Upload → List Bytes → Upload
upload_all card u [] = u
upload_all card u (text ∷ texts) = upload_all card (upload_sink card u text) texts

unfoldable pub upload_cleanup : Upload → Upload
upload_cleanup u = record {
  used = u.used;
  has_buffer = false;
  is_open = false;
  dec = record { acc = 0; bits = 0; quad = 0; pad = 0; err = false };
  bytes = 0;
  failed = false;
  tmp = if u.is_open || ltb 0 u.bytes || u.failed then none else u.tmp;
}

-- The decoded size, with the file closed; `none` for NULL.
unfoldable pub mcp_call_streamed_content : Bool → Upload → Option ℕ × Upload
mcp_call_streamed_content content_streamed u =
    if not content_streamed || u.failed || not u.is_open || not (b64dec_finish u.dec)
    then (none, u)
    else (some u.bytes, record u { is_open = false })
