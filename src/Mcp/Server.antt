-- ===== src/Mcp/Server.antt =====
-- The POST and GET handlers of source/features/mcp/mcp_server.c. What jsmn makes of a document is a
-- parameter, and so are the chunks that `http_read_body` gives: `none` for -1, the list's end for 0.
-- The three blocks at the start of a request always fit the memory; `used` is the level behind them.
pub mod Stream
use sys_autopilot.Base.{
  ℕ, zero, suc, ◌+◌, Bool, true, false, not, ◌&&◌, ◌||◌, Option, none, some, List, [], ◌∷◌, ◌++◌,
  length, ltb, ◌==◌, if◌then◌else◌,
}
use sys_autopilot.Base.Text.{Bytes, codes, c_str, streq, starts_with}
use sys_autopilot.Json.Document.{
  JsonDoc, TokenType, object, json_obj_get, json_get_string, json_raw,
}
use sys_autopilot.Jstream.{
  Error, edoc, econtent, Jstream, jstream_init, jstream_feed, jstream_finish,
}
use sys_autopilot.Mcp.Tools.{Tool, Call, handle_tools_call, initialize_value}
use sys_autopilot.Mcp.Upload.{Card, Upload, upload_init, upload_all, upload_cleanup}

abbrev pub mcp_doc_max : ℕ
mcp_doc_max = 16384

-- The reading loop: the filter, the upload, and whether a read failed.
unfoldable pub receive : Card → Jstream → Upload → List (Option Bytes) → (Jstream × Upload) × Bool
receive card js u [] = ((js, u), false)
receive card js u (none ∷ chunks) = ((js, u), true)
receive card js u (some chunk ∷ chunks) =
    let (js', calls) = jstream_feed js chunk in
    let u' = upload_all card u calls in
    let rest = receive card js' u' chunks in
    elim js'.err as (λ _. (Jstream × Upload) × Bool) [ none ↦ rest | some e ↦ ((js', u'), false) ]

-- What is sent, the fields of a reply being its id and its value.
pub data Answer : Type 0 where
  http_error : ℕ → Bytes → Answer
  rpc_error : Bytes → ℕ → Bytes → Answer
  accepted : Answer
  value : Bytes → Bytes → Answer
  tools_list : Bytes → Answer
  tools_call : Bytes → Call → Bool → Answer

unfoldable pub error_message : Option Error → Bytes
error_message none = codes "parse error"
error_message (some Error.edoc) = codes "request too large"
error_message (some Error.econtent) = codes "invalid base64 content"
error_message (some e) = codes "parse error"

abbrev null_id : Bytes
null_id = codes "null"

-- Behind the id and the method.
unfoldable pub dispatch : List Tool → Bytes → JsonDoc → Bytes → Bytes → Bool → Answer
dispatch tools app_version doc id method content_streamed =
    let params = json_obj_get doc (some 0) (codes "params") in
    if streq method (codes "initialize")
    then value id (initialize_value doc params app_version)
    else if streq method (codes "ping")
    then value id (codes "{}")
    else if streq method (codes "tools/list")
    then tools_list id
    else if streq method (codes "tools/call")
    then elim params as (λ _. Answer) [
      | none ↦ rpc_error id 32602 (codes "missing params")
      | some p ↦ tools_call id (handle_tools_call tools doc (some p)) content_streamed
    ]
    else rpc_error id 32601 (codes "method not found")

unfoldable pub answer_document : List Tool → Bytes → JsonDoc → Bool → Answer
answer_document tools app_version doc content_streamed =
    let id = json_raw doc (json_obj_get doc (some 0) (codes "id")) 80 in
    let shown = (elim id as (λ _. Bytes) [ none ↦ null_id | some raw ↦ raw ]) in
    elim (json_get_string doc (json_obj_get doc (some 0) (codes "method")) 48) as (λ _. Answer) [
      | none ↦ rpc_error shown 32600 (codes "missing method")
      | some method ↦ elim id as (λ _. Answer) [
        | none ↦ accepted
        | some raw ↦
            if starts_with (c_str method) (codes "notifications/")
            then accepted
            else dispatch tools app_version doc raw (c_str method) content_streamed
      ]
    ]

unfoldable pub is_object : JsonDoc → Bool
is_object doc = elim (doc.tok 0).kind as (λ _. Bool) [
  | TokenType.object ↦ ltb 0 doc.ntok
  | _ ↦ false
]

-- The answer, and the upload as the request leaves it, a tool's use of it apart. `none` in place of a
-- document is a failure of `json_parse`.
unfoldable pub handle_post :
    List Tool
    → Bytes
    → Card
    → (Bytes → Option JsonDoc)
    → Bool
    → ℕ
    → Option Bytes
    → List (Option Bytes)
    → Answer × Upload
handle_post tools app_version card json_parse has_content_length used tmp chunks =
    let u = upload_init used tmp in
    let ((js, fed), broken) = receive card (jstream_init mcp_doc_max) u chunks in
    let (js', found) = jstream_finish js in
    let parsed = json_parse js'.doc in
    if not has_content_length
    then (http_error 411 (codes "Content-Length required"), u)
    else if broken
    then (rpc_error null_id 32700 (error_message none), upload_cleanup fed)
    else elim found as (λ _. Answer × Upload) [
      | none ↦ (rpc_error null_id 32700 (error_message js'.err), upload_cleanup fed)
      | some streamed ↦ elim parsed as (λ _. Answer × Upload) [
        | none ↦ (rpc_error null_id 32700 (codes "parse error"), upload_cleanup fed)
        | some doc ↦
            if not (is_object doc)
            then (rpc_error null_id 32700 (codes "parse error"), upload_cleanup fed)
            else (answer_document tools app_version doc streamed, upload_cleanup fed)
      ]
    ]
