-- ===== src/Mcp/Reply.antt =====
-- The replies of source/features/mcp/mcp_server.c, as the bytes that go out when every write works.
-- `beyond` is what stands in memory behind a buffer on the stack.
pub mod Length
pub mod Content
use sys_autopilot.Base.{
  ℕ, zero, suc, ◌+◌, ◌-◌, Bool, true, false, Option, none, some, List, [], ◌∷◌, ◌++◌, length, take,
  drop, ltb, if◌then◌else◌,
}
use sys_autopilot.Base.Text.{Bytes, codes}
use sys_autopilot.Base64.{b64_encode, b64_encoded_len}
use sys_autopilot.Http.Response.{http_send_header, decimal}
use sys_autopilot.Json.Escape.{json_escape, json_escaped_len}
use sys_autopilot.Request.{request_alloc}

-- What a write of the length that `snprintf` returned sends of the buffer of `size` bytes.
unfoldable pub printed : ℕ → Bytes → Bytes → Bytes
printed size beyond text = take (length text) (take (size - 1) text ++ (0 ∷ beyond))

abbrev pub json_type : Bytes
json_type = codes "application/json"

-- {"jsonrpc":"2.0","id":<id>,"<key>":
abbrev pub head_text : Bytes → Bytes → Bytes
head_text id key =
    codes "{\"jsonrpc\":\"2.0\",\"id\":" ++ (id ++ (codes ",\"" ++ (key ++ codes "\":")))

abbrev pub rpc_head_max : ℕ
rpc_head_max = 96

-- The bytes of `head` that are sent, as many as are returned.
unfoldable pub rpc_head : Bytes → Bytes → Bytes → Bytes
rpc_head beyond id key = printed rpc_head_max beyond (head_text id key)

unfoldable pub send_rpc_value : Bool → Bytes → Bytes → Bytes → Bytes → Bytes
send_rpc_value keep_alive beyond id key value =
    http_send_header keep_alive 200 json_type (length (head_text id key) + length value + 1)
    ++ (rpc_head beyond id key ++ (value ++ (b'}' ∷ [])))

-- Every code is negative: it is given by its magnitude.
abbrev pub error_value : ℕ → Bytes → Bytes
error_value code msg =
    codes "{\"code\":-" ++ (decimal code ++ (codes ",\"message\":\"" ++ (msg ++ codes "\"}")))

unfoldable pub send_rpc_error : Bool → Bytes → Bytes → ℕ → Bytes → Bytes
send_rpc_error keep_alive beyond id code msg =
    send_rpc_value keep_alive beyond id (codes "error") (printed 256 beyond (error_value code msg))

unfoldable pub send_result_stream : Bool → Bytes → Bytes → Bytes → Bytes → Bytes → Bytes
send_result_stream keep_alive beyond id pre payload post =
    let total =
      length (head_text id (codes "result")) + length pre + length payload + length post + 1 in
    http_send_header keep_alive 200 json_type total
    ++ (rpc_head beyond id (codes "result") ++ (pre ++ (payload ++ (post ++ (b'}' ∷ [])))))

abbrev pub text_pre : Bytes
text_pre = codes "{\"content\":[{\"type\":\"text\",\"text\":\""

abbrev pub text_post : Bool → Bytes
text_post is_error =
    if is_error then codes "\"}],\"isError\":true}" else codes "\"}],\"isError\":false}"

-- The reply, and `mem_used` after it.
unfoldable pub send_tool_text : Bool → Bytes → Bytes → ℕ → Bool → Bytes → Bytes × ℕ
send_tool_text keep_alive beyond id used is_error text =
    let (block, used') = request_alloc true used (json_escaped_len text + 1) in
    elim block as (λ _. Bytes × ℕ) [
      | none ↦ (send_rpc_error keep_alive beyond id 32603 (codes "out of request memory"), used')
      | some ptr ↦ (
        elim (json_escape text (json_escaped_len text + 1)) as (λ _. Bytes) [
          | none ↦ []
          | some escaped ↦
              send_result_stream keep_alive beyond id text_pre escaped (text_post is_error)
        ],
        used',
      )
    ]

-- The loop of `write_base64`. Each round takes a byte at least, so the length is fuel enough.
unfoldable pub base64_loop : ℕ → Bytes → Bytes
base64_loop fuel [] = []
base64_loop zero (c ∷ jpeg) = []
base64_loop (suc fuel) (c ∷ jpeg) =
    b64_encode (take 3072 (c ∷ jpeg)) ++ base64_loop fuel (drop 3072 (c ∷ jpeg))

-- `none` when the chunk's buffer cannot be had.
unfoldable pub write_base64 : ℕ → Bytes → Option Bytes
write_base64 used jpeg = elim (request_alloc true used 4096).0 as (λ _. Option Bytes) [
  | none ↦ none
  | some ptr ↦ some (base64_loop (length jpeg) jpeg)
]

abbrev pub img_only_pre : Bytes
img_only_pre = codes "{\"content\":[{\"type\":\"image\",\"data\":\""

abbrev pub img_pre : Bytes
img_pre = codes "\"},{\"type\":\"image\",\"data\":\""

abbrev pub img_post : Bytes
img_post = codes "\",\"mimeType\":\"image/jpeg\"}],\"isError\":false}"

-- What stands in front of the picture, with a text and without.
abbrev pub image_front : Option Bytes → Bytes
image_front none = img_only_pre
image_front (some text) = text_pre ++ (text ++ img_pre)

unfoldable pub mcp_reply_image : Bool → Bytes → Bytes → ℕ → Option Bytes → Bytes → Bytes
mcp_reply_image keep_alive beyond id used text jpeg =
    let total =
      length (head_text id (codes "result"))
      + b64_encoded_len (length jpeg)
      + length img_post
      + 1
      + length (image_front text) in
    http_send_header keep_alive 200 json_type total
    ++ (rpc_head beyond id (codes "result")
        ++ (image_front text ++ (elim (write_base64 used jpeg) as (λ _. Bytes) [
          | none ↦ []
          | some encoded ↦ encoded ++ (img_post ++ (b'}' ∷ []))
        ])))
