-- ===== src/Mcp/Reply/Content.antt =====
-- The text and image replies of source/features/mcp/mcp_server.c, which write their result in parts.
use sys_autopilot.Base.{
  ℕ, zero, suc, ◌+◌, ◌*◌, ◌/◌, ◌≤◌, ◌<◌, ◌≡◌, refl, sym, ap, ◌∙◌, Bool, true, Option, some, [], ◌∷◌,
  ◌++◌, length, length-append, take, take-length, drop, All, append_assoc, append-nil, leb, arith,
  take-append-drop, length-take, length-drop, Bool-cases, inl, inr, leb→le,
}
use sys_autopilot.Base.Text.{Bytes, codes, IsChar}
use sys_autopilot.Base64.{b64_encode, b64_encoded_len}
use sys_autopilot.Base64.RoundTrip.{length-b64_encode}
use sys_autopilot.Http.Response.{http_send_header}
use sys_autopilot.Json.Escape.{json_escape, json_escaped_len}
use sys_autopilot.Json.Escape.Size.{escaped, json_escape-exact}
use sys_autopilot.Request.{request_alloc, request_memory_size}
use sys_autopilot.Request.Arena.{request_alloc-exact}
use sys_autopilot.Mcp.Reply.{
  head_text, rpc_head, send_rpc_value, send_result_stream, send_tool_text, text_pre, text_post,
  base64_loop, write_base64, image_front, img_post, mcp_reply_image, json_type,
}
use sys_autopilot.Mcp.Reply.Length.{whole_reply, send_rpc_value-whole_reply_iff}

result_stream_value :
    (keep_alive : Bool) (beyond id pre payload post : Bytes)
    → send_result_stream keep_alive beyond id pre payload post
      ≡ send_rpc_value keep_alive beyond id (codes "result") (pre ++ (payload ++ post))
unfolding send_result_stream send_rpc_value
result_stream_value keep_alive beyond id pre payload post =
    ap
      (λ (n : ℕ).
        http_send_header keep_alive 200 json_type n
        ++ (head ++ (pre ++ (payload ++ (post ++ last)))))
      size
    ∙ ap
        (λ (t : Bytes).
          http_send_header keep_alive 200 json_type
            (length (head_text id (codes "result")) + length (pre ++ (payload ++ post)) + 1)
          ++ (head ++ t))
        (sym parts)
  where
    head : Bytes
    head = rpc_head beyond id (codes "result")

    last : Bytes
    last = b'}' ∷ []

    size :
        length (head_text id (codes "result")) + length pre + length payload + length post + 1
        ≡ length (head_text id (codes "result")) + length (pre ++ (payload ++ post)) + 1
    size = omega (arith, length-append pre (payload ++ post), length-append payload post)

    parts : (pre ++ (payload ++ post)) ++ last ≡ pre ++ (payload ++ (post ++ last))
    parts = append_assoc pre (payload ++ post) last ∙ ap (pre ++◌) (append_assoc payload post last)

-- Whole groups of three encode apart from what follows them.
b64_encode-append :
    (n : ℕ) (xs ys : Bytes)
    → length xs ≡ 3 * n
    → b64_encode (xs ++ ys) ≡ b64_encode xs ++ b64_encode ys
unfolding b64_encode
b64_encode-append n [] ys h = refl
b64_encode-append zero (a ∷ xs) ys h = absurd (omega (arith, h))
b64_encode-append (suc n) (a ∷ []) ys h = absurd (omega (arith, h))
b64_encode-append (suc n) (a ∷ b ∷ []) ys h = absurd (omega (arith, h))
b64_encode-append (suc n) (a ∷ b ∷ c ∷ xs) ys h =
    rw (b64_encode-append n xs ys (omega (arith, h))) refl

chunk-b64_encode :
    (k n : ℕ) (bs : Bytes)
    → k ≡ 3 * n
    → b64_encode (take k bs) ++ b64_encode (drop k bs) ≡ b64_encode bs
chunk-b64_encode k n bs h = elim (Bool-cases (leb k (length bs))) [
  | inl long ↦
      sym (
        b64_encode-append n (take k bs) (drop k bs)
          (omega (arith, h, length-take k bs, leb→le k (length bs) long)))
      ∙ ap b64_encode (take-append-drop k bs)
  | inr short ↦
      rw (take-length k bs (ground (arith, short)), drop_all k bs (ground (arith, short)))
        (unfold b64_encode in append-nil (b64_encode bs))
]
  where
    drop_all : (m : ℕ) (xs : Bytes) → length xs ≤ m → drop m xs ≡ []
    drop_all zero [] le = refl
    drop_all zero (x ∷ xs) le = absurd (omega (arith, le))
    drop_all (suc m) [] le = refl
    drop_all (suc m) (x ∷ xs) le = drop_all m xs (omega (arith, le))

base64_loop-cons :
    (fuel c : ℕ) (jpeg : Bytes)
    → base64_loop (suc fuel) (c ∷ jpeg)
      ≡ b64_encode (take 3072 (c ∷ jpeg)) ++ base64_loop fuel (drop 3072 (c ∷ jpeg))
unfolding base64_loop
base64_loop-cons fuel c jpeg = refl

drop_shorter :
    (k fuel c : ℕ) (bs : Bytes)
    → 0 < k
    → length (c ∷ bs) ≤ suc fuel
    → length (drop k (c ∷ bs)) ≤ fuel
drop_shorter k fuel c bs some_k h = omega (arith, some_k, h, length-drop k (c ∷ bs))

base64_loop-b64_encode :
    (fuel : ℕ) (jpeg : Bytes) → length jpeg ≤ fuel → base64_loop fuel jpeg ≡ b64_encode jpeg
base64_loop-b64_encode fuel [] h = unfold base64_loop b64_encode in refl
base64_loop-b64_encode zero (c ∷ jpeg) h = absurd (omega (arith, h))
base64_loop-b64_encode (suc fuel) (c ∷ jpeg) h =
    base64_loop-cons fuel c jpeg
    ∙ ap (b64_encode (take 3072 (c ∷ jpeg)) ++◌) (
        base64_loop-b64_encode fuel (drop 3072 (c ∷ jpeg))
          (drop_shorter 3072 fuel c jpeg (omega arith) h))
    ∙ chunk-b64_encode 3072 1024 (c ∷ jpeg) refl

pub alloc_fits :
    (used size : ℕ)
    → used + 15 + size ≤ request_memory_size true
    → (request_alloc true used size).0 ≡ some ((used + 15) / 16 * 16)
alloc_fits used size h =
    rw (request_alloc-exact true used size (omega (arith, h))) (ground (arith, h))

tool_text_stream :
    (keep_alive : Bool) (beyond id : Bytes) (used : ℕ) (is_error : Bool) (text : Bytes) {ptr : ℕ}
    {out : Bytes}
    → (request_alloc true used (json_escaped_len text + 1)).0 ≡ some ptr
    → json_escape text (json_escaped_len text + 1) ≡ some out
    → (send_tool_text keep_alive beyond id used is_error text).0
      ≡ send_result_stream keep_alive beyond id text_pre out (text_post is_error)
unfolding send_tool_text
tool_text_stream keep_alive beyond id used is_error text h k = ground (arith, h, k)

escaped_whole : (text : Bytes) → json_escape text (json_escaped_len text + 1) ≡ some (escaped text)
escaped_whole text =
    ground (arith, json_escape-exact text (json_escaped_len text + 1) (omega arith))

result-whole_reply :
    (keep_alive : Bool) (beyond id value : Bytes)
    → All IsChar id
    → length id ≤ 63
    → send_rpc_value keep_alive beyond id (codes "result") value
      ≡ whole_reply keep_alive id (codes "result") value
result-whole_reply keep_alive beyond id value chars short =
    (send_rpc_value-whole_reply_iff keep_alive beyond id (codes "result") value chars
        (omega arith)).1
      (omega (arith, short))

-- A tool's text is sent as the whole message with the text escaped, its Content-Length exact, given
-- an id of up to 63 characters and room for the escaped text in the request's memory.
pub send_tool_text-whole_reply :
    (keep_alive : Bool) (beyond id : Bytes) (used : ℕ) (is_error : Bool) (text : Bytes)
    → All IsChar id
    → length id ≤ 63
    → used + 15 + (json_escaped_len text + 1) ≤ request_memory_size true
    → (send_tool_text keep_alive beyond id used is_error text).0
      ≡ whole_reply keep_alive id
          (codes "result")
          (text_pre ++ (escaped text ++ text_post is_error))
send_tool_text-whole_reply keep_alive beyond id used is_error text chars short room =
    tool_text_stream keep_alive beyond id used is_error text
      (alloc_fits used (json_escaped_len text + 1) room) (escaped_whole text)
    ∙ result_stream_value keep_alive beyond id text_pre (escaped text) (text_post is_error)
    ∙ result-whole_reply keep_alive beyond id (text_pre ++ (escaped text ++ text_post is_error))
        chars short

write_base64-some :
    (used : ℕ) (jpeg : Bytes)
    → used + 15 + 4096 ≤ request_memory_size true
    → write_base64 used jpeg ≡ some (b64_encode jpeg)
unfolding write_base64
write_base64-some used jpeg room =
    ground
      (arith, alloc_fits used 4096 room, base64_loop-b64_encode (length jpeg) jpeg (omega arith))

image_stream :
    (keep_alive : Bool) (beyond id : Bytes) (used : ℕ) (text : Option Bytes) (jpeg : Bytes)
    → write_base64 used jpeg ≡ some (b64_encode jpeg)
    → mcp_reply_image keep_alive beyond id used text jpeg
      ≡ send_result_stream keep_alive beyond id (image_front text) (b64_encode jpeg) img_post
unfolding mcp_reply_image send_result_stream
image_stream keep_alive beyond id used text jpeg h =
    rw (h, mcp_reply_image)
      (ap
        (λ (n : ℕ).
          http_send_header keep_alive 200 json_type n
          ++ (head ++ (image_front text ++ (b64_encode jpeg ++ (img_post ++ (b'}' ∷ []))))))
        size)
  where
    head : Bytes
    head = rpc_head beyond id (codes "result")

    size :
        length (head_text id (codes "result"))
          + b64_encoded_len (length jpeg)
          + length img_post
          + 1
          + length (image_front text)
        ≡ length (head_text id (codes "result"))
          + length (image_front text)
          + length (b64_encode jpeg)
          + length img_post
          + 1
    size = omega (arith, length-b64_encode jpeg)

-- A picture is sent in chunks of 3072 bytes, each encoded by itself, and yet the reply is the whole
-- message with the encoding of the whole picture, its Content-Length exact, given an id of up to 63
-- characters and room for the chunk's buffer in the request's memory.
pub mcp_reply_image-whole_reply :
    (keep_alive : Bool) (beyond id : Bytes) (used : ℕ) (text : Option Bytes) (jpeg : Bytes)
    → All IsChar id
    → length id ≤ 63
    → used + 15 + 4096 ≤ request_memory_size true
    → mcp_reply_image keep_alive beyond id used text jpeg
      ≡ whole_reply keep_alive id
          (codes "result")
          (image_front text ++ (b64_encode jpeg ++ img_post))
mcp_reply_image-whole_reply keep_alive beyond id used text jpeg chars short room =
    image_stream keep_alive beyond id used text jpeg (write_base64-some used jpeg room)
    ∙ result_stream_value keep_alive beyond id (image_front text) (b64_encode jpeg) img_post
    ∙ result-whole_reply keep_alive beyond id (image_front text ++ (b64_encode jpeg ++ img_post))
        chars short
