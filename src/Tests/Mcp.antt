-- ===== src/Tests/Mcp.antt =====
-- Runs and instances for Mcp.
use sys_autopilot.Base.{
  subst, ◌≡◌, ◌≤◌, ◌↔◌, refl, true, false, none, some, List, [], ◌∷◌, ◌++◌, arith,
}
use sys_autopilot.Base.Text.{Bytes, codes}
use sys_autopilot.Base64.{b64_encode, symbol}
use sys_autopilot.Jstream.{
  jstream_init, structural, open_string, open_container, close_container, doc_append, string_char,
  key_complete, content_escape,
}
use sys_autopilot.Jstream.Machine.{joined, run, step}
use sys_autopilot.Mcp.Reply.{send_rpc_value, mcp_reply_image, image_front, img_post}
use sys_autopilot.Mcp.Reply.Length.{whole_reply, send_rpc_value-whole_reply_iff}
use sys_autopilot.Mcp.Reply.Content.{mcp_reply_image-whole_reply}
use sys_autopilot.Mcp.Tools.{Tool, handle_tools_list, call_loop}
use sys_autopilot.Mcp.Tools.Listing.{listed, handle_tools_list-whole_reply}
use sys_autopilot.Mcp.Tools.Dispatch.{Served, call_loop-Served, has_quote}
use sys_autopilot.Mcp.Upload.{
  Card, upload_init, upload_all, mcp_call_streamed_content, upload_cleanup,
}
use sys_autopilot.Mcp.Upload.Decoded.{Works}
use sys_autopilot.Mcp.Upload.Cleanup.{Payload, upload_cleanup-left}
use sys_autopilot.Mcp.Server.{receive}
use sys_autopilot.Mcp.Server.Stream.{Received, chunks_of, receive-Received, receive-b64_encode}

abbrev sound_card : Card
sound_card = record { opens = true; writes = λ done more. true }

sound_card-Works : Works sound_card
sound_card-Works = record { opens = refl; writes = λ done more. refl }

-- An upload of the three bytes Man, cut inside its content.
abbrev body_chunks : List Bytes
body_chunks = codes "{\"params\":{\"arguments\":{\"content\":\"TW" ∷ codes "Fu\"}}}" ∷ []

handed_on : (run (jstream_init 200) (joined body_chunks)).1 ≡ b64_encode (codes "Man")
unfolding run step structural open_string open_container close_container doc_append string_char
    key_complete content_escape b64_encode symbol
handed_on = refl

receive-b64_encode_example :
    let u =
      (receive sound_card (jstream_init 200) (upload_init 0 none) (chunks_of body_chunks)).0.1 in
    (u.tmp ≡ some (codes "Man")) × ((mcp_call_streamed_content true u).0 ≡ some 3)
receive-b64_encode_example =
    receive-b64_encode sound_card (jstream_init 200) 0 none body_chunks (codes "Man")
      sound_card-Works (omega arith) (omega arith) (λ e. ground (arith, e)) handed_on

receive-Received_example :
    Received sound_card
      (jstream_init 200)
      (upload_init 0 none)
      (joined body_chunks)
      (receive sound_card (jstream_init 200) (upload_init 0 none) (chunks_of body_chunks))
receive-Received_example =
    receive-Received sound_card (jstream_init 200) (upload_init 0 none) body_chunks

send_rpc_value-whole_reply_iff_example :
    (send_rpc_value true [] (codes "1") (codes "result") (codes "{}")
      ≡ whole_reply true (codes "1") (codes "result") (codes "{}"))
    ↔ (7 ≤ 69)
send_rpc_value-whole_reply_iff_example =
    send_rpc_value-whole_reply_iff true [] (codes "1") (codes "result") (codes "{}") (omega arith)
      (omega arith)

mcp_reply_image-whole_reply_example :
    mcp_reply_image true [] (codes "1") 0 none (255 ∷ 216 ∷ [])
    ≡ whole_reply true
        (codes "1")
        (codes "result")
        (image_front none ++ (b64_encode (255 ∷ 216 ∷ []) ++ img_post))
mcp_reply_image-whole_reply_example =
    mcp_reply_image-whole_reply true [] (codes "1") 0 none (255 ∷ 216 ∷ []) (omega arith)
      (omega arith) (omega arith)

abbrev some_tools : List Tool
some_tools =
    record { text = codes "{\"name\":\"tap\",\"description\":\"\"}"; shared = λ n. []; handler = 1 }
    ∷ record { text = codes "{\"name\":\"press\"}"; shared = λ n. []; handler = 2 }
    ∷ []

handle_tools_list-whole_reply_example :
    handle_tools_list some_tools false [] (codes "7")
    ≡ whole_reply false
        (codes "7")
        (codes "result")
        (codes "{\"tools\":[" ++ (listed true some_tools ++ codes "]}"))
handle_tools_list-whole_reply_example =
    handle_tools_list-whole_reply some_tools false [] (codes "7") (omega arith) (omega arith)

call_loop-Served_example :
    Served (codes "press") (some 4) some_tools (call_loop some_tools (codes "press") (some 4))
unfolding has_quote
call_loop-Served_example =
    call_loop-Served some_tools (codes "press") (some 4) (omega arith) (refl, (refl, tt))

encoded_man : b64_encode (codes "Man") ≡ codes "TWFu"
unfolding b64_encode symbol
encoded_man = refl

man_content : Payload (joined (codes "TW" ∷ codes "Fu" ∷ [])) (codes "Man")
man_content =
    subst (λ (t : Bytes). Payload t (codes "Man")) encoded_man (Payload.encoding (omega arith))

upload_cleanup-left_example :
    let u = upload_all sound_card (upload_init 0 (some [])) (codes "TW" ∷ codes "Fu" ∷ []) in
    let shut =
      upload_all
        (record sound_card { opens = false })
        (upload_init 0 (some []))
        (codes "TW" ∷ codes "Fu" ∷ []) in
    let asked = mcp_call_streamed_content true u in
    (asked.0 ≡ some 3)
    × (asked.1.tmp ≡ some (codes "Man"))
    × ((upload_cleanup asked.1).tmp ≡ none)
    × ((upload_cleanup u).tmp ≡ none)
    × ((upload_cleanup shut).tmp ≡ none)
upload_cleanup-left_example =
    upload_cleanup-left sound_card 0 (some []) (codes "TW") (codes "Fu" ∷ []) (codes "Man")
      sound_card-Works (omega arith) man_content
