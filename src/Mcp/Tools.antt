-- ===== src/Mcp/Tools.antt =====
-- The tool table of source/features/mcp/mcp_server.c, its listing and its dispatch, and `initialize`.
-- A handler is a number, and what it does is a parameter of the program.
pub mod Listing
pub mod Dispatch
use sys_autopilot.Base.{
  ℕ, zero, suc, ◌+◌, ◌-◌, Bool, true, false, not, ◌&&◌, ◌||◌, Option, none, some, List, [], ◌∷◌,
  ◌++◌, length, drop, ltb, leb, ◌==◌, if◌then◌else◌,
}
use sys_autopilot.Base.Text.{Bytes, codes, c_str, streq, starts_with}
use sys_autopilot.Http.Response.{http_send_header}
use sys_autopilot.Json.Document.{JsonDoc, json_obj_get, json_get_string}
use sys_autopilot.Mcp.Reply.{head_text, rpc_head, json_type}

-- Element 0 of the definition, and the texts that its bytes below 0x20 stand for.
pub record Tool : Type 0 where
  pub text : Bytes
  pub shared : ℕ → Bytes
  pub handler : ℕ

abbrev pub mcp_max_tools : ℕ
mcp_max_tools = 52

unfoldable pub mcp_server_register_tool : List Tool → Tool → List Tool
mcp_server_register_tool tools tool =
    if leb mcp_max_tools (length tools) then tools else tools ++ (tool ∷ [])

-- The run of characters from 0x20 on, and what follows it.
unfoldable pub text_run : Bytes → Bytes × Bytes
text_run [] = ([], [])
text_run (c ∷ p) =
    let (run, rest) = text_run p in if ltb c 0x20 then ([], c ∷ p) else (c ∷ run, rest)

-- What is written, nothing when it is only measured, and the length. Each round takes a byte at least.
unfoldable pub write_loop : ℕ → Bool → Tool → Bytes → Bytes × ℕ
write_loop fuel writes def [] = ([], 0)
write_loop zero writes def (c ∷ p) = ([], 0)
write_loop (suc fuel) writes def (c ∷ p) =
    let marker = write_loop fuel writes def p in
    let behind = write_loop fuel writes def (text_run (c ∷ p)).1 in
    if ltb c 0x20
    then ((if writes then def.shared c else []) ++ marker.0, length (def.shared c) + marker.1)
    else (
      (if writes then (text_run (c ∷ p)).0 else []) ++ behind.0,
      length (text_run (c ∷ p)).0 + behind.1,
    )

unfoldable pub write_tool : Bool → Tool → Bytes × ℕ
write_tool writes def = write_loop (length def.text) writes def def.text

-- The lengths, with a comma in front of each definition but the first; `first` is i == 0.
unfoldable pub measure_tools : Bool → List Tool → ℕ
measure_tools first [] = 0
measure_tools first (t ∷ tools) =
    (write_tool false t).1 + (if first then 0 else 1) + measure_tools false tools

unfoldable pub write_tools : Bool → List Tool → Bytes
write_tools first [] = []
write_tools first (t ∷ tools) =
    (if first then [] else b',' ∷ []) ++ ((write_tool true t).0 ++ write_tools false tools)

unfoldable pub handle_tools_list : List Tool → Bool → Bytes → Bytes → Bytes
handle_tools_list tools keep_alive beyond id =
    let total = length (head_text id (codes "result")) + 10 + 2 + 1 + measure_tools true tools in
    http_send_header keep_alive 200 json_type total
    ++ (rpc_head beyond id (codes "result")
        ++ (codes "{\"tools\":[" ++ (write_tools true tools ++ (codes "]}" ++ (b'}' ∷ [])))))

unfoldable pub tool_is : Bytes → Bytes → Bool
tool_is text name =
    let p = drop 9 text in starts_with p name && starts_with (drop (length name) p) (b'"' ∷ [])

-- The handler that is called, or the code, by its magnitude, and the message of an error.
pub data Call : Type 0 where
  handled : ℕ → Option ℕ → Call
  refused : ℕ → Bytes → Call

unfoldable pub call_loop : List Tool → Bytes → Option ℕ → Call
call_loop [] name args = refused 32602 (codes "unknown tool")
call_loop (t ∷ tools) name args =
    if tool_is t.text name then handled t.handler args else call_loop tools name args

unfoldable pub handle_tools_call : List Tool → JsonDoc → Option ℕ → Call
handle_tools_call tools doc params =
    elim (json_get_string doc (json_obj_get doc params (codes "name")) 40) as (λ _. Call) [
      | none ↦ refused 32602 (codes "missing tool name")
      | some name ↦ call_loop tools (c_str name) (json_obj_get doc params (codes "arguments"))
    ]

-- The version to speak: the client's if it is one of three, the latest if not.
unfoldable pub protocol : Option Bytes → Bytes
protocol none = codes "2025-06-18"
protocol (some v) =
    let text = c_str v in
    if streq text (codes "2024-11-05")
      || streq text (codes "2025-03-26")
      || streq text (codes "2025-06-18")
    then text
    else codes "2025-06-18"

-- The value of the reply to `initialize`.
unfoldable pub initialize_value : JsonDoc → Option ℕ → Bytes → Bytes
initialize_value doc params app_version =
    let proto =
      protocol (json_get_string doc (json_obj_get doc params (codes "protocolVersion")) 24) in
    codes "{\"protocolVersion\":\""
    ++ (proto
        ++ (codes
              "\",\"capabilities\":{\"tools\":{}},\"serverInfo\":{\"name\":\"sys-autopilot\",\"version\":\""
            ++ (app_version ++ codes "\"}}")))
