-- ===== src/Mcp/Tools/Listing.antt =====
-- The tools/list reply of source/features/mcp/mcp_server.c, which is measured before it is written.
use sys_autopilot.Base.{
  ℕ, zero, suc, ◌+◌, ◌≤◌, ◌≡◌, refl, ap, ◌∙◌, Bool, true, false, List, [], ◌∷◌, ◌++◌, length,
  length-append, append_assoc, All, ltb, if◌then◌else◌, arith, Bool-cases, inl, inr,
}
use sys_autopilot.Base.Text.{Bytes, codes, IsChar}
use sys_autopilot.Http.Response.{http_send_header}
use sys_autopilot.Mcp.Reply.{head_text, rpc_head, send_rpc_value, json_type}
use sys_autopilot.Mcp.Reply.Length.{whole_reply, send_rpc_value-whole_reply_iff}
use sys_autopilot.Mcp.Tools.{
  Tool, text_run, write_loop, write_tool, measure_tools, write_tools, handle_tools_list,
}

-- A definition with each marker replaced by the text that it stands for.
unfoldable pub expanded : (ℕ → Bytes) → Bytes → Bytes
expanded shared [] = []
expanded shared (c ∷ p) = (if ltb c 0x20 then shared c else c ∷ []) ++ expanded shared p

-- The definitions with commas between them.
unfoldable pub listed : Bool → List Tool → Bytes
listed first [] = []
listed first (t ∷ tools) =
    (if first then [] else b',' ∷ []) ++ (expanded t.shared t.text ++ listed false tools)

text_run-expanded :
    (shared : ℕ → Bytes) (p : Bytes)
    → (text_run p).0 ++ expanded shared (text_run p).1 ≡ expanded shared p
unfolding text_run expanded
text_run-expanded shared [] = refl
text_run-expanded shared (c ∷ p) = ground (arith, text_run-expanded shared p)

length-text_run : (p : Bytes) → length (text_run p).1 ≤ length p
unfolding text_run
length-text_run [] = omega arith
length-text_run (c ∷ p) = ground (arith, length-text_run p)

length-text_run_cons :
    (c : ℕ) (p : Bytes) → ltb c 0x20 ≡ false → length (text_run (c ∷ p)).1 ≤ length p
unfolding text_run
length-text_run_cons c p h = ground (arith, h, length-text_run p)

write_marker :
    (fuel : ℕ) (writes : Bool) (def : Tool) (c : ℕ) (p : Bytes)
    → ltb c 0x20 ≡ true
    → write_loop (suc fuel) writes def (c ∷ p) ≡ (
      (if writes then def.shared c else []) ++ (write_loop fuel writes def p).0,
      length (def.shared c) + (write_loop fuel writes def p).1,
    )
unfolding write_loop
write_marker fuel writes def c p h = rw (h, write_loop) refl

write_run :
    (fuel : ℕ) (writes : Bool) (def : Tool) (c : ℕ) (p : Bytes)
    → ltb c 0x20 ≡ false
    → write_loop (suc fuel) writes def (c ∷ p) ≡ (
      (if writes then (text_run (c ∷ p)).0 else [])
          ++ (write_loop fuel writes def (text_run (c ∷ p)).1).0,
      length (text_run (c ∷ p)).0 + (write_loop fuel writes def (text_run (c ∷ p)).1).1,
    )
unfolding write_loop
write_run fuel writes def c p h = rw (h, write_loop) refl

write_loop-length :
    (fuel : ℕ) (writes : Bool) (def : Tool) (p : Bytes)
    → length p ≤ fuel
    → (write_loop fuel writes def p).1 ≡ length (expanded def.shared p)
write_loop-length fuel writes def [] h = unfold write_loop expanded in refl
write_loop-length zero writes def (c ∷ p) h = absurd (omega (arith, h))
write_loop-length (suc fuel) writes def (c ∷ p) h = elim (Bool-cases (ltb c 0x20)) [
  | inl marker ↦
      ap (λ (r : Bytes × ℕ). r.1) (write_marker fuel writes def c p marker)
      ∙ expanded_marker (write_loop-length fuel writes def p (omega (arith, h))) marker
  | inr run ↦
      ap (λ (r : Bytes × ℕ). r.1) (write_run fuel writes def c p run)
      ∙ expanded_run (
          write_loop-length fuel writes def (text_run (c ∷ p)).1
            (omega (arith, h, length-text_run_cons c p run)))
]
  where
    expanded_marker :
        (write_loop fuel writes def p).1 ≡ length (expanded def.shared p)
        → ltb c 0x20 ≡ true
        → length (def.shared c) + (write_loop fuel writes def p).1
          ≡ length (expanded def.shared (c ∷ p))
    expanded_marker ih m =
        unfold expanded in
        ground (arith, ih, m, length-append (def.shared c) (expanded def.shared p))

    expanded_run :
        (write_loop fuel writes def (text_run (c ∷ p)).1).1
          ≡ length (expanded def.shared (text_run (c ∷ p)).1)
        → length (text_run (c ∷ p)).0 + (write_loop fuel writes def (text_run (c ∷ p)).1).1
          ≡ length (expanded def.shared (c ∷ p))
    expanded_run ih =
        omega
          (arith, ih, length-append (text_run (c ∷ p)).0 (expanded def.shared (text_run (c ∷ p)).1))
        ∙ ap length (text_run-expanded def.shared (c ∷ p))

write_loop-expanded :
    (fuel : ℕ) (def : Tool) (p : Bytes)
    → length p ≤ fuel
    → (write_loop fuel true def p).0 ≡ expanded def.shared p
write_loop-expanded fuel def [] h = unfold write_loop expanded in refl
write_loop-expanded zero def (c ∷ p) h = absurd (omega (arith, h))
write_loop-expanded (suc fuel) def (c ∷ p) h = elim (Bool-cases (ltb c 0x20)) [
  | inl marker ↦
      ap (λ (r : Bytes × ℕ). r.0) (write_marker fuel true def c p marker)
      ∙ ap (def.shared c ++◌) (write_loop-expanded fuel def p (omega (arith, h)))
      ∙ unfold expanded in rw marker refl
  | inr run ↦
      ap (λ (r : Bytes × ℕ). r.0) (write_run fuel true def c p run)
      ∙ ap ((text_run (c ∷ p)).0 ++◌) (
          write_loop-expanded fuel def (text_run (c ∷ p)).1
            (omega (arith, h, length-text_run_cons c p run)))
      ∙ text_run-expanded def.shared (c ∷ p)
]

measure_tools_lem :
    (first : Bool) (tools : List Tool) → measure_tools first tools ≡ length (listed first tools)
unfolding measure_tools listed write_tool
measure_tools_lem first [] = refl
measure_tools_lem first (t ∷ tools) = ground (
  arith,
  write_loop-length (length t.text) false t t.text (omega arith),
  length-append (expanded t.shared t.text) (listed false tools),
  measure_tools_lem false tools,
)

write_tools_lem : (first : Bool) (tools : List Tool) → write_tools first tools ≡ listed first tools
unfolding write_tools listed write_tool
write_tools_lem first [] = refl
write_tools_lem first (t ∷ tools) =
    rw (write_loop-expanded (length t.text) t t.text (omega arith), write_tools_lem false tools)
      refl

-- The list of the tools is the whole message with every definition, its markers replaced, and commas
-- between them; the Content-Length that was measured first is exact, given an id of up to 63
-- characters.
pub handle_tools_list-whole_reply :
    (tools : List Tool) (keep_alive : Bool) (beyond id : Bytes)
    → All IsChar id
    → length id ≤ 63
    → handle_tools_list tools keep_alive beyond id
      ≡ whole_reply keep_alive id
          (codes "result")
          (codes "{\"tools\":[" ++ (listed true tools ++ codes "]}"))
unfolding handle_tools_list
handle_tools_list-whole_reply tools keep_alive beyond id chars short =
    rw (measure_tools_lem true tools, write_tools_lem true tools) whole
    ∙ (send_rpc_value-whole_reply_iff keep_alive beyond id (codes "result") value chars
          (omega arith)).1
        (omega (arith, short))
  where
    value : Bytes
    value = codes "{\"tools\":[" ++ (listed true tools ++ codes "]}")

    size :
        length (head_text id (codes "result")) + 10 + 2 + 1 + length (listed true tools)
        ≡ length (head_text id (codes "result")) + length value + 1
    size = omega (arith, length-append (listed true tools) (codes "]}"))

    whole :
        http_send_header keep_alive 200 json_type
            (length (head_text id (codes "result")) + 10 + 2 + 1 + length (listed true tools))
          ++ (rpc_head beyond id (codes "result")
              ++ (codes "{\"tools\":[" ++ (listed true tools ++ (codes "]}" ++ (b'}' ∷ [])))))
        ≡ send_rpc_value keep_alive beyond id (codes "result") value
    whole =
        unfold send_rpc_value in
        rw (size, append_assoc (listed true tools) (codes "]}") (b'}' ∷ [])) refl
