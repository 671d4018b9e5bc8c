-- ===== src/Mcp/Tools/Dispatch.antt =====
-- Which handler source/features/mcp/mcp_server.c calls for the name in a tools/call request.
use sys_autopilot.Base.{
  ℕ, ◌≡◌, ◌≢◌, sym, ◌∙◌, Bool, true, false, ◌&&◌, ◌||◌, Option, List, [], ◌∷◌, length, drop, All,
  ◌==◌, if◌then◌else◌, arith, Bool-cases, inl, inr,
}
use sys_autopilot.Base.Text.{Bytes, codes, streq, streq_iff, starts_with}
use sys_autopilot.Mcp.Tools.{Tool, tool_is, Call, handled, refused, call_loop}

-- The text in front of the first quote.
unfoldable pub up_to_quote : Bytes → Bytes
up_to_quote [] = []
up_to_quote (c ∷ p) = if c == b'"' then [] else c ∷ up_to_quote p

unfoldable pub has_quote : Bytes → Bool
has_quote [] = false
has_quote (c ∷ p) = c == b'"' || has_quote p

-- The name in a definition, which starts with {"name":"<name>".
abbrev pub name_of : Tool → Bytes
name_of t = up_to_quote (drop 9 t.text)

-- The name in the definition ends.
abbrev pub IsNamed : Tool → Type 0
IsNamed t = has_quote (drop 9 t.text) ≡ true

abbrev pub IsPlain : ℕ → Type 0
IsPlain c = c ≢ b'"'

name_test :
    (p name : Bytes)
    → All IsPlain name
    → has_quote p ≡ true
    → starts_with p name && starts_with (drop (length name) p) (b'"' ∷ [])
      ≡ streq name (up_to_quote p)
unfolding up_to_quote has_quote
name_test [] [] a h = ground (arith, h)
name_test (c ∷ p) [] a h = ground (arith, h)
name_test [] (d ∷ name) a h = ground (arith, h)
name_test (c ∷ p) (d ∷ name) a h = ground (arith, h, a, name_test p name)

tool_is-name_of :
    (t : Tool) (name : Bytes)
    → All IsPlain name
    → IsNamed t
    → tool_is t.text name ≡ streq name (name_of t)
unfolding tool_is
tool_is-name_of t name a h = name_test (drop 9 t.text) name a h

-- The first tool with the name is called; with none, the call is refused as unknown.
pub data Served (name : Bytes) (args : Option ℕ) : List Tool → Call → Type 0 where
  unknown : Served name args [] (refused 32602 (codes "unknown tool"))
  found :
      {t : Tool} {tools : List Tool}
      → name ≡ name_of t
      → Served name args (t ∷ tools) (handled t.handler args)
  later :
      {t : Tool} {tools : List Tool} {r : Call}
      → name ≢ name_of t
      → Served name args tools r
      → Served name args (t ∷ tools) r

-- A name without quotes calls the handler of the first tool registered under exactly that name, with
-- the arguments of the request, and is refused as unknown when no tool has it.
pub call_loop-Served :
    (tools : List Tool) (name : Bytes) (args : Option ℕ)
    → All IsPlain name
    → All IsNamed tools
    → Served name args tools (call_loop tools name args)
unfolding call_loop
call_loop-Served [] name args a h = Served.unknown
call_loop-Served (t ∷ tools) name args a h = elim (Bool-cases (tool_is t.text name)) [
  | inl is ↦
      rw is
        (Served.found ((streq_iff name (name_of t)).0 (sym (tool_is-name_of t name a h.0) ∙ is)))
  | inr other ↦
      rw other (Served.later (λ e. differs e other) (call_loop-Served tools name args a h.1))
]
  where
    differs : name ≡ name_of t → tool_is t.text name ≡ false → ⊥
    differs e other =
        ground (arith, other, tool_is-name_of t name a h.0, (streq_iff name (name_of t)).1 e)
