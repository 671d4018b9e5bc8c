-- ===== src/Request.antt =====
-- source/core/request.c and request.h: request memory, one region that a request's buffers are taken
-- from and that is released as a whole. A pointer is its offset in `g_request_memory`.
pub mod Arena
use sys_autopilot.Base.{
  ℕ, ◌+◌, ◌-◌, ◌%◌, ◌^◌, bit_and, Bool, true, false, ◌||◌, Option, none, some, List, [], ◌∷◌,
  length, ltb, if◌then◌else◌,
}
use sys_autopilot.Base.Text.{Bytes}
use sys_autopilot.Json.Escape.{json_escaped_len, json_escape}

-- REQUEST_MEMORY_SIZE, with FEATURE_MCP or without.
abbrev pub request_memory_size : Bool → ℕ
request_memory_size true = 0xa0000
request_memory_size false = 0x94000

-- (req->mem_used + 15) & ~(size_t)15
unfoldable pub aligned : ℕ → ℕ
aligned used = bit_and ((used + 15) % 2 ^ 64) (2 ^ 64 - 16)

-- Each operation takes and gives `mem_used`.
unfoldable pub request_alloc : Bool → ℕ → ℕ → Option ℕ × ℕ
request_alloc mcp used size =
    let start = aligned used in
    let total = request_memory_size mcp in
    if ltb total start || ltb (total - start) size then (none, used) else (some start, start + size)

-- The pointer, the size given, and the new level.
unfoldable pub request_alloc_rest : Bool → ℕ → (ℕ × ℕ) × ℕ
request_alloc_rest mcp used =
    let start = aligned used in ((start, request_memory_size mcp - start), request_memory_size mcp)

abbrev pub request_mark : ℕ → ℕ
request_mark used = used

unfoldable pub request_rewind : ℕ → ℕ → ℕ
request_rewind used mark = if ltb mark used then mark else used

unfoldable pub request_trim : ℕ → ℕ → ℕ → ℕ
request_trim used ptr kept = request_rewind used (ptr + kept)

abbrev pub request_release : ℕ → ℕ
request_release used = 0

-- The escaped text and the new level; "" when memory is exhausted.
unfoldable pub request_json_escape : Bool → ℕ → Bytes → Bytes × ℕ
request_json_escape mcp used s =
    let taken = request_alloc mcp used (json_escaped_len s + 1) in
    elim taken.0 as (λ _. Bytes × ℕ) [
      | none ↦ ([], taken.1)
      | some ptr ↦ (
        (elim (json_escape s (json_escaped_len s + 1)) as (λ _. Bytes) [
          | none ↦ []
          | some out ↦ out
        ]),
        taken.1,
      )
    ]
