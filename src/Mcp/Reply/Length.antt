-- ===== src/Mcp/Reply/Length.antt =====
-- The replies of source/features/mcp/mcp_server.c against whole messages: the Content-Length that a
-- header announces, and the bytes behind it.
use sys_autopilot.Base.{
  ℕ, zero, suc, ◌+◌, ◌-◌, ◌≤◌, ◌<◌, ◌≡◌, ◌≢◌, ◌↔◌, refl, sym, ap, ◌∙◌, Bool, [], ◌∷◌, ◌++◌, length,
  length-append, take, take-length, drop, All, All-append, arith, inl, inr, Bool-cases, leb, leb→le,
}
use sys_autopilot.Base.Text.{Bytes, codes, IsChar}
use sys_autopilot.Http.Response.{http_send_header, http_send_response}
use sys_autopilot.Mcp.Reply.{printed, json_type, head_text, rpc_head_max, rpc_head, send_rpc_value}

-- The whole message.
abbrev pub envelope : Bytes → Bytes → Bytes → Bytes
envelope id key value = head_text id key ++ (value ++ (b'}' ∷ []))

take_front : (text more : Bytes) → take (length text) (text ++ more) ≡ text
take_front [] more = refl
take_front (c ∷ text) more = ap (◌∷◌ c) (take_front text more)

printed_fits :
    (size : ℕ) (beyond text : Bytes) → length text < size → printed size beyond text ≡ text
unfolding printed
printed_fits size beyond text h =
    rw (take-length (size - 1) text (omega (arith, h))) (take_front text (0 ∷ beyond))

-- A text that was cut differs from what is sent at the terminator.
cut_differs :
    (k : ℕ) (beyond text rest rest' : Bytes)
    → All IsChar text
    → k < length text
    → take (length text) (take k text ++ (0 ∷ beyond)) ++ rest ≢ text ++ rest'
cut_differs k beyond [] rest rest' a h e = absurd (omega (arith, h))
cut_differs zero beyond (c ∷ text) rest rest' a h e = ground (arith, a, e)
cut_differs (suc k) beyond (c ∷ text) rest rest' a h e =
    cut_differs k beyond text rest rest' a.1 (omega (arith, h)) (ap (drop 1) e)

head_text-All : (id key : Bytes) → All IsChar id → All IsChar key → All IsChar (head_text id key)
head_text-All id key a b =
    All-append IsChar (codes "{\"jsonrpc\":\"2.0\",\"id\":")
      (id ++ (codes ",\"" ++ (key ++ codes "\":"))) (omega arith)
      (All-append IsChar id (codes ",\"" ++ (key ++ codes "\":")) a (
        All-append IsChar (codes ",\"") (key ++ codes "\":") (omega arith)
          (All-append IsChar key (codes "\":") b (omega arith))))

length-head_text : (id key : Bytes) → length (head_text id key) ≡ 26 + (length id + length key)
length-head_text id key =
    omega (
      arith,
      length-append id (codes ",\"" ++ (key ++ codes "\":")),
      length-append key (codes "\":"),
    )

pub length-envelope :
    (id key value : Bytes)
    → length (envelope id key value) ≡ length (head_text id key) + length value + 1
length-envelope id key value = omega (
  arith,
  length-append (head_text id key) (value ++ (b'}' ∷ [])),
  length-append value (b'}' ∷ []),
)

append_cancel : (xs : Bytes) {ys zs : Bytes} → xs ++ ys ≡ xs ++ zs → ys ≡ zs
append_cancel [] e = e
append_cancel (x ∷ xs) e = append_cancel xs (ap (drop 1) e)

-- What a whole message is sent as.
abbrev pub whole_reply : Bool → Bytes → Bytes → Bytes → Bytes
whole_reply keep_alive id key value =
    http_send_response keep_alive 200 json_type (envelope id key value)

pub whole_reply_lem :
    (keep_alive : Bool) (id key value : Bytes)
    → whole_reply keep_alive id key value
      ≡ http_send_header keep_alive 200 json_type (length (head_text id key) + length value + 1)
        ++ envelope id key value
unfolding http_send_response
whole_reply_lem keep_alive id key value = rw (length-envelope id key value) refl

-- For an id and a key of characters other than NUL, a JSON-RPC reply is the whole message, with its
-- exact Content-Length, just when the id and the key have at most 69 characters together. Past that,
-- what is sent differs from the whole message, whatever bytes follow the head's buffer in memory.
pub send_rpc_value-whole_reply_iff :
    (keep_alive : Bool) (beyond id key value : Bytes)
    → All IsChar id
    → All IsChar key
    → (send_rpc_value keep_alive beyond id key value ≡ whole_reply keep_alive id key value)
      ↔ (length id + length key ≤ 69)
unfolding send_rpc_value rpc_head
send_rpc_value-whole_reply_iff keep_alive beyond id key value a b = (only, fits)
  where
    n : ℕ
    n = length (head_text id key) + length value + 1

    fits :
        length id + length key ≤ 69
        → send_rpc_value keep_alive beyond id key value ≡ whole_reply keep_alive id key value
    fits h =
        ap
          (λ (t : Bytes).
            http_send_header keep_alive 200 json_type n ++ (t ++ (value ++ (b'}' ∷ []))))
          (printed_fits rpc_head_max beyond (head_text id key)
            (omega (arith, h, length-head_text id key)))
        ∙ sym (whole_reply_lem keep_alive id key value)

    only :
        send_rpc_value keep_alive beyond id key value ≡ whole_reply keep_alive id key value
        → length id + length key ≤ 69
    only e = elim (Bool-cases (leb (length id + length key) 69)) [
      | inl small ↦ leb→le _ _ small
      | inr large ↦ absurd (
          unfold printed in
          (cut_differs 95 beyond (head_text id key) (value ++ (b'}' ∷ [])) (value ++ (b'}' ∷ []))
            (head_text-All id key a b) (ground (arith, large, length-head_text id key))
            (append_cancel (http_send_header keep_alive 200 json_type n)
              (e ∙ whole_reply_lem keep_alive id key value))))
    ]
