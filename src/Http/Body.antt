-- ===== src/Http/Body.antt =====
-- `http_write_all` and `http_read_body` of source/core/http.c over what the socket calls return. A
-- send takes a prefix of what it is given, and a receive gives at most the length asked for.
pub mod Transfer
use sys_autopilot.Base.{
  ℕ, zero, suc, ◌+◌, ◌-◌, ◌%◌, ◌^◌, Bool, true, false, not, ◌&&◌, ◌||◌, Option, none, some, List,
  [], ◌∷◌, ◌++◌, length, take, drop, ltb, leb, ◌==◌, if◌then◌else◌,
}
use sys_autopilot.Base.Text.{Bytes}

-- What `send` returns: a count, EINTR, EAGAIN with the answer of the wait behind it, or an error.
pub data SendResult : Type 0 where
  sent : ℕ → SendResult
  interrupted : SendResult
  would_block : Bool → SendResult
  refused : SendResult

-- The bytes that went out, and the result; `none` while `send` has not returned.
unfoldable pub http_write_all : List SendResult → Bytes → Bytes × Option Bool
http_write_all rs [] = ([], some true)
http_write_all [] (c ∷ buf) = ([], none)
http_write_all (interrupted ∷ rs) (c ∷ buf) = http_write_all rs (c ∷ buf)
http_write_all (refused ∷ rs) (c ∷ buf) = ([], some false)
http_write_all (would_block ready ∷ rs) (c ∷ buf) =
    let rest = http_write_all rs (c ∷ buf) in if ready then rest else ([], some false)
http_write_all (sent n ∷ rs) (c ∷ buf) =
    let rest = http_write_all rs (drop n (c ∷ buf)) in
    if n == 0 then ([], some false) else (take n (c ∷ buf) ++ rest.0, rest.1)

-- The fields of HttpRequest that say how much of the body has been read.
pub record Body : Type 0 where
  pub has_content_length : Bool
  pub content_length : ℕ
  pub leftover : Bytes
  pub consumed : ℕ
  pub expect_100 : Bool
  pub sent_100 : Bool

-- `content_length - body_consumed` in size_t.
unfoldable pub remaining : Body → ℕ
remaining b = (b.content_length + (2 ^ 64 - b.consumed)) % 2 ^ 64

-- The length to read, once it is capped to what remains.
unfoldable pub capped : Body → ℕ → ℕ
capped b len = if b.has_content_length && ltb (remaining b) len then remaining b else len

-- What the socket would do: whether the interim reply goes out, and what `recv` gives for a length.
pub record Socket : Type 0 where
  pub continue_ok : Bool
  pub recv : ℕ → Option Bytes

-- The bytes read, `none` for -1, and the request.
unfoldable pub http_read_body : Socket → Body → ℕ → Option Bytes × Body
http_read_body sock b len =
    let n = capped b len in
    let asks = b.expect_100 && not b.sent_100 in
    if b.has_content_length && remaining b == 0
    then (some [], b)
    else if ltb 0 (length b.leftover)
    then (
      some (take n b.leftover),
      record b {
        leftover = drop n b.leftover;
        consumed =
            (b.consumed + (if ltb (length b.leftover) n then length b.leftover else n)) % 2 ^ 64;
      },
    )
    else if asks && not sock.continue_ok
    then (none, b)
    else elim (sock.recv n) as (λ _. Option Bytes × Body) [
      | none ↦ (none, record b { sent_100 = b.sent_100 || asks })
      | some bytes ↦ (
        some bytes,
        record b { consumed = (b.consumed + length bytes) % 2 ^ 64; sent_100 = b.sent_100 || asks },
      )
    ]
