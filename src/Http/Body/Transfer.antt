-- ===== src/Http/Body/Transfer.antt =====
-- What source/core/http.c sends of a buffer, and how much of a body it reads.
use sys_autopilot.Base.{
  ℕ, ◌+◌, ◌%◌, ◌^◌, ◌≤◌, ◌<◌, ◌≡◌, ◌≢◌, refl, ap, ◌∙◌, Bool, true, false, not, ◌&&◌, ◌||◌, Option,
  none, some, List, [], ◌∷◌, ◌++◌, length, take, drop, ltb, ◌==◌, if_both, append_assoc,
  take-append-drop, length-take, arith,
}
use sys_autopilot.Base.Text.{Bytes}
use sys_autopilot.Http.Body.{
  SendResult, sent, interrupted, would_block, refused, http_write_all, Body, remaining, capped,
  Socket, http_read_body,
}

-- What went out is the front of the buffer; all of it when the result is true, not when it is false.
pub record Wrote (buf : Bytes) (r : Bytes × Option Bool) : Type 0 where
  pub unsent : Bytes
  pub front : r.0 ++ unsent ≡ buf
  pub all_sent : r.1 ≡ some true → unsent ≡ []
  pub not_all : r.1 ≢ some true → unsent ≢ []

Wrote-nothing :
    (c : ℕ) (buf : Bytes) (result : Option Bool) → result ≢ some true → Wrote (c ∷ buf) ([], result)
Wrote-nothing c buf result h = record {
  unsent = c ∷ buf;
  front = refl;
  all_sent = λ e. absurd (h e);
  not_all = λ _ e. ground (arith, e);
}

Wrote-more :
    (n : ℕ) (buf : Bytes) (r : Bytes × Option Bool)
    → Wrote (drop n buf) r
    → Wrote buf (take n buf ++ r.0, r.1)
Wrote-more n buf r w = record {
  unsent = w.unsent;
  front =
      append_assoc (take n buf) r.0 w.unsent ∙ ap (take n buf ++◌) w.front ∙ take-append-drop n buf;
  all_sent = w.all_sent;
  not_all = w.not_all;
}

-- Whatever the socket answers, the bytes sent are the buffer's front, in order and once each, and
-- the result is true exactly when they are the whole buffer.
pub http_write_all-Wrote : (rs : List SendResult) (buf : Bytes) → Wrote buf (http_write_all rs buf)
unfolding http_write_all
http_write_all-Wrote rs [] = record {
  unsent = [];
  front = refl;
  all_sent = λ _. refl;
  not_all = λ h _. h refl;
}
http_write_all-Wrote [] (c ∷ buf) = Wrote-nothing c buf none (ground arith)
http_write_all-Wrote (interrupted ∷ rs) (c ∷ buf) = http_write_all-Wrote rs (c ∷ buf)
http_write_all-Wrote (refused ∷ rs) (c ∷ buf) = Wrote-nothing c buf (some false) (ground arith)
http_write_all-Wrote (would_block ready ∷ rs) (c ∷ buf) =
    if_both (Wrote (c ∷ buf)) ready (http_write_all-Wrote rs (c ∷ buf))
      (Wrote-nothing c buf (some false) (ground arith))
http_write_all-Wrote (sent n ∷ rs) (c ∷ buf) =
    if_both (Wrote (c ∷ buf)) (n == 0) (Wrote-nothing c buf (some false) (ground arith)) (
      Wrote-more n (c ∷ buf) (http_write_all rs (drop n (c ∷ buf)))
        (http_write_all-Wrote rs (drop n (c ∷ buf))))

-- A body that is not over-read: what is consumed of a stated length stays within it.
pub record IsValid (b : Body) : Type 0 where
  pub stated : b.content_length < 2 ^ 64
  pub within : b.consumed ≤ b.content_length

-- `recv` gives at most the length asked for.
pub record Bounded (sock : Socket) : Type 0 where
  pub recv_le : (n : ℕ) (bytes : Bytes) → sock.recv n ≡ some bytes → length bytes ≤ n

-- What a read gives, in bytes.
unfoldable pub got : Option Bytes → ℕ
got none = 0
got (some bytes) = length bytes

-- A read of a body with a stated length: it fits the buffer, it is counted, and the count stays
-- within the length.
pub record Counted (b : Body) (len : ℕ) (r : Option Bytes × Body) : Type 0 where
  pub fits : got r.0 ≤ len
  pub counted : r.1.consumed ≡ b.consumed + got r.0
  pub within : r.1.consumed ≤ b.content_length
  pub length_kept : r.1.content_length ≡ b.content_length
  pub kind_kept : r.1.has_content_length ≡ b.has_content_length

capped_le :
    (b : Body) (len : ℕ)
    → IsValid b
    → b.has_content_length ≡ true
    → (capped b len ≤ len) × (b.consumed + capped b len ≤ b.content_length)
unfolding capped remaining
capped_le b len v h = ground (arith, v, h)

Counted-none :
    (b : Body) (len : ℕ) (b' : Body)
    → IsValid b
    → b'.consumed ≡ b.consumed
    → b'.content_length ≡ b.content_length
    → b'.has_content_length ≡ b.has_content_length
    → Counted b len (none, b')
unfolding got
Counted-none b len b' v p q r = ground (arith, v, p, q, r)

-- A read of a body with a stated length never gives more than the buffer holds, counts every byte
-- it gives, and never reads past the body into the next request.
pub http_read_body-Counted :
    (sock : Socket) (b : Body) (len : ℕ)
    → Bounded sock
    → IsValid b
    → b.has_content_length ≡ true
    → Counted b len (http_read_body sock b len)
unfolding http_read_body got
http_read_body-Counted sock b len s v h =
    if_both (Counted b len) (b.has_content_length && remaining b == 0) (ground (arith, v)) (
      if_both (Counted b len) (ltb 0 (length b.leftover))
        (ground (arith, v, h, capped_le b len v h, length-take (capped b len) b.leftover))
        (if_both (Counted b len) (b.expect_100 && not b.sent_100 && not sock.continue_ok)
          (ground (arith, v)) (received (sock.recv (capped b len)) (s.recv_le (capped b len)))))
  where
    received :
        (o : Option Bytes)
        → ((bytes : Bytes) → o ≡ some bytes → length bytes ≤ capped b len)
        → Counted b len (elim o as (λ _. Option Bytes × Body) [
          | none ↦ (none, record b { sent_100 = b.sent_100 || (b.expect_100 && not b.sent_100) })
          | some bytes ↦ (
            some bytes,
            record b {
              consumed = (b.consumed + length bytes) % 2 ^ 64;
              sent_100 = b.sent_100 || (b.expect_100 && not b.sent_100);
            },
          )
        ])
    received none le = ground (arith, v)
    received (some bytes) le = ground (arith, v, le bytes refl, capped_le b len v h)
