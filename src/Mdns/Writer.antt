-- ===== src/Mdns/Writer.antt =====
-- The low-level writers of source/core/mdns.c. A buffer is the bytes written to it.
use sys_autopilot.Base.{
  ℕ, zero, suc, ◌+◌, ◌-◌, ◌/◌, ◌%◌, ◌^◌, Bool, false, not, ◌||◌, [], ◌∷◌, ◌++◌, length, ltb, ◌==◌,
  if◌then◌else◌, Option, none, some,
}
use sys_autopilot.Base.Text.{Bytes}

pub record Writer : Type 0 where
  pub cap : ℕ
  pub buf : Bytes
  pub ok : Bool

unfoldable pub w_u8 : Writer → ℕ → Writer
w_u8 w v =
    if not w.ok
    then w
    else if ltb w.cap (length w.buf + 1)
    then record w { ok = false }
    else record w { buf = w.buf ++ (v ∷ []) }

unfoldable pub w_u16 : Writer → ℕ → Writer
w_u16 w v = w_u8 (w_u8 w (v / 2 ^ 8 % 256)) (v % 256)

unfoldable pub w_u32 : Writer → ℕ → Writer
w_u32 w v =
    w_u8 (w_u8 (w_u8 (w_u8 w (v / 2 ^ 24 % 256)) (v / 2 ^ 16 % 256)) (v / 2 ^ 8 % 256)) (v % 256)

unfoldable pub w_bytes : Writer → Bytes → Writer
w_bytes w p =
    if not w.ok
    then w
    else if ltb w.cap (length w.buf + length p)
    then record w { ok = false }
    else record w { buf = w.buf ++ p }

-- The text in front of the first dot, and behind it if there is one.
unfoldable pub split_dot : Bytes → Bytes × Option Bytes
split_dot [] = ([], none)
split_dot (c ∷ cs) =
    let (seg, rest) = split_dot cs in if c == b'.' then ([], some cs) else (c ∷ seg, rest)

-- Each round but the last drops a dot, so the length is fuel enough.
unfoldable pub name_segments : ℕ → Writer → Bytes → Writer
name_segments fuel w [] = w_u8 w 0
name_segments zero w (c ∷ name) = w
name_segments (suc fuel) w (c ∷ name) =
    let (seg, after) = split_dot (c ∷ name) in
    let written = w_bytes (w_u8 w (length seg)) seg in
    let more = (elim after as (λ _. Writer) [
      | none ↦ w_u8 written 0
      | some rest ↦ name_segments fuel written rest
    ]) in
    if length seg == 0 || ltb 63 (length seg) then record w { ok = false } else more

unfoldable pub w_name : Writer → Bytes → Writer
w_name w name = name_segments (length name) w name

-- The writer, and the offset of the length's placeholder.
unfoldable pub w_rr_head : Writer → Bytes → ℕ → ℕ → ℕ → Writer × ℕ
w_rr_head w name type class ttl =
    let head = w_u32 (w_u16 (w_u16 (w_name w name) type) class) ttl in
    (w_u16 head 0, length head.buf)

-- w->buf[offset] = v; a write behind the bytes written so far shows, as the buffer then grows.
unfoldable pub poke : Bytes → ℕ → ℕ → Bytes
poke [] zero v = v ∷ []
poke [] (suc offset) v = 0 ∷ poke [] offset v
poke (b ∷ bs) zero v = v ∷ bs
poke (b ∷ bs) (suc offset) v = b ∷ poke bs offset v

unfoldable pub w_rr_patch : Writer → ℕ → Writer
w_rr_patch w at_offset =
    let rdlen = (length w.buf - (at_offset + 2)) % 2 ^ 16 in
    if not w.ok || ltb (length w.buf) (at_offset + 2) then w else record w {
      buf = poke (poke w.buf at_offset (rdlen / 2 ^ 8)) (at_offset + 1) (rdlen % 256);
    }
