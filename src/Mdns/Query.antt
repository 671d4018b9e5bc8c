-- ===== src/Mdns/Query.antt =====
-- The parsing of queries in source/core/mdns.c.
pub mod Loops
pub mod Names
use sys_autopilot.Base.{
  ℕ, zero, suc, ◌+◌, ◌*◌, ◌/◌, ◌%◌, ◌^◌, bit_and, bit_or, Bool, true, false, not, ◌&&◌, ◌||◌,
  Option, none, some, List, [], ◌∷◌, ◌++◌, length, take, drop, get_or, ltb, leb, ◌==◌,
  if◌then◌else◌,
}
use sys_autopilot.Base.Text.{Bytes, to_lower}
use sys_autopilot.Mdns.Record.{MdnsConfig, service_type}

-- The bytes of a label against the text, and the text behind them.
unfoldable pub match_label : Bytes → Bytes → Option Bytes
match_label [] seg = some seg
match_label (c ∷ cs) [] = none
match_label (c ∷ cs) (d ∷ seg) =
    let rest = match_label cs seg in
    if d == b'.' then none else if to_lower c == to_lower d then rest else none

-- The text behind a label ends or goes on behind a dot.
unfoldable pub skip_dot : Bytes → Option Bytes
skip_dot [] = some []
skip_dot (c ∷ seg) = if c == b'.' then some seg else none

unfoldable pub next_segment : Bytes → Bytes → Option Bytes
next_segment label seg = elim (match_label label seg) as (λ _. Option Bytes) [
  | none ↦ none
  | some rest ↦ skip_dot rest
]

-- ((b & 0x3F) << 8) | pkt[off + 1]
unfoldable pub pointer : Bytes → ℕ → ℕ
pointer pkt off = bit_or (bit_and (get_or pkt off 0) 63 * 2 ^ 8) (get_or pkt (off + 1) 0)

-- The loop of name_equals; `none` is a loop that fuel has cut.
unfoldable pub name_loop : ℕ → Bytes → ℕ → ℕ → Bytes → Option Bool
name_loop zero pkt hops off seg = none
name_loop (suc fuel) pkt hops off seg =
    let b = get_or pkt off 0 in
    let followed = name_loop fuel pkt (hops + 1) (pointer pkt off) seg in
    let next = (elim (next_segment (take b (drop (off + 1) pkt)) seg) as (λ _. Option Bool) [
      | none ↦ some false
      | some rest ↦ name_loop fuel pkt hops (off + 1 + b) rest
    ]) in
    if leb (length pkt) off
    then some false
    else if b == 0
    then some (length seg == 0)
    else if bit_and b 0xC0 == 0xC0
    then (if leb (length pkt) (off + 1) || ltb 16 (hops + 1) then some false else followed)
    else if ltb 63 b || ltb (length pkt) (off + 1 + b)
    then some false
    else next

unfoldable pub name_equals : Bytes → ℕ → Bytes → Option Bool
name_equals pkt off name = name_loop (17 * suc (length pkt) + 1) pkt 0 off name

-- The offset behind the name, 0 on malformed input; `none` is a loop that fuel has cut.
unfoldable pub skip_loop : ℕ → Bytes → ℕ → Option ℕ
skip_loop zero pkt off = none
skip_loop (suc fuel) pkt off =
    let b = get_or pkt off 0 in
    let next = skip_loop fuel pkt (off + 1 + b) in
    if leb (length pkt) off
    then some 0
    else if b == 0
    then some (off + 1)
    else if bit_and b 0xC0 == 0xC0
    then some (off + 2)
    else if ltb 63 b || ltb (length pkt) (off + 1 + b)
    then some 0
    else next

unfoldable pub skip_name : Bytes → ℕ → Option ℕ
skip_name pkt off = skip_loop (suc (length pkt)) pkt off

pub record WantSet : Type 0 where
  pub want_a : Bool
  pub want_ptr : Bool
  pub want_srv : Bool
  pub want_txt : Bool
  pub unicast : Bool

unfoldable pub is_name : Bytes → ℕ → Bytes → Bool
is_name pkt off name = elim (name_equals pkt off name) as (λ _. Bool) [
  | none ↦ false
  | some answer ↦ answer
]

-- (uint16_t)((pkt[off] << 8) | pkt[off + 1])
unfoldable pub read_u16 : Bytes → ℕ → ℕ
read_u16 pkt off = bit_or (get_or pkt off 0 * 2 ^ 8) (get_or pkt (off + 1) 0) % 2 ^ 16

-- One question, its name at `off`, with its type and whether it asks for a unicast reply.
unfoldable pub question : MdnsConfig → Bytes → ℕ → ℕ → Bool → WantSet → WantSet
question cfg pkt off qtype qu w =
    let any = qtype == 255 in
    let a = any || qtype == 1 in
    let ptr = any || qtype == 12 in
    let srv = any || qtype == 33 in
    let txt = any || qtype == 16 in
    if is_name pkt off cfg.host
    then record w { want_a = a || w.want_a; unicast = (a && qu) || w.unicast }
    else if is_name pkt off service_type
    then record w { want_ptr = ptr || w.want_ptr; unicast = (ptr && qu) || w.unicast }
    else if is_name pkt off cfg.fqdn
    then record w {
      want_srv = srv || w.want_srv;
      want_txt = txt || w.want_txt;
      unicast = ((srv || txt) && qu) || w.unicast;
    }
    else w

-- The loop over `count` questions.
unfoldable pub question_loop : MdnsConfig → Bytes → ℕ → ℕ → WantSet → WantSet
question_loop cfg pkt zero off w = w
question_loop cfg pkt (suc count) off w =
    let after = (elim (skip_name pkt off) as (λ _. ℕ) [ none ↦ 0 | some n ↦ n ]) in
    let qtype = read_u16 pkt after in
    let qu = leb 0x8000 (read_u16 pkt (after + 2)) in
    let rest = question_loop cfg pkt count (after + 4) (question cfg pkt off qtype qu w) in
    if leb (length pkt) off || after == 0 || ltb (length pkt) (after + 4) then w else rest

unfoldable pub scan_questions : MdnsConfig → Bytes → WantSet → WantSet
scan_questions cfg pkt w =
    if ltb (length pkt) 12 then w else question_loop cfg pkt (read_u16 pkt 4) 12 w
