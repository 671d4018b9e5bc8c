-- ===== src/Mdns/Response.antt =====
-- The packets that source/core/mdns.c answers and announces with.
pub mod Bounds
use sys_autopilot.Base.{
  ℕ, zero, suc, ◌+◌, bit_and, Bool, true, false, not, ◌&&◌, ◌||◌, Option, none, some, [], ◌∷◌,
  length, get_or, ltb, leb, ◌==◌, if◌then◌else◌,
}
use sys_autopilot.Base.Text.{Bytes}
use sys_autopilot.Mdns.Writer.{Writer, w_u16}
use sys_autopilot.Mdns.Record.{MdnsConfig, emit_a, emit_nsec, emit_ptr, emit_srv, emit_txt}
use sys_autopilot.Mdns.Query.{WantSet, scan_questions}

unfoldable pub w_response_header : Writer → ℕ → Writer
w_response_header w ancount = w_u16 (w_u16 (w_u16 (w_u16 (w_u16 (w_u16 w 0) 0x8400) 0) ancount) 0) 0

abbrev pub nothing_wanted : WantSet
nothing_wanted = record {
  want_a = false;
  want_ptr = false;
  want_srv = false;
  want_txt = false;
  unicast = false;
}

-- What is sent along with what was asked for.
unfoldable pub bundled : WantSet → WantSet
bundled w = record w {
  want_a = w.want_ptr || w.want_srv || w.want_a;
  want_srv = w.want_ptr || w.want_srv;
  want_txt = w.want_ptr || w.want_txt;
}

abbrev pub as_int : Bool → ℕ
as_int b = if b then 1 else 0

unfoldable pub ancount : WantSet → ℕ
ancount w =
    as_int w.want_a + as_int w.want_a + as_int w.want_ptr + as_int w.want_srv + as_int w.want_txt

-- The packet, empty when it does not fit.
unfoldable pub finished : Writer → Bytes
finished w = if w.ok then w.buf else []

unfoldable pub write_answers : Writer → MdnsConfig → WantSet → Writer
write_answers w cfg want =
    let ptr = (if want.want_ptr then emit_ptr w cfg else w) in
    let srv = (if want.want_srv then emit_srv ptr cfg else ptr) in
    let txt = (if want.want_txt then emit_txt srv cfg else srv) in
    if want.want_a then emit_nsec (emit_a txt cfg) cfg else txt

-- The writer behind all answers, whether they fitted or not.
unfoldable pub response : MdnsConfig → WantSet → ℕ → Writer
response cfg want out_cap =
    let start : Writer = record { cap = out_cap; buf = []; ok = true } in
    write_answers (w_response_header start (ancount want)) cfg want

unfoldable pub announcement : MdnsConfig → ℕ → Writer
announcement cfg out_cap =
    let w = w_response_header (record { cap = out_cap; buf = []; ok = true }) 5 in
    emit_nsec (emit_a (emit_txt (emit_srv (emit_ptr w cfg) cfg) cfg) cfg) cfg

-- The reply, and whether it goes to the sender.
unfoldable pub mdns_build_response : MdnsConfig → Bytes → ℕ → Bytes × Bool
mdns_build_response cfg query out_cap =
    let asked = scan_questions cfg query nothing_wanted in
    let want = bundled asked in
    if ltb (length query) 12 || not (bit_and (get_or query 2 0) 0x80 == 0)
    then ([], false)
    else if ancount want == 0
    then ([], asked.unicast)
    else (finished (response cfg want out_cap), asked.unicast)

unfoldable pub mdns_build_announcement : MdnsConfig → ℕ → Bytes
mdns_build_announcement cfg out_cap = finished (announcement cfg out_cap)
