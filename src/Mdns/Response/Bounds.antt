-- ===== src/Mdns/Response/Bounds.antt =====
-- The size of what source/core/mdns.c writes.
use sys_autopilot.Base.{
  ℕ, zero, suc, ◌+◌, ◌≤◌, ◌≡◌, refl, Bool, true, false, not, ◌||◌, get_or, bit_and, none, some, [],
  ◌∷◌, length, length-append, ◌-◌, ◌/◌, ◌%◌, ◌^◌, ◌<◌, ltb, ◌==◌, if◌then◌else◌, if_both, arith,
  Bool-cases, Option-cases, inl, inr,
}
use sys_autopilot.Base.Text.{Bytes}
use sys_autopilot.Mdns.Writer.{
  Writer, w_u8, w_u16, w_u32, w_bytes, split_dot, name_segments, w_name, w_rr_head, poke,
  w_rr_patch,
}
use sys_autopilot.Mdns.Record.{MdnsConfig, emit_a, emit_nsec, emit_ptr, emit_srv, emit_txt}
use sys_autopilot.Mdns.Query.{WantSet, scan_questions}
use sys_autopilot.Mdns.Response.{
  nothing_wanted, bundled, ancount, w_response_header, finished, write_answers, response,
  announcement, mdns_build_response, mdns_build_announcement,
}

length-poke :
    (bs : Bytes) (offset v : ℕ) → offset < length bs → length (poke bs offset v) ≡ length bs
unfolding poke
length-poke [] offset v h = absurd (omega (arith, h))
length-poke (b ∷ bs) zero v h = refl
length-poke (b ∷ bs) (suc offset) v h = omega (arith, length-poke bs offset v (omega (arith, h)))

-- A buffer of `cap` bytes that is not overrun, whether all was written to it or not.
abbrev pub Fits : ℕ → Writer → Type 0
Fits cap w = (length w.buf ≤ cap) × (w.cap ≡ cap)

module _ (cap : ℕ) where
  w_u8-Fits : (w : Writer) (v : ℕ) → Fits cap w → Fits cap (w_u8 w v)
  unfolding w_u8
  w_u8-Fits w v (h, n) =
      if_both (Fits cap) (not w.ok) (h, n)
        (elim (Bool-cases (ltb w.cap (length w.buf + 1))) [
          | inl full ↦ rw full ((h, n))
          | inr room ↦ rw room ((ground (arith, room, n, length-append w.buf (v ∷ [])), n))
        ])

  w_bytes-Fits : (w : Writer) (p : Bytes) → Fits cap w → Fits cap (w_bytes w p)
  unfolding w_bytes
  w_bytes-Fits w p (h, n) =
      if_both (Fits cap) (not w.ok) (h, n)
        (elim (Bool-cases (ltb w.cap (length w.buf + length p))) [
          | inl full ↦ rw full ((h, n))
          | inr room ↦ rw room ((ground (arith, room, n, length-append w.buf p), n))
        ])

  w_u16-Fits : (w : Writer) (v : ℕ) → Fits cap w → Fits cap (w_u16 w v)
  unfolding w_u16
  w_u16-Fits w v f = w_u8-Fits _ _ (w_u8-Fits w _ f)

  w_u32-Fits : (w : Writer) (v : ℕ) → Fits cap w → Fits cap (w_u32 w v)
  unfolding w_u32
  w_u32-Fits w v f = w_u8-Fits _ _ (w_u8-Fits _ _ (w_u8-Fits _ _ (w_u8-Fits w _ f)))

  module _ (fuel : ℕ) (w : Writer) (c : ℕ) (name : Bytes) where
    label_of : Bytes
    label_of = (split_dot (c ∷ name)).0

    labelled : Writer
    labelled = w_bytes (w_u8 w (length label_of)) label_of

    refused : Bool
    refused = length label_of == 0 || ltb 63 (length label_of)

    last_segment :
        (split_dot (c ∷ name)).1 ≡ none
        → name_segments (suc fuel) w (c ∷ name)
          ≡ (if refused then record w { ok = false } else w_u8 labelled 0)
    unfolding name_segments refused labelled label_of
    last_segment e = rw e refl

    more_segments :
        (rest : Bytes)
        → (split_dot (c ∷ name)).1 ≡ some rest
        → name_segments (suc fuel) w (c ∷ name)
          ≡ (if refused then record w { ok = false } else name_segments fuel labelled rest)
    unfolding name_segments refused labelled label_of
    more_segments rest e = rw e refl

    labelled-Fits : Fits cap w → Fits cap labelled
    unfolding labelled
    labelled-Fits f = w_bytes-Fits _ _ (w_u8-Fits w _ f)

  name_segments-Fits :
      (fuel : ℕ) (w : Writer) (name : Bytes) → Fits cap w → Fits cap (name_segments fuel w name)
  name_segments-Fits fuel w [] f = unfold name_segments in w_u8-Fits w 0 f
  name_segments-Fits zero w (c ∷ name) f = unfold name_segments in f
  name_segments-Fits (suc fuel) w (c ∷ name) f = elim (Option-cases (split_dot (c ∷ name)).1) [
    | inl e ↦
        rw (last_segment fuel w c name e)
          (if_both (Fits cap) _ f (w_u8-Fits _ 0 (labelled-Fits fuel w c name f)))
    | inr (rest, e) ↦
        rw (more_segments fuel w c name rest e)
          (if_both (Fits cap) _ f (name_segments-Fits fuel _ rest (labelled-Fits fuel w c name f)))
  ]

  w_name-Fits : (w : Writer) (name : Bytes) → Fits cap w → Fits cap (w_name w name)
  unfolding w_name
  w_name-Fits w name f = name_segments-Fits _ w name f

  w_rr_head-Fits :
      (w : Writer) (name : Bytes) (type class ttl : ℕ)
      → Fits cap w
      → Fits cap (w_rr_head w name type class ttl).0
  unfolding w_rr_head
  w_rr_head-Fits w name type class ttl f =
      w_u16-Fits _ _ (w_u32-Fits _ _ (w_u16-Fits _ _ (w_u16-Fits _ _ (w_name-Fits w name f))))

  w_rr_patch-Fits : (w : Writer) (offset : ℕ) → Fits cap w → Fits cap (w_rr_patch w offset)
  unfolding w_rr_patch
  w_rr_patch-Fits w offset (h, n) =
      elim (Bool-cases (not w.ok || ltb (length w.buf) (offset + 2))) [
        | inl kept ↦ rw kept ((h, n))
        | inr inside ↦
            let room : offset + 2 ≤ length w.buf = ground (arith, inside) in
            let first =
              length-poke w.buf offset ((length w.buf - (offset + 2)) % 2 ^ 16 / 2 ^ 8)
                (omega (arith, room)) in
            rw inside (
              (
                omega (
                  arith,
                  h,
                  first,
                  length-poke (poke w.buf offset ((length w.buf - (offset + 2)) % 2 ^ 16 / 2 ^ 8))
                      (offset + 1) ((length w.buf - (offset + 2)) % 2 ^ 16 % 256)
                      (omega (arith, room, first)),
                ),
                n,
              ))
      ]

  emit_a-Fits : (w : Writer) (cfg : MdnsConfig) → Fits cap w → Fits cap (emit_a w cfg)
  unfolding emit_a
  emit_a-Fits w cfg f = w_rr_patch-Fits _ _ (w_u32-Fits _ _ (w_rr_head-Fits w _ _ _ _ f))

  emit_nsec-Fits : (w : Writer) (cfg : MdnsConfig) → Fits cap w → Fits cap (emit_nsec w cfg)
  unfolding emit_nsec
  emit_nsec-Fits w cfg f =
      w_rr_patch-Fits _ _ (
        w_u8-Fits _ _
          (w_u8-Fits _ _ (w_u8-Fits _ _ (w_name-Fits _ _ (w_rr_head-Fits w _ _ _ _ f)))))

  emit_ptr-Fits : (w : Writer) (cfg : MdnsConfig) → Fits cap w → Fits cap (emit_ptr w cfg)
  unfolding emit_ptr
  emit_ptr-Fits w cfg f = w_rr_patch-Fits _ _ (w_name-Fits _ _ (w_rr_head-Fits w _ _ _ _ f))

  emit_srv-Fits : (w : Writer) (cfg : MdnsConfig) → Fits cap w → Fits cap (emit_srv w cfg)
  unfolding emit_srv
  emit_srv-Fits w cfg f = w_rr_patch-Fits _ _ (
      w_name-Fits _ _
        (w_u16-Fits _ _ (w_u16-Fits _ _ (w_u16-Fits _ _ (w_rr_head-Fits w _ _ _ _ f)))))

  emit_txt-Fits : (w : Writer) (cfg : MdnsConfig) → Fits cap w → Fits cap (emit_txt w cfg)
  unfolding emit_txt
  emit_txt-Fits w cfg f =
      let head = w_rr_head-Fits w cfg.fqdn 16 0x8001 4500 f in
      w_rr_patch-Fits _ _
        (if_both (Fits cap) (ltb 0 (length cfg.txt)) (w_bytes-Fits _ _ head) (w_u8-Fits _ 0 head))

  w_response_header-Fits :
      (w : Writer) (ancount : ℕ) → Fits cap w → Fits cap (w_response_header w ancount)
  unfolding w_response_header
  w_response_header-Fits w ancount f =
      w_u16-Fits _ _
        (w_u16-Fits _ _ (w_u16-Fits _ _ (w_u16-Fits _ _ (w_u16-Fits _ _ (w_u16-Fits w _ f)))))

  write_answers-Fits :
      (w : Writer) (cfg : MdnsConfig) (want : WantSet)
      → Fits cap w
      → Fits cap (write_answers w cfg want)
  unfolding write_answers
  write_answers-Fits w cfg want f =
      let ptr = if_both (Fits cap) want.want_ptr (emit_ptr-Fits w cfg f) f in
      let srv = if_both (Fits cap) want.want_srv (emit_srv-Fits _ cfg ptr) ptr in
      let txt = if_both (Fits cap) want.want_txt (emit_txt-Fits _ cfg srv) srv in
      if_both (Fits cap) want.want_a (emit_nsec-Fits _ cfg (emit_a-Fits _ cfg txt)) txt

finished-le : (cap : ℕ) (w : Writer) → Fits cap w → length (finished w) ≤ cap
unfolding finished
finished-le cap w (h, n) = if_both (λ (t : Bytes). length t ≤ cap) w.ok h (omega arith)

empty-Fits : (cap : ℕ) → Fits cap (record { cap = cap; buf = []; ok = true })
empty-Fits cap = (omega arith, refl)

response-Fits :
    (cfg : MdnsConfig) (want : WantSet) (out_cap : ℕ) → Fits out_cap (response cfg want out_cap)
unfolding response
response-Fits cfg want out_cap =
    write_answers-Fits out_cap _ cfg want
      (w_response_header-Fits out_cap _ (ancount want) (empty-Fits out_cap))

announcement-Fits : (cfg : MdnsConfig) (out_cap : ℕ) → Fits out_cap (announcement cfg out_cap)
unfolding announcement
announcement-Fits cfg out_cap = emit_nsec-Fits out_cap _ cfg (
    emit_a-Fits out_cap _ cfg (
      emit_txt-Fits out_cap _ cfg (
        emit_srv-Fits out_cap _ cfg
          (emit_ptr-Fits out_cap _ cfg (w_response_header-Fits out_cap _ 5 (empty-Fits out_cap))))))

reply-le :
    (cfg : MdnsConfig) (query : Bytes) (out_cap : ℕ)
    → length (mdns_build_response cfg query out_cap).0 ≤ out_cap
unfolding mdns_build_response
reply-le cfg query out_cap =
    if_both (λ (r : Bytes × Bool). length r.0 ≤ out_cap)
      (ltb (length query) 12 || not (bit_and (get_or query 2 0) 0x80 == 0)) (omega arith)
      (if_both (λ (r : Bytes × Bool). length r.0 ≤ out_cap) (ancount want == 0) (omega arith)
        (finished-le out_cap _ (response-Fits cfg want out_cap)))
  where
    want : WantSet
    want = bundled (scan_questions cfg query nothing_wanted)

-- Nothing that is written for a reply, whatever is asked for, or for an announcement passes the end of
-- the buffer, also where it turns out too small and the packet is given up; the reply to any packet at
-- all and the announcement, which are what was written or empty, are no longer than the buffer.
pub mdns_build_response-Fits :
    (cfg : MdnsConfig) (query : Bytes) (want : WantSet) (out_cap : ℕ)
    → (length (response cfg want out_cap).buf ≤ out_cap)
      × (length (announcement cfg out_cap).buf ≤ out_cap)
      × (length (mdns_build_response cfg query out_cap).0 ≤ out_cap)
      × (length (mdns_build_announcement cfg out_cap) ≤ out_cap)
mdns_build_response-Fits cfg query want out_cap =
    let sent = announcement-Fits cfg out_cap in
    (
      (response-Fits cfg want out_cap).0,
      sent.0,
      reply-le cfg query out_cap,
      unfold mdns_build_announcement in finished-le out_cap (announcement cfg out_cap) sent,
    )
