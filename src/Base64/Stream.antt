-- ===== src/Base64/Stream.antt =====
-- The streaming decoder of source/util/base64.c over a whole input: chunks, errors, output size.
use sys_autopilot.Base.{
  ℕ, ◌+◌, ◌-◌, ◌^◌, ◌%◌, bit_or, All, All-append, ◌*◌, ◌/◌, ◌≤◌, ◌≡◌, refl, sym, ap, ◌∙◌, inl, inr,
  ◌↔◌, true, false, Option, none, some, [], ◌∷◌, ◌++◌, append_assoc, length, length-append,
  Option-cases, Bool-cases, arith,
}
use sys_autopilot.Base.Bits.{bit_and_255}
use sys_autopilot.Base.Text.{Bytes, IsByte}
use sys_autopilot.Base64.{
  B64Decoder, b64dec_init, b64_val, take_char, take_symbol, behind, update_loop, b64dec_update,
  b64_decode,
}

-- The state and output after `b`, given what came of the input before it.
abbrev pub resume : B64Decoder × Option Bytes → Bytes → B64Decoder × Option Bytes
resume (d, none) b = (d, none)
resume (d, some out) b = behind out (b64dec_update d b)

pub take_char_keeps :
    (d : B64Decoder) (c : ℕ) {d' : B64Decoder} {out : Bytes}
    → take_char d c ≡ some (d', out)
    → (d'.err ≡ d.err) × (8 * length out + d'.bits ≤ d.bits + 6)
unfolding take_char take_symbol b64_val
take_char_keeps d c e = ground arith

behind-behind :
    (a b : Bytes) (r : B64Decoder × Option Bytes) → behind a (behind b r) ≡ behind (a ++ b) r
behind-behind a b (d, none) = refl
behind-behind a b (d, some out) = ap (λ (o : Bytes). (d, some o)) (sym (append_assoc a b out))

resume-behind :
    (out : Bytes) (r : B64Decoder × Option Bytes) (b : Bytes)
    → resume (behind out r) b ≡ behind out (resume r b)
resume-behind out (d, none) b = refl
resume-behind out (d, some more) b = sym (behind-behind out more (b64dec_update d b))

behind-nil : (r : B64Decoder × Option Bytes) → behind [] r ≡ r
behind-nil (d, none) = refl
behind-nil (d, some out) = refl

update_loop-nil : (d : B64Decoder) → update_loop d [] ≡ (d, some [])
unfolding update_loop
update_loop-nil d = refl

pub update_loop_stop :
    (d : B64Decoder) (c : ℕ) (cs : Bytes)
    → take_char d c ≡ none
    → update_loop d (c ∷ cs) ≡ (record d { err = true }, none)
unfolding update_loop
update_loop_stop d c cs e = rw (e, update_loop)

pub update_loop_next :
    (d : B64Decoder) (c : ℕ) (cs : Bytes) {d' : B64Decoder} {out : Bytes}
    → take_char d c ≡ some (d', out)
    → update_loop d (c ∷ cs) ≡ behind out (update_loop d' cs)
unfolding update_loop
update_loop_next d c cs e = rw (e, update_loop)

update_stopped : (d : B64Decoder) (cs : Bytes) → d.err ≡ true → b64dec_update d cs ≡ (d, none)
unfolding b64dec_update
update_stopped d cs h = simp h

pub update_going :
    (d : B64Decoder) (cs : Bytes) → d.err ≡ false → b64dec_update d cs ≡ update_loop d cs
unfolding b64dec_update
update_going d cs h = simp h

update_loop-append :
    (a b : Bytes) (d : B64Decoder)
    → d.err ≡ false
    → update_loop d (a ++ b) ≡ resume (update_loop d a) b
update_loop-append [] b d h = rw (update_loop-nil d) (rw (update_going d b h) (sym (behind-nil _)))
update_loop-append (c ∷ a) b d h = elim (Option-cases (take_char d c)) [
  | inl e ↦ rw (update_loop_stop d c (a ++ b) e) (rw (update_loop_stop d c a e))
  | inr ((d', out), e) ↦
      let rest = update_loop-append a b d' ((take_char_keeps d c e).0 ∙ h) in
      rw (update_loop_next d c (a ++ b) e) (
        rw (update_loop_next d c a e)
          (ap (behind out) rest ∙ sym (resume-behind out (update_loop d' a) b)))
]

-- Decoding a text in two calls gives what one call gives: the outputs in order, the same state,
-- and -1 from whichever call meets the error.
pub b64dec_update-append :
    (d : B64Decoder) (a b : Bytes) → b64dec_update d (a ++ b) ≡ resume (b64dec_update d a) b
b64dec_update-append d a b = elim (Bool-cases d.err) [
  | inl failed ↦ simp (update_stopped d (a ++ b) failed, update_stopped d a failed)
  | inr going ↦
      simp (update_going d (a ++ b) going, update_going d a going) (update_loop-append a b d going)
]

pub update_loop_fails :
    (cs : Bytes) (d : B64Decoder)
    → d.err ≡ false
    → ((update_loop d cs).1 ≡ none) ↔ ((update_loop d cs).0.err ≡ true)
update_loop_fails [] d h = unfold update_loop in ground (arith, h)
update_loop_fails (c ∷ cs) d h = elim (Option-cases (take_char d c)) [
  | inl e ↦ rw (update_loop_stop d c cs e) (λ _. refl, λ _. refl)
  | inr ((d', out), e) ↦
      let rest = update_loop_fails cs d' ((take_char_keeps d c e).0 ∙ h) in
      rw (update_loop_next d c cs e) (ground (arith, rest))
]

-- An update returns -1 exactly when it leaves the decoder in its error state.
pub b64dec_update_fails :
    (d : B64Decoder) (cs : Bytes)
    → ((b64dec_update d cs).1 ≡ none) ↔ ((b64dec_update d cs).0.err ≡ true)
b64dec_update_fails d cs = elim (Bool-cases d.err) [
  | inl failed ↦ simp (update_stopped d cs failed) (λ _. failed, λ _. refl)
  | inr going ↦ simp (update_going d cs going) (update_loop_fails cs d going)
]

length-update_loop :
    (cs : Bytes) (d : B64Decoder) (out : Bytes)
    → (update_loop d cs).1 ≡ some out
    → 8 * length out + (update_loop d cs).0.bits ≤ 6 * length cs + d.bits
length-update_loop [] d out = unfold update_loop in λ e. ground arith
length-update_loop (c ∷ cs) d out = elim (Option-cases (take_char d c)) [
  | inl e ↦ rw (update_loop_stop d c cs e) (λ p. cc)
  | inr ((d', one), e) ↦ rw (update_loop_next d c cs e) (λ p.
      elim (Option-cases (update_loop d' cs).1) [
        | inl failed ↦ ground (arith, failed, p)
        | inr (more, q) ↦ ground (
          arith,
          p,
          q,
          take_char_keeps d c e,
          length-update_loop cs d' more q,
          length-append one more,
        )
      ])
]

-- The bits of the output and those left in the state are at most six for each character read, on
-- top of those held before.
pub length-b64dec_update :
    (d : B64Decoder) (cs out : Bytes)
    → (b64dec_update d cs).1 ≡ some out
    → 8 * length out + (b64dec_update d cs).0.bits ≤ 6 * length cs + d.bits
length-b64dec_update d cs out = elim (Bool-cases d.err) [
  | inl failed ↦ simp (update_stopped d cs failed) (λ e. cc)
  | inr going ↦ simp (update_going d cs going) (length-update_loop cs d out)
]

-- `b64_decode` never writes past `outsz`: what it returns leaves room for the terminator.
pub length-b64_decode :
    (cs out : Bytes) (outsz : ℕ) → b64_decode cs outsz ≡ some out → length out + 1 ≤ outsz
unfolding b64_decode
length-b64_decode cs out outsz e = ground (arith, length-b64dec_update b64dec_init cs out)

-- The bytes of the output are bytes.
abbrev AllBytes : Option Bytes → Type 0
AllBytes none = Unit
AllBytes (some out) = All IsByte out

take_symbol-IsByte : (d : B64Decoder) (v : ℕ) → All IsByte (take_symbol d v).1
unfolding take_symbol
take_symbol-IsByte d v =
    ground (arith, bit_and_255 (bit_or (d.acc * 2 ^ 6 % 2 ^ 32) v / 2 ^ (d.bits + 6 - 8)))

take_char-IsByte :
    (d : B64Decoder) (c : ℕ) (d' : B64Decoder) (out : Bytes)
    → take_char d c ≡ some (d', out)
    → All IsByte out
unfolding take_char
take_char-IsByte d c d' out e = elim (Option-cases (b64_val c)) [
  | inl other ↦ ground (arith, other)
  | inr (v, known) ↦ ground (arith, known, take_symbol-IsByte d v)
]

AllBytes-behind :
    (out : Bytes) (r : B64Decoder × Option Bytes)
    → All IsByte out
    → AllBytes r.1
    → AllBytes (behind out r).1
AllBytes-behind out (d, none) h k = tt
AllBytes-behind out (d, some more) h k = All-append IsByte out more h k

update_loop-AllBytes : (cs : Bytes) (d : B64Decoder) → AllBytes (update_loop d cs).1
update_loop-AllBytes [] d = unfold update_loop in tt
update_loop-AllBytes (c ∷ cs) d = elim (Option-cases (take_char d c)) [
  | inl e ↦ rw (update_loop_stop d c cs e) tt
  | inr ((d', out), e) ↦ rw (update_loop_next d c cs e) (
      AllBytes-behind out (update_loop d' cs) (take_char-IsByte d c d' out e)
        (update_loop-AllBytes cs d'))
]

pub b64_decode-IsByte :
    (cs out : Bytes) (outsz : ℕ) → b64_decode cs outsz ≡ some out → All IsByte out
unfolding b64_decode
b64_decode-IsByte cs out outsz e =
    let bytes : AllBytes (b64dec_update b64dec_init cs).1 =
      rw (update_going b64dec_init cs refl) (update_loop-AllBytes cs b64dec_init) in
    ground (arith, bytes)
