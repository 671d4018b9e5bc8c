-- ===== src/Mdns/Query/Loops.antt =====
-- The loops of source/core/mdns.c that read a packet end, whatever the packet holds.
use sys_autopilot.Base.{
  ℕ, zero, suc, ◌+◌, ◌-◌, ◌*◌, ◌≤◌, ◌<◌, ◌≡◌, ◌⊎◌, refl, ◌∙◌, bit_and, Bool, false, ◌||◌, Option,
  some, length, take, drop, get_or, ltb, leb, ◌==◌, arith, Bool-cases, Option-cases, inl, inr,
}
use sys_autopilot.Base.Text.{Bytes}
use sys_autopilot.Mdns.Query.{next_segment, pointer, name_loop, name_equals, skip_loop, skip_name}

abbrev Ends {ℓ} : {A : Type ℓ} → Option A → Type ℓ
Ends {A = A} o = (a : A) × (o ≡ some a)

module _ (fuel : ℕ) (pkt : Bytes) (hops off : ℕ) (seg : Bytes) where
  -- What a round does: it ends the loop, follows a pointer, or goes on behind a label.
  name_loop_step :
      Ends (name_loop (suc fuel) pkt hops off seg)
      ⊎ ((hops < 16)
          × (name_loop (suc fuel) pkt hops off seg
              ≡ name_loop fuel pkt (hops + 1) (pointer pkt off) seg))
      ⊎ ((rest : Bytes) × (off + 1 + get_or pkt off 0 ≤ length pkt)
          × (name_loop (suc fuel) pkt hops off seg
              ≡ name_loop fuel pkt hops (off + 1 + get_or pkt off 0) rest))
  unfolding name_loop
  name_loop_step = elim (Bool-cases (leb (length pkt) off)) [
    | inl past ↦ inl (false, rw past refl)
    | inr inside ↦ elim (Bool-cases (get_or pkt off 0 == 0)) [
      | inl end ↦ inl (length seg == 0, rw (inside, end) refl)
      | inr more ↦ elim (Bool-cases (bit_and (get_or pkt off 0) 0xC0 == 0xC0)) [
        | inl jump ↦ elim (Bool-cases (leb (length pkt) (off + 1) || ltb 16 (hops + 1))) [
          | inl bad ↦ inl (false, rw (inside, more, jump, bad) refl)
          | inr good ↦ inr (inl (ground (arith, good), rw (inside, more, jump, good) refl))
        ]
        | inr label ↦
            elim (Bool-cases
              (ltb 63 (get_or pkt off 0) || ltb (length pkt) (off + 1 + get_or pkt off 0))) [
                | inl bad ↦ inl (false, rw (inside, more, label, bad) refl)
                | inr good ↦
                    elim (Option-cases
                      (next_segment (take (get_or pkt off 0) (drop (off + 1) pkt)) seg)) [
                        | inl e ↦ inl (false, rw (inside, more, label, good) (rw e refl))
                        | inr (rest, e) ↦ inr (
                            inr (
                              rest,
                              ground (arith, good),
                              rw (inside, more, label, good) (rw e refl),
                            ))
                      ]
              ]
      ]
    ]
  ]

suc-mul : (n k : ℕ) → suc n * k ≡ n * k + k
suc-mul n k = omega arith

-- `left` pointers may still be followed; each gives up to the packet's length of rounds.
name_loop-Ends :
    (fuel left : ℕ) (pkt : Bytes) (hops off : ℕ) (seg : Bytes)
    → left + hops ≡ 16
    → left * suc (length pkt) + (length pkt - off) < fuel
    → Ends (name_loop fuel pkt hops off seg)
name_loop-Ends zero left pkt hops off seg h room = absurd (omega (arith, room))
name_loop-Ends (suc fuel) zero pkt hops off seg h room =
    elim (name_loop_step fuel pkt hops off seg) [
      | inl ended ↦ ended
      | inr (inl (few, e)) ↦ absurd (omega (arith, h, few))
      | inr (inr (rest, fits, e)) ↦
          rw e (name_loop-Ends fuel zero pkt hops _ rest h (omega (arith, room, fits)))
    ]
name_loop-Ends (suc fuel) (suc left) pkt hops off seg h room =
    elim (name_loop_step fuel pkt hops off seg) [
      | inl ended ↦ ended
      | inr (inl (few, e)) ↦ rw e (
          name_loop-Ends fuel left pkt (hops + 1) (pointer pkt off) seg (omega (arith, h))
            (omega (arith, room, suc-mul left (suc (length pkt)))))
      | inr (inr (rest, fits, e)) ↦ rw e (
          name_loop-Ends fuel (suc left) pkt hops _ rest h
            (omega (arith, room, fits, suc-mul left (suc (length pkt)))))
    ]

-- The comparison of a name with one in a packet ends with an answer, also where compression pointers
-- form a cycle.
pub name_equals-Ends :
    (pkt : Bytes) (off : ℕ) (name : Bytes)
    → (answer : Bool) × (name_equals pkt off name ≡ some answer)
unfolding name_equals
name_equals-Ends pkt off name = name_loop-Ends _ 16 pkt 0 off name (omega arith) (omega arith)

module _ (fuel : ℕ) (pkt : Bytes) (off : ℕ) where
  skip_loop_step :
      (skip_loop (suc fuel) pkt off ≡ some 0)
      ⊎ (((n : ℕ) × (skip_loop (suc fuel) pkt off ≡ some n) × (off < n) × (n ≤ length pkt + 1))
          ⊎ ((off + 1 + get_or pkt off 0 ≤ length pkt)
              × (skip_loop (suc fuel) pkt off ≡ skip_loop fuel pkt (off + 1 + get_or pkt off 0))))
  unfolding skip_loop
  skip_loop_step = elim (Bool-cases (leb (length pkt) off)) [
    | inl past ↦ inl (rw past refl)
    | inr inside ↦ elim (Bool-cases (get_or pkt off 0 == 0)) [
      | inl end ↦ inr (inl (off + 1, rw (inside, end) refl, omega arith, ground (arith, inside)))
      | inr more ↦ elim (Bool-cases (bit_and (get_or pkt off 0) 0xC0 == 0xC0)) [
        | inl jump ↦
            inr (inl (off + 2, rw (inside, more, jump) refl, omega arith, ground (arith, inside)))
        | inr label ↦
            elim (Bool-cases
              (ltb 63 (get_or pkt off 0) || ltb (length pkt) (off + 1 + get_or pkt off 0))) [
                | inl bad ↦ inl (rw (inside, more, label, bad) refl)
                | inr good ↦ inr (inr (ground (arith, good), rw (inside, more, label, good) refl))
              ]
      ]
    ]
  ]

abbrev Skipped : Bytes → ℕ → Option ℕ → Type 0
Skipped pkt off o = (n : ℕ) × (o ≡ some n) × ((n ≡ 0) ⊎ ((off < n) × (n ≤ length pkt + 1)))

skip_loop-Skipped :
    (fuel : ℕ) (pkt : Bytes) (off : ℕ)
    → length pkt - off < fuel
    → Skipped pkt off (skip_loop fuel pkt off)
skip_loop-Skipped zero pkt off room = absurd (omega (arith, room))
skip_loop-Skipped (suc fuel) pkt off room = elim (skip_loop_step fuel pkt off) [
  | inl malformed ↦ (0, malformed, inl refl)
  | inr (inl (n, e, past, inside)) ↦ (n, e, inr (past, inside))
  | inr (inr (fits, e)) ↦
      later fits e
        (skip_loop-Skipped fuel pkt (off + 1 + get_or pkt off 0) (omega (arith, room, fits)))
]
  where
    later :
        off + 1 + get_or pkt off 0 ≤ length pkt
        → skip_loop (suc fuel) pkt off ≡ skip_loop fuel pkt (off + 1 + get_or pkt off 0)
        → Skipped pkt (off + 1 + get_or pkt off 0) (skip_loop fuel pkt (off + 1 + get_or pkt off 0))
        → Skipped pkt off (skip_loop (suc fuel) pkt off)
    later fits e (n, f, inl bad) = (n, e ∙ f, inl bad)
    later fits e (n, f, inr (past, inside)) = (n, e ∙ f, inr (omega (arith, past), inside))

-- Skipping a name ends, and either reports malformed input or moves forward to an offset that is at
-- most one byte past the packet's end.
pub skip_name-Skipped :
    (pkt : Bytes) (off : ℕ)
    → (n : ℕ) × (skip_name pkt off ≡ some n) × ((n ≡ 0) ⊎ ((off < n) × (n ≤ length pkt + 1)))
unfolding skip_name
skip_name-Skipped pkt off = skip_loop-Skipped _ pkt off (omega arith)
