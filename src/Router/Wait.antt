-- ===== src/Router/Wait.antt =====
-- `http_server_wait_ms` of source/core/http_router.c: the slices of a wait.
use sys_autopilot.Base.{
  ℕ, zero, suc, ◌+◌, ◌-◌, ◌≤◌, ◌<◌, ◌≡◌, refl, Bool, true, false, List, [], ◌∷◌, All, arith, ltb,
  if◌then◌else◌,
}
use sys_autopilot.Router.{wait_slices, http_server_wait_ms}

abbrev pub total : List ℕ → ℕ
total [] = 0
total (x ∷ xs) = x + total xs

-- A slice is at most half a second and not empty.
abbrev pub IsSlice : ℕ → Type 0
IsSlice n = (0 < n) × (n ≤ 500)

-- All the time on a yes; less than it when the idle hook refused.
abbrev pub Slept : ℕ → Bool × List ℕ → Type 0
Slept ms (true, slices) = (total slices ≡ ms) × All IsSlice slices
Slept ms (false, slices) = (total slices < ms) × All IsSlice slices

Slept-cons :
    (ms slice : ℕ) (r : Bool × List ℕ)
    → IsSlice slice
    → slice ≤ ms
    → Slept (ms - slice) r
    → Slept ms (r.0, slice ∷ r.1)
Slept-cons ms slice (true, slices) i le h = (omega (arith, h.0), (i, h.1))
Slept-cons ms slice (false, slices) i le h = (omega (arith, h.0), (i, h.1))

abbrev slice_of : ℕ → ℕ
slice_of ms = if ltb ms 500 then ms else 500

slice_of_lem : (ms : ℕ) → IsSlice (slice_of (suc ms)) × (slice_of (suc ms) ≤ suc ms)
slice_of_lem ms = ground arith

wait_slices-Slept :
    (fuel ms : ℕ) (agrees : List Bool) → ms ≤ fuel → Slept ms (wait_slices fuel ms agrees)
unfolding wait_slices
wait_slices-Slept fuel zero agrees h = (refl, tt)
wait_slices-Slept zero (suc ms) agrees h = absurd (omega arith)
wait_slices-Slept (suc fuel) (suc ms) [] h =
    let (i, le) = slice_of_lem ms in
    Slept-cons (suc ms) (slice_of (suc ms)) _ i le
      (wait_slices-Slept fuel (suc ms - slice_of (suc ms)) [] (omega (arith, i)))
wait_slices-Slept (suc fuel) (suc ms) (true ∷ agrees) h =
    let (i, le) = slice_of_lem ms in
    Slept-cons (suc ms) (slice_of (suc ms)) _ i le
      (wait_slices-Slept fuel (suc ms - slice_of (suc ms)) agrees (omega (arith, i)))
wait_slices-Slept (suc fuel) (suc ms) (false ∷ agrees) h = (omega arith, tt)

-- A wait that returns true has slept exactly the milliseconds asked for, one that returns false,
-- which takes a refusal of the idle hook, less; no sleep is empty or longer than half a second.
pub http_server_wait_ms-Slept :
    (ms : ℕ) (agrees : List Bool) → Slept ms (http_server_wait_ms ms agrees)
unfolding http_server_wait_ms
http_server_wait_ms-Slept ms agrees = wait_slices-Slept ms ms agrees (omega arith)
