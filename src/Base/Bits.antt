-- ===== src/Base/Bits.antt =====
-- `|` of disjoint fields, `&` with a low mask, and `^` as a test, as arithmetic.
use Prim.Native.Nat.{
  ℕ, zero, suc, ◌+◌, ◌-◌, ◌*◌, ◌/◌, ◌%◌, ◌^◌, ◌≤◌, ◌<◌, min, max, bit_and, bit_or, digits,
  bit_and-bitwise, bit_or-bitwise, bit_xor, bit_xor-bitwise, differ,
}
use mathlib.Core.Path.{◌≡◌, ◌∙◌, refl, ap}
use native.Mathlib.Nat.{pow-suc, one-le-pow}
use native.Mathlib.Omega.{arith}

-- The native operations stand for `digits` with its first operand as the fuel. Fuel above that
-- operand changes nothing.
module _ (base : ℕ → ℕ) (op : ℕ → ℕ → ℕ) where
  digits_extra : (fuel x y : ℕ) → x ≤ fuel → digits base op (suc fuel) x y ≡ digits base op fuel x y
  digits_extra zero zero y le = refl
  digits_extra zero (suc x) y le = absurd (omega arith)
  digits_extra (suc fuel) zero y le = refl
  digits_extra (suc fuel) (suc x) y le =
      omega (arith, digits_extra fuel (suc x / 2) (y / 2) (omega arith))

  digits_surplus :
      (k fuel x y : ℕ) → x ≤ fuel → digits base op (k + fuel) x y ≡ digits base op fuel x y
  digits_surplus zero fuel x y le =
      let left : 0 + fuel ≡ fuel = omega arith in ap (λ (t : ℕ). digits base op t x y) left
  digits_surplus (suc k) fuel x y le =
      let next : suc k + fuel ≡ suc (k + fuel) = omega arith in
      ap (λ (t : ℕ). digits base op t x y) next
      ∙ digits_extra (k + fuel) x y (omega arith)
      ∙ digits_surplus k fuel x y le

  -- The fuel that a step leaves, against the half that it leaves.
  digits_half :
      (x y : ℕ) → digits base op x (suc x / 2) y ≡ digits base op (suc x / 2) (suc x / 2) y
  digits_half x y =
      let half = suc x / 2 in
      let split : x ≡ (x - half) + half = omega arith in
      ap (λ (fuel : ℕ). digits base op fuel half y) split
      ∙ digits_surplus (x - half) half half y (omega arith)

pub zero-bit_and : (y : ℕ) → bit_and 0 y ≡ 0
zero-bit_and y = bit_and-bitwise 0 y

pub zero-bit_or : (y : ℕ) → bit_or 0 y ≡ y
zero-bit_or y = bit_or-bitwise 0 y

-- The lowest bit, and the rest.
pub bit_and_step : (x y : ℕ) → bit_and x y ≡ min (x % 2) (y % 2) + 2 * bit_and (x / 2) (y / 2)
bit_and_step zero y = omega (arith, zero-bit_and (y / 2), zero-bit_and y)
bit_and_step (suc x) y =
    let half = digits_half (λ _. zero) min x (y / 2) in
    omega (arith, half, bit_and-bitwise (suc x / 2) (y / 2), bit_and-bitwise (suc x) y)

pub bit_or_step : (x y : ℕ) → bit_or x y ≡ max (x % 2) (y % 2) + 2 * bit_or (x / 2) (y / 2)
bit_or_step zero y = omega (arith, zero-bit_or (y / 2), zero-bit_or y)
bit_or_step (suc x) y =
    let half = digits_half (λ y. y) max x (y / 2) in
    omega (arith, half, bit_or-bitwise (suc x / 2) (y / 2), bit_or-bitwise (suc x) y)

bit_and-zero_upto : (bound x : ℕ) → x ≤ bound → bit_and x 0 ≡ 0
bit_and-zero_upto zero zero le = refl
bit_and-zero_upto zero (suc x) le = absurd (omega arith)
bit_and-zero_upto (suc bound) zero le = refl
bit_and-zero_upto (suc bound) (suc x) le =
    omega (arith, bit_and-zero_upto bound (suc x / 2) (omega arith), bit_and_step (suc x) 0)

pub bit_and-zero : (x : ℕ) → bit_and x 0 ≡ 0
bit_and-zero x = bit_and-zero_upto x x (omega arith)

bit_or-zero_upto : (bound x : ℕ) → x ≤ bound → bit_or x 0 ≡ x
bit_or-zero_upto bound zero le = refl
bit_or-zero_upto zero (suc x) le = absurd (omega arith)
bit_or-zero_upto (suc bound) (suc x) le =
    omega (arith, bit_or-zero_upto bound (suc x / 2) (omega arith), bit_or_step (suc x) 0)

pub bit_or-zero : (x : ℕ) → bit_or x 0 ≡ x
bit_or-zero x = bit_or-zero_upto x x (omega arith)

doubled_pow : (k high : ℕ) → 2 * (high * 2 ^ k) ≡ high * 2 ^ suc k
doubled_pow k high = omega (ap (λ (power : ℕ). high * power) (pow-suc 2 k), arith)

-- `(high << k) | low` is a sum where `low` has `k` bits.
pub bit_or_fields : (k high low : ℕ) → low < 2 ^ k → bit_or (high * 2 ^ k) low ≡ high * 2 ^ k + low
bit_or_fields zero high low lt = ground (bit_or-zero high, arith)
bit_or_fields (suc k) high low lt =
    let rest = bit_or_fields k high (low / 2) (omega (arith, pow-suc 2 k)) in
    ground (rest, doubled_pow k high, bit_or_step (high * 2 ^ suc k) low, pow-suc 2 k, arith)

-- `|` with zero result.
bit_or-eq-zero_below : (n a b : ℕ) → a ≤ n → bit_or a b ≡ 0 → (a ≡ 0) × (b ≡ 0)
bit_or-eq-zero_below n zero b h e = (refl, omega (arith, zero-bit_or b))
bit_or-eq-zero_below zero (suc a) b h e = absurd (omega arith)
bit_or-eq-zero_below (suc n) (suc a) b h e =
    let half =
      bit_or-eq-zero_below n (suc a / 2) (b / 2) (omega arith)
        (omega (arith, bit_or_step (suc a) b)) in
    (omega (arith, bit_or_step (suc a) b, half.0), omega (arith, bit_or_step (suc a) b, half.1))

pub bit_or-eq-zero : (a b : ℕ) → bit_or a b ≡ 0 → (a ≡ 0) × (b ≡ 0)
bit_or-eq-zero a b e = bit_or-eq-zero_below a a b (omega arith) e

pub bit_and_one : (x : ℕ) → bit_and x 1 ≡ x % 2
bit_and_one x = omega (arith, bit_and-zero (x / 2), bit_and_step x 1)

pub bit_and_three : (a : ℕ) → bit_and a 3 ≡ a % 4
bit_and_three a = omega (arith, bit_and_step a 3, bit_and_one (a / 2))

pub bit_and_fifteen : (a : ℕ) → bit_and a 15 ≡ a % 16
bit_and_fifteen a =
    omega (arith, bit_and_step a 15, bit_and_step (a / 2) 7, bit_and_three (a / 2 / 2))

pub bit_and_63 : (a : ℕ) → bit_and a 63 ≡ a % 64
bit_and_63 a =
    omega (arith, bit_and_step a 63, bit_and_step (a / 2) 31, bit_and_fifteen (a / 2 / 2))

pub bit_and_255 : (a : ℕ) → bit_and a 255 ≡ a % 256
bit_and_255 a = omega (arith, bit_and_step a 255, bit_and_step (a / 2) 127, bit_and_63 (a / 2 / 2))

pub zero-bit_xor : (y : ℕ) → bit_xor 0 y ≡ y
zero-bit_xor y = bit_xor-bitwise 0 y

pub bit_xor_step : (x y : ℕ) → bit_xor x y ≡ differ (x % 2) (y % 2) + 2 * bit_xor (x / 2) (y / 2)
bit_xor_step zero y = omega (arith, zero-bit_xor (y / 2), zero-bit_xor y)
bit_xor_step (suc x) y =
    let half = digits_half (λ y. y) differ x (y / 2) in
    omega (arith, half, bit_xor-bitwise (suc x / 2) (y / 2), bit_xor-bitwise (suc x) y)

differ-eq-zero : (x y : ℕ) → differ x y ≡ 0 → x ≡ y
differ-eq-zero zero y e = omega (arith, e)
differ-eq-zero (suc x) zero e = absurd (omega (arith, e))
differ-eq-zero (suc x) (suc y) e = ap suc (differ-eq-zero x y e)

differ_self : (x : ℕ) → differ x x ≡ 0
differ_self zero = refl
differ_self (suc x) = differ_self x

bit_xor-eq-zero_below : (n a b : ℕ) → a ≤ n → bit_xor a b ≡ 0 → a ≡ b
bit_xor-eq-zero_below n zero b h e = omega (arith, zero-bit_xor b)
bit_xor-eq-zero_below zero (suc a) b h e = absurd (omega arith)
bit_xor-eq-zero_below (suc n) (suc a) b h e = omega (
  arith,
  bit_xor-eq-zero_below n (suc a / 2) (b / 2) (omega arith) (omega (arith, bit_xor_step (suc a) b)),
  differ-eq-zero (suc a % 2) (b % 2) (omega (arith, bit_xor_step (suc a) b)),
)

-- `^` is zero on equal numbers alone.
pub bit_xor-eq-zero : (a b : ℕ) → bit_xor a b ≡ 0 → a ≡ b
bit_xor-eq-zero a b e = bit_xor-eq-zero_below a a b (omega arith) e

bit_xor_self_below : (n a : ℕ) → a ≤ n → bit_xor a a ≡ 0
bit_xor_self_below n zero h = refl
bit_xor_self_below zero (suc a) h = absurd (omega arith)
bit_xor_self_below (suc n) (suc a) h = omega (
  arith,
  bit_xor_step (suc a) (suc a),
  bit_xor_self_below n (suc a / 2) (omega arith),
  differ_self (suc a % 2),
)

pub bit_xor_self : (a : ℕ) → bit_xor a a ≡ 0
bit_xor_self a = bit_xor_self_below a a (omega arith)

bit_xor-lt_pow : (k a b : ℕ) → a < 2 ^ k → b < 2 ^ k → bit_xor a b < 2 ^ k
bit_xor-lt_pow zero a b p q = omega (arith, ap (λ (t : ℕ). bit_xor t b) zero_left, zero-bit_xor b)
  where
    zero_left : a ≡ 0
    zero_left = omega arith
bit_xor-lt_pow (suc k) a b p q = omega (
  arith,
  pow-suc 2 k,
  bit_xor_step a b,
  bit_xor-lt_pow k (a / 2) (b / 2) (omega (arith, pow-suc 2 k)) (omega (arith, pow-suc 2 k)),
  differ-le (a % 2) (b % 2) (omega arith) (omega arith),
)
  where
    differ-le : (x y : ℕ) → x ≤ 1 → y ≤ 1 → differ x y ≤ 1
    differ-le zero y s t = t
    differ-le (suc x) zero s t = s
    differ-le (suc zero) (suc y) s t = omega arith
    differ-le (suc (suc x)) (suc y) s t = absurd (omega arith)

-- `^` of two bytes is a byte.
pub bit_xor_byte : (a b : ℕ) → a < 256 → b < 256 → bit_xor a b < 256
bit_xor_byte a b p q = bit_xor-lt_pow 8 a b p q

low_mask_suc : (k : ℕ) → (2 ^ suc k - 1) / 2 ≡ 2 ^ k - 1
low_mask_suc k = omega (arith, pow-suc 2 k, one-le-pow k 2)

-- A mask of `k` ones keeps a number of `k` bits.
pub bit_and_ones : (k a : ℕ) → a < 2 ^ k → bit_and a (2 ^ k - 1) ≡ a
bit_and_ones zero a h = omega (arith, bit_and-zero a)
bit_and_ones (suc k) a h = omega (
  arith,
  bit_and_step a (2 ^ suc k - 1),
  ap (λ (t : ℕ). bit_and (a / 2) t) (low_mask_suc k),
  bit_and_ones k (a / 2) (omega (arith, pow-suc 2 k)),
  pow-suc 2 k,
  one-le-pow k 2,
)

-- `a & ~(size_t)15`
pub bit_and_not_15 : (a : ℕ) → a < 2 ^ 64 → bit_and a (2 ^ 64 - 16) ≡ a / 16 * 16
bit_and_not_15 a h = omega (
  arith,
  bit_and_step a (2 ^ 64 - 16),
  bit_and_step (a / 2) (2 ^ 63 - 8),
  bit_and_step (a / 2 / 2) (2 ^ 62 - 4),
  bit_and_step (a / 2 / 2 / 2) (2 ^ 61 - 2),
  bit_and_ones 60 (a / 2 / 2 / 2 / 2) (omega arith),
)
