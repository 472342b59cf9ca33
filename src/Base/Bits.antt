-- ===== src/Base/Bits.antt =====
-- Checking a claim at every value of a small range by evaluation, and what the bit operations do to
-- the lowest digit, with the masks that the code uses.
use Prim.Native.Nat.{
  ℕ, zero, suc, ◌+◌, ◌-◌, ◌*◌, ◌/◌, ◌%◌, ◌^◌, ◌≤◌, ◌<◌, min, max, bit_and, bit_or, digits,
  bit_and-bitwise, bit_or-bitwise,
}
use mathlib.Core.Path.{◌≡◌, refl, ap, ◌∙◌}
use mathlib.Core.Bool.{Bool, true, ◌&&◌}
use native.Mathlib.Nat.{pow-suc, div-add-mod, div-div-eq-div-mul, mul_comm}
use native.Mathlib.Omega.{arith}

unfoldable pub all_below : ℕ → (ℕ → Bool) → Bool
all_below zero test = true
all_below (suc bound) test = all_below bound test && test bound

pub all_below_sound :
    (bound : ℕ) (test : ℕ → Bool) (k : ℕ) → all_below bound test ≡ true → k < bound → test k ≡ true
unfolding all_below
all_below_sound zero test k passes below = absurd (omega arith)
all_below_sound (suc bound) test k passes below = ground (arith, all_below_sound bound test k)

-- The digits do not depend on the count of rounds, once it reaches the first number.
digits_rounds :
    (z : ℕ → ℕ) (f : ℕ → ℕ → ℕ) (n m a b : ℕ) → a ≤ n → a ≤ m → digits z f n a b ≡ digits z f m a b
digits_rounds z f zero zero a b p q = refl
digits_rounds z f zero (suc m) zero b p q = refl
digits_rounds z f zero (suc m) (suc a) b p q = absurd (omega arith)
digits_rounds z f (suc n) zero zero b p q = refl
digits_rounds z f (suc n) zero (suc a) b p q = absurd (omega arith)
digits_rounds z f (suc n) (suc m) zero b p q = refl
digits_rounds z f (suc n) (suc m) (suc a) b p q =
    ap (λ (t : ℕ). t * 2 + f (suc a % 2) (b % 2))
      (digits_rounds z f n m (suc a / 2) (b / 2) (omega arith) (omega arith))

pub bit_and_step : (x y : ℕ) → bit_and x y ≡ bit_and (x / 2) (y / 2) * 2 + min (x % 2) (y % 2)
bit_and_step zero y = omega (arith, bit_and-bitwise 0 y, bit_and-bitwise 0 (y / 2))
bit_and_step (suc x) y = omega (
  arith,
  bit_and-bitwise (suc x) y,
  bit_and-bitwise (suc x / 2) (y / 2),
  digits_rounds (λ b. zero) min x (suc x / 2) (suc x / 2) (y / 2) (omega arith) (omega arith),
)

pub bit_or_step : (x y : ℕ) → bit_or x y ≡ bit_or (x / 2) (y / 2) * 2 + max (x % 2) (y % 2)
bit_or_step zero y = omega (arith, bit_or-bitwise 0 y, bit_or-bitwise 0 (y / 2))
bit_or_step (suc x) y = omega (
  arith,
  bit_or-bitwise (suc x) y,
  bit_or-bitwise (suc x / 2) (y / 2),
  digits_rounds (λ b. b) max x (suc x / 2) (suc x / 2) (y / 2) (omega arith) (omega arith),
)

bit_or-zero_rounds : (n a : ℕ) → a ≤ n → bit_or a 0 ≡ a
bit_or-zero_rounds n zero h = refl
bit_or-zero_rounds zero (suc a) h = absurd (omega arith)
bit_or-zero_rounds (suc n) (suc a) h =
    omega (arith, bit_or_step (suc a) 0, bit_or-zero_rounds n (suc a / 2) (omega arith))

pub bit_or-zero : (a : ℕ) → bit_or a 0 ≡ a
bit_or-zero a = bit_or-zero_rounds a a (omega arith)

pub bit_or-one : (a : ℕ) → bit_or a 1 ≡ a / 2 * 2 + 1
bit_or-one a = omega (arith, bit_or_step a 1, bit_or-zero (a / 2))

pow_pos : (k : ℕ) → 0 < 2 ^ k
pow_pos zero = omega arith
pow_pos (suc k) = omega (arith, pow-suc 2 k, pow_pos k)

mod_double : (a m : ℕ) → a % (m * 2) ≡ a / 2 % m * 2 + a % 2
mod_double a m = omega (
  arith,
  div-add-mod a (m * 2),
  div-add-mod (a / 2) m,
  ap (λ (q : ℕ). m * 2 * q) (div-div-eq-div-mul a 2 m),
  ap (λ (q : ℕ). m * 2 * (a / q)) (mul_comm 2 m),
)

-- Setting a bit above all those that are set adds its weight.
pub bit_or-pow : (k a : ℕ) → a < 2 ^ k → bit_or a (2 ^ k) ≡ a + 2 ^ k
bit_or-pow zero zero h = refl
bit_or-pow zero (suc a) h = absurd (omega arith)
bit_or-pow (suc k) a h =
    let double : 2 ^ suc k ≡ 2 ^ k * 2 = pow-suc 2 k in
    let half : 2 ^ suc k / 2 ≡ 2 ^ k = omega (arith, double) in
    let inner : bit_or (a / 2) (2 ^ suc k / 2) ≡ a / 2 + 2 ^ k =
      ap (bit_or (a / 2)) half ∙ bit_or-pow k (a / 2) (omega (arith, double)) in
    omega (arith, double, half, inner, bit_or_step a (2 ^ suc k))

bit_and-zero_rounds : (n a : ℕ) → a ≤ n → bit_and a 0 ≡ 0
bit_and-zero_rounds n zero h = refl
bit_and-zero_rounds zero (suc a) h = absurd (omega arith)
bit_and-zero_rounds (suc n) (suc a) h =
    omega (arith, bit_and_step (suc a) 0, bit_and-zero_rounds n (suc a / 2) (omega arith))

pub bit_and-zero : (a : ℕ) → bit_and a 0 ≡ 0
bit_and-zero a = bit_and-zero_rounds a a (omega arith)

pub bit_and-one : (x : ℕ) → bit_and x 1 ≡ x % 2
bit_and-one x = omega (arith, bit_and-zero (x / 2), bit_and_step x 1)

-- A mask of `k` ones keeps the lowest `k` digits.
pub bit_and-ones : (k a : ℕ) → bit_and a (2 ^ k - 1) ≡ a % 2 ^ k
bit_and-ones zero a = omega (arith, bit_and-zero a)
bit_and-ones (suc k) a =
    let double : 2 ^ suc k ≡ 2 ^ k * 2 = pow-suc 2 k in
    let positive : 0 < 2 ^ k = pow_pos k in
    let half : (2 ^ suc k - 1) / 2 ≡ 2 ^ k - 1 = omega (arith, double, positive) in
    let inner : bit_and (a / 2) ((2 ^ suc k - 1) / 2) ≡ a / 2 % 2 ^ k =
      ap (bit_and (a / 2)) half ∙ bit_and-ones k (a / 2) in
    let split : a % (2 ^ k * 2) ≡ a / 2 % 2 ^ k * 2 + a % 2 = mod_double a (2 ^ k) in
    omega (
      arith,
      double,
      positive,
      inner,
      ap (λ (t : ℕ). a % t) double,
      split,
      bit_and_step a (2 ^ suc k - 1),
    )
