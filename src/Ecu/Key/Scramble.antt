-- ===== src/Ecu/Key/Scramble.antt =====
-- The key of internal/ecu/auth.go in plain arithmetic: a shift register over 16 bits.
use rover_mems_ecu.Base.{
  ℕ, zero, suc, ◌+◌, ◌*◌, ◌/◌, ◌%◌, ◌^◌, ◌<◌, ◌≡◌, refl, sym, ap, ◌∙◌, ◌==◌, ◌&&◌, ltb,
  if◌then◌else◌, bit_and, bit_or, bit_xor, bit_and_step, bit_and-one, bit_and-ones, bit_or-one,
  bit_or-pow, arith,
}
use rover_mems_ecu.Ecu.Key.{bit, rounds, scramble, scramble_loop, generate_key}

-- Digit `n` of a number.
abbrev pub digit : ℕ → ℕ → ℕ
digit n x = x / 2 ^ n % 2

bit-digit : (n x : ℕ) → bit n x ≡ digit n x
unfolding bit
bit-digit n x = bit_and-one (x / 2 ^ n)

-- One round: all digits move down by one, the lowest is 0 exactly if digits 13 and 3 were set, and
-- the highest is the parity of digits 9, 8, 2 and 1.
abbrev pub shifted : ℕ → ℕ
shifted x =
    x / 4 * 2
    + (if digit 13 x == 1 && digit 3 x == 1 then 0 else 1)
    + (digit 9 x + digit 8 x + digit 2 x + digit 1 x) % 2 * 32768

-- `n` rounds.
abbrev pub register : ℕ → ℕ → ℕ
register zero x = x
register (suc n) x = register n (shifted x)

xor_digits : (a b : ℕ) → a < 2 → b < 2 → bit_xor a b ≡ (a + b) % 2
xor_digits zero zero p q = refl
xor_digits zero (suc zero) p q = refl
xor_digits (suc zero) zero p q = refl
xor_digits (suc zero) (suc zero) p q = refl
xor_digits (suc (suc a)) b p q = absurd (omega arith)
xor_digits zero (suc (suc b)) p q = absurd (omega arith)
xor_digits (suc zero) (suc (suc b)) p q = absurd (omega arith)

xors-parity :
    (a b c d : ℕ)
    → a < 2
    → b < 2
    → c < 2
    → d < 2
    → bit_xor (bit_xor (bit_xor a b) c) d ≡ (a + b + c + d) % 2
xors-parity a b c d p q r s =
    rw (xor_digits a b p q, xor_digits ((a + b) % 2) c (omega arith) r)
      (xor_digits (((a + b) % 2 + c) % 2) d (omega arith) s ∙ omega arith)

clear_low : (k : ℕ) → k < 32768 → bit_and k 0b11111111111111110 ≡ k / 2 * 2
clear_low k h = omega (arith, bit_and_step k 0b11111111111111110, bit_and-ones 16 (k / 2))

lowest :
    (x a b : ℕ)
    → x < 65536
    → (if ltb 0 (a % 2) && ltb 0 (b % 2)
        then bit_and (x / 2) 0b11111111111111110
        else bit_or (x / 2) 1)
      ≡ x / 4 * 2 + (if a % 2 == 1 && b % 2 == 1 then 0 else 1)
lowest x a b h = ground (arith, clear_low (x / 2), bit_or-one (x / 2))

highest :
    (key p : ℕ)
    → key < 32768
    → (if ltb 0 (p % 2) then bit_or key 0b1000000000000000 else key) ≡ key + p % 2 * 32768
highest key p h = ground (arith, bit_or-pow 15 key)

-- A round of the code is a round of the register, on a 16-bit number.
pub scramble-shifted : (x : ℕ) → x < 65536 → scramble x ≡ shifted x
unfolding scramble
scramble-shifted x h =
    let low : ℕ = if digit 13 x == 1 && digit 3 x == 1 then 0 else 1 in
    let p : ℕ = digit 9 x + digit 8 x + digit 2 x + digit 1 x in
    simp (bit_and-one) (
      rw (lowest x (x / 2 ^ 13) (x / 2 ^ 3) h) (
        rw
          (xors-parity (digit 9 x) (digit 8 x) (digit 2 x) (digit 1 x) (omega arith) (omega arith)
            (omega arith) (omega arith))
          (highest (x / 4 * 2 + low) p (ground arith))))

shifted-lt : (x : ℕ) → x < 65536 → shifted x < 65536
shifted-lt x h = ground arith

abbrev pub round_count : ℕ → ℕ
round_count seed = 1 + digit 15 seed * 8 + digit 7 seed * 4 + digit 4 seed * 2 + digit 0 seed

rounds-round_count : (seed : ℕ) → rounds seed ≡ round_count seed
unfolding rounds
rounds-round_count seed = simp bit_and-one (ground arith)

generate_key-loop : (seed : ℕ) → generate_key seed ≡ scramble_loop (rounds seed) seed 0
unfolding generate_key
generate_key-loop seed = refl

scramble_loop-register :
    (n x key : ℕ) → x < 65536 → scramble_loop (suc n) x key ≡ register (suc n) x
unfolding scramble_loop
scramble_loop-register zero x key h = scramble-shifted x h
scramble_loop-register (suc n) x key h =
    scramble_loop-register n (scramble x) (scramble x)
      (omega (arith, shifted-lt x h, scramble-shifted x h))
    ∙ ap (register (suc n)) (scramble-shifted x h)

register-lt : (n x : ℕ) → x < 65536 → register n x < 65536
register-lt zero x h = h
register-lt (suc n) x h = register-lt n (shifted x) (shifted-lt x h)

-- The key of a 16-bit seed is the register after as many rounds, between 1 and 16, as the seed's
-- digits 15, 7, 4 and 0 say, and fits the two bytes in which it is sent.
pub generate_key-register :
    (seed : ℕ)
    → seed < 65536
    → (generate_key seed ≡ register (round_count seed) seed) × (generate_key seed < 65536)
generate_key-register seed h =
    let n : ℕ = digit 15 seed * 8 + digit 7 seed * 4 + digit 4 seed * 2 + digit 0 seed in
    let count : round_count seed ≡ suc n = omega arith in
    let key : generate_key seed ≡ register (round_count seed) seed =
      generate_key-loop seed
      ∙ ap (λ r. scramble_loop r seed 0) (rounds-round_count seed ∙ count)
      ∙ scramble_loop-register n seed 0 h
      ∙ ap (λ r. register r seed) (sym count) in
    (key, omega (arith, key, register-lt (round_count seed) seed h))
