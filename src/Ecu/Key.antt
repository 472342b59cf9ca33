-- ===== src/Ecu/Key.antt =====
-- internal/ecu/auth.go: the security-access key that MEMS 2J and MEMS 3 compute from the seed.
pub mod Scramble
use rover_mems_ecu.Base.{
  ℕ, zero, suc, ◌+◌, ◌/◌, ◌%◌, ◌^◌, ltb, ◌&&◌, if◌then◌else◌, bit_and, bit_or, bit_xor,
}

-- `(theByte >> bitNum) & 1`.
pub bit : ℕ → ℕ → ℕ
bit bit_num the_byte = bit_and (the_byte / 2 ^ bit_num) 1

-- `loops`, before the loop.
pub rounds : ℕ → ℕ
unfolding bit
rounds seed =
    1
    + (if ltb 0 (bit 15 seed) then 8 else 0)
    + (if ltb 0 (bit 7 seed) then 4 else 0)
    + (if ltb 0 (bit 4 seed) then 2 else 0)
    + (if ltb 0 (bit 0 seed) then 1 else 0)

-- The body of the loop, which leaves `seed = key`.
pub scramble : ℕ → ℕ
unfolding bit
scramble seed =
    let key = seed / 2 in
    let key' =
      if ltb 0 (bit 13 seed) && ltb 0 (bit 3 seed)
      then bit_and key 0b11111111111111110
      else bit_or key 0b0000000000000001 in
    let xors = bit_xor (bit_xor (bit_xor (bit 9 seed) (bit 8 seed)) (bit 2 seed)) (bit 1 seed) in
    if ltb 0 xors then bit_or key' 0b1000000000000000 else key'

-- `for loops > 0`: `seed` and `key` are the same number after each round.
pub scramble_loop : ℕ → ℕ → ℕ → ℕ
scramble_loop zero seed key = key
scramble_loop (suc loops) seed key = scramble_loop loops (scramble seed) (scramble seed)

pub generate_key : ℕ → ℕ
unfolding rounds scramble scramble_loop
generate_key seed = scramble_loop (rounds seed) seed 0
