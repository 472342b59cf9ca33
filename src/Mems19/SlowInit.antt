-- ===== src/Mems19/SlowInit.antt =====
-- internal/ecu/mems19/mems19.go: `send5BaudWakeup`. Durations are in units of `bitTime`; what `Break`
-- says of a duration and a position is an argument.
pub mod Levels
use rover_mems_ecu.Base.{
  ℕ, zero, suc, ◌+◌, ◌/◌, ◌%◌, String, List, [], ◌∷◌, ◌++◌, Option, none, some, length, drop, ◌==◌,
  if◌then◌else◌,
}

-- The line is held low by `Break`, or idles high.
pub data Pulse : Type 0 where
  low high : ℕ → Pulse

-- "5-baud wake-up: break for %v at bit %d: %w".
pub record BreakError : Type 0 where
  pub duration : ℕ
  pub position : ℕ
  pub cause : String

abbrev pub ecu_address : ℕ
ecu_address = 0x16

-- `(ecuAddress>>i)&1` for the next bits.
abbrev pub low_bits : ℕ → ℕ → List ℕ
low_bits zero address = []
low_bits (suc n) address = (address % 2) ∷ low_bits n (address / 2)

abbrev pub frame : ℕ → List ℕ
frame address = 0 ∷ (low_bits 8 address ++ (1 ∷ []))

-- How far the run of a level goes on: the inner loop.
abbrev pub run_length : ℕ → List ℕ → ℕ
run_length level [] = 0
run_length level (b ∷ bs) = let rest = run_length level bs in if b == level then suc rest else 0

-- The outer loop from position `i` on, where these bits are left.
unfoldable pub send_runs : (ℕ → ℕ → Option String) → ℕ → ℕ → List ℕ → List Pulse × Option BreakError
send_runs breaks rounds i [] = ([], none)
send_runs breaks zero i (b ∷ bs) = ([], none)
send_runs breaks (suc rounds) i (b ∷ bs) =
    let more = run_length b bs in
    let d = suc more in
    let (pulses, failure) = send_runs breaks rounds (i + d) (drop more bs) in
    if b == 0
    then elim (breaks d i) [
      | some e ↦ (low d ∷ [], some (record { duration = d; position = i; cause = e }))
      | none ↦ (low d ∷ pulses, failure)
    ]
    else (high d ∷ pulses, failure)

-- The loop has at most one round for each bit.
unfoldable pub send_5_baud_wakeup : (ℕ → ℕ → Option String) → List Pulse × Option BreakError
send_5_baud_wakeup breaks = send_runs breaks (length (frame ecu_address)) 0 (frame ecu_address)
