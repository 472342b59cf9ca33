-- ===== src/Ecu/Reading.antt =====
-- The float32 values of `State.Data`. A value is kept as the operations by which the code computes
-- it, so every claim about one holds of any rounding.
use rover_mems_ecu.Base.{ℕ, List, String, ℤ, pos}

-- The float64 values of the simulated ECU.
pub data Float64 : Type 0 where
  -- The constant `n / 10 ^ k`, and `float64(n)`.
  decimal : ℤ → ℕ → Float64
  plus minus times over : Float64 → Float64 → Float64
  sin abs : Float64 → Float64
  -- What a `rand.Float64()` gives in a round, by its place in the code.
  random : ℕ → ℕ → Float64

pub data Float32 : Type 0 where
  -- `float32(n)` of an integer, and an integer constant.
  of_int : ℤ → Float32
  -- The decimal constant `n / 10`.
  tenths : ℕ → Float32
  -- `float32(x)`.
  of_float64 : Float64 → Float32
  add sub mul div : Float32 → Float32 → Float32

abbrev pub of_nat : ℕ → Float32
of_nat n = of_int (pos n)

-- `map[string]float32`.
abbrev pub DataMap : Type 0
DataMap = List (String × Float32)
