-- ===== src/Examples/Fakes.antt =====
-- A concrete run of internal/ecu/fake/fake.go.
use rover_mems_ecu.Base.{Bool, false}
use rover_mems_ecu.Ecu.Reading.{Float64}

-- Nothing is less than anything.
abbrev less : Float64 → Float64 → Bool
less x y = false
