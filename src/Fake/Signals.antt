-- ===== src/Fake/Signals.antt =====
-- internal/ecu/fake/fake.go: the signals of the simulated ECU and its readings. The order of float64 values
-- is the argument `less`.
use rover_mems_ecu.Base.{ℕ, ◌+◌, ◌%◌, String, pos, negsuc, Bool, List, [], ◌∷◌, if◌then◌else◌}
use rover_mems_ecu.Ecu.Reading.{
  Float64, decimal, plus, minus, times, over, sin, abs, random, Float32, of_float64, of_nat,
}

abbrev pub whole : ℕ → Float64
whole n = decimal (pos n) 0

abbrev pub tenth : ℕ → Float64
tenth n = decimal (pos n) 1

-- `rand.Float64() - 0.5`.
abbrev pub centred : ℕ → ℕ → Float64
centred t i = minus (random t i) (tenth 5)

-- `math.Sin(t/period) * height`.
abbrev pub wave : ℕ → ℕ → Float64 → Float64
wave t period height = times (sin (over (whole t) (whole period))) height

-- `boolToFloat`.
abbrev pub bool_to_float : Bool → Float32
bool_to_float b = if b then of_nat 1 else of_nat 0

-- The variables of `ReadData` from round to round.
pub record Simulation : Type 0 where
  pub coolant : Float64
  pub oil_temp : Float64
  pub rpm : Float64
  pub tick : ℕ

abbrev pub start : Simulation
start = record {
  coolant = decimal (negsuc 9) 0;
  oil_temp = decimal (negsuc 4) 0;
  rpm = whole 1200;
  tick = 0;
}

-- What the readings of a round are computed from.
pub record Round : Type 0 where
  pub tick : ℕ
  pub coolant : Float64
  pub oil_temp : Float64
  pub target_rpm : Float64
  pub rpm : Float64

abbrev pub throttle_pot : ℕ → Float64
throttle_pot t =
    plus (plus (decimal (pos 8) 2) (wave t 120 (decimal (pos 2) 2)))
      (times (random t 5) (decimal (pos 1) 2))

abbrev pub lambda_mv : ℕ → Float64
lambda_mv t = plus (plus (whole 450) (wave t 4 (whole 180))) (times (centred t 6) (whole 30))

abbrev pub short_trim : ℕ → Float64
short_trim t = plus (plus (whole 50) (wave t 5 (whole 8))) (times (centred t 10) (whole 2))

abbrev pub battery : ℕ → Float64
battery t = plus (plus (tenth 141) (wave t 200 (tenth 3))) (times (centred t 7) (decimal (pos 5) 2))

abbrev pub intake_air_temp : ℕ → Float64
intake_air_temp t = plus (plus (tenth 180) (wave t 400 (whole 3))) (times (centred t 12) (tenth 5))

-- `3 + (rpm/1000)*0.8 + rand.Float64()*0.2`.
abbrev pub injector_pw : Round → ℕ → Float64
injector_pw r i =
    plus (plus (whole 3) (times (over r.rpm (whole 1000)) (tenth 8)))
      (times (random r.tick i) (tenth 2))

module _ (less : Float64 → Float64 → Bool) where
  unfoldable pub clamp : Float64 → Float64 → Float64 → Float64
  clamp v lo hi = if less v lo then lo else (if less hi v then hi else v)

  unfoldable pub next_coolant : ℕ → Float64 → Float64
  next_coolant t coolant =
      if less coolant (whole 88)
      then plus coolant (plus (decimal (pos 8) 2) (times (random t 0) (decimal (pos 2) 2)))
      else clamp (plus coolant (times (centred t 1) (tenth 4))) (whole 85) (whole 95)

  unfoldable pub target : ℕ → Float64 → Float64
  target t coolant =
      let base =
        if less coolant (whole 60)
        then plus (whole 1100) (times (minus (whole 60) coolant) (whole 7))
        else whole 800 in
      plus base (plus (wave t 30 (whole 15)) (times (centred t 3) (whole 20)))

  -- The top of the loop, up to `rpm += …`.
  unfoldable pub begin_round : Simulation → Round
  begin_round s =
      let t = s.tick + 1 in
      let coolant = next_coolant t s.coolant in
      let warmed = plus s.oil_temp (times (minus coolant s.oil_temp) (decimal (pos 3) 3)) in
      let target_rpm = target t coolant in
      record {
        tick = t;
        coolant = coolant;
        oil_temp = plus warmed (times (centred t 2) (tenth 3));
        target_rpm = target_rpm;
        rpm = plus s.rpm (times (minus target_rpm s.rpm) (decimal (pos 5) 2));
      }

  unfoldable pub map_kpa : Round → Float64
  map_kpa r =
      clamp
        (plus
          (plus (minus (whole 98) (times (minus r.rpm (whole 800)) (decimal (pos 15) 3)))
            (wave r.tick 8 (whole 2)))
          (times (centred r.tick 4) (tenth 15)))
        (whole 30) (whole 105)

  unfoldable pub ignition_advance : Round → Float64
  ignition_advance r =
      plus
        (if less (whole 60) r.coolant
          then plus (whole 15) (times (minus r.coolant (whole 60)) (tenth 1))
          else whole 10)
        (wave r.tick 20 (tenth 15))

  unfoldable pub idle_valve : Round → Float64
  idle_valve r =
      clamp
        (plus (plus (whole 60) (times (minus r.target_rpm (whole 800)) (decimal (pos 4) 2)))
          (times (centred r.tick 8) (whole 3)))
        (whole 20) (whole 160)

  -- The statements `f.state.Data[name] = …`, in their order.
  unfoldable pub readings : Round → List (String × Float32)
  readings r =
      let t = r.tick in
      ("rpm", of_float64 r.rpm)
      ∷ ("coolant_temp", of_float64 r.coolant)
      ∷ ("oil_temp", of_float64 r.oil_temp)
      ∷ ("intake_air_temp", of_float64 (intake_air_temp t))
      ∷ ("ambient_temp", of_float64 (plus (tenth 170) (times (centred t 13) (tenth 2))))
      ∷ ("fuel_rail_temp", of_float64 (plus (times r.coolant (tenth 7)) (whole 10)))
      ∷ ("map_sensor_kpa", of_float64 (map_kpa r))
      ∷ ("battery_voltage", of_float64 (battery t))
      ∷ ("throttle_pot_voltage", of_float64 (throttle_pot t))
      ∷ ("throttle_angle", of_float64 (times (throttle_pot t) (whole 90)))
      ∷ ("lambda_mv", of_float64 (lambda_mv t))
      ∷ ("lambda_sensor_frequency", of_float64 (plus (whole 8) (times (random t 15) (whole 2))))
      ∷ ("lambda_sensor_duty_cycle", of_float64 (plus (whole 50) (wave t 4 (whole 15))))
      ∷ ("lambda_sensor_status", of_nat 1)
      ∷ (
        "long_term_trim",
        of_float64 (plus (plus (whole 128) (wave t 300 (whole 4))) (times (centred t 9) (tenth 5))),
      )
      ∷ ("short_term_trim_percent", of_float64 (short_trim t))
      ∷ (
        "carbon_can_purge_valve_duty_cycle",
        of_float64 (plus (whole 5) (times (random t 16) (whole 3))),
      )
      ∷ ("closed_loop", bool_to_float (less (whole 50) r.coolant))
      ∷ ("ignition_advance", of_float64 (ignition_advance r))
      ∷ ("ignition_advance_offset", of_float64 (whole 0))
      ∷ (
        "coil_time_microseconds",
        of_float64
            (plus (plus (whole 2800) (wave t 15 (whole 100))) (times (centred t 11) (whole 50))),
      )
      ∷ ("coil_1_charge_time", of_float64 (plus (tenth 28) (times (random t 17) (tenth 1))))
      ∷ ("coil_2_charge_time", of_float64 (plus (tenth 28) (times (random t 18) (tenth 1))))
      ∷ ("idle_valve_position", of_float64 (idle_valve r))
      ∷ ("idle_setpoint", of_float64 r.target_rpm)
      ∷ ("idle_speed_deviation", of_float64 (minus r.rpm r.target_rpm))
      ∷ ("idle_error", of_float64 (abs (minus r.rpm r.target_rpm)))
      ∷ ("idle_base_position", of_float64 (plus (whole 55) (times (centred t 19) (whole 2))))
      ∷ ("idle_timing_offset", of_float64 (wave t 40 (whole 2)))
      ∷ ("idle_adjuster_rpm", of_float64 (plus r.target_rpm (times (centred t 20) (whole 10))))
      ∷ ("vehicle_speed", of_nat 0)
      ∷ ("crank_counter", of_nat (t % 256))
      ∷ ("cam_percent", of_float64 (plus (whole 50) (wave t 60 (whole 5))))
      ∷ ("rpm_error", of_float64 (minus r.rpm r.target_rpm))
      ∷ ("primary_trigger_sync", of_nat 1)
      ∷ ("secondary_trigger_sync", of_nat 1)
      ∷ ("fan_1_control", bool_to_float (less (whole 92) r.coolant))
      ∷ ("fan_2_control", of_nat 0)
      ∷ ("lambda_heater_relay", bool_to_float (less (whole 30) r.coolant))
      ∷ ("idle_switch", bool_to_float (less (throttle_pot t) (decimal (pos 12) 2)))
      ∷ ("ignition_switch", of_nat 1)
      ∷ ("ignition", of_nat 1)
      ∷ ("park_or_neutral_switch", of_nat 0)
      ∷ ("throttle_switch", bool_to_float (less (throttle_pot t) (decimal (pos 12) 2)))
      ∷ ("ac_button", of_nat 0)
      ∷ ("injector_1_pw", of_float64 (injector_pw r 21))
      ∷ ("injector_2_pw", of_float64 (injector_pw r 22))
      ∷ ("injector_3_pw", of_float64 (injector_pw r 23))
      ∷ ("injector_4_pw", of_float64 (injector_pw r 24))
      ∷ ("injector_1_4_driver", of_nat 1)
      ∷ ("injector_2_3_driver", of_nat 1)
      ∷ ("estimate_air_fuel", of_float64 (plus (tenth 142) (wave t 4 (tenth 4))))
      ∷ ("o2_mv", of_float64 (lambda_mv t))
      ∷ ("fuelling_feedback_percent", of_float64 (short_trim t))
      ∷ []
