-- ===== src/Mems1x/Frames.antt =====
-- internal/ecu/mems1x/loop.go: `parseData80` and `parseData7D`. `none` is the panic of an index
-- beyond the slice.
pub mod Safety
use rover_mems_ecu.Base.{
  ℕ, ◌+◌, ◌*◌, ◌/◌, ◌^◌, String, Bool, not, List, [], ◌∷◌, ◌++◌, Option, none, some, length,
  get_elem?, get_or, bit_and, be16, ltb, ◌==◌, if◌then◌else◌,
}
use rover_mems_ecu.Ecu.Reading.{Float32, of_nat, sub, mul, div, tenths}
use rover_mems_ecu.Ecu.Log.{num, bytes}
use rover_mems_ecu.Ecu.State.{State, debug}
use rover_mems_ecu.Ecu.Fields.{Value, one, two, Guard, always, above, at_least, Field, write_fields}

-- `float32(data[i]) - 55`.
abbrev pub minus_55 : ℕ → Float32
minus_55 b = sub (of_nat b) (of_nat 55)

-- `float32((b >> k) & 1)`.
abbrev pub bit_of : ℕ → ℕ → Float32
bit_of k b = of_nat (bit_and (b / 2 ^ k) 1)

abbrev row : Guard → String → Value → Field
row g n v = record { guard = g; name = n; value = v }

abbrev pub basic_fields80 : List Field
basic_fields80 =
    row always "rpm" (two 1 2 (λ a b. of_nat (be16 a b)))
    ∷ row always "coolant_temp" (one 3 minus_55)
    ∷ row always "ambient_temp" (one 4 minus_55)
    ∷ row always "intake_air_temp" (one 5 minus_55)
    ∷ row always "fuel_rail_temp" (one 6 minus_55)
    ∷ row always "map_sensor_kpa" (one 7 of_nat)
    ∷ row always "battery_voltage" (one 8 (λ b. div (of_nat b) (of_nat 10)))
    ∷ row always "throttle_pot_voltage" (one 9 (λ b. div (of_nat b) (of_nat 50)))
    ∷ row always "idle_switch" (one 10 (λ b. of_nat (bit_and b 0x10 / 2 ^ 4)))
    ∷ row always "park_or_neutral_switch" (one 12 of_nat)
    ∷ []

abbrev pub trailing_fields80 : List Field
trailing_fields80 =
    row (above 15) "idle_setpoint" (one 15 (λ b. mul (of_nat b) (tenths 61)))
    ∷ row (above 16) "idle_hotdb" (one 16 of_nat)
    ∷ row (above 0x12) "idle_valve_position" (one 0x12 of_nat)
    ∷ row (above 0x14) "idle_speed_deviation" (two 0x13 0x14 (λ a b. of_nat (be16 a b)))
    ∷ row (above 0x15) "ignition_advance_offset" (one 0x15 of_nat)
    ∷ row (above 0x16) "ignition_advance_raw" (one 0x16 of_nat)
    ∷ row (above 0x16) "ignition_advance"
        (one 0x16 (λ b. sub (div (of_nat b) (of_nat 2)) (of_nat 24)))
    ∷ row (above 0x18) "coil_time_microseconds"
        (two 0x17 0x18 (λ a b. mul (of_nat (be16 a b)) (of_nat 2)))
    ∷ []

pub record FaultBit : Type 0 where
  pub offset : ℕ
  pub bit : ℕ
  pub name : String

abbrev fault : ℕ → ℕ → String → FaultBit
fault o b n = record { offset = o; bit = b; name = n }

abbrev pub fault_bits80 : List FaultBit
fault_bits80 =
    fault 0x0D 0 "fault_coolant_temp_sensor"
    ∷ fault 0x0D 1 "fault_inlet_air_temp_sensor"
    ∷ fault 0x0D 3 "fault_turbo_overboost"
    ∷ fault 0x0D 4 "fault_ambient_temp_sensor"
    ∷ fault 0x0D 5 "fault_fuel_rail_temp_sensor"
    ∷ fault 0x0D 6 "fault_knock_detected"
    ∷ fault 0x0E 0 "fault_coolant_temp_gauge"
    ∷ fault 0x0E 1 "fault_fuel_pump_circuit"
    ∷ fault 0x0E 3 "fault_air_con_clutch"
    ∷ fault 0x0E 4 "fault_purge_valve"
    ∷ fault 0x0E 5 "fault_map_sensor"
    ∷ fault 0x0E 6 "fault_boost_valve"
    ∷ fault 0x0E 7 "fault_throttle_pot_circuit"
    ∷ []

-- `if data[i] == v { faults = append(faults, name) }`. The slice has 15 bytes here.
pub sentinel : List ℕ → ℕ → ℕ → String → List String
sentinel payload i v name = if get_or payload i 0 == v then name ∷ [] else []

-- The loop over `faultBits80`: `data[f.offset]&(1<<f.bit) != 0`.
pub bit_faults : List ℕ → List FaultBit → List String
bit_faults payload [] = []
bit_faults payload (f ∷ fs) =
    (if not (bit_and (get_or payload f.offset 0) (2 ^ f.bit) == 0) then f.name ∷ [] else [])
    ++ bit_faults payload fs

pub faults80 : List ℕ → List String
unfolding sentinel bit_faults
faults80 payload =
    sentinel payload 3 59 "fault_coolant_temp_value"
    ++ (sentinel payload 4 200 "fault_ambient_temp_value"
        ++ (sentinel payload 5 35 "fault_intake_air_temp_value" ++ bit_faults payload fault_bits80))

-- `parseData80` behind `data = data[1:]` and `packetSize := int(data[0])`.
unfoldable pub decode80 : ℕ → List ℕ → State → Option State
unfolding faults80 write_fields
decode80 size payload s =
    if ltb (length payload) 15
    then some (
        debug
          (record {
            format = "data 0x80: short frame (packetSize=%d, got %d bytes) — skipping";
            args = num size ∷ num (length payload) ∷ [];
          })
          s)
    else elim (write_fields size payload (basic_fields80 ++ trailing_fields80) s.values) [
      | none ↦ none
      | some m ↦ some (record s { values = m; faults = faults80 payload })
    ]

unfoldable pub parse_data80 : List ℕ → State → Option State
unfolding decode80
parse_data80 (echo ∷ size ∷ rest) s = decode80 size (size ∷ rest) (
    debug
      (record {
        format = "data 0x80: %d bytes\n%s";
        args = num (length (echo ∷ size ∷ rest)) ∷ bytes (echo ∷ size ∷ rest) ∷ [];
      })
      s)
parse_data80 _ s = none

abbrev pub fields7d : List Field
fields7d =
    row always "ignition_switch" (one 1 of_nat)
    ∷ row always "throttle_angle" (one 2 (λ b. div (of_nat b) (of_nat 2)))
    ∷ row always "air_fuel_ratio" (one 4 of_nat)
    ∷ row always "lambda_heater_relay" (one 5 (bit_of 3))
    ∷ row always "secondary_trigger_sync" (one 5 (bit_of 4))
    ∷ row always "fan_1_control" (one 5 (bit_of 5))
    ∷ row always "fan_2_control" (one 5 (bit_of 7))
    ∷ row always "lambda_mv" (one 6 (λ b. mul (of_nat b) (of_nat 5)))
    ∷ row always "lambda_sensor_frequency" (one 7 of_nat)
    ∷ row always "lambda_sensor_duty_cycle" (one 8 of_nat)
    ∷ row always "lambda_sensor_status" (one 9 of_nat)
    ∷ row always "closed_loop" (one 10 (λ b. if ltb 0 b then of_nat 1 else of_nat 0))
    ∷ row always "long_term_trim" (one 11 of_nat)
    ∷ row always "short_term_trim_percent" (one 12 of_nat)
    ∷ row always "carbon_can_purge_valve_duty_cycle" (one 13 of_nat)
    ∷ row always "primary_trigger_sync" (one 0xE (bit_of 1))
    ∷ row (at_least 16) "idle_base_position" (one 15 of_nat)
    ∷ row (at_least 21) "idle_error" (one 20 of_nat)
    ∷ []

abbrev pub trailing_fields7d : List Field
trailing_fields7d =
    row (at_least 0x16) "injector_1_4_driver" (one 0x16 (bit_of 1))
    ∷ row (at_least 0x16) "injector_2_3_driver" (one 0x16 (bit_of 2))
    ∷ row (at_least 0x16) "fault_engine_bay_vent_warning" (one 0x16 (bit_of 3))
    ∷ row (at_least 0x16) "engine_bay_vent_relay" (one 0x16 (bit_of 4))
    ∷ row (at_least 0x16) "hill_assist" (one 0x16 (bit_of 5))
    ∷ row (at_least 0x16) "cruise_control" (one 0x16 (bit_of 6))
    ∷ row (at_least 0x1F) "crank_counter" (one 0x1F of_nat)
    ∷ []

unfoldable pub decode7d : ℕ → List ℕ → State → Option State
unfolding write_fields
decode7d size payload s =
    if ltb (length payload) 15
    then some (
        debug
          (record {
            format = "data 0x7D: short frame (packetSize=%d, got %d bytes) — skipping";
            args = num size ∷ num (length payload) ∷ [];
          })
          s)
    else elim (write_fields size payload (fields7d ++ trailing_fields7d) s.values) [
      | none ↦ none
      | some m ↦ some (record s { values = m })
    ]

unfoldable pub parse_data7d : List ℕ → State → Option State
unfolding decode7d
parse_data7d (echo ∷ size ∷ rest) s =
    decode7d size (size ∷ rest)
      (debug (record { format = "ECU 1.x data 7D: "; args = bytes (echo ∷ size ∷ rest) ∷ [] }) s)
parse_data7d _ s = none
