-- ===== src/Mems2j/Parse.antt =====
-- internal/ecu/mems2j/parse.go: `parseResponse`. `none` is the panic of an index beyond the slice.
pub mod Safety
use rover_mems_ecu.Base.{
  ℕ, ◌+◌, ◌-◌, ◌/◌, ◌^◌, String, ℤ, pos, sub_ℕ, Bool, true, ◌&&◌, List, [], ◌∷◌, Option, none, some,
  length, take, bit_and, be16, get_elem?, branch, leb, ltb, ◌==◌, if◌then◌else◌,
}
use rover_mems_ecu.Ecu.Reading.{Float32, of_int, of_nat, add, sub, mul, div}
use rover_mems_ecu.Ecu.Log.{num, bytes}
use rover_mems_ecu.Ecu.State.{State, debug, set_alert}
use rover_mems_ecu.Ecu.Key.{generate_key}
use rover_mems_ecu.Ecu.Fields.{Value, one, two, Field, always, write_fields}
use rover_mems_ecu.Mems2j.Commands.{
  Mems2j, log_debug, bytes_equal, guarded, woke_response, start_diag_response, seed_response,
  key_accept_response, pong_response, faults_cleared_response, response_learn_immo_command,
}
use rover_mems_ecu.Mems2j.Faults.{parse_faults}

-- One block `if len(actualData) >= n && bytes.Equal(actualData[0:2], …)` with its writes.
pub record DataPacket : Type 0 where
  pub min_length : ℕ
  pub pid : ℕ
  pub message : String
  pub fields : List Field

abbrev packet : ℕ → ℕ → String → List Field → DataPacket
packet n pid msg fs = record { min_length = n; pid = pid; message = msg; fields = fs }

abbrev field : String → Value → Field
field name v = record { guard = always; name = name; value = v }

-- `float32(v) - 2732`, `/= 10`.
abbrev pub kelvin : ℕ → ℕ → Float32
kelvin a b = div (sub (of_nat (be16 a b)) (of_nat 2732)) (of_nat 10)

-- `float32(v) / k`.
abbrev pub per : ℕ → ℕ → ℕ → Float32
per k a b = div (of_nat (be16 a b)) (of_nat k)

abbrev pub word : ℕ → ℕ → Float32
word a b = of_nat (be16 a b)

-- `rpmError`.
abbrev pub rpm_error : ℕ → ℕ → Float32
rpm_error a b = of_int (if ltb 32768 (be16 a b) then sub_ℕ (be16 a b) 65535 else pos (be16 a b))

-- `float32((b >> k) & 1)`, and `float32(1 - that)`, where the byte is not below 0.
abbrev pub bit_at : ℕ → ℕ → Float32
bit_at k b = of_nat (bit_and (b / 2 ^ k) 1)

abbrev pub inverted_bit : ℕ → ℕ → Float32
inverted_bit k b = of_nat (1 - bit_and (b / 2 ^ k) 1)

abbrev pub data_packets : List DataPacket
data_packets =
    packet 2 0x00 "got data packet 00" []
    ∷ packet 4 0x01 "got data packet 01" (field "coolant_temp" (two 2 3 kelvin) ∷ [])
    ∷ packet 4 0x02 "got data packet 02" (field "oil_temp" (two 2 3 kelvin) ∷ [])
    ∷ packet 4 0x03 "got data packet 03" (field "intake_air_temp" (two 2 3 kelvin) ∷ [])
    ∷ packet 4 0x05 "got data packet 05" (field "fuel_temp" (two 2 3 word) ∷ [])
    ∷ packet 2 0x06 "got data packet 06" []
    ∷ packet 4 0x07 "got data packet 07" (field "map_sensor_kpa" (two 2 3 (per 100)) ∷ [])
    ∷ packet 4 0x08 "got data packet 08" (field "tps_degrees" (two 2 3 (per 100)) ∷ [])
    ∷ packet 4 0x09 "got data packet 09" (field "rpm" (two 2 3 word) ∷ [])
    ∷ packet 6 0x0A "got data packet 0A" (
        field "fuelling_feedback_percent" (two 2 3 (per 100))
        ∷ field "o2_mv" (two 4 5 word)
        ∷ field "estimate_air_fuel"
            (two 4 5 (λ a b. add (mul (per 1000 a b) (of_nat 2)) (of_nat 10)))
        ∷ [])
    ∷ packet 4 0x0B "got data packet 0B" (
        field "coil_1_charge_time" (one 2 (λ b. div (of_nat b) (of_nat 1000)))
        ∷ field "coil_2_charge_time" (one 3 (λ b. div (of_nat b) (of_nat 1000)))
        ∷ [])
    ∷ packet 6 0x0C "got data packet 0C" (
        field "injector_1_pw" (one 2 of_nat)
        ∷ field "injector_2_pw" (one 3 of_nat)
        ∷ field "injector_3_pw" (one 4 of_nat)
        ∷ field "injector_4_pw" (one 5 of_nat)
        ∷ [])
    ∷ packet 3 0x0D "got data packet 0D" (field "vehicle_speed" (one 2 of_nat) ∷ [])
    ∷ packet 3 0x0F "got data packet 0F" (
        field "throttle_switch" (one 2 (bit_at 0))
        ∷ field "ignition" (one 2 (bit_at 1))
        ∷ field "ac_button" (one 2 (bit_at 3))
        ∷ [])
    ∷ packet 6 0x10 "got data packet 10" (field "battery_voltage" (two 4 5 (per 1000)) ∷ [])
    ∷ packet 3 0x11 "got data packet 11" (
        field "primary_trigger_sync" (one 2 (inverted_bit 0))
        ∷ field "secondary_trigger_sync" (one 2 (inverted_bit 1))
        ∷ [])
    ∷ packet 4 0x12 "got data packet 12" (field "idle_valve_pos" (two 2 3 (per 2)) ∷ [])
    ∷ packet 3 0x13 "got data packet 13" (field "closed_loop" (one 2 (bit_at 0)) ∷ [])
    ∷ packet 4 0x21 "got data packet 21" (field "rpm_error" (two 2 3 rpm_error) ∷ [])
    ∷ packet 4 0x25 "got data packet 25" (field "cam_percent" (two 2 3 word) ∷ [])
    ∷ packet 6 0x3A "got data packet 3A" (
        field "idle_timing_offset" (two 2 3 (per 10))
        ∷ field "idle_adjuster_rpm" (two 4 5 word)
        ∷ [])
    ∷ []

-- `len(actualData) >= n && bytes.Equal(actualData[0:2], header)`.
abbrev pub begins : ℕ → List ℕ → List ℕ → Option Bool
begins n header actual = guarded n 2 header actual

-- What is behind the data packets: refusals, ROM dumps, and what is unknown.
unfoldable pub parse_other : List ℕ → Mems2j → Option Mems2j
parse_other [] m = none
parse_other (b ∷ rest) m = some (
    if b == 0x7F
    then record m {
      state =
          debug (record { format = "Negative response - 0x7F"; args = bytes (take 2 rest) ∷ [] })
            m.state;
    }
    else (if b == 0x63
        then log_debug "Not running a ROM dump so going back to ping/data collection" (record m {
          state = debug (record { format = "Hex:"; args = bytes rest ∷ [] }) m.state;
        })
        else record m {
          state =
              debug
                (record { format = "Unknown data received - Hex:"; args = bytes (b ∷ rest) ∷ [] })
                m.state;
        }))

-- The data packets from one on.
unfoldable pub parse_packets : List DataPacket → List ℕ → Mems2j → Option Mems2j
parse_packets [] actual m = parse_other actual m
parse_packets (p ∷ ps) actual m =
    let rest = parse_packets ps actual m in
    branch none (begins p.min_length (0x61 ∷ p.pid ∷ []) actual)
      (let m' : Mems2j = log_debug p.message m in
        elim (write_fields (length actual) actual p.fields m'.state.values) [
          | none ↦ none
          | some values ↦ some (record m' { state = record m'.state { values = values } })
        ])
      rest

-- The seed, and the key that answers it.
unfoldable pub store_seed : ℕ → Mems2j → Mems2j
store_seed seed m =
    let m' : Mems2j = log_debug "< seed" m in
    if seed == 0
    then record (log_debug "Already logged in (seed was 0)" m') { seed = seed; key = 0 }
    else record m' { seed = seed; key = generate_key seed }

-- With the bytes at 2 and 3.
unfoldable pub parse_seed : Option ℕ → Option ℕ → Mems2j → Option Mems2j
parse_seed none lo m = none
parse_seed (some hi) none m = none
parse_seed (some hi) (some lo) m = some (store_seed (be16 hi lo) m)

unfoldable pub parse_response : List ℕ → Mems2j → Option Mems2j
parse_response actual m =
    let alert : String → String → Option Mems2j = λ msg v.
      some (let m' : Mems2j = log_debug msg m in record m' { state = set_alert v m'.state }) in
    if bytes_equal actual woke_response
    then some (
        let m' : Mems2j = log_debug "< ECU woke up" m in
        record m' { state = record m'.state { connected = true } })
    else (if bytes_equal actual start_diag_response
        then some (log_debug "< Diag mode accepted" m)
        else branch none (begins 4 seed_response actual)
            (parse_seed (get_elem? actual 2) (get_elem? actual 3) m)
            (if bytes_equal actual key_accept_response
              then some (log_debug "< Key accepted" m)
              else (if bytes_equal actual pong_response
                  then some (log_debug "< PONG" m)
                  else (if bytes_equal actual faults_cleared_response
                      then alert "< FAULTS CLEARED" "ECU reports faults cleared"
                      else (if bytes_equal actual response_learn_immo_command
                          then alert "< IMMO CODE LEARN" "ECU reports set to learn new immo code"
                          else branch none (begins 2 (0x61 ∷ 0x19 ∷ []) actual)
                              (parse_faults actual (log_debug "< Faults" m))
                              (parse_packets data_packets actual m))))))
