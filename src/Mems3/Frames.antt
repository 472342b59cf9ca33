-- ===== src/Mems3/Frames.antt =====
-- internal/ecu/mems3/mems3.go: `handleFrame`. `none` is a panic; a reply is `none` where the frame is
-- not handled, and empty where it is nil.
use rover_mems_ecu.Base.{
  ℕ, String, sub_ℕ, true, List, [], ◌∷◌, Option, none, some, length, branch, be16, get_elem?, ltb,
  ◌==◌, if◌then◌else◌,
}
use rover_mems_ecu.Ecu.Reading.{Float32, of_int, of_nat, div}
use rover_mems_ecu.Ecu.Log.{num}
use rover_mems_ecu.Ecu.State.{debug, set_alert}
use rover_mems_ecu.Ecu.Key.{generate_key}
use rover_mems_ecu.Ecu.Fields.{two, Field, always, write_fields}
use rover_mems_ecu.Mems2j.Commands.{bytes_equal, starts_with, guarded}
use rover_mems_ecu.Mems3.Commands.{
  Mems3, log_debug, init_accepted, start_diag_response, seed_response, key_accept_response,
  pong_response, faults_cleared_response, response_faults, response_data,
}
use rover_mems_ecu.Mems3.Faults.{parse_faults}

-- One case of the second `switch`.
pub record DataPacket : Type 0 where
  pub pid : ℕ
  pub min_length : ℕ
  pub fields : List Field

abbrev packet : ℕ → ℕ → List Field → DataPacket
packet pid n fs = record { pid = pid; min_length = n; fields = fs }

abbrev field : String → ℕ → ℕ → (ℕ → ℕ → Float32) → Field
field name i j f = record { guard = always; name = name; value = two i j f }

-- `float32(v - 2730) / 10`.
abbrev pub kelvin : ℕ → ℕ → Float32
kelvin a b = div (of_int (sub_ℕ (be16 a b) 2730)) (of_nat 10)

abbrev pub word : ℕ → ℕ → Float32
word a b = of_nat (be16 a b)

-- `float32(v) / 100`.
abbrev pub hundredths : ℕ → ℕ → Float32
hundredths a b = div (of_nat (be16 a b)) (of_nat 100)

abbrev pub data_packets : List DataPacket
data_packets =
    packet 0x00 12 (
      field "coolant_temp" 2 3 kelvin
      ∷ field "oil_temp" 6 7 kelvin
      ∷ field "intake_air_temp" 10 11 kelvin
      ∷ [])
    ∷ packet 0x06 12 (
        field "map_sensor_kpa" 2 3 hundredths
        ∷ field "throttle_mv" 8 9 word
        ∷ field "rpm" 10 11 word
        ∷ [])
    ∷ packet 0x0A 6 (field "fuel_feedback_percent" 2 3 hundredths ∷ field "lambda_mv" 4 5 word ∷ [])
    ∷ packet 0x0B 6 (field "coil_1_time_uS" 2 3 word ∷ field "coil_2_time_uS" 4 5 word ∷ [])
    ∷ packet 0x21 4 (field "rpm_deviation" 2 3 word ∷ [])
    ∷ []

abbrev pub Handled : Type 0
Handled = Option (Mems3 × Option (List ℕ))

-- A case of the second `switch`, for a frame that is long enough, with what is written.
unfoldable pub store : DataPacket → Option (List (String × Float32)) → Mems3 → Handled
store p none m = none
store p (some values) m =
    some (record m { state = record m.state { values = values } }, some (response_data p.pid))

-- The second `switch`, from a case on.
unfoldable pub handle_data : List DataPacket → List ℕ → Mems3 → Handled
handle_data [] actual m = some (m, none)
handle_data (p ∷ ps) actual m =
    let rest = handle_data ps actual m in
    branch none (starts_with 2 (response_data p.pid) actual)
      (if ltb (length actual) p.min_length
        then some (m, none)
        else store p (write_fields (length actual) actual p.fields m.state.values) m)
      rest

-- The case of the seed.
unfoldable pub store_seed : ℕ → Mems3 → Handled
store_seed seed m =
    let m' : Mems3 = record m {
      seed = seed;
      state = debug (record { format = "< seed %d"; args = num seed ∷ [] }) m.state;
    } in
    if seed == 0
    then some (log_debug "Auth not required, collecting data..." (record m' { key = 0 }), some [])
    else some (record m' { key = generate_key seed }, some seed_response)

-- With the bytes at 2 and 3.
unfoldable pub handle_seed : Option ℕ → Option ℕ → Mems3 → Handled
handle_seed none lo m = none
handle_seed (some hi) none m = none
handle_seed (some hi) (some lo) m = store_seed (be16 hi lo) m

-- The case of the faults, with what `parseFaults` leaves.
unfoldable pub handle_faults : Option Mems3 → Handled
handle_faults none = none
handle_faults (some m) = some (m, some response_faults)

unfoldable pub handle_frame : List ℕ → Mems3 → Handled
handle_frame actual m =
    branch none (guarded 2 2 init_accepted actual)
      (some (
        log_debug "< ECU woke up" (record m { state = record m.state { connected = true } }),
        some init_accepted,
      ))
      (if bytes_equal actual start_diag_response
        then some (log_debug "< Diag mode accepted" m, some start_diag_response)
        else branch none (guarded 4 2 seed_response actual)
            (handle_seed (get_elem? actual 2) (get_elem? actual 3) m)
            (if bytes_equal actual key_accept_response
              then some (log_debug "< Key accepted, collecting data..." m, some key_accept_response)
              else (if bytes_equal actual pong_response
                  then some (log_debug "." m, some pong_response)
                  else (if bytes_equal actual faults_cleared_response
                      then some (
                        log_debug "< FAULTS CLEARED"
                            (record m { state = set_alert "ECU reports faults cleared" m.state }),
                        some faults_cleared_response,
                      )
                      else branch none (guarded 1 1 response_faults actual)
                          (handle_faults (parse_faults actual m))
                          (if ltb (length actual) 2
                            then some (m, none)
                            else handle_data data_packets actual m)))))
