-- ===== src/Examples/Mems3s.antt =====
-- Concrete runs of the MEMS 3 handler (internal/ecu/mems3).
use rover_mems_ecu.Base.{
  ℕ, ◌≡◌, ◌↔◌, refl, true, List, [], ◌∷◌, ◌++◌, none, be16, bit_and, ◌/◌, ◌%◌,
}
use rover_mems_ecu.Ecu.State.{new_state}
use rover_mems_ecu.Ecu.Key.{generate_key}
use rover_mems_ecu.Mems3.Commands.{
  Mems3, init_command, init_accepted, start_diagnostic, start_diag_response, request_seed, send_key,
  key_accept_response, ping_command, pong_response, request_faults_command, request_data, frame,
  send_command,
}
use rover_mems_ecu.Mems3.Faults.Records.{Fault}
use rover_mems_ecu.Mems3.Frames.{handle_frame}
use rover_mems_ecu.Mems3.Loop.Safety.{handle_frame-none}
use rover_mems_ecu.Mems3.Loop.SetUp.{exchanges, idle, exchanges-first_readings}

abbrev fresh : Mems3
fresh = idle new_state

abbrev fan : Fault
fan = record { high = 0x04; low = 0x80; status = 0x61 }

handle_frame-none_example :
    (handle_frame (0x58 ∷ []) fresh ≡ none) ↔ (◌≡◌ {A = List ℕ} (0x58 ∷ []) (0x58 ∷ []))
handle_frame-none_example = handle_frame-none (0x58 ∷ []) fresh

exchanges-first_readings_example :
    let key = generate_key (be16 0x12 0x34) in
    let m =
      exchanges
        (init_accepted
          ∷ start_diag_response
          ∷ (0x67 ∷ 0x01 ∷ 0x12 ∷ 0x34 ∷ [])
          ∷ key_accept_response
          ∷ pong_response
          ∷ (0x58 ∷ 0x01 ∷ 0x04 ∷ 0x80 ∷ 0x61 ∷ [])
          ∷ [])
        (send_command none init_command (idle new_state)) in
    (m.state.connected ≡ true)
    × (m.written
        ≡ frame init_command
          ∷ frame start_diagnostic
          ∷ frame request_seed
          ∷ frame (send_key ++ ((key / 256 % 256) ∷ (bit_and key 0xFF) ∷ []))
          ∷ frame ping_command
          ∷ frame request_faults_command
          ∷ frame (request_data 0x00)
          ∷ [])
exchanges-first_readings_example = exchanges-first_readings 0x12 0x34 0x04 0x80 0x61 new_state refl
