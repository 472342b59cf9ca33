-- ===== src/Examples/Mems2js.antt =====
-- Concrete runs of the MEMS 2J handler (internal/ecu/mems2j).
use rover_mems_ecu.Base.{
  ℕ, ◌≡◌, ◌≢◌, refl, true, List, [], ◌∷◌, ◌++◌, none, be16, bit_and, ◌/◌, ◌%◌,
}
use rover_mems_ecu.Ecu.State.{new_state}
use rover_mems_ecu.Ecu.Key.{generate_key}
use rover_mems_ecu.Mems2j.Commands.{
  Mems2j, ping_command, start_diagnostic, request_seed, send_key, request_faults_command,
  woke_response, start_diag_response, key_accept_response, pong_response, final_command,
  send_next_command,
}
use rover_mems_ecu.Mems2j.Commands.Sends.{wanted, Sent, send_next_command-Sent}
use rover_mems_ecu.Mems2j.Loop.{panicked, run}
use rover_mems_ecu.Mems2j.Loop.Safety.{run-panicked}
use rover_mems_ecu.Mems2j.Loop.SetUp.{exchanges, woken, exchanges-set_up}
use rover_mems_ecu.Mems2j.Loop.Packets.{reading, waiting}

abbrev fresh : Mems2j
fresh = woken new_state

send_next_command-Sent_example :
    Sent (wanted "" 0 start_diag_response) fresh (send_next_command none start_diag_response fresh)
send_next_command-Sent_example = send_next_command-Sent none start_diag_response fresh

-- Bit 0 of the register is set.
abbrev registers : List ℕ
registers = 0x61 ∷ 0x19 ∷ 0 ∷ 0 ∷ 0 ∷ 0 ∷ 0 ∷ 0 ∷ 0 ∷ 0 ∷ 0 ∷ 0 ∷ 1 ∷ []

-- A zero, and a packet of one byte.
run-panicked_example :
    run (reading 0 1 none (0 ∷ 1 ∷ 0x50 ∷ 0x51 ∷ []) ∷ []) (waiting fresh 0) ≢ panicked
run-panicked_example =
    run-panicked (reading 0 1 none (0 ∷ 1 ∷ 0x50 ∷ 0x51 ∷ []) ∷ []) (waiting fresh 0)

exchanges-set_up_example :
    let key = generate_key (be16 0x12 0x34) in
    let m =
      exchanges
        (woke_response
          ∷ start_diag_response
          ∷ (0x67 ∷ 0x01 ∷ 0x12 ∷ 0x34 ∷ [])
          ∷ key_accept_response
          ∷ pong_response
          ∷ [])
        (woken new_state) in
    (m.state.connected ≡ true)
    × (m.written
        ≡ final_command start_diagnostic
          ∷ final_command request_seed
          ∷ final_command (send_key ++ ((key / 256 % 256) ∷ (bit_and key 0xFF) ∷ []))
          ∷ final_command ping_command
          ∷ final_command request_faults_command
          ∷ [])
exchanges-set_up_example = exchanges-set_up 0x12 0x34 new_state refl
