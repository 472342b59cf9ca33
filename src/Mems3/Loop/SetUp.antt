-- ===== src/Mems3/Loop/SetUp.antt =====
-- The session that `ReadData` of internal/ecu/mems3/mems3.go sets up with an ECU.
use rover_mems_ecu.Base.{
  ℕ, ◌/◌, ◌%◌, ◌≡◌, refl, sym, subst, true, false, List, [], ◌∷◌, ◌++◌, none, some, be16, bit_and,
  ◌==◌,
}
use rover_mems_ecu.Ecu.State.{State, debug, set_user_command}
use rover_mems_ecu.Ecu.Log.{num}
use rover_mems_ecu.Ecu.Key.{generate_key}
use rover_mems_ecu.Mems3.Commands.{
  Mems3, init_command, init_accepted, start_diagnostic, start_diag_response, request_seed,
  seed_response, send_key, key_accept_response, ping_command, pong_response, request_faults_command,
  request_data, take_user_command, frame, send_command, after_response, send_next_command,
}
use rover_mems_ecu.Mems3.Faults.{parse_faults}
use rover_mems_ecu.Mems3.Frames.{store_seed, handle_seed, handle_faults, handle_frame}

-- What `ReadData` does with the payload of a frame.
pub exchange : List ℕ → Mems3 → Mems3
exchange payload m = elim (handle_frame payload m) [
  | none ↦ m
  | some (m', none) ↦ m'
  | some (m', some reply) ↦ send_next_command none reply m'
]

abbrev pub exchanges : List (List ℕ) → Mems3 → Mems3
exchanges [] m = m
exchanges (p ∷ ps) m = exchanges ps (exchange p m)

-- A handler with no pending user command.
abbrev pub idle : State → Mems3
idle s = record { state = record s { user_command = "" }; written = []; seed = 0; key = 0 }

-- The handler behind a seed.
abbrev seeded : ℕ → Mems3 → Mems3
seeded seed m = record m {
  seed = seed;
  key = generate_key seed;
  state = debug (record { format = "< seed %d"; args = num seed ∷ [] }) m.state;
}

exchange-seeded :
    (hi lo : ℕ) (m : Mems3)
    → (be16 hi lo == 0) ≡ false
    → exchange (0x67 ∷ 0x01 ∷ hi ∷ lo ∷ []) m
      ≡ send_next_command none seed_response (seeded (be16 hi lo) m)
unfolding exchange handle_frame handle_seed store_seed
exchange-seeded hi lo m locked = rw (exchange, handle_frame, store_seed, locked)

-- With no user command pending, a MEMS 3 that accepts the init command and the diagnostic mode, gives a seed that is not 0, accepts
-- the key and answers the ping, and then gives a fault, is connected. It is sent the init command, the
-- requests for the diagnostic mode and for a seed, the key that belongs to this seed, a ping, and the
-- requests for its faults and its first readings, in this order.
pub exchanges-first_readings :
    (hi lo a b status : ℕ) (s : State)
    → (be16 hi lo == 0) ≡ false
    → let key = generate_key (be16 hi lo) in
      let m =
        exchanges
          (init_accepted
            ∷ start_diag_response
            ∷ (0x67 ∷ 0x01 ∷ hi ∷ lo ∷ [])
            ∷ key_accept_response
            ∷ pong_response
            ∷ (0x58 ∷ 0x01 ∷ a ∷ b ∷ status ∷ [])
            ∷ [])
          (send_command none init_command (idle s)) in
      (m.state.connected ≡ true)
      × (m.written
          ≡ frame init_command
            ∷ frame start_diagnostic
            ∷ frame request_seed
            ∷ frame (send_key ++ ((key / 256 % 256) ∷ (bit_and key 0xFF) ∷ []))
            ∷ frame ping_command
            ∷ frame request_faults_command
            ∷ frame (request_data 0x00)
            ∷ [])
unfolding exchange handle_frame handle_seed store_seed handle_faults parse_faults send_next_command
    take_user_command set_user_command after_response send_command
exchanges-first_readings hi lo a b status s locked =
    let key = generate_key (be16 hi lo) in
    subst
      (λ m.
        let m' =
          exchanges (key_accept_response ∷ pong_response ∷ (0x58 ∷ 0x01 ∷ a ∷ b ∷ status ∷ []) ∷ [])
            m in
        (m'.state.connected ≡ true)
        × (m'.written
            ≡ frame init_command
              ∷ frame start_diagnostic
              ∷ frame request_seed
              ∷ frame (send_key ++ ((key / 256 % 256) ∷ (bit_and key 0xFF) ∷ []))
              ∷ frame ping_command
              ∷ frame request_faults_command
              ∷ frame (request_data 0x00)
              ∷ []))
      (sym (
        exchange-seeded hi lo
          (exchanges (init_accepted ∷ start_diag_response ∷ [])
            (send_command none init_command (idle s)))
          locked))
      (refl, refl)
