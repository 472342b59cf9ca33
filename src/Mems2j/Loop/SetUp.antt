-- ===== src/Mems2j/Loop/SetUp.antt =====
-- The session that `loop` of internal/ecu/mems2j/mems2j.go sets up with an ECU, and the poll that
-- follows.
use rover_mems_ecu.Base.{
  ℕ, ◌/◌, ◌%◌, ◌≡◌, refl, true, false, List, [], ◌∷◌, ◌++◌, none, some, be16, bit_and, lookup,
  insert, get_or, ◌==◌,
}
use rover_mems_ecu.Ecu.State.{State, set_user_command}
use rover_mems_ecu.Ecu.Key.{generate_key}
use rover_mems_ecu.Mems2j.Commands.{
  Mems2j, ping_command, poll_order, request_after, build_next_after_poll, next_after_poll,
  start_diagnostic, request_seed, send_key, request_faults_command, woke_response,
  start_diag_response, key_accept_response, pong_response, take_user_command, send_command,
  by_header, after_response, send_next_command, final_command,
}
use rover_mems_ecu.Mems2j.Parse.{store_seed, parse_seed, parse_response}

-- The response to the request `r` has the header 61 and the second byte of the request. Each is
-- answered with the request behind `r`.
pub Follows : List (List ℕ) → Type 0
Follows [] = Unit
Follows (r ∷ rest) =
    ((key : ℕ) (tail : List ℕ)
      → after_response key (0x61 ∷ get_or r 1 0 ∷ tail) ≡ some (request_after rest))
    × Follows rest

-- Whatever the key and the readings, the response to each request of the poll is answered with the
-- next one in the order of the poll, and that to the last one with a ping.
pub after_response-Follows : Follows poll_order
unfolding Follows after_response by_header next_after_poll build_next_after_poll lookup insert
after_response-Follows = (
  λ k t. refl,
  (
    λ k t. refl,
    (
      λ k t. refl,
      (
        λ k t. refl,
        (
          λ k t. refl,
          (
            λ k t. refl,
            (
              λ k t. refl,
              (
                λ k t. refl,
                (
                  λ k t. refl,
                  (
                    λ k t. refl,
                    (
                      λ k t. refl,
                      (
                        λ k t. refl,
                        (
                          λ k t. refl,
                          (
                            λ k t. refl,
                            (
                              λ k t. refl,
                              (
                                λ k t. refl,
                                (
                                  λ k t. refl,
                                  (
                                    λ k t. refl,
                                    (λ k t. refl, (λ k t. refl, (λ k t. refl, (λ k t. refl, tt)))),
                                  ),
                                ),
                              ),
                            ),
                          ),
                        ),
                      ),
                    ),
                  ),
                ),
              ),
            ),
          ),
        ),
      ),
    ),
  ),
)

-- What `loop` does with the payload of a packet.
unfoldable pub exchange : List ℕ → Mems2j → Mems2j
exchange payload m = elim (parse_response payload m) [
  | none ↦ m
  | some m' ↦ send_next_command none payload m'
]

abbrev pub exchanges : List (List ℕ) → Mems2j → Mems2j
exchanges [] m = m
exchanges (p ∷ ps) m = exchanges ps (exchange p m)

-- A handler behind `wakeUp`, with no pending user command.
abbrev pub woken : State → Mems2j
woken s = record {
  state = record s { user_command = "" };
  written = [];
  last_sent_command = [];
  seed = 0;
  key = 0;
}

-- With no user command pending, an ECU that wakes up, accepts the diagnostic mode, gives a seed that
-- is not 0, accepts the key and answers the ping is connected. It is sent, in this order, the request
-- for the diagnostic mode, that for a seed, the key that belongs to this seed, a ping, and the request
-- for its faults.
pub exchanges-set_up :
    (hi lo : ℕ) (s : State)
    → (be16 hi lo == 0) ≡ false
    → let key = generate_key (be16 hi lo) in
      let m =
        exchanges
          (woke_response
            ∷ start_diag_response
            ∷ (0x67 ∷ 0x01 ∷ hi ∷ lo ∷ [])
            ∷ key_accept_response
            ∷ pong_response
            ∷ [])
          (woken s) in
      (m.state.connected ≡ true)
      × (m.written
          ≡ final_command start_diagnostic
            ∷ final_command request_seed
            ∷ final_command (send_key ++ ((key / 256 % 256) ∷ (bit_and key 0xFF) ∷ []))
            ∷ final_command ping_command
            ∷ final_command request_faults_command
            ∷ [])
unfolding exchange parse_response parse_seed store_seed send_next_command take_user_command
    set_user_command after_response by_header send_command
exchanges-set_up hi lo s locked = (rw locked, rw locked)
