-- ===== src/Examples/Mems19s.antt =====
-- Concrete runs of the wake-up of MEMS 1.9 (internal/ecu/mems19).
use rover_mems_ecu.Base.{ℕ, ◌≡◌, refl, List, [], ◌∷◌, map, none, some, bit_xor, arith}
use rover_mems_ecu.Ecu.State.{new_state}
use rover_mems_ecu.Mems19.Handshake.{Mems19, received, handle_wake_up_handshake}
use rover_mems_ecu.Mems19.Handshake.Response.{Wrote, handshake-response}
use rover_mems_ecu.Mems19.Connect.{stale, timed_out, PortAnswers, Connection, connect}
use rover_mems_ecu.Mems19.Connect.Handover.{IsSettled, WroteFew, connect-EndsWell}

abbrev asleep : Mems19
asleep = record { state = new_state; written = [] }

-- Line noise in front, and the frame cut in two.
abbrev chunks : List (List ℕ)
chunks = (0x00 ∷ 0xF8 ∷ 0x55 ∷ []) ∷ [] ∷ (0x76 ∷ 0x83 ∷ []) ∷ []

handshake-response_example :
    Wrote
      ((bit_xor 0x83 0xFF ∷ []) ∷ [])
      (handle_wake_up_handshake none (map received chunks) (received (0xE9 ∷ []) ∷ []) asleep)
handshake-response_example =
    handshake-response none chunks (received (0xE9 ∷ []) ∷ []) (0x00 ∷ 0xF8 ∷ []) 0x76 0x83 []
      asleep ((λ e. ground (arith, e)), ((λ e. ground (arith, e)), tt)) refl

-- Stale input, a cable that works, and an ECU that says nothing.
abbrev silent : PortAnswers
silent = record {
  open_error = none;
  timeout_error = none;
  stale_input = stale ∷ timed_out ∷ [];
  breaks = λ duration position. none;
  write_error = none;
  polls = [];
  echoes = [];
  no_timeout_error = none;
  leftovers = [];
}

connect-EndsWell_example :
    (c : Connection) × ((connect silent "/dev/ttyUSB0" asleep ≡ some c)
      × IsSettled silent c
      × WroteFew [] c.handler)
connect-EndsWell_example = connect-EndsWell silent "/dev/ttyUSB0" asleep
