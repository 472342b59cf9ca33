-- ===== src/Examples/Rc5s.antt =====
-- Concrete runs of the RC5 handler (internal/ecu/rc5).
use rover_mems_ecu.Base.{
  ℕ, All-replicate, length-replicate, ◌≡◌, refl, true, false, List, [], ◌∷◌, ◌++◌, map, replicate,
  none, some, arith,
}
use rover_mems_ecu.Ecu.State.{new_state}
use rover_mems_ecu.Mems1x.Loop.{reads, no_error}
use rover_mems_ecu.Rc5.Commands.{Rc5, ping_command, pong_response, request_faults_command}
use rover_mems_ecu.Rc5.Faults.Reports.{text_of}
use rover_mems_ecu.Rc5.Connect.{connect}
use rover_mems_ecu.Rc5.Connect.Waking.{Settled, connect-Settled}
use rover_mems_ecu.Rc5.Connect.Hearing.{working, connect-hears}
use rover_mems_ecu.Rc5.Loop.{Session, running, run}
use rover_mems_ecu.Rc5.Loop.Endings.{EndsWell, IsQuiet, HasFailed, run-EndsWell}
use rover_mems_ecu.Rc5.Loop.Stuck.{Stays, Repeats, silence, run-Stays, run-Repeats}
use rover_mems_ecu.Rc5.Loop.Polling.{reply, waiting, run-poll}

abbrev fresh : Rc5
fresh = record {
  state = record new_state { user_command = "" };
  written = [];
  has_port = false;
  is_open = false;
}

abbrev holding : List ℕ → Session
holding bytes = record { r = fresh; buffer = bytes; read_loops = 0 }

connect-Settled_example :
    Settled (connect (record (working []) { break_error = λ d. some "no break" }) fresh)
connect-Settled_example =
    connect-Settled (record (working []) { break_error = λ d. some "no break" }) fresh refl

connect-hears_example :
    ((connect (working ((0 ∷ 0x55 ∷ []) ∷ [] ∷ (0x06 ∷ 0x3B ∷ []) ∷ [])) fresh).1 ≡ none)
    × ((connect (working ((0 ∷ 0x55 ∷ []) ∷ [] ∷ (0x06 ∷ 0x3B ∷ []) ∷ [])) fresh).0.state.connected
        ≡ true)
connect-hears_example =
    connect-hears ((0 ∷ 0x55 ∷ []) ∷ [] ∷ (0x06 ∷ 0x3B ∷ []) ∷ []) 1 [] fresh (omega arith) refl

-- Four bytes of a fault reply of eight, and then nothing more.
run-EndsWell_example :
    EndsWell (run (reads (0xC7 ∷ 0x33 ∷ 0x04 ∷ 0x80 ∷ []) no_error none ∷ []) (holding []))
    × HasFailed (
        run
          (reads (0xC7 ∷ 0x33 ∷ 0x04 ∷ 0x80 ∷ []) no_error none ∷ replicate 100 silence)
          (holding []))
run-EndsWell_example =
    run-EndsWell (reads (0xC7 ∷ 0x33 ∷ 0x04 ∷ 0x80 ∷ []) no_error none ∷ []) (replicate 100 silence)
      (holding []) (omega arith) (All-replicate IsQuiet 100 silence tt)
      (omega (arith, length-replicate 100 silence))

-- A pong behind a byte of noise is never seen.
run-Stays_example :
    Stays 0xFF 0xC2 0x00 []
      (run (reads (0xFF ∷ pong_response) no_error none ∷ []) (holding (0xFF ∷ pong_response)))
run-Stays_example =
    run-Stays (reads (0xFF ∷ pong_response) no_error none ∷ []) 0xFF 0xC2 0x00 (0x3D ∷ [])
      (holding (0xFF ∷ pong_response)) refl refl

run-Repeats_example :
    Repeats 9 0x00
      (holding (0xBF ∷ 0x33 ∷ 0x00 ∷ []))
      (run (replicate 9 silence) (holding (0xBF ∷ 0x33 ∷ 0x00 ∷ [])))
run-Repeats_example =
    run-Repeats 9 0x00 [] (holding (0xBF ∷ 0x33 ∷ 0x00 ∷ [])) refl refl (omega arith)

run-poll_example :
    (r' : Rc5) × (run
        (reads (ping_command ++ pong_response) no_error none
          ∷ reads [] no_error none
          ∷ reads (request_faults_command ++ reply ((0x15, 0x0A) ∷ []) 0x07) no_error none
          ∷ reads [] no_error none
          ∷ [])
        (waiting fresh)
      ≡ running (record { r = r'; buffer = []; read_loops = 1 }))
    × (r'.written ≡ [] ++ (request_faults_command ∷ ping_command ∷ []))
    × (r'.state.faults ≡ map text_of ((0x15, 0x0A) ∷ []))
    × (r'.state.user_command ≡ "")
run-poll_example = run-poll ((0x15, 0x0A) ∷ []) 0x07 fresh (omega arith) refl
