-- ===== src/Examples/Ecus.antt =====
-- Concrete runs of the shared state, the key and the MEMS 1.x handler (internal/ecu).
use rover_mems_ecu.Base.{
  ℕ, zero, suc, ◌+◌, ◌<◌, ◌≡◌, ◌↔◌, find, ◌⊎◌, refl, true, List, [], ◌∷◌, All, replicate, none,
  arith,
}
use rover_mems_ecu.Ecu.Log.{Log, Line}
use rover_mems_ecu.Ecu.State.{snapshot, new_state}
use rover_mems_ecu.Ecu.State.Notices.{
  Op, apply_all, alerts, last_alert, errors, last_error, snapshot-apply_all,
}
use rover_mems_ecu.Ecu.Key.{generate_key}
use rover_mems_ecu.Ecu.Key.Scramble.{register, round_count, generate_key-register}
use rover_mems_ecu.Mems1x.Commands.{after_response}
use rover_mems_ecu.Mems1x.Frames.{parse_data7d}
use rover_mems_ecu.Mems1x.Frames.Safety.{parse_data7d-none}
use rover_mems_ecu.Mems1x.Loop.{
  Session, Event, reads, no_error, timeout, step, run, loop, answer, running,
}
use rover_mems_ecu.Mems1x.Loop.Replies.{idle, run-user_command}
use rover_mems_ecu.Mems1x.Loop.Silence.{Silent, IsRunning, run_ends}
use rover_mems_ecu.Mems1x.Loop.Writes.{After}
use rover_mems_ecu.Mems1x.Loop.Writes.Exchange.{Exchange, step-Exchange}
use rover_mems_ecu.Mems1x.Loop.Writes.Bytes.{Tracked, loop-Tracked}

abbrev empty_log : Log
empty_log = record { debug_mode = true; lines = []; seq = 0 }

abbrev hello : Line
hello = record { format = "hello"; args = [] }

generate_key-register_example :
    (generate_key 0x8001 ≡ register (round_count 0x8001) 0x8001) × (generate_key 0x8001 < 65536)
generate_key-register_example = generate_key-register 0x8001 (omega arith)

abbrev twice : List Op
twice = Op.alert "hot" ∷ Op.error "lost" ∷ Op.alert "hot" ∷ []

snapshot-apply_all_example :
    ((snapshot (apply_all twice new_state)).alert_seq
      ≡ (snapshot new_state).alert_seq + alerts twice)
    × ((snapshot (apply_all twice new_state)).alert ≡ last_alert (snapshot new_state).alert twice)
    × ((snapshot (apply_all twice new_state)).error_seq
        ≡ (snapshot new_state).error_seq + errors twice)
    × ((snapshot (apply_all twice new_state)).error ≡ last_error (snapshot new_state).error twice)
snapshot-apply_all_example = snapshot-apply_all twice new_state

-- A frame of 0x7D with 0x16 bytes behind the echo.
parse_data7d-none_example :
    (parse_data7d (0x7D ∷ 0x16 ∷ replicate 21 0) new_state ≡ none)
    ↔ (◌≡◌ {A = ℕ} 0x16 0x16 ⊎ ◌≡◌ {A = ℕ} 0x16 0x1F)
parse_data7d-none_example = parse_data7d-none 0x7D 0x16 (replicate 21 0) new_state refl

abbrev fresh : Session
fresh = record { m = idle new_state; buffer = []; read_loops = 0 }

-- The response 0x7D is answered with the pending "clearfaults".
abbrev clearing : Session
clearing = record fresh {
  m = record (idle new_state) { state = record new_state { user_command = "clearfaults" } };
}

run-user_command_example :
    (s' : Session) × (run true
        (reads (0xCC ∷ []) no_error none ∷ reads (0xCC ∷ 0x01 ∷ []) no_error none ∷ [])
        (answer none 0x7D clearing)
      ≡ running s')
    × (s'.m.written ≡ 0xCC ∷ 0x80 ∷ [])
    × (s'.m.state.user_command ≡ "")
    × (s'.m.state.alert ≡ "ECU accepted clearfaults")
    × (s'.m.state.alert_seq ≡ 1)
unfolding after_response new_state find
run-user_command_example =
    run-user_command none none 0x7D 0xCC 0x01 [] "clearfaults" clearing refl refl (omega arith)

abbrev silence : List Event
silence = replicate 200 (reads [] timeout none)

silent : (n : ℕ) → All Silent (replicate n (reads [] timeout none))
unfolding Silent
silent zero = tt
silent (suc n) = (tt, silent n)

run_ends_example : ¬ IsRunning (run true silence (record fresh { buffer = 0x33 ∷ [] }))
run_ends_example =
    run_ends true silence (record fresh { buffer = 0x33 ∷ [] }) (silent 200) (omega arith)

step-Exchange_example :
    After
      (Exchange true (reads (0xCA ∷ []) no_error none) fresh)
      (step true (reads (0xCA ∷ []) no_error none) fresh)
step-Exchange_example = step-Exchange true (reads (0xCA ∷ []) no_error none) fresh

loop-Tracked_example : After (Tracked 3) (
    loop true none
      (reads (0xCA ∷ []) no_error none ∷ reads (0xCA ∷ []) no_error none ∷ [])
      (idle new_state))
loop-Tracked_example =
    loop-Tracked true none (reads (0xCA ∷ []) no_error none ∷ reads (0xCA ∷ []) no_error none ∷ [])
      (idle new_state) refl
