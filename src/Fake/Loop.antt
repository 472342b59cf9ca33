-- ===== src/Fake/Loop.antt =====
-- internal/ecu/fake/fake.go: the loop of `ReadData`, the user command, `Connect` and `Close`.
use rover_mems_ecu.Base.{
  ◌%◌, String, str_eq, str_append, Bool, true, false, ◌&&◌, List, [], ◌∷◌, put, ◌==◌, if◌then◌else◌,
}
use rover_mems_ecu.Ecu.Reading.{Float64, random, Float32, DataMap}
use rover_mems_ecu.Ecu.State.{State, debug, set_alert, set_user_command}
use rover_mems_ecu.Fake.Signals.{tenth, Simulation, start, begin_round, readings}

pub record FakeEcu : Type 0 where
  pub state : State
  pub running : Bool

unfoldable pub put_all : List (String × Float32) → DataMap → DataMap
put_all [] m = m
put_all ((name, v) ∷ rows) m = put_all rows (put name v m)

-- The user command that is pending, if any.
unfoldable pub obey : State → State
obey s =
    let cmd = s.user_command in
    let taken : State =
      debug (record { format = str_append "Fake ECU: received command: " cmd; args = [] })
        (set_user_command "" s) in
    if str_eq cmd ""
    then s
    else (if str_eq cmd "clearfaults"
        then set_alert "ECU reports faults cleared" (record taken { faults = [] })
        else set_alert (str_append "Fake ECU accepted: " cmd) taken)

module _ (less : Float64 → Float64 → Bool) where
  -- One round of the loop.
  unfoldable pub step : Simulation → State → Simulation × State
  step sim s =
      let r = begin_round less sim in
      let knock = r.tick % 600 == 0 && less (random r.tick 14) (tenth 3) in
      let s' : State =
        if knock
        then debug (record { format = "Fake ECU: transient knock fault injected"; args = [] }) s
        else s in
      (
        record { coolant = r.coolant; oil_temp = r.oil_temp; rpm = r.rpm; tick = r.tick },
        obey (record s' {
          values = put_all (readings less r) s'.values;
          faults = if knock then "fault_knock_detected" ∷ [] else [];
        }),
      )

  -- The loop: before each round, what else happens to the state, whether the simulation has been closed,
  -- and whether the context is done; with whether it has returned.
  unfoldable pub run :
      List ((State → State) × Bool × Bool) → Simulation → State → Simulation × State × Bool
  run [] sim s = (sim, s, false)
  run ((others, closed, done) ∷ rounds) sim s =
      let (sim', s') = step sim (others s) in
      let later = run rounds sim' s' in
      if closed then (sim, others s, true) else (if done then (sim, others s, true) else later)

  unfoldable pub read_data :
      List ((State → State) × Bool × Bool) → FakeEcu → Simulation × State × Bool
  read_data rounds f =
      let s = debug (record { format = "Fake ECU: starting simulation"; args = [] }) f.state in
      let ran = run rounds start s in if f.running then ran else (start, s, true)

-- The constructor, with `cfg.DebugMode`.
unfoldable pub new_fake_ecu : Bool → State → FakeEcu
new_fake_ecu debug_mode s = record {
  state = record s { log = record s.log { debug_mode = debug_mode } };
  running = false;
}

unfoldable pub connect : FakeEcu → FakeEcu
connect f = record { state = record f.state { connected = true; faults = [] }; running = true }

unfoldable pub close : FakeEcu → FakeEcu
close f = record { state = record f.state { connected = false }; running = false }
