-- ===== src/Examples/Agents.antt =====
-- Concrete runs of cmd/rover-mems/main.go.
use rover_mems_ecu.Base.{◌≡◌, refl, String, true, false, [], ◌∷◌, none, some}
use rover_mems_ecu.Ecu.State.{State, new_state, set_ecu_type}
use rover_mems_ecu.Agent.Connect.{Failure, Handler, Surroundings, attempt_connection}
use rover_mems_ecu.Agent.Connect.Attempts.{IsLawful, attempt_connection-connected}
use rover_mems_ecu.Agent.EventLoop.{Round, run_event_loop}
use rover_mems_ecu.Agent.EventLoop.Backoff.{outcomes, backoffs, run_event_loop-backoffs}
use rover_mems_ecu.Agent.Connect.Handlers.{IsTidy, connect-IsTidy}
use rover_mems_ecu.Ecu.Cable.{PortAnswers, new_cable}
use rover_mems_ecu.Mems1x.Port as Mems1x
use rover_mems_ecu.Mems2j.Port as Mems2j
use rover_mems_ecu.Mems3.Port as Mems3

abbrev unplugged : Failure
unplugged = record { message = "unplugged"; is_context = false }

-- A handler that connects and then reads until its cable is pulled.
abbrev cable : Handler
cable = record {
  build = λ s. (s, none);
  connect = λ port s. (record s { connected = true }, none);
  read_data = λ s. (s, some unplugged);
  close = λ s. record s { connected = false };
}

abbrev pub with_cable : Surroundings
with_cable = record {
  registry = ("1.6", cable) ∷ [];
  ports = "/dev/ttyUSB0" ∷ "/dev/ttyUSB1" ∷ [];
  ports_error = none;
}

abbrev pub quoted : String → String
quoted t = t

abbrev selected : State
selected = set_ecu_type "1.6" new_state

cable-IsLawful : IsLawful cable
cable-IsLawful = record { build-connected = λ s. refl; close-connected = λ s. refl }

attempt_connection-connected_example :
    (attempt_connection quoted with_cable selected).0.connected ≡ false
attempt_connection-connected_example =
    attempt_connection-connected quoted with_cable selected (cable-IsLawful, tt)

abbrev round : Round
round = record { done_before = false; around = with_cable; done_after = false }

run_event_loop-backoffs_example :
    (run_event_loop quoted (round ∷ round ∷ []) selected).waits
    ≡ backoffs 0 (outcomes quoted (round ∷ round ∷ []) selected)
run_event_loop-backoffs_example =
    run_event_loop-backoffs quoted (round ∷ round ∷ []) selected ((refl, refl), ((refl, refl), tt))

-- A cable whose port opens, but without a break.
abbrev no_break : PortAnswers
no_break = record {
  open_error = none;
  timeout_error = none;
  break_error = some "not supported";
  write_error = none;
}

connect-IsTidy_example :
    IsTidy Mems1x.close none (Mems1x.connect no_break (new_cable true new_state))
    × IsTidy Mems2j.close none (Mems2j.connect no_break (new_cable true new_state))
    × IsTidy Mems3.close none (Mems3.connect no_break (new_cable true new_state))
unfolding new_cable
connect-IsTidy_example = connect-IsTidy no_break (new_cable true new_state)
