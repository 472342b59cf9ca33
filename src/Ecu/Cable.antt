-- ===== src/Ecu/Cable.antt =====
-- What the handlers of internal/ecu/mems1x, mems2j and mems3 write alike: the constructor, the first half of
-- `Connect`, and `Close`. What the port answers is an argument.
pub mod Release
use rover_mems_ecu.Base.{ℕ, String, Bool, true, false, List, [], ◌∷◌, ◌++◌, Option, none, some}
use rover_mems_ecu.Ecu.State.{State, debug}

-- A handler: `m.sp`, which is nil or a port that is open or closed; whether the read goroutine runs; and
-- what was handed to `Write`.
pub record Cable : Type 0 where
  pub state : State
  pub port : Option Bool
  pub reading : Bool
  pub written : List (List ℕ)

-- What `serial.Open`, `SetReadTimeout`, `Break` and `Write` answer.
pub record PortAnswers : Type 0 where
  pub open_error : Option String
  pub timeout_error : Option String
  pub break_error : Option String
  pub write_error : Option String

pub data Failure : Type 0 where
  open_failed set_timeout_failed wake_pulse_failed init_command_failed : String → Failure

abbrev pub say : String → Cable → Cable
say msg c = record c { state = debug (record { format = msg; args = [] }) c.state }

-- The constructors, with `cfg.DebugMode`.
unfoldable pub new_cable : Bool → State → Cable
new_cable debug_mode s = record {
  state = record s { log = record s.log { debug_mode = debug_mode } };
  port = none;
  reading = false;
  written = [];
}

-- `sp.Close()` on the way out of `Connect`.
abbrev pub give_up : Cable → Failure → Cable × Option Failure
give_up c e = (record c { port = some false }, some e)

-- `Connect` behind `SetReadTimeout`, with its error; `rest` is what follows.
unfoldable pub behind_timeout :
    (Cable → Cable × Option Failure) → Option String → Cable → Cable × Option Failure
behind_timeout rest (some e) c = give_up c (set_timeout_failed e)
behind_timeout rest none c = rest c

-- `Connect` behind `serial.Open`, with its error.
unfoldable pub behind_open :
    (Cable → Cable × Option Failure) → PortAnswers → Option String → Cable → Cable × Option Failure
behind_open rest a (some e) c = (c, some (open_failed e))
behind_open rest a none c = behind_timeout rest a.timeout_error (record c { port = some true })

-- `Connect`, with the line that it logs first.
unfoldable pub open_cable :
    String → (Cable → Cable × Option Failure) → PortAnswers → Cable → Cable × Option Failure
open_cable msg rest a c =
    let c' = say msg c in
    behind_open rest a a.open_error (record c' { state = record c'.state { connected = false } })

unfoldable pub shut : Option Bool → Option Bool
shut none = none
shut (some is_open) = some false

-- `Close`, less its error.
unfoldable pub close_cable : Cable → Cable
close_cable c = record c { state = record c.state { connected = false }; port = shut c.port }
