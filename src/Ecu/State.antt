-- ===== src/Ecu/State.antt =====
-- `State` of internal/ecu/ecu.go with its setters, its snapshot, and the registry of handlers. The
-- two mutexes make each operation one step; a copied slice or map is the same value here.
pub mod Notices
use rover_mems_ecu.Base.{
  ℕ, ◌+◌, String, Bool, true, false, List, [], ◌∷◌, Option, none, some, find, put,
}
use rover_mems_ecu.Ecu.Reading.{DataMap}
use rover_mems_ecu.Ecu.Log.{Log, Line, log_debug}

pub record State : Type 0 where
  pub connected : Bool
  pub faults : List String
  pub values : DataMap
  pub alert : String
  pub error : String
  pub user_command : String
  pub alert_seq : ℕ
  pub error_seq : ℕ
  pub ecu_type : String
  pub selected_serial_port : String
  pub serial_ports : List String
  pub agent_version : String
  pub log : Log

unfoldable pub new_state : State
new_state = record {
  connected = false;
  faults = "not-checked-yet" ∷ [];
  values = [];
  alert = "";
  error = "";
  user_command = "";
  alert_seq = 0;
  error_seq = 0;
  ecu_type = "";
  selected_serial_port = "";
  serial_ports = [];
  agent_version = "1.4.3";
  log = record { debug_mode = false; lines = []; seq = 0 };
}

-- `s.LogDebug(…)` and `s.LogDebugf(…)`.
abbrev pub debug : Line → State → State
debug msg s = record s { log = log_debug msg s.log }

-- `SetAlert`, and `SetAlertLocked` under a lock that is held.
unfoldable pub set_alert : String → State → State
set_alert v s = record s { alert = v; alert_seq = s.alert_seq + 1 }

unfoldable pub set_error : String → State → State
set_error v s = record s { error = v; error_seq = s.error_seq + 1 }

unfoldable pub set_ecu_type : String → State → State
set_ecu_type v s = record s { ecu_type = v }

unfoldable pub set_selected_serial_port : String → State → State
set_selected_serial_port v s = record s { selected_serial_port = v }

unfoldable pub set_user_command : String → State → State
set_user_command v s = record s { user_command = v }

pub record Snapshot : Type 0 where
  pub connected : Bool
  pub faults : List String
  pub values : DataMap
  pub alert : String
  pub alert_seq : ℕ
  pub error : String
  pub error_seq : ℕ
  pub user_command : String
  pub ecu_type : String
  pub selected_serial_port : String
  pub serial_ports : List String
  pub agent_version : String

pub snapshot : State → Snapshot
snapshot s = record {
  connected = s.connected;
  faults = s.faults;
  values = s.values;
  alert = s.alert;
  alert_seq = s.alert_seq;
  error = s.error;
  error_seq = s.error_seq;
  user_command = s.user_command;
  ecu_type = s.ecu_type;
  selected_serial_port = s.selected_serial_port;
  serial_ports = s.serial_ports;
  agent_version = s.agent_version;
}

-- `registry[ecuType] = ctor`, by the handlers' `init`.
pub register {ℓ} : {C : Type ℓ} → String → C → List (String × C) → List (String × C)
register ecu_type ctor registry = put ecu_type ctor registry

-- `Factory`: `none` is the error "unknown ECU type".
unfoldable pub factory {ℓ κ} :
    {C : Type ℓ} {E : Type κ} → String → (C → Option E) → List (String × C) → Option E
factory ecu_type build registry = elim (find ecu_type registry) [
  | none ↦ none
  | some ctor ↦ build ctor
]
