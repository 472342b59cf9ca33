-- ===== src/Agent/Connect.antt =====
-- cmd/rover-mems/main.go: `attemptConnection`, `connectLoop` and `runECU`, over the interface `ECU` of
-- internal/ecu/ecu.go. The list of ports and what a handler does are arguments.
pub mod Attempts
pub mod Handlers
use rover_mems_ecu.Base.{
  String, str_eq, str_append, Bool, true, false, ◌||◌, List, [], ◌∷◌, map, Option, none, some,
  if◌then◌else◌,
}
use rover_mems_ecu.Ecu.Log.{Line, Arg, text}
use rover_mems_ecu.Ecu.State.{State, debug, set_error, set_selected_serial_port, factory}

-- An error's text, and whether it is `context.Canceled` or `context.DeadlineExceeded`.
pub record Failure : Type 0 where
  pub message : String
  pub is_context : Bool

-- A constructor of the registry with the methods of the `ECU` that it makes, which work on the shared
-- state. `Connect` is given the name of the port.
pub record Handler : Type 0 where
  pub build : State → State × Option Failure
  pub connect : String → State → State × Option Failure
  pub read_data : State → State × Option Failure
  pub close : State → State

-- What a connection attempt finds: the registry, and the ports or the error of `getPorts`.
pub record Surroundings : Type 0 where
  pub registry : List (String × Handler)
  pub ports : List String
  pub ports_error : Option Failure

abbrev pub say : String → List Arg → State → State
say msg args s = debug (record { format = msg; args = args }) s

abbrev plain : String → Option Failure
plain msg = some (record { message = msg; is_context = false })

-- `fmt.Errorf("…: %w", err)`.
abbrev pub wrap : String → Failure → Failure
wrap prefix e = record e { message = str_append prefix (str_append ": " e.message) }

-- `slices.Contains`.
pub contains : String → List String → Bool
contains name [] = false
contains name (p ∷ ps) = str_eq p name || contains name ps

-- What is logged of the first port where none is selected.
abbrev pub defaulted : String → List String → State → State
defaulted first [] s = say (str_append "Only found one port, auto-selecting: " first) [] s
defaulted first (p ∷ ps) s =
    say "WARNING: Multiple ports found and none selected. Defaulting to first available: %s"
      (text first ∷ []) s

-- What is logged of the selected port.
abbrev pub checked : String → Bool → State → State
checked selected true s = s
checked selected false s =
    say "WARNING: Selected port '%s' not found in discovered list. Attempting to connect anyway..."
      (text selected ∷ []) s

-- The port that is selected, or the first one, which is selected then.
unfoldable pub choose : String → List String → State → String × State
choose first others s =
    let ports : List String = first ∷ others in
    let found : State = say "Found ports:" (map text ports) (record s { serial_ports = ports }) in
    let selected = s.selected_serial_port in
    if str_eq selected ""
    then (first, set_selected_serial_port first (defaulted first others found))
    else (selected, checked selected (contains selected ports) found)

-- `runECU` behind `Connect`, with its error. `Close` is deferred.
unfoldable pub behind_connect :
    Handler → String → String → State → Option Failure → State × Option Failure
behind_connect h ecu_type port s (some e) = (
  h.close s,
  some (wrap (str_append "connect " (str_append ecu_type (str_append " on " port))) e),
)
behind_connect h ecu_type port s none =
    let (s', ended) =
      h.read_data
        (say "runECU: connected, starting data read loop for %s" (text ecu_type ∷ []) s) in
    (h.close s', ended)

module _ (quoted : String → String) where
  -- The error of `Factory` or of the constructor.
  abbrev pub no_handler : String → Failure → Failure
  no_handler ecu_type e = wrap (str_append "create ECU handler for type " (quoted ecu_type)) e

  -- `runECU` behind the constructor, with its error.
  unfoldable pub behind_build :
      Handler → String → String → State → Option Failure → State × Option Failure
  behind_build h ecu_type port s (some e) = (s, some (no_handler ecu_type e))
  behind_build h ecu_type port s none =
      let (s', failure) =
        h.connect port
          (say "runECU: connecting %s handler on port %s" (text ecu_type ∷ text port ∷ []) s) in
      behind_connect h ecu_type port s' failure

  unfoldable pub run_ecu :
      List (String × Handler) → String → String → State → State × Option Failure
  run_ecu registry ecu_type port s = elim (factory ecu_type some registry) [
    | none ↦
        let unknown : Failure = record {
          message = str_append "unknown ECU type: " ecu_type;
          is_context = false;
        } in
        (s, some (no_handler ecu_type unknown))
    | some h ↦ let (s', failure) = h.build s in behind_build h ecu_type port s' failure
  ]

  -- `connectLoop` with the ports.
  unfoldable pub with_ports :
      List (String × Handler) → String → List String → State → State × Option Failure
  with_ports registry ecu_type [] s = (
    say "ERROR: No serial ports found. Please check device connections and drivers." [] s,
    plain "no serial ports found",
  )
  with_ports registry ecu_type (first ∷ others) s =
      let (port, s') = choose first others s in
      run_ecu registry ecu_type port (say (str_append "Using port: " port) [] s')

  -- `connectLoop` behind `getPorts`, with its error.
  unfoldable pub behind_ports :
      List (String × Handler)
      → String
      → List String
      → Option Failure
      → State
      → State × Option Failure
  behind_ports registry ecu_type ports (some e) s = (s, some e)
  behind_ports registry ecu_type ports none s = with_ports registry ecu_type ports s

  unfoldable pub connect_loop : Surroundings → State → State × Option Failure
  connect_loop around s =
      let idle : State = record s { connected = false } in
      let ecu_type = s.ecu_type in
      let starting =
        say "connectLoop: starting connection attempt for ECU type %q" (text ecu_type ∷ []) idle in
      let faked =
        run_ecu around.registry ecu_type ecu_type
          (say "connectLoop: fake mode, skipping serial port discovery" [] starting) in
      if str_eq ecu_type ""
      then (idle, plain "no ECU type selected")
      else (if str_eq ecu_type "fake"
          then faked
          else behind_ports around.registry ecu_type around.ports around.ports_error starting)

-- `attemptConnection` behind `connectLoop`.
unfoldable pub report : State → Option Failure → State × Bool
report s none = (s, false)
report s (some e) =
    if e.is_context then (s, false) else (set_error e.message (say e.message [] s), true)

-- The state, and whether the attempt failed.
unfoldable pub attempt_connection : (String → String) → Surroundings → State → State × Bool
attempt_connection quoted around s =
    let (s', failure) = connect_loop quoted around s in report s' failure
