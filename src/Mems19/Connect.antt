-- ===== src/Mems19/Connect.antt =====
-- internal/ecu/mems19/mems19.go: `Connect` and `flushInput`. What the port answers is an argument.
pub mod Handover
use rover_mems_ecu.Base.{ℕ, String, Bool, true, false, List, [], ◌∷◌, Option, none, some}
use rover_mems_ecu.Ecu.Log.{text}
use rover_mems_ecu.Mems19.SlowInit.{Pulse, BreakError, send_5_baud_wakeup}
use rover_mems_ecu.Mems19.Handshake.{
  Mems19, log_debug, Poll, Outcome, completed, aborted, panicked, handle_wake_up_handshake,
}

-- What a `Read` of `flushInput` gives: bytes, nothing, nothing in time, or another error.
pub data Flushed : Type 0 where
  stale nothing timed_out : Flushed
  failed : String → Flushed

-- `flushInput`. Behind the reads that are given, the port is silent.
unfoldable pub flush_input : List Flushed → Mems19 → Mems19
flush_input [] m = m
flush_input (stale ∷ reads) m = flush_input reads m
flush_input (nothing ∷ reads) m = m
flush_input (timed_out ∷ reads) m = m
flush_input (failed e ∷ reads) m = log_debug "serial read during flush: %v" (text e ∷ []) m

-- What `openPort`, the two calls of `SetReadTimeout`, each `Break`, the reads and the write answer.
pub record PortAnswers : Type 0 where
  pub open_error : Option String
  pub timeout_error : Option String
  pub stale_input : List Flushed
  pub breaks : ℕ → ℕ → Option String
  pub write_error : Option String
  pub polls : List Poll
  pub echoes : List Poll
  pub no_timeout_error : Option String
  pub leftovers : List Flushed

pub data Failure : Type 0 where
  open_failed set_timeout_failed : String → Failure
  wake_up_failed : BreakError → Failure

-- The handler behind `Connect`, the levels that it drove, whether the port is open, whether the handler
-- of MEMS 1.x has it, and the error.
pub record Connection : Type 0 where
  pub handler : Mems19
  pub pulses : List Pulse
  pub is_open : Bool
  pub handed_over : Bool
  pub failure : Option Failure

-- A return with an error, with `sp.Close()`.
abbrev pub give_up : Mems19 → List Pulse → Failure → Connection
give_up m pulses e = record {
  handler = m;
  pulses = pulses;
  is_open = false;
  handed_over = false;
  failure = some e;
}

-- What is logged of the handshake. Its error is dropped; `none` is a panic.
unfoldable pub conclude : Outcome → Option Mems19
conclude (completed m) = some (log_debug "1.9 wake-up handshake completed cleanly" [] m)
conclude (aborted m e) = some (
    log_debug "1.9 wake-up handshake did not complete cleanly: %v (continuing to 0xCA init anyway)"
      (text e ∷ []) m)
conclude panicked = none

-- `Connect` behind the last `SetReadTimeout`, with its error.
unfoldable pub release : PortAnswers → List Pulse → Option String → Mems19 → Connection
release port pulses (some e) m = give_up m pulses (set_timeout_failed e)
release port pulses none m = record {
  handler = log_debug "1.9 handing off port to shared mems1x data loop (0xCA init)" [] (
      log_debug "1.9 waiting P3 (%v) before the first request" (text "60ms" ∷ [])
        (flush_input port.leftovers m));
  pulses = pulses;
  is_open = true;
  handed_over = true;
  failure = none;
}

-- `Connect` behind the handshake.
unfoldable pub hand_over : PortAnswers → List Pulse → Option Mems19 → Option Connection
hand_over port pulses none = none
hand_over port pulses (some m) = some (release port pulses port.no_timeout_error m)

-- `Connect` behind `send5BaudWakeup`, with its error.
unfoldable pub behind_wakeup :
    PortAnswers → List Pulse → Option BreakError → Mems19 → Option Connection
behind_wakeup port pulses (some e) m = some (give_up m pulses (wake_up_failed e))
behind_wakeup port pulses none m =
    let m' = log_debug "1.9 5-baud wake-up sent, starting keyword handshake" [] m in
    hand_over port pulses
      (conclude (handle_wake_up_handshake port.write_error port.polls port.echoes m'))

-- `Connect` behind the first `SetReadTimeout`, with its error.
unfoldable pub wake_up : PortAnswers → Option String → Mems19 → Option Connection
wake_up port (some e) m = some (give_up m [] (set_timeout_failed e))
wake_up port none m =
    let m' =
      flush_input port.stale_input (log_debug "1.9 flushing stale input before wake-up" [] m) in
    let (pulses, failure) = send_5_baud_wakeup port.breaks in
    behind_wakeup port pulses failure
      (log_debug "1.9 sending 5-baud slow-init wake-up (address 0x16)" [] m')

-- `Connect` behind `openPort`, with its error.
unfoldable pub open_port : PortAnswers → String → Option String → Mems19 → Option Connection
open_port port name (some e) m = some (give_up m [] (open_failed e))
open_port port name none m =
    wake_up port port.timeout_error
      (log_debug "1.9 serial port %s opened at 9600 8N1" (text name ∷ []) m)

-- `Connect`; `none` is a panic.
unfoldable pub connect : PortAnswers → String → Mems19 → Option Connection
connect port name m =
    let m' = log_debug "Connecting to MEMS 1.9 ECU" [] m in
    open_port port name port.open_error
      (record m' { state = record m'.state { connected = false } })
