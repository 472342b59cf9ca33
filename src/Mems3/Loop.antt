-- ===== src/Mems3/Loop.antt =====
-- `ReadData` of internal/ecu/mems3/mems3.go, over the events of Mems1x/Loop.
pub mod Packets
pub mod Safety
pub mod SetUp
use rover_mems_ecu.Base.{
  ℕ, ◌+◌, String, Bool, ◌&&◌, List, [], ◌∷◌, ◌++◌, Option, none, some, length, take, drop, get_or,
  ltb, leb, if◌then◌else◌,
}
use rover_mems_ecu.Ecu.Log.{Line, num, bytes}
use rover_mems_ecu.Ecu.State.{debug}
use rover_mems_ecu.Mems1x.Loop.{Event, cancelled, reads, no_error, timeout, failed}
use rover_mems_ecu.Mems2j.Commands.{bytes_equal}
use rover_mems_ecu.Mems3.Commands.{
  Mems3, log_debug, init_command, request_header, send_command, send_next_command,
}
use rover_mems_ecu.Mems3.Frames.{handle_frame}

-- The handler with the variables of `ReadData`.
pub record Session : Type 0 where
  pub m : Mems3
  pub buffer : List ℕ
  pub read_loops : ℕ

pub data Failure : Type 0 where
  context_done timed_out : Failure
  serial_read : String → Failure

pub data Outcome : Type 0 where
  running : Session → Outcome
  returned : Session → Failure → Outcome
  panicked : Outcome

abbrev pub read_loops_limit : ℕ
read_loops_limit = 200

abbrev pub note : Line → Mems3 → Mems3
note msg m = record m { state = debug msg m.state }

-- The two log lines of a frame that is burnt.
abbrev pub burn : List ℕ → List ℕ → ℕ → Mems3 → Mems3
burn buffer actual total m =
    note
      (record {
        format = "actualData %d bytes \n%s";
        args = num (length actual) ∷ bytes actual ∷ [];
      })
      (note
        (record {
          format = "unknown command in buffer (burning it): got %d bytes \n%s";
          args = num (length buffer) ∷ bytes (take total buffer) ∷ [];
        })
        m)

-- A whole frame in front of the buffer, with its payload.
unfoldable pub take_frame : Option String → List ℕ → ℕ → Session → Outcome
take_frame write_error actual total s =
    if bytes_equal (take 3 s.buffer) request_header
    then running (record s { buffer = drop total s.buffer })
    else elim (handle_frame actual s.m) [
      | none ↦ panicked
      | some (m, none) ↦
          running (record s { m = burn s.buffer actual total m; buffer = drop total s.buffer })
      | some (m, some reply) ↦
          running (record s { m = send_next_command write_error reply m; buffer = [] })
    ]

-- The loop's body behind the read.
unfoldable pub react : Option String → Session → Outcome
react write_error s =
    let size = get_or s.buffer 3 0 in
    let total = 3 + 1 + size + 1 in
    if leb 2 (length s.buffer) && bytes_equal (take 2 s.buffer) init_command
    then running (record s { m = log_debug "Got our init echo" s.m; buffer = drop 2 s.buffer })
    else (if ltb (length s.buffer) 4
        then running s
        else (if ltb (length s.buffer) total
            then running s
            else take_frame write_error (take size (drop 4 s.buffer)) total s))

unfoldable pub receive : List ℕ → Session → Session
receive [] s = record s { read_loops = s.read_loops + 1 }
receive (b ∷ rest) s = record s { buffer = s.buffer ++ (b ∷ rest); read_loops = 0 }

unfoldable pub step : Event → Session → Outcome
step cancelled s = returned s context_done
step (reads read (failed msg) write_error) s =
    returned (record s { read_loops = s.read_loops + 1 }) (serial_read msg)
step (reads read no_error write_error) s = react write_error (receive read s)
step (reads read timeout write_error) s = react write_error (receive read s)

unfoldable pub time_out : Session → Outcome
time_out s =
    returned
      (record s {
        m =
            note
              (record {
                format = "had buffer data: got %d bytes \n%s";
                args = num (length s.buffer) ∷ bytes s.buffer ∷ [];
              })
              s.m;
      })
      timed_out

unfoldable pub proceed : (Session → Outcome) → Outcome → Outcome
proceed f (running s) = f s
proceed f (returned s failure) = returned s failure
proceed f panicked = panicked

-- The loop, for as long as there are events.
unfoldable pub run : List Event → Session → Outcome
run [] s = if ltb s.read_loops read_loops_limit then running s else time_out s
run (e ∷ events) s =
    if ltb s.read_loops read_loops_limit then proceed (run events) (step e s) else time_out s

unfoldable pub read_data : Option String → List Event → Mems3 → Outcome
read_data write_error events m =
    run events (record { m = send_command write_error init_command m; buffer = []; read_loops = 0 })
