-- ===== src/Mems1x/Loop.antt =====
-- `loop` of internal/ecu/mems1x/loop.go: the request and response loop of a MEMS 1.x ECU. The bytes
-- and errors that the serial port and the context give are the events of a run; sleeping is left out.
pub mod Replies
pub mod Silence
pub mod Writes
use rover_mems_ecu.Base.{
  ℕ, ◌+◌, String, Bool, true, false, not, ◌&&◌, List, [], ◌∷◌, ◌++◌, Option, none, some, lookup,
  take, length, ltb, leb, ◌==◌, get_or, if◌then◌else◌, str_append,
}
use rover_mems_ecu.Ecu.Log.{Line, text, num, bytes}
use rover_mems_ecu.Ecu.State.{State, debug, set_alert}
use rover_mems_ecu.Mems1x.Commands.{Mems1x, command_names, next_command, send}
use rover_mems_ecu.Mems1x.Frames.{parse_data80, parse_data7d}

-- What `sp.Read` says beside its bytes: no error, one whose `Timeout()` holds, or another.
pub data ReadError : Type 0 where
  no_error : ReadError
  timeout : ReadError
  failed : String → ReadError

-- One round of the loop, as its surroundings decide it: the context is done, or the port reads
-- these bytes, and a byte that the round sends meets this error of `Write`.
pub data Event : Type 0 where
  cancelled : Event
  reads : List ℕ → ReadError → Option String → Event

-- The error that `loop` returns.
pub data Failure : Type 0 where
  context_done : Failure
  serial_read : String → Failure
  timed_out : ℕ → String → Failure

-- The handler with the variables of `loop`.
pub record Session : Type 0 where
  pub m : Mems1x
  pub buffer : List ℕ
  pub read_loops : ℕ

pub data Outcome : Type 0 where
  running : Session → Outcome
  returned : Session → Failure → Outcome
  -- An index beyond the end of a frame.
  panicked : Outcome

abbrev pub read_loops_limit : ℕ
read_loops_limit = 200

abbrev pub note : Line → Session → Session
note msg s = record s { m = record s.m { state = debug msg s.m.state } }

-- `m.send(sp, m.nextCommand(buffer[0])); buffer = nil`.
unfoldable pub answer : Option String → ℕ → Session → Session
answer write_error b s =
    let (state, command) = next_command b s.m.state in
    record s { m = send write_error command (record s.m { state = state }); buffer = [] }

-- The case of 0x80 and 0x7D. `parse` is the parser of that frame.
unfoldable pub data_frame :
    (List ℕ → State → Option State) → Line → Option String → ℕ → List ℕ → Session → Outcome
data_frame parse msg write_error b [] s = running s
data_frame parse msg write_error b (size ∷ rest) s =
    if leb (size + 1) (length (b ∷ size ∷ rest))
    then elim (parse (b ∷ size ∷ rest) (debug msg s.m.state)) [
      | none ↦ panicked
      | some state ↦ running (answer write_error b (record s { m = record s.m { state = state } }))
    ]
    else running s

-- The `switch` on `buffer[0]`, the byte `b` before `rest`.
unfoldable pub switch : Option String → ℕ → List ℕ → Session → Outcome
switch write_error b rest s =
    let got : String → Session =
      λ msg. answer write_error b (note (record { format = msg; args = [] }) s) in
    if b == 0xCC
    then running (
        if leb 1 (length rest) && (get_or rest 0 1 == 0)
        then (let s' : Session = note (record { format = "< FAULTS CLEARED"; args = [] }) s in
            answer write_error b (record s' {
              m = record s'.m { state = set_alert "ECU reports faults cleared" s'.m.state };
            }))
        else s)
    else (if b == 0xCA
        then running (got "Got 0xCA")
        else (if b == 0x75
            then running (got "Got 0x75")
            else (if b == 0xF4
                then running (
                    if leb 1 (length rest) && (get_or rest 0 1 == 0)
                    then got "Got 0xF4 0x00"
                    else s)
                else (if b == 0xD0
                    then running (
                        if leb 4 (length rest)
                        then (let linked : Session = record s {
                          m = record s.m { state = record s.m.state { connected = true } };
                        } in
                            let msg : Line = record {
                              format = "Got 0xD0, ECU ID: %s";
                              args = bytes (take 4 rest) ∷ [];
                            } in
                            answer write_error b (note msg linked))
                        else s)
                    else (if b == 0x80
                        then data_frame parse_data80
                            (record { format = "Got data 0x80"; args = [] }) write_error b rest s
                        else (if b == 0x7D
                            then data_frame parse_data7d
                                (record { format = "Got data 0x7D"; args = [] }) write_error b rest
                                s
                            else running (
                                note
                                  (record {
                                    format = "Unrecognised byte %02X — waiting for more data";
                                    args = num b ∷ [];
                                  })
                                  s)))))))

-- An acknowledged user command: `SetAlert("ECU accepted " + name)` and the next byte.
unfoldable pub accepted : Option String → ℕ → String → Session → Session
accepted write_error b name s =
    let s' : Session = note (record { format = "< "; args = text name ∷ [] }) s in
    answer write_error b (record s' {
      m = record s'.m { state = set_alert (str_append "ECU accepted " name) s'.m.state };
    })

-- The test of `commandNames` and the `switch`, behind the echo.
unfoldable pub process : Option String → ℕ → List ℕ → Session → Outcome
process write_error b rest s =
    let processing = note (record { format = "Processing byte: %02X"; args = num b ∷ [] }) s in
    elim rest [
      | [] ↦ switch write_error b [] processing
      | c ∷ rest' ↦ elim (lookup b command_names) [
        | none ↦ switch write_error b (c ∷ rest') processing
        | some name ↦ running (accepted write_error b name s)
      ]
    ]

-- The loop's body behind the read, for a session that holds the bytes read.
unfoldable pub react : Bool → Option String → List ℕ → Session → Outcome
react kline write_error [] s = running s
react kline write_error (b ∷ rest) s =
    if kline && not s.m.got_kline_echo
    then (if b == s.m.last_kline_byte
        then (let s' : Session = record s {
          m = record s.m { got_kline_echo = true };
          buffer = rest;
        } in
            running (
              note
                (record {
                  format = "K-line echo consumed: %02X (buffer remaining: %v)";
                  args = num b ∷ bytes rest ∷ [];
                })
                s'))
        else process write_error b rest (
            note
              (record {
                format = "Expected K-line echo %02X, got %02X";
                args = num s.m.last_kline_byte ∷ num b ∷ [];
              })
              s))
    else process write_error b rest s

-- `buffer = append(buffer, rb[:n]...)` and the counter of empty reads.
unfoldable pub receive : List ℕ → Session → Session
receive [] s = record s { read_loops = s.read_loops + 1 }
receive (b ∷ rest) s = record s { buffer = s.buffer ++ (b ∷ rest); read_loops = 0 }

-- One round, for a session whose counter is below the limit.
unfoldable pub step : Bool → Event → Session → Outcome
step kline cancelled s = returned s context_done
step kline (reads read (failed msg) write_error) s =
    returned (record s { read_loops = s.read_loops + 1 }) (serial_read msg)
step kline (reads read no_error write_error) s =
    let s' = receive read s in react kline write_error s'.buffer s'
step kline (reads read timeout write_error) s =
    let s' = receive read s in react kline write_error s'.buffer s'

abbrev pub echo_state : Bool → Mems1x → String
echo_state kline m =
    if kline
    then (if m.got_kline_echo then "echo consumed" else "echo not seen")
    else "echo tracking off"

-- What is behind the loop: `readLoops >= readLoopsLimit`.
unfoldable pub time_out : Bool → Session → Outcome
time_out kline s =
    let state = echo_state kline s.m in
    returned
      (note
        (record {
          format = "Timed out waiting for a reply to %02X (%s) — buffer: %d bytes\n%s";
          args = num s.m.last_kline_byte ∷ text state ∷ num (length s.buffer) ∷ bytes s.buffer ∷ [];
        })
        s)
      (timed_out s.m.last_kline_byte state)

-- The rounds that follow one that did not end the loop.
unfoldable pub proceed : (Session → Outcome) → Outcome → Outcome
proceed f (running s) = f s
proceed f (returned s failure) = returned s failure
proceed f panicked = panicked

-- The loop, for as long as there are events.
unfoldable pub run : Bool → List Event → Session → Outcome
run kline [] s = if ltb s.read_loops read_loops_limit then running s else time_out kline s
run kline (e ∷ events) s = elim (ltb s.read_loops read_loops_limit) [
  | false ↦ time_out kline s
  | true ↦ proceed (run kline events) (step kline e s)
]

-- `loop`, which begins with the first byte of the hand-shake. `write_error` is that of its `Write`.
unfoldable pub loop : Bool → Option String → List Event → Mems1x → Outcome
loop kline write_error events m =
    run kline events (record { m = send write_error 0xCA m; buffer = []; read_loops = 0 })
