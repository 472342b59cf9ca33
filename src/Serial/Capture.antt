-- ===== src/Serial/Capture.antt =====
-- internal/serial/capture.go: `capturePort`, a port around another one, and the part of `Open` that sets
-- it up. The clock, in microseconds, and what the file operations answer are arguments.
pub mod Transparent
pub mod Trace
use rover_mems_ecu.Base.{
  ℕ, ◌+◌, ◌-◌, String, str_eq, Bool, not, List, [], ◌∷◌, ◌++◌, Option, none, some, length, take,
  leb, if◌then◌else◌,
}
use rover_mems_ecu.Serial.Port.{PortError, Port, Parity}

-- What a line says behind its time and its kind; the bytes are printed by `hexBytes`.
pub data Detail : Type 0 where
  rx tx : List ℕ → Detail
  err : String → String → Detail
  -- The pulse as requested, and as it was.
  brk : ℕ → ℕ → Detail
  cfg : ℕ → Detail
  close_line : Detail

pub data Entry : Type 0 where
  header : String → ℕ → Parity → ℕ → Entry
  line : ℕ → Detail → Entry

-- `capturePort`: the port's own state, the lines that the writer has taken, how many of them are flushed,
-- and how often the clock has been read.
pub record Captured (S : Type 0) : Type 0 where
  pub inner : S
  pub entries : List Entry
  pub flushed : ℕ
  pub start : ℕ
  pub last_flush : ℕ
  pub ticks : ℕ
  -- The error that the `bufio.Writer` keeps.
  pub failed : Option PortError

-- What writing to the file answers after so many readings of the clock, where a line does not fit into
-- the writer's buffer and where it is flushed, and what `c.f.Close()` answers.
pub record FileErrors : Type 0 where
  pub overflow_error : ℕ → Option PortError
  pub flush_error : ℕ → Option PortError
  pub close_error : Option PortError

abbrev pub flush_interval : ℕ
flush_interval = 1000000

-- `errors.Join` leaves out what is nil.
abbrev pub join : Option PortError → List PortError → List PortError
join none es = es
join (some e) es = e ∷ es

-- `err != nil && !isTimeout(err)`.
abbrev pub unless_timeout : Option PortError → Option PortError
unless_timeout none = none
unless_timeout (some e) = if not e.is_timeout then some e else none

-- Once a write to the file has failed, the writer keeps its error.
abbrev pub keep_error : Option PortError → Option PortError → Option PortError
keep_error (some e) now = some e
keep_error none now = now

-- A line that is printed: with an error it is lost, whole or cut off.
unfoldable pub put : {S : Type 0} → Entry → Option PortError → Captured S → Captured S
put entry (some e) c = record c { failed = some e }
put entry none c = record c { entries = c.entries ++ (entry ∷ []); failed = none }

-- `c.w.Flush()` writes out all lines, or not.
unfoldable pub settle : {S : Type 0} → Option PortError → Captured S → Captured S
settle (some e) c = record c { failed = some e }
settle none c = record c { flushed = length c.entries; failed = none }

module _ {S : Type 0} (clock : ℕ → ℕ) where
  abbrev pub print : FileErrors → Entry → Captured S → Captured S
  print files entry c = put entry (keep_error c.failed (files.overflow_error c.ticks)) c

  abbrev pub write_out : FileErrors → Captured S → Captured S
  write_out files c = settle (keep_error c.failed (files.flush_error c.ticks)) c

  unfoldable pub flush : FileErrors → Captured S → Captured S
  flush files c = write_out files (record c { last_flush = clock c.ticks; ticks = c.ticks + 1 })

  -- `event`, which drops the error of its flush.
  unfoldable pub event : FileErrors → ℕ → Detail → Captured S → Captured S
  event files at detail c =
      let c' = print files (line at detail) c in
      if leb flush_interval (clock c.ticks - c.last_flush)
      then write_out files (record c' { last_flush = clock c.ticks; ticks = c.ticks + 1 })
      else record c' { ticks = c.ticks + 1 }

  -- `event` for an error, if there is one.
  unfoldable pub event_error : FileErrors → ℕ → String → Option PortError → Captured S → Captured S
  event_error files at op none c = c
  event_error files at op (some e) c = event files at (err op e.message) c

  -- A reading of the clock in front of an operation.
  abbrev pub tick : Captured S → Captured S
  tick c = record c { ticks = c.ticks + 1 }

  abbrev pub since : Captured S → ℕ
  since c = clock c.ticks - c.start

  unfoldable pub trace_read : FileErrors → ℕ → List ℕ → Captured S → Captured S
  trace_read files at [] c = c
  trace_read files at (b ∷ bs) c = event files at (rx (b ∷ bs)) c

  unfoldable pub capture : FileErrors → Port S → Port (Captured S)
  capture files p = record {
    read = λ n c.
        let (s, bytes, e) = p.read n c.inner in
        let at = since c in
        let c' : Captured S = record (tick c) { inner = s } in
        (event_error files at "read: " (unless_timeout e) (trace_read files at bytes c'), bytes, e);
    write = λ bytes c.
        let (s, n, e) = p.write bytes c.inner in
        let at = since c in
        let c' : Captured S = record (tick c) { inner = s } in
        (event_error files at "write: " e (event files at (tx (take n bytes)) c'), n, e);
    set_read_timeout = λ t c.
        let (s, e) = p.set_read_timeout t c.inner in
        let c' : Captured S = record (tick c) { inner = s } in
        (event files (since c) (cfg t) c', e);
    break_for = λ d c.
        let begin = since c in
        let (s, e) = p.break_for d c.inner in
        let c' : Captured S = record (tick c) { inner = s } in
        let end_of = since c' in
        let c'' = event files begin (brk d (end_of - begin)) (tick c') in
        (flush files (event_error files end_of "break: " e c''), e);
    close = λ c.
        let (s, es) = p.close c.inner in
        let c' : Captured S = record (tick c) { inner = s } in
        let c'' = event files (since c) close_line c' in
        (
          write_out files c'',
          es
              ++ join (keep_error c''.failed (files.flush_error c''.ticks))
                  (join files.close_error []),
        );
  }

  -- `newCapturePort`, whose file is open.
  unfoldable pub new_capture_port : S → String → ℕ → Parity → ℕ → Captured S
  new_capture_port s name baud parity ticks =
      let now = clock ticks in
      record {
        inner = s;
        entries = header name baud parity now ∷ [];
        flushed = 0;
        start = now;
        last_flush = now;
        ticks = ticks + 1;
        failed = none;
      }

-- A port that is traced, or not.
pub data Opened (S : Type 0) : Type 0 where
  plain : S → Opened S
  traced : Captured S → Opened S
  refused : String → Opened S
  -- The port has been closed again.
  no_capture_file : S → String → Opened S

-- `Open`, with what the serial library and `os.OpenFile` answer, and `port.Close()` of the library.
unfoldable pub open_port :
    {S : Type 0}
    → (ℕ → ℕ)
    → String
    → String
    → ℕ
    → Parity
    → S × Option String
    → Option String
    → (S → S)
    → Opened S
open_port clock capture_path name baud mode (s, some e) file_error shut = refused e
open_port clock capture_path name baud mode (s, none) file_error shut =
    if str_eq capture_path "" then plain s else elim file_error [
      | some e ↦ no_capture_file (shut s) e
      | none ↦ traced (new_capture_port clock s name baud mode 0)
    ]
