-- ===== src/Examples/Serials.antt =====
-- Concrete runs of internal/serial.
use rover_mems_ecu.Base.{ℕ, ◌≡◌, refl, true, false, List, [], ◌∷◌, ◌++◌, none, take, drop, arith}
use rover_mems_ecu.Serial.Port.{
  Port, Call, read_into, write_bytes, break_line, close_port, no_parity, call, calls,
}
use rover_mems_ecu.Serial.Capture.{
  Captured, capture, new_capture_port, event, event_error, trace_read, flush, put, settle,
}
use rover_mems_ecu.Serial.Capture.Transparent.{good_file, calls-capture}
use rover_mems_ecu.Serial.Capture.Trace.{transfers, of_calls, calls-transfers}
use rover_mems_ecu.Serial.Reader.{Worker, idle, sending, Reader, new_reader, exited, Reach}
use rover_mems_ecu.Serial.Reader.Fifo.{
  Within, here, next, Session, NotStarting, fresh, Within-Session,
}
use rover_mems_ecu.Serial.Reader.{work, begin, enter, read, send, collect, return}
use rover_mems_ecu.Serial.Reader.Stale.{stale_read}

-- A line that gives back what is written, and takes three bytes at a time.
abbrev line : Port (List ℕ)
line = record {
  read = λ n s. (drop n s, take n s, none);
  write = λ bytes s. (s ++ take 3 bytes, 3, none);
  set_read_timeout = λ t s. (s, none);
  break_for = λ d s. (s, none);
  close = λ s. (s, []);
}

abbrev clock : ℕ → ℕ
clock tick = tick

abbrev script : List Call
script =
    write_bytes (1 ∷ 2 ∷ 3 ∷ 4 ∷ [])
    ∷ read_into 2
    ∷ break_line 200
    ∷ read_into 9
    ∷ read_into 9
    ∷ close_port
    ∷ []

abbrev session : Captured (List ℕ)
session = new_capture_port clock [] "/dev/ttyUSB0" 9600 no_parity 0

calls-capture_example :
    ((calls (capture clock good_file line) script session).0.inner
      ≡ (calls line script session.inner).0)
    × ((calls (capture clock good_file line) script session).1
        ≡ (calls line script session.inner).1)
unfolding new_capture_port
calls-capture_example = calls-capture clock line script session refl

calls-transfers_example :
    transfers (calls (capture clock good_file line) script session).0.entries
    ≡ transfers session.entries
      ++ of_calls script (calls (capture clock good_file line) script session).1
unfolding calls call capture event event_error trace_read flush put settle new_capture_port
calls-transfers_example = calls-transfers clock good_file line script session refl

abbrev gone : Worker
gone = record { stopped = true; phase = exited; given = 9 ∷ [] }

-- The port gives two bytes; one is sent, and taken by `Read`.
abbrev busy : Reader
busy = record {
  channel = [];
  caller = idle;
  workers = record { stopped = false; phase = sending (8 ∷ []); given = 7 ∷ 8 ∷ [] } ∷ gone ∷ [];
  reads = (7 ∷ []) ∷ [];
}

busy-Within : Within (fresh (gone ∷ []) []) busy
busy-Within =
    next
      (next
        (next
          (next
            (next (next here (work [] (gone ∷ []) refl (enter refl refl)) tt)
              (work [] (gone ∷ []) refl (read (7 ∷ 8 ∷ []) refl)) tt)
            (work [] (gone ∷ []) refl (send 7 (8 ∷ []) refl (omega arith))) tt)
          (begin refl) tt)
        (collect [] 7 [] refl refl) tt)
      (return (7 ∷ []) refl refl) tt

Within-Session_example : Session (gone ∷ []) [] busy × NotStarting busy.caller
Within-Session_example = Within-Session (gone ∷ []) [] (refl, tt) busy-Within

stale_read_example :
    (s : Reader) × Reach new_reader s
    × (s.reads ≡ (0xCA ∷ []) ∷ [])
    × (new old : Worker) × (s.workers ≡ new ∷ old ∷ [])
    × (new.given ≡ [])
    × (old.given ≡ 0xCA ∷ [])
    × (old.stopped ≡ true)
stale_read_example = stale_read 0xCA []
