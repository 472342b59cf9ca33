-- ===== src/Ecu/Log/History.antt =====
-- The ring of internal/ecu/ecu.go against the whole history of lines: what a polling consumer sees.
use Prim.Native.Nat.{max}
use rover_mems_ecu.Base.{
  ℕ, ◌+◌, ◌-◌, ◌≤◌, ◌≡◌, ap, List, [], ◌∷◌, ◌++◌, length, length-append, length-drop, append-nil,
  append_assoc, ◌∙◌, drop, drop_all, drop-drop, drop-append, arith,
}
use rover_mems_ecu.Ecu.Log.{Line, Log, max_log_lines, append_log, log_lines_since}

-- The log has seen the lines `h`, in order, and retains the last `max_log_lines` of them.
pub record Retains (l : Log) (h : List Line) : Type 0 where
  pub tail : l.lines ≡ drop (length h - max_log_lines) h
  pub counted : l.seq ≡ length h

-- Appending a line to a log of history `h` gives a log of history `h` and that line.
pub append_log-Retains :
    (msg : Line) (l : Log) (h : List Line)
    → Retains l h
    → Retains (append_log msg l) (h ++ (msg ∷ []))
unfolding append_log
append_log-Retains msg l h r =
    let cut = length h - 100 in
    let one : List Line = msg ∷ [] in
    ground (
      arith,
      length-append h one,
      length-append l.lines one,
      length-drop cut h,
      drop-append cut h one (omega arith),
      ap (λ (xs : List Line). xs ++ one) r.tail,
      ap (λ (xs : List Line). length xs) r.tail,
      drop-drop 1 cut (h ++ one),
    )

-- A consumer that polls with a cursor within the history gets exactly the lines that were appended
-- since, less those that the ring has dropped, and the cursor that stands for the whole history.
pub log_lines_since-Retains :
    (cursor : ℕ) (l : Log) (h : List Line)
    → Retains l h
    → cursor ≤ length h
    → log_lines_since cursor l ≡ (drop (max cursor (length h - max_log_lines)) h, length h)
unfolding log_lines_since
log_lines_since-Retains cursor l h r c =
    let cut = length h - 100 in
    let from = max cursor cut in
    ground (
      arith,
      length-drop cut h,
      ap (λ (xs : List Line). length xs) r.tail,
      drop_all (length h) h (omega arith),
      ap (λ (xs : List Line). drop (from - cut) xs) r.tail,
      drop-drop (from - cut) cut h,
    )

-- The lines that are logged between two polls.
abbrev pub append_logs : List Line → Log → Log
append_logs [] l = l
append_logs (m ∷ ms) l = append_logs ms (append_log m l)

pub append_logs-Retains :
    (ms : List Line) (l : Log) (h : List Line) → Retains l h → Retains (append_logs ms l) (h ++ ms)
append_logs-Retains [] l h r = rw append-nil r
append_logs-Retains (m ∷ ms) l h r =
    rw append_assoc at
      (append_logs-Retains ms (append_log m l) (h ++ (m ∷ [])) (append_log-Retains m l h r))

-- Whatever has been logged before, a consumer that polls again with the cursor of its last poll gets
-- exactly the lines that were appended in between, in order, if those are at most 100, and the
-- cursor for its next poll.
pub log_lines_since_stream :
    (l : Log) (h ms : List Line)
    → Retains l h
    → length ms ≤ max_log_lines
    → log_lines_since (length h) (append_logs ms l) ≡ (ms, length h + length ms)
log_lines_since_stream l h ms r few =
    log_lines_since-Retains (length h) (append_logs ms l) (h ++ ms) (append_logs-Retains ms l h r)
      (omega (arith, length-append h ms))
    ∙ ground (
      arith,
      length-append h ms,
      drop-append (length h) h ms (omega arith),
      drop_all (length h) h (omega arith),
    )
