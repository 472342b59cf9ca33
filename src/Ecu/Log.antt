-- ===== src/Ecu/Log.antt =====
-- The debug log of internal/ecu/ecu.go: a ring of the last `max_log_lines` lines with a count of
-- all lines ever appended, and the cursor by which a consumer reads on.
pub mod History
use rover_mems_ecu.Base.{
  ℕ, ◌+◌, ◌-◌, String, Bool, true, false, List, [], ◌∷◌, ◌++◌, length, drop, ltb, ◌==◌,
  if◌then◌else◌,
}

-- An argument of `LogDebug` or `LogDebugf`.
pub data Arg : Type 0 where
  text : String → Arg
  num : ℕ → Arg
  -- A byte slice under `%X` or `hex.Dump`.
  bytes : List ℕ → Arg
  -- The code points of a message under `%s`.
  runes : List ℕ → Arg

-- A line before it is formatted: the format and its arguments.
pub record Line : Type 0 where
  pub format : String
  pub args : List Arg

pub record Log : Type 0 where
  pub debug_mode : Bool
  pub lines : List Line
  pub seq : ℕ

abbrev pub max_log_lines : ℕ
max_log_lines = 100

-- `appendLog`, less its `fmt.Println`. The slice expression keeps the last `max_log_lines`.
unfoldable pub append_log : Line → Log → Log
append_log msg l =
    let lines' = l.lines ++ (msg ∷ []) in
    record l {
      lines =
          if ltb max_log_lines (length lines')
          then drop (length lines' - max_log_lines) lines'
          else lines';
      seq = l.seq + 1;
    }

-- `LogDebug` and `LogDebugf`.
unfoldable pub log_debug : Line → Log → Log
log_debug msg l = elim l.debug_mode [ true ↦ append_log msg l | false ↦ l ]

-- `LogLinesSince`: the lines after `cursor`, and the next cursor.
pub log_lines_since : ℕ → Log → List Line × ℕ
log_lines_since cursor l =
    let oldest = l.seq - length l.lines in
    let from = if ltb cursor oldest then oldest else cursor in
    let from' = if ltb l.seq from then l.seq else from in
    if from' == l.seq then ([], l.seq) else (drop (from' - oldest) l.lines, l.seq)
