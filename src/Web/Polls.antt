-- ===== src/Web/Polls.antt =====
-- internal/web/server.go: `wsHandler` and `wsIteration`, which answer the dashboard's polls. JSON encoding
-- is the argument `marshal`. What else the agent does before a message comes is part of the poll: it may
-- change the state in any way, but only appends to the log. A message is a list of code points.
pub mod Lines
use mathlib.Core.List.{reverse}
use rover_mems_ecu.Base.{
  ℕ, String, Bool, true, false, not, ◌&&◌, ◌||◌, List, [], ◌∷◌, ◌++◌, Option, none, some, leb, ◌==◌,
  if◌then◌else◌,
}
use rover_mems_ecu.Ecu.Log.{Line, Log, Arg, text, runes, append_log, log_lines_since}
use rover_mems_ecu.Ecu.Log.History.{append_logs}
use rover_mems_ecu.Ecu.State.{State, Snapshot, snapshot, debug}
use rover_mems_ecu.Web.Streams.{Write}

-- `unicode.IsSpace`.
unfoldable pub is_space : ℕ → Bool
is_space c =
    (leb 9 c && leb c 13)
    || (c == 0x20
        || (c == 0x85
            || (c == 0xA0
                || (c == 0x1680
                    || ((leb 0x2000 c && leb c 0x200A)
                        || (c == 0x2028
                            || (c == 0x2029 || (c == 0x202F || (c == 0x205F || c == 0x3000)))))))))

unfoldable pub trim_left : List ℕ → List ℕ
trim_left [] = []
trim_left (c ∷ cs) = if is_space c then trim_left cs else c ∷ cs

-- `strings.TrimSpace`.
unfoldable pub trim_space : List ℕ → List ℕ
trim_space cs = reverse (trim_left (reverse (trim_left cs)))

unfoldable pub is_dot : List ℕ → Bool
is_dot (c ∷ []) = c == 0x2E
is_dot _ = false

-- `strings.TrimSpace(string(message)) == "."`.
unfoldable pub is_poll : List ℕ → Bool
is_poll message = is_dot (trim_space message)

-- What is encoded: the fields of the snapshot, and these.
pub record Payload : Type 0 where
  pub snapshot : Snapshot
  pub timestamp : String
  pub log_lines : List Line

-- A round: what else happens before the message, whether `SetReadDeadline` succeeds, the message (`none`
-- for an error of `ReadMessage`), the time and the outcome of the write.
pub record Poll : Type 0 where
  pub others : State → State
  pub logged : List Line
  pub deadline_set : Bool
  pub message : Option (List ℕ)
  pub timestamp : String
  pub write : Write

-- The state, the cursor, what was written, and whether there is an error.
pub record Iteration : Type 0 where
  pub state : State
  pub cursor : ℕ
  pub sent : List Payload
  pub failed : Bool

-- The state that the handler finds.
unfoldable pub found : Poll → State → State
found p s = record (p.others s) { log = append_logs p.logged s.log }

abbrev pub quit : ℕ → State → Iteration
quit cursor s = record { state = s; cursor = cursor; sent = []; failed = true }

-- The answer behind `json.Marshal`.
unfoldable pub deliver : Write → ℕ → ℕ → Payload → Option (List ℕ) → State → Iteration
deliver w cursor next payload none s = quit cursor s
deliver w cursor next payload (some json) s =
    if not w.deadline_set
    then quit cursor s
    else (if w.written
        then record { state = s; cursor = next; sent = payload ∷ []; failed = false }
        else quit cursor s)

module _ (marshal : Payload → Option (List ℕ)) where
  unfoldable pub answer : Poll → ℕ → State → Iteration
  answer p cursor s =
      let (lines, next) = log_lines_since cursor s.log in
      let payload : Payload = record {
        snapshot = snapshot s;
        timestamp = p.timestamp;
        log_lines = lines;
      } in
      deliver p.write cursor next payload (marshal payload) s

  -- `wsIteration` behind `ReadMessage`.
  unfoldable pub behind_read : Poll → ℕ → State → Option (List ℕ) → Iteration
  behind_read p cursor s none = quit cursor s
  behind_read p cursor s (some message) =
      if not (is_poll message)
      then record {
        state =
            debug
              (record { format = "ws: ignoring unexpected message: %s"; args = runes message ∷ [] })
              s;
        cursor = cursor;
        sent = [];
        failed = false;
      }
      else answer p cursor s

  unfoldable pub ws_iteration : Poll → ℕ → State → Iteration
  ws_iteration p cursor s =
      if not p.deadline_set
      then quit cursor (found p s)
      else behind_read p cursor (found p s) p.message

  -- The loop of `wsHandler` from a cursor on. It ends with the first error.
  unfoldable pub run_polls : List Poll → ℕ → State → Iteration
  run_polls [] cursor s = record { state = s; cursor = cursor; sent = []; failed = false }
  run_polls (p ∷ ps) cursor s =
      let r = ws_iteration p cursor s in
      let later = run_polls ps r.cursor r.state in
      if r.failed then r else record later { sent = r.sent ++ later.sent }

  -- `wsHandler`, with the error of `Upgrade`.
  unfoldable pub ws_handler : Option String → List Poll → State → Iteration
  ws_handler none polls s = run_polls polls 0 s
  ws_handler (some e) polls s = record {
    state =
        debug (record { format = "Failed to upgrade WebSocket connection:"; args = text e ∷ [] }) s;
    cursor = 0;
    sent = [];
    failed = true;
  }
