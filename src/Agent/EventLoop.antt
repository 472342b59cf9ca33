-- ===== src/Agent/EventLoop.antt =====
-- cmd/rover-mems/main.go: `nextRetryDelay` and `runEventLoop`. Durations are in seconds; a round of the
-- loop is given what its attempt finds and whether the context is done.
pub mod Backoff
use rover_mems_ecu.Base.{ℕ, ◌*◌, String, Bool, true, false, List, [], ◌∷◌, ltb, if◌then◌else◌}
use rover_mems_ecu.Ecu.State.{State, debug}
use rover_mems_ecu.Agent.Connect.{Surroundings, attempt_connection}

abbrev pub min_retry_delay : ℕ
min_retry_delay = 1

abbrev pub max_retry_delay : ℕ
max_retry_delay = 30

unfoldable pub next_retry_delay : ℕ → Bool → ℕ
next_retry_delay current failed =
    let next = current * 2 in
    if failed then (if ltb max_retry_delay next then max_retry_delay else next) else min_retry_delay

-- A round: whether the context is done before it, what the attempt finds, and whether the context is
-- done before the wait is over.
pub record Round : Type 0 where
  pub done_before : Bool
  pub around : Surroundings
  pub done_after : Bool

-- The waits that the loop has started, the state, and whether the loop has returned.
pub record Progress : Type 0 where
  pub waits : List ℕ
  pub state : State
  pub returned : Bool

abbrev shut_down : List ℕ → State → Progress
shut_down waits s = record {
  waits = waits;
  state = debug (record { format = "Shutting down..."; args = [] }) s;
  returned = true;
}

module _ (quoted : String → String) where
  -- The loop from a delay on.
  unfoldable pub run_rounds : List Round → ℕ → State → Progress
  run_rounds [] delay s = record { waits = []; state = s; returned = false }
  run_rounds (r ∷ rs) delay s =
      let (s', failed) = attempt_connection quoted r.around s in
      let delay' = next_retry_delay delay failed in
      let later = run_rounds rs delay' s' in
      if r.done_before
      then shut_down [] s
      else (if r.done_after
          then shut_down (delay' ∷ []) s'
          else record later { waits = delay' ∷ later.waits })

  unfoldable pub run_event_loop : List Round → State → Progress
  run_event_loop rounds s = run_rounds rounds min_retry_delay s
