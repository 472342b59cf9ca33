-- ===== src/Web/Polls/Lines.antt =====
-- Which log lines the dashboard gets from `wsHandler` of internal/web/server.go.
use rover_mems_ecu.Base.{
  ℕ, ◌+◌, ◌≤◌, ◌≡◌, refl, ap, ◌∙◌, sym, Bool, true, false, not, ◌&&◌, List, [], ◌∷◌, ◌++◌,
  append_assoc, append-nil, length, length-append, drop_all, drop-append, Option, none, some, leb,
  both, Bool-cases, and_true, inl, inr, arith, if◌then◌else◌,
}
use rover_mems_ecu.Ecu.Log.{Line, Log, runes, log_debug, log_lines_since}
use rover_mems_ecu.Ecu.Log.History.{
  Retains, append_log-Retains, log_lines_since-Retains, append_logs-Retains,
}
use rover_mems_ecu.Ecu.State.{State, debug}
use rover_mems_ecu.Web.Streams.{Write}
use rover_mems_ecu.Web.Polls.{
  is_poll, Payload, Poll, Iteration, found, deliver, answer, behind_read, ws_iteration, run_polls,
}

-- The log lines of what is sent.
abbrev pub lines_of : List Payload → List Line
lines_of [] = []
lines_of (p ∷ ps) = p.log_lines ++ lines_of ps

-- Whether a message asks for an answer.
unfoldable pub asks : Option (List ℕ) → Bool
asks none = false
asks (some message) = is_poll message

-- How many lines wait at most behind a poll, with `n` before it.
unfoldable pub waiting : Poll → ℕ → ℕ
waiting p n = if asks p.message then 0 else n + length p.logged + 1

-- Whether at most 100 lines are logged between two answers, with `n` before the first poll.
unfoldable pub keeps_up : ℕ → List Poll → Bool
unfolding waiting asks
keeps_up n [] = true
keeps_up n (p ∷ ps) = leb (n + length p.logged) 100 && keeps_up (waiting p n) ps

-- A consumer that has seen all lines but at most 100 gets exactly these.
log_lines_since-rest :
    (l : Log) (seen rest : List Line)
    → Retains l (seen ++ rest)
    → length rest ≤ 100
    → log_lines_since (length seen) l ≡ (rest, length (seen ++ rest))
log_lines_since-rest l seen rest r few =
    log_lines_since-Retains (length seen) l (seen ++ rest) r
      (omega (arith, length-append seen rest))
    ∙ ground (
      arith,
      length-append seen rest,
      drop-append (length seen) seen rest (omega arith),
      drop_all (length seen) seen (omega arith),
    )

-- The state behind a round in which the lines `out` were sent and `w` wait for the next.
record Follows (seen : List Line) (n : ℕ) (r : Iteration) : Type 0 where
  rest : List Line
  retains : Retains r.state.log ((seen ++ lines_of r.sent) ++ rest)
  cursor : r.failed ≡ false → r.cursor ≡ length (seen ++ lines_of r.sent)
  few : r.failed ≡ false → length rest ≤ n

quit-Follows :
    (seen rest : List Line) (n cursor : ℕ) (s : State)
    → Retains s.log (seen ++ rest)
    → Follows seen n (record { state = s; cursor = cursor; sent = []; failed = true })
quit-Follows seen rest n cursor s r = record {
  rest = rest;
  retains = rw append-nil r;
  cursor = λ e. cc;
  few = λ e. cc;
}

deliver-Follows :
    (seen rest : List Line) (w : Write) (cursor n : ℕ) (payload : Payload) (json : Option (List ℕ))
    (s : State)
    → Retains s.log (seen ++ rest)
    → payload.log_lines ≡ rest
    → Follows seen n (deliver w cursor (length (seen ++ rest)) payload json s)
unfolding deliver
deliver-Follows seen rest w cursor n payload none s r e = quit-Follows seen rest n cursor s r
deliver-Follows seen rest w cursor n payload (some json) s r e =
    both (Follows seen n) (not w.deadline_set) (quit-Follows seen rest n cursor s r) (
      both (Follows seen n) w.written
        (record {
          rest = [];
          retains = rw (append-nil, append-nil, e) r;
          cursor = λ q. rw (append-nil, e) refl;
          few = λ q. omega arith;
        })
        (quit-Follows seen rest n cursor s r))

found-Retains :
    (p : Poll) (seen rest : List Line) (s : State)
    → Retains s.log (seen ++ rest)
    → Retains (found p s).log (seen ++ (rest ++ p.logged))
unfolding found
found-Retains p seen rest s r =
    rw append_assoc at (append_logs-Retains p.logged s.log (seen ++ rest) r)

debug-Retains :
    (msg : Line) (l : Log) (h : List Line)
    → Retains l h
    → (extra : List Line) × (Retains (log_debug msg l) (h ++ extra) × (length extra ≤ 1))
unfolding log_debug
debug-Retains msg l h r = elim (Bool-cases l.debug_mode) [
  | inl on ↦ (msg ∷ [], (rw (log_debug, on) (append_log-Retains msg l h r), omega arith))
  | inr off ↦ ([], (rw (log_debug, off, append-nil) r, omega arith))
]

ignore-Follows :
    (seen rest extra : List Line) (n : ℕ) (s : State) (msg : Line)
    → Retains (log_debug msg s.log) ((seen ++ rest) ++ extra)
    → length rest ≤ n
    → length extra ≤ 1
    → Follows seen
        (n + 1)
        (record { state = debug msg s; cursor = length seen; sent = []; failed = false })
ignore-Follows seen rest extra n s msg r few one = record {
  rest = rest ++ extra;
  retains = rw (append-nil, sym (append_assoc seen rest extra)) r;
  cursor = λ q. rw append-nil refl;
  few = λ q. omega (arith, length-append rest extra);
}

-- All lines but some are sent, in order.
abbrev Kept : List Line → Iteration → Type 0
Kept seen r = (w : List Line) × Retains r.state.log ((seen ++ lines_of r.sent) ++ w)

lines_of-append : (ps qs : List Payload) → lines_of (ps ++ qs) ≡ lines_of ps ++ lines_of qs
lines_of-append [] qs = refl
lines_of-append (p ∷ ps) qs =
    ap (λ (xs : List Line). p.log_lines ++ xs) (lines_of-append ps qs)
    ∙ sym (append_assoc p.log_lines (lines_of ps) (lines_of qs))

combine :
    (seen : List Line) (i later : Iteration)
    → Kept seen i
    → (i.failed ≡ false → Kept (seen ++ lines_of i.sent) later)
    → Kept seen (if i.failed then i else record later { sent = i.sent ++ later.sent })
combine seen i later ended on = elim (Bool-cases i.failed) [
  | inl e ↦ rw e ended
  | inr e ↦
      let (w, r) = on e in
      rw e (
        w,
        rw
            (
              lines_of-append i.sent later.sent,
              sym (append_assoc seen (lines_of i.sent) (lines_of later.sent)),
            )
            r,
      )
]

module _ (marshal : Payload → Option (List ℕ)) where
  answer-Follows :
      (p : Poll) (seen rest : List Line) (n : ℕ) (s : State)
      → Retains s.log (seen ++ rest)
      → length rest ≤ 100
      → Follows seen n (answer marshal p (length seen) s)
  unfolding answer
  answer-Follows p seen rest n s r few =
      rw (log_lines_since-rest s.log seen rest r few)
        (deliver-Follows seen rest p.write (length seen) n _ (marshal _) s r refl)

  behind_read-Follows :
      (p : Poll) (seen rest : List Line) (n : ℕ) (s : State) (message : Option (List ℕ))
      → Retains s.log (seen ++ rest)
      → length rest ≤ n
      → leb n 100 ≡ true
      → Follows seen
          (if asks message then 0 else n + 1)
          (behind_read marshal p (length seen) s message)
  unfolding behind_read asks
  behind_read-Follows p seen rest n s none r few fits =
      quit-Follows seen rest (n + 1) (length seen) s r
  behind_read-Follows p seen rest n s (some message) r few fits =
      elim (Bool-cases (is_poll message)) [
        | inl dot ↦ rw (behind_read, asks, dot) (answer-Follows p seen rest 0 s r (ground arith))
        | inr other ↦
            let msg : Line = record {
              format = "ws: ignoring unexpected message: %s";
              args = runes message ∷ [];
            } in
            let (extra, (retains, one)) = debug-Retains msg s.log (seen ++ rest) r in
            rw (behind_read, asks, other) (ignore-Follows seen rest extra n s msg retains few one)
      ]

  ws_iteration-Follows :
      (p : Poll) (seen rest : List Line) (n : ℕ) (s : State)
      → Retains s.log (seen ++ rest)
      → length rest ≤ n
      → leb (n + length p.logged) 100 ≡ true
      → Follows seen (waiting p n) (ws_iteration marshal p (length seen) s)
  unfolding ws_iteration waiting
  ws_iteration-Follows p seen rest n s r few fits =
      both (Follows seen _) (not p.deadline_set)
        (quit-Follows seen (rest ++ p.logged) _ (length seen) (found p s)
          (found-Retains p seen rest s r))
        (behind_read-Follows p seen (rest ++ p.logged) (n + length p.logged) (found p s) p.message
          (found-Retains p seen rest s r) (omega (arith, length-append rest p.logged)) fits)

  run_polls-Follows :
      (ps : List Poll) (seen rest : List Line) (n : ℕ) (s : State)
      → Retains s.log (seen ++ rest)
      → length rest ≤ n
      → keeps_up n ps ≡ true
      → Kept seen (run_polls marshal ps (length seen) s)
  unfolding run_polls keeps_up
  run_polls-Follows [] seen rest n s r few fits = (rest, rw append-nil r)
  run_polls-Follows (p ∷ ps) seen rest n s r few fits =
      let i = ws_iteration marshal p (length seen) s in
      let (now, later) =
        and_true (leb (n + length p.logged) 100) (keeps_up (waiting p n) ps) fits in
      let here = ws_iteration-Follows p seen rest n s r few now in
      combine seen i (run_polls marshal ps i.cursor i.state) (here.rest, here.retains)
        (λ on. rw (here.cursor on) (
          run_polls-Follows ps (seen ++ lines_of i.sent) here.rest (waiting p n) i.state
            here.retains (here.few on) later))

  -- From a cursor that stands for the whole log on, and as long as at most 100 lines are logged from one
  -- answer to the next: whatever the dashboard sends, also what is no poll, and whichever step fails, the
  -- log's history is continued by exactly the lines of the answers, in order, each once, and by those that
  -- no answer has yet.
  pub run_polls-lines :
      (ps : List Poll) (seen : List Line) (s : State)
      → Retains s.log seen
      → keeps_up 0 ps ≡ true
      → (w : List Line) × Retains
          (run_polls marshal ps (length seen) s).state.log
          ((seen ++ lines_of (run_polls marshal ps (length seen) s).sent) ++ w)
  run_polls-lines ps seen s r fits =
      run_polls-Follows ps seen [] 0 s (rw append-nil r) (omega arith) fits
