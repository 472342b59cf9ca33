-- ===== src/Serial/Reader.antt =====
-- internal/serial/readwrite.go: `Reader`, as the steps of its goroutines and of the one goroutine that
-- calls `Start`, `Stop` and `Read`. Each step is one operation on a channel or one call of the port.
pub mod Accounts
pub mod Fifo
pub mod Stale
use rover_mems_ecu.Base.{ℕ, ◌<◌, ◌≡◌, Bool, true, false, List, [], ◌∷◌, ◌++◌, length}

-- Where a read goroutine stands: at the head of its loop, in `sp.Read`, before the next byte that it
-- sends, or behind its `return`.
pub data Phase : Type 0 where
  at_head in_read exited : Phase
  sending : List ℕ → Phase

-- A read goroutine: whether its `done` is closed, and what its port has given it.
pub record Worker : Type 0 where
  pub stopped : Bool
  pub phase : Phase
  pub given : List ℕ

-- Where the caller stands: in no call, in `drain`, before the rest of `Start`, or in `Read`, with the
-- buffer.
pub data Caller : Type 0 where
  idle draining starting : Caller
  collecting : List ℕ → Caller

-- The goroutines with the newest in front, and the results of `Read`.
pub record Reader : Type 0 where
  pub channel : List ℕ
  pub caller : Caller
  pub workers : List Worker
  pub reads : List (List ℕ)

abbrev pub capacity : ℕ
capacity = 1024

abbrev pub new_reader : Reader
new_reader = record { channel = []; caller = idle; workers = []; reads = [] }

abbrev pub started : Worker
started = record { stopped = false; phase = at_head; given = [] }

-- `once.Do(func() { close(done) })`, on the `done` of the newest goroutine. The `done` of `NewReader`
-- has none.
abbrev pub stop_newest : List Worker → List Worker
stop_newest [] = []
stop_newest (w ∷ ws) = record w { stopped = true } ∷ ws

-- A step of a goroutine on the channel.
pub data WorkerStep : List ℕ → Worker → List ℕ → Worker → Type 0 where
  -- `case <-done: return`.
  leave :
      {ch : List ℕ} {w : Worker}
      → w.phase ≡ at_head
      → w.stopped ≡ true
      → WorkerStep ch w ch (record w { phase = exited })
  enter :
      {ch : List ℕ} {w : Worker}
      → w.phase ≡ at_head
      → w.stopped ≡ false
      → WorkerStep ch w ch (record w { phase = in_read })
  -- No error, or one that is a time-out.
  read :
      {ch : List ℕ} {w : Worker} (bytes : List ℕ)
      → w.phase ≡ in_read
      → WorkerStep ch w ch (record w { phase = sending bytes; given = w.given ++ bytes })
  -- Another error: the bytes that `Read` gives with it are dropped, and are not in `given`.
  fail :
      {ch : List ℕ} {w : Worker}
      → w.phase ≡ in_read
      → WorkerStep ch w ch (record w { phase = exited })
  -- `case r.channel <- rb[i]`.
  send :
      {ch : List ℕ} {w : Worker} (b : ℕ) (bs : List ℕ)
      → w.phase ≡ sending (b ∷ bs)
      → length ch < capacity
      → WorkerStep ch w (ch ++ (b ∷ [])) (record w { phase = sending bs })
  give_up :
      {ch : List ℕ} {w : Worker} (b : ℕ) (bs : List ℕ)
      → w.phase ≡ sending (b ∷ bs)
      → w.stopped ≡ true
      → WorkerStep ch w ch (record w { phase = exited })
  again :
      {ch : List ℕ} {w : Worker}
      → w.phase ≡ sending []
      → WorkerStep ch w ch (record w { phase = at_head })

pub data Step : Reader → Reader → Type 0 where
  work :
      {s : Reader} {w w' : Worker} {ch : List ℕ} (newer older : List Worker)
      → s.workers ≡ newer ++ (w ∷ older)
      → WorkerStep s.channel w ch w'
      → Step s (record s { channel = ch; workers = newer ++ (w' ∷ older) })
  -- `Start`: `drain`, whose `default` needs an empty channel, and the new goroutine.
  start : {s : Reader} → s.caller ≡ idle → Step s (record s { caller = draining })
  drain :
      {s : Reader} (b : ℕ) (rest : List ℕ)
      → s.caller ≡ draining
      → s.channel ≡ b ∷ rest
      → Step s (record s { channel = rest })
  drained :
      {s : Reader} → s.caller ≡ draining → s.channel ≡ [] → Step s (record s { caller = starting })
  spawn :
      {s : Reader}
      → s.caller ≡ starting
      → Step s (record s { caller = idle; workers = started ∷ s.workers })
  stop : {s : Reader} → s.caller ≡ idle → Step s (record s { workers = stop_newest s.workers })
  -- `Read`: what is in the channel until its `default`.
  begin : {s : Reader} → s.caller ≡ idle → Step s (record s { caller = collecting [] })
  collect :
      {s : Reader} (buffer : List ℕ) (b : ℕ) (rest : List ℕ)
      → s.caller ≡ collecting buffer
      → s.channel ≡ b ∷ rest
      → Step s (record s { channel = rest; caller = collecting (buffer ++ (b ∷ [])) })
  return :
      {s : Reader} (buffer : List ℕ)
      → s.caller ≡ collecting buffer
      → s.channel ≡ []
      → Step s (record s { caller = idle; reads = s.reads ++ (buffer ∷ []) })

pub data Reach (s : Reader) : Reader → Type 0 where
  here : Reach s s
  next : {t u : Reader} → Reach s t → Step t u → Reach s u
