-- ===== src/Serial/Reader/Fifo.antt =====
-- What `Read` of internal/serial/readwrite.go gives within one Start/Stop cycle.
use rover_mems_ecu.Base.{
  ℕ, ◌≡◌, ◌∙◌, refl, sym, ap, subst, true, List, [], ◌∷◌, ◌++◌, append_assoc, append-nil, All,
}
use rover_mems_ecu.Mems19.Handshake.Response.{joined}
use rover_mems_ecu.Serial.Reader.Accounts.{hand, Accounts, WorkerStep-Accounts, WorkerStep-exited}
use rover_mems_ecu.Serial.Reader.{
  exited, Worker, Caller, idle, draining, starting, collecting, Reader, stop_newest, WorkerStep,
  Step, work, start, drain, drained, spawn, stop, begin, collect, return, started,
}

-- Steps in which `Start` is not called.
abbrev pub NotStarting : Caller → Type 0
NotStarting idle = Unit
NotStarting draining = ⊥
NotStarting starting = ⊥
NotStarting (collecting buffer) = Unit

pub data Within (s : Reader) : Reader → Type 0 where
  here : Within s s
  next : {t u : Reader} → Within s t → Step t u → NotStarting u.caller → Within s u

abbrev pub held : Caller → List ℕ
held idle = []
held draining = []
held starting = []
held (collecting buffer) = buffer

abbrev pub IsExited : Worker → Type 0
IsExited w = w.phase ≡ exited

All-middle :
    (newer older : List Worker) (w : Worker) → All IsExited (newer ++ (w ∷ older)) → IsExited w
All-middle [] older w (h, hs) = h
All-middle (x ∷ newer) older w (h, hs) = All-middle newer older w hs

-- The newest goroutine, and what has become of its bytes since the results `before`.
abbrev pub Session : List Worker → List (List ℕ) → Reader → Type 0
Session old before s =
    (w : Worker) × (results : List (List ℕ)) × (lost : List ℕ) × (s.workers ≡ w ∷ old)
    × (s.reads ≡ before ++ results)
    × Accounts (joined results ++ held s.caller) s.channel w lost

work-Session :
    (old : List Worker) (before : List (List ℕ)) (s : Reader) {w w' : Worker} {ch : List ℕ}
    (newer older : List Worker)
    → All IsExited old
    → s.workers ≡ newer ++ (w ∷ older)
    → WorkerStep s.channel w ch w'
    → Session old before s
    → Session old before (record s { channel = ch; workers = newer ++ (w' ∷ older) })
work-Session old before s {w} {w'} {ch} [] older quiet e st (v, results, lost, e', r, acc) =
    let first : v ≡ w = cc (sym e' ∙ e) in
    let rest : older ≡ old = cc (sym e' ∙ e) in
    let (lost', acc') =
      WorkerStep-Accounts (joined results ++ held s.caller) st lost
        (subst (λ x. Accounts (joined results ++ held s.caller) s.channel x lost) first acc) in
    (w', results, lost', ap (λ ws. w' ∷ ws) rest, r, acc')
work-Session old before s {w} {w'} {ch} (x ∷ newer) older quiet e st
      (v, results, lost, e', r, acc) =
    let rest : old ≡ newer ++ (w ∷ older) = cc (sym e' ∙ e) in
    absurd (WorkerStep-exited st (All-middle newer older w (subst (All IsExited) rest quiet)))

-- The same bytes, otherwise bracketed.
moved :
    (xs buffer rest : List ℕ) (b : ℕ)
    → (xs ++ (buffer ++ (b ∷ []))) ++ rest ≡ (xs ++ buffer) ++ (b ∷ rest)
moved xs buffer rest b = simp append_assoc

joined-append :
    (xs : List (List ℕ)) (last : List ℕ) → joined (xs ++ (last ∷ [])) ≡ joined xs ++ last
joined-append [] last = append-nil last
joined-append (x ∷ xs) last =
    ap (λ ys. x ++ ys) (joined-append xs last) ∙ sym (append_assoc x (joined xs) last)

-- Accounts with other names for what was taken and for the channel.
Accounts-same :
    (taken taken' ch ch' : List ℕ) (w : Worker) (lost : List ℕ)
    → taken' ++ ch' ≡ taken ++ ch
    → Accounts taken ch w lost
    → Accounts taken' ch' w lost
Accounts-same taken taken' ch ch' w lost e (all, kept, by) =
    let rest : List ℕ = hand w.phase ++ lost in
    (
      sym (append_assoc taken' ch' rest)
          ∙ ap (λ xs. xs ++ rest) e
          ∙ append_assoc taken ch rest
          ∙ all,
      kept,
      by,
    )

Step-Session :
    (old : List Worker) (before : List (List ℕ)) {s t : Reader}
    → All IsExited old
    → Step s t
    → NotStarting s.caller
    → NotStarting t.caller
    → Session old before s
    → Session old before t
Step-Session old before {s} quiet (work newer older e st) n n' h =
    work-Session old before s newer older quiet e st h
Step-Session old before quiet (start e) n n' h = absurd n'
Step-Session old before quiet (drain b rest e ec) n n' h = absurd (subst NotStarting e n)
Step-Session old before quiet (drained e ec) n n' h = absurd n'
Step-Session old before quiet (spawn e) n n' h = absurd (subst NotStarting e n)
Step-Session old before quiet (stop e) n n' (w, results, lost, e', r, (all, kept, by)) =
    (record w { stopped = true }, results, lost, ap stop_newest e', r, (all, λ f. cc, by))
Step-Session old before {s} quiet (begin e) n n' (w, results, lost, e', r, acc) = (
  w,
  results,
  lost,
  e',
  r,
  Accounts-same (joined results ++ held s.caller) (joined results ++ []) s.channel s.channel w lost
      (ap (λ c. (joined results ++ held c) ++ s.channel) (sym e)) acc,
)
Step-Session old before {s} quiet (collect buffer b rest e ec) n n' (w, results, lost, e', r, acc) =
    (
      w,
      results,
      lost,
      e',
      r,
      Accounts-same (joined results ++ held s.caller) (joined results ++ (buffer ++ (b ∷ [])))
          s.channel rest w lost
          (moved (joined results) buffer rest b
            ∙ ap (λ c. (joined results ++ held c) ++ (b ∷ rest)) (sym e)
            ∙ ap (λ xs. (joined results ++ held s.caller) ++ xs) (sym ec))
          acc,
    )
Step-Session old before {s} quiet (return buffer e ec) n n' (w, results, lost, e', r, acc) = (
  w,
  results ++ (buffer ∷ []),
  lost,
  e',
  ap (λ xs. xs ++ (buffer ∷ [])) r ∙ append_assoc before results (buffer ∷ []),
  Accounts-same (joined results ++ held s.caller) (joined (results ++ (buffer ∷ [])) ++ [])
      s.channel s.channel w lost
      (ap (λ xs. xs ++ s.channel)
        (append-nil (joined (results ++ (buffer ∷ [])))
          ∙ joined-append results buffer
          ∙ ap (λ c. joined results ++ held c) (sym e)))
      acc,
)

-- A reader behind `Start`, whose older goroutines have all returned.
abbrev pub fresh : List Worker → List (List ℕ) → Reader
fresh old before = record { channel = []; caller = idle; workers = started ∷ old; reads = before }

-- From the end of `Start` on, if all older goroutines have returned, and until it is called again:
-- whatever the order of the steps, the results of `Read`, with what the call under way has taken, the
-- channel, and what the goroutine has in hand are, in order, exactly the bytes that the new port has
-- given. Bytes are lost only once the goroutine has been stopped, and only the last ones.
pub Within-Session :
    (old : List Worker) (before : List (List ℕ)) {s : Reader}
    → All IsExited old
    → Within (fresh old before) s
    → Session old before s × NotStarting s.caller
Within-Session old before quiet here =
    ((started, [], [], refl, sym (append-nil before), (refl, λ f. refl, refl)), tt)
Within-Session old before quiet (next r st n) =
    let (h, n') = Within-Session old before quiet r in (Step-Session old before quiet st n' n h, n)
