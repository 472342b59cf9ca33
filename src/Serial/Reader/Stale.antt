-- ===== src/Serial/Reader/Stale.antt =====
-- That bytes of an old port can reach a new session of internal/serial/readwrite.go.
use rover_mems_ecu.Base.{ℕ, ◌≡◌, refl, true, List, [], ◌∷◌, arith}
use rover_mems_ecu.Serial.Reader.{
  sending, Worker, idle, Reader, new_reader, started, enter, read, send, work, start, drained,
  spawn, stop, begin, collect, return, Reach, here, next,
}

-- The goroutine of the first session, which has been stopped before it sends.
abbrev late : List ℕ → List ℕ → Worker
late bytes given = record { stopped = true; phase = sending bytes; given = given }

-- The first session: `Start`, a read, and `Stop` before the bytes are sent.
abbrev stopped_early : List ℕ → Reader
stopped_early bytes = record new_reader { workers = late bytes bytes ∷ [] }

stopped_early-Reach : (bytes : List ℕ) → Reach new_reader (stopped_early bytes)
stopped_early-Reach bytes =
    next
      (next
        (next (next (next (next here (start refl)) (drained refl refl)) (spawn refl))
          (work [] [] refl (enter refl refl)))
        (work [] [] refl (read bytes refl)))
      (stop refl)

-- `Start` on another port, in whose session `Read` gives a byte of the first.
abbrev polluted : ℕ → List ℕ → Reader
polluted b bs = record {
  channel = [];
  caller = idle;
  workers = started ∷ late bs (b ∷ bs) ∷ [];
  reads = (b ∷ []) ∷ [];
}

polluted-Reach : (b : ℕ) (bs : List ℕ) → Reach new_reader (polluted b bs)
polluted-Reach b bs =
    next
      (next
        (next
          (next
            (next (next (next (stopped_early-Reach (b ∷ bs)) (start refl)) (drained refl refl))
              (spawn refl))
            (work (started ∷ []) [] refl (send b bs refl (omega arith))))
          (begin refl))
        (collect [] b [] refl refl))
      (return (b ∷ []) refl refl)

-- For any bytes of a first port there is an order of steps in which `Stop` and `Start` on another port
-- follow, the new port has given nothing yet, and `Read` gives the first byte of the old one.
pub stale_read :
    (b : ℕ) (bs : List ℕ)
    → (s : Reader) × Reach new_reader s
      × (s.reads ≡ (b ∷ []) ∷ [])
      × (new old : Worker) × (s.workers ≡ new ∷ old ∷ [])
      × (new.given ≡ [])
      × (old.given ≡ b ∷ bs)
      × (old.stopped ≡ true)
stale_read b bs =
    (polluted b bs, polluted-Reach b bs, refl, started, late bs (b ∷ bs), refl, refl, refl, refl)
