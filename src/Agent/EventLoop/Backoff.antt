-- ===== src/Agent/EventLoop/Backoff.antt =====
-- How long `runEventLoop` of cmd/rover-mems/main.go waits.
use native.Mathlib.Nat.{pow-suc}
use rover_mems_ecu.Base.{
  ℕ, suc, ◌^◌, ◌≡◌, refl, ap, ◌∙◌, min, String, Bool, true, false, List, [], ◌∷◌, All, arith,
}
use rover_mems_ecu.Ecu.State.{State}
use rover_mems_ecu.Agent.Connect.{attempt_connection}
use rover_mems_ecu.Agent.EventLoop.{next_retry_delay, Round, run_rounds, run_event_loop}

-- The wait after `k` failures in a row.
abbrev pub backoff : ℕ → ℕ
backoff k = min 30 (2 ^ k)

-- The waits behind attempts of which these have failed, after `k` failures in a row.
abbrev pub backoffs : ℕ → List Bool → List ℕ
backoffs k [] = []
backoffs k (true ∷ fs) = backoff (suc k) ∷ backoffs (suc k) fs
backoffs k (false ∷ fs) = backoff 0 ∷ backoffs 0 fs

next_retry_delay-backoff : (k : ℕ) → next_retry_delay (backoff k) true ≡ backoff (suc k)
unfolding next_retry_delay
next_retry_delay-backoff k = ground (arith, pow-suc 2 k)

module _ (quoted : String → String) where
  -- Which attempts fail, made one after the other.
  pub outcomes : List Round → State → List Bool
  outcomes [] s = []
  outcomes (r ∷ rs) s =
      let (s', failed) = attempt_connection quoted r.around s in failed ∷ outcomes rs s'

  abbrev pub IsUndisturbed : Round → Type 0
  IsUndisturbed r = (r.done_before ≡ false) × (r.done_after ≡ false)

  one_more :
      (rs : List Round) (k : ℕ) (failed : Bool) (s : State)
      → ((j : ℕ) → (run_rounds quoted rs (backoff j) s).waits ≡ backoffs j (outcomes rs s))
      → next_retry_delay (backoff k) failed
          ∷ (run_rounds quoted rs (next_retry_delay (backoff k) failed) s).waits
        ≡ backoffs k (failed ∷ outcomes rs s)
  unfolding next_retry_delay
  one_more rs k true s later =
      ap (λ d. d ∷ (run_rounds quoted rs d s).waits) (next_retry_delay-backoff k)
      ∙ ap (λ ds. backoff (suc k) ∷ ds) (later (suc k))
  one_more rs k false s later = ap (λ ds. 1 ∷ ds) (later 0)

  run_rounds-backoffs :
      (rounds : List Round) (k : ℕ) (s : State)
      → All IsUndisturbed rounds
      → (run_rounds quoted rounds (backoff k) s).waits ≡ backoffs k (outcomes rounds s)
  unfolding run_rounds outcomes
  run_rounds-backoffs [] k s h = refl
  run_rounds-backoffs (r ∷ rs) k s ((before, after), hs) =
      let (s', failed) = attempt_connection quoted r.around s in
      rw (before, after) (one_more rs k failed s' (λ j. run_rounds-backoffs rs j s' hs))

  -- As long as the context is not done, the waits are these: 1 s behind an attempt that did not fail, and
  -- behind the k-th failure in a row the k-th power of 2, but never more than 30 s.
  pub run_event_loop-backoffs :
      (rounds : List Round) (s : State)
      → All IsUndisturbed rounds
      → (run_event_loop quoted rounds s).waits ≡ backoffs 0 (outcomes rounds s)
  unfolding run_event_loop
  run_event_loop-backoffs rounds s h = run_rounds-backoffs rounds 0 s h
