-- ===== src/Mems19/SlowInit/Levels.antt =====
-- What the line does while `send5BaudWakeup` of internal/ecu/mems19/mems19.go runs.
use rover_mems_ecu.Base.{
  ℕ, zero, suc, ◌+◌, ◌≡◌, ◌≤◌, refl, ap, subst, ◌∙◌, ◌⊎◌, inl, inr, Bool-cases, true, false, List,
  [], ◌∷◌, ◌++◌, none, All, length, length-drop, replicate, drop, ◌==◌, arith,
}
use rover_mems_ecu.Mems19.SlowInit.{Pulse, low, high, run_length, send_runs}

-- The level of the line in each bit time.
abbrev pub levels : List Pulse → List ℕ
levels [] = []
levels (low d ∷ ps) = replicate d 0 ++ levels ps
levels (high d ∷ ps) = replicate d 1 ++ levels ps

abbrev pub IsBit : ℕ → Type 0
IsBit b = (b ≡ 0) ⊎ (b ≡ 1)

replicate-run_length :
    (level : ℕ) (bs : List ℕ)
    → replicate (run_length level bs) level ++ drop (run_length level bs) bs ≡ bs
replicate-run_length level [] = refl
replicate-run_length level (b ∷ bs) = elim (Bool-cases (b == level)) [
  | inl t ↦
      let same : level ≡ b = ground (arith, t) in
      rw t (ap (λ xs. level ∷ xs) (replicate-run_length level bs) ∙ ap (λ x. x ∷ bs) same)
  | inr f ↦ rw f
]

All-drop : (n : ℕ) (bs : List ℕ) → All IsBit bs → All IsBit (drop n bs)
All-drop zero bs h = h
All-drop (suc n) [] h = tt
All-drop (suc n) (b ∷ bs) (h, hs) = All-drop n bs hs

-- For a frame of any bits, with as many rounds as bits or more, where no break fails: the loop ends
-- without an error, and the line has in each bit time the level of the next bit.
pub send_runs-levels :
    (rounds i : ℕ) (bits : List ℕ)
    → length bits ≤ rounds
    → All IsBit bits
    → (levels (send_runs (λ d j. none) rounds i bits).0 ≡ bits)
      × ((send_runs (λ d j. none) rounds i bits).1 ≡ none)
unfolding send_runs
send_runs-levels rounds i [] h bits = (refl, refl)
send_runs-levels zero i (b ∷ bs) h bits = absurd (omega arith)
send_runs-levels (suc rounds) i (b ∷ bs) h (bit, bits) =
    let more : ℕ = run_length b bs in
    let (spelled, fine) =
      send_runs-levels rounds (i + suc more) (drop more bs) (omega (arith, length-drop more bs))
        (All-drop more bs bits) in
    let left : List ℕ = levels (send_runs (λ d j. none) rounds (i + suc more) (drop more bs)).0 in
    let whole : replicate (suc more) b ++ left ≡ b ∷ bs =
      ap (λ xs. b ∷ xs) (ap (λ xs. replicate more b ++ xs) spelled ∙ replicate-run_length b bs) in
    elim bit [
      | inl e ↦
          let is_low : (b == 0) ≡ true = ground (arith, e) in
          rw is_low (subst (λ x. replicate (suc more) x ++ left ≡ b ∷ bs) e whole, fine)
      | inr e ↦
          let is_high : (b == 0) ≡ false = ground (arith, e) in
          rw is_high (subst (λ x. replicate (suc more) x ++ left ≡ b ∷ bs) e whole, fine)
    ]
