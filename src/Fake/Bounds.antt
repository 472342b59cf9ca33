-- ===== src/Fake/Bounds.antt =====
-- What the simulated ECU of internal/ecu/fake/fake.go shows, and what it does with a user command.
use rover_mems_ecu.Base.{
  ◌≡◌, refl, ap, ◌∙◌, both, String, str_eq, Bool, false, List, [], ◌∷◌, Option, some, find,
  find-put, put, Bool-cases, inl, inr, if◌then◌else◌,
}
use rover_mems_ecu.Ecu.Reading.{Float64, Float32, of_float64, DataMap}
use rover_mems_ecu.Ecu.State.{State, set_alert, set_user_command}
use rover_mems_ecu.Fake.Signals.{
  Simulation, Round, whole, clamp, begin_round, map_kpa, idle_valve, readings,
}
use rover_mems_ecu.Fake.Loop.{put_all, obey, step}

-- The last row of a name, or what was there before.
pub last_of : String → List (String × Float32) → Option Float32 → Option Float32
last_of name [] before = before
last_of name ((row, v) ∷ rows) before =
    last_of name rows (if str_eq row name then some v else before)

find-put_all :
    (name : String) (rows : List (String × Float32)) (m : DataMap)
    → find name (put_all rows m) ≡ last_of name rows (find name m)
unfolding put_all last_of
find-put_all name [] m = refl
find-put_all name ((row, v) ∷ rows) m =
    find-put_all name rows (put row v m) ∙ ap (last_of name rows) (find-put row name v m)

module _ (less : Float64 → Float64 → Bool) where
  -- Neither below the one nor above the other.
  abbrev pub IsBetween : Float64 → Float64 → Float64 → Type 0
  IsBetween lo hi v = (less v lo ≡ false) × (less hi v ≡ false)

  clamp-IsBetween :
      (v lo hi : Float64)
      → ((x : Float64) → less x x ≡ false)
      → less hi lo ≡ false
      → IsBetween lo hi (clamp less v lo hi)
  unfolding clamp
  clamp-IsBetween v lo hi irreflexive ordered = elim (Bool-cases (less v lo)) [
    | inl low ↦ rw (clamp, low) (irreflexive lo, ordered)
    | inr not_low ↦ elim (Bool-cases (less hi v)) [
      | inl high ↦ rw (clamp, not_low, high) (ordered, irreflexive hi)
      | inr not_high ↦ rw (clamp, not_low, not_high) (not_low, not_high)
    ]
  ]

  obey-values : (s : State) → (obey s).values ≡ s.values
  unfolding obey set_alert set_user_command
  obey-values s =
      both {A = State} (λ s'. s'.values ≡ s.values) (str_eq s.user_command "") refl
        (both {A = State} (λ s'. s'.values ≡ s.values) (str_eq s.user_command "clearfaults") refl
          refl)

  -- In an order of float64 in which nothing is less than itself, and 30 < 105 and 20 < 160 are not the other
  -- way round: behind each round, from any state on, the manifold pressure that is shown is neither below 30
  -- nor above 105, and the idle valve is neither below 20 nor above 160.
  pub step-IsBetween :
      (sim : Simulation) (s : State)
      → ((x : Float64) → less x x ≡ false)
      → less (whole 105) (whole 30) ≡ false
      → less (whole 160) (whole 20) ≡ false
      → (kpa valve : Float64) × ((find "map_sensor_kpa" (step less sim s).1.values
            ≡ some (of_float64 kpa))
          × (find "idle_valve_position" (step less sim s).1.values ≡ some (of_float64 valve))
          × (IsBetween (whole 30) (whole 105) kpa)
          × (IsBetween (whole 20) (whole 160) valve))
  unfolding step readings map_kpa idle_valve last_of
  step-IsBetween sim s irreflexive kpa_order valve_order =
      let r : Round = begin_round less sim in
      (
        map_kpa less r,
        idle_valve less r,
        (
          ap (find "map_sensor_kpa") (obey-values _)
              ∙ find-put_all "map_sensor_kpa" (readings less r) _,
          ap (find "idle_valve_position") (obey-values _)
              ∙ find-put_all "idle_valve_position" (readings less r) _,
          clamp-IsBetween _ (whole 30) (whole 105) irreflexive kpa_order,
          clamp-IsBetween _ (whole 20) (whole 160) irreflexive valve_order,
        ),
      )
