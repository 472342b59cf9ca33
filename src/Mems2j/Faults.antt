-- ===== src/Mems2j/Faults.antt =====
-- internal/ecu/mems2j/faults.go: `parseFaultsLocked`. A group is one block `if len(buffer) >= n`, with
-- the index of the byte that it reads; its rows are the tests of that byte in order. `none` is the
-- panic of an index beyond the slice.
pub mod Reports
use rover_mems_ecu.Base.{
  ℕ, ◌+◌, ◌/◌, ◌^◌, String, not, List, [], ◌∷◌, ◌++◌, Option, none, some, length, get_elem?,
  bit_and, leb, ◌==◌, if◌then◌else◌,
}
use rover_mems_ecu.Mems2j.Commands.{Mems2j}

pub record Group : Type 0 where
  pub min_length : ℕ
  pub offset : ℕ
  -- The bit and the fault.
  pub rows : List (ℕ × String)

abbrev group : ℕ → ℕ → List (ℕ × String) → Group
group n offset rows = record { min_length = n; offset = offset; rows = rows }

abbrev pub low_voltage : List Group
low_voltage =
    group 5 4 (
      (6, "Outside air temp (low voltage)")
      ∷ (5, "Power supply (low voltage)")
      ∷ (4, "Engine oil temp (low voltage)")
      ∷ (2, "Coolant temp (low voltage)")
      ∷ (0, "System (low voltage)")
      ∷ [])
    ∷ group 6 5 (
        (7, "Battery (low voltage)")
        ∷ (4, "Lambda 1 bank 1 (low voltage)")
        ∷ (2, "Throttle pot (low voltage)")
        ∷ (1, "Air intake (low voltage)")
        ∷ (0, "MAP sensor (low voltage)")
        ∷ [])
    ∷ []

abbrev pub high_voltage : List Group
high_voltage =
    group 9 8 (
      (6, "Outside air temp (high voltage)")
      ∷ (5, "Power supply (high voltage)")
      ∷ (4, "Oil temperature (high voltage)")
      ∷ (2, "Coolant temperature (high voltage)")
      ∷ (0, "System (high voltage)")
      ∷ [])
    ∷ group 10 9 (
        (7, "Battery (high voltage)")
        ∷ (4, "Lambda 1 bank 1 (high voltage)")
        ∷ (2, "Throttle pot (high voltage)")
        ∷ (1, "Intake air temp (high voltage)")
        ∷ (0, "MAP sensor (high voltage)")
        ∷ [])
    ∷ []

abbrev pub present : List Group
present =
    group 13 12 (
      (6, "Outside temp sensor (present)")
      ∷ (5, "Power supply (present)")
      ∷ (4, "Oil temp (present)")
      ∷ (2, "Coolant temp (present)")
      ∷ (2, "System voltage (present)")
      ∷ [])
    ∷ group 14 13 (
        (7, "Battery voltage (present)")
        ∷ (4, "Lambda 1 bank 1 (present)")
        ∷ (2, "Throttle pot (present)")
        ∷ (1, "Intake air temp (present)")
        ∷ (0, "MAP sensor (present)")
        ∷ [])
    ∷ []

abbrev pub historic : List Group
historic =
    group 24 23 (
      (3, "MAP sensor (present 2)")
      ∷ (2, "Oil temp (present 2)")
      ∷ (1, "Intake air temp (present 2)")
      ∷ (0, "Coolant temp (present 2)")
      ∷ [])
    ∷ group 26 25 (
        (3, "MAP sensor (historic)")
        ∷ (2, "Oil temp (historic)")
        ∷ (1, "Intake air temp (historic)")
        ∷ (0, "Coolant temp (historic)")
        ∷ [])
    ∷ group 27 26 (
        (0, "Road speed sensor (present)")
        ∷ (1, "Comm. with AT (present)")
        ∷ (4, "Bank 1 fuel feedback (present)")
        ∷ (5, "Bank 2 fuel feedback (present)")
        ∷ [])
    ∷ group 29 28 (
        (0, "Road speed sensor (historic)")
        ∷ (1, "Comm. with AT (historic)")
        ∷ (4, "Feedback (historic)")
        ∷ [])
    ∷ []

abbrev pub groups : List Group
groups = low_voltage ++ (high_voltage ++ (present ++ historic))

-- `(b & mask) > 0`, and `((b >> k) & 1) > 0` alike, for the bits of a byte.
unfoldable pub bit_rows : ℕ → List (ℕ × String) → List String
bit_rows b [] = []
bit_rows b ((k, name) ∷ rows) =
    (if not (bit_and b (2 ^ k) == 0) then name ∷ [] else []) ++ bit_rows b rows

-- The rows of the byte at an index, if there is one, in front of what is reported later.
unfoldable pub report : Option ℕ → List (ℕ × String) → Option (List String) → Option (List String)
report none rows later = none
report (some b) rows none = none
report (some b) rows (some later) = some (bit_rows b rows ++ later)

unfoldable pub group_faults : List ℕ → List Group → Option (List String)
group_faults buffer [] = some []
group_faults buffer (g ∷ gs) =
    let later = group_faults buffer gs in
    if leb g.min_length (length buffer)
    then report (get_elem? buffer g.offset) g.rows later
    else later

unfoldable pub set_faults : Option (List String) → Mems2j → Option Mems2j
set_faults none m = none
set_faults (some texts) m = some (record m { state = record m.state { faults = texts } })

unfoldable pub parse_faults : List ℕ → Mems2j → Option Mems2j
parse_faults buffer m = set_faults (group_faults buffer groups) m
