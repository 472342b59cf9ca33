-- ===== src/Mems2j/Faults/Reports.antt =====
-- That internal/ecu/mems2j/faults.go reads no register byte that a response does not have.
use rover_mems_ecu.Base.{
  ℕ, ◌≤◌, ◌≡◌, refl, Bool-cases, true, inl, inr, String, List, [], ◌∷◌, ◌++◌, some, length,
  get_elem?, All, ltb, leb, arith, zero, suc,
}
use rover_mems_ecu.Mems2j.Commands.{Mems2j}
use rover_mems_ecu.Mems2j.Faults.{
  Group, groups, bit_rows, report, group_faults, set_faults, parse_faults,
}

-- The byte that a group reads is one of those that its test asks for.
IsInside : Group → Type 0
IsInside g = ltb g.offset g.min_length ≡ true

groups-IsInside : All IsInside groups
unfolding IsInside
groups-IsInside = ground arith

get_elem?-some :
    (buffer : List ℕ) (i n : ℕ)
    → n ≤ length buffer
    → ltb i n ≡ true
    → (b : ℕ) × (get_elem? buffer i ≡ some b)
get_elem?-some [] i n h k = absurd (ground (arith, h, k))
get_elem?-some (b ∷ buffer) zero n h k = (b, refl)
get_elem?-some (b ∷ buffer) (suc i) zero h k = absurd (ground (arith, k))
get_elem?-some (b ∷ buffer) (suc i) (suc n) h k =
    get_elem?-some buffer i n (omega arith) (ground (arith, k))

group_faults-some :
    (buffer : List ℕ) (gs : List Group)
    → All IsInside gs
    → (texts : List String) × (group_faults buffer gs ≡ some texts)
unfolding group_faults report IsInside
group_faults-some buffer [] inside = ([], refl)
group_faults-some buffer (g ∷ gs) (inside, more) =
    let (later, e) = group_faults-some buffer gs more in
    elim (Bool-cases (leb g.min_length (length buffer))) [
      | inr missing ↦ (later, rw missing e)
      | inl there ↦
          let (b, found) =
            get_elem?-some buffer g.offset g.min_length (ground (arith, there)) inside in
          (bit_rows b g.rows ++ later, rw (there, found, e) refl)
    ]

pub parse_faults-some :
    (buffer : List ℕ) (m : Mems2j) → (m' : Mems2j) × (parse_faults buffer m ≡ some m')
unfolding parse_faults set_faults
parse_faults-some buffer m =
    let (texts, e) = group_faults-some buffer groups groups-IsInside in
    (record m { state = record m.state { faults = texts } }, rw e refl)
