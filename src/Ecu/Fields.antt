-- ===== src/Ecu/Fields.antt =====
-- The field writes by which the handlers' parsers fill `State.Data`: each row of a table is one
-- statement `Data[name] = …` under its guard, in the order of the code. An index beyond the slice is
-- `none`, the panic of the code.
pub mod Reach
use rover_mems_ecu.Base.{
  ℕ, String, Bool, true, false, List, [], ◌∷◌, Option, none, some, get_elem?, leb, ltb, put,
  if◌then◌else◌,
}
use rover_mems_ecu.Ecu.Reading.{Float32, DataMap}

-- A value computed from one byte, or from two.
pub data Value : Type 0 where
  one : ℕ → (ℕ → Float32) → Value
  two : ℕ → ℕ → (ℕ → ℕ → Float32) → Value

-- The guard on the packet size: `packetSize > k` or `packetSize >= k`.
pub data Guard : Type 0 where
  always : Guard
  above at_least : ℕ → Guard

pub record Field : Type 0 where
  pub guard : Guard
  pub name : String
  pub value : Value

abbrev pub holds : Guard → ℕ → Bool
holds always size = true
holds (above k) size = ltb k size
holds (at_least k) size = leb k size

unfoldable pub read_value : Value → List ℕ → Option Float32
read_value (one i f) bytes = elim (get_elem? bytes i) [ none ↦ none | some a ↦ some (f a) ]
read_value (two i j f) bytes = elim (get_elem? bytes i) [
  | none ↦ none
  | some a ↦ elim (get_elem? bytes j) [ none ↦ none | some b ↦ some (f a b) ]
]

-- One statement.
unfoldable pub write_field : ℕ → List ℕ → Field → DataMap → Option DataMap
unfolding read_value
write_field size bytes f m =
    if holds f.guard size
    then elim (read_value f.value bytes) [ none ↦ none | some v ↦ some (put f.name v m) ]
    else some m

unfoldable pub write_fields : ℕ → List ℕ → List Field → DataMap → Option DataMap
write_fields size bytes [] m = some m
write_fields size bytes (f ∷ fs) m = elim (write_field size bytes f m) [
  | none ↦ none
  | some m' ↦ write_fields size bytes fs m'
]
