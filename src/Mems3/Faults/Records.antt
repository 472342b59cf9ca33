-- ===== src/Mems3/Faults/Records.antt =====
-- The records of a fault response of internal/ecu/mems3/mems3.go.
use rover_mems_ecu.Base.{ℕ, ◌<◌, ◌≡◌, refl, ap, List, [], ◌∷◌, ◌++◌, some, length, arith, String}
use rover_mems_ecu.Mems3.Commands.{Mems3}
use rover_mems_ecu.Mems3.Faults.{full_output_text, fault_list, parse_faults}

-- The number of a fault, high byte first, and its status.
pub record Fault : Type 0 where
  pub high : ℕ
  pub low : ℕ
  pub status : ℕ

abbrev pub encode : List Fault → List ℕ
encode [] = []
encode (f ∷ fs) = f.high ∷ f.low ∷ f.status ∷ encode fs

abbrev pub texts : List Fault → List String
texts [] = []
texts (f ∷ fs) = full_output_text f.high f.low f.status ∷ texts fs

fault_list-encode :
    (fs : List Fault) (rest : List ℕ) → length rest < 3 → fault_list (encode fs ++ rest) ≡ texts fs
unfolding fault_list
fault_list-encode [] [] h = refl
fault_list-encode [] (a ∷ []) h = refl
fault_list-encode [] (a ∷ b ∷ []) h = refl
fault_list-encode [] (a ∷ b ∷ c ∷ rest) h = absurd (omega arith)
fault_list-encode (f ∷ fs) rest h =
    ap (λ ts. full_output_text f.high f.low f.status ∷ ts) (fault_list-encode fs rest h)

-- Whatever was reported before, a response with these faults leaves the text of each one in order,
-- and nothing else; bytes that make no whole record are ignored.
pub parse_faults-encode :
    (code count : ℕ) (fs : List Fault) (rest : List ℕ) (m : Mems3)
    → length rest < 3
    → (m' : Mems3) × (parse_faults (code ∷ count ∷ (encode fs ++ rest)) m ≡ some m')
      × (m'.state.faults ≡ texts fs)
unfolding parse_faults
parse_faults-encode code count fs rest m h = (_, refl, fault_list-encode fs rest h)
