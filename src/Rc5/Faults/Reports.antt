-- ===== src/Rc5/Faults/Reports.antt =====
-- What `parseFaults` of internal/ecu/rc5/rc5.go reports.
use rover_mems_ecu.Base.{ℕ, ◌≡◌, refl, ap, String, List, [], ◌∷◌, ◌++◌, map, some, be16}
use rover_mems_ecu.Rc5.Commands.{Rc5}
use rover_mems_ecu.Rc5.Faults.{fault_text, fault_texts, parse_faults}

-- Behind the two bytes of the header there is always a list of faults.
pub parse_faults_lem :
    (a b : ℕ) (codes : List ℕ) (r : Rc5)
    → (r' : Rc5) × (parse_faults (a ∷ b ∷ codes) r ≡ some r')
      × (r'.state.faults ≡ fault_texts codes)
      × (r'.state.user_command ≡ r.state.user_command)
      × (r'.written ≡ r.written)
unfolding parse_faults
parse_faults_lem a b codes r = (_, refl, refl, refl, refl)

-- The codes of a reply, high byte first.
abbrev pub encode : List (ℕ × ℕ) → List ℕ
encode [] = []
encode ((hi, lo) ∷ codes) = hi ∷ lo ∷ encode codes

abbrev pub text_of : ℕ × ℕ → String
text_of (hi, lo) = fault_text (be16 hi lo)

-- A checksum behind the codes is no code.
pub fault_texts-encode :
    (codes : List (ℕ × ℕ)) (check : ℕ)
    → fault_texts (encode codes ++ (check ∷ [])) ≡ map text_of codes
unfolding fault_texts
fault_texts-encode [] check = refl
fault_texts-encode ((hi, lo) ∷ codes) check =
    ap (λ ts. fault_text (be16 hi lo) ∷ ts) (fault_texts-encode codes check)
