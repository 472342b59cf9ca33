-- ===== src/Rc5/Faults.antt =====
-- internal/ecu/rc5/rc5.go: `parseFaults`. `none` is the panic of a slice expression beyond the slice.
pub mod Reports
use rover_mems_ecu.Base.{
  ℕ, ◌/◌, String, str_append, List, [], ◌∷◌, Option, none, some, lookup, length, be16,
}
use rover_mems_ecu.Ecu.Log.{num}
use rover_mems_ecu.Ecu.State.{debug}
use rover_mems_ecu.Mems3.Faults.{itoa}
use rover_mems_ecu.Rc5.Commands.{Rc5}

abbrev pub fault_codes : List (ℕ × String)
fault_codes =
    (0x150A, "Driver airbag shorted to battery positive")
    ∷ (0x150B, "Driver airbag shorted to battery negative")
    ∷ (0x150C, "Driver airbag high resistance")
    ∷ (0x150D, "Driver airbag low resistance")
    ∷ (0x150E, "Driver airbag squib circuit")
    ∷ (0x1512, "Passenger airbag squib short to battery positive")
    ∷ (0x1513, "Passenger airbag 1 short to battery negative")
    ∷ (0x1514, "Passenger airbag 1 high resistance")
    ∷ (0x1515, "Passenger airbag 1 low resistance")
    ∷ (0x1516, "Passenger airbag 1 squib circuit")
    ∷ (0x151A, "Pretensioner short to battery positive")
    ∷ (0x151B, "Pretensioner short to battery negative")
    ∷ (0x151C, "Passenger airbag 2 high resistance")
    ∷ (0x151D, "Passenger airbag 2 low resistance")
    ∷ (0x151E, "Passenger airbag 2 squib circuit")
    ∷ (0x1524, "Right pretensioner high resistance")
    ∷ (0x1525, "Right pretensioner low resistance")
    ∷ (0x1526, "Right pretensioner squib circuit")
    ∷ (0x152C, "Left pretensioner high resistance")
    ∷ (0x152D, "Left pretensioner low resistance")
    ∷ (0x152E, "Left pretensioner squib circuit")
    ∷ (0x160C, "SRS warning lamp short circuit")
    ∷ (0x160D, "SRS warning lamp open circuit")
    ∷ (0x160E, "SRS warning lamp driver")
    ∷ (0x250A, "(Historic) Driver airbag shorted to battery positive")
    ∷ (0x250B, "(Historic) Driver airbag shorted to battery negative")
    ∷ (0x250C, "(Historic) Driver airbag high resistance")
    ∷ (0x250D, "(Historic) Driver airbag low resistance")
    ∷ (0x250E, "(Historic) Driver airbag squib circuit")
    ∷ (0x2512, "(Historic) Passenger airbag squib short to battery positive")
    ∷ (0x2513, "(Historic) Passenger airbag 1 short to battery negative")
    ∷ (0x2514, "(Historic) Passenger airbag 1 high resistance")
    ∷ (0x2515, "(Historic) Passenger airbag 1 low resistance")
    ∷ (0x2516, "(Historic) Passenger airbag 1 squib circuit")
    ∷ (0x251A, "(Historic) Pretensioner short to battery positive")
    ∷ (0x251B, "(Historic) Pretensioner short to battery negative")
    ∷ (0x251C, "(Historic) Passenger airbag 2 high resistance")
    ∷ (0x251D, "(Historic) Passenger airbag 2 low resistance")
    ∷ (0x251E, "(Historic) Passenger airbag 2 squib circuit")
    ∷ (0x2524, "(Historic) Right pretensioner high resistance")
    ∷ (0x2525, "(Historic) Right pretensioner low resistance")
    ∷ (0x2526, "(Historic) Right pretensioner squib circuit")
    ∷ (0x252C, "(Historic) Left pretensioner high resistance")
    ∷ (0x252D, "(Historic) Left pretensioner low resistance")
    ∷ (0x252E, "(Historic) Left pretensioner squib circuit")
    ∷ (0x260C, "(Historic) SRS warning lamp short circuit")
    ∷ (0x260D, "(Historic) SRS warning lamp open circuit")
    ∷ (0x260E, "(Historic) SRS warning lamp driver")
    ∷ (0x0000, "0x0000 Unknown fault, power cycle and try again")
    ∷ []

-- A 16-bit number has at most five digits.
unfoldable pub fault_text : ℕ → String
fault_text fault = elim (lookup fault fault_codes) [
  | some text ↦ text
  | none ↦ str_append "unknown fault: " (itoa 5 fault)
]

-- The loop over the pairs of bytes. A byte that is left is no pair.
unfoldable pub fault_texts : List ℕ → List String
fault_texts (a ∷ b ∷ rest) = fault_text (be16 a b) ∷ fault_texts rest
fault_texts (a ∷ []) = []
fault_texts [] = []

unfoldable pub parse_faults : List ℕ → Rc5 → Option Rc5
parse_faults (a ∷ b ∷ codes) r =
    let counted =
      debug (record { format = "num faults: %d"; args = num (length codes / 2) ∷ [] }) r.state in
    some (record r { state = record counted { faults = fault_texts codes } })
parse_faults (a ∷ []) r = none
parse_faults [] r = none
