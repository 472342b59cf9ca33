-- ===== src/Mems3/Faults.antt =====
-- internal/ecu/mems3/mems3.go: `parseFaults`. `none` is the panic of a slice expression beyond the
-- slice.
pub mod Records
use rover_mems_ecu.Base.{
  ℕ, zero, suc, ◌+◌, ◌/◌, ◌%◌, String, str_append, List, [], ◌∷◌, Option, none, some, lookup, be16,
  ltb, if◌then◌else◌,
}
use rover_mems_ecu.Mems3.Commands.{Mems3}

abbrev pub fault_types : List (ℕ × String)
fault_types =
    (0x20, "historical")
    ∷ (0x74, "present, test not complete")
    ∷ (0x30, "historical, test not complete")
    ∷ (0x58, "present, test not complete")
    ∷ (0x61, "present")
    ∷ (0x62, "present")
    ∷ (0x64, "present")
    ∷ (0x71, "present, test not complete")
    ∷ []

abbrev pub faults : List (ℕ × String)
faults =
    (0x1232, "fuel pump relay, open circuit")
    ∷ (0x0650, "MIL control circuit malfunction")
    ∷ (0x0481, "A/C condensor fan")
    ∷ (0x1508, "IACV driver open circuit")
    ∷ (0x1186, "front lambda heater")
    ∷ (0x1185, "front lambda heater")
    ∷ (0x1192, "rear lambda heater")
    ∷ (0x0445, "purge valve drive")
    ∷ (0x0480, "cooling fan")
    ∷ (0x1610, "main relay - open circuit")
    ∷ (0x0113, "IAT shorted")
    ∷ (0x0118, "coolant temp sensor shorted")
    ∷ (0x0122, "throttle pot shorted")
    ∷ (0x0562, "system voltage malfunction")
    ∷ (0x0197, "oil temp sensor shorted")
    ∷ (0x0462, "fuel tank level sensor shorted to ground")
    ∷ (0x0340, "cam position sensor")
    ∷ (0x0106, "manifold pressure - incorrect reading")
    ∷ (0x1316, "misfire causing excess emissions")
    ∷ (0x0170, "fuel system")
    ∷ (0x0655, "warning lamp - engine bay temperature - open circuit")
    ∷ []

abbrev pub digit_names : List (ℕ × String)
digit_names =
    (0, "0")
    ∷ (1, "1")
    ∷ (2, "2")
    ∷ (3, "3")
    ∷ (4, "4")
    ∷ (5, "5")
    ∷ (6, "6")
    ∷ (7, "7")
    ∷ (8, "8")
    ∷ (9, "9")
    ∷ []

-- `strconv.Itoa`, of a number of at most as many digits as there are rounds.
pub itoa : ℕ → ℕ → String
itoa zero n = ""
itoa (suc rounds) n =
    let front = itoa rounds (n / 10) in
    let last : String = elim (lookup (n % 10) digit_names) [ none ↦ "" | some d ↦ d ] in
    if ltb n 10 then last else str_append front last

-- `m[k]`, or the number itself. A 16-bit number has at most five digits.
unfoldable pub name_or_number : ℕ → List (ℕ × String) → String
name_or_number k m = elim (lookup k m) [
  | some name ↦ name
  | none ↦ str_append "unknown (" (str_append (itoa 5 k) ")")
]

-- `fullOutputText` of one record.
unfoldable pub full_output_text : ℕ → ℕ → ℕ → String
full_output_text a b kind = str_append "Fault - " (
    str_append (name_or_number (be16 a b) faults)
      (str_append " - " (name_or_number kind fault_types)))

-- `for len(buffer) >= 3`.
unfoldable pub fault_list : List ℕ → List String
fault_list (a ∷ b ∷ kind ∷ rest) = full_output_text a b kind ∷ fault_list rest
fault_list (a ∷ b ∷ []) = []
fault_list (a ∷ []) = []
fault_list [] = []

-- `buffer = buffer[2:]`, and the records.
unfoldable pub parse_faults : List ℕ → Mems3 → Option Mems3
parse_faults (code ∷ count ∷ records) m =
    some (record m { state = record m.state { faults = fault_list records } })
parse_faults (code ∷ []) m = none
parse_faults [] m = none
