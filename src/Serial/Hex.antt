-- ===== src/Serial/Hex.antt =====
-- internal/serial/capture.go: `hexBytes`, as the codes of the characters that it writes.
pub mod RoundTrip
use rover_mems_ecu.Base.{ℕ, ◌+◌, ◌-◌, ◌/◌, ◌%◌, List, [], ◌∷◌, ltb, if◌then◌else◌}

-- A digit of `%X`.
abbrev pub hex_digit : ℕ → ℕ
hex_digit n = if ltb n 10 then b'0' + n else b'A' + (n - 10)

-- The rounds of the loop behind the first, each with `%02X` of a byte.
abbrev pub hex_more : List ℕ → List ℕ
hex_more [] = []
hex_more (x ∷ xs) = b' ' ∷ hex_digit (x / 16) ∷ hex_digit (x % 16) ∷ hex_more xs

unfoldable pub hex_bytes : List ℕ → List ℕ
hex_bytes [] = []
hex_bytes (x ∷ xs) = hex_digit (x / 16) ∷ hex_digit (x % 16) ∷ hex_more xs
