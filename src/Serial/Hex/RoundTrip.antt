-- ===== src/Serial/Hex/RoundTrip.antt =====
-- That a trace of internal/serial/capture.go can be read back.
use rover_mems_ecu.Base.{
  ℕ, ◌+◌, ◌-◌, ◌*◌, ◌/◌, ◌%◌, ◌<◌, ◌≡◌, refl, ap, ◌∙◌, List, [], ◌∷◌, All, IsByte, ltb,
  if◌then◌else◌, arith,
}
use rover_mems_ecu.Serial.Hex.{hex_digit, hex_bytes}

-- The value of a digit.
abbrev pub digit_value : ℕ → ℕ
digit_value c = if ltb c b'A' then c - b'0' else c - b'A' + 10

-- A reader of hexadecimal bytes with one character between two of them.
pub unhex : List ℕ → List ℕ
unhex (hi ∷ lo ∷ space ∷ rest) = (digit_value hi * 16 + digit_value lo) ∷ unhex rest
unhex (hi ∷ lo ∷ []) = (digit_value hi * 16 + digit_value lo) ∷ []
unhex (hi ∷ []) = []
unhex [] = []

digit_value-hex_digit : (n : ℕ) → n < 16 → digit_value (hex_digit n) ≡ n
digit_value-hex_digit n h = ground (arith, h)

byte_lem :
    (x : ℕ)
    → IsByte x
    → digit_value (hex_digit (x / 16)) * 16 + digit_value (hex_digit (x % 16)) ≡ x
byte_lem x h = omega (
  arith,
  digit_value-hex_digit (x / 16) (omega arith),
  digit_value-hex_digit (x % 16) (omega arith),
)

-- What `hexBytes` writes of bytes can be read back.
pub unhex-hex_bytes : (bs : List ℕ) → All IsByte bs → unhex (hex_bytes bs) ≡ bs
unfolding unhex hex_bytes
unhex-hex_bytes [] h = refl
unhex-hex_bytes (x ∷ []) (h, hs) = ap (λ y. y ∷ []) (byte_lem x h)
unhex-hex_bytes (x ∷ y ∷ ys) (h, hs) =
    ap (λ z. z ∷ unhex (hex_bytes (y ∷ ys))) (byte_lem x h)
    ∙ ap (λ zs. x ∷ zs) (unhex-hex_bytes (y ∷ ys) hs)
