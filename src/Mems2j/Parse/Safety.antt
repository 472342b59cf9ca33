-- ===== src/Mems2j/Parse/Safety.antt =====
-- Whether `parseResponse` of internal/ecu/mems2j/parse.go stays inside of a payload.
use rover_mems_ecu.Base.{
  ℕ, ◌≤◌, ◌≡◌, refl, true, List, [], ◌∷◌, Option, none, some, ◌&&◌, take, leb, get_elem?, branch,
  branch_either, length, All, both, arith,
}
use rover_mems_ecu.Ecu.Fields.Reach.{in_reach, in_reach-Fits, write_fields_fit}
use rover_mems_ecu.Mems2j.Commands.{
  Mems2j, bytes_equal, guarded-take, woke_response, start_diag_response, seed_response,
  key_accept_response, pong_response, faults_cleared_response, response_learn_immo_command,
}
use rover_mems_ecu.Mems2j.Faults.Reports.{parse_faults-some}
use rover_mems_ecu.Mems2j.Parse.{
  DataPacket, data_packets, begins, parse_seed, parse_other, parse_packets, parse_response,
}

Gives : Option Mems2j → Type 0
Gives o = (m : Mems2j) × (o ≡ some m)

gives : (m : Mems2j) → Gives (some m)
unfolding Gives
gives m = (m, refl)

-- The writes of a packet read below the length that its test asks for, and so does the test.
Inside : DataPacket → Type 0
Inside p = (in_reach p.min_length p.fields ≡ true) × (leb 2 p.min_length ≡ true)

data_packets-Inside : All Inside data_packets
unfolding Inside in_reach
data_packets-Inside = ground arith

begins-Gives :
    (n : ℕ) (header actual : List ℕ) (x y : Option Mems2j)
    → 2 ≤ n
    → (n ≤ length actual → Gives x)
    → Gives y
    → Gives (branch none (begins n header actual) x y)
begins-Gives n header actual x y h f g = rw (guarded-take n 2 header actual h) (
    branch_either Gives none x y (leb n (length actual) && bytes_equal (take 2 actual) header)
      (λ there. f (ground (arith, there))) g)

parse_packets-Gives :
    (ps : List DataPacket) (b : ℕ) (rest : List ℕ) (m : Mems2j)
    → All Inside ps
    → Gives (parse_packets ps (b ∷ rest) m)
unfolding parse_packets parse_other Gives Inside
parse_packets-Gives [] b rest m inside = (_, refl)
parse_packets-Gives (p ∷ ps) b rest m ((inside, two), more) =
    begins-Gives p.min_length (0x61 ∷ p.pid ∷ []) (b ∷ rest) _ _ (ground (arith, two))
      (λ long.
        let (values, e) = write_fields_fit p.fields (length (b ∷ rest)) (b ∷ rest) m.state.values (
          in_reach-Fits p.fields p.min_length (length (b ∷ rest)) (length (b ∷ rest)) inside long
            (omega arith)) in
        rw e (_, refl))
      (parse_packets-Gives ps b rest m more)

-- The four bytes that the test asks for are there.
parse_seed-Gives :
    (actual : List ℕ) (m : Mems2j)
    → 4 ≤ length actual
    → Gives (parse_seed (get_elem? actual 2) (get_elem? actual 3) m)
unfolding parse_seed
parse_seed-Gives [] m h = absurd (omega arith)
parse_seed-Gives (a ∷ []) m h = absurd (omega arith)
parse_seed-Gives (a ∷ b ∷ []) m h = absurd (omega arith)
parse_seed-Gives (a ∷ b ∷ c ∷ []) m h = absurd (omega arith)
parse_seed-Gives (a ∷ b ∷ c ∷ d ∷ rest) m h = gives _

-- Every payload of at least one byte is parsed without a read beyond its end.
pub parse_response-Gives :
    (b : ℕ) (rest : List ℕ) (m : Mems2j) → (m' : Mems2j) × (parse_response (b ∷ rest) m ≡ some m')
unfolding parse_response Gives
parse_response-Gives b rest m =
    let actual : List ℕ = b ∷ rest in
    both Gives (bytes_equal actual woke_response) (gives _) (
      both Gives (bytes_equal actual start_diag_response) (gives _) (
        begins-Gives 4 seed_response actual _ _ (omega arith) (parse_seed-Gives actual m) (
          both Gives (bytes_equal actual key_accept_response) (gives _) (
            both Gives (bytes_equal actual pong_response) (gives _) (
              both Gives (bytes_equal actual faults_cleared_response) (gives _) (
                both Gives (bytes_equal actual response_learn_immo_command) (gives _) (
                  begins-Gives 2 (0x61 ∷ 0x19 ∷ []) actual _ _ (omega arith)
                    (λ long. parse_faults-some actual _)
                    (parse_packets-Gives data_packets b rest m data_packets-Inside))))))))
