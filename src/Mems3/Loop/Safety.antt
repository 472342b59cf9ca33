-- ===== src/Mems3/Loop/Safety.antt =====
-- When `handleFrame` of internal/ecu/mems3/mems3.go panics.
use native.Mathlib.Decide.{ℕ_discrete}
use rover_mems_ecu.Base.{
  ℕ, ◌≡◌, ◌↔◌, ◌≢◌, refl, ap, sym, ◌∙◌, Bool-cases, true, ◌&&◌, inl, inr, List, [], ◌∷◌, Option,
  none, some, length, take, ◌≤◌, get_elem?, be16, ◌==◌, branch, branch_either, All, ltb, leb, both,
  arith,
}
use rover_mems_ecu.Ecu.Fields.Reach.{in_reach, in_reach-Fits, write_fields_fit}
use rover_mems_ecu.Mems2j.Commands.{bytes_equal, guarded, guarded-take}
use rover_mems_ecu.Mems3.Commands.{
  Mems3, init_accepted, start_diag_response, seed_response, key_accept_response, pong_response,
  faults_cleared_response, response_faults, response_data,
}
use rover_mems_ecu.Mems3.Faults.{parse_faults}
use rover_mems_ecu.Mems3.Frames.{
  DataPacket, data_packets, Handled, store, store_seed, handle_data, handle_seed, handle_faults,
  handle_frame,
}

Gives : Handled → Type 0
Gives o = (r : Mems3 × Option (List ℕ)) × (o ≡ some r)

gives : (r : Mems3 × Option (List ℕ)) → Gives (some r)
unfolding Gives
gives r = (r, refl)

Inside : DataPacket → Type 0
Inside p = in_reach p.min_length p.fields ≡ true

data_packets-Inside : All Inside data_packets
unfolding Inside in_reach
data_packets-Inside = ground arith

handle_data-Gives :
    (ps : List DataPacket) (a b : ℕ) (rest : List ℕ) (m : Mems3)
    → All Inside ps
    → Gives (handle_data ps (a ∷ b ∷ rest) m)
unfolding handle_data store Gives Inside
handle_data-Gives [] a b rest m inside = (_, refl)
handle_data-Gives (p ∷ ps) a b rest m (inside, more) =
    let actual : List ℕ = a ∷ b ∷ rest in
    branch_either Gives none _ (handle_data ps actual m)
      (bytes_equal (a ∷ b ∷ []) (response_data p.pid))
      (λ here. elim (Bool-cases (ltb (length actual) p.min_length)) [
        | inl short ↦ rw short (_, refl)
        | inr long ↦
            let (values, e) = write_fields_fit p.fields (length actual) actual m.state.values (
              in_reach-Fits p.fields p.min_length (length actual) (length actual) inside
                (ground arith) (omega arith)) in
            rw (long, e) (_, refl)
      ])
      (handle_data-Gives ps a b rest m more)

store_seed-Gives : (seed : ℕ) (m : Mems3) → Gives (store_seed seed m)
unfolding store_seed Gives
store_seed-Gives seed m = both Gives (seed == 0) (gives _) (gives _)

-- The four bytes that the test asks for are there.
handle_seed-Gives :
    (actual : List ℕ) (m : Mems3)
    → 4 ≤ length actual
    → Gives (handle_seed (get_elem? actual 2) (get_elem? actual 3) m)
unfolding handle_seed
handle_seed-Gives [] m h = absurd (omega arith)
handle_seed-Gives (a ∷ []) m h = absurd (omega arith)
handle_seed-Gives (a ∷ b ∷ []) m h = absurd (omega arith)
handle_seed-Gives (a ∷ b ∷ c ∷ []) m h = absurd (omega arith)
handle_seed-Gives (a ∷ b ∷ c ∷ d ∷ rest) m h = store_seed-Gives (be16 c d) m

guarded-Gives :
    (k n : ℕ) (header actual : List ℕ) (x y : Handled)
    → n ≤ k
    → (k ≤ length actual → Gives x)
    → Gives y
    → Gives (branch none (guarded k n header actual) x y)
guarded-Gives k n header actual x y h f g = rw (guarded-take k n header actual h) (
    branch_either Gives none x y (leb k (length actual) && bytes_equal (take n actual) header)
      (λ there. f (ground (arith, there))) g)

handle_frame-Gives : (a b : ℕ) (rest : List ℕ) (m : Mems3) → Gives (handle_frame (a ∷ b ∷ rest) m)
unfolding handle_frame handle_faults parse_faults
handle_frame-Gives a b rest m =
    let actual : List ℕ = a ∷ b ∷ rest in
    guarded-Gives 2 2 init_accepted actual _ _ (omega arith) (λ long. gives _)
      (both Gives (bytes_equal actual start_diag_response) (gives _) (
        guarded-Gives 4 2 seed_response actual _ _ (omega arith) (handle_seed-Gives actual m) (
          both Gives (bytes_equal actual key_accept_response) (gives _) (
            both Gives (bytes_equal actual pong_response) (gives _) (
              both Gives (bytes_equal actual faults_cleared_response) (gives _) (
                guarded-Gives 1 1 response_faults actual _ _ (omega arith) (λ long. gives _)
                  (both Gives (ltb (length actual) 2) (gives _)
                    (handle_data-Gives data_packets a b rest m data_packets-Inside))))))))

handle_frame-one : (a : ℕ) (m : Mems3) → a ≢ 0x58 → handle_frame (a ∷ []) m ≢ none
unfolding handle_frame handle_faults parse_faults
handle_frame-one a m other = λ e. ground (arith, other, e)

-- A payload makes `handleFrame` panic exactly if it is the one byte of a fault response with nothing
-- behind it.
pub handle_frame-none :
    (actual : List ℕ) (m : Mems3) → (handle_frame actual m ≡ none) ↔ (actual ≡ 0x58 ∷ [])
unfolding handle_frame handle_faults parse_faults Gives
handle_frame-none [] m = (λ e. absurd (ground (arith, e)), λ e. absurd (ground (arith, e)))
handle_frame-none (a ∷ []) m = elim (ℕ_discrete a 0x58) [
  | yes p ↦ (λ e. ap (λ x. x ∷ []) p, λ e. ap (λ x. handle_frame (x ∷ []) m) p)
  | no p ↦ (λ e. absurd (handle_frame-one a m p e), λ e. absurd (p (ground (arith, e))))
]
handle_frame-none (a ∷ b ∷ rest) m =
    let (r, given) = handle_frame-Gives a b rest m in
    (λ e. absurd (ground (arith, sym given ∙ e)), λ e. absurd (ground (arith, e)))
