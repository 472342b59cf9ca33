-- ===== src/Mems1x/Frames/Safety.antt =====
-- Whether the parsers of internal/ecu/mems1x/loop.go stay inside of a frame that the loop has waited
-- for, and which faults they report.
use rover_mems_ecu.Base.{
  ℕ, ◌+◌, ◌≤◌, ◌≡◌, refl, ap, ◌∙◌, Bool-cases, inl, inr, ◌≢◌, All, All-append, subst, sym, ◌↔◌, ◌⊎◌,
  take, get_or, List, [], ◌∷◌, ◌++◌, none, length, ltb, leb, true, arith,
}
use native.Mathlib.Decide.{ℕ_discrete}
use rover_mems_ecu.Ecu.Reading.{Float32, of_nat}
use rover_mems_ecu.Ecu.State.{State}
use rover_mems_ecu.Ecu.Fields.{Field, always, one, holds, read_value, write_fields}
use rover_mems_ecu.Ecu.Fields.Reach.{
  in_reach, Fits, in_reach-Fits, write_fields_fit, write_fields_beyond, get_elem?-ge,
}
use rover_mems_ecu.Mems1x.Frames.{
  basic_fields80, trailing_fields80, fields7d, trailing_fields7d, decode80, decode7d, parse_data80,
  parse_data7d,
}

decode80_total :
    (size : ℕ) (payload : List ℕ) (s : State)
    → size ≤ length payload
    → decode80 size payload s ≢ none
unfolding decode80 in_reach
decode80_total size payload s h = elim (Bool-cases (ltb (length payload) 15)) [
  | inl short ↦ ground arith
  | inr long ↦
      let (m, e) = write_fields_fit (basic_fields80 ++ trailing_fields80) size payload s.values (
        in_reach-Fits (basic_fields80 ++ trailing_fields80) 15 size (length payload) refl
          (ground arith) h) in
      ground (arith, e)
]

-- The read loop waits for one byte more than the size byte says. On every such 0x80 frame the parser
-- stays inside the frame, whatever the size byte is.
pub parse_data80_total :
    (echo size : ℕ) (rest : List ℕ) (s : State)
    → size + 1 ≤ length (echo ∷ size ∷ rest)
    → parse_data80 (echo ∷ size ∷ rest) s ≢ none
unfolding parse_data80
parse_data80_total echo size rest s h = decode80_total size (size ∷ rest) _ (omega arith)

-- The rows behind the basic ones fit an exact frame but at two size bytes: their guards say `>=`
-- where the index is the size itself.
trailing_fields7d-Fits :
    (size : ℕ) → size ≢ 0x16 → size ≢ 0x1F → All (Fits size size) trailing_fields7d
trailing_fields7d-Fits size p q =
    let wide : leb 0x16 size ≡ true → ltb 0x16 size ≡ true = λ h. ground arith in
    let last : leb 0x1F size ≡ true → ltb 0x1F size ≡ true = λ h. ground arith in
    (wide, (wide, (wide, (wide, (wide, (wide, (last, tt)))))))

decode7d_total :
    (size : ℕ) (payload : List ℕ) (s : State)
    → size ≡ length payload
    → size ≢ 0x16
    → size ≢ 0x1F
    → decode7d size payload s ≢ none
unfolding decode7d in_reach
decode7d_total size payload s h p q = elim (Bool-cases (ltb (length payload) 15)) [
  | inl short ↦ ground arith
  | inr long ↦
      let (m, e) = write_fields_fit (fields7d ++ trailing_fields7d) size payload s.values (
        All-append (Fits size (length payload)) fields7d trailing_fields7d
          (in_reach-Fits fields7d 15 size (length payload) refl (ground arith) (omega arith))
          (subst (λ n. All (Fits size n) trailing_fields7d) h (trailing_fields7d-Fits size p q))) in
      ground (arith, e)
]

beyond :
    (i : ℕ) (f : ℕ → Float32) (bytes : List ℕ)
    → length bytes ≤ i
    → read_value (one i f) bytes ≡ none
unfolding read_value
beyond i f bytes h = rw (get_elem?-ge bytes i h, read_value)

abbrev at : ℕ → List Field → Field
at i fs = get_or fs i (record { guard = always; name = ""; value = one 0 of_nat })

decode7d_panics :
    (front : List Field) (f : Field) (back : List Field) (size : ℕ) (payload : List ℕ) (s : State)
    → fields7d ++ trailing_fields7d ≡ front ++ (f ∷ back)
    → holds f.guard size ≡ true
    → read_value f.value payload ≡ none
    → 15 ≤ length payload
    → decode7d size payload s ≡ none
unfolding decode7d
decode7d_panics front f back size payload s split h e long =
    let beyond : write_fields size payload (fields7d ++ trailing_fields7d) s.values ≡ none =
      ap (λ fs. write_fields size payload fs s.values) split
      ∙ write_fields_beyond front f back size payload s.values h e in
    ground (arith, beyond)

-- A 0x7D frame of exactly the announced length, size byte included, makes the parser read beyond its
-- end, which panics, exactly if the size byte is 0x16 or 0x1F.
pub parse_data7d-none :
    (echo size : ℕ) (rest : List ℕ) (s : State)
    → length (size ∷ rest) ≡ size
    → (parse_data7d (echo ∷ size ∷ rest) s ≡ none) ↔ ((size ≡ 0x16) ⊎ (size ≡ 0x1F))
unfolding parse_data7d
parse_data7d-none echo size rest s exact = (
  λ stops. elim (ℕ_discrete size 0x16) [
    | yes p ↦ inl p
    | no p ↦ elim (ℕ_discrete size 0x1F) [
      | yes q ↦ inr q
      | no q ↦ absurd (decode7d_total size (size ∷ rest) _ (sym exact) p q stops)
    ]
  ],
  λ bad. elim bad [
    | inl p ↦
        decode7d_panics fields7d (at 0 trailing_fields7d) _ size (size ∷ rest) _ refl (ground arith)
          (beyond 0x16 _ (size ∷ rest) (omega arith)) (omega arith)
    | inr q ↦
        decode7d_panics (fields7d ++ take 6 trailing_fields7d) (at 6 trailing_fields7d) [] size
          (size ∷ rest) _ refl (ground arith) (beyond 0x1F _ (size ∷ rest) (omega arith))
          (omega arith)
  ],
)
