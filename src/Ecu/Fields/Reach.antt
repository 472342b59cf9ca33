-- ===== src/Ecu/Fields/Reach.antt =====
-- When the field writes of a table stay inside the slice.
use rover_mems_ecu.Base.{
  ℕ, zero, suc, ◌<◌, ◌≤◌, ◌≡◌, refl, inl, inr, Bool, true, Bool-cases, Option-cases, All, put, List,
  [], ◌∷◌, ◌++◌, none, some, get_elem?, length, ltb, ◌&&◌, arith,
}
use rover_mems_ecu.Ecu.Reading.{Float32, DataMap}
use rover_mems_ecu.Ecu.Fields.{
  Value, one, two, Guard, always, above, at_least, Field, holds, read_value, write_field,
  write_fields,
}

pub get_elem?-lt {ℓ} :
    {A : Type ℓ} (xs : List A) (i : ℕ) → i < length xs → (a : A) × (get_elem? xs i ≡ some a)
get_elem?-lt [] i h = elim h [ ]
get_elem?-lt (x ∷ xs) zero h = (x, refl)
get_elem?-lt (x ∷ xs) (suc i) h = get_elem?-lt xs i (omega arith)

-- The number of bytes that a value needs.
abbrev pub needs : Value → ℕ → Bool
needs (one i f) n = ltb i n
needs (two i j f) n = ltb i n && ltb j n

-- The bytes that a guard vouches for, where the slice has `size` bytes at least and `base` at least.
abbrev pub vouched : Guard → ℕ → ℕ
vouched always base = base
vouched (above k) base = suc k
vouched (at_least k) base = k

-- Every row reads inside of what its guard vouches for. This is a test on the table.
unfoldable pub in_reach : ℕ → List Field → Bool
in_reach base [] = true
in_reach base (f ∷ fs) = needs f.value (vouched f.guard base) && in_reach base fs

read_value-needs :
    (v : Value) (bytes : List ℕ)
    → needs v (length bytes) ≡ true
    → (x : Float32) × (read_value v bytes ≡ some x)
unfolding read_value
read_value-needs (one i f) bytes h =
    let (a, e) = get_elem?-lt bytes i (ground arith) in (f a, rw (e, read_value))
read_value-needs (two i j f) bytes h =
    let (a, e) = get_elem?-lt bytes i (ground arith) in
    let (b, e') = get_elem?-lt bytes j (ground arith) in (f a b, rw (e, read_value) (rw e'))

needs_mono : (v : Value) (n m : ℕ) → n ≤ m → needs v n ≡ true → needs v m ≡ true
needs_mono (one i f) n m h k = ground arith
needs_mono (two i j f) n m h k = ground arith

vouched_le :
    (g : Guard) (base size n : ℕ) → base ≤ n → size ≤ n → holds g size ≡ true → vouched g base ≤ n
vouched_le always base size n b s h = b
vouched_le (above k) base size n b s h = ground arith
vouched_le (at_least k) base size n b s h = ground arith

-- A row that reads inside of the slice if it is due.
abbrev pub Fits : ℕ → ℕ → Field → Type 0
Fits size n f = holds f.guard size ≡ true → needs f.value n ≡ true

write_field_total :
    (f : Field) (size : ℕ) (bytes : List ℕ) (m : DataMap)
    → Fits size (length bytes) f
    → (m' : DataMap) × (write_field size bytes f m ≡ some m')
unfolding write_field
write_field_total f size bytes m r = elim (Bool-cases (holds f.guard size)) [
  | inl h ↦
      let (x, e) = read_value-needs f.value bytes (r h) in
      (put f.name x m, rw (h, write_field) (rw e))
  | inr h ↦ (m, rw (h, write_field))
]

in_reach-cons :
    (base : ℕ) (f : Field) (fs : List Field)
    → in_reach base (f ∷ fs) ≡ true
    → (needs f.value (vouched f.guard base) ≡ true) × (in_reach base fs ≡ true)
unfolding in_reach
in_reach-cons base f fs r = (ground arith, ground arith)

-- A table whose due rows read inside of the slice never leaves it.
pub write_fields_fit :
    (fs : List Field) (size : ℕ) (bytes : List ℕ) (m : DataMap)
    → All (Fits size (length bytes)) fs
    → (m' : DataMap) × (write_fields size bytes fs m ≡ some m')
unfolding write_fields
write_fields_fit [] size bytes m r = (m, refl)
write_fields_fit (f ∷ fs) size bytes m r =
    let (m₁, e) = write_field_total f size bytes m r.0 in
    let (m', e') = write_fields_fit fs size bytes m₁ r.1 in (m', rw (e, write_fields) e')

-- A table in reach fits a slice of at least `size` and `base` bytes.
pub in_reach-Fits :
    (fs : List Field) (base size n : ℕ)
    → in_reach base fs ≡ true
    → base ≤ n
    → size ≤ n
    → All (Fits size n) fs
in_reach-Fits [] base size n r b s = tt
in_reach-Fits (f ∷ fs) base size n r b s =
    let (now, later) = in_reach-cons base f fs r in
    (
      λ h. needs_mono f.value (vouched f.guard base) n (vouched_le f.guard base size n b s h) now,
      in_reach-Fits fs base size n later b s,
    )

-- A row that is due and reads beyond the slice stops the whole table.
pub write_fields_beyond :
    (front : List Field) (f : Field) (back : List Field) (size : ℕ) (bytes : List ℕ) (m : DataMap)
    → holds f.guard size ≡ true
    → read_value f.value bytes ≡ none
    → write_fields size bytes (front ++ (f ∷ back)) m ≡ none
unfolding write_fields write_field
write_fields_beyond [] f back size bytes m h e = rw (h, write_fields, write_field) (rw e)
write_fields_beyond (g ∷ front) f back size bytes m h e =
    elim (Option-cases (write_field size bytes g m)) [
      | inl stop ↦ rw (stop, write_fields)
      | inr (m', go) ↦ rw (go, write_fields) (write_fields_beyond front f back size bytes m' h e)
    ]

pub get_elem?-ge {ℓ} : {A : Type ℓ} (xs : List A) (i : ℕ) → length xs ≤ i → get_elem? xs i ≡ none
get_elem?-ge [] i h = refl
get_elem?-ge (x ∷ xs) zero h = absurd (omega arith)
get_elem?-ge (x ∷ xs) (suc i) h = get_elem?-ge xs i (omega arith)
