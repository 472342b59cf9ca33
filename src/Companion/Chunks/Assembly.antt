-- ===== src/Companion/Chunks/Assembly.antt =====
-- When the assembled chunks are the file that the phone cut up (internal/nowplaying,
-- internal/navigation).
use rover_mems_ecu.Base.{
  ℕ, zero, suc, ◌+◌, ◌≤◌, ◌<◌, ◌≡◌, ◌⊎◌, inl, inr, refl, ap, List, [], ◌∷◌, ◌++◌, length,
  length-append, some, Option-cases, lookup, insert, lookup-insert, ◌==◌, if◌then◌else◌, arith,
}
use mathlib.Core.Path.{ap₂}
use native.Mathlib.Decide.{dec_lt}
use rover_mems_ecu.Companion.Chunks.{ChunkMap, chunk_or_nil, count_received, assemble}

-- The bytes of the chunks from `i` on, as the phone cut them: `piece i` is chunk `i`.
abbrev pub whole : (ℕ → List ℕ) → ℕ → ℕ → List ℕ
whole piece zero i = []
whole piece (suc n) i = piece i ++ whole piece n (i + 1)

-- Every chunk in the map is the phone's chunk of that index.
abbrev pub Agrees : (ℕ → List ℕ) → ChunkMap → Type 0
Agrees piece m = (i : ℕ) (c : List ℕ) → lookup i m ≡ some c → c ≡ piece i

chunk_or_nil-insert :
    (idx j : ℕ) (c : List ℕ) (m : ChunkMap)
    → chunk_or_nil j (insert idx c m) ≡ (if idx == j then c else chunk_or_nil j m)
unfolding chunk_or_nil
chunk_or_nil-insert idx j c m = ground (arith, lookup-insert idx j c m)

-- What is at an index is nothing, or the phone's chunk.
chunk_or_nil-cases :
    (piece : ℕ → List ℕ) (i : ℕ) (m : ChunkMap)
    → Agrees piece m
    → (chunk_or_nil i m ≡ []) ⊎ (chunk_or_nil i m ≡ piece i)
unfolding chunk_or_nil
chunk_or_nil-cases piece i m a = elim (Option-cases (lookup i m)) [
  | inl e ↦ inl (rw (e, chunk_or_nil))
  | inr (c, e) ↦ inr (rw (e, chunk_or_nil) (a i c e))
]

empty_of_length {ℓ} : {A : Type ℓ} (xs : List A) → length xs ≡ 0 → xs ≡ []
empty_of_length [] h = refl
empty_of_length (x ∷ xs) h = absurd (omega arith)

-- A write outside of the rounds that are left does not show.
assemble-insert_before :
    (n i idx : ℕ) (c : List ℕ) (m : ChunkMap)
    → idx < i
    → assemble n i (insert idx c m) ≡ assemble n i m
unfolding assemble
assemble-insert_before zero i idx c m h = refl
assemble-insert_before (suc n) i idx c m h =
    ground
      (arith, chunk_or_nil-insert idx i c m, assemble-insert_before n (i + 1) idx c m (omega arith))

-- A write inside exchanges the bytes that were counted for the index.
pub length-assemble-insert :
    (n i idx : ℕ) (c : List ℕ) (m : ChunkMap)
    → i ≤ idx
    → idx < i + n
    → length (assemble n i (insert idx c m)) + length (chunk_or_nil idx m)
      ≡ length (assemble n i m) + length c
unfolding assemble
length-assemble-insert zero i idx c m h k = absurd (omega arith)
length-assemble-insert (suc n) i idx c m h k = elim (dec_lt i idx) [
  | yes later ↦ ground (
    arith,
    chunk_or_nil-insert idx i c m,
    length-append (chunk_or_nil i (insert idx c m)) (assemble n (i + 1) (insert idx c m)),
    length-append (chunk_or_nil i m) (assemble n (i + 1) m),
    length-assemble-insert n (i + 1) idx c m (omega arith) (omega arith),
  )
  | no now ↦
      let here : idx ≡ i = omega arith in
      ground (
        arith,
        chunk_or_nil-insert idx i c m,
        length-append (chunk_or_nil i (insert idx c m)) (assemble n (i + 1) (insert idx c m)),
        length-append (chunk_or_nil i m) (assemble n (i + 1) m),
        assemble-insert_before n (i + 1) idx c m (omega arith),
      )
]

-- The bytes counted never exceed the file, and if they reach it then the file is complete.
pub assemble-whole :
    (piece : ℕ → List ℕ) (n i : ℕ) (m : ChunkMap)
    → Agrees piece m
    → (length (assemble n i m) ≤ length (whole piece n i))
      × (length (assemble n i m) ≡ length (whole piece n i) → assemble n i m ≡ whole piece n i)
unfolding assemble
assemble-whole piece zero i m a = (omega arith, λ e. refl)
assemble-whole piece (suc n) i m a =
    let (le, eq) = assemble-whole piece n (i + 1) m a in
    let rest = assemble n (i + 1) m in
    elim (chunk_or_nil-cases piece i m a) [
      | inl e ↦ rw e (
        omega (arith, length-append (piece i) (whole piece n (i + 1))),
        λ l. ground (
          arith,
          length-append (piece i) (whole piece n (i + 1)),
          empty_of_length (piece i)
              (omega (arith, length-append (piece i) (whole piece n (i + 1)))),
          eq (omega (arith, length-append (piece i) (whole piece n (i + 1)))),
        ),
      )
      | inr e ↦ rw e (
        omega
            (arith, length-append (piece i) (whole piece n (i + 1)), length-append (piece i) rest),
        λ l.
            ap (λ r. piece i ++ r)
              (eq (
                omega (
                  arith,
                  length-append (piece i) (whole piece n (i + 1)),
                  length-append (piece i) rest,
                ))),
      )
    ]

-- With every chunk in the map the file is complete.
pub assemble_full :
    (piece : ℕ → List ℕ) (n i : ℕ) (m : ChunkMap)
    → ((j : ℕ) → i ≤ j → j < i + n → lookup j m ≡ some (piece j))
    → assemble n i m ≡ whole piece n i
unfolding assemble chunk_or_nil
assemble_full piece zero i m full = refl
assemble_full piece (suc n) i m full =
    let first : lookup i m ≡ some (piece i) = full i (omega arith) (omega arith) in
    ap₂ (λ (x y : List ℕ). x ++ y) (rw (first, chunk_or_nil))
      (assemble_full piece n (i + 1) m (λ j h k. full j (omega arith) (omega arith)))

-- The count that a transfer keeps is exact: it stays the number of bytes that the chunks would
-- assemble to, also where an index is sent again.
pub count_received-assemble :
    (n idx received : ℕ) (c : List ℕ) (m : ChunkMap)
    → idx < n
    → received ≡ length (assemble n 0 m)
    → count_received idx c m received ≡ length (assemble n 0 (insert idx c m))
unfolding count_received chunk_or_nil
count_received-assemble n idx received c m h e = ground (
  arith,
  length-assemble-insert n 0 idx c m (omega arith) (omega arith),
  length-assemble-insert n 0 idx [] m (omega arith) (omega arith),
)

pub Agrees-insert :
    (piece : ℕ → List ℕ) (idx : ℕ) (m : ChunkMap)
    → Agrees piece m
    → Agrees piece (insert idx (piece idx) m)
Agrees-insert piece idx m a i c e =
    ground (arith, lookup-insert idx i (piece idx) m, a i c, ap piece)

-- An empty map assembles to nothing.
pub assemble_empty : (n i : ℕ) → assemble n i [] ≡ []
unfolding assemble chunk_or_nil lookup
assemble_empty zero i = refl
assemble_empty (suc n) i = assemble_empty n (i + 1)
