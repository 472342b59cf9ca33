-- ===== src/Companion/Headunit/Protocol/Frames.antt =====
-- The catalog frames of internal/headunit/protocol.go against the phone's reassembler.
use native.Mathlib.Nat.{div-add-mod, mod-lt, mul_comm, mul-le-mul_right}
use native.Mathlib.Decide.{dec_lt}
use rover_mems_ecu.Base.{
  ℕ, zero, suc, ◌+◌, ◌-◌, ◌*◌, ◌/◌, ◌≤◌, ◌<◌, ◌≡◌, ◌&&◌, refl, sym, ap, ◌∙◌, List, [], ◌∷◌, ◌++◌,
  Option, none, some, length, length-take, length-drop, take, drop, take-append-drop, drop-drop,
  take_all, drop_all, be16, All, ◌==◌, if◌then◌else◌, arith,
}
use rover_mems_ecu.Companion.Headunit.Protocol.{
  catalog_header_bytes, put_uint16, frame_count, build_frame, build_frames_from, build_frames,
}

-- The phone's reassembler, as the documentation has it: fragments `i` to `count - 1` in order, each
-- with its index and the count in its header.
pub reassemble : ℕ → ℕ → List (List ℕ) → Option (List ℕ)
reassemble count i [] = if i == count then some [] else none
reassemble count i ((a ∷ b ∷ c ∷ d ∷ payload) ∷ fs) =
    let rest = reassemble count (i + 1) fs in
    if be16 a b == i && be16 c d == count
    then elim rest [ none ↦ none | some r ↦ some (payload ++ r) ]
    else none
reassemble count i (_ ∷ fs) = none

-- The frame of chunk `i` is its header and at most `max_payload` bytes from its start.
build_frame-take :
    (catalog : List ℕ) (m count i : ℕ)
    → build_frame catalog m count i
      ≡ put_uint16 i (put_uint16 count (take m (drop (i * m) catalog)))
unfolding build_frame
build_frame-take catalog m count i = ground (
  arith,
  length-drop (i * m) catalog,
  take_all (length catalog - i * m) (drop (i * m) catalog),
  take_all m (drop (i * m) catalog),
  drop_all (i * m) catalog,
  take_all m (let e : List ℕ = [] in e),
)

frame_count-covers : (len m : ℕ) → 0 < m → len ≤ frame_count len m * m
unfolding frame_count
frame_count-covers len m h =
    let q = (len + m - 1) / m in
    ground (arith, div-add-mod (len + m - 1) m, mod-lt (len + m - 1) h, mul_comm q m)

le_of_product : (k q m : ℕ) → m * q < (k + 1) * m → q ≤ k
le_of_product k q m h = elim (dec_lt k q) [
  | yes p ↦ absurd (omega (arith, mul-le-mul_right m p, mul_comm q m))
  | no p ↦ omega arith
]

frame_count_le : (len m : ℕ) → 0 < m → len ≤ 65535 * m → frame_count len m ≤ 65535
unfolding frame_count
frame_count_le len m h k =
    let q = (len + m - 1) / m in
    ground (
      arith,
      div-add-mod (len + m - 1) m,
      le_of_product 65535 q m (omega (arith, div-add-mod (len + m - 1) m)),
    )

frame_count_pos : (len m : ℕ) → 1 ≤ frame_count len m
unfolding frame_count
frame_count_pos len m = ground arith

reassemble-build_frames_from :
    (catalog : List ℕ) (m count n i : ℕ)
    → i + n ≡ count
    → count ≤ 65535
    → length catalog ≤ count * m
    → reassemble count i (build_frames_from catalog m count n i) ≡ some (drop (i * m) catalog)
unfolding reassemble build_frames_from
reassemble-build_frames_from catalog m count zero i e c k =
    let here : i ≡ count = omega arith in
    ground (arith, drop_all (i * m) catalog, ap (λ (t : ℕ). t * m) here)
reassemble-build_frames_from catalog m count (suc n) i e c k =
    let whole = drop (i * m) catalog in
    let later : drop m whole ≡ drop ((i + 1) * m) catalog =
      drop-drop m (i * m) catalog ∙ ap (λ (t : ℕ). drop t catalog) (omega arith) in
    let ih = reassemble-build_frames_from catalog m count n (i + 1) (omega arith) c k in
    rw (build_frame-take catalog m count i) (
      ground
        (arith, ih, ap (λ (r : List ℕ). take m whole ++ r) (sym later) ∙ take-append-drop m whole))

-- Every frame fits: the header and at most `m` bytes.
abbrev pub Fits : ℕ → List ℕ → Type 0
Fits m f = length f ≤ catalog_header_bytes + m

build_frames_from-Fits :
    (catalog : List ℕ) (m count n i : ℕ) → All (Fits m) (build_frames_from catalog m count n i)
unfolding build_frames_from
build_frames_from-Fits catalog m count zero i = tt
build_frames_from-Fits catalog m count (suc n) i = (
  rw (build_frame-take catalog m count i) (omega (arith, length-take m (drop (i * m) catalog))),
  build_frames_from-Fits catalog m count n (i + 1),
)

length-build_frames_from :
    (catalog : List ℕ) (m count n i : ℕ) → length (build_frames_from catalog m count n i) ≡ n
unfolding build_frames_from
length-build_frames_from catalog m count zero i = refl
length-build_frames_from catalog m count (suc n) i =
    ap suc (length-build_frames_from catalog m count n (i + 1))

-- A catalog of at most 65535 fragments is cut into at least one frame, each of at most `m` bytes
-- behind its header, and the phone's reassembler gives the catalog back, byte for byte.
pub reassemble-build_frames :
    (catalog : List ℕ) (m : ℕ)
    → 0 < m
    → length catalog ≤ 65535 * m
    → (frames : List (List ℕ)) × (build_frames catalog m ≡ some frames)
      × (reassemble (length frames) 0 frames ≡ some catalog)
      × All (Fits m) frames
      × (1 ≤ length frames)
unfolding build_frames
reassemble-build_frames catalog m h k =
    let count = frame_count (length catalog) m in
    let zero_start : 0 * m ≡ 0 = omega arith in
    let sized : length (build_frames_from catalog m count count 0) ≡ count =
      length-build_frames_from catalog m count count 0 in
    let back : reassemble count 0 (build_frames_from catalog m count count 0) ≡ some catalog =
      reassemble-build_frames_from catalog m count count 0 (omega arith)
        (frame_count_le (length catalog) m h k) (frame_count-covers (length catalog) m h)
      ∙ ap (λ (t : ℕ). some (drop t catalog)) zero_start in
    (
      build_frames_from catalog m count count 0,
      ground arith,
      rw sized back,
      build_frames_from-Fits catalog m count count 0,
      omega (arith, sized, frame_count_pos (length catalog) m),
    )
