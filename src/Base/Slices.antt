-- ===== src/Base/Slices.antt =====
-- The slice expressions of Go. `none` is a bound beyond the end, where Go panics or, up to the
-- capacity, gives bytes that never arrived.
use Prim.Native.Nat.{ℕ, zero, suc, ◌≤◌}
use mathlib.Core.Path.{◌≡◌, refl, ap}
use mathlib.Core.Bool.{Bool, true, false}
use mathlib.Core.List.{List, [], ◌∷◌}
use mathlib.Core.Option.{Option, none, some}
use native.Mathlib.Omega.{arith}
use rover_mems_ecu.Base.Lists.{length, take, drop}

module _ {ℓ} {A : Type ℓ} where
  abbrev push : A → Option (List A) → Option (List A)
  push x none = none
  push x (some xs) = some (x ∷ xs)

  -- `xs[:n]` and `xs[n:]`.
  abbrev pub slice_to : ℕ → List A → Option (List A)
  slice_to zero xs = some []
  slice_to (suc n) [] = none
  slice_to (suc n) (x ∷ xs) = push x (slice_to n xs)

  abbrev pub slice_from : ℕ → List A → Option (List A)
  slice_from zero xs = some xs
  slice_from (suc n) [] = none
  slice_from (suc n) (x ∷ xs) = slice_from n xs

  pub slice_to-take : (n : ℕ) (xs : List A) → n ≤ length xs → slice_to n xs ≡ some (take n xs)
  slice_to-take zero xs h = refl
  slice_to-take (suc n) [] h = absurd (omega arith)
  slice_to-take (suc n) (x ∷ xs) h = ap (push x) (slice_to-take n xs (omega arith))

  pub slice_from-drop : (n : ℕ) (xs : List A) → n ≤ length xs → slice_from n xs ≡ some (drop n xs)
  slice_from-drop zero xs h = refl
  slice_from-drop (suc n) [] h = absurd (omega arith)
  slice_from-drop (suc n) (x ∷ xs) h = slice_from-drop n xs (omega arith)

  -- What a test says that may panic, for a code that goes on in one of two ways.
  abbrev pub branch : A → Option Bool → A → A → A
  branch panic none x y = panic
  branch panic (some true) x y = x
  branch panic (some false) x y = y

  pub branch_either {κ} :
      (P : A → Type κ) (panic x y : A) (t : Bool)
      → (t ≡ true → P x)
      → P y
      → P (branch panic (some t) x y)
  branch_either P panic x y true h k = h refl
  branch_either P panic x y false h k = k
