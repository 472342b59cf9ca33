-- ===== src/Base/Maps.antt =====
-- Go maps as association lists, by number and by text, with the laws of lookup.
use Prim.Native.Nat.{ℕ}
use Prim.Native.String.{String}
use mathlib.Core.Path.{◌≡◌, refl}
use mathlib.Core.List.{List, [], ◌∷◌}
use mathlib.Core.Option.{Option, none, some}
use native.Mathlib.Omega.{arith}
use text.Mathlib.Text.{◌==◌ as str_eq}
use text.Mathlib.TextEquality.{eq_iff}
use rover_mems_ecu.Base.Tests.{◌==◌, if◌then◌else◌}

module _ {ℓ} {V : Type ℓ} where
  -- `m[k]` of a `map[int]V` or `map[byte]V`.
  unfoldable pub lookup : ℕ → List (ℕ × V) → Option V
  lookup k [] = none
  lookup k ((j, v) ∷ m) = if j == k then some v else lookup k m

  -- `m[k] = v`.
  unfoldable pub insert : ℕ → V → List (ℕ × V) → List (ℕ × V)
  insert key new [] = (key, new) ∷ []
  insert key new ((i, old) ∷ rest) =
      if i == key then (key, new) ∷ rest else (i, old) ∷ insert key new rest

  pub lookup-insert :
      (key other : ℕ) (new : V) (map : List (ℕ × V))
      → lookup other (insert key new map) ≡ (if key == other then some new else lookup other map)
  unfolding lookup insert
  lookup-insert key other new [] = refl
  lookup-insert key other new ((i, old) ∷ rest) = ground (arith, lookup-insert key other new rest)

  -- `m[k]` and `m[k] = v` of a `map[string]V`.
  unfoldable pub find : String → List (String × V) → Option V
  find k [] = none
  find k ((j, v) ∷ m) = if str_eq j k then some v else find k m

  unfoldable pub put : String → V → List (String × V) → List (String × V)
  put k v [] = (k, v) ∷ []
  put k v ((j, w) ∷ m) = if str_eq j k then (k, v) ∷ m else (j, w) ∷ put k v m

  pub find-put :
      (k j : String) (v : V) (m : List (String × V))
      → find j (put k v m) ≡ (if str_eq k j then some v else find j m)
  unfolding find put
  find-put k j v [] = refl
  find-put k j v ((i, w) ∷ m) = ground (arith, eq_iff k j, eq_iff i k, eq_iff i j, find-put k j v m)

-- The `+` of texts.
abbrev pub str_append : String → String → String
str_append String.[] t = t
str_append (String.◌∷◌ c s) t = String.◌∷◌ c (str_append s t)
