-- ===== src/Companion/Headunit/Protocol/Commands.antt =====
-- Which commands internal/headunit/protocol.go accepts.
use text.Mathlib.TextEquality.{eq_iff}
use rover_mems_ecu.Base.{
  ℕ, refl, ◌<◌, ◌≡◌, ◌≢◌, ◌↔◌, ◌⊎◌, inl, inr, String, str_eq, true, false, Bool, ◌||◌, Bool-cases,
  ap, List, [], ◌∷◌, sym, subst, ◌∙◌, Option, none, some, length, arith, Option-cases,
}
use rover_mems_ecu.Companion.Headunit.Protocol.{
  Command, ok, err, bad_json, is_nav_key, check_command, parse_command,
}

-- One of these texts.
abbrev pub OneOf : String → List String → Type 0
OneOf k [] = ⊥
OneOf k (x ∷ xs) = (k ≡ x) ⊎ OneOf k xs

-- The keys of the head unit, in the order of its protocol.
abbrev pub keys : List String
keys = "next" ∷ "previous" ∷ "up" ∷ "down" ∷ "left" ∷ "right" ∷ "ok" ∷ "back" ∷ []

-- The five commands with the fields that each needs. The value of a setting is any JSON value.
pub data WellFormed (c : Command) : Type 0 where
  current_view : c.kind ≡ "set_current_view" → c.view_id ≢ "" → WellFormed c
  view_visibility :
      c.kind ≡ "set_view_visibility" → c.view_id ≢ "" → c.visible ≢ none → WellFormed c
  setting_value :
      c.kind ≡ "set_setting_value" → c.setting_id ≢ "" → 0 < length c.value → WellFormed c
  request : c.kind ≡ "request_catalog" → WellFormed c
  nav : c.kind ≡ "nav_key" → OneOf c.key keys → WellFormed c

-- The test of a key against a list.
abbrev among : String → List String → Bool
among k [] = false
among k (x ∷ xs) = str_eq k x || among k xs

among-then-OneOf : (k : String) (xs : List String) → among k xs ≡ true → OneOf k xs
among-then-OneOf k [] h = absurd (ground (arith, h))
among-then-OneOf k (x ∷ xs) h = elim (Bool-cases (str_eq k x)) [
  | inl same ↦ inl ((eq_iff k x).0 same)
  | inr other ↦
      let later : among k xs ≡ true = ground (arith, other, h) in inr (among-then-OneOf k xs later)
]

OneOf-then-among : (k : String) (xs : List String) → OneOf k xs → among k xs ≡ true
OneOf-then-among k [] h = absurd h
OneOf-then-among k (x ∷ xs) (inl same) =
    let found : str_eq k x ≡ true = (eq_iff k x).1 same in rw found refl
OneOf-then-among k (x ∷ xs) (inr later) =
    let found : among k xs ≡ true = OneOf-then-among k xs later in ground (arith, found)

is_nav_key-among : (k : String) → is_nav_key k ≡ among k keys
unfolding is_nav_key
is_nav_key-among k = ground arith

-- A test of the kind, at the kind that it is known to be.
kind_test : (c : Command) (t u : String) → c.kind ≡ t → str_eq c.kind u ≡ str_eq t u
kind_test c t u k = ap (λ (x : String). str_eq x u) k

not_empty : (t : String) → t ≢ "" → str_eq t "" ≡ false
not_empty t h = elim (Bool-cases (str_eq t "")) [
  | inl e ↦ absurd (h ((eq_iff t "").0 e))
  | inr e ↦ e
]

WellFormed-check_command : (c : Command) → WellFormed c → check_command c ≡ ok c
unfolding check_command
WellFormed-check_command c (current_view k v) =
    rw (kind_test c "set_current_view" "set_current_view" k) (rw (not_empty c.view_id v))
WellFormed-check_command c (view_visibility k v w) =
    rw (kind_test c "set_view_visibility" "set_current_view" k) (
      rw (kind_test c "set_view_visibility" "set_view_visibility" k)
        (rw (not_empty c.view_id v) (ground arith)))
WellFormed-check_command c (setting_value k v w) =
    rw (kind_test c "set_setting_value" "set_current_view" k) (
      rw (kind_test c "set_setting_value" "set_view_visibility" k) (
        rw (kind_test c "set_setting_value" "set_setting_value" k)
          (rw (not_empty c.setting_id v) (ground arith))))
WellFormed-check_command c (request k) = rw (kind_test c "request_catalog" "set_current_view" k) (
    rw (kind_test c "request_catalog" "set_view_visibility" k) (
      rw (kind_test c "request_catalog" "set_setting_value" k)
        (rw (kind_test c "request_catalog" "request_catalog" k))))
WellFormed-check_command c (nav k v) = rw (kind_test c "nav_key" "set_current_view" k) (
    rw (kind_test c "nav_key" "set_view_visibility" k) (
      rw (kind_test c "nav_key" "set_setting_value" k) (
        rw (kind_test c "nav_key" "request_catalog" k) (
          rw (kind_test c "nav_key" "nav_key" k)
            (rw (is_nav_key-among c.key ∙ OneOf-then-among c.key keys v))))))

-- The text that a passed test names.
named : (t u : String) → str_eq t u ≡ true → t ≡ u
named t u e = (eq_iff t u).0 e

-- A text that fails the test for the empty one.
filled : (t : String) → str_eq t "" ≡ false → t ≢ ""
filled t e q = cc (ap (λ (x : String). str_eq x "") q, e)

-- The tests that have passed where a command is accepted.
abbrev Passed : Command → Type 0
Passed c =
    ((str_eq c.kind "set_current_view" ≡ true) × (str_eq c.view_id "" ≡ false))
    ⊎ (((str_eq c.kind "set_view_visibility" ≡ true)
          × (str_eq c.view_id "" ≡ false)
          × (c.visible ≢ none))
        ⊎ (((str_eq c.kind "set_setting_value" ≡ true)
              × (str_eq c.setting_id "" ≡ false)
              × (0 < length c.value))
            ⊎ ((str_eq c.kind "request_catalog" ≡ true)
                ⊎ ((str_eq c.kind "nav_key" ≡ true) × (is_nav_key c.key ≡ true)))))

check_command-Passed : (c d : Command) → check_command c ≡ ok d → (c ≡ d) × Passed c
unfolding check_command
check_command-Passed c d h = (ground arith, ground arith)

Passed-WellFormed : (c : Command) → Passed c → WellFormed c
Passed-WellFormed c (inl (k, v)) = current_view (named _ _ k) (filled _ v)
Passed-WellFormed c (inr (inl (k, v, w))) = view_visibility (named _ _ k) (filled _ v) w
Passed-WellFormed c (inr (inr (inl (k, v, w)))) = setting_value (named _ _ k) (filled _ v) w
Passed-WellFormed c (inr (inr (inr (inl k)))) = request (named _ _ k)
Passed-WellFormed c (inr (inr (inr (inr (k, v))))) =
    nav (named _ _ k) (among-then-OneOf c.key keys (sym (is_nav_key-among c.key) ∙ v))

-- `ParseCommand` accepts a payload exactly if it decodes to one of the five commands with the fields
-- that this command needs: the id of a view, that and a flag, the id of a setting and any JSON value,
-- nothing, or one of the eight keys. It then gives that command unchanged.
pub parse_command-WellFormed :
    (unmarshal : List ℕ → Option Command) (payload : List ℕ) (d : Command)
    → (parse_command unmarshal payload ≡ ok d) ↔ ((unmarshal payload ≡ some d) × WellFormed d)
unfolding parse_command
parse_command-WellFormed unmarshal payload d = (
  λ h. elim (Option-cases (unmarshal payload)) [
    | inl e ↦ cc (bad e)
    | inr (c, e) ↦
        let p = check_command-Passed c d (sym (good c e) ∙ h) in
        (e ∙ ap some p.0, subst WellFormed p.0 (Passed-WellFormed c p.1))
  ],
  λ (e, doc). good d e ∙ WellFormed-check_command d doc,
)
  where
    good :
        (c : Command)
        → unmarshal payload ≡ some c
        → parse_command unmarshal payload ≡ check_command c
    good c e = rw (e, parse_command)

    bad : unmarshal payload ≡ none → parse_command unmarshal payload ≡ err bad_json
    bad e = rw (e, parse_command)
