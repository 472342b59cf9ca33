-- ===== src/Rc5/Commands/Sends.antt =====
-- What `sendNextCommand` of internal/ecu/rc5/rc5.go writes.
use package.text.Mathlib.TextEquality.{eq_iff}
use rover_mems_ecu.Base.{
  subst, ℕ, String, str_eq, ◌≡◌, refl, inl, inr, Bool-cases, Option-cases, true, List, [], ◌∷◌,
  ◌++◌, Option, none, some, find,
}
use rover_mems_ecu.Ecu.State.{set_user_command}
use rover_mems_ecu.Rc5.Commands.{
  Rc5, log_debug, clear_user_command, user_commands, write, request_after, send_next_command,
}

abbrev unknown : Rc5 → Rc5
unknown r = log_debug "Asked to perform a user command but don't understand it" r

-- The frame that is due: that of the pending user command, if there is such a command, and the next of
-- the poll else.
pub wanted : String → List ℕ → List ℕ
wanted name previous = elim (find name user_commands) [
  | some command ↦ command
  | none ↦ request_after previous
]

-- One frame more, no user command, and the rest as it was.
abbrev pub Emits : List ℕ → Rc5 → Rc5 → Type 0
Emits command r r' =
    (r'.written ≡ r.written ++ (command ∷ []))
    × (r'.state.user_command ≡ "")
    × (r'.state.faults ≡ r.state.faults)
    × (r'.state.connected ≡ r.state.connected)

write-Emits :
    (w : Option String) (command : List ℕ) (r : Rc5)
    → r.state.user_command ≡ ""
    → Emits command r (write w command r)
unfolding write
write-Emits none command r u = (refl, u, refl, refl)
write-Emits (some e) command r u = (refl, u, refl, refl)

wanted-empty :
    (name : String) (previous : List ℕ)
    → str_eq name "" ≡ true
    → wanted name previous ≡ request_after previous
unfolding wanted find
wanted-empty name previous t = rw ((eq_iff name "").0 t) refl

-- Exactly one frame goes out, whatever `Write` says, and the pending user command is taken out.
pub send_next_command-Emits :
    (w : Option String) (previous : List ℕ) (r : Rc5)
    → Emits (wanted r.state.user_command previous) r (send_next_command w previous r)
unfolding send_next_command wanted set_user_command
send_next_command-Emits w previous r = elim (Bool-cases (str_eq r.state.user_command "")) [
  | inl t ↦
      rw (send_next_command, t, wanted-empty r.state.user_command previous t)
        (write-Emits w (request_after previous) (clear_user_command r) refl)
  | inr f ↦ elim (Option-cases (find r.state.user_command user_commands)) [
    | inl e ↦
        rw (send_next_command, f, wanted, e)
          (write-Emits w (request_after previous) (clear_user_command (unknown r)) refl)
    | inr (command, e) ↦
        rw (send_next_command, f, wanted, e) (write-Emits w command (clear_user_command r) refl)
  ]
]

-- With no user command pending, the next frame of the poll goes out.
pub send_next_command-idle :
    (w : Option String) (previous : List ℕ) (r : Rc5)
    → r.state.user_command ≡ ""
    → Emits (request_after previous) r (send_next_command w previous r)
unfolding wanted find
send_next_command-idle w previous r u =
    subst (λ command. Emits command r (send_next_command w previous r))
      (wanted-empty r.state.user_command previous (rw u refl))
      (send_next_command-Emits w previous r)
