-- ===== src/Agent/Connect/Attempts.antt =====
-- What an attempt of cmd/rover-mems/main.go connects to, and how it leaves the state.
use mathlib.Core.Option.{some-injective}
use rover_mems_ecu.Base.{
  str_append, find, subst, All, ◌≡◌, refl, ◌∙◌, both, Bool-cases, Option-cases, inl, inr, String,
  str_eq, Bool, true, false, List, [], ◌∷◌, Option, none, some, if◌then◌else◌,
}
use rover_mems_ecu.Ecu.Log.{text}
use rover_mems_ecu.Ecu.State.{State, set_error, set_selected_serial_port, factory}
use rover_mems_ecu.Agent.Connect.{
  say, Failure, Handler, Surroundings, behind_connect, behind_build, report, run_ecu, defaulted,
  checked, choose, with_ports, behind_ports, connect_loop, attempt_connection,
}

-- The port for an attempt: the selected one, also where it is not listed, or the first.
abbrev pub port_for : String → String → String
port_for selected first = if str_eq selected "" then first else selected

-- A state that is left but for its log.
abbrev pub Keeps : State → State → Type 0
Keeps s s' =
    (s'.serial_ports ≡ s.serial_ports)
    × (s'.selected_serial_port ≡ s.selected_serial_port)
    × (s'.connected ≡ s.connected)
    × (s'.ecu_type ≡ s.ecu_type)

defaulted-Keeps :
    (first : String) (others : List String) (s : State) → Keeps s (defaulted first others s)
defaulted-Keeps first [] s = (refl, refl, refl, refl)
defaulted-Keeps first (p ∷ ps) s = (refl, refl, refl, refl)

checked-Keeps :
    (selected : String) (listed : Bool) (s : State) → Keeps s (checked selected listed s)
checked-Keeps selected true s = (refl, refl, refl, refl)
checked-Keeps selected false s = (refl, refl, refl, refl)

-- The choice of a port in a state where its ports are listed.
abbrev pub Chooses : String → List String → State → String × State → Type 0
Chooses first others s r =
    (r.0 ≡ port_for s.selected_serial_port first)
    × (r.1.selected_serial_port ≡ port_for s.selected_serial_port first)
    × (r.1.serial_ports ≡ first ∷ others)
    × (r.1.connected ≡ s.connected)
    × (r.1.ecu_type ≡ s.ecu_type)

choose_lem :
    (first : String) (others : List String) (s : State)
    → Chooses first others s (choose first others s)
unfolding choose set_selected_serial_port
choose_lem first others s = elim (Bool-cases (str_eq s.selected_serial_port "")) [
  | inl t ↦
      let (ports, _, connected, ecu_type) = defaulted-Keeps first others _ in
      rw (choose, port_for, t) (refl, refl, ports, connected, ecu_type)
  | inr f ↦
      let (ports, selected, connected, ecu_type) = checked-Keeps s.selected_serial_port _ _ in
      rw (choose, port_for, f) (refl, selected, ports, connected, ecu_type)
]

-- A handler whose constructor does not connect and whose `Close` disconnects.
pub record IsLawful (h : Handler) : Type 0 where
  pub build-connected : (s : State) → (h.build s).0.connected ≡ s.connected
  pub close-connected : (s : State) → (h.close s).connected ≡ false

behind_connect-connected :
    (h : Handler) (ecu_type port : String) (s : State) (failure : Option Failure)
    → IsLawful h
    → (behind_connect h ecu_type port s failure).0.connected ≡ false
unfolding behind_connect
behind_connect-connected h ecu_type port s (some e) law = law.close-connected s
behind_connect-connected h ecu_type port s none law = law.close-connected _

report-connected :
    (s : State) (failure : Option Failure) → (report s failure).0.connected ≡ s.connected
unfolding report set_error
report-connected s none = refl
report-connected s (some e) =
    both {A = State × Bool} (λ r. r.0.connected ≡ s.connected) e.is_context refl refl

-- What all handlers of a registry have, the one that is found has.
factory-All :
    (P : Handler → Type 0) (registry : List (String × Handler)) (t : String) (h : Handler)
    → All (λ e. P e.1) registry
    → factory t some registry ≡ some h
    → P h
unfolding factory find
factory-All P [] t h ps e = cc
factory-All P ((j, k) ∷ registry) t h (p, ps) e = elim (Bool-cases (str_eq j t)) [
  | inl same ↦ subst P (some-injective k h (rw (factory, find, same) at e)) p
  | inr other ↦ factory-All P registry t h ps (rw (factory, find, other) at e)
]

module _ (quoted : String → String) where
  behind_build-connected :
      (h : Handler) (ecu_type port : String) (s : State) (failure : Option Failure)
      → IsLawful h
      → s.connected ≡ false
      → (behind_build quoted h ecu_type port s failure).0.connected ≡ false
  unfolding behind_build
  behind_build-connected h ecu_type port s (some e) law idle = idle
  behind_build-connected h ecu_type port s none law idle =
      behind_connect-connected h ecu_type port _ _ law

  run_ecu-connected :
      (registry : List (String × Handler)) (ecu_type port : String) (s : State)
      → All (λ e. IsLawful e.1) registry
      → s.connected ≡ false
      → (run_ecu quoted registry ecu_type port s).0.connected ≡ false
  unfolding run_ecu
  run_ecu-connected registry ecu_type port s laws idle =
      elim (Option-cases (factory ecu_type some registry)) [
        | inl e ↦ rw (run_ecu, e) idle
        | inr (h, e) ↦
            let law = factory-All IsLawful registry ecu_type h laws e in
            rw (run_ecu, e)
              (behind_build-connected h ecu_type port (h.build s).0 (h.build s).1 law
                (law.build-connected s ∙ idle))
      ]

  with_ports-connected :
      (registry : List (String × Handler)) (ecu_type : String) (ports : List String) (s : State)
      → All (λ e. IsLawful e.1) registry
      → s.connected ≡ false
      → (with_ports quoted registry ecu_type ports s).0.connected ≡ false
  unfolding with_ports
  with_ports-connected registry ecu_type [] s laws idle = idle
  with_ports-connected registry ecu_type (first ∷ others) s laws idle =
      run_ecu-connected registry ecu_type (choose first others s).0 _ laws
        ((choose_lem first others s).3 ∙ idle)

  behind_ports-connected :
      (registry : List (String × Handler)) (ecu_type : String) (ports : List String)
      (failure : Option Failure) (s : State)
      → All (λ e. IsLawful e.1) registry
      → s.connected ≡ false
      → (behind_ports quoted registry ecu_type ports failure s).0.connected ≡ false
  unfolding behind_ports
  behind_ports-connected registry ecu_type ports (some e) s laws idle = idle
  behind_ports-connected registry ecu_type ports none s laws idle =
      with_ports-connected registry ecu_type ports s laws idle

  connect_loop-connected :
      (around : Surroundings) (s : State)
      → All (λ e. IsLawful e.1) around.registry
      → (connect_loop quoted around s).0.connected ≡ false
  unfolding connect_loop
  connect_loop-connected around s laws =
      both {A = State × Option Failure} (λ r. r.0.connected ≡ false) (str_eq s.ecu_type "") refl
        (both {A = State × Option Failure} (λ r. r.0.connected ≡ false) (str_eq s.ecu_type "fake")
          (run_ecu-connected around.registry s.ecu_type s.ecu_type _ laws refl)
          (behind_ports-connected around.registry s.ecu_type around.ports around.ports_error _ laws
            refl))

  -- Whatever the ports are, and whether the ECU type is known or not: if each handler disconnects when it
  -- is closed, and none connects when it is built, then the ECU is not connected behind an attempt.
  pub attempt_connection-connected :
      (around : Surroundings) (s : State)
      → All (λ e. IsLawful e.1) around.registry
      → (attempt_connection quoted around s).0.connected ≡ false
  unfolding attempt_connection
  attempt_connection-connected around s laws =
      let (s', failure) = connect_loop quoted around s in
      report-connected s' failure ∙ connect_loop-connected around s laws

  -- With a type of ECU that is selected and is not "fake", and ports that are listed: the handler is run on
  -- the port that is selected, listed or not, or on the first one where none is, in a state in which that
  -- port is the selected one, the ports are those listed, the type is kept and the ECU is not connected.
  pub connect_loop-port :
      (around : Surroundings) (first : String) (others : List String) (s : State)
      → str_eq s.ecu_type "" ≡ false
      → str_eq s.ecu_type "fake" ≡ false
      → around.ports ≡ first ∷ others
      → around.ports_error ≡ none
      → (s' : State) × ((connect_loop quoted around s
            ≡ run_ecu quoted around.registry s.ecu_type (port_for s.selected_serial_port first) s')
          × (s'.selected_serial_port ≡ port_for s.selected_serial_port first)
          × (s'.serial_ports ≡ first ∷ others)
          × (s'.connected ≡ false)
          × (s'.ecu_type ≡ s.ecu_type))
  unfolding connect_loop behind_ports with_ports
  connect_loop-port around first others s named real listed found =
      let starting : State =
        say "connectLoop: starting connection attempt for ECU type %q" (text s.ecu_type ∷ [])
          (record s { connected = false }) in
      let s' : State = (choose first others starting).1 in
      let chosen : String = (choose first others starting).0 in
      let (port, selected, serial_ports, connected, ecu_type) = choose_lem first others starting in
      (
        say (str_append "Using port: " chosen) [] s',
        (rw (named, real, listed, found, port) refl, selected, serial_ports, connected, ecu_type),
      )
