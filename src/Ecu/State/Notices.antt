-- ===== src/Ecu/State/Notices.antt =====
-- One-shot notices of internal/ecu/ecu.go: readers tell a new alert or error by its sequence number.
use rover_mems_ecu.Base.{ℕ, suc, ◌+◌, ◌≡◌, refl, String, List, [], ◌∷◌, arith}
use rover_mems_ecu.Ecu.Log.{Line}
use rover_mems_ecu.Ecu.State.{
  State, debug, set_alert, set_error, set_ecu_type, set_selected_serial_port, set_user_command,
  snapshot,
}

-- What the web server and the handlers do to the state, less the readings of the ECU.
pub data Op : Type 0 where
  alert error ecu_type port command : String → Op
  log : Line → Op

pub apply : Op → State → State
apply (alert v) s = set_alert v s
apply (error v) s = set_error v s
apply (ecu_type v) s = set_ecu_type v s
apply (port v) s = set_selected_serial_port v s
apply (command v) s = set_user_command v s
apply (log m) s = debug m s

pub apply_all : List Op → State → State
apply_all [] s = s
apply_all (o ∷ os) s = apply_all os (apply o s)

-- The alerts among the operations, as often, and the last of them.
abbrev pub alerts : List Op → ℕ
alerts [] = 0
alerts (alert v ∷ os) = suc (alerts os)
alerts (_ ∷ os) = alerts os

abbrev pub last_alert : String → List Op → String
last_alert v [] = v
last_alert v (alert w ∷ os) = last_alert w os
last_alert v (_ ∷ os) = last_alert v os

-- The errors among the operations, likewise.
abbrev pub errors : List Op → ℕ
errors [] = 0
errors (error v ∷ os) = suc (errors os)
errors (_ ∷ os) = errors os

abbrev pub last_error : String → List Op → String
last_error v [] = v
last_error v (error w ∷ os) = last_error w os
last_error v (_ ∷ os) = last_error v os

-- Between two snapshots of a reader the number of alerts grows by the count of alerts that were set,
-- and the text is that of the last one, and likewise for errors; so a repeat of the same text is
-- seen, and no reader's snapshot takes a notice from another.
pub snapshot-apply_all :
    (os : List Op) (s : State)
    → ((snapshot (apply_all os s)).alert_seq ≡ (snapshot s).alert_seq + alerts os)
      × ((snapshot (apply_all os s)).alert ≡ last_alert (snapshot s).alert os)
      × ((snapshot (apply_all os s)).error_seq ≡ (snapshot s).error_seq + errors os)
      × ((snapshot (apply_all os s)).error ≡ last_error (snapshot s).error os)
unfolding apply_all apply snapshot set_alert set_error set_ecu_type set_selected_serial_port
    set_user_command
snapshot-apply_all [] s = (omega arith, refl, omega arith, refl)
snapshot-apply_all (alert v ∷ os) s = ground (arith, snapshot-apply_all os (set_alert v s))
snapshot-apply_all (error v ∷ os) s = ground (arith, snapshot-apply_all os (set_error v s))
snapshot-apply_all (ecu_type v ∷ os) s = snapshot-apply_all os (set_ecu_type v s)
snapshot-apply_all (port v ∷ os) s = snapshot-apply_all os (set_selected_serial_port v s)
snapshot-apply_all (command v ∷ os) s = snapshot-apply_all os (set_user_command v s)
snapshot-apply_all (log m ∷ os) s = snapshot-apply_all os (debug m s)
