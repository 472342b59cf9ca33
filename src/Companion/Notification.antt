-- ===== src/Companion/Notification.antt =====
-- internal/notification/notification.go: one-shot alerts, fanned out as they arrive, of which the
-- last is kept. JSON decoding (`encoding/json` into the struct) is the argument `unmarshal`.
pub mod Latest
use rover_mems_ecu.Base.{String, ℤ, ℕ, pos, Bool, true, false, List, Option, none, some}
use rover_mems_ecu.Companion.Fanout.{Hub, no_subs, notify}

pub record Alert : Type 0 where
  pub app : String
  pub title : String
  pub text : String
  pub posted_at : ℤ

pub record Store : Type 0 where
  pub last : Alert
  pub has_last : Bool
  pub hub : Hub Alert

abbrev pub new_store : Store
new_store = record {
  last = record { app = ""; title = ""; text = ""; posted_at = pos 0 };
  has_last = false;
  hub = no_subs;
}

-- `HandleAlert` with `ParseAlert`; false is the parse error. The channels hold 8.
pub handle_alert : (List ℕ → Option Alert) → List ℕ → Store → Store × Bool
handle_alert unmarshal payload s = elim (unmarshal payload) [
  | none ↦ (s, false)
  | some a ↦ (record s { last = a; has_last = true; hub = notify 8 a s.hub }, true)
]

-- `Last`: `none` is `ok == false`.
unfoldable pub last_alert : Store → Option Alert
last_alert s = elim s.has_last [ true ↦ some s.last | false ↦ none ]
