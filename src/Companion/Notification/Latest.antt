-- ===== src/Companion/Notification/Latest.antt =====
-- What readers of internal/notification/notification.go see of a run of alert writes.
use rover_mems_ecu.Base.{
  ℕ, ◌≡◌, refl, ◌∙◌, inl, inr, List, [], ◌∷◌, Option, none, some, Option-cases,
}
use rover_mems_ecu.Companion.Fanout.{notify}
use rover_mems_ecu.Companion.Fanout.Delivery.{notify_each, received_all, notify_each-received}
use rover_mems_ecu.Companion.Notification.{Alert, Store, handle_alert, last_alert}

-- The writes `payloads`, one after the other.
pub handle_alerts : (List ℕ → Option Alert) → List (List ℕ) → Store → Store
handle_alerts unmarshal [] s = s
handle_alerts unmarshal (p ∷ ps) s = handle_alerts unmarshal ps (handle_alert unmarshal p s).0

-- The alerts that decode, in order.
abbrev pub decoded : (List ℕ → Option Alert) → List (List ℕ) → List Alert
decoded unmarshal [] = []
decoded unmarshal (p ∷ ps) =
    let rest = decoded unmarshal ps in elim (unmarshal p) [ none ↦ rest | some a ↦ a ∷ rest ]

-- The last of a list, or what was there before.
abbrev pub latest : Option Alert → List Alert → Option Alert
latest o [] = o
latest o (a ∷ as') = latest (some a) as'

handle_alerts-subs :
    (unmarshal : List ℕ → Option Alert) (ps : List (List ℕ)) (s : Store)
    → (handle_alerts unmarshal ps s).hub.subs ≡ notify_each 8 (decoded unmarshal ps) s.hub.subs
unfolding handle_alerts handle_alert notify
handle_alerts-subs unmarshal [] s = refl
handle_alerts-subs unmarshal (p ∷ ps) s = elim (Option-cases (unmarshal p)) [
  | inl e ↦ rw (e, handle_alerts, handle_alert, decoded) (handle_alerts-subs unmarshal ps s)
  | inr (a, e) ↦ rw (e, handle_alerts, handle_alert, decoded) (handle_alerts-subs unmarshal ps _)
]

handle_alerts-last :
    (unmarshal : List ℕ → Option Alert) (ps : List (List ℕ)) (s : Store)
    → last_alert (handle_alerts unmarshal ps s) ≡ latest (last_alert s) (decoded unmarshal ps)
unfolding handle_alerts handle_alert last_alert
handle_alerts-last unmarshal [] s = refl
handle_alerts-last unmarshal (p ∷ ps) s = elim (Option-cases (unmarshal p)) [
  | inl e ↦ rw (e, handle_alerts, handle_alert, decoded) (handle_alerts-last unmarshal ps s)
  | inr (a, e) ↦ rw (e, handle_alerts, handle_alert, decoded) (handle_alerts-last unmarshal ps _)
]

-- After any writes `Last` is the last alert that decoded, or what it was if none did, and each
-- subscriber has found the decoded alerts in order, as far as its channel of 8 had room.
pub handle_alerts_lem :
    (unmarshal : List ℕ → Option Alert) (ps : List (List ℕ)) (s : Store)
    → (last_alert (handle_alerts unmarshal ps s) ≡ latest (last_alert s) (decoded unmarshal ps))
      × ((handle_alerts unmarshal ps s).hub.subs ≡ received_all 8 (decoded unmarshal ps) s.hub.subs)
handle_alerts_lem unmarshal ps s = (
  handle_alerts-last unmarshal ps s,
  handle_alerts-subs unmarshal ps s ∙ notify_each-received 8 (decoded unmarshal ps) s.hub.subs,
)
