-- ===== src/Companion/Headunit/Relay/Races.antt =====
-- Calls of internal/headunit/headunit.go that come between each other's steps.
use rover_mems_ecu.Base.{ℕ, zero, suc, ◌≡◌, refl, true, List, [], ◌∷◌, some}
use rover_mems_ecu.Companion.Fanout.{notify}
use rover_mems_ecu.Companion.Fanout.Delivery.{received_all, notify_each-received}
use rover_mems_ecu.Companion.Headunit.Relay.{
  Json, Store, Task, store_catalog, tell_command, finished, advance, Checked, accepted, refused,
  check_catalog, check_request,
}

-- The calls under way; the one at an index makes its next step.
unfoldable pub step_at : ℕ → List Task → Store → List Task × Store
step_at n [] s = ([], s)
step_at zero (t ∷ ts) s = let (t', s') = advance t s in (t' ∷ ts, s')
step_at (suc n) (t ∷ ts) s = let (ts', s') = step_at n ts s in (t ∷ ts', s')

unfoldable pub interleave : List ℕ → List Task → Store → List Task × Store
interleave [] ts s = (ts, s)
interleave (n ∷ ns) ts s = let (ts', s') = step_at n ts s in interleave ns ts' s'

-- The calls that pass their checks.
abbrev pub begun : Checked → List Task → List Task
begun (accepted t) ts = t ∷ ts
begun (refused e) ts = ts

-- A request for the catalog has loaded the old one when the dashboard's new one is cached and sent, and
-- sends the old one behind it: whatever the catalogs and the subscribers, each of the phone's channels
-- with room for both gets the new catalog and then the old one, while the new one is cached.
pub interleave-stale :
    (j : Json) (request report new old c : List ℕ) (s : Store)
    → check_request j request ≡ accepted (tell_command c true)
    → check_catalog j report ≡ accepted (store_catalog new)
    → s.catalog ≡ some old
    → let (ts, s') =
        interleave
          (0 ∷ 0 ∷ 1 ∷ 1 ∷ 0 ∷ [])
          (begun (check_request j request) (begun (check_catalog j report) []))
          s in
      (ts ≡ finished ∷ finished ∷ [])
      × (s'.catalog ≡ some new)
      × (s'.catalog_subs.subs ≡ received_all 4 (new ∷ old ∷ []) s.catalog_subs.subs)
      × (s'.cmd_subs.subs ≡ received_all 4 (c ∷ []) s.cmd_subs.subs)
unfolding interleave step_at advance notify
interleave-stale j request report new old c s asks reports cached =
    let told = notify_each-received 4 (new ∷ old ∷ []) s.catalog_subs.subs in
    let relayed = notify_each-received 4 (c ∷ []) s.cmd_subs.subs in
    rw (asks, reports, cached) (refl, refl, told, relayed)
