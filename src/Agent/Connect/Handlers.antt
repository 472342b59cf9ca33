-- ===== src/Agent/Connect/Handlers.antt =====
-- What the handlers of MEMS 1.x, 2J and 3 do to their port in the `Connect` and the deferred `Close` of
-- `runECU` in cmd/rover-mems/main.go.
use rover_mems_ecu.Base.{
  ◌≡◌, ◌≢◌, inl, inr, refl, ◌∙◌, String, Bool, true, false, Option, none, some,
}
use rover_mems_ecu.Ecu.Cable.{Cable, PortAnswers, Failure, close_cable, shut}
use rover_mems_ecu.Ecu.Cable.Release.{IsSettled, open_cable-IsSettled}
use rover_mems_ecu.Mems1x.Port as Mems1x
use rover_mems_ecu.Mems2j.Port as Mems2j
use rover_mems_ecu.Mems2j.Port.{behind_write, behind_break, behind_wake_up, wake_up}
use rover_mems_ecu.Mems3.Port as Mems3

-- `Connect` has settled, and behind `Close` the port is not open and the ECU not connected.
abbrev pub IsTidy : (Cable → Cable) → Option Bool → Cable × Option Failure → Type 0
IsTidy close before r =
    IsSettled before r × ((close r.0).port ≢ some true) × ((close r.0).state.connected ≡ false)

shut_lem : (p : Option Bool) → shut p ≢ some true
unfolding shut
shut_lem none e = cc
shut_lem (some b) e = cc

behind_write-port : (failure : Option String) (c : Cable) → (behind_write failure c).0.port ≡ c.port
unfolding behind_write
behind_write-port (some e) c = refl
behind_write-port none c = refl

behind_break-port :
    (a : PortAnswers) (failure : Option String) (c : Cable)
    → (behind_break a failure c).0.port ≡ c.port
unfolding behind_break
behind_break-port a (some e) c = refl
behind_break-port a none c = behind_write-port a.write_error _

behind_wake_up-IsSettled :
    (before : Option Bool) (c : Cable) (failure : Option Failure)
    → c.port ≡ some true
    → IsSettled before (behind_wake_up (c, failure))
unfolding behind_wake_up
behind_wake_up-IsSettled before c (some e) h = inr (e, (refl, inr refl))
behind_wake_up-IsSettled before c none h = inl (refl, h)

wakes :
    (before : Option Bool) (a : PortAnswers) (c : Cable)
    → c.port ≡ some true
    → IsSettled before (behind_wake_up (wake_up a c))
unfolding wake_up
wakes before a c h =
    let (c', failure) = behind_break a a.break_error c in
    behind_wake_up-IsSettled before c' failure (behind_break-port a a.break_error c ∙ h)

-- Whatever the port answers, `Connect` of each of the three handlers has either no error and an open port,
-- or an error and a port that it has closed, or not opened. Behind `Close`, which follows in both cases, the
-- port is not open and the ECU not connected.
pub connect-IsTidy :
    (a : PortAnswers) (c : Cable)
    → IsTidy Mems1x.close c.port (Mems1x.connect a c)
      × IsTidy Mems2j.close c.port (Mems2j.connect a c)
      × IsTidy Mems3.close c.port (Mems3.connect a c)
unfolding Mems1x.connect Mems1x.close Mems2j.connect Mems2j.close Mems3.connect Mems3.close
    close_cable
connect-IsTidy a c = (
  (open_cable-IsSettled _ _ a c (λ opened h. inl (refl, h)), shut_lem _, refl),
  (open_cable-IsSettled _ _ a c (λ opened h. wakes c.port a _ h), shut_lem _, refl),
  (open_cable-IsSettled _ _ a c (λ opened h. inl (refl, h)), shut_lem _, refl),
)
