-- ===== src/Ecu/Cable/Release.antt =====
-- How `Connect` leaves the port of a handler of internal/ecu.
use rover_mems_ecu.Base.{◌≡◌, ◌⊎◌, inl, inr, refl, String, Bool, true, false, Option, none, some}
use rover_mems_ecu.Ecu.Cable.{Cable, PortAnswers, Failure, behind_timeout, behind_open, open_cable}

-- The port is open and there is no error, or there is one, and the port is as it was before or closed.
abbrev pub IsSettled : Option Bool → Cable × Option Failure → Type 0
IsSettled before r =
    ((r.1 ≡ none) × (r.0.port ≡ some true))
    ⊎ ((e : Failure) × ((r.1 ≡ some e) × ((r.0.port ≡ before) ⊎ (r.0.port ≡ some false))))

behind_timeout-IsSettled :
    (rest : Cable → Cable × Option Failure) (before : Option Bool) (failure : Option String)
    (c : Cable)
    → IsSettled before (rest c)
    → IsSettled before (behind_timeout rest failure c)
unfolding behind_timeout
behind_timeout-IsSettled rest before (some e) c h = inr (_, (refl, inr refl))
behind_timeout-IsSettled rest before none c h = h

behind_open-IsSettled :
    (rest : Cable → Cable × Option Failure) (a : PortAnswers) (failure : Option String) (c : Cable)
    → ((opened : Cable) → opened.port ≡ some true → IsSettled c.port (rest opened))
    → IsSettled c.port (behind_open rest a failure c)
unfolding behind_open
behind_open-IsSettled rest a (some e) c h = inr (_, (refl, inl refl))
behind_open-IsSettled rest a none c h =
    behind_timeout-IsSettled rest c.port a.timeout_error (record c { port = some true }) (h _ refl)

-- `Connect` settles if what follows the first half does.
pub open_cable-IsSettled :
    (msg : String) (rest : Cable → Cable × Option Failure) (a : PortAnswers) (c : Cable)
    → ((opened : Cable) → opened.port ≡ some true → IsSettled c.port (rest opened))
    → IsSettled c.port (open_cable msg rest a c)
unfolding open_cable
open_cable-IsSettled msg rest a c h = behind_open-IsSettled rest a a.open_error _ h
