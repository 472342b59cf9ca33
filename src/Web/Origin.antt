-- ===== src/Web/Origin.antt =====
-- internal/web/server.go: `checkOrigin`. What `url.Parse` and `Hostname` give is an argument.
pub mod Strangers
use rover_mems_ecu.Base.{String, str_eq, Bool, true, false, ◌||◌, Option, none, some, if◌then◌else◌}

-- The test behind `url.Parse`; `none` is its error.
unfoldable pub is_local : Option String → Bool
is_local none = false
is_local (some host) = str_eq host "localhost" || (str_eq host "127.0.0.1" || str_eq host "::1")

-- `checkOrigin` of the header, which is empty where there is none.
unfoldable pub check_origin : (String → Option String) → String → Bool
check_origin hostname origin = if str_eq origin "" then true else is_local (hostname origin)
