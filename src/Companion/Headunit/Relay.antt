-- ===== src/Companion/Headunit/Relay.antt =====
-- internal/headunit/headunit.go: the relay that caches the dashboard's catalog and passes the phone's
-- commands on. `json.Valid`, `json.Compact` and the decoding of a command are the fields of `Json`.
pub mod Races
use rover_mems_ecu.Base.{
  ℕ, String, str_eq, Bool, true, false, ◌&&◌, ◌||◌, List, [], ◌∷◌, Option, none, some, ◌==◌,
  if◌then◌else◌,
}
use rover_mems_ecu.Companion.Fanout.{Hub, no_subs, notify}
use rover_mems_ecu.Companion.Headunit.Protocol.{Command, Error, Parsed, ok, err, parse_command}

-- What the relay uses of `encoding/json`; `compact` is `none` where `Compact` returns an error.
pub record Json : Type 0 where
  pub valid : List ℕ → Bool
  pub compact : List ℕ → Option (List ℕ)
  pub unmarshal : List ℕ → Option Command

pub record Store : Type 0 where
  pub catalog : Option (List ℕ)
  pub catalog_subs : Hub (List ℕ)
  pub cmd_subs : Hub (List ℕ)

abbrev pub new_store : Store
new_store = record { catalog = none; catalog_subs = no_subs; cmd_subs = no_subs }

pub data RelayError : Type 0 where
  not_object not_compact : RelayError
  bad_command : Error → RelayError

-- The white space of a valid document.
unfoldable pub is_space : ℕ → Bool
is_space b = b == b' ' || (b == 9 || (b == 10 || b == 13))

-- `bytes.TrimSpace` at the front; what it cuts at the end leaves the first byte.
unfoldable pub skip_space : List ℕ → List ℕ
unfolding is_space
skip_space [] = []
skip_space (b ∷ bs) = if is_space b then skip_space bs else b ∷ bs

unfoldable pub is_json_object : Json → List ℕ → Bool
unfolding skip_space
is_json_object j raw = j.valid raw && elim (skip_space raw) [ [] ↦ false | b ∷ _ ↦ b == b'{' ]

-- `fanout` to a copied list; the channels hold 4.
abbrev pub fanout : List ℕ → Hub (List ℕ) → Hub (List ℕ)
fanout msg subs = notify 4 msg subs

-- What a call of `SetCatalog` or `HandleCommand` still has to do behind its checks. Between two of these
-- steps the mutex is free, and other goroutines may call the store. A fanout, with the copy of the list
-- of subscribers in front of it, is one step.
pub data Task : Type 0 where
  store_catalog tell_catalog : List ℕ → Task
  -- The command, and whether it asks for the catalog.
  tell_command : List ℕ → Bool → Task
  load_catalog finished : Task

-- `if catalog, ok := s.Catalog(); ok`.
abbrev pub loaded : Option (List ℕ) → Task
loaded none = finished
loaded (some c) = tell_catalog c

unfoldable pub advance : Task → Store → Task × Store
advance (store_catalog c) s = (tell_catalog c, record s { catalog = some c })
advance (tell_catalog c) s = (finished, record s { catalog_subs = fanout c s.catalog_subs })
advance (tell_command c true) s = (load_catalog, record s { cmd_subs = fanout c s.cmd_subs })
advance (tell_command c false) s = (finished, record s { cmd_subs = fanout c s.cmd_subs })
advance load_catalog s = (loaded s.catalog, s)
advance finished s = (finished, s)

pub data Checked : Type 0 where
  accepted : Task → Checked
  refused : RelayError → Checked

-- The checks of `SetCatalog`.
unfoldable pub check_catalog : Json → List ℕ → Checked
check_catalog j raw =
    if is_json_object j raw
    then elim (j.compact raw) [ none ↦ refused not_compact | some c ↦ accepted (store_catalog c) ]
    else refused not_object

-- The checks of `HandleCommand`.
unfoldable pub check_request : Json → List ℕ → Checked
check_request j raw = elim (parse_command j.unmarshal raw) [
  | err e ↦ refused (bad_command e)
  | ok cmd ↦ elim (j.compact raw) [
    | none ↦ refused not_compact
    | some c ↦ accepted (tell_command c (str_eq cmd.kind "request_catalog"))
  ]
]

-- A call whose steps no other call comes between; there are three at most.
unfoldable pub alone : Checked → Store → Store × Option RelayError
alone (refused e) s = (s, some e)
alone (accepted t) s =
    let (t', s') = advance t s in
    let (t'', s'') = advance t' s' in let (t''', s''') = advance t'' s'' in (s''', none)

unfoldable pub set_catalog : Json → List ℕ → Store → Store × Option RelayError
set_catalog j raw s = alone (check_catalog j raw) s

unfoldable pub handle_command : Json → List ℕ → Store → Store × Option RelayError
handle_command j raw s = alone (check_request j raw) s
