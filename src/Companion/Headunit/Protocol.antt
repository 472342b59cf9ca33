-- ===== src/Companion/Headunit/Protocol.antt =====
-- internal/headunit/protocol.go: the phone's commands and the frames of the catalog. JSON decoding
-- (`encoding/json` into the struct) is the argument `unmarshal`.
pub mod Frames
pub mod Commands
use rover_mems_ecu.Base.{
  ℕ, zero, suc, ◌+◌, ◌-◌, ◌*◌, ◌/◌, ◌%◌, String, str_eq, Bool, true, false, ◌||◌, List, [], ◌∷◌,
  ◌++◌, Option, none, some, length, take, drop, ltb, ◌==◌, if◌then◌else◌,
}

abbrev pub catalog_header_bytes : ℕ
catalog_header_bytes = 4

abbrev pub max_fragment_payload : ℕ
max_fragment_payload = 180

pub record Command : Type 0 where
  pub kind : String
  pub view_id : String
  pub visible : Option Bool
  pub setting_id : String
  pub value : List ℕ
  pub key : String

-- The errors of `ParseCommand`, with the command type that they name.
pub data Error : Type 0 where
  bad_json : Error
  missing_view_id missing_visible missing_setting_id missing_value unknown_key unknown_type :
      String → Error

pub data Parsed : Type 0 where
  ok : Command → Parsed
  err : Error → Parsed

-- `NavKeys[k]`.
unfoldable pub is_nav_key : String → Bool
is_nav_key k =
    str_eq k "next"
    || (str_eq k "previous"
        || (str_eq k "up"
            || (str_eq k "down"
                || (str_eq k "left" || (str_eq k "right" || (str_eq k "ok" || str_eq k "back"))))))

-- The cases of the `switch`.
pub check_view_visibility : Command → Parsed
check_view_visibility c =
    if str_eq c.view_id ""
    then err (missing_view_id c.kind)
    else elim c.visible [ none ↦ err (missing_visible c.kind) | some _ ↦ ok c ]

pub check_setting_value : Command → Parsed
check_setting_value c =
    if str_eq c.setting_id ""
    then err (missing_setting_id c.kind)
    else (if length c.value == 0 then err (missing_value c.kind) else ok c)

unfoldable pub check_command : Command → Parsed
unfolding check_view_visibility check_setting_value
check_command c =
    if str_eq c.kind "set_current_view"
    then (if str_eq c.view_id "" then err (missing_view_id c.kind) else ok c)
    else (if str_eq c.kind "set_view_visibility"
        then check_view_visibility c
        else (if str_eq c.kind "set_setting_value"
            then check_setting_value c
            else (if str_eq c.kind "request_catalog"
                then ok c
                else (if str_eq c.kind "nav_key"
                    then (if is_nav_key c.key then ok c else err (unknown_key c.kind))
                    else err (unknown_type c.kind)))))

-- `ParseCommand`.
unfoldable pub parse_command : (List ℕ → Option Command) → List ℕ → Parsed
parse_command unmarshal payload = elim (unmarshal payload) [
  | none ↦ err bad_json
  | some c ↦ check_command c
]

-- `binary.BigEndian.PutUint16(b, uint16(n))`.
abbrev pub put_uint16 : ℕ → List ℕ → List ℕ
put_uint16 n rest = (n % 65536 / 256) ∷ (n % 65536 % 256) ∷ rest

-- `count`, with at least one frame.
pub frame_count : ℕ → ℕ → ℕ
frame_count len max_payload =
    let count = (len + max_payload - 1) / max_payload in if count == 0 then 1 else count

-- The loop body for chunk `i`: `catalog[start:end]` where `start` is inside, and the header.
pub build_frame : List ℕ → ℕ → ℕ → ℕ → List ℕ
build_frame catalog max_payload count i =
    let start = i * max_payload in
    let end =
      if ltb (length catalog) (start + max_payload) then length catalog else start + max_payload in
    let payload =
      if ltb start (length catalog) then take (end - start) (drop start catalog) else [] in
    put_uint16 i (put_uint16 count payload)

-- `for i := …; i < count; i++`, by the rounds that are left.
pub build_frames_from : List ℕ → ℕ → ℕ → ℕ → ℕ → List (List ℕ)
build_frames_from catalog max_payload count zero i = []
build_frames_from catalog max_payload count (suc n) i =
    build_frame catalog max_payload count i ∷ build_frames_from catalog max_payload count n (i + 1)

-- `BuildFrames`: `none` is the panic on a payload size that is not positive.
pub build_frames : List ℕ → ℕ → Option (List (List ℕ))
unfolding frame_count build_frames_from
build_frames catalog max_payload =
    let count = frame_count (length catalog) max_payload in
    if max_payload == 0 then none else some (build_frames_from catalog max_payload count count 0)
