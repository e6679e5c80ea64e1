-- ===== src/Control/Block.antt =====
-- The block reasons of src/control_block.h: one row each for the wire name, the HUD label and the
-- kind.
pub mod Names
use supercombo_k.Base.{
  ℕ, zero, suc, Bool, List, [], ◌∷◌, Option, none, some, Text, text, same_text, get_or,
  if◌then◌else◌,
}

-- `BlockKind`; its None is `unblocked`.
pub data BlockKind : Type 0 where
  unblocked reject hard transient availability : BlockKind

-- `BlockReason`; its None is `no_block`, its Count is `no_reason`.
pub data BlockReason : Type 0 where
  no_block not_engaged controller_disabled seeds_missing : BlockReason
  vehicle_state_stale speed_invalid door_open seatbelt_unlatched : BlockReason
  esp_disabled park_brake brake_error gear_not_drive : BlockReason
  mdps_fault paramsd_invalid panda_not_ready panda_controls_off : BlockReason
  esp_stale yaw_rate_invalid stopped path_invalid : BlockReason
  lateral_plan_invalid lateral_plan_stale control_stale : BlockReason
  no_reason : BlockReason

pub record BlockReasonRow : Type 0 where
  pub reason : BlockReason
  pub name : Text
  pub label : Text
  pub kind : BlockKind

abbrev row : BlockReason → Text → Text → BlockKind → BlockReasonRow
row reason name label kind = record { reason = reason; name = name; label = label; kind = kind }

abbrev pub block_reasons : List BlockReasonRow
block_reasons =
    row no_block (text "") (text "") unblocked
    ∷ row not_engaged (text "not_engaged") (text "STANDBY") reject
    ∷ row controller_disabled (text "controller_disabled") (text "CONTROL OFF") hard
    ∷ row seeds_missing (text "seeds_missing") (text "CAN SEEDS") reject
    ∷ row vehicle_state_stale (text "vehicle_state_stale") (text "CAR STALE") reject
    ∷ row speed_invalid (text "speed_invalid") (text "SPEED INVALID") reject
    ∷ row door_open (text "door_open") (text "DOOR OPEN") hard
    ∷ row seatbelt_unlatched (text "seatbelt_unlatched") (text "SEATBELT") hard
    ∷ row esp_disabled (text "esp_disabled") (text "ESP OFF") hard
    ∷ row park_brake (text "park_brake") (text "PARK BRAKE") hard
    ∷ row brake_error (text "brake_error") (text "BRAKE ERROR") hard
    ∷ row gear_not_drive (text "gear_not_drive") (text "GEAR NOT D") hard
    ∷ row mdps_fault (text "mdps_fault") (text "MDPS FAULT") hard
    ∷ row paramsd_invalid (text "paramsd_invalid") (text "PARAMS INVALID") hard
    ∷ row panda_not_ready (text "panda_not_ready") (text "PANDA NOT READY") transient
    ∷ row panda_controls_off (text "panda_controls_off") (text "PANDA CTRL OFF") transient
    ∷ row esp_stale (text "esp_stale") (text "ESP STALE") reject
    ∷ row yaw_rate_invalid (text "yaw_rate_invalid") (text "YAW INVALID") reject
    ∷ row stopped (text "stopped") (text "STOPPED") availability
    ∷ row path_invalid (text "path_invalid") (text "PATH INVALID") availability
    ∷ row lateral_plan_invalid (text "lateral_plan_invalid") (text "PLAN INVALID") reject
    ∷ row lateral_plan_stale (text "lateral_plan_stale") (text "PLAN STALE") reject
    ∷ row control_stale (text "control_stale") (text "CONTROL STALE") reject
    ∷ []

-- static_cast<size_t>(reason).
abbrev index : BlockReason → ℕ
index no_block = 0
index not_engaged = 1
index controller_disabled = 2
index seeds_missing = 3
index vehicle_state_stale = 4
index speed_invalid = 5
index door_open = 6
index seatbelt_unlatched = 7
index esp_disabled = 8
index park_brake = 9
index brake_error = 10
index gear_not_drive = 11
index mdps_fault = 12
index paramsd_invalid = 13
index panda_not_ready = 14
index panda_controls_off = 15
index esp_stale = 16
index yaw_rate_invalid = 17
index stopped = 18
index path_invalid = 19
index lateral_plan_invalid = 20
index lateral_plan_stale = 21
index control_stale = 22
index no_reason = 23

-- kBlockReasons[reason]; past the end, where the source has no row, an empty one.
unfoldable pub row_of : BlockReason → BlockReasonRow
row_of reason = get_or block_reasons (index reason) (row no_reason [] [] unblocked)

pub block_reason_name : BlockReason → Text
unfolding row_of
block_reason_name reason = (row_of reason).name

pub block_reason_label : BlockReason → Text
unfolding row_of
block_reason_label reason = (row_of reason).label

unfoldable pub block_kind : BlockReason → BlockKind
unfolding row_of
block_kind reason = (row_of reason).kind

search_rows : List BlockReasonRow → Text → BlockReason
search_rows [] name = no_reason
search_rows (r ∷ rows) name = if same_text r.name name then r.reason else search_rows rows name

-- `none` is a null pointer.
pub block_reason_from_name : Option Text → BlockReason
unfolding search_rows
block_reason_from_name none = no_reason
block_reason_from_name (some name) = search_rows block_reasons name
