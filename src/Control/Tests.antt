-- ===== src/Control/Tests.antt =====
-- Tests of the block reasons, the hold and the alerts at concrete values.
use mathlib.Core.Bool.{true≢false}
use supercombo_k.Base.{ap, ◌≡◌, ◌≢◌, Bool, true, false, [], some, ◌⊎◌, text}
use supercombo_k.Base.Int.{ℤ, pos}
use supercombo_k.Ipc.Messages.{K230ControlState}
use supercombo_k.Control.Block.{
  BlockReason, no_reason, door_open, block_reason_name, block_reason_from_name,
}
use supercombo_k.Control.Block.Names.{
  block_reason_from_name-block_reason_name, block_reason_name-block_reason_from_name,
}
use supercombo_k.Control.Alerts.{
  OverlayAlertEvents, new_events, no_alert, green_light, baseline, update,
}
use supercombo_k.Control.Alerts.Backlog.{waiting, IsNext, update-IsNext}

abbrev is_counted : BlockReason → Bool
is_counted no_reason = false
is_counted _ = true

door_open-known : door_open ≢ no_reason
door_open-known e = true≢false (ap is_counted e)

block_reason_from_name-block_reason_name_example :
    block_reason_from_name (some (block_reason_name door_open)) ≡ door_open
block_reason_from_name-block_reason_name_example =
    block_reason_from_name-block_reason_name door_open door_open-known

block_reason_name-block_reason_from_name_example :
    (block_reason_from_name (some (text "path_invalid")) ≡ no_reason)
    ⊎ (block_reason_name (block_reason_from_name (some (text "path_invalid")))
        ≡ text "path_invalid")
block_reason_name-block_reason_from_name_example =
    block_reason_name-block_reason_from_name (text "path_invalid")

-- One refusal and one departure happened.
abbrev control : K230ControlState ℤ
control = record {
  timestamp_ns = 0;
  enabled = 0;
  engaged = 0;
  active = 0;
  should_send = 0;
  path_usable = 0;
  seeds_ready = 0;
  vehicle_fresh = 0;
  steering_fault = 0;
  left_blinker = 0;
  right_blinker = 0;
  cruise_active = 0;
  gear = pos 0;
  cluster_speed_kph = pos 0;
  cruise_max_speed_kph = pos 0;
  cruise_command_speed_kph = pos 0;
  steering_angle_deg = pos 0;
  desired_curvature = pos 0;
  actual_curvature = pos 0;
  normalized_output = pos 0;
  desired_torque = pos 0;
  apply_torque = pos 0;
  driver_torque = pos 0;
  desire = 0;
  active_block = [];
  radar_lead_valid = 0;
  radar_lead_distance_m = pos 0;
  radar_lead_relative_speed_mps = pos 0;
  departure_alert_type = 0;
  departure_alert_event_id = 2;
  green_light_alert_armed = 0;
  tpms_valid = 0;
  tpms_unit = 0;
  tpms_pressure_fl = pos 0;
  tpms_pressure_fr = pos 0;
  tpms_pressure_rl = pos 0;
  tpms_pressure_rr = pos 0;
  tpms_warning = 0;
  hud_flags = 0;
  engage_event_id = 0;
  disengage_event_id = 0;
  engage_reject_event_id = 4;
  engage_reject_block = [];
  ego_speed_kph = pos 0;
}

abbrev events : OverlayAlertEvents
events = record new_events { initialized = true; last_reject = 3 }

update-IsNext_example :
    let (events', decision) = update events control green_light in
    (((baseline events control).1 ≡ true)
      × (decision ≡ record { alert = no_alert; event_id = 0 })
      × (waiting control green_light events' ≡ []))
    ⊎ (((baseline events control).1 ≡ false) × IsNext control green_light events events' decision)
update-IsNext_example = update-IsNext control green_light events
