-- ===== src/Ipc/Messages.antt =====
-- The state messages of src/ipc_messages.h. A C `float` is of the type `F`; a character array is its
-- text.
use supercombo_k.Base.{ℕ, ◌-◌, Bool, ◌&&◌, not, leb, ◌==◌, List, Text}
use supercombo_k.Base.Int.{ℤ}

pub record K230PandaState : Type 0 where
  pub timestamp_ns : ℕ
  pub connected : ℕ
  pub comms_healthy : ℕ
  pub tx_enabled : ℕ
  pub controls_allowed : ℕ
  pub ignition_line : ℕ
  pub ignition_can : ℕ
  pub safety_mode : ℕ
  pub safety_param : ℕ
  pub panda_type : ℕ
  pub can_rx_errs : ℕ
  pub can_send_errs : ℕ
  pub can_fwd_errs : ℕ
  pub blocked_msg_cnt : ℕ
  pub heartbeat_lost : ℕ
  pub usb_tx_timeouts : ℕ
  pub usb_tx_retries : ℕ
  pub malformed_rx_batches : ℕ
  pub faults : ℕ
  pub fault_status : ℕ
  pub voltage : ℕ
  pub current : ℕ

pub record K230ControlState (F : Type 0) : Type 0 where
  pub timestamp_ns : ℕ
  pub enabled : ℕ
  pub engaged : ℕ
  pub active : ℕ
  pub should_send : ℕ
  pub path_usable : ℕ
  pub seeds_ready : ℕ
  pub vehicle_fresh : ℕ
  pub steering_fault : ℕ
  pub left_blinker : ℕ
  pub right_blinker : ℕ
  pub cruise_active : ℕ
  pub gear : ℤ
  pub cluster_speed_kph : F
  pub cruise_max_speed_kph : F
  pub cruise_command_speed_kph : F
  pub steering_angle_deg : F
  pub desired_curvature : F
  pub actual_curvature : F
  pub normalized_output : F
  pub desired_torque : ℤ
  pub apply_torque : ℤ
  pub driver_torque : ℤ
  pub desire : ℕ
  pub active_block : Text
  pub radar_lead_valid : ℕ
  pub radar_lead_distance_m : F
  pub radar_lead_relative_speed_mps : F
  pub departure_alert_type : ℕ
  pub departure_alert_event_id : ℕ
  pub green_light_alert_armed : ℕ
  pub tpms_valid : ℕ
  pub tpms_unit : ℕ
  pub tpms_pressure_fl : F
  pub tpms_pressure_fr : F
  pub tpms_pressure_rl : F
  pub tpms_pressure_rr : F
  pub tpms_warning : ℕ
  pub hud_flags : ℕ
  pub engage_event_id : ℕ
  pub disengage_event_id : ℕ
  pub engage_reject_event_id : ℕ
  pub engage_reject_block : Text
  pub ego_speed_kph : F

pub record K230ProcessState : Type 0 where
  pub name : Text
  pub running : ℕ

pub record K230ManagerState : Type 0 where
  pub timestamp_ns : ℕ
  pub process_count : ℕ
  pub reserved : ℕ
  pub processes : List K230ProcessState

-- `timestamp_fresh_ns` of src/utils_time.h.
unfoldable pub timestamp_fresh_ns : ℕ → ℕ → ℕ → Bool
timestamp_fresh_ns timestamp_ns now_ns max_age_ns =
    not (timestamp_ns == 0) && (leb timestamp_ns now_ns && leb (now_ns - timestamp_ns) max_age_ns)
