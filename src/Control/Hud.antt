-- ===== src/Control/Hud.antt =====
-- The HUD's state from the messages: `hud_apply_panda_state`, `hud_apply_control_state` and
-- `hud_apply_manager_state` of src/overlay_state.cc. A `float` is of the type `F`.
pub mod Services
mod Tests
use supercombo_k.Base.{
  ℕ, zero, suc, ◌+◌, Bool, true, false, not, ◌&&◌, ◌==◌, leb, if◌then◌else◌, min, List, [], ◌∷◌,
  test_bit, Text, text,
}
use supercombo_k.Base.Int.{ℤ, pos}
use supercombo_k.Base.Floats.{Floats}
use supercombo_k.Ipc.Messages.{K230PandaState, K230ControlState, K230ProcessState, K230ManagerState}
use supercombo_k.Control.Alerts.{DepartureAlertType, no_departure, lead_departed, green_light}

pub record OverlayHudState (F : Type 0) : Type 0 where
  pub panda_connected : Bool
  pub panda_healthy : Bool
  pub controller_enabled : Bool
  pub controller_engaged : Bool
  pub controller_active : Bool
  pub lateral_mode_available : Bool
  pub laneless_mode : Bool
  pub vehicle_fresh : Bool
  pub steering_fault : Bool
  pub left_blinker : Bool
  pub right_blinker : Bool
  pub turn_signal_step : ℤ
  pub cruise_active : Bool
  pub brake_hold : Bool
  pub services_healthy : Bool
  pub network_connected : Bool
  pub panda_faults : ℕ
  pub gear : ℤ
  pub wifi_signal_dbm : ℤ
  pub cluster_speed_kph : F
  pub ego_speed_kph : F
  pub cruise_max_speed_kph : F
  pub cruise_command_speed_kph : F
  pub radar_lead_valid : Bool
  pub radar_lead_distance_m : F
  pub radar_lead_relative_speed_mps : F
  pub departure_alert_type : DepartureAlertType
  pub green_light_alert_armed : Bool
  pub engage_alert_message : Text
  pub tpms_valid : Bool
  pub tpms_unit : ℤ
  pub tpms_pressure_fl : F
  pub tpms_pressure_fr : F
  pub tpms_pressure_rl : F
  pub tpms_pressure_rr : F
  pub tpms_warning : Bool
  pub steering_angle_deg : F
  pub normalized_output : F
  pub desired_torque : ℤ
  pub apply_torque : ℤ
  pub driver_torque : ℤ
  pub cpu_percent : F
  pub memory_percent : F
  pub storage_percent : F
  pub cpu_temp_c : F
  pub preview_fps : F
  pub model_fps : F
  pub overlay_fps : F
  pub calibration_available : Bool
  pub calibration_status : ℕ
  pub calibration_valid_blocks : ℤ
  pub calibration_roll_deg : F
  pub calibration_pitch_deg : F
  pub calibration_yaw_deg : F
  pub active_block : Text
  pub network_interface : Text
  pub network_ipv4 : Text

abbrev pub max_processes : ℕ
max_processes = 7

-- n != 0, for a flag of a message.
abbrev pub flag : ℕ → Bool
flag n = not (n == 0)

-- The cast of the wire's number; the other numbers, which the controller does not send, are taken for
-- none.
pub departure_type : ℕ → DepartureAlertType
departure_type n = if n == 1 then lead_departed else if n == 2 then green_light else no_departure

-- The running ones among the first `total` processes.
pub count_running : ℕ → List K230ProcessState → ℕ
count_running zero processes = 0
count_running (suc total) [] = 0
count_running (suc total) (p ∷ processes) =
    let rest = count_running total processes in if flag p.running then suc rest else rest

module _ {F : Type 0} (f : Floats F) where
  pub hud_apply_panda_state : K230PandaState → Bool → OverlayHudState F → OverlayHudState F
  hud_apply_panda_state panda fresh hud = record hud {
    panda_connected = fresh && flag panda.connected;
    panda_healthy = fresh && flag panda.comms_healthy;
    panda_faults = if fresh then panda.faults else 0;
  }

  pub hud_apply_control_state : K230ControlState F → Bool → OverlayHudState F → OverlayHudState F
  unfolding departure_type
  hud_apply_control_state c fresh hud = record hud {
    controller_enabled = fresh && flag c.enabled;
    controller_engaged = fresh && flag c.engaged;
    controller_active = fresh && flag c.active;
    lateral_mode_available = fresh;
    laneless_mode = fresh && test_bit c.hud_flags 0;
    vehicle_fresh = fresh && flag c.vehicle_fresh;
    steering_fault = fresh && flag c.steering_fault;
    left_blinker = fresh && flag c.left_blinker;
    right_blinker = fresh && flag c.right_blinker;
    cruise_active = fresh && flag c.cruise_active;
    brake_hold = fresh && test_bit c.hud_flags 1;
    gear = if fresh then c.gear else pos 0;
    cluster_speed_kph = if fresh then c.cluster_speed_kph else f.lit (pos 0) 0;
    ego_speed_kph = if fresh then c.ego_speed_kph else f.lit (pos 0) 0;
    cruise_max_speed_kph = if fresh then c.cruise_max_speed_kph else f.lit (pos 0) 0;
    cruise_command_speed_kph = if fresh then c.cruise_command_speed_kph else f.lit (pos 0) 0;
    radar_lead_valid = fresh && flag c.radar_lead_valid;
    radar_lead_distance_m = if fresh then c.radar_lead_distance_m else f.lit (pos 0) 0;
    radar_lead_relative_speed_mps =
        if fresh then c.radar_lead_relative_speed_mps else f.lit (pos 0) 0;
    departure_alert_type = if fresh then departure_type c.departure_alert_type else no_departure;
    green_light_alert_armed = fresh && flag c.green_light_alert_armed;
    tpms_valid = fresh && flag c.tpms_valid;
    tpms_unit = if fresh then pos c.tpms_unit else pos 0;
    tpms_pressure_fl = if fresh then c.tpms_pressure_fl else f.lit (pos 0) 0;
    tpms_pressure_fr = if fresh then c.tpms_pressure_fr else f.lit (pos 0) 0;
    tpms_pressure_rl = if fresh then c.tpms_pressure_rl else f.lit (pos 0) 0;
    tpms_pressure_rr = if fresh then c.tpms_pressure_rr else f.lit (pos 0) 0;
    tpms_warning = fresh && flag c.tpms_warning;
    steering_angle_deg = if fresh then c.steering_angle_deg else f.lit (pos 0) 0;
    normalized_output = if fresh then c.normalized_output else f.lit (pos 0) 0;
    desired_torque = if fresh then c.desired_torque else pos 0;
    apply_torque = if fresh then c.apply_torque else pos 0;
    driver_torque = if fresh then c.driver_torque else pos 0;
    active_block = if fresh then c.active_block else text "control_stale";
  }

  pub hud_apply_manager_state :
      K230ManagerState → Bool → Bool → OverlayHudState F → OverlayHudState F
  unfolding count_running
  hud_apply_manager_state manager fresh model_ok hud =
      let total = if fresh then min manager.process_count max_processes else 0 in
      let running = count_running total manager.processes in
      record hud { services_healthy = fresh && (leb 3 total && (running == total && model_ok)) }
