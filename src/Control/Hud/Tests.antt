-- ===== src/Control/Hud/Tests.antt =====
-- Four processes that run.
use supercombo_k.Base.{◌≤◌, ◌≡◌, refl, true, false, [], ◌∷◌, All, take, min, text}
use supercombo_k.Base.Int.{ℤ, pos}
use supercombo_k.Ipc.Messages.{K230ProcessState, K230ManagerState}
use supercombo_k.Control.Alerts.{no_departure}
use supercombo_k.Control.Engage.Scene.{fixed}
use supercombo_k.Control.Hud.{
  OverlayHudState, max_processes, count_running, hud_apply_manager_state,
}
use supercombo_k.Control.Hud.Services.{IsRunning, services_healthy-IsRunning}

abbrev dark : OverlayHudState ℤ
dark = record {
  panda_connected = false;
  panda_healthy = false;
  controller_enabled = false;
  controller_engaged = false;
  controller_active = false;
  lateral_mode_available = false;
  laneless_mode = false;
  vehicle_fresh = false;
  steering_fault = false;
  left_blinker = false;
  right_blinker = false;
  turn_signal_step = pos 0;
  cruise_active = false;
  brake_hold = false;
  services_healthy = false;
  network_connected = false;
  panda_faults = 0;
  gear = pos 0;
  wifi_signal_dbm = pos 0;
  cluster_speed_kph = pos 0;
  ego_speed_kph = pos 0;
  cruise_max_speed_kph = pos 0;
  cruise_command_speed_kph = pos 0;
  radar_lead_valid = false;
  radar_lead_distance_m = pos 0;
  radar_lead_relative_speed_mps = pos 0;
  departure_alert_type = no_departure;
  green_light_alert_armed = false;
  engage_alert_message = [];
  tpms_valid = false;
  tpms_unit = pos 0;
  tpms_pressure_fl = pos 0;
  tpms_pressure_fr = pos 0;
  tpms_pressure_rl = pos 0;
  tpms_pressure_rr = pos 0;
  tpms_warning = false;
  steering_angle_deg = pos 0;
  normalized_output = pos 0;
  desired_torque = pos 0;
  apply_torque = pos 0;
  driver_torque = pos 0;
  cpu_percent = pos 0;
  memory_percent = pos 0;
  storage_percent = pos 0;
  cpu_temp_c = pos 0;
  preview_fps = pos 0;
  model_fps = pos 0;
  overlay_fps = pos 0;
  calibration_available = false;
  calibration_status = 0;
  calibration_valid_blocks = pos 0;
  calibration_roll_deg = pos 0;
  calibration_pitch_deg = pos 0;
  calibration_yaw_deg = pos 0;
  active_block = [];
  network_interface = [];
  network_ipv4 = [];
}

abbrev process : K230ProcessState
process = record { name = text "modeld"; running = 1 }

abbrev manager : K230ManagerState
manager = record {
  timestamp_ns = 5;
  process_count = 4;
  reserved = 0;
  processes = process ∷ process ∷ process ∷ process ∷ [];
}

is_healthy : (hud_apply_manager_state fixed manager true true dark).services_healthy ≡ true
unfolding hud_apply_manager_state count_running
is_healthy = refl

services_healthy-IsRunning_example :
    (true ≡ true)
    × (true ≡ true)
    × (3 ≤ manager.process_count)
    × All IsRunning (take (min manager.process_count max_processes) manager.processes)
services_healthy-IsRunning_example =
    services_healthy-IsRunning fixed manager true true dark is_healthy
