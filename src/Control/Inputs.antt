-- ===== src/Control/Inputs.antt =====
-- What the controller reads: the parameters of src/control_params.h, the vehicle's state of
-- src/vehicle_can.h, and the planner's target and path. `float` is of the type `F`, `double` of `D`.
use supercombo_k.Base.{ℕ, Bool, List, Text}
use supercombo_k.Base.Int.{ℤ}

pub record SteeringParams (F : Type 0) : Type 0 where
  pub enabled : Bool
  pub steer_max : ℤ
  pub steer_delta_up : ℤ
  pub steer_delta_down : ℤ
  pub steer_driver_allowance : ℤ
  pub steer_driver_multiplier : ℤ
  pub steer_driver_factor : ℤ
  pub steering_pressed_threshold : ℤ
  pub torque_lat_accel_factor : F
  pub torque_kp : F
  pub torque_ki : F
  pub torque_friction : F
  pub torque_use_angle : Bool
  pub torque_output_sign : ℤ
  pub steer_ratio : F
  pub tire_stiffness_factor : F
  pub steer_actuator_delay : F
  pub avoid_lkas_fault_enabled : Bool
  pub avoid_lkas_fault_max_angle_deg : F
  pub avoid_lkas_fault_max_frames : ℤ
  pub avoid_lkas_fault_cut_frames : ℤ
  pub angle_offset_deg : F
  pub torque_lat_accel_offset : F
  pub live_bank_compensation : Bool
  pub use_live_vehicle_params : Bool
  pub use_live_torque_params : Bool
  pub mass_kg : F
  pub wheelbase_m : F
  pub center_to_front_ratio : F
  pub steer_ratio_rear : F
  pub path_offset_m : F
  pub min_steer_speed_mps : F

pub record DrivingParams (F : Type 0) : Type 0 where
  pub model_timeout_ms : ℤ
  pub vehicle_state_timeout_ms : ℤ
  pub inactive_release_ms : ℤ
  pub mdps_speed_spoof_kph : F
  pub lane_change_min_speed_kph : F
  pub driver_torque_threshold : ℤ
  pub laneless_mode : Bool

pub record VehicleCanState (F D : Type 0) : Type 0 where
  pub lkas11_seed : List ℕ
  pub clu11_seed : List ℕ
  pub mdps12_seed : List ℕ
  pub has_lkas11_seed : Bool
  pub has_clu11_seed : Bool
  pub has_mdps12_seed : Bool
  pub lkas11_time_s : D
  pub clu11_time_s : D
  pub sas11_time_s : D
  pub esp12_time_s : D
  pub whl_spd11_time_s : D
  pub scc11_time_s : D
  pub mdps12_time_s : D
  pub tcs13_time_s : D
  pub tcs15_time_s : D
  pub e_ems11_time_s : D
  pub elect_gear_time_s : D
  pub cgw1_time_s : D
  pub cgw2_time_s : D
  pub lca11_time_s : D
  pub tpms11_time_s : D
  pub clu_button : ℤ
  pub clu_main_button : ℤ
  pub cluster_speed_raw : F
  pub speed_unit_mph : Bool
  pub clu_alive_count : ℤ
  pub steering_angle_deg : F
  pub steering_rate_deg : F
  pub yaw_rate_rad_s : F
  pub yaw_rate_valid : Bool
  pub lat_accel_mps2 : F
  pub lat_accel_valid : Bool
  pub long_accel_mps2 : F
  pub long_accel_valid : Bool
  pub brake_pressure_bar : F
  pub wheel_speed_fl_kph : F
  pub wheel_speed_fr_kph : F
  pub wheel_speed_rl_kph : F
  pub wheel_speed_rr_kph : F
  pub driver_torque : ℤ
  pub mdps_toi_unavailable : Bool
  pub mdps_hard_fault : Bool
  pub mdps_error_count : ℤ
  pub steering_fault : Bool
  pub gear : ℤ
  pub brake_pressed : Bool
  pub brake_light : Bool
  pub brake_error : Bool
  pub park_brake : Bool
  pub driver_override : ℤ
  pub esp_disabled : Bool
  pub brake_hold : Bool
  pub gas : ℤ
  pub gas_pressed : Bool
  pub driver_door_open : Bool
  pub passenger_door_open : Bool
  pub rear_left_door_open : Bool
  pub rear_right_door_open : Bool
  pub door_open : Bool
  pub seatbelt_unlatched : Bool
  pub left_blinker : Bool
  pub right_blinker : Bool
  pub left_blinker_until_s : D
  pub right_blinker_until_s : D
  pub hazard : Bool
  pub left_blindspot : Bool
  pub right_blindspot : Bool
  pub tpms_unit : ℤ
  pub tpms_pressure_fl : F
  pub tpms_pressure_fr : F
  pub tpms_pressure_rl : F
  pub tpms_pressure_rr : F
  pub tpms_warning : Bool
  pub acc_mode : ℤ
  pub has_scc_cruise_state : Bool
  pub cruise_main : Bool
  pub cruise_active : Bool
  pub cruise_set_speed_raw : F
  pub estimated_cruise_set_speed_kph : F
  pub estimated_cruise_set_speed_valid : Bool
  pub estimated_cruise_active : Bool
  pub radar_lead_valid : Bool
  pub radar_lead_distance_m : F
  pub radar_lead_relative_speed_mps : F

pub record LateralTarget (F : Type 0) : Type 0 where
  pub valid : Bool
  pub capture_timestamp_ns : ℕ
  pub mpc_solution_valid : Bool
  pub laneless_mode : Bool
  pub target_y_m : F
  pub heading_rad : F
  pub curvature : F
  pub output_scale : F
  pub desire : ℤ
  pub psis : List F
  pub curvatures : List F
  pub lane_left_y_m : F
  pub lane_right_y_m : F
  pub lane_width_m : F
  pub lane_left_prob : F
  pub lane_right_prob : F
  pub lane_left_std : F
  pub lane_right_std : F
  pub lane_d_prob : F

pub record LateralPath (F : Type 0) : Type 0 where
  pub point_count : ℤ
  pub reach_m : F
  pub left_valid : Bool
  pub right_valid : Bool
  pub usable_for_steering : Bool
  pub invalid_reason : Text
