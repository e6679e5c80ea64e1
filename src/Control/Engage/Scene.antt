-- ===== src/Control/Engage/Scene.antt =====
-- Concrete inputs for the engagement: a car that stands ready, in fixed-point numbers of thousandths.
use supercombo_k.Base.{arith, ◌≡◌, ◌+◌, ◌-◌, ◌*◌, ◌/◌, ◌^◌, true, false, not, []}
use supercombo_k.Base.Int.{ℤ, pos, negsuc, -ℤ_parts, +ℤ_parts, ◌+ℤ◌, ◌-ℤ◌, ◌*ℤ◌, neg_ℤ, ltb_ℤ}
use supercombo_k.Base.Floats.{Floats, Casts, IsOrdered}
use supercombo_k.Control.Inputs.{
  SteeringParams, DrivingParams, VehicleCanState, LateralTarget, LateralPath,
}
use supercombo_k.Control.Engage.{LateralController, Observed}

abbrev divide : ℤ → ℤ → ℤ
divide (pos a) (pos b) = pos (a * 1000 / b)
divide (negsuc a) (pos b) = neg_ℤ (pos ((a + 1) * 1000 / b))
divide a (negsuc b) = pos 0

abbrev scale : ℤ → ℤ
scale (pos a) = pos (a / 1000)
scale (negsuc a) = neg_ℤ (pos ((a + 1) / 1000))

abbrev magnitude : ℤ → ℤ
magnitude (pos a) = pos a
magnitude (negsuc a) = pos (a + 1)

-- Halves are rounded away from 0.
abbrev nearest_whole : ℤ → ℤ
nearest_whole (pos a) = pos ((a + 500) / 1000)
nearest_whole (negsuc a) = neg_ℤ (pos ((a + 501) / 1000))

abbrev pub fixed : Floats ℤ
fixed = record {
  lit = λ m k. m *ℤ pos (10 ^ (3 - k));
  of_int = λ m. m *ℤ pos 1000;
  add = λ a b. a +ℤ b;
  sub = λ a b. a -ℤ b;
  mul = λ a b. scale (a *ℤ b);
  div = divide;
  abs = magnitude;
  lt = ltb_ℤ;
  le = λ a b. not (ltb_ℤ b a);
  is_finite = λ a. ltb_ℤ (negsuc 999_999_999) a;
  neg = neg_ℤ;
  round = λ a. nearest_whole a *ℤ pos 1000;
  lround = nearest_whole;
  nan = negsuc 999_999_999;
}

-- A float is a double.
abbrev pub same_casts : Casts ℤ ℤ
same_casts = record { widen = λ a. a; narrow = λ a. a }

abbrev steering : SteeringParams ℤ
steering = record {
  enabled = true;
  steer_max = pos 384;
  steer_delta_up = pos 3;
  steer_delta_down = pos 7;
  steer_driver_allowance = pos 0;
  steer_driver_multiplier = pos 0;
  steer_driver_factor = pos 0;
  steering_pressed_threshold = pos 0;
  torque_lat_accel_factor = pos 0;
  torque_kp = pos 0;
  torque_ki = pos 0;
  torque_friction = pos 0;
  torque_use_angle = true;
  torque_output_sign = pos 0;
  steer_ratio = pos 0;
  tire_stiffness_factor = pos 0;
  steer_actuator_delay = pos 0;
  avoid_lkas_fault_enabled = true;
  avoid_lkas_fault_max_angle_deg = pos 0;
  avoid_lkas_fault_max_frames = pos 89;
  avoid_lkas_fault_cut_frames = pos 2;
  angle_offset_deg = pos 0;
  torque_lat_accel_offset = pos 0;
  live_bank_compensation = false;
  use_live_vehicle_params = false;
  use_live_torque_params = false;
  mass_kg = pos 0;
  wheelbase_m = pos 0;
  center_to_front_ratio = pos 0;
  steer_ratio_rear = pos 0;
  path_offset_m = pos 0;
  min_steer_speed_mps = pos 1000;
}

abbrev driving : DrivingParams ℤ
driving = record {
  model_timeout_ms = pos 250;
  vehicle_state_timeout_ms = pos 500;
  inactive_release_ms = pos 3000;
  mdps_speed_spoof_kph = pos 0;
  lane_change_min_speed_kph = pos 0;
  driver_torque_threshold = pos 0;
  laneless_mode = false;
}

abbrev pub ready_car : VehicleCanState ℤ ℤ
ready_car = record {
  lkas11_seed = [];
  clu11_seed = [];
  mdps12_seed = [];
  has_lkas11_seed = false;
  has_clu11_seed = false;
  has_mdps12_seed = false;
  lkas11_time_s = pos 0;
  clu11_time_s = pos 0;
  sas11_time_s = pos 0;
  esp12_time_s = pos 0;
  whl_spd11_time_s = pos 0;
  scc11_time_s = pos 0;
  mdps12_time_s = pos 0;
  tcs13_time_s = pos 0;
  tcs15_time_s = pos 0;
  e_ems11_time_s = pos 0;
  elect_gear_time_s = pos 0;
  cgw1_time_s = pos 0;
  cgw2_time_s = pos 0;
  lca11_time_s = pos 0;
  tpms11_time_s = pos 0;
  clu_button = pos 0;
  clu_main_button = pos 0;
  cluster_speed_raw = pos 0;
  speed_unit_mph = false;
  clu_alive_count = pos 0;
  steering_angle_deg = pos 0;
  steering_rate_deg = pos 0;
  yaw_rate_rad_s = pos 0;
  yaw_rate_valid = true;
  lat_accel_mps2 = pos 0;
  lat_accel_valid = false;
  long_accel_mps2 = pos 0;
  long_accel_valid = false;
  brake_pressure_bar = pos 0;
  wheel_speed_fl_kph = pos 0;
  wheel_speed_fr_kph = pos 0;
  wheel_speed_rl_kph = pos 0;
  wheel_speed_rr_kph = pos 0;
  driver_torque = pos 0;
  mdps_toi_unavailable = false;
  mdps_hard_fault = false;
  mdps_error_count = pos 0;
  steering_fault = false;
  gear = pos 5;
  brake_pressed = false;
  brake_light = false;
  brake_error = false;
  park_brake = false;
  driver_override = pos 0;
  esp_disabled = false;
  brake_hold = false;
  gas = pos 0;
  gas_pressed = false;
  driver_door_open = false;
  passenger_door_open = false;
  rear_left_door_open = false;
  rear_right_door_open = false;
  door_open = false;
  seatbelt_unlatched = false;
  left_blinker = false;
  right_blinker = false;
  left_blinker_until_s = pos 0;
  right_blinker_until_s = pos 0;
  hazard = false;
  left_blindspot = false;
  right_blindspot = false;
  tpms_unit = pos 0;
  tpms_pressure_fl = pos 0;
  tpms_pressure_fr = pos 0;
  tpms_pressure_rl = pos 0;
  tpms_pressure_rr = pos 0;
  tpms_warning = false;
  acc_mode = pos 0;
  has_scc_cruise_state = false;
  cruise_main = false;
  cruise_active = false;
  cruise_set_speed_raw = pos 0;
  estimated_cruise_set_speed_kph = pos 0;
  estimated_cruise_set_speed_valid = false;
  estimated_cruise_active = false;
  radar_lead_valid = false;
  radar_lead_distance_m = pos 0;
  radar_lead_relative_speed_mps = pos 0;
}

abbrev pub plan : LateralTarget ℤ
plan = record {
  valid = true;
  capture_timestamp_ns = 0;
  mpc_solution_valid = true;
  laneless_mode = false;
  target_y_m = pos 0;
  heading_rad = pos 0;
  curvature = pos 0;
  output_scale = pos 0;
  desire = pos 0;
  psis = [];
  curvatures = [];
  lane_left_y_m = pos 0;
  lane_right_y_m = pos 0;
  lane_width_m = pos 0;
  lane_left_prob = pos 0;
  lane_right_prob = pos 0;
  lane_left_std = pos 0;
  lane_right_std = pos 0;
  lane_d_prob = pos 0;
}

abbrev pub road : LateralPath ℤ
road = record {
  point_count = pos 33;
  reach_m = pos 0;
  left_valid = true;
  right_valid = true;
  usable_for_steering = true;
  invalid_reason = [];
}

abbrev pub at_rest : LateralController ℤ ℤ
at_rest = record {
  force_engaged = false;
  steering_params = steering;
  driving_params = driving;
  live_use_vehicle = false;
  live_vehicle_valid = true;
  live_calibrated = false;
  engaged = false;
  path_valid_since_s = negsuc 999;
  path_usable_debounced = false;
  path_seen_invalid = false;
  steer_availability_hold = false;
  last_button = pos 2;
  last_torque = pos 0;
  steer_rate_limited = false;
  last_disengage_s = negsuc 999999;
  angle_limit_counter = 0;
  fault_angle_frames = 0;
  cut_steer_frames = 0;
  cut_steer = false;
  steering_pressed_counter = 0;
  driver_steering_torque_above_timer = 100;
  panda_engage_pending = false;
  panda_engage_pending_s = negsuc 999999;
}

abbrev pub seen : Observed ℤ
seen = record {
  seeds_ready = true;
  vehicle_fresh = true;
  control_speed_kph = pos 50000;
  plan_age_s = pos 0;
  panda_ready = true;
  panda_controls_allowed = true;
}

fixed_sub_le : (x y : ℤ) → not (ltb_ℤ y (pos 0 *ℤ pos 1000)) ≡ true → not (ltb_ℤ x (x -ℤ y)) ≡ true
unfolding ◌*ℤ◌
fixed_sub_le x y h = ground (arith, -ℤ_parts x y)

fixed_add_le : (x y : ℤ) → not (ltb_ℤ y (pos 0 *ℤ pos 1000)) ≡ true → not (ltb_ℤ (x +ℤ y) x) ≡ true
unfolding ◌*ℤ◌
fixed_add_le x y h = ground (arith, +ℤ_parts x y)

-- The laws that the proofs ask of a float hold for the fixed-point numbers.
pub fixed-IsOrdered : IsOrdered fixed
fixed-IsOrdered = record {
  lit_refl = λ m k. ground arith;
  finite_refl = λ x h. ground arith;
  refl_of_le = λ x y h. ground arith;
  le_trans = λ x y z p q. ground arith;
  le_of_lt = λ x y h. ground arith;
  le_of_not_lt = λ x y p q h. ground arith;
  add_le = λ x y p n h. fixed_add_le x y h;
  sub_le = λ x y p n h. fixed_sub_le x y h;
}
