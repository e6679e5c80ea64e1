-- ===== src/Control/Actuate.antt =====
-- From the torque that is wanted to the torque that is sent: the rest of `LateralController::update`
-- of src/lateral_controller.cc. What the torque controller computes is handed over.
pub mod Bounds
pub mod Curvature
mod Tests
use supercombo_k.Base.{
  ℕ, ◌+◌, Bool, true, false, not, ◌&&◌, ◌||◌, ltb, if◌then◌else◌, List, [], ◌∷◌,
}
use supercombo_k.Base.Int.{ℤ, pos, ◌-ℤ◌, max_ℤ}
use supercombo_k.Base.Floats.{Floats, clamp_float, max_float}
use supercombo_k.Hyundai.Torque.{HyundaiSteeringLimits, apply_hyundai_steer_torque_limits}
use supercombo_k.Control.Inputs.{
  SteeringParams, DrivingParams, VehicleCanState, LateralTarget, LateralPath,
}
use supercombo_k.Control.Engage.{
  LateralController, Engagement, Observed, same_ℤ, seconds, update_engagement,
}
use supercombo_k.Control.Steer.{
  update_cut_steer_state, update_steering_pressed, update_driver_steering_guard,
}

-- `hyundai_limits` of src/hyundai_can.cc.
pub hyundai_limits : {F : Type 0} → SteeringParams F → HyundaiSteeringLimits
hyundai_limits p = record {
  steer_max = p.steer_max;
  steer_delta_up = p.steer_delta_up;
  steer_delta_down = p.steer_delta_down;
  steer_driver_allowance = p.steer_driver_allowance;
  steer_driver_multiplier = p.steer_driver_multiplier;
  steer_driver_factor = p.steer_driver_factor;
}

-- `clip_curvature` with its limits of jerk, of acceleration and of the curvature itself.
module _ {F : Type 0} (f : Floats F) where
  abbrev pub curvature_rate_window_s : F
  curvature_rate_window_s = f.lit (pos 1) 2

  abbrev pub max_curvature : F
  max_curvature = f.lit (pos 2) 1

  abbrev pub min_curvature_speed_mps : F
  min_curvature_speed_mps = f.lit (pos 10) 1

  abbrev pub max_lateral_jerk : F
  max_lateral_jerk = f.lit (pos 50) 1

  abbrev pub max_lateral_accel : F
  max_lateral_accel = f.lit (pos 33) 1

  unfoldable pub clip_curvature : F → F → F → F → F
  clip_curvature speed_mps prev_curvature new_curvature roll_rad =
      let speed = max_float f speed_mps min_curvature_speed_mps in
      let square = f.mul speed speed in
      let window = f.mul (f.div max_lateral_jerk square) curvature_rate_window_s in
      let roll_lat_accel = f.mul roll_rad (f.lit (pos 981) 2) in
      let jerked =
        clamp_float f new_curvature (f.sub prev_curvature window) (f.add prev_curvature window) in
      let accelerated =
        clamp_float f jerked (f.div (f.add (f.neg max_lateral_accel) roll_lat_accel) square)
          (f.div (f.add max_lateral_accel roll_lat_accel) square) in
      if not (f.is_finite speed_mps) || not (f.is_finite new_curvature)
      then prev_curvature
      else clamp_float f accelerated (f.neg max_curvature) max_curvature

-- The torques of one update, and the controller after it.
pub record Actuation (F D : Type 0) : Type 0 where
  pub controller : LateralController F D
  pub desired_torque : ℤ
  pub apply_torque : ℤ

-- The parts of LateralControlResult that the whole update decides.
pub record LateralControlResult (F D : Type 0) : Type 0 where
  pub engagement : Engagement F D
  pub cut_steer_temp : Bool
  pub steering_pressed : Bool
  pub desired_torque : ℤ
  pub apply_torque : ℤ
  pub should_send : Bool
  pub controller : LateralController F D

module _ {F D : Type 0} (f : Floats F) (d : Floats D) where
  pub driver_torque_scale : LateralController F D → F
  driver_torque_scale c =
      if ltb c.driver_steering_torque_above_timer 100
      then clamp_float f
          (f.div (f.of_int (pos c.driver_steering_torque_above_timer)) (f.lit (pos 1000) 1))
          (f.lit (pos 0) 1) (f.lit (pos 10) 1)
      else f.lit (pos 10) 1

  -- The steering unit reports a fault if the wheel stays beyond this angle.
  pub above_fault_angle : LateralController F D → VehicleCanState F D → Bool
  above_fault_angle c v =
      let p = c.steering_params in
      p.avoid_lkas_fault_enabled
      && f.le p.avoid_lkas_fault_max_angle_deg (f.abs v.steering_angle_deg)

  -- The ramp to zero while it does.
  pub angle_scale : Bool → ℕ → SteeringParams F → F
  angle_scale above frames p =
      let ramp_frames = max_ℤ (pos 1) (p.avoid_lkas_fault_max_frames -ℤ pos 20) in
      if above
      then clamp_float f
          (f.sub (f.lit (pos 10) 1) (f.div (f.of_int (pos frames)) (f.of_int ramp_frames)))
          (f.lit (pos 0) 1) (f.lit (pos 10) 1)
      else f.lit (pos 10) 1

  -- Both branches on whether the steering is active, up to the torques.
  pub actuate : Bool → VehicleCanState F D → ℤ → LateralController F D → Actuation F D
  unfolding above_fault_angle angle_scale driver_torque_scale hyundai_limits
  actuate active v raw_torque c =
      if active
      then (let above = above_fault_angle c v in
          let frames = if above then c.fault_angle_frames + 1 else 0 in
          let desired = f.lround (
            f.mul (f.mul (f.of_int raw_torque) (driver_torque_scale c))
              (angle_scale above frames c.steering_params)) in
          record {
            controller = record c { fault_angle_frames = frames };
            desired_torque = desired;
            apply_torque =
                apply_hyundai_steer_torque_limits desired c.last_torque v.driver_torque
                  (hyundai_limits c.steering_params);
          })
      else record {
        controller = record c { fault_angle_frames = 0 };
        desired_torque = pos 0;
        apply_torque = pos 0;
      }

  -- What the next update finds of this one's torque.
  pub keep_torque : Bool → Actuation F D → LateralController F D
  keep_torque active a = record a.controller {
    last_torque = if active then a.apply_torque else pos 0;
    steer_rate_limited = if active then not (same_ℤ a.desired_torque a.apply_torque) else false;
  }

  pub should_send : Bool → Bool → Engagement F D → D → LateralController F D → Bool
  should_send zero_release_when_inactive seeds_ready e now_s c =
      seeds_ready
      && (e.active
          || (zero_release_when_inactive
              && (e.engaged
                  || d.lt (d.sub now_s c.last_disengage_s)
                      (seconds f d c.driving_params.inactive_release_ms))))

  -- `update` from the steering request to its end.
  pub finish_update :
      Bool → Bool → VehicleCanState F D → D → ℤ → Engagement F D → LateralControlResult F D
  unfolding actuate keep_torque should_send
  finish_update zero_release_when_inactive seeds_ready v now_s raw_torque e =
      let (cut, cut_steer_temp) = update_cut_steer_state f e.active v e.controller in
      let (held, steering_pressed) = update_steering_pressed f v.driver_torque cut in
      let a = actuate e.active v raw_torque held in
      record {
        engagement = e;
        cut_steer_temp = cut_steer_temp;
        steering_pressed = steering_pressed;
        desired_torque = a.desired_torque;
        apply_torque = a.apply_torque;
        should_send = should_send zero_release_when_inactive seeds_ready e now_s a.controller;
        controller = update_driver_steering_guard f v (keep_torque e.active a);
      }

  pub update :
      Bool
      → LateralPath F
      → LateralTarget F
      → VehicleCanState F D
      → D
      → ℤ
      → Observed F
      → LateralController F D
      → LateralControlResult F D
  unfolding finish_update
  update zero_release_when_inactive path target v now_s raw_torque o c =
      finish_update zero_release_when_inactive o.seeds_ready v now_s raw_torque
        (update_engagement f d c path target v now_s o)
