-- ===== src/Control/Steer.antt =====
-- The counters behind the steering request, of src/lateral_controller.cc: the temporary cut and the
-- hand of the driver on the wheel.
pub mod Cut
mod Tests
use supercombo_k.Base.{ℕ, suc, ◌+◌, ◌-◌, ◌%◌, min, Bool, true, false, not, ◌&&◌, ltb, if◌then◌else◌}
use supercombo_k.Base.Int.{ℤ, pos, ltb_ℤ, max_ℤ, neg_ℤ}
use supercombo_k.Base.Floats.{Floats}
use supercombo_k.Control.Inputs.{SteeringParams, DrivingParams, VehicleCanState}
use supercombo_k.Control.Engage.{LateralController, steering_pressed_min_count}

-- std::abs(torque) > threshold.
abbrev above : ℤ → ℤ → Bool
above torque threshold = ltb_ℤ threshold (max_ℤ torque (neg_ℤ torque))

module _ {F D : Type 0} (f : Floats F) where
  -- The length of a cut: at least one frame.
  pub cut_frames : LateralController F D → ℤ
  cut_frames c = max_ℤ (pos 1) c.steering_params.avoid_lkas_fault_cut_frames

  unfoldable pub count_angle :
      Bool → VehicleCanState F D → LateralController F D → LateralController F D
  count_angle active v c =
      let p = c.steering_params in
      record c {
        angle_limit_counter =
            if p.avoid_lkas_fault_enabled
              && (active && f.le p.avoid_lkas_fault_max_angle_deg (f.abs v.steering_angle_deg))
            then c.angle_limit_counter + 1
            else 0;
      }

  -- What starts a cut: the angle for too long, or else errors of the steering unit.
  pub starts_cut : VehicleCanState F D → LateralController F D → Bool
  starts_cut v c =
      let p = c.steering_params in
      if p.avoid_lkas_fault_enabled
      then ltb_ℤ p.avoid_lkas_fault_max_frames (pos c.angle_limit_counter)
      else ltb_ℤ p.avoid_lkas_fault_max_frames v.mdps_error_count

  unfoldable pub switch_cut : VehicleCanState F D → LateralController F D → LateralController F D
  unfolding starts_cut cut_frames
  switch_cut v c =
      if starts_cut v c
      then record c { cut_steer = true }
      else if not (ltb_ℤ (pos c.cut_steer_frames) (cut_frames c))
      then record c { cut_steer_frames = 0; cut_steer = false }
      else c

  unfoldable pub update_cut_steer_state :
      Bool → VehicleCanState F D → LateralController F D → LateralController F D × Bool
  unfolding count_angle switch_cut
  update_cut_steer_state active v c =
      let c' = switch_cut v (count_angle active v c) in
      if c'.cut_steer
      then (record c' { angle_limit_counter = 0; cut_steer_frames = c'.cut_steer_frames + 1 }, true)
      else (c', false)

  -- The counter stays between 0 and twice the count and one.
  unfoldable pub update_steering_pressed : ℤ → LateralController F D → LateralController F D × Bool
  update_steering_pressed driver_torque c =
      let count =
        if above driver_torque c.steering_params.steering_pressed_threshold
        then min (c.steering_pressed_counter + 1)
            (steering_pressed_min_count + steering_pressed_min_count + 1)
        else min (c.steering_pressed_counter - 1)
            (steering_pressed_min_count + steering_pressed_min_count + 1) in
      (record c { steering_pressed_counter = count }, ltb steering_pressed_min_count count)

  unfoldable pub update_driver_steering_guard :
      VehicleCanState F D → LateralController F D → LateralController F D
  update_driver_steering_guard v c = record c {
    driver_steering_torque_above_timer =
        if above v.driver_torque c.driving_params.driver_torque_threshold
        then c.driver_steering_torque_above_timer - 1
        else min 100 (c.driver_steering_torque_above_timer + 5);
  }

-- The HUD's state of the lane keeping in LKAS11.
pub lkas_sys_state : Bool → Bool → Bool → ℤ
lkas_sys_state active left_lane right_lane =
    if left_lane && right_lane
    then (if active then pos 3 else pos 4)
    else if left_lane
    then pos 5
    else if right_lane
    then pos 6
    else pos 1
