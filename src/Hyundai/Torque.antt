-- ===== src/Hyundai/Torque.antt =====
-- `apply_hyundai_steer_torque_limits` of src/hyundai_can.cc, over integers without bounds: the limits
-- are a few hundred and the torques stay below a few thousand, far from the limits of 32 bits.
pub mod Limits
pub mod Release
use supercombo_k.Base.{ℕ, Bool, if◌then◌else◌}
use supercombo_k.Base.Int.{ℤ, pos, ◌+ℤ◌, ◌-ℤ◌, ◌*ℤ◌, neg_ℤ, min_ℤ, max_ℤ, ltb_ℤ}

pub record HyundaiSteeringLimits : Type 0 where
  pub steer_max : ℤ
  pub steer_delta_up : ℤ
  pub steer_delta_down : ℤ
  pub steer_driver_allowance : ℤ
  pub steer_driver_multiplier : ℤ
  pub steer_driver_factor : ℤ

-- The defaults of the struct.
abbrev pub default_limits : HyundaiSteeringLimits
default_limits = record {
  steer_max = pos 384;
  steer_delta_up = pos 3;
  steer_delta_down = pos 7;
  steer_driver_allowance = pos 50;
  steer_driver_multiplier = pos 2;
  steer_driver_factor = pos 1;
}

pub clamp_int : ℤ → ℤ → ℤ → ℤ
clamp_int value lo hi = min_ℤ (max_ℤ value lo) hi

pub driver_max_torque : HyundaiSteeringLimits → ℤ → ℤ
driver_max_torque l driver_torque =
    l.steer_max
    +ℤ (l.steer_driver_allowance +ℤ driver_torque *ℤ l.steer_driver_factor)
      *ℤ l.steer_driver_multiplier

pub driver_min_torque : HyundaiSteeringLimits → ℤ → ℤ
driver_min_torque l driver_torque =
    neg_ℤ l.steer_max
    +ℤ (neg_ℤ l.steer_driver_allowance +ℤ driver_torque *ℤ l.steer_driver_factor)
      *ℤ l.steer_driver_multiplier

pub max_steer_allowed : HyundaiSteeringLimits → ℤ → ℤ
max_steer_allowed l driver_torque =
    max_ℤ (min_ℤ l.steer_max (driver_max_torque l driver_torque)) (pos 0)

pub min_steer_allowed : HyundaiSteeringLimits → ℤ → ℤ
min_steer_allowed l driver_torque =
    min_ℤ (max_ℤ (neg_ℤ l.steer_max) (driver_min_torque l driver_torque)) (pos 0)

-- The second clamp: the change against the last torque.
pub rate_limit : HyundaiSteeringLimits → ℤ → ℤ → ℤ
rate_limit l last_torque apply_torque =
    if ltb_ℤ (pos 0) last_torque
    then clamp_int apply_torque (max_ℤ (last_torque -ℤ l.steer_delta_down) (neg_ℤ l.steer_delta_up))
        (last_torque +ℤ l.steer_delta_up)
    else clamp_int apply_torque (last_torque -ℤ l.steer_delta_up)
        (min_ℤ (last_torque +ℤ l.steer_delta_down) l.steer_delta_up)

pub apply_hyundai_steer_torque_limits : ℤ → ℤ → ℤ → HyundaiSteeringLimits → ℤ
apply_hyundai_steer_torque_limits desired_torque last_torque driver_torque l =
    rate_limit l last_torque (
      clamp_int desired_torque (min_steer_allowed l driver_torque)
        (max_steer_allowed l driver_torque))
