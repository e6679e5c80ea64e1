-- ===== src/Cruise.antt =====
-- The adaptive cruise control of src/adaptive_cruise.h and src/adaptive_cruise.cc, which presses the
-- SET and RES buttons of a car with a fixed-speed cruise: its types, constants and small helpers.
pub mod Session
pub mod Lead
pub mod Buttons
pub mod Update
pub mod Gates
pub mod Ceiling
pub mod Over
pub mod Pulses
mod Tests
use supercombo_k.Base.{zero, Bool, true, false, ◌&&◌, if◌then◌else◌}
use supercombo_k.Base.Int.{ℤ, pos, negsuc}
use supercombo_k.Base.Floats.{Floats}

pub record AdaptiveCruiseConfig (F : Type 0) : Type 0 where
  pub enabled : Bool
  pub lead_probability_threshold : F
  pub standstill_gap_m : F
  pub following_time_s : F
  pub gap_correction_gain : F
  pub max_slowdown_correction_mps : F
  pub max_speedup_correction_mps : F
  pub deceleration_rate_kph_per_s : F
  pub lead_hold_s : F
  pub lead_restore_delay_s : F
  pub command_interval_s : F
  pub button_pulse_frames : ℤ

pub record AdaptiveCruiseInput (F D : Type 0) : Type 0 where
  pub now_s : D
  pub enabled : Bool
  pub controls_ready : Bool
  pub cruise_active : Bool
  pub brake_pressed : Bool
  pub gas_pressed : Bool
  pub driver_accelerator_override : Bool
  pub speed_unit_mph : Bool
  pub driver_button : ℤ
  pub driver_main_button : ℤ
  pub ego_speed_kph : F
  pub cluster_speed_kph : F
  pub driver_set_speed_kph : F
  pub vision_lead_updated : Bool
  pub vision_lead_valid : Bool
  pub vision_lead_probability : F
  pub vision_lead_distance_m : F
  pub vision_lead_relative_speed_mps : F

pub record AdaptiveCruiseOutput (F : Type 0) : Type 0 where
  pub session_valid : Bool
  pub active : Bool
  pub lead_valid : Bool
  pub maximum_speed_kph : F
  pub commanded_speed_kph : F
  pub target_speed_kph : F
  pub display_scale : F
  pub command_button : ℤ

-- The members of the class.
pub record AdaptiveCruiseController (F D : Type 0) : Type 0 where
  pub config : AdaptiveCruiseConfig F
  pub session_valid : Bool
  pub previous_driver_main_button : ℤ
  pub maximum_speed_kph : F
  pub commanded_speed_kph : F
  pub filtered_lead_distance_m : F
  pub filtered_lead_relative_speed_mps : F
  pub last_valid_lead_s : D
  pub last_command_s : D
  pub last_accelerator_override_s : D
  pub last_update_s : D
  pub cruise_inactive_since_s : D
  pub driver_adjust_until_s : D
  pub reanchor_pending : Bool
  pub mismatch_since_s : D
  pub ineffective_until_s : D
  pub cluster_ref_kph : F
  pub cluster_ref_s : D
  pub last_auto_command_was_set : Bool
  pub display_scale : F
  pub display_scale_valid : Bool
  pub command_button : ℤ
  pub command_frames_remaining : ℤ

-- What one update derives from its input.
pub record Tick (F : Type 0) : Type 0 where
  pub accelerator_override : Bool
  pub driver_main_pressed : Bool
  pub minimum_kph : F
  pub step_kph : F
  pub speed_valid : Bool
  pub cluster_valid : Bool
  pub driver_adjusting : Bool
  pub cluster_steady : Bool

abbrev pub cruise_button_resume : ℤ
cruise_button_resume = pos 1

abbrev pub cruise_button_set : ℤ
cruise_button_set = pos 2

-- button != 0.
abbrev pub is_button : ℤ → Bool
is_button (pos zero) = false
is_button _ = true

module _ {D : Type 0} (d : Floats D) where
  -- The constants of type `double`; a time of -1 s is none.
  abbrev pub never : D
  never = d.lit (negsuc 0) 0

  abbrev pub zero_s : D
  zero_s = d.lit (pos 0) 0

  abbrev pub accelerator_release_delay_s : D
  accelerator_release_delay_s = d.lit (pos 5) 1

  abbrev pub cruise_inactive_teardown_s : D
  cruise_inactive_teardown_s = d.lit (pos 3) 1

  abbrev pub driver_settle_s : D
  driver_settle_s = d.lit (pos 20) 1

  abbrev pub mismatch_hold_s : D
  mismatch_hold_s = d.lit (pos 50) 1

  abbrev pub ineffective_backoff_s : D
  ineffective_backoff_s = d.lit (pos 300) 1

  abbrev pub cluster_steady_hold_s : D
  cluster_steady_hold_s = d.lit (pos 5) 1

  abbrev pub display_scale_tau_s : D
  display_scale_tau_s = d.lit (pos 50) 1

module _ {F : Type 0} (f : Floats F) where
  abbrev pub mismatch_kph : F
  mismatch_kph = f.lit (pos 50) 1

  abbrev pub cluster_steady_kph : F
  cluster_steady_kph = f.lit (pos 5) 1

  abbrev pub display_scale_min : F
  display_scale_min = f.lit (pos 97) 2

  abbrev pub display_scale_max : F
  display_scale_max = f.lit (pos 125) 2

  abbrev pub display_scale_learn_min_kph : F
  display_scale_learn_min_kph = f.lit (pos 300) 1

  abbrev pub mph_to_kph : F
  mph_to_kph = f.lit (pos 1609344) 6

  unfoldable pub valid_set_speed : F → Bool
  valid_set_speed speed_kph =
      f.is_finite speed_kph
      && (f.lt (f.lit (pos 0) 0) speed_kph && f.lt speed_kph (f.lit (pos 300) 0))

  unfoldable pub minimum_speed_kph : Bool → F
  minimum_speed_kph speed_unit_mph =
      if speed_unit_mph then f.mul (f.lit (pos 200) 1) mph_to_kph else f.lit (pos 300) 1

  unfoldable pub display_step_kph : Bool → F
  display_step_kph speed_unit_mph =
      f.mul (f.lit (pos 20) 1) (if speed_unit_mph then mph_to_kph else f.lit (pos 10) 1)
