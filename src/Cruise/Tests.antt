-- ===== src/Cruise/Tests.antt =====
-- A car in a session at 80 km/h that comes up to a slower one, in fixed-point numbers.
use supercombo_k.Base.{◌≡◌, refl, ap, true, false, [], ◌∷◌, arith, inl}
use supercombo_k.Base.Int.{ℤ, pos, negsuc, ◌+ℤ◌, ◌-ℤ◌, ◌*ℤ◌, neg_ℤ}
use supercombo_k.Base.Floats.{clamp_float}
use supercombo_k.Control.Engage.Scene.{fixed, same_casts, fixed-IsOrdered}
use supercombo_k.Cruise.{
  AdaptiveCruiseConfig, AdaptiveCruiseInput, AdaptiveCruiseController, is_button, minimum_speed_kph,
  display_step_kph, valid_set_speed,
}
use supercombo_k.Cruise.Session.{
  begin_session, begin_session_if_ready, note_inactive, cruise_off_settled, end_session,
  teardown_session, track_driver_adjustment, follow_cluster, anchor, reanchor_after_driver,
  correct_estimate, resolve_command_mismatch,
}
use supercombo_k.Cruise.Lead.{
  valid_vision_lead, update_display_scale, learn_scale, update_vision_lead, filter_lead,
  following_speed, is_lead_valid, target_speed,
}
use supercombo_k.Cruise.Buttons.{
  accelerator_released, command_allowed, wants_set, wants_resume, button_interval_s, interval_ready,
  choose_button, begin_pulse, pace_buttons,
}
use supercombo_k.Cruise.Update.{elapsed_s, first_tick, note_override, follow_session, update, run}
use supercombo_k.Cruise.Gates.{MayPress, update-MayPress}
use supercombo_k.Cruise.Ceiling.{IsScale, IsUnder, run-IsUnder}
use supercombo_k.Cruise.Over.{is_ended, IsOver, update-IsOver}
use supercombo_k.Cruise.Pulses.{IsPulse, IsButton, IsTimed, update-IsPulse}

abbrev config : AdaptiveCruiseConfig ℤ
config = record {
  enabled = true;
  lead_probability_threshold = pos 500;
  standstill_gap_m = pos 5000;
  following_time_s = pos 1800;
  gap_correction_gain = pos 250;
  max_slowdown_correction_mps = pos 4000;
  max_speedup_correction_mps = pos 2500;
  deceleration_rate_kph_per_s = pos 1500;
  lead_hold_s = pos 600;
  lead_restore_delay_s = pos 2000;
  command_interval_s = pos 1000;
  button_pulse_frames = pos 5;
}

abbrev cruising : AdaptiveCruiseController ℤ ℤ
cruising = record {
  config = config;
  session_valid = true;
  previous_driver_main_button = pos 0;
  maximum_speed_kph = pos 80000;
  commanded_speed_kph = pos 80000;
  filtered_lead_distance_m = pos 0;
  filtered_lead_relative_speed_mps = pos 0;
  last_valid_lead_s = negsuc 999;
  last_command_s = pos 1000;
  last_accelerator_override_s = negsuc 999;
  last_update_s = pos 9900;
  cruise_inactive_since_s = negsuc 999;
  driver_adjust_until_s = negsuc 999;
  reanchor_pending = false;
  mismatch_since_s = negsuc 999;
  ineffective_until_s = negsuc 999;
  cluster_ref_kph = pos 80000;
  cluster_ref_s = pos 1000;
  last_auto_command_was_set = false;
  display_scale = pos 1066;
  display_scale_valid = true;
  command_button = pos 0;
  command_frames_remaining = pos 0;
}

abbrev slower_lead : AdaptiveCruiseInput ℤ ℤ
slower_lead = record {
  now_s = pos 10000;
  enabled = true;
  controls_ready = true;
  cruise_active = true;
  brake_pressed = false;
  gas_pressed = false;
  driver_accelerator_override = false;
  speed_unit_mph = false;
  driver_button = pos 0;
  driver_main_button = pos 0;
  ego_speed_kph = pos 75000;
  cluster_speed_kph = pos 80000;
  driver_set_speed_kph = pos 80000;
  vision_lead_updated = true;
  vision_lead_valid = true;
  vision_lead_probability = pos 900;
  vision_lead_distance_m = pos 30000;
  vision_lead_relative_speed_mps = negsuc 2999;
}

sets : (update fixed fixed same_casts slower_lead cruising).1.command_button ≡ pos 2
unfolding begin_session begin_session_if_ready note_inactive cruise_off_settled end_session
    teardown_session track_driver_adjustment follow_cluster anchor reanchor_after_driver
    correct_estimate resolve_command_mismatch valid_vision_lead update_display_scale learn_scale
    update_vision_lead filter_lead following_speed is_lead_valid target_speed accelerator_released
    command_allowed wants_set wants_resume button_interval_s interval_ready choose_button
    begin_pulse pace_buttons elapsed_s first_tick note_override follow_session update clamp_float
    minimum_speed_kph display_step_kph valid_set_speed ◌+ℤ◌ ◌-ℤ◌ ◌*ℤ◌ neg_ℤ
sets = refl

update-MayPress_example :
    MayPress fixed fixed same_casts slower_lead cruising
      (update fixed fixed same_casts slower_lead cruising).0
update-MayPress_example =
    update-MayPress fixed fixed same_casts slower_lead cruising (ap is_button sets)

fixed-IsScale : IsScale fixed fixed same_casts
unfolding minimum_speed_kph display_step_kph ◌+ℤ◌ ◌-ℤ◌ ◌*ℤ◌ neg_ℤ
fixed-IsScale = record {
  minimum_refl = elim [ true ↦ refl | false ↦ refl ];
  step_finite = elim [ true ↦ refl | false ↦ refl ];
  tenth_finite = refl;
  tenth_nonneg = refl;
  step_nonneg = elim [ true ↦ refl | false ↦ refl ];
}

run-IsUnder_example :
    IsUnder fixed fixed same_casts
      (run fixed fixed same_casts (slower_lead ∷ slower_lead ∷ []) cruising)
run-IsUnder_example =
    run-IsUnder fixed fixed same_casts fixed-IsOrdered fixed-IsScale
      (slower_lead ∷ slower_lead ∷ []) cruising refl

abbrev switched_off : AdaptiveCruiseInput ℤ ℤ
switched_off = record slower_lead { enabled = false }

ends : is_ended fixed fixed same_casts switched_off cruising ≡ true
unfolding is_ended
ends = refl

update-IsOver_example :
    let (s', out) = update fixed fixed same_casts switched_off cruising in
    IsOver fixed fixed same_casts s'
    × (out.active ≡ false)
    × (out.lead_valid ≡ false)
    × (out.command_button ≡ pos 0)
    × (s'.command_frames_remaining ≡ pos 0)
update-IsOver_example = update-IsOver fixed fixed same_casts switched_off cruising ends

cruising-IsPulse : IsPulse fixed fixed same_casts cruising
unfolding ◌-ℤ◌
cruising-IsPulse = record {
  button_known = inl refl;
  one_frame = omega arith;
  frames_nonneg = omega arith;
  frames_le = omega arith;
}

update-IsPulse_example :
    let (s', out) = update fixed fixed same_casts slower_lead cruising in
    let (followed, tick) = follow_session fixed fixed same_casts slower_lead cruising in
    IsPulse fixed fixed same_casts s'
    × IsButton fixed fixed same_casts out.command_button
    × (is_button out.command_button ≡ true
        → IsTimed fixed fixed same_casts slower_lead tick followed s' out.command_button)
update-IsPulse_example = update-IsPulse fixed fixed same_casts slower_lead cruising cruising-IsPulse
