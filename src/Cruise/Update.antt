-- ===== src/Cruise/Update.antt =====
-- `AdaptiveCruiseController::update`: the steps in order.
use supercombo_k.Base.{false, not, ◌&&◌, ◌||◌, if◌then◌else◌, List, [], ◌∷◌}
use supercombo_k.Base.Int.{pos}
use supercombo_k.Base.Floats.{Floats, Casts, min_float}
use supercombo_k.Cruise.{
  AdaptiveCruiseConfig, AdaptiveCruiseInput, AdaptiveCruiseOutput, AdaptiveCruiseController, Tick,
  is_button, zero_s, minimum_speed_kph, display_step_kph,
}
use supercombo_k.Cruise.Session.{
  teardown_session, track_driver_adjustment, begin_session_if_ready, reanchor_after_driver,
  resolve_command_mismatch,
}
use supercombo_k.Cruise.Lead.{update_display_scale, target_speed}
use supercombo_k.Cruise.Buttons.{pace_buttons}

pub update_config :
    {F D : Type 0}
    → AdaptiveCruiseConfig F
    → AdaptiveCruiseController F D
    → AdaptiveCruiseController F D
update_config config s = record s { config = config }

module _ {F D : Type 0} (f : Floats F) (d : Floats D) (c : Casts F D) where
  unfoldable pub elapsed_s : AdaptiveCruiseInput F D → AdaptiveCruiseController F D → D
  elapsed_s i s =
      if d.lt s.last_update_s (zero_s d) || d.lt i.now_s s.last_update_s
      then zero_s d
      else min_float d (d.lit (pos 1) 1) (d.sub i.now_s s.last_update_s)

  -- The tick as it is filled in before the first step.
  unfoldable pub first_tick : AdaptiveCruiseInput F D → AdaptiveCruiseController F D → Tick F
  first_tick i s = record {
    accelerator_override = i.gas_pressed || i.driver_accelerator_override;
    driver_main_pressed =
        is_button i.driver_main_button && not (is_button s.previous_driver_main_button);
    minimum_kph = minimum_speed_kph f i.speed_unit_mph;
    step_kph = display_step_kph f i.speed_unit_mph;
    speed_valid = f.is_finite i.ego_speed_kph;
    cluster_valid = f.is_finite i.cluster_speed_kph && f.lt (f.lit (pos 0) 0) i.cluster_speed_kph;
    driver_adjusting = false;
    cluster_steady = false;
  }

  unfoldable pub note_override :
      AdaptiveCruiseInput F D → AdaptiveCruiseController F D → AdaptiveCruiseController F D
  note_override i s =
      if i.gas_pressed || i.driver_accelerator_override
      then record s { last_accelerator_override_s = i.now_s }
      else s

  -- The steps that keep the session and the estimate, before a speed is aimed at.
  unfoldable pub follow_session :
      AdaptiveCruiseInput F D → AdaptiveCruiseController F D → AdaptiveCruiseController F D × Tick F
  follow_session i s =
      let scaled =
        update_display_scale f d c i (elapsed_s i s) (record s { last_update_s = i.now_s }) in
      let tick = first_tick i s in
      let torn = teardown_session f d i tick (note_override i scaled) in
      let (tracked, tick') = track_driver_adjustment f d i tick torn in
      let begun = begin_session_if_ready f d i tick' tracked in
      let (anchored, tick'') = reanchor_after_driver f d i tick' begun in
      (resolve_command_mismatch f d i tick'' anchored, tick'')

  unfoldable pub update :
      AdaptiveCruiseInput F D
      → AdaptiveCruiseController F D
      → AdaptiveCruiseController F D × AdaptiveCruiseOutput F
  update i s =
      let (followed, tick) = follow_session i s in
      let (aimed, target, lead_valid) = target_speed f d c i tick followed in
      let active = i.enabled && (aimed.session_valid && i.cruise_active) in
      let (paced, button) = pace_buttons f d c i tick target active aimed in
      (
        record paced { previous_driver_main_button = i.driver_main_button },
        record {
          session_valid = paced.session_valid;
          active = active;
          lead_valid = lead_valid;
          maximum_speed_kph = paced.maximum_speed_kph;
          commanded_speed_kph = paced.commanded_speed_kph;
          target_speed_kph = target;
          display_scale = paced.display_scale;
          command_button = button;
        },
      )

  -- One update after another.
  unfoldable pub run :
      List (AdaptiveCruiseInput F D) → AdaptiveCruiseController F D → AdaptiveCruiseController F D
  run [] s = s
  run (i ∷ rest) s = run rest (update i s).0
