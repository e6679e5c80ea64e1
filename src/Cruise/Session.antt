-- ===== src/Cruise/Session.antt =====
-- How a session of the adaptive cruise begins, is anchored anew and ends.
use supercombo_k.Base.{Bool, true, false, not, ◌&&◌, ◌||◌, if◌then◌else◌}
use supercombo_k.Base.Int.{pos}
use supercombo_k.Base.Floats.{Floats, max_float, clamp_float}
use supercombo_k.Cruise.{
  AdaptiveCruiseInput, AdaptiveCruiseController, Tick, is_button, never, zero_s,
  cruise_inactive_teardown_s, driver_settle_s, mismatch_hold_s, ineffective_backoff_s,
  cluster_steady_hold_s, mismatch_kph, cluster_steady_kph, valid_set_speed,
}

module _ {F D : Type 0} (f : Floats F) (d : Floats D) where
  unfoldable pub begin_session : F → D → AdaptiveCruiseController F D → AdaptiveCruiseController F D
  begin_session speed_kph now_s s =
      if valid_set_speed f speed_kph
      then record s {
        session_valid = true;
        maximum_speed_kph = speed_kph;
        commanded_speed_kph = speed_kph;
        last_command_s = now_s;
        last_auto_command_was_set = false;
        command_button = pos 0;
        command_frames_remaining = pos 0;
        reanchor_pending = false;
        mismatch_since_s = never d;
        ineffective_until_s = never d;
      }
      else s

  -- The time since when the cruise is off.
  unfoldable pub note_inactive :
      AdaptiveCruiseInput F D → AdaptiveCruiseController F D → AdaptiveCruiseController F D
  note_inactive i s =
      if i.cruise_active
      then record s { cruise_inactive_since_s = never d }
      else if d.lt s.cruise_inactive_since_s (zero_s d)
      then record s { cruise_inactive_since_s = i.now_s }
      else s

  unfoldable pub cruise_off_settled : AdaptiveCruiseInput F D → AdaptiveCruiseController F D → Bool
  cruise_off_settled i s =
      not i.cruise_active
      && (d.le (zero_s d) s.cruise_inactive_since_s
          && d.le (cruise_inactive_teardown_s d) (d.sub i.now_s s.cruise_inactive_since_s))

  -- What the end of a session clears.
  unfoldable pub end_session : AdaptiveCruiseController F D → AdaptiveCruiseController F D
  end_session s = record s {
    session_valid = false;
    maximum_speed_kph = f.lit (pos 0) 0;
    commanded_speed_kph = f.lit (pos 0) 0;
    last_valid_lead_s = never d;
    reanchor_pending = false;
    mismatch_since_s = never d;
    ineffective_until_s = never d;
    driver_adjust_until_s = never d;
    last_auto_command_was_set = false;
  }

  unfoldable pub teardown_session :
      AdaptiveCruiseInput F D → Tick F → AdaptiveCruiseController F D → AdaptiveCruiseController F D
  teardown_session i tick s =
      let noted = note_inactive i s in
      if not i.enabled || (tick.driver_main_pressed || cruise_off_settled i noted)
      then end_session noted
      else noted

  unfoldable pub track_driver_adjustment :
      AdaptiveCruiseInput F D
      → Tick F
      → AdaptiveCruiseController F D
      → AdaptiveCruiseController F D × Tick F
  track_driver_adjustment i tick s =
      let s' =
        if is_button i.driver_button && s.session_valid
        then record s {
          driver_adjust_until_s = d.add i.now_s (driver_settle_s d);
          reanchor_pending = true;
        }
        else s in
      (
        s',
        record tick {
          driver_adjusting =
              d.le (zero_s d) s'.driver_adjust_until_s && d.lt i.now_s s'.driver_adjust_until_s;
        },
      )

  unfoldable pub begin_session_if_ready :
      AdaptiveCruiseInput F D → Tick F → AdaptiveCruiseController F D → AdaptiveCruiseController F D
  begin_session_if_ready i tick s =
      if (i.enabled && (i.cruise_active && not tick.driver_main_pressed))
        && (not s.session_valid && valid_set_speed f i.driver_set_speed_kph)
      then begin_session (max_float f tick.minimum_kph i.driver_set_speed_kph) i.now_s s
      else s

  -- The speed that the cluster has shown for a while.
  unfoldable pub follow_cluster :
      AdaptiveCruiseInput F D → Tick F → AdaptiveCruiseController F D → AdaptiveCruiseController F D
  follow_cluster i tick s =
      if tick.cluster_valid
      then (if d.lt s.cluster_ref_s (zero_s d)
            || f.lt (cluster_steady_kph f) (f.abs (f.sub i.cluster_speed_kph s.cluster_ref_kph))
          then record s { cluster_ref_kph = i.cluster_speed_kph; cluster_ref_s = i.now_s }
          else s)
      else record s { cluster_ref_s = never d }

  unfoldable pub anchor :
      AdaptiveCruiseInput F D → Tick F → AdaptiveCruiseController F D → AdaptiveCruiseController F D
  anchor i tick s =
      let speed = max_float f tick.minimum_kph i.cluster_speed_kph in
      record s {
        commanded_speed_kph = speed;
        maximum_speed_kph = speed;
        reanchor_pending = false;
        mismatch_since_s = never d;
        ineffective_until_s = never d;
        last_command_s = i.now_s;
      }

  unfoldable pub reanchor_after_driver :
      AdaptiveCruiseInput F D
      → Tick F
      → AdaptiveCruiseController F D
      → AdaptiveCruiseController F D × Tick F
  reanchor_after_driver i tick s =
      let s' = follow_cluster i tick s in
      let steady =
        tick.cluster_valid
        && (d.le (zero_s d) s'.cluster_ref_s
            && d.le (cluster_steady_hold_s d) (d.sub i.now_s s'.cluster_ref_s)) in
      let tick' = record tick { cluster_steady = steady } in
      (
        if (s'.session_valid && i.cruise_active)
              && (s'.reanchor_pending
                  && (not tick'.driver_adjusting && not (is_button i.driver_button)))
            then (if steady then anchor i tick' s' else s')
            else s',
        tick',
      )

  -- The estimate and the cluster differ: since when, and after a while the estimate is given up.
  unfoldable pub correct_estimate :
      AdaptiveCruiseInput F D → Tick F → AdaptiveCruiseController F D → AdaptiveCruiseController F D
  correct_estimate i tick s =
      let since = if d.lt s.mismatch_since_s (zero_s d) then i.now_s else s.mismatch_since_s in
      if d.le (mismatch_hold_s d) (d.sub i.now_s since)
      then record s {
        ineffective_until_s =
            if f.lt s.commanded_speed_kph i.cluster_speed_kph
            then d.add i.now_s (ineffective_backoff_s d)
            else s.ineffective_until_s;
        commanded_speed_kph =
            clamp_float f i.cluster_speed_kph tick.minimum_kph s.maximum_speed_kph;
        mismatch_since_s = never d;
      }
      else record s { mismatch_since_s = since }

  unfoldable pub resolve_command_mismatch :
      AdaptiveCruiseInput F D → Tick F → AdaptiveCruiseController F D → AdaptiveCruiseController F D
  resolve_command_mismatch i tick s =
      if (s.session_valid && (i.cruise_active && tick.cluster_valid))
        && (not tick.driver_adjusting && not (is_button s.command_frames_remaining))
        && (d.le (zero_s d) s.last_command_s
            && d.le (mismatch_hold_s d) (d.sub i.now_s s.last_command_s))
      then (if f.lt (mismatch_kph f) (f.abs (f.sub i.cluster_speed_kph s.commanded_speed_kph))
          then correct_estimate i tick s
          else record s { mismatch_since_s = never d })
      else s
