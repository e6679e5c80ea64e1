-- ===== src/Cruise/Lead.antt =====
-- The lead vehicle, the scale of the displayed speed, and the speed aimed at.
use supercombo_k.Base.{Bool, true, false, not, ◌&&◌, ◌||◌, if◌then◌else◌}
use supercombo_k.Base.Int.{pos}
use supercombo_k.Base.Floats.{Floats, Casts, max_float, min_float, clamp_float}
use supercombo_k.Cruise.{
  AdaptiveCruiseConfig, AdaptiveCruiseInput, AdaptiveCruiseController, Tick, zero_s,
  display_scale_tau_s, display_scale_min, display_scale_max, display_scale_learn_min_kph,
}

module _ {F D : Type 0} (f : Floats F) (d : Floats D) (c : Casts F D) where
  unfoldable pub valid_vision_lead : AdaptiveCruiseInput F D → AdaptiveCruiseConfig F → Bool
  valid_vision_lead i config =
      i.vision_lead_valid
      && f.is_finite i.vision_lead_probability
      && f.le config.lead_probability_threshold i.vision_lead_probability
      && f.is_finite i.vision_lead_distance_m
      && f.is_finite i.vision_lead_relative_speed_mps
      && f.le (f.lit (pos 10) 1) i.vision_lead_distance_m
      && f.le i.vision_lead_distance_m (f.lit (pos 1500) 1)
      && f.le (f.abs i.vision_lead_relative_speed_mps) (f.lit (pos 400) 1)

  abbrev scale_unlearnable : AdaptiveCruiseInput F D → Bool
  scale_unlearnable i =
      not (f.is_finite i.cluster_speed_kph)
      || not (f.is_finite i.ego_speed_kph)
      || f.lt i.cluster_speed_kph (display_scale_learn_min_kph f)
      || f.lt i.ego_speed_kph (display_scale_learn_min_kph f)

  -- The part that learns from a ratio.
  unfoldable pub learn_scale : F → D → AdaptiveCruiseController F D → AdaptiveCruiseController F D
  learn_scale raw dt_s s =
      if f.lt raw (display_scale_min f) || f.lt (display_scale_max f) raw
      then record s { display_scale_valid = false }
      else if s.display_scale_valid
      then record s {
        display_scale =
            let alpha = c.narrow (d.div dt_s (d.add (display_scale_tau_s d) dt_s)) in
            f.add s.display_scale (f.mul alpha (f.sub raw s.display_scale));
      }
      else record s { display_scale = raw; display_scale_valid = true }

  unfoldable pub update_display_scale :
      AdaptiveCruiseInput F D → D → AdaptiveCruiseController F D → AdaptiveCruiseController F D
  update_display_scale i dt_s s =
      if d.le dt_s (zero_s d) || scale_unlearnable i
      then s
      else learn_scale (f.div i.cluster_speed_kph i.ego_speed_kph) dt_s s

  unfoldable pub filter_lead :
      AdaptiveCruiseInput F D → AdaptiveCruiseController F D → AdaptiveCruiseController F D
  filter_lead i s =
      let distance = s.filtered_lead_distance_m in
      let speed = s.filtered_lead_relative_speed_mps in
      let distance_alpha =
        if f.lt i.vision_lead_distance_m distance then f.lit (pos 45) 2 else f.lit (pos 2) 1 in
      record s {
        filtered_lead_distance_m =
            f.add distance (f.mul distance_alpha (f.sub i.vision_lead_distance_m distance));
        filtered_lead_relative_speed_mps =
            f.add speed (f.mul (f.lit (pos 3) 1) (f.sub i.vision_lead_relative_speed_mps speed));
      }

  unfoldable pub update_vision_lead :
      AdaptiveCruiseInput F D → AdaptiveCruiseController F D → AdaptiveCruiseController F D
  update_vision_lead i s =
      if not i.vision_lead_updated || not (valid_vision_lead i s.config)
      then s
      else let reacquired =
          d.lt s.last_valid_lead_s (zero_s d)
          || d.lt (c.widen s.config.lead_hold_s) (d.sub i.now_s s.last_valid_lead_s) in
        let s' =
          if reacquired
          then record s {
            filtered_lead_distance_m = i.vision_lead_distance_m;
            filtered_lead_relative_speed_mps = i.vision_lead_relative_speed_mps;
          }
          else filter_lead i s in
        record s' { last_valid_lead_s = i.now_s }

  -- The speed that keeps the distance to the lead, on the scale of the display.
  unfoldable pub following_speed :
      AdaptiveCruiseInput F D → Tick F → AdaptiveCruiseController F D → F
  following_speed i tick s =
      let ego_speed_mps =
        max_float f (f.lit (pos 0) 0) (f.div i.ego_speed_kph (f.lit (pos 36) 1)) in
      let relative = s.filtered_lead_relative_speed_mps in
      let lead_speed_mps = max_float f (f.lit (pos 0) 0) (f.add ego_speed_mps relative) in
      let desired_gap_m =
        f.add s.config.standstill_gap_m (f.mul s.config.following_time_s ego_speed_mps) in
      let slowdown_response_s =
        f.div tick.step_kph (max_float f (f.lit (pos 1) 1) s.config.deceleration_rate_kph_per_s) in
      let prediction_horizon_s =
        min_float f (f.lit (pos 20) 1)
          (f.add s.config.command_interval_s (f.mul (f.lit (pos 5) 1) slowdown_response_s)) in
      let predicted_lead_distance_m = max_float f (f.lit (pos 10) 1) (
        f.add s.filtered_lead_distance_m
          (f.mul (min_float f (f.lit (pos 0) 0) relative) prediction_horizon_s)) in
      let gap_correction_mps =
        clamp_float f
          (f.mul (f.sub predicted_lead_distance_m desired_gap_m) s.config.gap_correction_gain)
          (f.neg s.config.max_slowdown_correction_mps) s.config.max_speedup_correction_mps in
      clamp_float f
        (f.mul (f.mul (f.add lead_speed_mps gap_correction_mps) (f.lit (pos 36) 1)) s.display_scale)
        tick.minimum_kph s.maximum_speed_kph

  unfoldable pub is_lead_valid :
      AdaptiveCruiseInput F D → Tick F → AdaptiveCruiseController F D → Bool
  is_lead_valid i tick s =
      (s.session_valid && tick.speed_valid)
      && (d.le (zero_s d) s.last_valid_lead_s && d.le s.last_valid_lead_s i.now_s)
      && d.le (d.sub i.now_s s.last_valid_lead_s) (c.widen s.config.lead_hold_s)

  -- `target_speed`: the controller with the new lead, the speed, and whether there is a lead.
  unfoldable pub target_speed :
      AdaptiveCruiseInput F D
      → Tick F
      → AdaptiveCruiseController F D
      → AdaptiveCruiseController F D × F × Bool
  target_speed i tick s =
      let s' = update_vision_lead i s in
      let lead_valid = is_lead_valid i tick s' in
      (
        s',
        if (s'.session_valid && lead_valid) && s'.display_scale_valid
            then following_speed i tick s'
            else if s'.session_valid
                && (d.lt s'.last_valid_lead_s (zero_s d)
                    || d.le (c.widen s'.config.lead_restore_delay_s)
                        (d.sub i.now_s s'.last_valid_lead_s))
            then s'.maximum_speed_kph
            else s'.commanded_speed_kph,
        lead_valid,
      )
