-- ===== src/Cruise/Buttons.antt =====
-- When a button may be pressed, which one, and for how many frames.
use supercombo_k.Base.{Bool, true, false, not, ◌&&◌, ◌||◌, if◌then◌else◌}
use supercombo_k.Base.Int.{ℤ, pos, ◌-ℤ◌, ltb_ℤ}
use supercombo_k.Base.Floats.{Floats, Casts, max_float, min_float}
use supercombo_k.Cruise.{
  AdaptiveCruiseInput, AdaptiveCruiseController, Tick, cruise_button_resume, cruise_button_set,
  is_button, never, zero_s, accelerator_release_delay_s,
}

module _ {F D : Type 0} (f : Floats F) (d : Floats D) (c : Casts F D) where
  unfoldable pub accelerator_released :
      AdaptiveCruiseInput F D → Tick F → AdaptiveCruiseController F D → Bool
  accelerator_released i tick s =
      not tick.accelerator_override
      && (d.lt s.last_accelerator_override_s (zero_s d)
          || d.le (accelerator_release_delay_s d) (d.sub i.now_s s.last_accelerator_override_s))

  unfoldable pub command_allowed :
      AdaptiveCruiseInput F D → Tick F → Bool → AdaptiveCruiseController F D → Bool
  command_allowed i tick active s =
      active
      && tick.speed_valid
      && s.display_scale_valid
      && i.controls_ready
      && not i.brake_pressed
      && accelerator_released i tick s
      && not tick.driver_adjusting
      && (d.lt s.ineffective_until_s (zero_s d) || d.le s.ineffective_until_s i.now_s)
      && not (is_button i.driver_button)
      && not tick.driver_main_pressed

  unfoldable pub wants_set : Tick F → F → AdaptiveCruiseController F D → Bool
  wants_set tick target s =
      f.le target (f.sub s.commanded_speed_kph tick.step_kph)
      && f.lt (f.add tick.minimum_kph (f.lit (pos 1) 1)) s.commanded_speed_kph

  unfoldable pub wants_resume : Tick F → F → AdaptiveCruiseController F D → Bool
  wants_resume tick target s =
      f.le (f.add s.commanded_speed_kph tick.step_kph) target
      && f.lt s.commanded_speed_kph (f.sub s.maximum_speed_kph (f.lit (pos 1) 1))

  -- The wait between two commands, longer after a SET.
  unfoldable pub button_interval_s : Tick F → AdaptiveCruiseController F D → D
  button_interval_s tick s =
      let interval = c.widen s.config.command_interval_s in
      if s.last_auto_command_was_set
      then max_float d interval (
          d.div (c.widen tick.step_kph)
            (max_float d (d.lit (pos 1) 1) (c.widen s.config.deceleration_rate_kph_per_s)))
      else interval

  unfoldable pub interval_ready :
      AdaptiveCruiseInput F D → Tick F → AdaptiveCruiseController F D → Bool
  interval_ready i tick s =
      d.lt s.last_command_s (zero_s d)
      || d.le (button_interval_s tick s) (d.sub i.now_s s.last_command_s)

  -- The choice of a button with its effect on the estimate.
  unfoldable pub choose_button :
      AdaptiveCruiseInput F D
      → Tick F
      → F
      → AdaptiveCruiseController F D
      → AdaptiveCruiseController F D
  choose_button i tick target s =
      if wants_set tick target s && interval_ready i tick s
      then record s {
        command_button = cruise_button_set;
        last_auto_command_was_set = true;
        commanded_speed_kph =
            max_float f tick.minimum_kph (f.sub s.commanded_speed_kph tick.step_kph);
      }
      else if wants_resume tick target s && interval_ready i tick s
      then record s {
        command_button = cruise_button_resume;
        last_auto_command_was_set = false;
        commanded_speed_kph =
            min_float f s.maximum_speed_kph (f.add s.commanded_speed_kph tick.step_kph);
      }
      else record s { command_button = pos 0 }

  -- A pulse that is to begin is timed; the result is the button of this update.
  unfoldable pub begin_pulse :
      AdaptiveCruiseInput F D → AdaptiveCruiseController F D → AdaptiveCruiseController F D × ℤ
  begin_pulse i s =
      if is_button s.command_button
      then (
        record s {
          last_command_s = i.now_s;
          command_frames_remaining = s.config.button_pulse_frames -ℤ pos 1;
          mismatch_since_s = never d;
        },
        s.command_button,
      )
      else (s, pos 0)

  unfoldable pub pace_buttons :
      AdaptiveCruiseInput F D
      → Tick F
      → F
      → Bool
      → AdaptiveCruiseController F D
      → AdaptiveCruiseController F D × ℤ
  pace_buttons i tick target active s =
      if command_allowed i tick active s
      then (if ltb_ℤ (pos 0) s.command_frames_remaining
          then (
            record s { command_frames_remaining = s.command_frames_remaining -ℤ pos 1 },
            s.command_button,
          )
          else begin_pulse i (choose_button i tick target s))
      else (record s { command_button = pos 0; command_frames_remaining = pos 0 }, pos 0)
