-- ===== src/Cruise/Gates.antt =====
-- When a button is pressed.
use mathlib.Core.Bool.{false≢true}
use supercombo_k.Base.{
  ◌≡◌, refl, sym, ◌∙◌, Bool, true, false, not, ◌&&◌, ◌||◌, arith, Bool-cases, inl, inr,
}
use supercombo_k.Base.Floats.{Floats, Casts}
use supercombo_k.Cruise.{AdaptiveCruiseInput, AdaptiveCruiseController, Tick, is_button, zero_s}
use supercombo_k.Cruise.Session.{
  track_driver_adjustment, reanchor_after_driver, begin_session, begin_session_if_ready,
  follow_cluster, anchor, resolve_command_mismatch, correct_estimate,
}
use supercombo_k.Cruise.Lead.{target_speed, update_vision_lead, filter_lead}
use supercombo_k.Cruise.Buttons.{
  command_allowed, accelerator_released, pace_buttons, choose_button, begin_pulse,
}
use supercombo_k.Cruise.Update.{first_tick, follow_session, update}

module _ {F D : Type 0} (f : Floats F) (d : Floats D) (c : Casts F D) where
  -- What has to hold for a press: of the input, of the controller before and of the one after.
  pub record MayPress (i : AdaptiveCruiseInput F D) (s s' : AdaptiveCruiseController F D)
      : Type 0 where
    pub switched_on : i.enabled ≡ true
    pub cruising : i.cruise_active ≡ true
    pub ready : i.controls_ready ≡ true
    pub no_brake : i.brake_pressed ≡ false
    pub no_gas : i.gas_pressed ≡ false
    pub no_override : i.driver_accelerator_override ≡ false
    pub no_driver_button : is_button i.driver_button ≡ false
    pub no_main_press :
        (is_button i.driver_main_button && not (is_button s.previous_driver_main_button)) ≡ false
    pub speed_known : f.is_finite i.ego_speed_kph ≡ true
    pub in_session : s'.session_valid ≡ true
    pub scale_known : s'.display_scale_valid ≡ true
    pub driver_settled :
        (d.le (zero_s d) s'.driver_adjust_until_s && d.lt i.now_s s'.driver_adjust_until_s) ≡ false

  pace_buttons-allowed :
      (i : AdaptiveCruiseInput F D) (tick : Tick F) (target : F) (active : Bool)
      (s : AdaptiveCruiseController F D)
      → is_button (pace_buttons f d c i tick target active s).1 ≡ true
      → command_allowed f d c i tick active s ≡ true
  unfolding pace_buttons
  pace_buttons-allowed i tick target active s =
      elim (Bool-cases (command_allowed f d c i tick active s)) [
        | inl e ↦ λ h. e
        | inr e ↦ rw e λ h. absurd (false≢true h)
      ]

  allowed_all :
      (i : AdaptiveCruiseInput F D) (tick : Tick F) (active : Bool)
      (s : AdaptiveCruiseController F D)
      → command_allowed f d c i tick active s ≡ true
      → (active ≡ true)
        × (tick.speed_valid ≡ true)
        × (s.display_scale_valid ≡ true)
        × (i.controls_ready ≡ true)
        × (i.brake_pressed ≡ false)
        × (tick.accelerator_override ≡ false)
        × (tick.driver_adjusting ≡ false)
        × (is_button i.driver_button ≡ false)
        × (tick.driver_main_pressed ≡ false)
  unfolding command_allowed accelerator_released
  allowed_all i tick active s h = ground arith

  -- What a press of a button leaves as it was.
  abbrev IsPaced : AdaptiveCruiseController F D → AdaptiveCruiseController F D → Type 0
  IsPaced s s' =
      (s'.session_valid ≡ s.session_valid)
      × (s'.display_scale_valid ≡ s.display_scale_valid)
      × (s'.driver_adjust_until_s ≡ s.driver_adjust_until_s)

  pub pace_buttons-IsPaced :
      (i : AdaptiveCruiseInput F D) (tick : Tick F) (target : F) (active : Bool)
      (s : AdaptiveCruiseController F D)
      → IsPaced s (pace_buttons f d c i tick target active s).0
  unfolding pace_buttons begin_pulse choose_button
  pace_buttons-IsPaced i tick target active s = ground arith

  update_vision_lead-until :
      (i : AdaptiveCruiseInput F D) (s : AdaptiveCruiseController F D)
      → (update_vision_lead f d c i s).driver_adjust_until_s ≡ s.driver_adjust_until_s
  unfolding update_vision_lead filter_lead
  update_vision_lead-until i s = ground arith

  conj : (a b c' : Bool) → (a && (b && c')) ≡ true → (a ≡ true) × (b ≡ true) × (c' ≡ true)
  conj a b c' h = ground arith

  disj : (a b : Bool) → (a || b) ≡ false → (a ≡ false) × (b ≡ false)
  disj a b h = ground arith

  begin_session_if_ready-until :
      (i : AdaptiveCruiseInput F D) (tick : Tick F) (s : AdaptiveCruiseController F D)
      → (begin_session_if_ready f d i tick s).driver_adjust_until_s ≡ s.driver_adjust_until_s
  unfolding begin_session_if_ready begin_session
  begin_session_if_ready-until i tick s = ground arith

  reanchor_after_driver-until :
      (i : AdaptiveCruiseInput F D) (tick : Tick F) (s : AdaptiveCruiseController F D)
      → (reanchor_after_driver f d i tick s).0.driver_adjust_until_s ≡ s.driver_adjust_until_s
  unfolding reanchor_after_driver follow_cluster anchor
  reanchor_after_driver-until i tick s = ground arith

  resolve_command_mismatch-until :
      (i : AdaptiveCruiseInput F D) (tick : Tick F) (s : AdaptiveCruiseController F D)
      → (resolve_command_mismatch f d i tick s).driver_adjust_until_s ≡ s.driver_adjust_until_s
  unfolding resolve_command_mismatch correct_estimate
  resolve_command_mismatch-until i tick s = ground arith

  -- The tick that the last steps see.
  follow_session-tick :
      (i : AdaptiveCruiseInput F D) (s : AdaptiveCruiseController F D)
      → let (s', tick) = follow_session f d c i s in
        (tick.speed_valid ≡ f.is_finite i.ego_speed_kph)
        × (tick.accelerator_override ≡ (i.gas_pressed || i.driver_accelerator_override))
        × (tick.driver_main_pressed
            ≡ (is_button i.driver_main_button && not (is_button s.previous_driver_main_button)))
        × (tick.driver_adjusting
            ≡ (d.le (zero_s d) s'.driver_adjust_until_s && d.lt i.now_s s'.driver_adjust_until_s))
  unfolding follow_session reanchor_after_driver track_driver_adjustment first_tick
  follow_session-tick i s = (
    refl,
    refl,
    refl,
    rw (resolve_command_mismatch-until, reanchor_after_driver-until, begin_session_if_ready-until)
        refl,
  )

  -- If update gives a button to press, then the cruise assistance is switched on, the cruise is
  -- active, the controls are ready, neither pedal nor a button of the driver is pressed, the main
  -- button is not newly pressed, the speed is finite, and after the update there is a session, a
  -- learned scale, and no time left that the driver's last adjustment asks to wait.
  pub update-MayPress :
      (i : AdaptiveCruiseInput F D) (s : AdaptiveCruiseController F D)
      → is_button (update f d c i s).1.command_button ≡ true
      → MayPress i s (update f d c i s).0
  unfolding update target_speed
  update-MayPress i s h =
      let followed = follow_session f d c i s in
      let aimed = target_speed f d c i followed.1 followed.0 in
      let active = i.enabled && (aimed.0.session_valid && i.cruise_active) in
      let gates =
        allowed_all i followed.1 active aimed.0
          (pace_buttons-allowed i followed.1 aimed.1 active aimed.0 h) in
      let paced = pace_buttons-IsPaced i followed.1 aimed.1 active aimed.0 in
      let tick = follow_session-tick i s in
      let on = conj i.enabled aimed.0.session_valid i.cruise_active gates.0 in
      let pedals = disj i.gas_pressed i.driver_accelerator_override (sym tick.1 ∙ gates.5) in
      let until : (update f d c i s).0.driver_adjust_until_s ≡ followed.0.driver_adjust_until_s =
        paced.2 ∙ update_vision_lead-until i followed.0 in
      record {
        switched_on = on.0;
        cruising = on.2;
        ready = gates.3;
        no_brake = gates.4;
        no_gas = pedals.0;
        no_override = pedals.1;
        no_driver_button = gates.7;
        no_main_press = sym tick.2 ∙ gates.8;
        speed_known = sym tick.0 ∙ gates.1;
        in_session = paced.0 ∙ on.1;
        scale_known = paced.1 ∙ gates.2;
        driver_settled = rw until (sym tick.3 ∙ gates.6);
      }
