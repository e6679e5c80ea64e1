-- ===== src/Cruise/Over.antt =====
-- The end of a session.
use supercombo_k.Base.{
  ◌≡◌, refl, ◌∙◌, ap, Bool, true, false, not, ◌&&◌, ◌||◌, arith, Bool-cases, inl, inr,
}
use supercombo_k.Base.Int.{pos}
use supercombo_k.Base.Floats.{Floats, Casts}
use supercombo_k.Cruise.{AdaptiveCruiseInput, AdaptiveCruiseController, Tick, is_button, zero_s}
use supercombo_k.Cruise.Session.{
  begin_session, begin_session_if_ready, note_inactive, cruise_off_settled, end_session,
  teardown_session, track_driver_adjustment, follow_cluster, reanchor_after_driver,
  resolve_command_mismatch,
}
use supercombo_k.Cruise.Lead.{
  update_display_scale, learn_scale, update_vision_lead, filter_lead, target_speed, is_lead_valid,
}
use supercombo_k.Cruise.Buttons.{pace_buttons, command_allowed}
use supercombo_k.Cruise.Update.{elapsed_s, first_tick, note_override, follow_session, update}

module _ {F D : Type 0} (f : Floats F) (d : Floats D) (c : Casts F D) where
  -- The driver or the parameters end the session, or the cruise has been off for long enough.
  unfoldable pub is_ended : AdaptiveCruiseInput F D → AdaptiveCruiseController F D → Bool
  is_ended i s =
      not i.enabled
      || ((is_button i.driver_main_button && not (is_button s.previous_driver_main_button))
          || cruise_off_settled f d i (note_inactive f d i s))

  -- No session, and no speed that is left over from one.
  pub record IsOver (s : AdaptiveCruiseController F D) : Type 0 where
    pub no_session : s.session_valid ≡ false
    pub no_ceiling : s.maximum_speed_kph ≡ f.lit (pos 0) 0
    pub no_command : s.commanded_speed_kph ≡ f.lit (pos 0) 0

  -- The time since when the cruise is off decides.
  settled_congr :
      (i : AdaptiveCruiseInput F D) (s s' : AdaptiveCruiseController F D)
      → s.cruise_inactive_since_s ≡ s'.cruise_inactive_since_s
      → cruise_off_settled f d i (note_inactive f d i s)
        ≡ cruise_off_settled f d i (note_inactive f d i s')
  unfolding cruise_off_settled note_inactive
  settled_congr i s s' e = elim (Bool-cases i.cruise_active) [
    | inl on ↦ rw on refl
    | inr off ↦ elim (Bool-cases (d.lt s'.cruise_inactive_since_s (zero_s d))) [
      | inl new ↦ rw (off, e, new) refl
      | inr old ↦ rw (off, e, old) refl
    ]
  ]

  scaled_since :
      (i : AdaptiveCruiseInput F D) (dt_s : D) (s : AdaptiveCruiseController F D)
      → (update_display_scale f d c i dt_s s).cruise_inactive_since_s ≡ s.cruise_inactive_since_s
  unfolding update_display_scale learn_scale
  scaled_since i dt_s s = ground arith

  note_override_since :
      (i : AdaptiveCruiseInput F D) (s : AdaptiveCruiseController F D)
      → (note_override f d c i s).cruise_inactive_since_s ≡ s.cruise_inactive_since_s
  unfolding note_override
  note_override_since i s = ground arith

  teardown_session-IsOver :
      (i : AdaptiveCruiseInput F D) (tick : Tick F) (s : AdaptiveCruiseController F D)
      → (not i.enabled
          || (tick.driver_main_pressed || cruise_off_settled f d i (note_inactive f d i s)))
        ≡ true
      → IsOver (teardown_session f d i tick s)
  unfolding teardown_session end_session
  teardown_session-IsOver i tick s h = ground arith

  track-IsOver :
      (i : AdaptiveCruiseInput F D) (tick : Tick F) (s : AdaptiveCruiseController F D)
      → IsOver s
      → IsOver (track_driver_adjustment f d i tick s).0
  unfolding track_driver_adjustment
  track-IsOver i tick s h = ground arith

  -- What kept the session from going on keeps a new one from beginning.
  begin_session_if_ready-IsOver :
      (i : AdaptiveCruiseInput F D) (tick : Tick F) (s s' : AdaptiveCruiseController F D)
      → (not i.enabled || (tick.driver_main_pressed || cruise_off_settled f d i s')) ≡ true
      → IsOver s
      → IsOver (begin_session_if_ready f d i tick s)
  unfolding begin_session_if_ready begin_session cruise_off_settled
  begin_session_if_ready-IsOver i tick s s' e h = ground arith

  follow_cluster-IsOver :
      (i : AdaptiveCruiseInput F D) (tick : Tick F) (s : AdaptiveCruiseController F D)
      → IsOver s
      → IsOver (follow_cluster f d i tick s)
  unfolding follow_cluster
  follow_cluster-IsOver i tick s h = ground arith

  reanchor-IsOver :
      (i : AdaptiveCruiseInput F D) (tick : Tick F) (s : AdaptiveCruiseController F D)
      → IsOver s
      → IsOver (reanchor_after_driver f d i tick s).0
  unfolding reanchor_after_driver
  reanchor-IsOver i tick s h = ground (arith, follow_cluster-IsOver i tick s h)

  resolve-IsOver :
      (i : AdaptiveCruiseInput F D) (tick : Tick F) (s : AdaptiveCruiseController F D)
      → IsOver s
      → IsOver (resolve_command_mismatch f d i tick s)
  unfolding resolve_command_mismatch
  resolve-IsOver i tick s h = ground arith

  update_vision_lead-IsOver :
      (i : AdaptiveCruiseInput F D) (s : AdaptiveCruiseController F D)
      → IsOver s
      → IsOver (update_vision_lead f d c i s)
  unfolding update_vision_lead filter_lead
  update_vision_lead-IsOver i s h = ground arith

  follow_session-IsOver :
      (i : AdaptiveCruiseInput F D) (s : AdaptiveCruiseController F D)
      → is_ended i s ≡ true
      → IsOver (follow_session f d c i s).0
  unfolding follow_session is_ended first_tick track_driver_adjustment
  follow_session-IsOver i s e =
      let scaled =
        update_display_scale f d c i (elapsed_s f d c i s) (record s { last_update_s = i.now_s }) in
      let noted = note_override f d c i scaled in
      let since : noted.cruise_inactive_since_s ≡ s.cruise_inactive_since_s =
        note_override_since i scaled
        ∙ scaled_since i (elapsed_s f d c i s) (record s { last_update_s = i.now_s }) in
      let tick = first_tick f d c i s in
      let torn = teardown_session f d i tick noted in
      let tracked = track_driver_adjustment f d i tick torn in
      let begun = begin_session_if_ready f d i tracked.1 tracked.0 in
      let anchored = reanchor_after_driver f d i tracked.1 begun in
      let main = is_button i.driver_main_button && not (is_button s.previous_driver_main_button) in
      let ended : (not i.enabled || (main || cruise_off_settled f d i (note_inactive f d i noted)))
          ≡ true =
        ap (λ off. not i.enabled || (main || off)) (settled_congr i noted s since) ∙ e in
      resolve-IsOver i anchored.1 anchored.0 (
        reanchor-IsOver i tracked.1 begun (
          begin_session_if_ready-IsOver i tracked.1 tracked.0 (note_inactive f d i noted) ended
            (track-IsOver i tick torn (teardown_session-IsOver i tick noted ended))))

  idle : (a b session : Bool) → session ≡ false → (a && (session && b)) ≡ false
  idle a b session e = ground arith

  -- The controller that does not act presses nothing and drops a pulse that is under way.
  pace_buttons_idle :
      (i : AdaptiveCruiseInput F D) (tick : Tick F) (target : F) (active : Bool)
      (s : AdaptiveCruiseController F D)
      → active ≡ false
      → IsOver s
      → let (s', button) = pace_buttons f d c i tick target active s in
        IsOver s' × (button ≡ pos 0) × (s'.command_frames_remaining ≡ pos 0)
  unfolding pace_buttons command_allowed
  pace_buttons_idle i tick target active s off over = ground arith

  -- If in an update the assistance is switched off, the main button is newly pressed or the cruise
  -- has been off for 0.3 s, then after it there is no session and no speed left from one, the output
  -- is not active, has no lead and no button, and no frame of a pulse is left.
  pub update-IsOver :
      (i : AdaptiveCruiseInput F D) (s : AdaptiveCruiseController F D)
      → is_ended i s ≡ true
      → let (s', out) = update f d c i s in
        IsOver s'
        × (out.active ≡ false)
        × (out.lead_valid ≡ false)
        × (out.command_button ≡ pos 0)
        × (s'.command_frames_remaining ≡ pos 0)
  unfolding update target_speed is_lead_valid
  update-IsOver i s e =
      let followed = follow_session f d c i s in
      let over = update_vision_lead-IsOver i followed.0 (follow_session-IsOver i s e) in
      let aimed = target_speed f d c i followed.1 followed.0 in
      let active = i.enabled && (aimed.0.session_valid && i.cruise_active) in
      let off : active ≡ false = idle i.enabled i.cruise_active _ over.no_session in
      let paced = pace_buttons_idle i followed.1 aimed.1 active aimed.0 off over in
      (
        record {
          no_session = paced.0.no_session;
          no_ceiling = paced.0.no_ceiling;
          no_command = paced.0.no_command;
        },
        off,
        rw over.no_session refl,
        paced.1,
        paced.2,
      )
