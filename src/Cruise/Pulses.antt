-- ===== src/Cruise/Pulses.antt =====
-- A command is a pulse of some frames of one button, and two pulses have a wait between them.
use supercombo_k.Base.{◌≡◌, refl, Bool, true, not, ◌&&◌, ◌||◌, arith, Bool-cases, inl, inr, ◌⊎◌}
use supercombo_k.Base.Int.{ℤ, pos, ◌-ℤ◌, -ℤ_parts, ◌≤ℤ◌, ltb_ℤ}
use supercombo_k.Base.Floats.{Floats, Casts}
use supercombo_k.Cruise.{
  zero_s, AdaptiveCruiseInput, AdaptiveCruiseController, Tick, is_button, cruise_button_resume,
  cruise_button_set,
}
use supercombo_k.Cruise.Session.{
  begin_session, begin_session_if_ready, note_inactive, end_session, teardown_session,
  track_driver_adjustment, follow_cluster, anchor, reanchor_after_driver, correct_estimate,
  resolve_command_mismatch,
}
use supercombo_k.Cruise.Lead.{
  valid_vision_lead, update_display_scale, learn_scale, update_vision_lead, filter_lead,
  target_speed,
}
use supercombo_k.Cruise.Buttons.{
  button_interval_s, pace_buttons, choose_button, begin_pulse, interval_ready,
}
use supercombo_k.Cruise.Update.{elapsed_s, first_tick, note_override, follow_session, update}

module _ {F D : Type 0} (f : Floats F) (d : Floats D) (c : Casts F D) where
  abbrev pub IsButton : ℤ → Type 0
  IsButton b = (b ≡ pos 0) ⊎ ((b ≡ cruise_button_resume) ⊎ (b ≡ cruise_button_set))

  -- The button is none, RES or SET; a pulse under way has a button and fewer frames to go than a
  -- whole one.
  pub record IsPulse (s : AdaptiveCruiseController F D) : Type 0 where
    pub button_known : IsButton s.command_button
    pub one_frame : pos 1 ≤ℤ s.config.button_pulse_frames
    pub frames_nonneg : pos 0 ≤ℤ s.command_frames_remaining
    pub frames_le : s.command_frames_remaining ≤ℤ s.config.button_pulse_frames -ℤ pos 1

  zero-IsButton : IsButton (pos 0)
  zero-IsButton = inl refl

  -- What a pulse consists of.
  abbrev IsKept : AdaptiveCruiseController F D → AdaptiveCruiseController F D → Type 0
  IsKept s s' =
      (s'.config ≡ s.config)
      × (s'.command_button ≡ s.command_button)
      × (s'.command_frames_remaining ≡ s.command_frames_remaining)

  IsPulse-IsKept : (s s' : AdaptiveCruiseController F D) → IsKept s s' → IsPulse s → IsPulse s'
  IsPulse-IsKept s s' (e, b, n) h = record {
    button_known = rw b h.button_known;
    one_frame = rw e h.one_frame;
    frames_nonneg = rw n h.frames_nonneg;
    frames_le = rw (n, e) h.frames_le;
  }

  scale-IsKept :
      (i : AdaptiveCruiseInput F D) (dt_s : D) (s : AdaptiveCruiseController F D)
      → IsKept s (update_display_scale f d c i dt_s s)
  unfolding update_display_scale learn_scale
  scale-IsKept i dt_s s = ground arith

  note_override-IsKept :
      (i : AdaptiveCruiseInput F D) (s : AdaptiveCruiseController F D)
      → IsKept s (note_override f d c i s)
  unfolding note_override
  note_override-IsKept i s = ground arith

  teardown_session-IsKept :
      (i : AdaptiveCruiseInput F D) (tick : Tick F) (s : AdaptiveCruiseController F D)
      → IsKept s (teardown_session f d i tick s)
  unfolding teardown_session note_inactive end_session
  teardown_session-IsKept i tick s = ground arith

  track-IsKept :
      (i : AdaptiveCruiseInput F D) (tick : Tick F) (s : AdaptiveCruiseController F D)
      → IsKept s (track_driver_adjustment f d i tick s).0
  unfolding track_driver_adjustment
  track-IsKept i tick s = ground arith

  follow_cluster-IsKept :
      (i : AdaptiveCruiseInput F D) (tick : Tick F) (s : AdaptiveCruiseController F D)
      → IsKept s (follow_cluster f d i tick s)
  unfolding follow_cluster
  follow_cluster-IsKept i tick s = ground arith

  reanchor-IsKept :
      (i : AdaptiveCruiseInput F D) (tick : Tick F) (s : AdaptiveCruiseController F D)
      → IsKept s (reanchor_after_driver f d i tick s).0
  unfolding reanchor_after_driver anchor
  reanchor-IsKept i tick s = ground (arith, follow_cluster-IsKept i tick s)

  resolve-IsKept :
      (i : AdaptiveCruiseInput F D) (tick : Tick F) (s : AdaptiveCruiseController F D)
      → IsKept s (resolve_command_mismatch f d i tick s)
  unfolding resolve_command_mismatch correct_estimate
  resolve-IsKept i tick s = ground arith

  update_vision_lead-IsKept :
      (i : AdaptiveCruiseInput F D) (s : AdaptiveCruiseController F D)
      → IsKept s (update_vision_lead f d c i s)
  unfolding update_vision_lead filter_lead
  update_vision_lead-IsKept i s = ground arith

  -- A session begins with no pulse.
  begin_session_if_ready-IsPulse :
      (i : AdaptiveCruiseInput F D) (tick : Tick F) (s : AdaptiveCruiseController F D)
      → IsPulse s
      → IsPulse (begin_session_if_ready f d i tick s)
  unfolding begin_session_if_ready begin_session
  begin_session_if_ready-IsPulse i tick s h =
      ground (arith, zero-IsButton, -ℤ_parts s.config.button_pulse_frames (pos 1))

  pace_buttons-IsPulse :
      (i : AdaptiveCruiseInput F D) (tick : Tick F) (target : F) (active : Bool)
      (s : AdaptiveCruiseController F D)
      → IsPulse s
      → let (s', button) = pace_buttons f d c i tick target active s in IsPulse s' × IsButton button
  unfolding pace_buttons begin_pulse choose_button
  pace_buttons-IsPulse i tick target active s h = ground (
    arith,
    -ℤ_parts s.config.button_pulse_frames (pos 1),
    -ℤ_parts s.command_frames_remaining (pos 1),
  )

  -- A press goes on with a pulse under way, or begins one when the wait is over.
  unfoldable pub IsTimed :
      AdaptiveCruiseInput F D
      → Tick F
      → AdaptiveCruiseController F D
      → AdaptiveCruiseController F D
      → ℤ
      → Type 0
  IsTimed i tick s s' button =
      ((ltb_ℤ (pos 0) s.command_frames_remaining ≡ true)
        × (button ≡ s.command_button)
        × (s'.command_frames_remaining ≡ s.command_frames_remaining -ℤ pos 1)
        × (s'.last_command_s ≡ s.last_command_s))
      ⊎ ((interval_ready f d c i tick s ≡ true)
          × (button ≡ s'.command_button)
          × (s'.command_frames_remaining ≡ s.config.button_pulse_frames -ℤ pos 1)
          × (s'.last_command_s ≡ i.now_s))

  choose_button-IsReady :
      (i : AdaptiveCruiseInput F D) (tick : Tick F) (target : F) (s : AdaptiveCruiseController F D)
      → is_button (choose_button f d c i tick target s).command_button ≡ true
      → interval_ready f d c i tick s ≡ true
  unfolding choose_button
  choose_button-IsReady i tick target s h = ground arith

  choose_button-config :
      (i : AdaptiveCruiseInput F D) (tick : Tick F) (target : F) (s : AdaptiveCruiseController F D)
      → (choose_button f d c i tick target s).config ≡ s.config
  unfolding choose_button
  choose_button-config i tick target s = ground arith

  pace_buttons-IsTimed :
      (i : AdaptiveCruiseInput F D) (tick : Tick F) (target : F) (active : Bool)
      (s : AdaptiveCruiseController F D)
      → let (s', button) = pace_buttons f d c i tick target active s in
        is_button button ≡ true → IsTimed i tick s s' button
  unfolding pace_buttons begin_pulse IsTimed
  pace_buttons-IsTimed i tick target active s h =
      ground (arith, choose_button-IsReady i tick target s, choose_button-config i tick target s)

  -- The lead does not change what times a command.
  interval_ready-update_vision_lead :
      (i : AdaptiveCruiseInput F D) (tick : Tick F) (s : AdaptiveCruiseController F D)
      → interval_ready f d c i tick (update_vision_lead f d c i s) ≡ interval_ready f d c i tick s
  unfolding interval_ready button_interval_s update_vision_lead filter_lead
  interval_ready-update_vision_lead i tick s =
      elim (Bool-cases (not i.vision_lead_updated || not (valid_vision_lead f d c i s.config))) [
        | inl e ↦ rw e refl
        | inr e ↦
            elim (Bool-cases (
              d.lt s.last_valid_lead_s (zero_s d)
              || d.lt (c.widen s.config.lead_hold_s) (d.sub i.now_s s.last_valid_lead_s))) [
                | inl new ↦ rw (e, new) refl
                | inr old ↦ rw (e, old) refl
              ]
      ]

  update_vision_lead-last_command :
      (i : AdaptiveCruiseInput F D) (s : AdaptiveCruiseController F D)
      → (update_vision_lead f d c i s).last_command_s ≡ s.last_command_s
  unfolding update_vision_lead filter_lead
  update_vision_lead-last_command i s = ground arith

  IsTimed-update_vision_lead :
      (i : AdaptiveCruiseInput F D) (tick : Tick F) (s s' : AdaptiveCruiseController F D)
      (button : ℤ)
      → IsTimed i tick (update_vision_lead f d c i s) s' button
      → IsTimed i tick s s' button
  unfolding IsTimed
  IsTimed-update_vision_lead i tick s s' button h = ground (
    arith,
    h,
    update_vision_lead-IsKept i s,
    update_vision_lead-last_command i s,
    interval_ready-update_vision_lead i tick s,
  )

  follow_session-IsPulse :
      (i : AdaptiveCruiseInput F D) (s : AdaptiveCruiseController F D)
      → IsPulse s
      → IsPulse (follow_session f d c i s).0
  unfolding follow_session
  follow_session-IsPulse i s h =
      let late = record s { last_update_s = i.now_s } in
      let scaled = update_display_scale f d c i (elapsed_s f d c i s) late in
      let noted = note_override f d c i scaled in
      let tick = first_tick f d c i s in
      let torn = teardown_session f d i tick noted in
      let tracked = track_driver_adjustment f d i tick torn in
      let begun = begin_session_if_ready f d i tracked.1 tracked.0 in
      let anchored = reanchor_after_driver f d i tracked.1 begun in
      let h0 : IsPulse late = IsPulse-IsKept s late (refl, refl, refl) h in
      let h1 = IsPulse-IsKept late scaled (scale-IsKept i (elapsed_s f d c i s) late) h0 in
      let h2 = IsPulse-IsKept scaled noted (note_override-IsKept i scaled) h1 in
      let h3 = IsPulse-IsKept noted torn (teardown_session-IsKept i tick noted) h2 in
      let h4 = IsPulse-IsKept torn tracked.0 (track-IsKept i tick torn) h3 in
      let h5 = begin_session_if_ready-IsPulse i tracked.1 tracked.0 h4 in
      let h6 = IsPulse-IsKept begun anchored.0 (reanchor-IsKept i tracked.1 begun) h5 in
      IsPulse-IsKept anchored.0 (resolve_command_mismatch f d i anchored.1 anchored.0)
        (resolve-IsKept i anchored.1 anchored.0) h6

  -- If the parameters ask for at least one frame a pulse, the button is none, RES or SET, and fewer
  -- frames are left than a pulse has, then after an update this is so again, its output is none, RES
  -- or SET, and a press either goes on with the pulse under way, one frame less being left, or begins
  -- a pulse at a time when the wait since the last command is over.
  pub update-IsPulse :
      (i : AdaptiveCruiseInput F D) (s : AdaptiveCruiseController F D)
      → IsPulse s
      → let (s', out) = update f d c i s in
        let (followed, tick) = follow_session f d c i s in
        IsPulse s'
        × IsButton out.command_button
        × (is_button out.command_button ≡ true → IsTimed i tick followed s' out.command_button)
  unfolding update target_speed IsTimed
  update-IsPulse i s h =
      let followed = follow_session f d c i s in
      let aimed = target_speed f d c i followed.1 followed.0 in
      let active = i.enabled && (aimed.0.session_valid && i.cruise_active) in
      let lead =
        IsPulse-IsKept followed.0 aimed.0 (update_vision_lead-IsKept i followed.0)
          (follow_session-IsPulse i s h) in
      let paced = pace_buttons-IsPulse i followed.1 aimed.1 active aimed.0 lead in
      (
        IsPulse-IsKept (pace_buttons f d c i followed.1 aimed.1 active aimed.0).0
            (update f d c i s).0 (refl, refl, refl) paced.0,
        paced.1,
        λ p.
            IsTimed-update_vision_lead i followed.1 followed.0 (update f d c i s).0
              (update f d c i s).1.command_button
              (pace_buttons-IsTimed i followed.1 aimed.1 active aimed.0 p),
      )
