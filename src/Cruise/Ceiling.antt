-- ===== src/Cruise/Ceiling.antt =====
-- The speed that the controller takes the car to be set to stays under the driver's ceiling.
use supercombo_k.Base.{List, [], ◌∷◌, ◌≡◌, Bool, true, ◌&&◌, and_true, arith, Bool-cases, inl, inr}
use supercombo_k.Base.Int.{pos}
use supercombo_k.Base.Floats.{
  Floats, Casts, IsOrdered, max_float_refl, min_float_le, max_float_le, clamp_float_le, max_float,
}
use supercombo_k.Cruise.{
  AdaptiveCruiseInput, AdaptiveCruiseController, Tick, valid_set_speed, minimum_speed_kph,
  display_step_kph,
}
use supercombo_k.Cruise.Session.{
  begin_session, begin_session_if_ready, note_inactive, end_session, teardown_session,
  track_driver_adjustment, follow_cluster, anchor, reanchor_after_driver, correct_estimate,
  resolve_command_mismatch,
}
use supercombo_k.Cruise.Lead.{
  update_display_scale, learn_scale, update_vision_lead, filter_lead, target_speed,
}
use supercombo_k.Cruise.Buttons.{
  wants_set, choose_button, begin_pulse, pace_buttons, interval_ready,
}
use supercombo_k.Cruise.Update.{elapsed_s, first_tick, note_override, follow_session, update, run}

module _ {F D : Type 0} (f : Floats F) (d : Floats D) (c : Casts F D) where
  -- The numbers that a unit of speed gives are small.
  pub record IsScale : Type 0 where
    pub minimum_refl :
        (mph : Bool) → f.le (minimum_speed_kph f mph) (minimum_speed_kph f mph) ≡ true
    pub step_finite : (mph : Bool) → f.is_finite (display_step_kph f mph) ≡ true
    pub tenth_finite : f.is_finite (f.lit (pos 1) 1) ≡ true
    pub tenth_nonneg : f.le (f.lit (pos 0) 0) (f.lit (pos 1) 1) ≡ true
    pub step_nonneg : (mph : Bool) → f.le (f.lit (pos 0) 0) (display_step_kph f mph) ≡ true

  abbrev pub IsUnder : AdaptiveCruiseController F D → Type 0
  IsUnder s = f.le s.commanded_speed_kph s.maximum_speed_kph ≡ true

  -- What the steps read of a tick.
  record IsTickOf (i : AdaptiveCruiseInput F D) (tick : Tick F) : Type 0 where
    pub min_refl : f.le tick.minimum_kph tick.minimum_kph ≡ true
    pub finite_step : f.is_finite tick.step_kph ≡ true
    pub nonneg_step : f.le (f.lit (pos 0) 0) tick.step_kph ≡ true
    pub finite_cluster : tick.cluster_valid ≡ true → f.is_finite i.cluster_speed_kph ≡ true

  scale-IsUnder :
      (i : AdaptiveCruiseInput F D) (dt_s : D) (s : AdaptiveCruiseController F D)
      → IsUnder s
      → IsUnder (update_display_scale f d c i dt_s s)
  unfolding update_display_scale learn_scale
  scale-IsUnder i dt_s s h = ground arith

  update_vision_lead-IsUnder :
      (i : AdaptiveCruiseInput F D) (s : AdaptiveCruiseController F D)
      → IsUnder s
      → IsUnder (update_vision_lead f d c i s)
  unfolding update_vision_lead filter_lead
  update_vision_lead-IsUnder i s h = ground arith

  note_override-IsUnder :
      (i : AdaptiveCruiseInput F D) (s : AdaptiveCruiseController F D)
      → IsUnder s
      → IsUnder (note_override f d c i s)
  unfolding note_override
  note_override-IsUnder i s h = ground arith

  track-IsUnder :
      (i : AdaptiveCruiseInput F D) (tick : Tick F) (s : AdaptiveCruiseController F D)
      → IsUnder s
      → IsUnder (track_driver_adjustment f d i tick s).0
  unfolding track_driver_adjustment
  track-IsUnder i tick s h = ground arith

  module _ (o : IsOrdered f) (e : IsScale) where
    teardown_session-IsUnder :
        (i : AdaptiveCruiseInput F D) (tick : Tick F) (s : AdaptiveCruiseController F D)
        → IsUnder s
        → IsUnder (teardown_session f d i tick s)
    unfolding teardown_session note_inactive end_session
    teardown_session-IsUnder i tick s h = ground (arith, o.lit_refl (pos 0) 0)

    begin_session-IsUnder :
        (speed : F) (now_s : D) (s : AdaptiveCruiseController F D)
        → IsUnder s
        → IsUnder (begin_session f d speed now_s s)
    unfolding begin_session valid_set_speed
    begin_session-IsUnder speed now_s s h = ground (arith, o.finite_refl speed)

    begin_session_if_ready-IsUnder :
        (i : AdaptiveCruiseInput F D) (tick : Tick F) (s : AdaptiveCruiseController F D)
        → IsUnder s
        → IsUnder (begin_session_if_ready f d i tick s)
    unfolding begin_session_if_ready
    begin_session_if_ready-IsUnder i tick s h = ground (
      arith,
      begin_session-IsUnder (max_float f tick.minimum_kph i.driver_set_speed_kph) i.now_s s h,
    )

    anchor-IsUnder :
        (i : AdaptiveCruiseInput F D) (tick : Tick F) (s : AdaptiveCruiseController F D)
        → IsTickOf i tick
        → tick.cluster_valid ≡ true
        → IsUnder (anchor f d i tick s)
    unfolding anchor
    anchor-IsUnder i tick s t v =
        max_float_refl f o tick.minimum_kph i.cluster_speed_kph t.min_refl
          (o.finite_refl i.cluster_speed_kph (t.finite_cluster v))

    correct_estimate-IsUnder :
        (i : AdaptiveCruiseInput F D) (tick : Tick F) (s : AdaptiveCruiseController F D)
        → IsTickOf i tick
        → tick.cluster_valid ≡ true
        → IsUnder s
        → IsUnder (correct_estimate f d i tick s)
    unfolding correct_estimate
    correct_estimate-IsUnder i tick s t v h = ground (
      arith,
      clamp_float_le f o i.cluster_speed_kph tick.minimum_kph s.maximum_speed_kph
          (t.finite_cluster v) t.min_refl
          (o.refl_of_le s.commanded_speed_kph s.maximum_speed_kph h).1,
    )

    -- A SET lowers the speed, but not under the least one, which was under it.
    lowered_le :
        (tick : Tick F) (i : AdaptiveCruiseInput F D) (target : F)
        (s : AdaptiveCruiseController F D)
        → IsTickOf i tick
        → IsUnder s
        → wants_set f d c tick target s ≡ true
        → f.le
            (max_float f tick.minimum_kph (f.sub s.commanded_speed_kph tick.step_kph))
            s.maximum_speed_kph
          ≡ true
    unfolding wants_set
    lowered_le tick i target s t h w =
        let tenth : F = f.lit (pos 1) 1 in
        let above : f.lt (f.add tick.minimum_kph tenth) s.commanded_speed_kph ≡ true =
          ground arith in
        let number = (o.refl_of_le s.commanded_speed_kph s.maximum_speed_kph h).0 in
        max_float_le f o tick.minimum_kph (f.sub s.commanded_speed_kph tick.step_kph)
          s.maximum_speed_kph
          (o.le_trans _ _ _
            (o.add_le tick.minimum_kph tenth t.min_refl e.tenth_finite e.tenth_nonneg)
            (o.le_trans _ _ _ (o.le_of_lt _ _ above) h))
          (o.le_trans _ _ _
            (o.sub_le s.commanded_speed_kph tick.step_kph number t.finite_step t.nonneg_step) h)

    choose_button-IsUnder :
        (i : AdaptiveCruiseInput F D) (tick : Tick F) (target : F)
        (s : AdaptiveCruiseController F D)
        → IsTickOf i tick
        → IsUnder s
        → IsUnder (choose_button f d c i tick target s)
    unfolding choose_button
    choose_button-IsUnder i tick target s t h =
        let number = (o.refl_of_le s.commanded_speed_kph s.maximum_speed_kph h).1 in
        elim (Bool-cases (wants_set f d c tick target s && interval_ready f d c i tick s)) [
          | inl w ↦ rw w (lowered_le tick i target s t h (and_true _ _ w).0)
          | inr w ↦
              let raised =
                min_float_le f o s.maximum_speed_kph (f.add s.commanded_speed_kph tick.step_kph)
                  number in
              ground arith
        ]

    pace_buttons-IsUnder :
        (i : AdaptiveCruiseInput F D) (tick : Tick F) (target : F) (active : Bool)
        (s : AdaptiveCruiseController F D)
        → IsTickOf i tick
        → IsUnder s
        → IsUnder (pace_buttons f d c i tick target active s).0
    unfolding pace_buttons begin_pulse
    pace_buttons-IsUnder i tick target active s t h =
        ground (arith, choose_button-IsUnder i tick target s t h)

    first_tick-IsTickOf :
        (i : AdaptiveCruiseInput F D) (s : AdaptiveCruiseController F D)
        → IsTickOf i (first_tick f d c i s)
    unfolding first_tick
    first_tick-IsTickOf i s = record {
      min_refl = e.minimum_refl i.speed_unit_mph;
      finite_step = e.step_finite i.speed_unit_mph;
      nonneg_step = e.step_nonneg i.speed_unit_mph;
      finite_cluster = λ v. (and_true _ _ v).0;
    }

    follow_cluster-IsUnder :
        (i : AdaptiveCruiseInput F D) (tick : Tick F) (s : AdaptiveCruiseController F D)
        → IsUnder s
        → IsUnder (follow_cluster f d i tick s)
    unfolding follow_cluster
    follow_cluster-IsUnder i tick s h = ground arith

    -- The anchor is set only at a steady cluster, whose speed is valid.
    reanchor-IsUnder :
        (i : AdaptiveCruiseInput F D) (tick : Tick F) (s : AdaptiveCruiseController F D)
        → IsTickOf i tick
        → IsUnder s
        → IsUnder (reanchor_after_driver f d i tick s).0
    unfolding reanchor_after_driver
    reanchor-IsUnder i tick s t h =
        let s' = follow_cluster f d i tick s in
        let kept : IsUnder s' = follow_cluster-IsUnder i tick s h in
        elim (Bool-cases tick.cluster_valid) [
          | inl v ↦
              let anchored =
                anchor-IsUnder i (reanchor_after_driver f d i tick s).1 s'
                  (record {
                    min_refl = t.min_refl;
                    finite_step = t.finite_step;
                    nonneg_step = t.nonneg_step;
                    finite_cluster = t.finite_cluster;
                  })
                  v in
              ground arith
          | inr v ↦ ground arith
        ]

    resolve-IsUnder :
        (i : AdaptiveCruiseInput F D) (tick : Tick F) (s : AdaptiveCruiseController F D)
        → IsTickOf i tick
        → IsUnder s
        → IsUnder (resolve_command_mismatch f d i tick s)
    unfolding resolve_command_mismatch
    resolve-IsUnder i tick s t h = elim (Bool-cases tick.cluster_valid) [
      | inl v ↦ ground (arith, correct_estimate-IsUnder i tick s t v h)
      | inr v ↦ ground arith
    ]

    -- The steps change none of the fields that matter here.
    track-IsTickOf :
        (i : AdaptiveCruiseInput F D) (tick : Tick F) (s : AdaptiveCruiseController F D)
        → IsTickOf i tick
        → IsTickOf i (track_driver_adjustment f d i tick s).1
    unfolding track_driver_adjustment
    track-IsTickOf i tick s t = record {
      min_refl = t.min_refl;
      finite_step = t.finite_step;
      nonneg_step = t.nonneg_step;
      finite_cluster = t.finite_cluster;
    }

    reanchor-IsTickOf :
        (i : AdaptiveCruiseInput F D) (tick : Tick F) (s : AdaptiveCruiseController F D)
        → IsTickOf i tick
        → IsTickOf i (reanchor_after_driver f d i tick s).1
    unfolding reanchor_after_driver
    reanchor-IsTickOf i tick s t = record {
      min_refl = t.min_refl;
      finite_step = t.finite_step;
      nonneg_step = t.nonneg_step;
      finite_cluster = t.finite_cluster;
    }

    follow_session-IsUnder :
        (i : AdaptiveCruiseInput F D) (s : AdaptiveCruiseController F D)
        → IsUnder s
        → IsUnder (follow_session f d c i s).0 × IsTickOf i (follow_session f d c i s).1
    unfolding follow_session
    follow_session-IsUnder i s h =
        let tick = first_tick f d c i s in
        let t = first_tick-IsTickOf i s in
        let scaled =
          update_display_scale f d c i (elapsed_s f d c i s)
            (record s { last_update_s = i.now_s }) in
        let torn = teardown_session f d i tick (note_override f d c i scaled) in
        let torn_under = teardown_session-IsUnder i tick (note_override f d c i scaled) (
          note_override-IsUnder i scaled
            (scale-IsUnder i (elapsed_s f d c i s) (record s { last_update_s = i.now_s }) h)) in
        let tracked = track_driver_adjustment f d i tick torn in
        let t' = track-IsTickOf i tick torn t in
        let begun = begin_session_if_ready f d i tracked.1 tracked.0 in
        let begun_under =
          begin_session_if_ready-IsUnder i tracked.1 tracked.0
            (track-IsUnder i tick torn torn_under) in
        let anchored = reanchor_after_driver f d i tracked.1 begun in
        let t'' = reanchor-IsTickOf i tracked.1 begun t' in
        (
          resolve-IsUnder i anchored.1 anchored.0 t''
              (reanchor-IsUnder i tracked.1 begun t' begun_under),
          t'',
        )

    -- One update keeps the estimate under the ceiling.
    pub update-IsUnder :
        (i : AdaptiveCruiseInput F D) (s : AdaptiveCruiseController F D)
        → IsUnder s
        → IsUnder (update f d c i s).0
    unfolding update target_speed
    update-IsUnder i s h =
        let followed = follow_session f d c i s in
        let under = follow_session-IsUnder i s h in
        let aimed = target_speed f d c i followed.1 followed.0 in
        pace_buttons-IsUnder i followed.1 aimed.1
          (i.enabled && (aimed.0.session_valid && i.cruise_active)) aimed.0 under.1
          (update_vision_lead-IsUnder i followed.0 under.0)

    -- If the order of the floats is that of IEEE numbers and the constants of both units of speed are
    -- representable, then the commanded speed stays at most the maximum speed through any updates.
    pub run-IsUnder :
        (inputs : List (AdaptiveCruiseInput F D)) (s : AdaptiveCruiseController F D)
        → IsUnder s
        → IsUnder (run f d c inputs s)
    unfolding run
    run-IsUnder [] s h = h
    run-IsUnder (i ∷ inputs) s h = run-IsUnder inputs (update f d c i s).0 (update-IsUnder i s h)
