-- ===== src/Control/Engage/Gates.antt =====
-- Steering is active only where every gate is open.
use mathlib.Core.Bool.{false≢true}
use supercombo_k.Base.{
  ◌≡◌, refl, sym, ap, ap₂, ◌∙◌, Bool, true, false, not, ◌&&◌, ◌||◌, List, [], ◌∷◌, if◌then◌else◌,
  All, arith, Bool-cases, inl, inr,
}
use supercombo_k.Base.Floats.{Floats}
use supercombo_k.Control.Inputs.{SteeringParams, VehicleCanState, LateralTarget, LateralPath}
use supercombo_k.Control.Block.{BlockReason, block_kind, row_of}
use supercombo_k.Control.Engage.{
  LateralController, Observed, first_block, is_unblocked, gates, active_block_reason, debounce_path,
  update_button_state, update_engagement, same_ℤ, gear_drive,
}

abbrev IsOpen : Bool × BlockReason → Type 0
IsOpen (blocked, _) = blocked ≡ false

abbrev IsBlocking : Bool × BlockReason → Type 0
IsBlocking (blocked, reason) = is_unblocked (block_kind reason) ≡ false

first_block-IsOpen :
    (gs : List (Bool × BlockReason))
    → All IsBlocking gs
    → is_unblocked (block_kind (first_block gs)) ≡ true
    → All IsOpen gs
unfolding first_block
first_block-IsOpen [] h e = tt
first_block-IsOpen ((blocked, reason) ∷ rest) h e = elim (Bool-cases blocked) [
  | inl b ↦ absurd (
      false≢true (
        sym h.0
        ∙ ap (λ x. is_unblocked (block_kind (if x then reason else first_block rest))) (sym b)
        ∙ e))
  | inr b ↦ (
    b,
    first_block-IsOpen rest h.1
        (ap (λ x. is_unblocked (block_kind (if x then reason else first_block rest))) (sym b) ∙ e),
  )
]

not-false : (b : Bool) → not b ≡ false → b ≡ true
not-false b e = ground arith

not_both : (a b : Bool) → (not a && not b) ≡ false → (a || b) ≡ true
not_both a b e = ground arith

neither_fst : (a b : Bool) → (not a || not b) ≡ false → a ≡ true
neither_fst a b e = ground arith

neither_snd : (a b : Bool) → (not a || not b) ≡ false → b ≡ true
neither_snd a b e = ground arith

module _ {F D : Type 0} (f : Floats F) (d : Floats D) where
  debounce_path-keeps :
      (c : LateralController F D) (usable : Bool) (now_s : D)
      → let c' = debounce_path f d c usable now_s in
        (c'.force_engaged ≡ c.force_engaged)
        × (c'.engaged ≡ c.engaged)
        × (c'.steering_params ≡ c.steering_params)
  unfolding debounce_path
  debounce_path-keeps c false now_s = (refl, refl, refl)
  debounce_path-keeps c true now_s = elim (Bool-cases c.path_usable_debounced) [
    | inl e ↦ rw e (refl, refl, refl)
    | inr e ↦ rw e (refl, refl, refl)
  ]

  debounce_path-usable :
      (c : LateralController F D) (usable : Bool) (now_s : D)
      → (debounce_path f d c usable now_s).path_usable_debounced ≡ true
      → usable ≡ true
  unfolding debounce_path
  debounce_path-usable c true now_s e = refl
  debounce_path-usable c false now_s e = e

  -- What holds when steering is active.
  pub record MaySteer (c : LateralController F D) (path : LateralPath F) (target : LateralTarget F)
      (v : VehicleCanState F D) (o : Observed F) : Type 0 where
    pub engaged : (c.force_engaged || c.engaged) ≡ true
    pub enabled : c.steering_params.enabled ≡ true
    pub seeds_ready : o.seeds_ready ≡ true
    pub vehicle_fresh : o.vehicle_fresh ≡ true
    pub speed_finite : f.is_finite o.control_speed_kph ≡ true
    pub door_shut : v.door_open ≡ false
    pub seatbelt_latched : v.seatbelt_unlatched ≡ false
    pub esp_on : v.esp_disabled ≡ false
    pub park_brake_off : v.park_brake ≡ false
    pub brake_works : v.brake_error ≡ false
    pub gear_in_drive : same_ℤ v.gear gear_drive ≡ true
    pub steering_works : v.steering_fault ≡ false
    pub panda_ready : o.panda_ready ≡ true
    pub controls_allowed : o.panda_controls_allowed ≡ true
    pub path_usable : path.usable_for_steering ≡ true
    pub plan_valid : target.valid ≡ true
    pub solution_valid : target.mpc_solution_valid ≡ true

  module _ (g : LateralController F D) (path : LateralPath F) (target : LateralTarget F)
      (v : VehicleCanState F D) (now_s : D) (o : Observed F) where
    gates-IsBlocking : All IsBlocking (gates f d g target v now_s o)
    unfolding gates block_kind row_of
    gates-IsBlocking = (
      refl,
      (
        refl,
        (
          refl,
          (
            refl,
            (
              refl,
              (
                refl,
                (
                  refl,
                  (
                    refl,
                    (
                      refl,
                      (
                        refl,
                        (
                          refl,
                          (
                            refl,
                            (
                              refl,
                              (refl, (refl, (refl, (refl, (refl, (refl, (refl, (refl, tt)))))))),
                            ),
                          ),
                        ),
                      ),
                    ),
                  ),
                ),
              ),
            ),
          ),
        ),
      ),
    )

    gates-MaySteer :
        All IsOpen (gates f d g target v now_s o)
        → (g.path_usable_debounced ≡ true → path.usable_for_steering ≡ true)
        → MaySteer g path target v o
    unfolding gates
    gates-MaySteer
          (
            g0,
            (
              g1,
              (
                g2,
                (
                  g3,
                  (
                    g4,
                    (
                      g5,
                      (
                        g6,
                        (
                          g7,
                          (
                            g8,
                            (
                              g9,
                              (
                                g10,
                                (
                                  g11,
                                  (
                                    g12,
                                    (g13, (g14, (g15, (g16, (g17, (g18, (g19, (g20, rest)))))))),
                                  ),
                                ),
                              ),
                            ),
                          ),
                        ),
                      ),
                    ),
                  ),
                ),
              ),
            ),
          )
          usable =
        record {
          engaged = not_both g.force_engaged g.engaged g0;
          enabled = not-false g.steering_params.enabled g1;
          seeds_ready = not-false o.seeds_ready g2;
          vehicle_fresh = not-false o.vehicle_fresh g3;
          speed_finite = not-false (f.is_finite o.control_speed_kph) g4;
          door_shut = g5;
          seatbelt_latched = g6;
          esp_on = g7;
          park_brake_off = g8;
          brake_works = g9;
          gear_in_drive = not-false (same_ℤ v.gear gear_drive) g10;
          steering_works = g11;
          panda_ready = not-false o.panda_ready g13;
          controls_allowed = not-false o.panda_controls_allowed g14;
          path_usable = usable (not-false g.path_usable_debounced g18);
          plan_valid = neither_fst target.valid target.mpc_solution_valid g19;
          solution_valid = neither_snd target.valid target.mpc_solution_valid g19;
        }

    unblocked-MaySteer :
        is_unblocked (block_kind (active_block_reason f d g target v now_s o)) ≡ true
        → (g.path_usable_debounced ≡ true → path.usable_for_steering ≡ true)
        → MaySteer g path target v o
    unfolding active_block_reason
    unblocked-MaySteer e =
        gates-MaySteer (first_block-IsOpen (gates f d g target v now_s o) gates-IsBlocking e)

    -- The debounced path does not change who is engaged.
    MaySteer-keeps :
        (p : LateralController F D)
        → (g.force_engaged ≡ p.force_engaged)
          × (g.engaged ≡ p.engaged)
          × (g.steering_params ≡ p.steering_params)
        → MaySteer g path target v o
        → MaySteer p path target v o
    MaySteer-keeps p (force_kept, engaged_kept, params_kept) m = record {
      engaged = ap₂ ◌||◌ (sym force_kept) (sym engaged_kept) ∙ m.engaged;
      enabled = ap (λ (q : SteeringParams F). q.enabled) (sym params_kept) ∙ m.enabled;
      seeds_ready = m.seeds_ready;
      vehicle_fresh = m.vehicle_fresh;
      speed_finite = m.speed_finite;
      door_shut = m.door_shut;
      seatbelt_latched = m.seatbelt_latched;
      esp_on = m.esp_on;
      park_brake_off = m.park_brake_off;
      brake_works = m.brake_works;
      gear_in_drive = m.gear_in_drive;
      steering_works = m.steering_works;
      panda_ready = m.panda_ready;
      controls_allowed = m.controls_allowed;
      path_usable = m.path_usable;
      plan_valid = m.plan_valid;
      solution_valid = m.solution_valid;
    }

  -- If `update` reports that steering is active, then the driver has engaged it with the buttons of
  -- this frame counted in, or it is forced, and every gate is open.
  pub active-MaySteer :
      (c : LateralController F D) (path : LateralPath F) (target : LateralTarget F)
      (v : VehicleCanState F D) (now_s : D) (o : Observed F)
      → (update_engagement f d c path target v now_s o).active ≡ true
      → MaySteer (update_button_state f d c v.clu_button now_s) path target v o
  unfolding update_engagement
  active-MaySteer c path target v now_s o e =
      let pressed = update_button_state f d c v.clu_button now_s in
      let gated = debounce_path f d pressed path.usable_for_steering now_s in
      MaySteer-keeps gated path target v now_s o pressed
        (debounce_path-keeps pressed path.usable_for_steering now_s)
        (unblocked-MaySteer gated path target v now_s o e
          (debounce_path-usable pressed path.usable_for_steering now_s))
