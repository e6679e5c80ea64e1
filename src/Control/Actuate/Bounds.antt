-- ===== src/Control/Actuate/Bounds.antt =====
-- The torque that is sent keeps its bounds through whole updates.
use mathlib.Core.Path.{subst}
use mathlib.Core.Bool.{true≢false, false≢true}
use supercombo_k.Base.{◌≡◌, refl, ◌∙◌, inl, inr, Bool, true, false, arith}
use supercombo_k.Base.Int.{ℤ, pos, ◌≤ℤ◌, neg_ℤ, neg_ℤ_parts}
use supercombo_k.Base.Floats.{Floats}
use supercombo_k.Hyundai.Torque.{HyundaiSteeringLimits}
use supercombo_k.Hyundai.Torque.Limits.{
  IsSane, IsLimited, apply_hyundai_steer_torque_limits-IsLimited,
}
use supercombo_k.Control.Inputs.{LateralPath, LateralTarget, VehicleCanState}
use supercombo_k.Control.Engage.{LateralController, Observed, update_engagement}
use supercombo_k.Control.Engage.Kept.{IsTorqueKept, update_engagement-IsTorqueKept}
use supercombo_k.Control.Steer.{
  count_angle, switch_cut, update_cut_steer_state, update_steering_pressed,
  update_driver_steering_guard,
}
use supercombo_k.Control.Actuate.{hyundai_limits, actuate, keep_torque, finish_update, update}

module _ {F D : Type 0} (f : Floats F) (d : Floats D) where
  abbrev pub limits : LateralController F D → HyundaiSteeringLimits
  limits c = hyundai_limits c.steering_params

  -- The limits are not negative, and the last torque is within plus and minus the largest.
  pub record IsHeld (c : LateralController F D) : Type 0 where
    pub sane : IsSane (limits c)
    pub below_max : c.last_torque ≤ℤ c.steering_params.steer_max
    pub above_min : neg_ℤ c.steering_params.steer_max ≤ℤ c.last_torque

  -- What holds of a torque: within the bounds of a change from the last one, and 0 if not active.
  pub record IsActuated (l : HyundaiSteeringLimits) (last driver : ℤ) (active : Bool) (r : ℤ)
      : Type 0 where
    pub limited : active ≡ true → IsLimited l last driver r
    pub released : active ≡ false → r ≡ pos 0

  abbrev IsSame : LateralController F D → LateralController F D → Type 0
  IsSame c c' = (c'.steering_params ≡ c.steering_params) × (c'.last_torque ≡ c.last_torque)

  cut-IsSame :
      (active : Bool) (v : VehicleCanState F D) (c : LateralController F D)
      → IsSame c (update_cut_steer_state f active v c).0
  unfolding update_cut_steer_state switch_cut count_angle
  cut-IsSame active v c = ground arith

  pressed-IsSame :
      (driver_torque : ℤ) (c : LateralController F D)
      → IsSame c (update_steering_pressed f driver_torque c).0
  unfolding update_steering_pressed
  pressed-IsSame driver_torque c = (refl, refl)

  same-IsHeld : (c c' : LateralController F D) → IsSame c c' → IsHeld c → IsHeld c'
  same-IsHeld c c' (p, t) h = record {
    sane = rw p h.sane;
    below_max = rw (p, t) h.below_max;
    above_min = rw (p, t) h.above_min;
  }

  actuate-IsActuated :
      (active : Bool) (v : VehicleCanState F D) (raw_torque : ℤ) (c : LateralController F D)
      → IsHeld c
      → IsActuated
          (limits c)
          c.last_torque
          v.driver_torque
          active
          (actuate f d active v raw_torque c).apply_torque
  unfolding actuate hyundai_limits
  actuate-IsActuated true v raw_torque c h = record {
    limited = λ e.
        apply_hyundai_steer_torque_limits-IsLimited (limits c) _ c.last_torque v.driver_torque
          h.sane h.below_max h.above_min;
    released = λ e. absurd (true≢false e);
  }
  actuate-IsActuated false v raw_torque c h = record {
    limited = λ e. absurd (false≢true e);
    released = λ e. refl;
  }

  -- A torque that keeps the bounds is one that the next update can start from.
  actuated_within :
      (active : Bool) (c : LateralController F D) (driver r : ℤ)
      → IsHeld c
      → IsActuated (limits c) c.last_torque driver active r
      → (r ≤ℤ c.steering_params.steer_max) × (neg_ℤ c.steering_params.steer_max ≤ℤ r)
  unfolding hyundai_limits
  actuated_within true c driver r h a = let l = a.limited refl in (l.below_max, l.above_min)
  actuated_within false c driver r h a =
      rw (a.released refl) (
        h.sane.max_nonneg,
        omega (arith, neg_ℤ_parts c.steering_params.steer_max, h.sane.max_nonneg),
      )

  engaged-IsHeld : (c c' : LateralController F D) → IsTorqueKept f d c c' → IsHeld c → IsHeld c'
  unfolding hyundai_limits
  engaged-IsHeld c c' k h = elim k.torque [
    | inl e ↦ same-IsHeld c c' (k.same_params, e) h
    | inr e ↦ record {
      sane = rw k.same_params h.sane;
      below_max = rw (k.same_params, e) h.sane.max_nonneg;
      above_min =
          rw (k.same_params, e)
            (omega (arith, neg_ℤ_parts c.steering_params.steer_max, h.sane.max_nonneg));
    }
  ]

  kept-IsHeld :
      (active : Bool) (v : VehicleCanState F D) (raw_torque : ℤ) (c : LateralController F D)
      → IsHeld c
      → let a = actuate f d active v raw_torque c in
        IsHeld (update_driver_steering_guard f v (keep_torque f d active a))
  unfolding keep_torque update_driver_steering_guard actuate hyundai_limits
  kept-IsHeld true v raw_torque c h =
      let within =
        actuated_within true c v.driver_torque _ h (actuate-IsActuated true v raw_torque c h) in
      record { sane = h.sane; below_max = within.0; above_min = within.1 }
  kept-IsHeld false v raw_torque c h = record {
    sane = h.sane;
    below_max = h.sane.max_nonneg;
    above_min = omega (arith, neg_ℤ_parts c.steering_params.steer_max, h.sane.max_nonneg);
  }

  IsActuated-congr :
      {last last' driver r : ℤ} {active : Bool} (c c' : LateralController F D)
      → c'.steering_params ≡ c.steering_params
      → last' ≡ last
      → IsActuated (limits c') last' driver active r
      → IsActuated (limits c) last driver active r
  IsActuated-congr {last} {last'} {driver} {r} {active} c c' p t a =
      subst (λ x. IsActuated (hyundai_limits x) last driver active r) p
        (subst (λ x. IsActuated (limits c') x driver active r) t a)

  -- If the limits are not negative and the last torque is within plus and minus steer_max, then after
  -- an update this is so again, whatever was pressed, seen or computed; the torque that is sent is 0
  -- unless the steering is active, and then it is limited against the torque that the decision on the
  -- engagement has left.
  pub update-IsHeld :
      (zero_release : Bool) (path : LateralPath F) (target : LateralTarget F)
      (v : VehicleCanState F D) (now_s : D) (raw_torque : ℤ) (o : Observed F)
      (c : LateralController F D)
      → IsHeld c
      → let r = update f d zero_release path target v now_s raw_torque o c in
        IsHeld r.controller
        × IsActuated
            (limits c)
            r.engagement.controller.last_torque
            v.driver_torque
            r.engagement.active
            r.apply_torque
  unfolding update finish_update
  update-IsHeld zero_release path target v now_s raw_torque o c h =
      let e = update_engagement f d c path target v now_s o in
      let kept = update_engagement-IsTorqueKept f d c path target v now_s o in
      let h1 = engaged-IsHeld c e.controller kept h in
      let cut = update_cut_steer_state f e.active v e.controller in
      let cut_same = cut-IsSame e.active v e.controller in
      let held = update_steering_pressed f v.driver_torque cut.0 in
      let held_same = pressed-IsSame v.driver_torque cut.0 in
      let same : IsSame e.controller held.0 =
        (held_same.0 ∙ cut_same.0, held_same.1 ∙ cut_same.1) in
      let h2 = same-IsHeld e.controller held.0 same h1 in
      let a = actuate-IsActuated e.active v raw_torque held.0 h2 in
      let torque = actuate f d e.active v raw_torque held.0 in
      (
        kept-IsHeld e.active v raw_torque held.0 h2,
        IsActuated-congr c held.0 (same.0 ∙ kept.same_params) same.1 a,
      )
