-- ===== src/Control/Actuate/Tests.antt =====
-- The car of the scene, which asks for a torque of 100.
use supercombo_k.Base.{◌≡◌, refl, true, arith}
use supercombo_k.Base.Int.{pos, ◌*ℤ◌, neg_ℤ}
use supercombo_k.Control.Engage.Scene.{fixed, fixed-IsOrdered, at_rest, road, plan, ready_car, seen}
use supercombo_k.Control.Actuate.{hyundai_limits, clip_curvature, max_curvature, update}
use supercombo_k.Control.Actuate.Curvature.{IsBounded, clip_curvature-IsBounded}
use supercombo_k.Control.Actuate.Bounds.{limits, IsHeld, IsActuated, update-IsHeld}

at_rest-IsHeld : IsHeld fixed fixed at_rest
unfolding hyundai_limits neg_ℤ
at_rest-IsHeld = record {
  sane = record { max_nonneg = omega arith; up_nonneg = omega arith; down_nonneg = omega arith };
  below_max = omega arith;
  above_min = omega arith;
}

update-IsHeld_example :
    let r = update fixed fixed true road plan ready_car (pos 1000) (pos 100) seen at_rest in
    IsHeld fixed fixed r.controller
    × IsActuated fixed fixed
        (limits fixed fixed at_rest)
        r.engagement.controller.last_torque
        ready_car.driver_torque
        r.engagement.active
        r.apply_torque
update-IsHeld_example =
    update-IsHeld fixed fixed true road plan ready_car (pos 1000) (pos 100) seen at_rest
      at_rest-IsHeld

symmetric : fixed.le (fixed.neg (max_curvature fixed)) (max_curvature fixed) ≡ true
unfolding neg_ℤ ◌*ℤ◌
symmetric = refl

straight-IsBounded : IsBounded fixed fixed-IsOrdered (pos 0)
unfolding neg_ℤ ◌*ℤ◌
straight-IsBounded = record { above_min = refl; below_max = refl }

clip_curvature-IsBounded_example :
    IsBounded fixed fixed-IsOrdered (clip_curvature fixed (pos 20000) (pos 0) (pos 500) (pos 0))
clip_curvature-IsBounded_example =
    clip_curvature-IsBounded fixed fixed-IsOrdered (pos 20000) (pos 0) (pos 500) (pos 0) symmetric
      straight-IsBounded
