-- ===== src/Hyundai/Torque/Release.antt =====
-- Letting go of the wheel: with a desired torque of zero the applied torque goes to zero and stays.
use supercombo_k.Base.{
  ℕ, zero, suc, ◌+◌, ◌-◌, ◌*◌, ◌≤◌, ◌≡◌, ap, List, [], ◌∷◌, arith, length, lt→ltb, le→ltb_false,
}
use supercombo_k.Base.Int.{ℤ, pos, negsuc, neg_ℤ, eq_of_parts, pos_part, neg_part}
use supercombo_k.Hyundai.Torque.{
  HyundaiSteeringLimits, clamp_int, rate_limit, apply_hyundai_steer_torque_limits,
}
use supercombo_k.Hyundai.Torque.Limits.{IsSane, steer_allowed_bounds, order_laws}

-- The controller asks for zero on every tick, while the driver's torque takes the values in the list.
pub release : HyundaiSteeringLimits → ℤ → List ℤ → ℤ
release l torque [] = torque
release l torque (driver ∷ rest) =
    release l (apply_hyundai_steer_torque_limits (pos 0) torque driver l) rest

-- A step of `down` towards zero.
abbrev towards_zero : ℕ → ℤ → ℤ
towards_zero down (pos t) = pos (t - down)
towards_zero down (negsuc t) = neg_ℤ (pos (suc t - down))

abbrev magnitude : ℤ → ℕ
magnitude a = pos_part a + neg_part a

magnitude-towards_zero : (down : ℕ) (t : ℤ) → magnitude (towards_zero down t) ≡ magnitude t - down
unfolding neg_ℤ
magnitude-towards_zero down (pos t) = omega arith
magnitude-towards_zero down (negsuc t) = ground arith

magnitude_zero : (t : ℤ) → magnitude t ≤ 0 → t ≡ pos 0
magnitude_zero t h = ground arith

module _ (l : HyundaiSteeringLimits) (down : ℕ) (s : IsSane l)
    (e : l.steer_delta_down ≡ pos down) where
  apply-zero :
      (torque driver : ℤ)
      → apply_hyundai_steer_torque_limits (pos 0) torque driver l ≡ towards_zero down torque
  unfolding apply_hyundai_steer_torque_limits clamp_int rate_limit
  apply-zero (pos zero) driver =
      eq_of_parts _ _
        (omega (order_laws, steer_allowed_bounds l driver s, ap pos_part e, ap neg_part e))
  apply-zero (pos (suc t)) driver = eq_of_parts _ _ (
      rw (lt→ltb (0 + 0) (suc t + 0) (omega arith))
        (omega (order_laws, steer_allowed_bounds l driver s, ap pos_part e, ap neg_part e)))
  apply-zero (negsuc t) driver = eq_of_parts _ _ (
      rw (le→ltb_false (0 + suc t) (0 + 0) (omega arith))
        (omega (order_laws, steer_allowed_bounds l driver s, ap pos_part e, ap neg_part e)))

  -- Whatever the driver does, n ticks with n * steer_delta_down at least the torque bring it to zero.
  pub release-eq-zero :
      (torque : ℤ) (drivers : List ℤ)
      → pos_part torque + neg_part torque ≤ length drivers * down
      → release l torque drivers ≡ pos 0
  unfolding release
  release-eq-zero torque [] h = magnitude_zero torque (omega arith)
  release-eq-zero torque (driver ∷ rest) h = rw (apply-zero torque driver) (
      release-eq-zero (towards_zero down torque) rest
        (grind (arith, magnitude-towards_zero down torque)))
