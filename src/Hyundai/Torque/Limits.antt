-- ===== src/Hyundai/Torque/Limits.antt =====
-- The bounds that the limited torque keeps.
use supercombo_k.Base.{
  ℕ, ◌+◌, ◌≤◌, ◌≡◌, arith, if◌then◌else◌, Bool-cases, inl, inr, ◌⊎◌, lt→ltb, le→ltb_false, ltb→lt,
  ltb_false→le,
}
use supercombo_k.Base.Int.{
  ℤ, pos, negsuc, ◌+ℤ◌, ◌-ℤ◌, neg_ℤ, min_ℤ, max_ℤ, ltb_ℤ, ◌≤ℤ◌, ◌<ℤ◌, +ℤ_parts, -ℤ_parts,
  neg_ℤ_parts, eq_of_parts,
}
use supercombo_k.Hyundai.Torque.{
  HyundaiSteeringLimits, clamp_int, max_steer_allowed, min_steer_allowed, rate_limit,
  apply_hyundai_steer_torque_limits,
}

-- The minimum and the maximum, as facts that `omega` reads.
abbrev IsMin : ℤ → ℤ → ℤ → Type 0
IsMin m a b = (m ≤ℤ a) × (m ≤ℤ b) × ((a ≤ℤ m) ⊎ (b ≤ℤ m))

abbrev IsMax : ℤ → ℤ → ℤ → Type 0
IsMax m a b = (a ≤ℤ m) × (b ≤ℤ m) × ((m ≤ℤ a) ⊎ (m ≤ℤ b))

pub min_ℤ-IsMin : (a b : ℤ) → IsMin (min_ℤ a b) a b
unfolding min_ℤ
min_ℤ-IsMin a b = ground arith

pub max_ℤ-IsMax : (a b : ℤ) → IsMax (max_ℤ a b) a b
unfolding max_ℤ
max_ℤ-IsMax a b = ground arith

-- What the function relies on of its parameters.
pub record IsSane (l : HyundaiSteeringLimits) : Type 0 where
  pub max_nonneg : pos 0 ≤ℤ l.steer_max
  pub up_nonneg : pos 0 ≤ℤ l.steer_delta_up
  pub down_nonneg : pos 0 ≤ℤ l.steer_delta_down

-- The bounds on a torque `r` that follows `last`, with the driver's hand at `driver`.
pub record IsLimited (l : HyundaiSteeringLimits) (last driver r : ℤ) : Type 0 where
  pub below_max : r ≤ℤ l.steer_max
  pub above_min : neg_ℤ l.steer_max ≤ℤ r
  pub rises : r ≤ℤ max_ℤ last (pos 0) +ℤ l.steer_delta_up
  pub falls : min_ℤ last (pos 0) -ℤ l.steer_delta_up ≤ℤ r
  pub yields_high : r ≤ℤ max_ℤ (last -ℤ l.steer_delta_down) (max_steer_allowed l driver)
  pub yields_low : min_ℤ (last +ℤ l.steer_delta_down) (min_steer_allowed l driver) ≤ℤ r

pub ruleset order_laws = (arith, min_ℤ-IsMin, max_ℤ-IsMax, +ℤ_parts, -ℤ_parts, neg_ℤ_parts)

-- The driver's limits: a window around zero, inside the steering limits.
pub steer_allowed_bounds :
    (l : HyundaiSteeringLimits) (driver : ℤ)
    → IsSane l
    → (pos 0 ≤ℤ max_steer_allowed l driver)
      × (max_steer_allowed l driver ≤ℤ l.steer_max)
      × (min_steer_allowed l driver ≤ℤ pos 0)
      × (neg_ℤ l.steer_max ≤ℤ min_steer_allowed l driver)
unfolding max_steer_allowed min_steer_allowed
steer_allowed_bounds l driver s = omega order_laws

module _ (l : HyundaiSteeringLimits) (last driver x : ℤ) (s : IsSane l)
    (high : x ≤ℤ max_steer_allowed l driver) (low : min_steer_allowed l driver ≤ℤ x)
    (last_high : last ≤ℤ l.steer_max) (last_low : neg_ℤ l.steer_max ≤ℤ last) where
  rate_limit_pos : pos 0 <ℤ last → IsLimited l last driver (rate_limit l last x)
  unfolding rate_limit clamp_int
  rate_limit_pos up = rw (lt→ltb _ _ up) (omega (order_laws, steer_allowed_bounds l driver s))

  rate_limit_neg : last ≤ℤ pos 0 → IsLimited l last driver (rate_limit l last x)
  unfolding rate_limit clamp_int
  rate_limit_neg down =
      rw (le→ltb_false _ _ down) (omega (order_laws, steer_allowed_bounds l driver s))

  rate_limit-IsLimited : IsLimited l last driver (rate_limit l last x)
  rate_limit-IsLimited = elim (Bool-cases (ltb_ℤ (pos 0) last)) [
    | inl e ↦ rate_limit_pos (ltb→lt _ _ e)
    | inr e ↦ rate_limit_neg (ltb_false→le _ _ e)
  ]

-- The limited torque stays within ±steer_max, moves away from zero by at most steer_delta_up, and
-- exceeds what the driver's torque allows only while it falls by steer_delta_down.
pub apply_hyundai_steer_torque_limits-IsLimited :
    (l : HyundaiSteeringLimits) (desired last driver : ℤ)
    → IsSane l
    → last ≤ℤ l.steer_max
    → neg_ℤ l.steer_max ≤ℤ last
    → IsLimited l last driver (apply_hyundai_steer_torque_limits desired last driver l)
unfolding apply_hyundai_steer_torque_limits clamp_int
apply_hyundai_steer_torque_limits-IsLimited l desired last driver s last_high last_low =
    rate_limit-IsLimited l last driver _ s (omega (order_laws, steer_allowed_bounds l driver s))
      (omega (order_laws, steer_allowed_bounds l driver s)) last_high last_low
