-- ===== src/Control/Actuate/Curvature.antt =====
-- The curvature that is asked for stays within its limit.
use supercombo_k.Base.{◌≡◌, true, not, ◌||◌, Bool-cases, inl, inr}
use supercombo_k.Base.Floats.{Floats, IsOrdered, clamp_float}
use supercombo_k.Control.Actuate.{clip_curvature, max_curvature}

module _ {F : Type 0} (f : Floats F) (o : IsOrdered f) where
  -- Within plus and minus the largest curvature.
  pub record IsBounded (k : F) : Type 0 where
    pub above_min : f.le (f.neg (max_curvature f)) k ≡ true
    pub below_max : f.le k (max_curvature f) ≡ true

  clamp_float_between :
      (value lo hi : F)
      → f.le lo hi ≡ true
      → (f.le lo (clamp_float f value lo hi) ≡ true) × (f.le (clamp_float f value lo hi) hi ≡ true)
  unfolding clamp_float
  clamp_float_between value lo hi h =
      let (lo_refl, hi_refl) = o.refl_of_le lo hi h in
      elim (Bool-cases (f.is_finite value)) [
        | inr e ↦ rw e (lo_refl, h)
        | inl e ↦
            let number = o.finite_refl value e in
            elim (Bool-cases (f.lt value lo)) [
              | inl low ↦ elim (Bool-cases (f.lt hi lo)) [
                | inl p ↦ rw (e, low, p) (h, hi_refl)
                | inr p ↦ rw (e, low, p) (lo_refl, h)
              ]
              | inr high ↦ elim (Bool-cases (f.lt hi value)) [
                | inl p ↦ rw (e, high, p) (h, hi_refl)
                | inr p ↦
                    rw (e, high, p)
                      (
                        o.le_of_not_lt value lo number lo_refl high,
                        o.le_of_not_lt hi value hi_refl number p,
                      )
              ]
            ]
      ]

  -- If the order of the floats is that of IEEE numbers and minus the largest curvature is at most it,
  -- then the clipped curvature is within plus and minus the largest one whenever the curvature before
  -- it was, whatever the speed, the requested curvature and the roll, NaN included.
  pub clip_curvature-IsBounded :
      (speed_mps prev_curvature new_curvature roll_rad : F)
      → f.le (f.neg (max_curvature f)) (max_curvature f) ≡ true
      → IsBounded prev_curvature
      → IsBounded (clip_curvature f speed_mps prev_curvature new_curvature roll_rad)
  unfolding clip_curvature
  clip_curvature-IsBounded speed_mps prev_curvature new_curvature roll_rad h b =
      elim (Bool-cases (not (f.is_finite speed_mps) || not (f.is_finite new_curvature))) [
        | inl e ↦ rw e b
        | inr e ↦
            let between = clamp_float_between _ (f.neg (max_curvature f)) (max_curvature f) h in
            rw e (record { above_min = between.0; below_max = between.1 })
      ]
