-- ===== src/Vehicle/Speed.antt =====
-- The speed that the controller takes from the wheels.
use mathlib.Core.Bool.{false≢true}
use supercombo_k.Base.{
  ◌≡◌, refl, sym, ◌∙◌, Bool, true, false, ◌&&◌, List, [], ◌∷◌, All, arith, and_true, if◌then◌else◌,
}
use supercombo_k.Base.Int.{pos}
use supercombo_k.Base.Floats.{Floats}
use supercombo_k.Control.Inputs.{VehicleCanState}
use supercombo_k.Control.Engage.{signal_time_fresh}
use supercombo_k.Vehicle.Read.{vehicle_speed_kph, sum_wheels}

module _ {F D : Type 0} (f : Floats F) (d : Floats D) where
  abbrev pub wheels : VehicleCanState F D → List F
  wheels s =
      s.wheel_speed_fl_kph ∷ s.wheel_speed_fr_kph ∷ s.wheel_speed_rl_kph ∷ s.wheel_speed_rr_kph ∷ []

  -- A speed that a wheel can have.
  abbrev pub IsSpeed : F → Type 0
  IsSpeed v = (f.is_finite v ≡ true) × (f.le (f.lit (pos 0) 1) v ≡ true)

  sum_wheels-IsSpeed :
      (vs : List F) (valid : Bool) (sum : F)
      → (sum_wheels f d vs (valid, sum)).0 ≡ true
      → (valid ≡ true) × All IsSpeed vs
  unfolding sum_wheels
  sum_wheels-IsSpeed [] valid sum h = (h, tt)
  sum_wheels-IsSpeed (v ∷ vs) valid sum h = let rest = sum_wheels-IsSpeed vs _ _ h in ground arith

  finite_if :
      (b : Bool) (v : F)
      → f.is_finite f.nan ≡ false
      → f.is_finite (if b then v else f.nan) ≡ true
      → b ≡ true
  finite_if true v n h = refl
  finite_if false v n h = absurd (false≢true (sym n ∙ h))

  -- If NaN is not finite, then the speed of the vehicle is finite only if the speeds of the wheels are
  -- fresh and each of them is finite and not negative.
  pub vehicle_speed_kph-IsSpeed :
      (s : VehicleCanState F D) (now_s timeout_s : D)
      → f.is_finite f.nan ≡ false
      → f.is_finite (vehicle_speed_kph f d s now_s timeout_s) ≡ true
      → (signal_time_fresh f d s.whl_spd11_time_s now_s timeout_s ≡ true) × All IsSpeed (wheels s)
  unfolding vehicle_speed_kph
  vehicle_speed_kph-IsSpeed s now_s timeout_s n h =
      let (valid, sum) = sum_wheels f d (wheels s) (true, f.lit (pos 0) 1) in
      let fresh = signal_time_fresh f d s.whl_spd11_time_s now_s timeout_s in
      let both = and_true fresh valid (finite_if (fresh && valid) _ n h) in
      (both.0, (sum_wheels-IsSpeed (wheels s) true (f.lit (pos 0) 1) both.1).1)
