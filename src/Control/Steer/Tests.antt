-- ===== src/Control/Steer/Tests.antt =====
-- A cut of two frames comes to its end.
use supercombo_k.Base.{◌≡◌, refl, Bool, true, false, List, [], ◌∷◌, inl, arith}
use supercombo_k.Base.Int.{ℤ, pos}
use supercombo_k.Control.Inputs.{VehicleCanState}
use supercombo_k.Control.Engage.{LateralController}
use supercombo_k.Control.Engage.Scene.{fixed, ready_car, at_rest}
use supercombo_k.Control.Steer.Cut.{IsCalm, run_cut, run_cut-ends}

abbrev cutting : LateralController ℤ ℤ
cutting = record at_rest {
  cut_steer = true;
  cut_steer_frames = 0;
  steering_params = record at_rest.steering_params { avoid_lkas_fault_max_angle_deg = pos 85000 };
}

abbrev straight_on : List (Bool × VehicleCanState ℤ ℤ)
straight_on = (true, ready_car) ∷ (true, ready_car) ∷ (true, ready_car) ∷ []

straight_on-IsCalm : IsCalm fixed cutting.steering_params true ready_car
straight_on-IsCalm = inl (refl, omega arith, refl)

run_cut-ends_example :
    ((run_cut fixed straight_on (cutting, true)).1 ≡ false)
    × ((run_cut fixed straight_on (cutting, true)).0.cut_steer ≡ false)
run_cut-ends_example =
    run_cut-ends fixed straight_on cutting true 2
      (straight_on-IsCalm, (straight_on-IsCalm, (straight_on-IsCalm, tt))) (omega arith)
      (omega arith) (omega arith)
