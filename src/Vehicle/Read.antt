-- ===== src/Vehicle/Read.antt =====
-- What the controller asks of the vehicle's state: whether it is fresh, and its speeds.
use supercombo_k.Base.{Bool, true, ◌&&◌, List, [], ◌∷◌, if◌then◌else◌}
use supercombo_k.Base.Int.{pos}
use supercombo_k.Base.Floats.{Floats}
use supercombo_k.Control.Inputs.{VehicleCanState}
use supercombo_k.Control.Engage.{signal_time_fresh}
use supercombo_k.Vehicle.Estimate.{cluster_speed_to_kph}

pub seed_frames_ready : {F D : Type 0} → VehicleCanState F D → Bool
seed_frames_ready state = state.has_lkas11_seed && (state.has_clu11_seed && state.has_mdps12_seed)

module _ {F D : Type 0} (f : Floats F) (d : Floats D) where
  unfoldable pub vehicle_state_fresh : VehicleCanState F D → D → D → Bool
  vehicle_state_fresh state now_s timeout_s =
      signal_time_fresh f d state.lkas11_time_s now_s timeout_s
      && signal_time_fresh f d state.clu11_time_s now_s timeout_s
      && signal_time_fresh f d state.sas11_time_s now_s timeout_s
      && signal_time_fresh f d state.mdps12_time_s now_s timeout_s
      && signal_time_fresh f d state.tcs13_time_s now_s timeout_s
      && signal_time_fresh f d state.tcs15_time_s now_s timeout_s
      && signal_time_fresh f d state.e_ems11_time_s now_s timeout_s
      && signal_time_fresh f d state.elect_gear_time_s now_s timeout_s
      && signal_time_fresh f d state.cgw1_time_s now_s timeout_s
      && signal_time_fresh f d state.cgw2_time_s now_s timeout_s
      && signal_time_fresh f d state.whl_spd11_time_s now_s timeout_s

  pub tpms_state_fresh : VehicleCanState F D → D → D → Bool
  tpms_state_fresh state now_s timeout_s = signal_time_fresh f d state.tpms11_time_s now_s timeout_s

  pub cruise_set_speed_kph : VehicleCanState F D → F
  cruise_set_speed_kph state =
      if f.lt (f.lit (pos 0) 1) state.cruise_set_speed_raw
        && f.lt state.cruise_set_speed_raw (f.lit (pos 2550) 1)
      then cluster_speed_to_kph f state.cruise_set_speed_raw state.speed_unit_mph
      else if state.estimated_cruise_set_speed_valid
      then state.estimated_cruise_set_speed_kph
      else f.lit (pos 0) 1

  -- One round of the loop: whether the speeds are valid, and their sum.
  abbrev add_wheel : Bool × F → F → Bool × F
  add_wheel (valid, sum) speed_kph =
      (valid && f.is_finite speed_kph && f.le (f.lit (pos 0) 1) speed_kph, f.add sum speed_kph)

  unfoldable pub sum_wheels : List F → Bool × F → Bool × F
  sum_wheels [] so_far = so_far
  sum_wheels (speed_kph ∷ rest) so_far = sum_wheels rest (add_wheel so_far speed_kph)

  unfoldable pub vehicle_speed_kph : VehicleCanState F D → D → D → F
  vehicle_speed_kph state now_s timeout_s =
      let (valid, sum) =
        sum_wheels
          (state.wheel_speed_fl_kph ∷ state.wheel_speed_fr_kph ∷ state.wheel_speed_rl_kph
            ∷ state.wheel_speed_rr_kph ∷ [])
          (true, f.lit (pos 0) 1) in
      if signal_time_fresh f d state.whl_spd11_time_s now_s timeout_s && valid
      then f.mul sum (f.lit (pos 25) 2)
      else f.nan
