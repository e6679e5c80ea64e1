-- ===== src/Vehicle/Estimate.antt =====
-- The state of the fixed-speed cruise, which the car does not report: an estimate from the buttons.
use supercombo_k.Base.{Bool, true, false, not, ◌&&◌, if◌then◌else◌}
use supercombo_k.Base.Int.{ℤ, pos}
use supercombo_k.Base.Floats.{Floats, max_float}
use supercombo_k.Control.Inputs.{VehicleCanState}
use supercombo_k.Control.Engage.{same_ℤ}
use supercombo_k.Hyundai.Clu11.{HyundaiClu11Values}

abbrev pub cruise_button_resume : ℤ
cruise_button_resume = pos 1

abbrev pub cruise_button_set : ℤ
cruise_button_set = pos 2

abbrev pub cruise_button_cancel : ℤ
cruise_button_cancel = pos 4

abbrev pub is_zero : ℤ → Bool
is_zero v = same_ℤ v (pos 0)

module _ {F : Type 0} (f : Floats F) where
  abbrev pub mph_to_kph : F
  mph_to_kph = f.lit (pos 1609344) 6

  -- 1.0f or the factor of mph.
  abbrev unit_kph : Bool → F
  unit_kph unit_mph = if unit_mph then mph_to_kph else f.lit (pos 10) 1

  unfoldable pub cluster_speed_to_kph : F → Bool → F
  cluster_speed_to_kph speed unit_mph = f.mul speed (unit_kph unit_mph)

  pub current_cluster_speed_kph : HyundaiClu11Values F → F
  current_cluster_speed_kph clu =
      cluster_speed_to_kph (f.round (f.add clu.speed clu.speed_decimal)) clu.speed_unit_mph

  abbrev pub step_kph : HyundaiClu11Values F → F
  step_kph clu = f.mul (f.lit (pos 20) 1) (unit_kph clu.speed_unit_mph)

  abbrev pub minimum_kph : HyundaiClu11Values F → F
  minimum_kph clu =
      f.mul (if clu.speed_unit_mph then f.lit (pos 200) 1 else f.lit (pos 300) 1)
        (unit_kph clu.speed_unit_mph)

-- The car's own report, if it has one, stands over the estimate.
unfoldable pub take_estimate : {F D : Type 0} → VehicleCanState F D → VehicleCanState F D
take_estimate state =
    if state.has_scc_cruise_state
    then state
    else record state { cruise_active = state.estimated_cruise_active }

module _ {F D : Type 0} (f : Floats F) where
  -- SET- lowers the speed of an active cruise and otherwise takes the speed that is shown.
  unfoldable pub press_set : HyundaiClu11Values F → VehicleCanState F D → VehicleCanState F D
  press_set clu state = record state {
    estimated_cruise_set_speed_kph =
        if state.estimated_cruise_active && state.estimated_cruise_set_speed_valid
        then max_float f (minimum_kph f clu)
            (f.sub state.estimated_cruise_set_speed_kph (step_kph f clu))
        else max_float f (minimum_kph f clu) (current_cluster_speed_kph f clu);
    estimated_cruise_set_speed_valid = true;
    estimated_cruise_active = true;
  }

  -- RES+ raises the speed of an active cruise and otherwise takes up the last one.
  unfoldable pub press_resume : HyundaiClu11Values F → VehicleCanState F D → VehicleCanState F D
  press_resume clu state = record state {
    estimated_cruise_set_speed_kph =
        if state.estimated_cruise_set_speed_valid
        then (if state.estimated_cruise_active
            then f.add state.estimated_cruise_set_speed_kph (step_kph f clu)
            else state.estimated_cruise_set_speed_kph)
        else max_float f (minimum_kph f clu) (current_cluster_speed_kph f clu);
    estimated_cruise_set_speed_valid = true;
    estimated_cruise_active = true;
  }

  -- A button that is newly pressed.
  unfoldable pub press_button : HyundaiClu11Values F → VehicleCanState F D → VehicleCanState F D
  press_button clu state =
      if same_ℤ clu.cruise_sw_state cruise_button_cancel
      then record state { estimated_cruise_active = false }
      else if same_ℤ clu.cruise_sw_state cruise_button_set && not state.brake_pressed
      then press_set clu state
      else if same_ℤ clu.cruise_sw_state cruise_button_resume && not state.brake_pressed
      then press_resume clu state
      else state

  unfoldable pub update_fixed_cruise_estimate :
      HyundaiClu11Values F → VehicleCanState F D → VehicleCanState F D
  update_fixed_cruise_estimate clu state =
      let main_pressed = not (is_zero clu.cruise_sw_main) && is_zero state.clu_main_button in
      let button_pressed = not (is_zero clu.cruise_sw_state) && is_zero state.clu_button in
      let switched =
        if main_pressed then record state { estimated_cruise_active = false } else state in
      let pressed = if button_pressed then press_button clu switched else switched in
      take_estimate
        (record pressed { clu_button = clu.cruise_sw_state; clu_main_button = clu.cruise_sw_main })
