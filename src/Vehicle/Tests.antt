-- ===== src/Vehicle/Tests.antt =====
-- A car that sends its messages, in fixed-point numbers.
use mathlib.Core.Bool.{false≢true}
use supercombo_k.Can.Signal.{set_signal_le}
use supercombo_k.Vehicle.Decode.{decode_sas11}
use supercombo_k.Base.{ℕ, ◌≡◌, ◌↔◌, refl, true, false, List, [], ◌∷◌, All, arith, replicate}
use supercombo_k.Base.Int.{ℤ, pos, negsuc, ◌*ℤ◌, ◌-ℤ◌, ◌+ℤ◌}
use supercombo_k.Control.Inputs.{VehicleCanState}
use supercombo_k.Control.Engage.{signal_time_fresh}
use supercombo_k.Control.Engage.Scene.{fixed, ready_car}
use supercombo_k.Vehicle.Dispatch.{
  message_of, expected_openpilot_bus, least_length, is_read, apply_message, apply_clu11,
  apply_mdps12, apply_tcs13, apply_cgw1, apply_cgw2, update_vehicle_can_state,
}
use supercombo_k.Vehicle.Times.{Received, receive, receive_all}
use supercombo_k.Vehicle.Read.{vehicle_state_fresh, vehicle_speed_kph, sum_wheels}
use supercombo_k.Vehicle.Heard.{IsHeard, required, IsUnheard, vehicle_state_fresh-IsHeard}
use supercombo_k.Vehicle.Consistent.{IsConsistent, receive_all-IsConsistent}
use supercombo_k.Vehicle.Faults.{EndsInFault, toi_flags, steering_fault-EndsInFault}
use supercombo_k.Vehicle.Angle.{bits_of, decode_sas11-set_signal_le}
use supercombo_k.Vehicle.Speed.{IsSpeed, wheels, vehicle_speed_kph-IsSpeed}

abbrev new_car : VehicleCanState ℤ ℤ
new_car = record ready_car {
  lkas11_time_s = negsuc 999;
  clu11_time_s = negsuc 999;
  sas11_time_s = negsuc 999;
  esp12_time_s = negsuc 999;
  whl_spd11_time_s = negsuc 999;
  scc11_time_s = negsuc 999;
  mdps12_time_s = negsuc 999;
  tcs13_time_s = negsuc 999;
  tcs15_time_s = negsuc 999;
  e_ems11_time_s = negsuc 999;
  elect_gear_time_s = negsuc 999;
  cgw1_time_s = negsuc 999;
  cgw2_time_s = negsuc 999;
  lca11_time_s = negsuc 999;
  tpms11_time_s = negsuc 999;
}

abbrev frame : ℕ → ℕ → ℤ → Received ℤ
frame address bus time_s = record {
  address = address;
  bytes = replicate 8 0;
  len = 8;
  bus = bus;
  time_s = time_s;
}

abbrev drive : List (Received ℤ)
drive =
    frame 1265 0 (pos 1000)
    ∷ frame 832 2 (pos 1010)
    ∷ frame 688 1 (pos 1020)
    ∷ frame 593 1 (pos 1030)
    ∷ frame 916 0 (pos 1040)
    ∷ frame 1287 0 (pos 1050)
    ∷ frame 881 0 (pos 1060)
    ∷ frame 882 0 (pos 1070)
    ∷ frame 1345 0 (pos 1080)
    ∷ frame 1363 0 (pos 1090)
    ∷ frame 902 0 (pos 1100)
    ∷ []

negative_time : fixed.le (fixed.lit (pos 0) 0) (fixed.lit (negsuc 0) 0) ≡ false
unfolding ◌*ℤ◌
negative_time = refl

new_car-IsUnheard : IsUnheard fixed fixed new_car
unfolding ◌*ℤ◌
new_car-IsUnheard = (
  refl,
  (
    refl,
    (
      refl,
      (
        refl,
        (refl, (refl, (refl, (refl, (refl, (refl, (refl, (refl, (refl, (refl, (refl, tt))))))))))),
      ),
    ),
  ),
)

drive-fresh :
    vehicle_state_fresh fixed fixed (receive_all fixed fixed drive new_car) (pos 1200) (pos 500)
    ≡ true
unfolding vehicle_state_fresh receive_all receive update_vehicle_can_state message_of is_read
    expected_openpilot_bus least_length apply_message apply_clu11 apply_mdps12 apply_tcs13
    apply_cgw1 apply_cgw2 signal_time_fresh ◌*ℤ◌ ◌-ℤ◌
drive-fresh = refl

vehicle_state_fresh-IsHeard_example :
    All (λ m. IsHeard fixed fixed m (pos 1200) (pos 500) drive) (required fixed fixed)
vehicle_state_fresh-IsHeard_example =
    vehicle_state_fresh-IsHeard fixed fixed drive new_car (pos 1200) (pos 500) negative_time
      new_car-IsUnheard drive-fresh

new_car-IsConsistent : IsConsistent new_car
new_car-IsConsistent = record {
  doors = refl;
  errors_nonneg = omega arith;
  fault = refl;
  cruise = refl;
  set_speed = λ e. absurd (false≢true e);
  brake = λ e. absurd (false≢true e);
}

receive_all-IsConsistent_example : IsConsistent (receive_all fixed fixed drive new_car)
receive_all-IsConsistent_example =
    receive_all-IsConsistent fixed fixed drive new_car new_car-IsConsistent

steering_fault-EndsInFault_example :
    ((receive_all fixed fixed drive new_car).steering_fault ≡ true)
    ↔ EndsInFault (toi_flags fixed fixed drive)
steering_fault-EndsInFault_example =
    steering_fault-EndsInFault fixed fixed drive new_car new_car-IsConsistent refl

decode_sas11-set_signal_le_example :
    (decode_sas11 fixed
      (set_signal_le (replicate 8 0) 0 16 (bits_of (negsuc 124)))).steering_angle_deg
    ≡ fixed.mul (fixed.of_int (negsuc 124)) (fixed.lit (pos 1) 1)
decode_sas11-set_signal_le_example =
    decode_sas11-set_signal_le fixed (replicate 8 0) (negsuc 124) (refl, omega arith) (omega arith)
      (omega arith)

abbrev rolling : VehicleCanState ℤ ℤ
rolling = record new_car {
  whl_spd11_time_s = pos 1000;
  wheel_speed_fl_kph = pos 50000;
  wheel_speed_fr_kph = pos 50100;
  wheel_speed_rl_kph = pos 50000;
  wheel_speed_rr_kph = pos 50200;
}

rolling-finite : fixed.is_finite (vehicle_speed_kph fixed fixed rolling (pos 1200) (pos 500)) ≡ true
unfolding vehicle_speed_kph sum_wheels signal_time_fresh ◌*ℤ◌ ◌-ℤ◌ ◌+ℤ◌
rolling-finite = refl

vehicle_speed_kph-IsSpeed_example :
    (signal_time_fresh fixed fixed rolling.whl_spd11_time_s (pos 1200) (pos 500) ≡ true)
    × All (IsSpeed fixed fixed) (wheels fixed fixed rolling)
vehicle_speed_kph-IsSpeed_example =
    vehicle_speed_kph-IsSpeed fixed fixed rolling (pos 1200) (pos 500) refl rolling-finite
