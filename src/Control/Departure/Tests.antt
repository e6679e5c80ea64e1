-- ===== src/Control/Departure/Tests.antt =====
-- A stop at a red light that turns green.
use supercombo_k.Base.{refl, true, false, List, [], ◌∷◌, ◌⊎◌, All}
use supercombo_k.Base.Int.{ℤ, pos, negsuc, ◌*ℤ◌}
use supercombo_k.Control.Alerts.{no_departure}
use supercombo_k.Control.Engage.Scene.{fixed}
use supercombo_k.Control.Departure.{DepartureAlertInput, DepartureAlertDetector, ends_stop, run}
use supercombo_k.Control.Departure.Once.{IsKept, IsAlert, IsStay, run-IsAlert}

abbrev detector : DepartureAlertDetector ℤ ℤ
detector = record {
  consumed = false;
  stopped_since_s = negsuc 999;
  lead_seen_since_s = negsuc 999;
  lead_depart_candidate_since_s = negsuc 999;
  lead_baseline_distance_m = pos 0;
  lead_armed = false;
  green_light_candidate_since_s = negsuc 999;
  green_light_armed = false;
  active_type = no_departure;
  active_until_s = negsuc 999;
  event_id = 0;
}

abbrev at_light : DepartureAlertInput ℤ ℤ
at_light = record {
  now_s = pos 1000;
  vehicle_valid = true;
  gear = pos 5;
  speed_mps = pos 0;
  gas_pressed = false;
  lead_updated = false;
  lead_valid = false;
  lead_distance_m = pos 0;
  lead_relative_speed_mps = pos 0;
  model_updated = true;
  model_valid = true;
  plan_distance_m = pos 1300;
}

abbrev inputs : List (DepartureAlertInput ℤ ℤ)
inputs =
    at_light
    ∷ record at_light { now_s = pos 4000 }
    ∷ record at_light { now_s = pos 4100; plan_distance_m = pos 12000 }
    ∷ record at_light { now_s = pos 4500; plan_distance_m = pos 14000 }
    ∷ []

inputs-IsStay : All (IsStay fixed fixed) inputs
unfolding ends_stop ◌*ℤ◌
inputs-IsStay = (refl, (refl, (refl, (refl, tt))))

run-IsAlert_example :
    IsKept fixed fixed detector (run fixed fixed inputs detector)
    ⊎ IsAlert fixed fixed detector (run fixed fixed inputs detector)
run-IsAlert_example = run-IsAlert fixed fixed inputs detector inputs-IsStay
