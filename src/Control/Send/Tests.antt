-- ===== src/Control/Send/Tests.antt =====
-- Three updates that send, over the end of the counter.
use supercombo_k.Base.{◌≡◌, refl, true, false, [], ◌∷◌}
use supercombo_k.Base.Int.{ℤ, pos}
use supercombo_k.Control.Engage.{update_engagement}
use supercombo_k.Control.Engage.Scene.{fixed, at_rest, road, plan, ready_car, seen}
use supercombo_k.Control.Actuate.{LateralControlResult}
use supercombo_k.Hyundai.Frames.{HyundaiCanConfig}
use supercombo_k.Control.Send.{MessageCounter, seed_counter}
use supercombo_k.Control.Send.Counter.{Sending, counts, consecutive, counts-consecutive}

abbrev config : HyundaiCanConfig ℤ
config = record {
  main_bus = 0;
  scc_bus = 0;
  mdps_bus = 1;
  send_lkas_on_scc_bus = true;
  send_lkas_on_mdps_bus = true;
  send_clu11_speed_to_mdps = true;
  mdps_speed_spoof_kph = pos 60000;
}

abbrev result : LateralControlResult ℤ ℤ
result = record {
  engagement = update_engagement fixed fixed at_rest road plan ready_car (pos 1000) seen;
  cut_steer_temp = false;
  steering_pressed = false;
  desired_torque = pos 3;
  apply_torque = pos 3;
  should_send = true;
  controller = at_rest;
}

abbrev sending : Sending ℤ ℤ
sending = record { vehicle = ready_car; path = road; result = result; frame = pos 7 }

abbrev under_way : MessageCounter
under_way = record { lkas11_counter = pos 14; lkas11_counter_valid = true }

counter_found : (seed_counter ready_car under_way).lkas11_counter ≡ pos 14
unfolding seed_counter
counter_found = refl

counts-consecutive_example :
    counts fixed config (sending ∷ sending ∷ sending ∷ []) under_way
    ≡ consecutive fixed 14 (sending ∷ sending ∷ sending ∷ [])
counts-consecutive_example =
    counts-consecutive fixed config sending (sending ∷ sending ∷ []) under_way 14 counter_found
      (refl, (refl, (refl, tt)))
