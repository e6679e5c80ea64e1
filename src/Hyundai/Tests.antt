-- ===== src/Hyundai/Tests.antt =====
-- Tests of the LKAS11 codec and the torque limits, and their theorems at concrete values.
use supercombo_k.Base.{◌≡◌, refl, true, false, [], ◌∷◌, arith}
use supercombo_k.Base.Int.{pos, negsuc, neg_ℤ}
use supercombo_k.Hyundai.Lkas11.{
  HyundaiLkas11Values, HyundaiLkasCommand, apply_lkas_command, decode_lkas11, create_lkas11_frame,
}
use supercombo_k.Hyundai.Lkas11.RoundTrip.{saturate_lkas11}
use supercombo_k.Hyundai.Lkas11.Frame.{IsLkas11, decode_lkas11-create_lkas11_frame}
use supercombo_k.Hyundai.Torque.{default_limits, apply_hyundai_steer_torque_limits}
use supercombo_k.Hyundai.Torque.Limits.{
  IsSane, IsLimited, apply_hyundai_steer_torque_limits-IsLimited,
}
use supercombo_k.Hyundai.Torque.Release.{release, release-eq-zero}

abbrev seed : HyundaiLkas11Values
seed = record {
  ldws_active_mode = pos 1;
  ldws_sys_state = pos 3;
  sys_warning = pos 0;
  left_lane_depart = pos 0;
  right_lane_depart = pos 0;
  hba_lamp = pos 0;
  fcw_bas_req = pos 0;
  steer_torque = pos 0;
  steer_req = false;
  toi_fault = false;
  hba_sys_state = pos 1;
  fcw_opt = pos 0;
  hba_opt = pos 2;
  msg_count = pos 4;
  fcw_sys_state = pos 2;
  fcw_collision_warning = pos 0;
  fusion_state = pos 0;
  unknown1 = pos 0;
  fcw_opt_usm = pos 2;
  ldws_opt_usm = pos 3;
  unknown2 = pos 0;
}

-- The steering torque is outside the field's range.
abbrev command : HyundaiLkasCommand
command = record {
  apply_steer = negsuc 1999;
  steer_req = true;
  cut_steer_temp = false;
  sys_warning = true;
  sys_state = pos 5;
  left_lane = true;
  right_lane = true;
  left_lane_depart = pos 1;
  right_lane_depart = pos 0;
  lkas_msg_count = pos 21;
  ldws_fix = false;
}

decode_lkas11-create_lkas11_frame_example :
    (decode_lkas11 (create_lkas11_frame seed command 1).bytes
      ≡ saturate_lkas11 (apply_lkas_command seed command))
    × IsLkas11 (create_lkas11_frame seed command 1).bytes
decode_lkas11-create_lkas11_frame_example = decode_lkas11-create_lkas11_frame seed command 1

default_limits-IsSane : IsSane default_limits
default_limits-IsSane = record {
  max_nonneg = omega arith;
  up_nonneg = omega arith;
  down_nonneg = omega arith;
}

apply_hyundai_steer_torque_limits-IsLimited_example :
    IsLimited default_limits
      (pos 100)
      (negsuc 299)
      (apply_hyundai_steer_torque_limits (pos 200) (pos 100) (negsuc 299) default_limits)
unfolding neg_ℤ
apply_hyundai_steer_torque_limits-IsLimited_example =
    apply_hyundai_steer_torque_limits-IsLimited default_limits (pos 200) (pos 100) (negsuc 299)
      default_limits-IsSane (omega arith) (omega arith)

release-eq-zero_example :
    release default_limits (negsuc 14) (pos 10 ∷ negsuc 400 ∷ pos 500 ∷ []) ≡ pos 0
release-eq-zero_example =
    release-eq-zero default_limits 7 default_limits-IsSane refl (negsuc 14)
      (pos 10 ∷ negsuc 400 ∷ pos 500 ∷ []) (omega arith)
