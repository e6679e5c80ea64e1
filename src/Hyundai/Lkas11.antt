-- ===== src/Hyundai/Lkas11.antt =====
-- LKAS11, the steering command: `decode_lkas11`, `create_lkas11_frame` and what they call. An `int`
-- is an integer without bounds; the callers keep `steer_torque` far from the limits of 32 bits.
pub mod RoundTrip
pub mod Frame
use supercombo_k.Base.{
  ℕ, ◌+◌, ◌-◌, ◌%◌, ◌^◌, ◌≡◌, Bool, true, false, not, ◌&&◌, List, [], ◌∷◌, ◌==◌, get_or, set,
  if◌then◌else◌, arith,
}
use supercombo_k.Base.Int.{ℤ, pos, negsuc, ◌+ℤ◌, ◌-ℤ◌, min_ℤ, max_ℤ, pos_part}
use supercombo_k.Can.Frame.{CanFrame, hyundai_lkas11_address}
use supercombo_k.Can.Signal.{get_signal_le, IsPayload}
use supercombo_k.Can.Layout.{Field, set_fields, empty_payload}

pub record HyundaiLkas11Values : Type 0 where
  pub ldws_active_mode : ℤ
  pub ldws_sys_state : ℤ
  pub sys_warning : ℤ
  pub left_lane_depart : ℤ
  pub right_lane_depart : ℤ
  pub hba_lamp : ℤ
  pub fcw_bas_req : ℤ
  pub steer_torque : ℤ
  pub steer_req : Bool
  pub toi_fault : Bool
  pub hba_sys_state : ℤ
  pub fcw_opt : ℤ
  pub hba_opt : ℤ
  pub msg_count : ℤ
  pub fcw_sys_state : ℤ
  pub fcw_collision_warning : ℤ
  pub fusion_state : ℤ
  pub unknown1 : ℤ
  pub fcw_opt_usm : ℤ
  pub ldws_opt_usm : ℤ
  pub unknown2 : ℤ

pub record HyundaiLkasCommand : Type 0 where
  pub apply_steer : ℤ
  pub steer_req : Bool
  pub cut_steer_temp : Bool
  pub sys_warning : Bool
  pub sys_state : ℤ
  pub left_lane : Bool
  pub right_lane : Bool
  pub left_lane_depart : ℤ
  pub right_lane_depart : ℤ
  pub lkas_msg_count : ℤ
  pub ldws_fix : Bool

-- The cast of the clamped value to `uint32_t`; every caller has 0 ≤ lo.
pub clamp_u32 : ℤ → ℕ → ℕ → ℕ
clamp_u32 value lo hi = pos_part (min_ℤ (max_ℤ value (pos lo)) (pos hi))

abbrev pub bool_u32 : Bool → ℕ
bool_u32 b = if b then 1 else 0

abbrev pub field : ℕ → ℕ → ℕ → Field
field start width raw = record { start = start; width = width; raw = raw }

-- The calls of `set_common_lkas_fields` in order.
pub lkas11_fields : HyundaiLkas11Values → List Field
lkas11_fields v =
    field 0 2 (clamp_u32 v.ldws_active_mode 0 3)
    ∷ field 2 4 (clamp_u32 v.ldws_sys_state 0 15)
    ∷ field 6 4 (clamp_u32 v.sys_warning 0 15)
    ∷ field 10 2 (clamp_u32 v.left_lane_depart 0 3)
    ∷ field 12 2 (clamp_u32 v.right_lane_depart 0 3)
    ∷ field 14 1 (clamp_u32 v.hba_lamp 0 1)
    ∷ field 15 1 (clamp_u32 v.fcw_bas_req 0 1)
    ∷ field 16 11 (clamp_u32 (v.steer_torque +ℤ pos 1024) 0 2047)
    ∷ field 27 1 (bool_u32 v.steer_req)
    ∷ field 28 1 (bool_u32 v.toi_fault)
    ∷ field 29 3 (clamp_u32 v.hba_sys_state 0 7)
    ∷ field 32 2 (clamp_u32 v.fcw_opt 0 3)
    ∷ field 34 2 (clamp_u32 v.hba_opt 0 3)
    ∷ field 36 4 (clamp_u32 v.msg_count 0 15)
    ∷ field 40 3 (clamp_u32 v.fcw_sys_state 0 7)
    ∷ field 43 2 (clamp_u32 v.fcw_collision_warning 0 3)
    ∷ field 45 2 (clamp_u32 v.fusion_state 0 3)
    ∷ field 47 1 (clamp_u32 v.unknown1 0 1)
    ∷ field 48 8 0
    ∷ field 56 3 (clamp_u32 v.fcw_opt_usm 0 7)
    ∷ field 59 3 (clamp_u32 v.ldws_opt_usm 0 7)
    ∷ field 62 2 (clamp_u32 v.unknown2 0 3)
    ∷ []

pub set_common_lkas_fields : List ℕ → HyundaiLkas11Values → List ℕ
set_common_lkas_fields bytes v = set_fields bytes (lkas11_fields v)

-- `command.lkas_msg_count & 0xf`, on two's complement.
unfoldable pub low_nibble : ℤ → ℕ
low_nibble (pos n) = n % 16
low_nibble (negsuc n) = 15 - n % 16

unfoldable pub apply_lkas_command : HyundaiLkas11Values → HyundaiLkasCommand → HyundaiLkas11Values
apply_lkas_command values command = record values {
  ldws_sys_state = command.sys_state;
  sys_warning = if command.sys_warning then pos 3 else pos 0;
  left_lane_depart = command.left_lane_depart;
  right_lane_depart = command.right_lane_depart;
  steer_torque = command.apply_steer;
  steer_req = command.steer_req && not command.cut_steer_temp;
  toi_fault = command.cut_steer_temp;
  msg_count = pos (low_nibble command.lkas_msg_count);
  ldws_opt_usm = if command.ldws_fix then pos 3 else values.ldws_opt_usm;
}

abbrev pub is_set : ℕ → Bool
is_set raw = not (raw == 0)

pub decode_lkas11 : List ℕ → HyundaiLkas11Values
decode_lkas11 bytes = record {
  ldws_active_mode = pos (get_signal_le bytes 0 2);
  ldws_sys_state = pos (get_signal_le bytes 2 4);
  sys_warning = pos (get_signal_le bytes 6 4);
  left_lane_depart = pos (get_signal_le bytes 10 2);
  right_lane_depart = pos (get_signal_le bytes 12 2);
  hba_lamp = pos (get_signal_le bytes 14 1);
  fcw_bas_req = pos (get_signal_le bytes 15 1);
  steer_torque = pos (get_signal_le bytes 16 11) -ℤ pos 1024;
  steer_req = is_set (get_signal_le bytes 27 1);
  toi_fault = is_set (get_signal_le bytes 28 1);
  hba_sys_state = pos (get_signal_le bytes 29 3);
  fcw_opt = pos (get_signal_le bytes 32 2);
  hba_opt = pos (get_signal_le bytes 34 2);
  msg_count = pos (get_signal_le bytes 36 4);
  fcw_sys_state = pos (get_signal_le bytes 40 3);
  fcw_collision_warning = pos (get_signal_le bytes 43 2);
  fusion_state = pos (get_signal_le bytes 45 2);
  unknown1 = pos (get_signal_le bytes 47 1);
  fcw_opt_usm = pos (get_signal_le bytes 56 3);
  ldws_opt_usm = pos (get_signal_le bytes 59 3);
  unknown2 = pos (get_signal_le bytes 62 2);
}

abbrev pub byte_at : List ℕ → ℕ → ℕ
byte_at bytes i = get_or bytes i 0

-- The sum of all bytes but the checksum's own.
pub hyundai_lkas11_checksum : List ℕ → ℕ
hyundai_lkas11_checksum bytes =
    (byte_at bytes 0
      + byte_at bytes 1
      + byte_at bytes 2
      + byte_at bytes 3
      + byte_at bytes 4
      + byte_at bytes 5
      + byte_at bytes 7)
    % 256

pub create_lkas11_frame : HyundaiLkas11Values → HyundaiLkasCommand → ℕ → CanFrame
unfolding set_common_lkas_fields
create_lkas11_frame seed command bus =
    let bytes = set_common_lkas_fields empty_payload (apply_lkas_command seed command) in
    record {
      address = hyundai_lkas11_address;
      bus = bus;
      len = 8;
      bytes = set bytes 6 (hyundai_lkas11_checksum bytes);
    }
