-- ===== src/Hyundai/Lkas11/RoundTrip.antt =====
-- What a receiver decodes from an LKAS11 frame is what the sender put in, cut to the message's ranges.
use native.Mathlib.Nat.{mod-eq_of_lt}
use supercombo_k.Base.{
  ℕ, ◌+◌, ◌^◌, ◌≤◌, ◌<◌, ◌≡◌, ◌⊎◌, refl, Bool, true, false, List, set, arith, ◌∙◌, ap, inl, inr,
}
use supercombo_k.Base.Int.{ℤ, pos, negsuc, ◌+ℤ◌, ◌-ℤ◌, min_ℤ, max_ℤ}
use supercombo_k.Can.Signal.{get_signal_le, IsPayload}
use supercombo_k.Can.Signal.Laws.{get_signal_le-set}
use supercombo_k.Can.Layout.{
  Field, empty_payload, is_layout, set_fields-IsRead, set_fields-IsPayload, IsRead,
}
use supercombo_k.Hyundai.Lkas11.{
  HyundaiLkas11Values, clamp_u32, lkas11_fields, set_common_lkas_fields, decode_lkas11, is_set,
  bool_u32, field,
}

-- The nearest value in a range.
abbrev pub nearest : ℤ → ℤ → ℤ → ℤ
nearest lo hi value = min_ℤ (max_ℤ value lo) hi

-- The values that the message can carry, nearest to those given.
abbrev pub saturate_lkas11 : HyundaiLkas11Values → HyundaiLkas11Values
saturate_lkas11 v = record v {
  ldws_active_mode = nearest (pos 0) (pos 3) v.ldws_active_mode;
  ldws_sys_state = nearest (pos 0) (pos 15) v.ldws_sys_state;
  sys_warning = nearest (pos 0) (pos 15) v.sys_warning;
  left_lane_depart = nearest (pos 0) (pos 3) v.left_lane_depart;
  right_lane_depart = nearest (pos 0) (pos 3) v.right_lane_depart;
  hba_lamp = nearest (pos 0) (pos 1) v.hba_lamp;
  fcw_bas_req = nearest (pos 0) (pos 1) v.fcw_bas_req;
  steer_torque = nearest (negsuc 1023) (pos 1023) v.steer_torque;
  hba_sys_state = nearest (pos 0) (pos 7) v.hba_sys_state;
  fcw_opt = nearest (pos 0) (pos 3) v.fcw_opt;
  hba_opt = nearest (pos 0) (pos 3) v.hba_opt;
  msg_count = nearest (pos 0) (pos 15) v.msg_count;
  fcw_sys_state = nearest (pos 0) (pos 7) v.fcw_sys_state;
  fcw_collision_warning = nearest (pos 0) (pos 3) v.fcw_collision_warning;
  fusion_state = nearest (pos 0) (pos 3) v.fusion_state;
  unknown1 = nearest (pos 0) (pos 1) v.unknown1;
  fcw_opt_usm = nearest (pos 0) (pos 7) v.fcw_opt_usm;
  ldws_opt_usm = nearest (pos 0) (pos 7) v.ldws_opt_usm;
  unknown2 = nearest (pos 0) (pos 3) v.unknown2;
}

pub empty-IsPayload : IsPayload empty_payload
empty-IsPayload = (refl, omega arith)

lkas11-is_layout : (v : HyundaiLkas11Values) → is_layout (lkas11_fields v) ≡ true
unfolding lkas11_fields
lkas11-is_layout v = refl

clamp_u32-nearest :
    (value : ℤ) (hi : ℕ) → pos (clamp_u32 value 0 hi) ≡ nearest (pos 0) (pos hi) value
unfolding clamp_u32 min_ℤ max_ℤ
clamp_u32-nearest (pos n) hi = ground arith
clamp_u32-nearest (negsuc n) hi = ground arith

clamp_u32-le : (value : ℤ) (hi : ℕ) → clamp_u32 value 0 hi ≤ hi
unfolding clamp_u32 min_ℤ max_ℤ
clamp_u32-le (pos n) hi = ground arith
clamp_u32-le (negsuc n) hi = ground arith

clamp_u32-torque :
    (value : ℤ)
    → pos (clamp_u32 (value +ℤ pos 1024) 0 2047) -ℤ pos 1024
      ≡ nearest (negsuc 1023) (pos 1023) value
unfolding clamp_u32 min_ℤ max_ℤ ◌+ℤ◌ ◌-ℤ◌
clamp_u32-torque (pos n) = ground arith
clamp_u32-torque (negsuc n) = ground arith

is_set-bool_u32 : (b : Bool) → is_set (bool_u32 b) ≡ b
is_set-bool_u32 true = refl
is_set-bool_u32 false = refl

-- Byte 6 holds the checksum and no field.
module _ (bytes : List ℕ) (checksum : ℕ) (h : IsPayload bytes) where
  field_read :
      (f : Field)
      → (f.start + f.width ≤ 48) ⊎ (56 ≤ f.start)
      → IsRead bytes f
      → f.raw < 2 ^ f.width
      → get_signal_le (set bytes 6 checksum) f.start f.width ≡ f.raw
  field_read f apart r small =
      get_signal_le-set bytes 6 checksum f.start f.width (omega (arith, h.0)) apart
      ∙ r
      ∙ mod-eq_of_lt small

  number_read :
      (start width hi : ℕ) (value : ℤ)
      → (start + width ≤ 48) ⊎ (56 ≤ start)
      → hi < 2 ^ width
      → IsRead bytes (field start width (clamp_u32 value 0 hi))
      → pos (get_signal_le (set bytes 6 checksum) start width) ≡ nearest (pos 0) (pos hi) value
  number_read start width hi value apart fits r =
      ap pos (
        field_read (field start width (clamp_u32 value 0 hi)) apart r
          (omega (arith, clamp_u32-le value hi)))
      ∙ clamp_u32-nearest value hi

  flag_read :
      (start : ℕ) (b : Bool)
      → (start + 1 ≤ 48) ⊎ (56 ≤ start)
      → IsRead bytes (field start 1 (bool_u32 b))
      → is_set (get_signal_le (set bytes 6 checksum) start 1) ≡ b
  flag_read start b apart r =
      ap is_set (field_read (field start 1 (bool_u32 b)) apart r (ground arith)) ∙ is_set-bool_u32 b

-- Decoding gives the nearest values that the message can carry; byte 6 may hold anything.
pub decode_lkas11-set_common_lkas_fields :
    (v : HyundaiLkas11Values) (checksum : ℕ)
    → decode_lkas11 (set (set_common_lkas_fields empty_payload v) 6 checksum) ≡ saturate_lkas11 v
unfolding decode_lkas11 set_common_lkas_fields lkas11_fields
decode_lkas11-set_common_lkas_fields v checksum =
    let bytes : List ℕ = set_common_lkas_fields empty_payload v in
    let h : IsPayload bytes =
      set_fields-IsPayload empty_payload (lkas11_fields v) empty-IsPayload refl in
    let r = set_fields-IsRead empty_payload (lkas11_fields v) empty-IsPayload refl in
    λ i. record {
      ldws_active_mode =
          number_read bytes checksum h 0 2 3 v.ldws_active_mode (inl (omega arith)) (omega arith)
            r.0 i;
      ldws_sys_state =
          number_read bytes checksum h 2 4 15 v.ldws_sys_state (inl (omega arith)) (omega arith)
            r.1.0 i;
      sys_warning =
          number_read bytes checksum h 6 4 15 v.sys_warning (inl (omega arith)) (omega arith)
            r.1.1.0 i;
      left_lane_depart =
          number_read bytes checksum h 10 2 3 v.left_lane_depart (inl (omega arith)) (omega arith)
            r.1.1.1.0 i;
      right_lane_depart =
          number_read bytes checksum h 12 2 3 v.right_lane_depart (inl (omega arith)) (omega arith)
            r.1.1.1.1.0 i;
      hba_lamp =
          number_read bytes checksum h 14 1 1 v.hba_lamp (inl (omega arith)) (omega arith)
            r.1.1.1.1.1.0 i;
      fcw_bas_req =
          number_read bytes checksum h 15 1 1 v.fcw_bas_req (inl (omega arith)) (omega arith)
            r.1.1.1.1.1.1.0 i;
      steer_torque =
          (ap (λ t. pos t -ℤ pos 1024)
                (field_read bytes checksum h
                  (field 16 11 (clamp_u32 (v.steer_torque +ℤ pos 1024) 0 2047)) (inl (omega arith))
                  r.1.1.1.1.1.1.1.0 (omega (arith, clamp_u32-le (v.steer_torque +ℤ pos 1024) 2047)))
              ∙ clamp_u32-torque v.steer_torque)
            i;
      steer_req =
          flag_read bytes checksum h 27 v.steer_req (inl (omega arith)) r.1.1.1.1.1.1.1.1.0 i;
      toi_fault =
          flag_read bytes checksum h 28 v.toi_fault (inl (omega arith)) r.1.1.1.1.1.1.1.1.1.0 i;
      hba_sys_state =
          number_read bytes checksum h 29 3 7 v.hba_sys_state (inl (omega arith)) (omega arith)
            r.1.1.1.1.1.1.1.1.1.1.0 i;
      fcw_opt =
          number_read bytes checksum h 32 2 3 v.fcw_opt (inl (omega arith)) (omega arith)
            r.1.1.1.1.1.1.1.1.1.1.1.0 i;
      hba_opt =
          number_read bytes checksum h 34 2 3 v.hba_opt (inl (omega arith)) (omega arith)
            r.1.1.1.1.1.1.1.1.1.1.1.1.0 i;
      msg_count =
          number_read bytes checksum h 36 4 15 v.msg_count (inl (omega arith)) (omega arith)
            r.1.1.1.1.1.1.1.1.1.1.1.1.1.0 i;
      fcw_sys_state =
          number_read bytes checksum h 40 3 7 v.fcw_sys_state (inl (omega arith)) (omega arith)
            r.1.1.1.1.1.1.1.1.1.1.1.1.1.1.0 i;
      fcw_collision_warning =
          number_read bytes checksum h 43 2 3 v.fcw_collision_warning (inl (omega arith))
            (omega arith) r.1.1.1.1.1.1.1.1.1.1.1.1.1.1.1.0 i;
      fusion_state =
          number_read bytes checksum h 45 2 3 v.fusion_state (inl (omega arith)) (omega arith)
            r.1.1.1.1.1.1.1.1.1.1.1.1.1.1.1.1.0 i;
      unknown1 =
          number_read bytes checksum h 47 1 1 v.unknown1 (inl (omega arith)) (omega arith)
            r.1.1.1.1.1.1.1.1.1.1.1.1.1.1.1.1.1.0 i;
      fcw_opt_usm =
          number_read bytes checksum h 56 3 7 v.fcw_opt_usm (inr (omega arith)) (omega arith)
            r.1.1.1.1.1.1.1.1.1.1.1.1.1.1.1.1.1.1.1.0 i;
      ldws_opt_usm =
          number_read bytes checksum h 59 3 7 v.ldws_opt_usm (inr (omega arith)) (omega arith)
            r.1.1.1.1.1.1.1.1.1.1.1.1.1.1.1.1.1.1.1.1.0 i;
      unknown2 =
          number_read bytes checksum h 62 2 3 v.unknown2 (inr (omega arith)) (omega arith)
            r.1.1.1.1.1.1.1.1.1.1.1.1.1.1.1.1.1.1.1.1.1.0 i;
    }
