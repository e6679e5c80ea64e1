-- ===== src/Hyundai/Lkas11/Frame.antt =====
-- The frame that `create_lkas11_frame` puts on the bus.
use supercombo_k.Base.{
  ℕ, ◌≡◌, ◌≢◌, refl, sym, List, set, arith, ◌∙◌, get_or-set_self, get_or-set_ne, All-set,
  length-set,
}
use supercombo_k.Can.Signal.{IsPayload, IsByte}
use supercombo_k.Can.Layout.{empty_payload, set_fields-IsPayload}
use supercombo_k.Hyundai.Lkas11.{
  HyundaiLkas11Values, HyundaiLkasCommand, lkas11_fields, set_common_lkas_fields,
  apply_lkas_command, decode_lkas11, create_lkas11_frame, hyundai_lkas11_checksum, byte_at,
}
use supercombo_k.Hyundai.Lkas11.RoundTrip.{
  saturate_lkas11, empty-IsPayload, decode_lkas11-set_common_lkas_fields,
}

hyundai_lkas11_checksum-set :
    (bytes : List ℕ) (v : ℕ)
    → hyundai_lkas11_checksum (set bytes 6 v) ≡ hyundai_lkas11_checksum bytes
unfolding hyundai_lkas11_checksum
hyundai_lkas11_checksum-set bytes v =
    let other : (k : ℕ) → 6 ≢ k → byte_at (set bytes 6 v) k ≡ byte_at bytes k =
      λ k ne. get_or-set_ne bytes 6 k v 0 ne in
    omega (
      arith,
      other 0 (omega arith),
      other 1 (omega arith),
      other 2 (omega arith),
      other 3 (omega arith),
      other 4 (omega arith),
      other 5 (omega arith),
      other 7 (omega arith),
    )

-- A frame is well formed: eight bytes, and its checksum byte is the checksum of the others.
pub record IsLkas11 (bytes : List ℕ) : Type 0 where
  pub payload : IsPayload bytes
  pub checksum : byte_at bytes 6 ≡ hyundai_lkas11_checksum bytes

module _ (seed : HyundaiLkas11Values) (command : HyundaiLkasCommand) (bus : ℕ) where
  abbrev fields_written : List ℕ
  fields_written = set_common_lkas_fields empty_payload (apply_lkas_command seed command)

  fields_written-IsPayload : IsPayload fields_written
  unfolding set_common_lkas_fields lkas11_fields
  fields_written-IsPayload =
      set_fields-IsPayload empty_payload (lkas11_fields (apply_lkas_command seed command))
        empty-IsPayload refl

  pub create_lkas11_frame-IsLkas11 : IsLkas11 (create_lkas11_frame seed command bus).bytes
  unfolding create_lkas11_frame
  create_lkas11_frame-IsLkas11 = record {
    payload = (
      length-set fields_written 6 _ ∙ fields_written-IsPayload.0,
      All-set IsByte fields_written 6 _ fields_written-IsPayload.1
          (unfold hyundai_lkas11_checksum in omega arith),
    );
    checksum =
        get_or-set_self fields_written 6 _ 0 (omega (arith, fields_written-IsPayload.0))
        ∙ sym (hyundai_lkas11_checksum-set fields_written _);
  }

  -- The receiver decodes the seed with the command put in, each value cut to its field's range, and
  -- the frame passes its checksum.
  pub decode_lkas11-create_lkas11_frame :
      (decode_lkas11 (create_lkas11_frame seed command bus).bytes
        ≡ saturate_lkas11 (apply_lkas_command seed command))
      × IsLkas11 (create_lkas11_frame seed command bus).bytes
  decode_lkas11-create_lkas11_frame = (
    unfold create_lkas11_frame in
        decode_lkas11-set_common_lkas_fields (apply_lkas_command seed command)
          (hyundai_lkas11_checksum fields_written),
    create_lkas11_frame-IsLkas11,
  )
