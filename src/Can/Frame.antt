-- ===== src/Can/Frame.antt =====
-- The transport unit and the address and bus table of src/can_frame.h.
use supercombo_k.Base.{ℕ, List}

pub record CanFrame : Type 0 where
  pub address : ℕ
  pub bus : ℕ
  pub len : ℕ
  pub bytes : List ℕ

abbrev pub hyundai_sas11_address : ℕ
hyundai_sas11_address = 688

abbrev pub hyundai_esp12_address : ℕ
hyundai_esp12_address = 544

abbrev pub hyundai_whl_spd11_address : ℕ
hyundai_whl_spd11_address = 902

abbrev pub hyundai_scc11_address : ℕ
hyundai_scc11_address = 1056

abbrev pub hyundai_scc12_address : ℕ
hyundai_scc12_address = 1057

abbrev pub hyundai_tcs13_address : ℕ
hyundai_tcs13_address = 916

abbrev pub hyundai_tcs15_address : ℕ
hyundai_tcs15_address = 1287

abbrev pub hyundai_e_ems11_address : ℕ
hyundai_e_ems11_address = 881

abbrev pub hyundai_elect_gear_address : ℕ
hyundai_elect_gear_address = 882

abbrev pub hyundai_cgw1_address : ℕ
hyundai_cgw1_address = 1345

abbrev pub hyundai_cgw2_address : ℕ
hyundai_cgw2_address = 1363

abbrev pub hyundai_lca11_address : ℕ
hyundai_lca11_address = 1419

abbrev pub hyundai_tpms11_address : ℕ
hyundai_tpms11_address = 1427

abbrev pub hyundai_lkas11_address : ℕ
hyundai_lkas11_address = 832

abbrev pub hyundai_clu11_address : ℕ
hyundai_clu11_address = 1265

abbrev pub hyundai_mdps12_address : ℕ
hyundai_mdps12_address = 593

abbrev pub hyundai_mdps12_tx_bus : ℕ
hyundai_mdps12_tx_bus = 2

abbrev pub powertrain_bus : ℕ
powertrain_bus = 0

abbrev pub mdps_bus : ℕ
mdps_bus = 1

abbrev pub camera_bus : ℕ
camera_bus = 2
