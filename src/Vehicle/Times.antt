-- ===== src/Vehicle/Times.antt =====
-- Which time each frame sets.
use supercombo_k.Base.{
  ℕ, ◌<◌, ◌≡◌, refl, sym, ap, ◌∙◌, ◌⊎◌, inl, inr, Bool, true, false, List, [], ◌∷◌, arith, get_or,
  set, get_or-set_self, get_or-set_ne, length, Bool-cases, ◌==◌, if◌then◌else◌, ==_iff,
}
use supercombo_k.Base.Int.{negsuc}
use supercombo_k.Base.Floats.{Floats}
use supercombo_k.Control.Inputs.{VehicleCanState}
use supercombo_k.Hyundai.Clu11.{HyundaiClu11Values, decode_clu11, first_four}
use supercombo_k.Vehicle.Estimate.{update_fixed_cruise_estimate}
use supercombo_k.Vehicle.Estimated.{update-IsEstimated}
use supercombo_k.Vehicle.Dispatch.{
  Message, lkas11, clu11, sas11, esp12, whl_spd11, mdps12, scc11, scc12, tcs13, tcs15, e_ems11,
  elect_gear, cgw1, cgw2, lca11, tpms11, other, message_of, is_read, apply_message, apply_clu11,
  apply_esp12, apply_mdps12, apply_tcs13, apply_cgw1, apply_cgw2, update_vehicle_can_state,
}

-- A frame as it comes in, with the time.
pub record Received (D : Type 0) : Type 0 where
  pub address : ℕ
  pub bytes : List ℕ
  pub len : ℕ
  pub bus : ℕ
  pub time_s : D

-- Where a message has its time in the list of times; SCC12 has none.
abbrev pub slot : Message → ℕ
slot lkas11 = 0
slot clu11 = 1
slot sas11 = 2
slot mdps12 = 3
slot tcs13 = 4
slot tcs15 = 5
slot e_ems11 = 6
slot elect_gear = 7
slot cgw1 = 8
slot cgw2 = 9
slot whl_spd11 = 10
slot esp12 = 11
slot scc11 = 12
slot lca11 = 13
slot tpms11 = 14
slot scc12 = 15
slot other = 15

-- The messages in the order of their slots.
messages : List Message
messages =
    lkas11 ∷ clu11 ∷ sas11 ∷ mdps12 ∷ tcs13 ∷ tcs15 ∷ e_ems11 ∷ elect_gear ∷ cgw1 ∷ cgw2 ∷ whl_spd11
    ∷ esp12 ∷ scc11 ∷ lca11 ∷ tpms11 ∷ []

get_or-slot : (m : Message) → slot m < 15 → get_or messages (slot m) other ≡ m
unfolding messages
get_or-slot lkas11 h = refl
get_or-slot clu11 h = refl
get_or-slot sas11 h = refl
get_or-slot mdps12 h = refl
get_or-slot tcs13 h = refl
get_or-slot tcs15 h = refl
get_or-slot e_ems11 h = refl
get_or-slot elect_gear h = refl
get_or-slot cgw1 h = refl
get_or-slot cgw2 h = refl
get_or-slot whl_spd11 h = refl
get_or-slot esp12 h = refl
get_or-slot scc11 h = refl
get_or-slot lca11 h = refl
get_or-slot tpms11 h = refl
get_or-slot scc12 h = ground arith
get_or-slot other h = ground arith

slot_inj : (m m' : Message) → slot m' < 15 → slot m ≡ slot m' → m ≡ m'
slot_inj m m' h e =
    sym (get_or-slot m (rw e h)) ∙ ap (λ n. get_or messages n other) e ∙ get_or-slot m' h

module _ {F D : Type 0} (f : Floats F) (d : Floats D) where
  abbrev pub times : VehicleCanState F D → List D
  times s =
      s.lkas11_time_s ∷ s.clu11_time_s ∷ s.sas11_time_s ∷ s.mdps12_time_s ∷ s.tcs13_time_s
      ∷ s.tcs15_time_s ∷ s.e_ems11_time_s ∷ s.elect_gear_time_s ∷ s.cgw1_time_s ∷ s.cgw2_time_s
      ∷ s.whl_spd11_time_s ∷ s.esp12_time_s ∷ s.scc11_time_s ∷ s.lca11_time_s ∷ s.tpms11_time_s ∷ []

  unfoldable pub receive : Received D → VehicleCanState F D → VehicleCanState F D
  receive r s = update_vehicle_can_state f d r.address r.bytes r.len r.bus r.time_s s

  unfoldable pub receive_all : List (Received D) → VehicleCanState F D → VehicleCanState F D
  receive_all [] s = s
  receive_all (r ∷ rest) s = receive_all rest (receive r s)

  estimate-times :
      (clu : HyundaiClu11Values F) (s : VehicleCanState F D)
      → times (update_fixed_cruise_estimate f clu s) ≡ times s
  estimate-times clu s = ap times (update-IsEstimated f clu s).same_rest

  apply_message-times :
      (m : Message) (bytes : List ℕ) (now_s : D) (s : VehicleCanState F D)
      → times (apply_message f d m bytes now_s s) ≡ set (times s) (slot m) now_s
  unfolding apply_message apply_esp12 apply_mdps12 apply_tcs13 apply_cgw1 apply_cgw2 apply_clu11
  apply_message-times lkas11 bytes now_s s = refl
  apply_message-times clu11 bytes now_s s =
      let seeded = record s { clu11_seed = first_four bytes; has_clu11_seed = true } in
      ap (λ ts. set ts 1 now_s) (estimate-times (decode_clu11 f (first_four bytes)) seeded)
  apply_message-times sas11 bytes now_s s = refl
  apply_message-times esp12 bytes now_s s = refl
  apply_message-times whl_spd11 bytes now_s s = refl
  apply_message-times mdps12 bytes now_s s = refl
  apply_message-times scc11 bytes now_s s = refl
  apply_message-times scc12 bytes now_s s = refl
  apply_message-times tcs13 bytes now_s s = refl
  apply_message-times tcs15 bytes now_s s = refl
  apply_message-times e_ems11 bytes now_s s = refl
  apply_message-times elect_gear bytes now_s s = refl
  apply_message-times cgw1 bytes now_s s = refl
  apply_message-times cgw2 bytes now_s s = refl
  apply_message-times lca11 bytes now_s s = refl
  apply_message-times tpms11 bytes now_s s = refl
  apply_message-times other bytes now_s s = refl

  abbrev pub time_of : Message → VehicleCanState F D → D
  time_of m s = get_or (times s) (slot m) (d.lit (negsuc 0) 0)

  receive_if :
      (read : Bool) (k : Message) (r : Received D) (s : VehicleCanState F D)
      → times (if read then apply_message f d k r.bytes r.time_s s else s)
        ≡ (if read then set (times s) (slot k) r.time_s else times s)
  receive_if true k r s = apply_message-times k r.bytes r.time_s s
  receive_if false k r s = refl

  set_cases :
      (read : Bool) (ts : List D) (k m : Message) (t e : D)
      → length ts ≡ 15
      → slot m < 15
      → (get_or (if read then set ts (slot k) t else ts) (slot m) e ≡ get_or ts (slot m) e)
        ⊎ ((k ≡ m)
            × (read ≡ true)
            × (get_or (if read then set ts (slot k) t else ts) (slot m) e ≡ t))
  set_cases false ts k m t e n h = inl refl
  set_cases true ts k m t e n h = elim (Bool-cases (slot k == slot m)) [
    | inl same ↦
        let same_slot : slot k ≡ slot m = (==_iff (slot k) (slot m)).0 same in
        inr (
          slot_inj k m h same_slot,
          refl,
          rw same_slot (get_or-set_self ts (slot m) t e (omega (arith, n))),
        )
    | inr apart ↦ inl (get_or-set_ne ts (slot k) (slot m) t e (ground arith))
  ]

  -- A frame sets the time of its message, if it is read, and no other.
  pub receive-time_of :
      (m : Message) (r : Received D) (s : VehicleCanState F D)
      → slot m < 15
      → (time_of m (receive r s) ≡ time_of m s)
        ⊎ ((message_of r.address ≡ m)
            × (is_read f d (message_of r.address) r.len r.bus ≡ true)
            × (time_of m (receive r s) ≡ r.time_s))
  unfolding receive update_vehicle_can_state
  receive-time_of m r s h =
      let k = message_of r.address in
      let read = is_read f d k r.len r.bus in
      let e : D = d.lit (negsuc 0) 0 in
      let ts = ap (λ xs. get_or xs (slot m) e) (receive_if read k r s) in
      elim (set_cases read (times s) k m r.time_s e refl h) [
        | inl kept ↦ inl (ts ∙ kept)
        | inr (same, was, now) ↦ inr (same, was, ts ∙ now)
      ]
