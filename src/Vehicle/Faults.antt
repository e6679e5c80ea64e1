-- ===== src/Vehicle/Faults.antt =====
-- The steering fault is a run of reports: an independent description of the counter.
use mathlib.Core.List.{append-nil, append_assoc}
use supercombo_k.Base.{
  ℕ, zero, suc, ◌+◌, ◌-◌, ◌≤◌, ◌≡◌, ◌↔◌, refl, sym, ap, ◌∙◌, Bool, true, false, ◌&&◌, List, [], ◌∷◌,
  ◌++◌, arith, if◌then◌else◌, replicate, ltb,
}
use supercombo_k.Base.Int.{pos, ◌+ℤ◌, ltb_ℤ}
use supercombo_k.Base.Floats.{Floats}
use supercombo_k.Control.Inputs.{VehicleCanState}
use supercombo_k.Hyundai.Clu11.{decode_clu11, first_four}
use supercombo_k.Vehicle.Decode.{decode_mdps12}
use supercombo_k.Vehicle.Estimated.{update-IsEstimated}
use supercombo_k.Vehicle.Dispatch.{
  Message, lkas11, clu11, sas11, esp12, whl_spd11, mdps12, scc11, scc12, tcs13, tcs15, e_ems11,
  elect_gear, cgw1, cgw2, lca11, tpms11, other, message_of, is_read, apply_message, apply_clu11,
  apply_esp12, apply_mdps12, apply_tcs13, apply_cgw1, apply_cgw2, update_vehicle_can_state,
}
use supercombo_k.Vehicle.Consistent.{IsConsistent, receive_all-IsConsistent}
use supercombo_k.Vehicle.Times.{Received, receive, receive_all}

-- How many of the flags at the end are set, after `n` set ones.
run_from : ℕ → List Bool → ℕ
run_from n [] = n
run_from n (true ∷ flags) = run_from (n + 1) flags
run_from n (false ∷ flags) = run_from 0 flags

replicate_congr : (n m : ℕ) → n ≡ m → replicate n true ≡ replicate m true
replicate_congr n m e = ap (λ k. replicate k true) e

replicate_shift :
    (n : ℕ) (flags : List Bool)
    → replicate n true ++ (true ∷ flags) ≡ replicate (n + 1) true ++ flags
replicate_shift zero flags = refl
replicate_shift (suc n) flags =
    ap (◌∷◌ true) (replicate_shift n flags)
    ∙ ap (λ xs. xs ++ flags) (replicate_congr (suc (n + 1)) (suc n + 1) (omega arith))

-- The set flags at the end stand there.
run_from-split :
    (n : ℕ) (flags : List Bool)
    → (before : List Bool) × (replicate n true ++ flags
        ≡ before ++ replicate (run_from n flags) true)
unfolding run_from
run_from-split n [] = ([], append-nil (replicate n true))
run_from-split n (true ∷ flags) =
    let (before, e) = run_from-split (n + 1) flags in (before, replicate_shift n flags ∙ e)
run_from-split n (false ∷ flags) =
    let (before, e) = run_from-split 0 flags in
    (
      replicate n true ++ (false ∷ before),
      ap (λ xs. replicate n true ++ (false ∷ xs)) e
          ∙ sym (
              append_assoc (replicate n true) (false ∷ before) (replicate (run_from 0 flags) true)),
    )

run_from-replicate : (n k : ℕ) → run_from n (replicate k true) ≡ n + k
unfolding run_from
run_from-replicate n zero = omega arith
run_from-replicate n (suc k) = run_from-replicate (n + 1) k ∙ omega arith

le-run_from : (n k : ℕ) (before : List Bool) → k ≤ run_from n (before ++ replicate k true)
unfolding run_from
le-run_from n k [] = omega (arith, run_from-replicate n k)
le-run_from n k (true ∷ before) = le-run_from (n + 1) k before
le-run_from n k (false ∷ before) = le-run_from 0 k before

replicate-add : (a b : ℕ) → replicate (a + b) true ≡ replicate a true ++ replicate b true
replicate-add zero b = replicate_congr (0 + b) b (omega arith)
replicate-add (suc a) b =
    replicate_congr (suc a + b) (suc (a + b)) (omega arith) ∙ ap (◌∷◌ true) (replicate-add a b)

-- The last 101 flags are all set.
abbrev pub EndsInFault : List Bool → Type 0
EndsInFault flags = (before : List Bool) × (flags ≡ before ++ replicate 101 true)

run_from-EndsInFault : (flags : List Bool) → (ltb 100 (run_from 0 flags) ≡ true) ↔ EndsInFault flags
run_from-EndsInFault flags = (
  λ long.
      let (before, e) = run_from-split 0 flags in
      let n = run_from 0 flags in
      (
        before ++ replicate (n - 101) true,
        e
            ∙ ap (λ xs. before ++ xs) (replicate_congr n ((n - 101) + 101) (ground arith))
            ∙ ap (λ xs. before ++ xs) (replicate-add (n - 101) 101)
            ∙ sym (append_assoc before (replicate (n - 101) true) (replicate 101 true)),
      ),
  λ (before, e).
      let enough : 101 ≤ run_from 0 flags = rw e (le-run_from 0 101 before) in ground arith,
)

over_hundred : (n : ℕ) → ltb_ℤ (pos 100) (pos n) ≡ ltb 100 n
over_hundred n = ground arith

abbrev is_mdps12 : Message → Bool
is_mdps12 mdps12 = true
is_mdps12 _ = false

module _ {F D : Type 0} (f : Floats F) (d : Floats D) where
  -- The reports of the MDPS12 frames that are read, in order: is the steering unavailable?
  unfoldable pub toi_flags : List (Received D) → List Bool
  toi_flags [] = []
  toi_flags (r ∷ rs) =
      let rest = toi_flags rs in
      let m = message_of r.address in
      if is_mdps12 m && is_read f d m r.len r.bus
      then (decode_mdps12 r.bytes).toi_unavailable ∷ rest
      else rest

  abbrev next_count : Message → List ℕ → ℕ → ℕ
  next_count m bytes n =
      if is_mdps12 m then (if (decode_mdps12 bytes).toi_unavailable then n + 1 else 0) else n

  mdps12_count :
      (bytes : List ℕ) (now_s : D) (n : ℕ) (s : VehicleCanState F D)
      → s.mdps_error_count ≡ pos n
      → (apply_mdps12 f d bytes now_s s).mdps_error_count ≡ pos (next_count mdps12 bytes n)
  unfolding apply_mdps12 ◌+ℤ◌
  mdps12_count bytes now_s n s e = rw e (ground arith)

  apply_message-count :
      (m : Message) (bytes : List ℕ) (now_s : D) (n : ℕ) (s : VehicleCanState F D)
      → s.mdps_error_count ≡ pos n
      → (apply_message f d m bytes now_s s).mdps_error_count ≡ pos (next_count m bytes n)
  unfolding apply_message apply_clu11 apply_esp12 apply_tcs13 apply_cgw1 apply_cgw2
  apply_message-count mdps12 bytes now_s n s e = mdps12_count bytes now_s n s e
  apply_message-count clu11 bytes now_s n s e =
      let seeded = record s { clu11_seed = first_four bytes; has_clu11_seed = true } in
      ap (λ x. x.mdps_error_count)
        (update-IsEstimated f (decode_clu11 f (first_four bytes)) seeded).same_rest
      ∙ e
  apply_message-count lkas11 bytes now_s n s e = e
  apply_message-count sas11 bytes now_s n s e = e
  apply_message-count esp12 bytes now_s n s e = e
  apply_message-count whl_spd11 bytes now_s n s e = e
  apply_message-count scc11 bytes now_s n s e = e
  apply_message-count scc12 bytes now_s n s e = e
  apply_message-count tcs13 bytes now_s n s e = e
  apply_message-count tcs15 bytes now_s n s e = e
  apply_message-count e_ems11 bytes now_s n s e = e
  apply_message-count elect_gear bytes now_s n s e = e
  apply_message-count cgw1 bytes now_s n s e = e
  apply_message-count cgw2 bytes now_s n s e = e
  apply_message-count lca11 bytes now_s n s e = e
  apply_message-count tpms11 bytes now_s n s e = e
  apply_message-count other bytes now_s n s e = e

  count_if :
      (read : Bool) (m : Message) (bytes : List ℕ) (now_s : D) (n : ℕ) (s : VehicleCanState F D)
      → s.mdps_error_count ≡ pos n
      → (if read then apply_message f d m bytes now_s s else s).mdps_error_count
        ≡ pos (if read then next_count m bytes n else n)
  count_if true m bytes now_s n s e = apply_message-count m bytes now_s n s e
  count_if false m bytes now_s n s e = e

  step_flags :
      (read mdps toi : Bool) (n : ℕ) (rest : List Bool)
      → run_from (if read then (if mdps then (if toi then n + 1 else 0) else n) else n) rest
        ≡ run_from n (if mdps && read then toi ∷ rest else rest)
  unfolding run_from
  step_flags true true true n rest = refl
  step_flags true true false n rest = refl
  step_flags true false toi n rest = refl
  step_flags false true toi n rest = refl
  step_flags false false toi n rest = refl

  receive_all-count :
      (rs : List (Received D)) (n : ℕ) (s : VehicleCanState F D)
      → s.mdps_error_count ≡ pos n
      → (receive_all f d rs s).mdps_error_count ≡ pos (run_from n (toi_flags rs))
  unfolding receive_all receive update_vehicle_can_state toi_flags run_from
  receive_all-count [] n s e = e
  receive_all-count (r ∷ rs) n s e =
      let m = message_of r.address in
      let read = is_read f d m r.len r.bus in
      let toi = (decode_mdps12 r.bytes).toi_unavailable in
      receive_all-count rs (if read then next_count m r.bytes n else n) (receive f d r s)
        (count_if read m r.bytes r.time_s n s e)
      ∙ ap pos (step_flags read (is_mdps12 m) toi n (toi_flags rs))

  -- From a consistent state with no error counted, after any frames there is a steering fault just
  -- when the last 101 MDPS12 frames that were read all report the steering as unavailable.
  pub steering_fault-EndsInFault :
      (rs : List (Received D)) (s : VehicleCanState F D)
      → IsConsistent s
      → s.mdps_error_count ≡ pos 0
      → ((receive_all f d rs s).steering_fault ≡ true) ↔ EndsInFault (toi_flags rs)
  steering_fault-EndsInFault rs s h e =
      let fault = (receive_all-IsConsistent f d rs s h).fault in
      let count = receive_all-count rs 0 s e in
      let over : (receive_all f d rs s).steering_fault ≡ ltb 100 (run_from 0 (toi_flags rs)) =
        fault ∙ ap (ltb_ℤ (pos 100)) count ∙ over_hundred (run_from 0 (toi_flags rs)) in
      rw over (run_from-EndsInFault (toi_flags rs))
