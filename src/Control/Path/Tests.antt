-- ===== src/Control/Path/Tests.antt =====
-- A hold at work: a good path, then one whose points are all behind the car.
use supercombo_k.Base.{
  ℕ, ◌+◌, ◌≤◌, ◌≡◌, refl, true, List, [], ◌∷◌, ◌++◌, ◌⊎◌, replicate, text, same_text,
}
use supercombo_k.Base.Int.{ℤ, pos, ◌*ℤ◌, ◌+ℤ◌}
use supercombo_k.Control.Inputs.{LateralPath}
use supercombo_k.Control.Engage.Scene.{fixed}
use supercombo_k.Ipc.Messages.{timestamp_fresh_ns}
use supercombo_k.Control.Path.{
  K230IpcPoint, K230ModelState, is_stale, is_skipped, take_points, is_usable, judge, points_of,
  path_from_model_state, new_gate, holds, note_usable, hold_path, update, run, path_invalid_hold_ns,
}
use supercombo_k.Control.Path.Hold.{IsGood, IsSeen, update-IsGood}

abbrev point : ℤ → K230IpcPoint ℤ
point x = record { x = x; y = pos 0; z = pos 0 }

abbrev good : K230ModelState ℤ
good = record {
  model_timestamp_ns = 1000;
  valid = 1;
  plan =
      (point (pos 1000) ∷ point (pos 2000) ∷ point (pos 4000) ∷ point (pos 6000) ∷ [])
      ++ replicate 29 (point (pos 0));
  lane_probabilities = pos 0 ∷ pos 500 ∷ pos 200 ∷ pos 0 ∷ [];
}

abbrev bad : K230ModelState ℤ
bad = record good { model_timestamp_ns = 50001000; plan = replicate 33 (point (pos 0)) }

abbrev seen : List (K230ModelState ℤ × ℕ × ℕ)
seen = (good, 2000, 250000000) ∷ []

is_held :
    (update fixed
      (run fixed (new_gate fixed) seen)
      bad
      50002000
      250000000).1.path.usable_for_steering
    ≡ true
unfolding run update note_usable hold_path holds path_from_model_state points_of judge is_usable
    take_points is_skipped is_stale timestamp_fresh_ns ◌*ℤ◌ ◌+ℤ◌
is_held = refl

update-IsGood_example :
    (timestamp_fresh_ns bad.model_timestamp_ns 50002000 250000000 ≡ true)
    × (IsGood fixed bad 50002000 250000000
          (update fixed (run fixed (new_gate fixed) seen) bad 50002000 250000000).1.path
        ⊎ ((same_text
                (path_from_model_state fixed bad 50002000 250000000).invalid_reason
                (text "path_invalid")
              ≡ true)
            × ((path : LateralPath ℤ) × (at : ℕ) × ((update fixed
                    (run fixed (new_gate fixed) seen)
                    bad
                    50002000
                    250000000).1.path
                  ≡ record path { invalid_reason = [] })
                × IsSeen fixed seen path at
                × (at ≤ 50002000)
                × (50002000 ≤ at + path_invalid_hold_ns))))
update-IsGood_example = update-IsGood fixed seen bad 50002000 250000000 is_held
