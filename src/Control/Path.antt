-- ===== src/Control/Path.antt =====
-- `path_from_model_state` of src/lateral_path.cc and `PathHoldGate` of src/control_holds.cc: whether
-- the plan of the model can be steered along, and the last good path for 150 ms while it cannot.
pub mod Hold
mod Tests
use supercombo_k.Base.{
  ℕ, ◌-◌, Bool, true, false, not, ◌&&◌, ◌||◌, List, [], ◌∷◌, ltb, leb, ◌==◌, if◌then◌else◌, get_or,
  take, Text, text, same_text,
}
use supercombo_k.Base.Int.{ℤ, pos, ◌+ℤ◌, ltb_ℤ}
use supercombo_k.Base.Floats.{Floats}
use supercombo_k.Control.Inputs.{LateralPath}
use supercombo_k.Ipc.Messages.{timestamp_fresh_ns}

abbrev pub path_invalid_hold_ns : ℕ
path_invalid_hold_ns = 150000000

abbrev trajectory_size : ℕ
trajectory_size = 33

pub record K230IpcPoint (F : Type 0) : Type 0 where
  pub x : F
  pub y : F
  pub z : F

-- The members of K230ModelState that decide on the path.
pub record K230ModelState (F : Type 0) : Type 0 where
  pub model_timestamp_ns : ℕ
  pub valid : ℕ
  pub plan : List (K230IpcPoint F)
  pub lane_probabilities : List F

pub record PathHoldOutput (F : Type 0) : Type 0 where
  pub raw : LateralPath F
  pub path : LateralPath F
  pub hold_applied : Bool

pub record PathHoldGate (F : Type 0) : Type 0 where
  pub last_usable : LateralPath F
  pub last_usable_model_timestamp_ns : ℕ

unfoldable pub is_stale : {F : Type 0} → K230ModelState F → ℕ → ℕ → Bool
is_stale state now_ns timeout_ns =
    state.model_timestamp_ns == 0
    || (ltb now_ns state.model_timestamp_ns || ltb timeout_ns (now_ns - state.model_timestamp_ns))

module _ {F : Type 0} (f : Floats F) where
  -- The initial values of a LateralPath.
  abbrev pub no_path : LateralPath F
  no_path = record {
    point_count = pos 0;
    reach_m = f.lit (pos 0) 0;
    left_valid = false;
    right_valid = false;
    usable_for_steering = false;
    invalid_reason = [];
  }

  unfoldable pub is_skipped : K230IpcPoint F → LateralPath F → Bool
  is_skipped p path =
      not (f.is_finite p.x)
      || (not (f.is_finite p.y)
          || (f.lt p.x (f.lit (pos 1) 0)
              || (f.lt (f.lit (pos 80) 0) p.x
                  || (ltb_ℤ (pos 0) path.point_count && f.le p.x path.reach_m))))

  unfoldable pub take_points : List (K230IpcPoint F) → LateralPath F → LateralPath F
  take_points [] path = path
  take_points (p ∷ ps) path = take_points ps (
      if is_skipped p path
      then path
      else record path { reach_m = p.x; point_count = path.point_count +ℤ pos 1 })

  unfoldable pub is_usable : LateralPath F → Bool
  is_usable path = not (ltb_ℤ path.point_count (pos 4)) && f.le (f.lit (pos 5) 0) path.reach_m

  unfoldable pub judge : LateralPath F → LateralPath F
  judge path =
      if is_usable path
      then record path { usable_for_steering = true }
      else record path { usable_for_steering = false; invalid_reason = text "path_invalid" }

  -- The lanes and the points of a state.
  unfoldable pub points_of : K230ModelState F → LateralPath F
  points_of state = take_points (take trajectory_size state.plan) (record no_path {
    left_valid = f.le (f.lit (pos 3) 1) (get_or state.lane_probabilities 1 (f.lit (pos 0) 0));
    right_valid = f.le (f.lit (pos 3) 1) (get_or state.lane_probabilities 2 (f.lit (pos 0) 0));
  })

  unfoldable pub path_from_model_state : K230ModelState F → ℕ → ℕ → LateralPath F
  path_from_model_state state now_ns timeout_ns =
      if state.valid == 0
      then record no_path { invalid_reason = text "model_invalid" }
      else if is_stale state now_ns timeout_ns
      then record no_path { invalid_reason = text "model_stale" }
      else judge (points_of state)

  abbrev pub new_gate : PathHoldGate F
  new_gate = record { last_usable = no_path; last_usable_model_timestamp_ns = 0 }

  unfoldable pub holds : PathHoldGate F → LateralPath F → K230ModelState F → ℕ → ℕ → Bool
  holds gate raw model now_ns timeout_ns =
      same_text raw.invalid_reason (text "path_invalid")
      && (gate.last_usable.usable_for_steering
          && (timestamp_fresh_ns model.model_timestamp_ns now_ns timeout_ns
              && (not (gate.last_usable_model_timestamp_ns == 0)
                  && (leb gate.last_usable_model_timestamp_ns now_ns
                      && leb (now_ns - gate.last_usable_model_timestamp_ns) path_invalid_hold_ns))))

  -- The gate after a path.
  unfoldable pub note_usable : PathHoldGate F → LateralPath F → ℕ → PathHoldGate F
  note_usable gate raw timestamp_ns =
      if raw.usable_for_steering
      then record { last_usable = raw; last_usable_model_timestamp_ns = timestamp_ns }
      else gate

  -- What is handed over for a path.
  unfoldable pub hold_path :
      PathHoldGate F → LateralPath F → K230ModelState F → ℕ → ℕ → PathHoldOutput F
  hold_path gate raw model now_ns timeout_ns =
      if not raw.usable_for_steering && holds gate raw model now_ns timeout_ns
      then record {
        raw = raw;
        path = record gate.last_usable { invalid_reason = [] };
        hold_applied = true;
      }
      else record { raw = raw; path = raw; hold_applied = false }

  unfoldable pub update :
      PathHoldGate F → K230ModelState F → ℕ → ℕ → PathHoldGate F × PathHoldOutput F
  update gate model now_ns timeout_ns =
      let raw = path_from_model_state model now_ns timeout_ns in
      (note_usable gate raw model.model_timestamp_ns, hold_path gate raw model now_ns timeout_ns)

  -- The gate after a sequence of states, each with the time and the timeout it was looked at with.
  unfoldable pub run : PathHoldGate F → List (K230ModelState F × ℕ × ℕ) → PathHoldGate F
  run gate [] = gate
  run gate ((model, now_ns, timeout_ns) ∷ rest) = run (update gate model now_ns timeout_ns).0 rest
