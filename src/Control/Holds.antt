-- ===== src/Control/Holds.antt =====
-- `PandaHealthGate` of src/control_holds.cc: a short gap in the Panda's reports keeps the last verdict
-- for 100 ms. Times are in ns.
pub mod Window
mod Tests
use supercombo_k.Base.{
  ℕ, ◌-◌, Bool, true, false, not, ◌&&◌, ◌||◌, List, [], ◌∷◌, leb, ◌==◌, if◌then◌else◌,
}
use supercombo_k.Ipc.Messages.{K230PandaState, timestamp_fresh_ns}

abbrev pub expected_panda_safety_model : ℕ
expected_panda_safety_model = 24

abbrev pub expected_panda_safety_param : ℕ
expected_panda_safety_param = 0

abbrev pub panda_state_timeout_ns : ℕ
panda_state_timeout_ns = 1100000000

abbrev pub panda_health_hold_ns : ℕ
panda_health_hold_ns = 100000000

pub record PandaGateOutput : Type 0 where
  pub state_fresh : Bool
  pub ready_raw : Bool
  pub controls_off_explicit : Bool
  pub hold_applied : Bool
  pub ready : Bool
  pub controls_allowed : Bool

pub record PandaHealthGate : Type 0 where
  pub have_last_ready : Bool
  pub last_controls_allowed : Bool
  pub last_ready_ns : ℕ

abbrev pub new_gate : PandaHealthGate
new_gate = record { have_last_ready = false; last_controls_allowed = false; last_ready_ns = 0 }

-- n != 0, for a flag of the message.
abbrev pub flag : ℕ → Bool
flag n = not (n == 0)

pub is_ready_raw : K230PandaState → ℕ → Bool
unfolding timestamp_fresh_ns
is_ready_raw state now_ns =
    let transport_ready =
      timestamp_fresh_ns state.timestamp_ns now_ns panda_state_timeout_ns
      && (flag state.connected && (flag state.comms_healthy && flag state.tx_enabled)) in
    let safety_ready =
      state.heartbeat_lost == 0
      && (state.safety_mode == expected_panda_safety_model
          && state.safety_param == expected_panda_safety_param) in
    transport_ready && safety_ready

-- The gate's state after the report.
pub note_ready : PandaHealthGate → K230PandaState → ℕ → PandaHealthGate
unfolding is_ready_raw
note_ready gate state now_ns =
    if is_ready_raw state now_ns
    then record {
      have_last_ready = true;
      last_controls_allowed = flag state.controls_allowed;
      last_ready_ns = now_ns;
    }
    else gate

pub holds : PandaHealthGate → ℕ → Bool
holds gate now_ns =
    gate.have_last_ready
    && (leb gate.last_ready_ns now_ns && leb (now_ns - gate.last_ready_ns) panda_health_hold_ns)

pub update : PandaHealthGate → K230PandaState → ℕ → Bool → PandaHealthGate × PandaGateOutput
unfolding note_ready holds is_ready_raw
update gate state now_ns force_engaged =
    let ready_raw = is_ready_raw state now_ns in
    let controls_allowed_raw = ready_raw && flag state.controls_allowed in
    let gate' = note_ready gate state now_ns in
    let hold_applied = not ready_raw && holds gate' now_ns in
    (
      gate',
      record {
        state_fresh = timestamp_fresh_ns state.timestamp_ns now_ns panda_state_timeout_ns;
        ready_raw = ready_raw;
        controls_off_explicit = ready_raw && state.controls_allowed == 0;
        hold_applied = hold_applied;
        ready = force_engaged || (ready_raw || hold_applied);
        controls_allowed =
            force_engaged
            || (controls_allowed_raw || (hold_applied && gate'.last_controls_allowed));
      },
    )

-- The gate after a sequence of reports, each with the time at which it was looked at.
pub run : PandaHealthGate → List (K230PandaState × ℕ) → PandaHealthGate
unfolding update
run gate [] = gate
run gate ((state, now_ns) ∷ rest) = run (update gate state now_ns false).0 rest
