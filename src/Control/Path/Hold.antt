-- ===== src/Control/Path/Hold.antt =====
-- A path to steer along is a good one of this state, or of one shortly before.
use mathlib.Core.Path.{subst}
use mathlib.Core.Bool.{false≢true}
use supercombo_k.Base.{
  ℕ, ◌+◌, ◌≤◌, ◌≡◌, ◌≢◌, refl, sym, ap, ◌∙◌, Bool, true, false, not, ◌&&◌, List, [], ◌∷◌, arith,
  ◌==◌, if◌then◌else◌, Bool-cases, inl, inr, ◌⊎◌, text, same_text,
}
use supercombo_k.Base.Floats.{Floats}
use supercombo_k.Control.Inputs.{LateralPath}
use supercombo_k.Ipc.Messages.{timestamp_fresh_ns}
use supercombo_k.Control.Path.{
  K230ModelState, PathHoldGate, is_stale, is_usable, judge, points_of, path_from_model_state,
  new_gate, holds, note_usable, hold_path, update, run, path_invalid_hold_ns,
}

module _ {F : Type 0} (f : Floats F) where
  -- Looked at at that time, the state is valid, fresh, and its path is `path`, which has at least four
  -- points and reaches at least five metres.
  pub record IsGood (model : K230ModelState F) (now_ns timeout_ns : ℕ) (path : LateralPath F)
      : Type 0 where
    pub is_path : path_from_model_state f model now_ns timeout_ns ≡ path
    pub valid : model.valid ≢ 0
    pub fresh : timestamp_fresh_ns model.model_timestamp_ns now_ns timeout_ns ≡ true
    pub long : is_usable f path ≡ true

  -- One of the states was good, with that timestamp.
  abbrev pub IsSeen : List (K230ModelState F × ℕ × ℕ) → LateralPath F → ℕ → Type 0
  IsSeen [] path at = ⊥
  IsSeen ((model, now_ns, timeout_ns) ∷ rest) path at =
      (IsGood model now_ns timeout_ns path × (model.model_timestamp_ns ≡ at)) ⊎ IsSeen rest path at

  is_stale-fresh :
      (model : K230ModelState F) (now_ns timeout_ns : ℕ)
      → is_stale model now_ns timeout_ns ≡ false
      → timestamp_fresh_ns model.model_timestamp_ns now_ns timeout_ns ≡ true
  unfolding is_stale timestamp_fresh_ns
  is_stale-fresh model now_ns timeout_ns e = ground arith

  judge-is_usable :
      (path : LateralPath F)
      → (judge f path).usable_for_steering ≡ true
      → is_usable f (judge f path) ≡ true
  unfolding judge is_usable
  judge-is_usable path e = ground arith

  -- What the two early returns and the judgement of the points give.
  path-cases :
      (model : K230ModelState F) (now_ns timeout_ns : ℕ)
      → ((path_from_model_state f model now_ns timeout_ns).usable_for_steering ≡ false)
        ⊎ ((model.valid ≢ 0)
            × (timestamp_fresh_ns model.model_timestamp_ns now_ns timeout_ns ≡ true)
            × (path_from_model_state f model now_ns timeout_ns ≡ judge f (points_of f model)))
  unfolding path_from_model_state
  path-cases model now_ns timeout_ns = elim (Bool-cases (model.valid == 0)) [
    | inl e ↦ inl (rw e refl)
    | inr valid ↦ elim (Bool-cases (is_stale model now_ns timeout_ns)) [
      | inl e ↦ inl (rw (valid, e) refl)
      | inr e ↦ inr (ground arith, is_stale-fresh model now_ns timeout_ns e, rw (valid, e) refl)
    ]
  ]

  usable-IsGood :
      (model : K230ModelState F) (now_ns timeout_ns : ℕ)
      → (path_from_model_state f model now_ns timeout_ns).usable_for_steering ≡ true
      → IsGood model now_ns timeout_ns (path_from_model_state f model now_ns timeout_ns)
  usable-IsGood model now_ns timeout_ns e = elim (path-cases model now_ns timeout_ns) [
    | inl not_usable ↦ absurd (false≢true (sym not_usable ∙ e))
    | inr (valid, fresh, same) ↦ record {
      is_path = refl;
      valid = valid;
      fresh = fresh;
      long =
          ap (is_usable f) same
          ∙ judge-is_usable (points_of f model)
              (sym (ap (λ (q : LateralPath F). q.usable_for_steering) same) ∙ e);
    }
  ]

  note_usable-true :
      (gate : PathHoldGate F) (raw : LateralPath F) (timestamp_ns : ℕ)
      → raw.usable_for_steering ≡ true
      → note_usable f gate raw timestamp_ns
        ≡ record { last_usable = raw; last_usable_model_timestamp_ns = timestamp_ns }
  unfolding note_usable
  note_usable-true gate raw timestamp_ns e =
      ap
        (λ (b : Bool).
          if b
          then record { last_usable = raw; last_usable_model_timestamp_ns = timestamp_ns }
          else gate)
        e

  -- What the gate remembers was seen, or was in the gate before.
  run-IsSeen :
      (gate : PathHoldGate F) (history : List (K230ModelState F × ℕ × ℕ))
      → (run f gate history ≡ gate)
        ⊎ IsSeen history
            (run f gate history).last_usable
            (run f gate history).last_usable_model_timestamp_ns
  unfolding run update
  run-IsSeen gate [] = inl refl
  run-IsSeen gate ((model, now_ns, timeout_ns) ∷ rest) =
      let raw = path_from_model_state f model now_ns timeout_ns in
      elim (run-IsSeen (note_usable f gate raw model.model_timestamp_ns) rest) [
        | inr seen ↦ inr (inr seen)
        | inl e ↦ elim (Bool-cases raw.usable_for_steering) [
          | inl usable ↦ inr (
              rw (e, note_usable-true gate raw model.model_timestamp_ns usable)
                (inl (usable-IsGood model now_ns timeout_ns usable, refl)))
          | inr not_usable ↦ inl (e ∙ (unfold note_usable in rw not_usable refl))
        ]
      ]

  holds-window :
      (gate : PathHoldGate F) (raw : LateralPath F) (model : K230ModelState F)
      (now_ns timeout_ns : ℕ)
      → holds f gate raw model now_ns timeout_ns ≡ true
      → (same_text raw.invalid_reason (text "path_invalid") ≡ true)
        × (gate.last_usable.usable_for_steering ≡ true)
        × (timestamp_fresh_ns model.model_timestamp_ns now_ns timeout_ns ≡ true)
        × (gate.last_usable_model_timestamp_ns ≤ now_ns)
        × (now_ns ≤ gate.last_usable_model_timestamp_ns + path_invalid_hold_ns)
  unfolding holds
  holds-window gate raw model now_ns timeout_ns e = ground arith

  hold_path-cases :
      (gate : PathHoldGate F) (raw : LateralPath F) (model : K230ModelState F)
      (now_ns timeout_ns : ℕ)
      → ((hold_path f gate raw model now_ns timeout_ns).path ≡ raw)
        ⊎ ((holds f gate raw model now_ns timeout_ns ≡ true)
            × ((hold_path f gate raw model now_ns timeout_ns).path
                ≡ record gate.last_usable { invalid_reason = [] }))
  unfolding hold_path
  hold_path-cases gate raw model now_ns timeout_ns =
      elim (Bool-cases (not raw.usable_for_steering && holds f gate raw model now_ns timeout_ns)) [
        | inl e ↦ inr (ground arith, rw e refl)
        | inr e ↦ inl (rw e refl)
      ]

  -- Whatever states of the model came before, if the path that is handed over can be steered along,
  -- then the state that is now looked at is fresh, and either it is valid and the path is its own, of
  -- at least four points and five metres, or its own path is reported as path_invalid and the path,
  -- but for its reason, is that of an earlier state, which was valid and fresh when it was looked at,
  -- whose path had at least four points and five metres, and whose timestamp is at most 150 ms old.
  pub update-IsGood :
      (history : List (K230ModelState F × ℕ × ℕ)) (model : K230ModelState F) (now_ns timeout_ns : ℕ)
      → (update f (run f (new_gate f) history) model now_ns timeout_ns).1.path.usable_for_steering
        ≡ true
      → (timestamp_fresh_ns model.model_timestamp_ns now_ns timeout_ns ≡ true)
        × (IsGood model now_ns timeout_ns
              (update f (run f (new_gate f) history) model now_ns timeout_ns).1.path
            ⊎ ((same_text
                    (path_from_model_state f model now_ns timeout_ns).invalid_reason
                    (text "path_invalid")
                  ≡ true)
                × ((path : LateralPath F) × (at : ℕ) × ((update f
                        (run f (new_gate f) history)
                        model
                        now_ns
                        timeout_ns).1.path
                      ≡ record path { invalid_reason = [] })
                    × IsSeen history path at
                    × (at ≤ now_ns)
                    × (now_ns ≤ at + path_invalid_hold_ns))))
  unfolding update
  update-IsGood history model now_ns timeout_ns usable =
      let gate = run f (new_gate f) history in
      let raw = path_from_model_state f model now_ns timeout_ns in
      elim (hold_path-cases gate raw model now_ns timeout_ns) [
        | inl same ↦
            let good =
              usable-IsGood model now_ns timeout_ns
                (sym (ap (λ (q : LateralPath F). q.usable_for_steering) same) ∙ usable) in
            (good.fresh, inl (subst (IsGood model now_ns timeout_ns) (sym same) good))
        | inr (held, same) ↦
            let (invalid, was, fresh, after, within) =
              holds-window gate raw model now_ns timeout_ns held in
            elim (run-IsSeen (new_gate f) history) [
              | inl unused ↦ absurd (
                  false≢true (
                    sym (ap (λ (g : PathHoldGate F). g.last_usable.usable_for_steering) unused)
                    ∙ was))
              | inr seen ↦ (
                fresh,
                inr (
                  invalid,
                  (
                    gate.last_usable, gate.last_usable_model_timestamp_ns, same, seen, after,
                    within,
                  ),
                ),
              )
            ]
      ]
