-- ===== src/Control/Holds/Window.antt =====
-- Permission to steer comes from a report that gave it, now or within the hold.
use mathlib.Core.Path.{subst}
use mathlib.Core.Bool.{false≢true}
use supercombo_k.Base.{
  ℕ, ◌+◌, ◌≤◌, ◌≡◌, refl, sym, ap, ◌∙◌, Bool, true, false, not, ◌&&◌, ◌||◌, List, [], ◌∷◌, arith,
  Bool-cases, inl, inr, ◌⊎◌,
}
use supercombo_k.Ipc.Messages.{K230PandaState}
use supercombo_k.Control.Holds.{
  PandaHealthGate, new_gate, flag, is_ready_raw, note_ready, holds, update, run,
  panda_health_hold_ns,
}

-- A report that was ready when it was looked at, and said `allowed` of the controls.
abbrev pub IsReport : Bool → K230PandaState → ℕ → Type 0
IsReport allowed state now_ns =
    (is_ready_raw state now_ns ≡ true) × (flag state.controls_allowed ≡ allowed)

-- The history holds such a report, looked at at the time `at`.
abbrev pub IsReported : List (K230PandaState × ℕ) → Bool → ℕ → Type 0
IsReported [] allowed at = ⊥
IsReported ((state, now_ns) ∷ rest) allowed at =
    (IsReport allowed state now_ns × (now_ns ≡ at)) ⊎ IsReported rest allowed at

-- What the gate remembers was in the history, or in the gate before it.
abbrev IsMemory : PandaHealthGate → PandaHealthGate → List (K230PandaState × ℕ) → Type 0
IsMemory start gate history =
    (gate ≡ start) ⊎ IsReported history gate.last_controls_allowed gate.last_ready_ns

run-IsMemory :
    (gate : PandaHealthGate) (history : List (K230PandaState × ℕ))
    → IsMemory gate (run gate history) history
unfolding run
run-IsMemory gate [] = inl refl
run-IsMemory gate ((state, now_ns) ∷ rest) =
    elim (run-IsMemory (note_ready gate state now_ns) rest) [
      | inl e ↦ elim (Bool-cases (is_ready_raw state now_ns)) [
        | inl ready ↦ inr (rw e (unfold note_ready in rw ready (inl ((refl, refl), refl))))
        | inr missing ↦ inl (e ∙ (unfold note_ready in rw missing refl))
      ]
      | inr reported ↦ inr (inr reported)
    ]

note_ready_missing :
    (gate : PandaHealthGate) (state : K230PandaState) (now_ns : ℕ)
    → is_ready_raw state now_ns ≡ false
    → note_ready gate state now_ns ≡ gate
unfolding note_ready
note_ready_missing gate state now_ns missing = rw missing refl

allowed_cases :
    (r a h l : Bool)
    → ((r && a) || ((not r && h) && l)) ≡ true
    → ((r ≡ true) × (a ≡ true)) ⊎ ((r ≡ false) × (h ≡ true) × (l ≡ true))
allowed_cases r a h l e = ground arith

holds-window :
    (gate : PandaHealthGate) (now_ns : ℕ)
    → holds gate now_ns ≡ true
    → (gate.have_last_ready ≡ true)
      × (gate.last_ready_ns ≤ now_ns)
      × (now_ns ≤ gate.last_ready_ns + panda_health_hold_ns)
unfolding holds
holds-window gate now_ns e = ground arith

-- Whatever reports came before, the gate allows the controls only if this report is ready and allows
-- them, or it is not ready and a report looked at at most 100 ms ago was ready and allowed them.
pub controls_allowed-IsReported :
    (history : List (K230PandaState × ℕ)) (state : K230PandaState) (now_ns : ℕ)
    → (update (run new_gate history) state now_ns false).1.controls_allowed ≡ true
    → IsReport true state now_ns
      ⊎ ((is_ready_raw state now_ns ≡ false)
          × ((at : ℕ) × IsReported history true at
              × (at ≤ now_ns)
              × (now_ns ≤ at + panda_health_hold_ns)))
unfolding update
controls_allowed-IsReported history state now_ns e =
    let gate : PandaHealthGate = run new_gate history in
    elim (allowed_cases (is_ready_raw state now_ns) (flag state.controls_allowed)
      (holds (note_ready gate state now_ns) now_ns)
      (note_ready gate state now_ns).last_controls_allowed e) [
        | inl now ↦ inl now
        | inr (missing, held, allowed) ↦
            let same : note_ready gate state now_ns ≡ gate =
              note_ready_missing gate state now_ns missing in
            let (have, after, within) =
              holds-window gate now_ns (ap (λ g. holds g now_ns) (sym same) ∙ held) in
            let allowed' : gate.last_controls_allowed ≡ true =
              ap (λ (g : PandaHealthGate). g.last_controls_allowed) (sym same) ∙ allowed in
            elim (run-IsMemory new_gate history) [
              | inl unused ↦
                  absurd (
                    false≢true
                      (sym (ap (λ (g : PandaHealthGate). g.have_last_ready) unused) ∙ have))
              | inr reported ↦ inr (
                missing,
                (
                  gate.last_ready_ns,
                  subst (λ b. IsReported history b gate.last_ready_ns) allowed' reported,
                  after,
                  within,
                ),
              )
            ]
      ]
