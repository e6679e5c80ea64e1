-- ===== src/Control/Hud/Services.antt =====
-- The services are healthy only if each of them runs.
use supercombo_k.Base.{
  ℕ, zero, suc, ◌≤◌, ◌≡◌, refl, sym, ap, ◌∙◌, Bool, true, false, if◌then◌else◌, min, List, [], ◌∷◌,
  take, All, arith, Bool-cases, inl, inr,
}
use supercombo_k.Base.Floats.{Floats}
use supercombo_k.Ipc.Messages.{K230ProcessState, K230ManagerState}
use supercombo_k.Control.Hud.{
  OverlayHudState, max_processes, flag, count_running, hud_apply_manager_state,
}

abbrev pub IsRunning : K230ProcessState → Type 0
IsRunning p = flag p.running ≡ true

count_running-le : (total : ℕ) (ps : List K230ProcessState) → count_running total ps ≤ total
unfolding count_running
count_running-le zero ps = omega arith
count_running-le (suc total) [] = omega arith
count_running-le (suc total) (p ∷ ps) = ground (arith, count_running-le total ps)

count_running-All :
    (total : ℕ) (ps : List K230ProcessState)
    → count_running total ps ≡ total
    → All IsRunning (take total ps)
unfolding count_running
count_running-All zero ps e = tt
count_running-All (suc total) [] e = tt
count_running-All (suc total) (p ∷ ps) e = elim (Bool-cases (flag p.running)) [
  | inl r ↦
      let same : suc (count_running total ps) ≡ suc total =
        ap (λ b. if b then suc (count_running total ps) else count_running total ps) (sym r) ∙ e in
      (r, count_running-All total ps (omega arith))
  | inr r ↦
      let same : count_running total ps ≡ suc total =
        ap (λ b. if b then suc (count_running total ps) else count_running total ps) (sym r) ∙ e in
      absurd (omega (arith, count_running-le total ps))
]

-- If the HUD shows healthy services, the message is fresh, the model is well, and at least three
-- processes, each of them running, are listed.
pub services_healthy-IsRunning :
    {F : Type 0} (f : Floats F) (manager : K230ManagerState) (fresh model_ok : Bool)
    (hud : OverlayHudState F)
    → (hud_apply_manager_state f manager fresh model_ok hud).services_healthy ≡ true
    → (fresh ≡ true)
      × (model_ok ≡ true)
      × (3 ≤ manager.process_count)
      × All IsRunning (take (min manager.process_count max_processes) manager.processes)
unfolding hud_apply_manager_state
services_healthy-IsRunning f manager false model_ok hud e = ground arith
services_healthy-IsRunning f manager true model_ok hud e =
    let total = min manager.process_count max_processes in
    let facts : (3 ≤ total) × (count_running total manager.processes ≡ total) × (model_ok ≡ true) =
      ground arith in
    (refl, facts.2, omega (arith, facts.0), count_running-All total manager.processes facts.1)
