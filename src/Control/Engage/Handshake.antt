-- ===== src/Control/Engage/Handshake.antt =====
-- Who engages, who lets go, and how long a request may wait for the Panda.
use mathlib.Core.Bool.{false≢true}
use supercombo_k.Base.{
  ◌≡◌, refl, sym, ◌∙◌, Bool, true, false, not, ◌&&◌, ◌||◌, arith, Bool-cases, inl, inr,
}
use supercombo_k.Base.Int.{ℤ, pos}
use supercombo_k.Base.Floats.{Floats}
use supercombo_k.Control.Inputs.{VehicleCanState, LateralTarget, LateralPath}
use supercombo_k.Control.Block.{
  BlockKind, unblocked, reject, hard, transient, availability, block_kind,
}
use supercombo_k.Control.Engage.{
  LateralController, Observed, is_unblocked, is_hard, is_transient, is_availability, is_clear,
  button_set_decel, button_cancel, same_ℤ, active_block_reason, debounce_path, update_button_state,
  drop_on_fault, note_request, refuses, release, grace_elapsed, times_out, settle_request,
  refused_release, update_engagement, is_plan_invalid,
}

module _ {F D : Type 0} (f : Floats F) (d : Floats D) where
  -- After the frame, a request still waits only for the Panda and only within its grace of 1 s.
  abbrev pub IsWaiting : LateralController F D → BlockKind → D → Type 0
  IsWaiting c kind now_s =
      (c.engaged ≡ true) × (is_transient kind ≡ true) × (grace_elapsed f d c now_s ≡ false)

  settle_request-IsWaiting :
      (kind : BlockKind) (now_s : D) (c : LateralController F D)
      → (c.panda_engage_pending ≡ true → c.engaged ≡ true)
      → (settle_request f d kind now_s c).panda_engage_pending ≡ true
      → IsWaiting (settle_request f d kind now_s c) kind now_s
  unfolding settle_request times_out
  settle_request-IsWaiting kind now_s c engaged = elim (Bool-cases c.panda_engage_pending) [
    | inl p ↦ elim (Bool-cases (is_clear kind)) [
      | inl k ↦ rw (p, k) (λ e. absurd (false≢true e))
      | inr k ↦ elim (Bool-cases (is_transient kind)) [
        | inl t ↦ elim (Bool-cases (grace_elapsed f d c now_s)) [
          | inl g ↦ rw (p, k, t, g) (λ e. absurd (false≢true e))
          | inr g ↦ rw (p, k, t, g) (λ e. (engaged p, refl, g))
        ]
        | inr t ↦ rw (p, k, t) (λ e. absurd (false≢true e))
      ]
    ]
    | inr p ↦ rw p (λ e. absurd (false≢true e))
  ]

  -- Before a request is settled it waits only while the controller is engaged.
  before-settled :
      (requested logical : Bool) (kind : BlockKind) (now_s : D) (g : LateralController F D)
      → (g.panda_engage_pending ≡ true → g.engaged ≡ true)
      → (requested ≡ true → g.engaged ≡ true)
      → let c =
          refused_release f d
            (refuses f d requested kind)
            now_s
            (note_request f d requested kind now_s (drop_on_fault f d logical kind now_s g)) in
        c.panda_engage_pending ≡ true → c.engaged ≡ true
  unfolding refuses note_request drop_on_fault release
  before-settled false false unblocked now_s g waiting asked e = waiting e
  before-settled false true unblocked now_s g waiting asked e = waiting e
  before-settled true false unblocked now_s g waiting asked e = absurd (false≢true e)
  before-settled true true unblocked now_s g waiting asked e = absurd (false≢true e)
  before-settled false false reject now_s g waiting asked e = waiting e
  before-settled false true reject now_s g waiting asked e = waiting e
  before-settled true false reject now_s g waiting asked e = absurd (false≢true e)
  before-settled true true reject now_s g waiting asked e = absurd (false≢true e)
  before-settled false false hard now_s g waiting asked e = waiting e
  before-settled false true hard now_s g waiting asked e = absurd (false≢true e)
  before-settled true false hard now_s g waiting asked e = absurd (false≢true e)
  before-settled true true hard now_s g waiting asked e = absurd (false≢true e)
  before-settled false false transient now_s g waiting asked e = waiting e
  before-settled false true transient now_s g waiting asked e = waiting e
  before-settled true false transient now_s g waiting asked e = asked refl
  before-settled true true transient now_s g waiting asked e = asked refl
  before-settled false false availability now_s g waiting asked e = waiting e
  before-settled false true availability now_s g waiting asked e = waiting e
  before-settled true false availability now_s g waiting asked e = absurd (false≢true e)
  before-settled true true availability now_s g waiting asked e = absurd (false≢true e)

  set_released :
      (button last : ℤ)
      → (same_ℤ button (pos 0) && same_ℤ last button_set_decel) ≡ true
      → (same_ℤ button last ≡ false) × (same_ℤ button button_cancel ≡ false)
  set_released button last e = ground arith

  -- Only the release of SET engages, and it does.
  update_button_state-engaged :
      (c : LateralController F D) (button : ℤ) (now_s : D)
      → (same_ℤ button (pos 0) && same_ℤ c.last_button button_set_decel) ≡ true
      → (update_button_state f d c button now_s).engaged ≡ true
  unfolding update_button_state
  update_button_state-engaged c button now_s e =
      let (other, no_cancel) = set_released button c.last_button e in rw (other, no_cancel, e) refl

  update_button_state-waiting :
      (c : LateralController F D) (button : ℤ) (now_s : D)
      → (c.panda_engage_pending ≡ true → c.engaged ≡ true)
      → (update_button_state f d c button now_s).panda_engage_pending ≡ true
      → (update_button_state f d c button now_s).engaged ≡ true
  unfolding update_button_state
  update_button_state-waiting c button now_s waiting =
      elim (Bool-cases (same_ℤ button c.last_button)) [
        | inl e ↦ rw e waiting
        | inr e ↦ elim (Bool-cases (same_ℤ button button_cancel)) [
          | inl k ↦ rw (e, k) (λ p. absurd (false≢true p))
          | inr k ↦
              elim (Bool-cases (same_ℤ button (pos 0) && same_ℤ c.last_button button_set_decel)) [
                | inl r ↦ rw (e, k, r) (λ p. refl)
                | inr r ↦ rw (e, k, r) waiting
              ]
        ]
      ]

  debounce_path-waiting :
      (c : LateralController F D) (usable : Bool) (now_s : D)
      → let c' = debounce_path f d c usable now_s in
        (c'.engaged ≡ c.engaged) × (c'.panda_engage_pending ≡ c.panda_engage_pending)
  unfolding debounce_path
  debounce_path-waiting c false now_s = (refl, refl)
  debounce_path-waiting c true now_s = elim (Bool-cases c.path_usable_debounced) [
    | inl e ↦ rw e (refl, refl)
    | inr e ↦ rw e (refl, refl)
  ]

  settled-IsWaiting :
      (requested logical hold : Bool) (kind : BlockKind) (now_s : D) (g : LateralController F D)
      → (g.panda_engage_pending ≡ true → g.engaged ≡ true)
      → (requested ≡ true → g.engaged ≡ true)
      → let c = settle_request f d kind now_s (
          refused_release f d
            (refuses f d requested kind)
            now_s
            (note_request f d requested kind now_s (drop_on_fault f d logical kind now_s g))) in
        c.panda_engage_pending ≡ true
        → IsWaiting (record c { steer_availability_hold = hold }) kind now_s
  unfolding grace_elapsed
  settled-IsWaiting requested logical hold kind now_s g waiting asked =
      settle_request-IsWaiting kind now_s
        (refused_release f d (refuses f d requested kind) now_s
          (note_request f d requested kind now_s (drop_on_fault f d logical kind now_s g)))
        (before-settled requested logical kind now_s g waiting asked)

  asked_last : (a b r : Bool) → (a && (b && r)) ≡ true → r ≡ true
  asked_last a b r e = ground arith

  -- If a request waits only while the controller is engaged, then after `update` too, and then it waits
  -- for the Panda, and has waited less than its grace of 1 s.
  pub update_engagement-IsWaiting :
      (c : LateralController F D) (path : LateralPath F) (target : LateralTarget F)
      (v : VehicleCanState F D) (now_s : D) (o : Observed F)
      → (c.panda_engage_pending ≡ true → c.engaged ≡ true)
      → let r = update_engagement f d c path target v now_s o in
        r.controller.panda_engage_pending ≡ true
        → IsWaiting r.controller (block_kind r.active_block) now_s
  unfolding update_engagement
  update_engagement-IsWaiting c path target v now_s o waiting =
      let pressed = update_button_state f d c v.clu_button now_s in
      let gated = debounce_path f d pressed path.usable_for_steering now_s in
      let kept = debounce_path-waiting pressed path.usable_for_steering now_s in
      let released = same_ℤ v.clu_button (pos 0) && same_ℤ c.last_button button_set_decel in
      let block = active_block_reason f d gated target v now_s o in
      let logical = c.force_engaged || pressed.engaged in
      settled-IsWaiting (not c.force_engaged && (not c.engaged && released)) logical
        (logical
          && (not (is_unblocked (block_kind block))
              && (is_availability (block_kind block) || is_plan_invalid block)))
        (block_kind block) now_s gated
        (λ p. kept.0 ∙ update_button_state-waiting c v.clu_button now_s waiting (sym kept.1 ∙ p))
        (λ a.
          kept.0
          ∙ update_button_state-engaged c v.clu_button now_s
              (asked_last (not c.force_engaged) (not c.engaged) released a))

  settled_hard :
      (requested logical : Bool) (now_s : D) (g : LateralController F D)
      → (g.engaged ≡ true → logical ≡ true)
      → (settle_request f d hard now_s (
          refused_release f d (refuses f d requested hard) now_s (
            note_request f d requested hard now_s
              (drop_on_fault f d logical hard now_s g)))).engaged
        ≡ false
  unfolding settle_request times_out refuses note_request drop_on_fault release
  settled_hard true true now_s g known = refl
  settled_hard false true now_s g known = refl
  settled_hard true false now_s g known = refl
  settled_hard false false now_s g known = elim (Bool-cases g.engaged) [
    | inl e ↦ absurd (false≢true (known e))
    | inr e ↦ elim (Bool-cases g.panda_engage_pending) [ inl p ↦ rw p refl | inr p ↦ rw p e ]
  ]

  is_hard-eq : (kind : BlockKind) → is_hard kind ≡ true → kind ≡ hard
  is_hard-eq hard e = refl
  is_hard-eq unblocked e = absurd (false≢true e)
  is_hard-eq reject e = absurd (false≢true e)
  is_hard-eq transient e = absurd (false≢true e)
  is_hard-eq availability e = absurd (false≢true e)

  or_right : (a b : Bool) → b ≡ true → (a || b) ≡ true
  or_right a b e = ground arith

  -- In a frame whose block is a fault of the vehicle, the controller lets go, whatever was pressed.
  pub update_engagement-hard :
      (c : LateralController F D) (path : LateralPath F) (target : LateralTarget F)
      (v : VehicleCanState F D) (now_s : D) (o : Observed F)
      → let r = update_engagement f d c path target v now_s o in
        is_hard (block_kind r.active_block) ≡ true → r.controller.engaged ≡ false
  unfolding update_engagement
  update_engagement-hard c path target v now_s o e =
      let pressed = update_button_state f d c v.clu_button now_s in
      let gated = debounce_path f d pressed path.usable_for_steering now_s in
      let kept = debounce_path-waiting pressed path.usable_for_steering now_s in
      rw (is_hard-eq (block_kind (active_block_reason f d gated target v now_s o)) e) (
        settled_hard
          (not c.force_engaged
            && (not c.engaged
                && (same_ℤ v.clu_button (pos 0) && same_ℤ c.last_button button_set_decel)))
          (c.force_engaged || pressed.engaged) now_s gated
          (λ p. or_right c.force_engaged pressed.engaged (sym kept.0 ∙ p)))
