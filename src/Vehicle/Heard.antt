-- ===== src/Vehicle/Heard.antt =====
-- The state is fresh only if each message that it needs was received lately.
use mathlib.Core.Bool.{false≢true}
use supercombo_k.Base.{
  All-get_or, and_true, leb, ℕ, ◌<◌, ◌≡◌, refl, sym, ap, ◌∙◌, ◌⊎◌, inl, inr, Bool, true, false,
  ◌&&◌, List, [], ◌∷◌, All, arith,
}
use supercombo_k.Base.Int.{pos, negsuc}
use supercombo_k.Base.Floats.{Floats}
use supercombo_k.Control.Inputs.{VehicleCanState}
use supercombo_k.Control.Engage.{signal_time_fresh}
use supercombo_k.Vehicle.Dispatch.{
  Message, lkas11, clu11, sas11, whl_spd11, mdps12, tcs13, tcs15, e_ems11, elect_gear, cgw1, cgw2,
  message_of, expected_openpilot_bus, least_length, is_read,
}
use supercombo_k.Vehicle.Read.{vehicle_state_fresh}
use supercombo_k.Vehicle.Times.{
  Received, slot, times, receive_all, receive, time_of, receive-time_of,
}

eleven :
    (a b c e g h i j k l m : Bool)
    → (a && b && c && e && g && h && i && j && k && l && m) ≡ true
    → All (λ x. x ≡ true) (a ∷ b ∷ c ∷ e ∷ g ∷ h ∷ i ∷ j ∷ k ∷ l ∷ m ∷ [])
eleven a b c e g h i j k l m t = ground arith

module _ {F D : Type 0} (f : Floats F) (d : Floats D) where
  -- The frame is that message, comes from its bus, is long enough, and is fresh at a later time.
  pub record IsHearing (m : Message) (now_s timeout_s : D) (r : Received D) : Type 0 where
    pub same_message : message_of r.address ≡ m
    pub right_bus : expected_openpilot_bus m r.bus ≡ true
    pub long_enough : leb (least_length m) r.len ≡ true
    pub fresh : signal_time_fresh f d r.time_s now_s timeout_s ≡ true

  -- One of the frames is.
  abbrev pub IsHeard : Message → D → D → List (Received D) → Type 0
  IsHeard m now_s timeout_s [] = ⊥
  IsHeard m now_s timeout_s (r ∷ rest) =
      IsHearing m now_s timeout_s r ⊎ IsHeard m now_s timeout_s rest

  -- A frame that is read comes from the right bus and is long enough.
  is_read-parts :
      (m : Message) (n bus : ℕ)
      → is_read f d m n bus ≡ true
      → (expected_openpilot_bus m bus ≡ true) × (leb (least_length m) n ≡ true)
  unfolding is_read
  is_read-parts m n bus t = and_true _ _ t

  fresh_cases :
      (m : Message) (now_s timeout_s : D) (rs : List (Received D)) (s : VehicleCanState F D)
      → slot m < 15
      → signal_time_fresh f d (time_of f d m (receive_all f d rs s)) now_s timeout_s ≡ true
      → (signal_time_fresh f d (time_of f d m s) now_s timeout_s ≡ true)
        ⊎ IsHeard m now_s timeout_s rs
  unfolding receive_all
  fresh_cases m now_s timeout_s [] s h fresh = inl fresh
  fresh_cases m now_s timeout_s (r ∷ rs) s h fresh =
      elim (fresh_cases m now_s timeout_s rs (receive f d r s) h fresh) [
        | inr later ↦ inr (inr later)
        | inl before ↦ elim (receive-time_of f d m r s h) [
          | inl kept ↦ inl (ap (λ t. signal_time_fresh f d t now_s timeout_s) (sym kept) ∙ before)
          | inr (same, was, time) ↦ inr (
              inl (record {
                same_message = same;
                right_bus =
                    (is_read-parts m r.len r.bus
                      (ap (λ k. is_read f d k r.len r.bus) (sym same) ∙ was)).0;
                long_enough =
                    (is_read-parts m r.len r.bus
                      (ap (λ k. is_read f d k r.len r.bus) (sym same) ∙ was)).1;
                fresh = ap (λ t. signal_time_fresh f d t now_s timeout_s) (sym time) ∙ before;
              }))
        ]
      ]

  -- The messages without which the controller does not steer.
  abbrev pub required : List Message
  required =
      lkas11 ∷ clu11 ∷ sas11 ∷ mdps12 ∷ tcs13 ∷ tcs15 ∷ e_ems11 ∷ elect_gear ∷ cgw1 ∷ cgw2
      ∷ whl_spd11 ∷ []

  -- No message has been received yet.
  abbrev pub IsUnheard : VehicleCanState F D → Type 0
  IsUnheard s = All (λ t. t ≡ d.lit (negsuc 0) 0) (times f d s)

  -- A time of -1 s is not fresh.
  stale :
      (m : Message) (now_s timeout_s : D) (s : VehicleCanState F D)
      → d.le (d.lit (pos 0) 0) (d.lit (negsuc 0) 0) ≡ false
      → IsUnheard s
      → signal_time_fresh f d (time_of f d m s) now_s timeout_s ≡ false
  unfolding signal_time_fresh
  stale m now_s timeout_s s negative unheard =
      let e : D = d.lit (negsuc 0) 0 in
      rw (All-get_or (λ t. t ≡ e) (times f d s) (slot m) e unheard refl, negative) refl

  heard :
      (m : Message) (now_s timeout_s : D) (rs : List (Received D)) (s : VehicleCanState F D)
      → d.le (d.lit (pos 0) 0) (d.lit (negsuc 0) 0) ≡ false
      → IsUnheard s
      → slot m < 15
      → signal_time_fresh f d (time_of f d m (receive_all f d rs s)) now_s timeout_s ≡ true
      → IsHeard m now_s timeout_s rs
  heard m now_s timeout_s rs s negative unheard h fresh =
      elim (fresh_cases m now_s timeout_s rs s h fresh) [
        | inl before ↦
            absurd (false≢true (sym (stale m now_s timeout_s s negative unheard) ∙ before))
        | inr later ↦ later
      ]

  each_received :
      (ms : List Message) (now_s timeout_s : D) (rs : List (Received D)) (s : VehicleCanState F D)
      → d.le (d.lit (pos 0) 0) (d.lit (negsuc 0) 0) ≡ false
      → IsUnheard s
      → All (λ m. slot m < 15) ms
      → All
          (λ m. signal_time_fresh f d (time_of f d m (receive_all f d rs s)) now_s timeout_s ≡ true)
          ms
      → All (λ m. IsHeard m now_s timeout_s rs) ms
  each_received [] now_s timeout_s rs s negative unheard h fresh = tt
  each_received (m ∷ ms) now_s timeout_s rs s negative unheard h fresh = (
    heard m now_s timeout_s rs s negative unheard h.0 fresh.0,
    each_received ms now_s timeout_s rs s negative unheard h.1 fresh.1,
  )

  -- If -1 is less than 0 and no message has a time in a state, then after any frames the state is
  -- fresh only if for each of the eleven messages that the controller needs there is a frame among
  -- them with the address of that message, from the bus that is expected for it, long enough, and
  -- not older than the timeout.
  pub vehicle_state_fresh-IsHeard :
      (rs : List (Received D)) (s : VehicleCanState F D) (now_s timeout_s : D)
      → d.le (d.lit (pos 0) 0) (d.lit (negsuc 0) 0) ≡ false
      → IsUnheard s
      → vehicle_state_fresh f d (receive_all f d rs s) now_s timeout_s ≡ true
      → All (λ m. IsHeard m now_s timeout_s rs) required
  unfolding vehicle_state_fresh
  vehicle_state_fresh-IsHeard rs s now_s timeout_s negative unheard fresh =
      each_received required now_s timeout_s rs s negative unheard (ground arith)
        (eleven _ _ _ _ _ _ _ _ _ _ _ fresh)
