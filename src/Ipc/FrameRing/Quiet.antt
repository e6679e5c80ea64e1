-- ===== src/Ipc/FrameRing/Quiet.antt =====
-- One side at a time: the frame that was written is read, and only under its own number.
use mathlib.Core.Path.{subst}
use supercombo_k.Base.{
  ℕ, zero, suc, ◌+◌, ◌%◌, ◌≤◌, ◌<◌, ◌≡◌, ◌≢◌, refl, true, false, not, ◌||◌, List, none, some, arith,
  leb, ◌==◌, if◌then◌else◌, length, set, get_or, get_or-set_self, get_or-set_ne, replicate,
  Bool-cases, inl, inr,
}
use supercombo_k.Ipc.LatestChannel.{u64_mod, even_seq, is_stable}
use supercombo_k.Ipc.LatestChannel.Quiet.{even_seq-lt}
use supercombo_k.Ipc.FrameRing.{
  FrameRing, Slot, no_slot, write_slot_open, copy_attempts, is_unsettled, is_accepted,
  copy_slot_guarded, copy_slot, quiet_slot_attempt,
}

-- A slot at rest under an even number other than zero.
module _ (slot : Slot) (even : slot.seq % 2 ≡ 0) (started : 0 < slot.seq) where
  settled : is_unsettled slot.seq ≡ false
  unfolding is_unsettled
  settled = ground arith

  accepted : is_accepted slot.frame_id (quiet_slot_attempt slot) ≡ true
  unfolding is_accepted is_stable quiet_slot_attempt
  accepted = ground arith

  copy_other :
      (left wanted : ℕ)
      → slot.frame_id ≢ wanted
      → copy_slot_guarded left wanted (replicate left (quiet_slot_attempt slot)) ≡ none
  unfolding copy_slot_guarded quiet_slot_attempt
  copy_other zero wanted other = refl
  copy_other (suc left) wanted other = ground (arith, copy_other left wanted other, settled)

  copy_same :
      (left : ℕ)
      → copy_slot_guarded (suc left) slot.frame_id (replicate (suc left) (quiet_slot_attempt slot))
        ≡ some slot.bytes
  unfolding copy_slot_guarded quiet_slot_attempt
  copy_same left = ground (arith, settled, accepted)

  -- Eight attempts at a slot at rest.
  copy_quiet :
      (wanted : ℕ)
      → copy_slot_guarded copy_attempts wanted (replicate copy_attempts (quiet_slot_attempt slot))
        ≡ (if slot.frame_id == wanted then some slot.bytes else none)
  copy_quiet wanted = elim (Bool-cases (slot.frame_id == wanted)) [
    | inl e ↦
        let same : slot.frame_id ≡ wanted = ground arith in
        rw e (
          subst
            (λ w.
              copy_slot_guarded copy_attempts w (replicate copy_attempts (quiet_slot_attempt slot))
              ≡ some slot.bytes)
            same (copy_same 7))
    | inr e ↦ rw e (copy_other copy_attempts wanted (ground arith))
  ]

-- Writing a frame of the right size to a slot of the ring, whatever the slot held, also where a writer
-- that died had left an odd number, as long as the number does not wrap around 64 bits: the eight
-- undisturbed attempts of a copy from that slot give the bytes that were written if it asks for that
-- frame, and nothing if it asks for any other, and no other slot has changed.
pub copy_slot-write_slot :
    (ring : FrameRing) (index frame_id wanted : ℕ) (source : List ℕ)
    → index < ring.slot_count
    → ring.slot_count ≤ length ring.slots
    → length source ≡ ring.frame_bytes
    → (get_or ring.slots index no_slot).seq + 3 < u64_mod
    → let (ring', done) = write_slot_open ring index frame_id source in
      (done ≡ true)
      × (copy_slot
            (some ring')
            index
            wanted
            true
            (length source)
            (replicate copy_attempts (quiet_slot_attempt (get_or ring'.slots index no_slot)))
          ≡ (if frame_id == wanted then some source else none))
      × ((other : ℕ)
          → index ≢ other
          → get_or ring'.slots other no_slot ≡ get_or ring.slots other no_slot)
unfolding write_slot_open copy_slot
copy_slot-write_slot ring index frame_id wanted source inside room size small =
    let old : Slot = get_or ring.slots index no_slot in
    let (grows, even) = even_seq-lt old.seq small in
    let slot : Slot = record {
      seq = (even_seq old.seq + 2) % u64_mod;
      frame_id = frame_id;
      bytes = source;
    } in
    let passes : (leb ring.slot_count index || not (length source == ring.frame_bytes)) ≡ false =
      ground arith in
    let kept : get_or (set ring.slots index slot) index no_slot ≡ slot =
      get_or-set_self ring.slots index slot no_slot (omega arith) in
    rw passes (
      refl,
      rw (passes, kept) (copy_quiet slot even (omega arith) wanted),
      λ other apart. get_or-set_ne ring.slots index other slot no_slot apart,
    )
