-- ===== src/Ipc/FrameRing/Tests.antt =====
-- A small plane, and one frame that is written over what a dead writer left.
use supercombo_k.Base.{
  ℕ, ◌≡◌, ◌≢◌, refl, true, [], ◌∷◌, none, some, ◌==◌, if◌then◌else◌, get_or, replicate, arith,
}
use supercombo_k.Ipc.FrameRing.{
  FrameRing, no_slot, write_slot_open, copy_slot, copy_attempts, quiet_slot_attempt, copy_plane,
  copy_rows,
}
use supercombo_k.Ipc.FrameRing.Planes.{copy_plane-copy_rows}
use supercombo_k.Ipc.FrameRing.Quiet.{copy_slot-write_slot}

copy_plane-copy_rows_example :
    copy_plane (replicate 6 0) 2 (1 ∷ 2 ∷ 3 ∷ 4 ∷ 5 ∷ 6 ∷ []) 2 3
    ≡ copy_rows (replicate 6 0) 2 (1 ∷ 2 ∷ 3 ∷ 4 ∷ 5 ∷ 6 ∷ []) 2 0 3
copy_plane-copy_rows_example =
    copy_plane-copy_rows (replicate 6 0) (1 ∷ 2 ∷ 3 ∷ 4 ∷ 5 ∷ 6 ∷ []) 2 3 (omega arith)

abbrev ring : FrameRing
ring = record {
  slot_count = 2;
  width = 1;
  height = 1;
  frame_bytes = 2;
  slots =
      record { seq = 3; frame_id = 4; bytes = 0 ∷ 0 ∷ [] }
      ∷ record { seq = 0; frame_id = 0; bytes = 0 ∷ 0 ∷ [] }
      ∷ [];
}

copy_slot-write_slot_example :
    let (ring', done) = write_slot_open ring 0 5 (7 ∷ 8 ∷ []) in
    (done ≡ true)
    × (copy_slot
          (some ring')
          0
          5
          true
          2
          (replicate copy_attempts (quiet_slot_attempt (get_or ring'.slots 0 no_slot)))
        ≡ (if 5 == 5 then some (7 ∷ 8 ∷ []) else none))
    × ((other : ℕ) → 0 ≢ other → get_or ring'.slots other no_slot ≡ get_or ring.slots other no_slot)
copy_slot-write_slot_example =
    copy_slot-write_slot ring 0 5 5 (7 ∷ 8 ∷ []) (omega arith) (omega arith) refl (omega arith)
