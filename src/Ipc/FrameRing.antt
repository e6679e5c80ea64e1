-- ===== src/Ipc/FrameRing.antt =====
-- `K230FrameRing` of src/ipc_channels.cc: camera frames in slots, each behind a sequence lock and
-- under the number of its frame. `none` is a ring that is not open, or a null pointer.
pub mod Planes
pub mod Quiet
mod Tests
use mathlib.Core.Option
use supercombo_k.Base.{
  ℕ, zero, suc, ◌+◌, ◌*◌, ◌%◌, ◌/◌, Bool, true, false, not, ◌&&◌, ◌||◌, List, [], ◌∷◌, ◌++◌, Option,
  none, some, ltb, leb, ◌==◌, if◌then◌else◌, length, take, drop, set, get_or,
}
use supercombo_k.Ipc.LatestChannel.{u64_mod, even_seq, is_odd, is_stable}

-- slot_seq and slot_frame_id of the header at one index, and the bytes of that frame.
pub record Slot : Type 0 where
  pub seq : ℕ
  pub frame_id : ℕ
  pub bytes : List ℕ

-- K230FrameRingHeader, less its magic numbers, and the frames behind it.
pub record FrameRing : Type 0 where
  pub slot_count : ℕ
  pub width : ℕ
  pub height : ℕ
  pub frame_bytes : ℕ
  pub slots : List Slot

abbrev pub no_slot : Slot
no_slot = record { seq = 0; frame_id = 0; bytes = [] }

unfoldable pub write_slot_open : FrameRing → ℕ → ℕ → List ℕ → FrameRing × Bool
write_slot_open ring index frame_id source =
    if leb ring.slot_count index || not (length source == ring.frame_bytes)
    then (ring, false)
    else (
      record ring {
        slots = set ring.slots index (record {
          seq = (even_seq (get_or ring.slots index no_slot).seq + 2) % u64_mod;
          frame_id = frame_id;
          bytes = source;
        });
      },
      true,
    )

unfoldable pub write_slot : Option FrameRing → ℕ → ℕ → Option (List ℕ) → Option FrameRing × Bool
write_slot (some ring) index frame_id (some source) =
    let (ring', done) = write_slot_open ring index frame_id source in (some ring', done)
write_slot (some ring) index frame_id none = (some ring, false)
write_slot none index frame_id source = (none, false)

-- What the loads and the copy of one attempt see, while the writer may be at work.
pub record SlotAttempt : Type 0 where
  pub before : ℕ
  pub before_frame_id : ℕ
  pub copied : List ℕ
  pub after : ℕ
  pub after_frame_id : ℕ

abbrev pub copy_attempts : ℕ
copy_attempts = 8

-- `before == 0 || (before & 1ULL) != 0`.
unfoldable pub is_unsettled : ℕ → Bool
is_unsettled before = before == 0 || is_odd before

unfoldable pub is_accepted : ℕ → SlotAttempt → Bool
is_accepted frame_id a = is_stable a.before a.after && a.after_frame_id == frame_id

-- The loop of `copy_slot_guarded`. A newer frame in the slot ends it.
unfoldable pub copy_slot_guarded : ℕ → ℕ → List SlotAttempt → Option (List ℕ)
copy_slot_guarded zero frame_id attempts = none
copy_slot_guarded (suc left) frame_id [] = none
copy_slot_guarded (suc left) frame_id (a ∷ rest) =
    let more = copy_slot_guarded left frame_id rest in
    if is_unsettled a.before
    then more
    else if not (a.before_frame_id == frame_id)
    then (if ltb frame_id a.before_frame_id then none else more)
    else (if is_accepted frame_id a then some a.copied else more)

pub copy_slot : Option FrameRing → ℕ → ℕ → Bool → ℕ → List SlotAttempt → Option (List ℕ)
copy_slot none index frame_id has_destination size attempts = none
copy_slot (some ring) index frame_id has_destination size attempts =
    if not has_destination || (leb ring.slot_count index || not (size == ring.frame_bytes))
    then none
    else copy_slot_guarded copy_attempts frame_id attempts

-- memcpy to an offset.
abbrev pub copy_at : List ℕ → ℕ → List ℕ → List ℕ
copy_at destination offset bytes =
    take offset destination ++ (bytes ++ drop (offset + length bytes) destination)

-- The rows from `row` on, `left` of them.
unfoldable pub copy_rows : List ℕ → ℕ → List ℕ → ℕ → ℕ → ℕ → List ℕ
copy_rows destination stride source width row zero = destination
copy_rows destination stride source width row (suc left) =
    copy_rows (copy_at destination (row * stride) (take width (drop (row * width) source))) stride
      source width (row + 1) left

unfoldable pub copy_plane : List ℕ → ℕ → List ℕ → ℕ → ℕ → List ℕ
copy_plane destination destination_stride source width rows =
    if destination_stride == width
    then copy_at destination 0 (take (width * rows) source)
    else copy_rows destination destination_stride source width 0 rows

-- The luma and the chroma that the copy of `copy_slot_planes` leaves.
unfoldable pub copy_planes : FrameRing → List ℕ → List ℕ → ℕ → List ℕ → ℕ → List ℕ × List ℕ
copy_planes ring from luma luma_stride chroma chroma_stride = (
  copy_plane luma luma_stride from ring.width ring.height,
  copy_plane chroma chroma_stride (drop (ring.width * ring.height) from) ring.width
      (ring.height / 2),
)

-- What a copy that succeeds leaves in the two planes; one that fails may leave anything there.
pub copy_slot_planes :
    Option FrameRing
    → ℕ
    → ℕ
    → Option (List ℕ)
    → ℕ
    → Option (List ℕ)
    → ℕ
    → List SlotAttempt
    → Option (List ℕ × List ℕ)
copy_slot_planes (some ring) index frame_id (some luma) luma_stride (some chroma) chroma_stride
      attempts =
    if leb ring.slot_count index || (ltb luma_stride ring.width || ltb chroma_stride ring.width)
    then none
    else Option.map (λ from. copy_planes ring from luma luma_stride chroma chroma_stride)
        (copy_slot_guarded copy_attempts frame_id attempts)
copy_slot_planes ring index frame_id luma luma_stride chroma chroma_stride attempts = none

-- What an attempt sees when nobody writes.
unfoldable pub quiet_slot_attempt : Slot → SlotAttempt
quiet_slot_attempt slot = record {
  before = slot.seq;
  before_frame_id = slot.frame_id;
  copied = slot.bytes;
  after = slot.seq;
  after_frame_id = slot.frame_id;
}
