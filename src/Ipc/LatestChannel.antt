-- ===== src/Ipc/LatestChannel.antt =====
-- `K230LatestChannel` of src/ipc_channels.cc: the newest payload behind a sequence lock. `none` is a
-- channel that is not open, or a null pointer. The sequence number is a 64-bit word.
pub mod Attempts
pub mod Quiet
mod Tests
use supercombo_k.Base.{
  ℕ, zero, suc, ◌+◌, ◌-◌, ◌%◌, ◌^◌, Bool, true, false, not, ◌&&◌, ◌||◌, List, [], ◌∷◌, ◌++◌, Option,
  none, some, ltb, ◌==◌, if◌then◌else◌, length, take, drop,
}

abbrev pub u64_mod : ℕ
u64_mod = 2 ^ 64

-- K230IpcHeader, less its magic numbers, and the payload behind it.
pub record LatestChannel : Type 0 where
  pub payload_capacity : ℕ
  pub seq : ℕ
  pub timestamp_ns : ℕ
  pub payload_size : ℕ
  pub payload : List ℕ

abbrev pub is_odd : ℕ → Bool
is_odd seq = not (seq % 2 == 0)

-- The even number from which a publication starts: a writer that died left an odd one.
unfoldable pub even_seq : ℕ → ℕ
even_seq seq = if is_odd seq then (seq + 1) % u64_mod else seq

-- memcpy to the start of the payload.
abbrev pub copy_in : List ℕ → List ℕ → List ℕ
copy_in payload bytes = bytes ++ drop (length bytes) payload

pub publish_open : LatestChannel → List ℕ → ℕ → LatestChannel × Bool
unfolding even_seq
publish_open channel bytes now_ns =
    if ltb channel.payload_capacity (length bytes) then (channel, false) else (
      record channel {
        seq = (even_seq channel.seq + 2) % u64_mod;
        payload = copy_in channel.payload bytes;
        payload_size = length bytes;
        timestamp_ns = now_ns;
      },
      true,
    )

pub publish : Option LatestChannel → Option (List ℕ) → ℕ → Option LatestChannel × Bool
unfolding publish_open
publish (some channel) (some bytes) now_ns =
    let (channel', done) = publish_open channel bytes now_ns in (some channel', done)
publish (some channel) none now_ns = (some channel, false)
publish none bytes now_ns = (none, false)

-- What the loads of one attempt see, while the writer may be at work.
pub record Attempt : Type 0 where
  pub before : ℕ
  pub payload_size : ℕ
  pub copied : List ℕ
  pub after : ℕ

-- The tests that make `read` return false at once.
pub gives_up : ℕ → Attempt → Bool
gives_up payload_capacity a =
    (a.before == 0 || is_odd a.before)
    || (a.payload_size == 0 || ltb payload_capacity a.payload_size)

unfoldable pub is_stable : ℕ → ℕ → Bool
is_stable before after = before == after && not (is_odd after)

abbrev pub read_attempts : ℕ
read_attempts = 4

-- The loop; the result is the payload with its sequence number.
pub read_loop : ℕ → ℕ → List Attempt → Option (List ℕ × ℕ)
read_loop zero payload_capacity attempts = none
read_loop (suc left) payload_capacity [] = none
read_loop (suc left) payload_capacity (a ∷ rest) =
    let more = read_loop left payload_capacity rest in
    if gives_up payload_capacity a
    then none
    else if is_stable a.before a.after
    then some (a.copied, a.after)
    else more

pub read : Option LatestChannel → Bool → ℕ → List Attempt → Option (List ℕ × ℕ)
unfolding read_loop
read none has_payload payload_capacity attempts = none
read (some channel) has_payload payload_capacity attempts =
    if has_payload then read_loop read_attempts payload_capacity attempts else none

-- What an attempt sees when nobody writes.
pub quiet_attempt : LatestChannel → Attempt
quiet_attempt channel = record {
  before = channel.seq;
  payload_size = channel.payload_size;
  copied = take channel.payload_size channel.payload;
  after = channel.seq;
}
