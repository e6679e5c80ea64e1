-- ===== src/Ipc/LatestChannel/Quiet.antt =====
-- One side at a time: what was published is read.
use supercombo_k.Base.{
  ℕ, suc, ◌+◌, ◌%◌, ◌≤◌, ◌<◌, ◌≡◌, refl, ap, ◌∙◌, true, false, List, [], ◌∷◌, ◌++◌, some, arith,
  length, take, drop, le→ltb_false,
}
use supercombo_k.Ipc.LatestChannel.{
  LatestChannel, Attempt, u64_mod, even_seq, publish_open, read_loop, read, gives_up, is_stable,
  quiet_attempt, copy_in,
}

take-append : (xs ys : List ℕ) → take (length xs) (xs ++ ys) ≡ xs
take-append [] ys = refl
take-append (x ∷ xs) ys = ap (◌∷◌ x) (take-append xs ys)

pub even_seq-lt :
    (seq : ℕ)
    → seq + 3 < u64_mod
    → (seq < (even_seq seq + 2) % u64_mod) × ((even_seq seq + 2) % u64_mod % 2 ≡ 0)
unfolding even_seq
even_seq-lt seq small = ground arith

-- A channel at rest is read at the first attempt.
read_loop-quiet_attempt :
    (channel : LatestChannel) (left payload_capacity : ℕ) (rest : List Attempt)
    → 0 < channel.seq
    → channel.seq % 2 ≡ 0
    → 0 < channel.payload_size
    → channel.payload_size ≤ payload_capacity
    → read_loop (suc left) payload_capacity (quiet_attempt channel ∷ rest)
      ≡ some (take channel.payload_size channel.payload, channel.seq)
unfolding read_loop quiet_attempt gives_up is_stable
read_loop-quiet_attempt channel left payload_capacity rest started even nonempty fits =
    let goes_on : gives_up payload_capacity (quiet_attempt channel) ≡ false = ground arith in
    let stable : is_stable channel.seq channel.seq ≡ true = ground arith in
    rw (goes_on, stable) refl

-- Publishing n > 0 bytes that fit makes the next read, with room for them, return those bytes and a
-- new sequence number, whatever an earlier writer left behind, until the number wraps.
pub read-publish :
    (channel : LatestChannel) (bytes : List ℕ) (now_ns payload_capacity : ℕ) (rest : List Attempt)
    → 0 < length bytes
    → length bytes ≤ channel.payload_capacity
    → length bytes ≤ payload_capacity
    → channel.seq + 3 < u64_mod
    → let (channel', done) = publish_open channel bytes now_ns in
      (done ≡ true)
      × (channel.seq < channel'.seq)
      × (read (some channel') true payload_capacity (quiet_attempt channel' ∷ rest)
          ≡ some (bytes, channel'.seq))
unfolding publish_open read
read-publish channel bytes now_ns payload_capacity rest nonempty fits room small =
    let (grows, even) = even_seq-lt channel.seq small in
    rw (le→ltb_false channel.payload_capacity (length bytes) fits) (
      refl,
      grows,
      read_loop-quiet_attempt
            (record channel {
              seq = (even_seq channel.seq + 2) % u64_mod;
              payload = copy_in channel.payload bytes;
              payload_size = length bytes;
              timestamp_ns = now_ns;
            })
            3 payload_capacity rest (omega arith) even nonempty room
          ∙ ap (λ xs. some (xs, (even_seq channel.seq + 2) % u64_mod))
              (take-append bytes (drop (length bytes) channel.payload)),
    )
