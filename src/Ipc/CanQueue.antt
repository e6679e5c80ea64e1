-- ===== src/Ipc/CanQueue.antt =====
-- `K230CanQueue`: a ring of batches between one producer and one consumer. `none` is a queue that is
-- not open (`header_` is null); the counters are 64-bit words.
pub mod Ring
pub mod Fifo
pub mod Spsc
use supercombo_k.Base.{
  ℕ, zero, suc, ◌+◌, ◌-◌, ◌%◌, ◌^◌, Bool, true, false, ◌||◌, List, [], ◌∷◌, Option, none, some, ltb,
  leb, ◌==◌, if◌then◌else◌, get_or, set, min, replicate,
}

abbrev pub u64_mod : ℕ
u64_mod = 2 ^ 64

-- uint64_t a - b.
abbrev pub sub64 : ℕ → ℕ → ℕ
sub64 a b = (a + u64_mod - b) % u64_mod

-- K230CanQueueHeader's counters, and the slots behind it.
pub record CanQueue {ℓ} (A : Type ℓ) : Type ℓ where
  pub slot_count : ℕ
  pub write_seq : ℕ
  pub read_seq : ℕ
  pub slots : List A

module _ {ℓ} {A : Type ℓ} where
  pub is_full : CanQueue A → Bool
  is_full q = leb q.slot_count (sub64 q.write_seq q.read_seq)

  pub push_open : CanQueue A → A → CanQueue A × Bool
  unfolding is_full
  push_open q batch = if is_full q then (q, false) else (
    record q {
      slots = set q.slots (q.write_seq % q.slot_count) batch;
      write_seq = (q.write_seq + 1) % u64_mod;
    },
    true,
  )

  pub push : Option (CanQueue A) → A → Option (CanQueue A) × Bool
  unfolding push_open
  push none batch = (none, false)
  push (some q) batch = let (q', done) = push_open q batch in (some q', done)

  -- The tests of `pop` that return false: empty, and counters that make no sense.
  pub cannot_pop : CanQueue A → Bool
  cannot_pop q =
      q.read_seq == q.write_seq
      || (ltb q.write_seq q.read_seq || ltb q.slot_count (sub64 q.write_seq q.read_seq))

  -- `empty_batch` is K230CanBatch{}.
  pub pop_open : A → CanQueue A → CanQueue A × Option A
  unfolding cannot_pop
  pop_open empty_batch q = if cannot_pop q then (q, none) else (
    record q { read_seq = (q.read_seq + 1) % u64_mod },
    some (get_or q.slots (q.read_seq % q.slot_count) empty_batch),
  )

  pub pop : A → Option (CanQueue A) → Option (CanQueue A) × Option A
  unfolding pop_open
  pop empty_batch none = (none, none)
  pop empty_batch (some q) = let (q', batch) = pop_open empty_batch q in (some q', batch)

  pub depth : Option (CanQueue A) → ℕ
  depth none = 0
  depth (some q) =
      if ltb q.write_seq q.read_seq then 0 else min (sub64 q.write_seq q.read_seq) q.slot_count

  pub reset : A → Option (CanQueue A) → Option (CanQueue A)
  reset empty_batch none = none
  reset empty_batch (some q) =
      some (record q { read_seq = 0; write_seq = 0; slots = replicate q.slot_count empty_batch })
