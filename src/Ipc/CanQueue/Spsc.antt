-- ===== src/Ipc/CanQueue/Spsc.antt =====
-- One producer and one consumer at work on a queue at once: `push` and `pop` cut into their loads,
-- copies and stores, in any order of the two sides. The acquire and release pairs of the source are
-- taken as one order of all steps. While `push` copies its batch, the slot may hold anything.
pub mod Order
mod Tests
use supercombo_k.Base.{
  ℕ, ◌+◌, ◌%◌, ◌<◌, ◌≡◌, Bool, true, false, ◌||◌, List, [], ◌∷◌, ◌++◌, leb, ltb, ◌==◌, get_or, set,
}
use supercombo_k.Ipc.CanQueue.{CanQueue, u64_mod, is_full, cannot_pop}

-- Where `push` stands; `loaded` knows the write counter, `copying` has passed the test.
pub data Producer {ℓ} (A : Type ℓ) : Type ℓ where
  idle : Producer A
  loaded copying copied : A → ℕ → Producer A

-- Where `pop` stands; `taken` has copied a batch out.
pub data Consumer {ℓ} (A : Type ℓ) : Type ℓ where
  waiting : Consumer A
  looking taking : ℕ → Consumer A
  taken : A → ℕ → Consumer A

-- The two lists record the batches that `push` and `pop` have returned true for.
pub data System {ℓ} (A : Type ℓ) : Type ℓ where
  system : CanQueue A → Producer A → Consumer A → List A → List A → System A

pub data Step {ℓ} {A : Type ℓ} (empty : A) : System A → System A → Type ℓ where
  load_write_seq :
      (q : CanQueue A) (c : Consumer A) (sent got : List A) (batch : A)
      → Step empty (system q idle c sent got) (system q (loaded batch q.write_seq) c sent got)
  -- The test reads the consumer's counter: `is_full` of the counters as they are now.
  refuse :
      (q : CanQueue A) (c : Consumer A) (sent got : List A) (batch : A) (w : ℕ)
      → is_full (record q { write_seq = w }) ≡ true
      → Step empty (system q (loaded batch w) c sent got) (system q idle c sent got)
  accept :
      (q : CanQueue A) (c : Consumer A) (sent got : List A) (batch : A) (w : ℕ)
      → is_full (record q { write_seq = w }) ≡ false
      → Step empty (system q (loaded batch w) c sent got) (system q (copying batch w) c sent got)
  copy_part :
      (q : CanQueue A) (c : Consumer A) (sent got : List A) (batch part : A) (w : ℕ)
      → Step empty (system q (copying batch w) c sent got) (
          system
            (record q { slots = set q.slots (w % q.slot_count) part })
            (copying batch w)
            c
            sent
            got)
  copy_all :
      (q : CanQueue A) (c : Consumer A) (sent got : List A) (batch : A) (w : ℕ)
      → Step empty (system q (copying batch w) c sent got) (
          system
            (record q { slots = set q.slots (w % q.slot_count) batch })
            (copied batch w)
            c
            sent
            got)
  publish :
      (q : CanQueue A) (c : Consumer A) (sent got : List A) (batch : A) (w : ℕ)
      → w + 1 < u64_mod
      → Step empty
          (system q (copied batch w) c sent got)
          (system (record q { write_seq = (w + 1) % u64_mod }) idle c (sent ++ batch ∷ []) got)
  load_read_seq :
      (q : CanQueue A) (p : Producer A) (sent got : List A)
      → Step empty (system q p waiting sent got) (system q p (looking q.read_seq) sent got)
  find_none :
      (q : CanQueue A) (p : Producer A) (sent got : List A) (r : ℕ)
      → cannot_pop (record q { read_seq = r }) ≡ true
      → Step empty (system q p (looking r) sent got) (system q p waiting sent got)
  find_one :
      (q : CanQueue A) (p : Producer A) (sent got : List A) (r : ℕ)
      → cannot_pop (record q { read_seq = r }) ≡ false
      → Step empty (system q p (looking r) sent got) (system q p (taking r) sent got)
  take_one :
      (q : CanQueue A) (p : Producer A) (sent got : List A) (r : ℕ)
      → Step empty
          (system q p (taking r) sent got)
          (system q p (taken (get_or q.slots (r % q.slot_count) empty) r) sent got)
  release :
      (q : CanQueue A) (p : Producer A) (sent got : List A) (batch : A) (r : ℕ)
      → Step empty
          (system q p (taken batch r) sent got)
          (system (record q { read_seq = (r + 1) % u64_mod }) p waiting sent (got ++ batch ∷ []))

pub data Reach {ℓ} {A : Type ℓ} (empty : A) (s : System A) : System A → Type ℓ where
  here : Reach empty s s
  next : {t u : System A} → Reach empty s t → Step empty t u → Reach empty s u
