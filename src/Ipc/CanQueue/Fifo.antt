-- ===== src/Ipc/CanQueue/Fifo.antt =====
-- A call at a time, the ring is a bounded first-in first-out queue.
use native.Mathlib.Nat.{mod-lt}
use supercombo_k.Base.{
  ℕ, suc, ◌+◌, ◌-◌, ◌%◌, ◌≤◌, ◌<◌, ◌≡◌, refl, ap, ◌∙◌, Bool, true, false, List, [], ◌∷◌, ◌++◌,
  Option, none, some, arith, ltb, leb, ◌==◌, if◌then◌else◌, length, length-set, get_or, set,
  get_or-set_self, Bool-cases, inl, inr,
}
use supercombo_k.Ipc.CanQueue.{CanQueue, u64_mod, is_full, push_open, cannot_pop, pop_open}
use supercombo_k.Ipc.CanQueue.Ring.{
  window, window-suc, window-zero, window-snoc, window-set, length-window,
}

-- The specification: a list with a bound on its length.
abbrev pub bounded_push {ℓ} : {A : Type ℓ} → ℕ → List A → A → List A × Bool
bounded_push cap xs a = if ltb (length xs) cap then (xs ++ a ∷ [], true) else (xs, false)

abbrev pub fifo_pop {ℓ} : {A : Type ℓ} → List A → List A × Option A
fifo_pop [] = ([], none)
fifo_pop (x ∷ xs) = (xs, some x)

-- The counters and the slots agree.
pub record IsQueue {ℓ} {A : Type ℓ} (q : CanQueue A) : Type 0 where
  pub has_slots : 0 < q.slot_count
  pub slots_match : length q.slots ≡ q.slot_count
  pub ordered : q.read_seq ≤ q.write_seq
  pub bounded : q.write_seq ≤ q.read_seq + q.slot_count
  pub is_word : q.write_seq < u64_mod

module _ {ℓ} {A : Type ℓ} (empty : A) where
  -- The batches that are waiting, oldest first.
  pub contents : CanQueue A → List A
  contents q = window empty q.slot_count q.slots q.read_seq (q.write_seq - q.read_seq)

  pub length-contents : (q : CanQueue A) → length (contents q) ≡ q.write_seq - q.read_seq
  unfolding contents
  length-contents q = length-window empty q.slot_count q.slots q.read_seq (q.write_seq - q.read_seq)

  pub is_full-eq : (q : CanQueue A) → IsQueue q → is_full q ≡ leb q.slot_count (length (contents q))
  unfolding is_full
  is_full-eq q v = ground (arith, length-contents q)

  pub cannot_pop-eq : (q : CanQueue A) → IsQueue q → cannot_pop q ≡ (q.read_seq == q.write_seq)
  unfolding cannot_pop
  cannot_pop-eq q v = ground arith

  pub IsQueue-set :
      (q : CanQueue A) (w : ℕ) (a : A)
      → IsQueue q
      → IsQueue (record q { slots = set q.slots (w % q.slot_count) a })
  IsQueue-set q w a v = record {
    has_slots = v.has_slots;
    slots_match = length-set q.slots (w % q.slot_count) a ∙ v.slots_match;
    ordered = v.ordered;
    bounded = v.bounded;
    is_word = v.is_word;
  }

  -- A write to the producer's slot changes nothing that waits.
  pub contents-set :
      (q : CanQueue A) (w : ℕ) (a : A)
      → IsQueue q
      → w ≡ q.write_seq
      → w < q.read_seq + q.slot_count
      → contents (record q { slots = set q.slots (w % q.slot_count) a }) ≡ contents q
  unfolding contents
  contents-set q w a v e lt =
      window-set empty q.slot_count q.slots q.read_seq (q.write_seq - q.read_seq) w a
        (omega (arith, v.ordered)) lt

  -- The published batch is the last that waits.
  pub contents-publish :
      (q : CanQueue A) (batch : A)
      → IsQueue q
      → q.write_seq + 1 < u64_mod
      → get_or q.slots (q.write_seq % q.slot_count) empty ≡ batch
      → contents (record q { write_seq = (q.write_seq + 1) % u64_mod }) ≡ contents q ++ batch ∷ []
  unfolding contents
  contents-publish q batch v room same =
      let count : (q.write_seq + 1) % u64_mod - q.read_seq ≡ suc (q.write_seq - q.read_seq) =
        omega (arith, v.ordered) in
      let last : q.read_seq + (q.write_seq - q.read_seq) ≡ q.write_seq = omega (arith, v.ordered) in
      ap (window empty q.slot_count q.slots q.read_seq) count
      ∙ window-snoc empty q.slot_count q.slots q.read_seq (q.write_seq - q.read_seq)
      ∙ ap (λ x. window empty q.slot_count q.slots q.read_seq (q.write_seq - q.read_seq) ++ x ∷ [])
          (ap (λ n. get_or q.slots (n % q.slot_count) empty) last ∙ same)

  module _ (q : CanQueue A) (v : IsQueue q) where
    push_room :
        (batch : A)
        → q.write_seq + 1 < u64_mod
        → ltb (length (contents q)) q.slot_count ≡ true
        → contents (record q {
          slots = set q.slots (q.write_seq % q.slot_count) batch;
          write_seq = (q.write_seq + 1) % u64_mod;
        })
          ≡ contents q ++ batch ∷ []
    push_room batch room lt =
        let small : q.write_seq < q.read_seq + q.slot_count =
          ground (arith, length-contents q, v.ordered) in
        let inside : q.write_seq % q.slot_count < q.slot_count = mod-lt q.write_seq v.has_slots in
        contents-publish (record q { slots = set q.slots (q.write_seq % q.slot_count) batch }) batch
          (IsQueue-set q q.write_seq batch v) room
          (get_or-set_self q.slots (q.write_seq % q.slot_count) batch empty
            (omega (arith, v.slots_match)))
        ∙ ap (λ xs. xs ++ batch ∷ []) (contents-set q q.write_seq batch v refl small)

    -- `push` is the specification's push, and keeps the queue well formed, as long as the 64-bit
    -- counter does not wrap.
    pub push_open-bounded_push :
        (batch : A)
        → q.write_seq + 1 < u64_mod
        → let (q', done) = push_open q batch in
          IsQueue q' × ((contents q', done) ≡ bounded_push q.slot_count (contents q) batch)
    unfolding push_open
    push_open-bounded_push batch room = elim (Bool-cases (is_full q)) [
      | inl e ↦ rw e (
          let shut : ltb (length (contents q)) q.slot_count ≡ false =
            ground (arith, is_full-eq q v) in
          rw shut (v, refl))
      | inr e ↦ rw e (
          let open' : ltb (length (contents q)) q.slot_count ≡ true =
            ground (arith, is_full-eq q v) in
          rw open' (
            record {
              has_slots = v.has_slots;
              slots_match = length-set q.slots (q.write_seq % q.slot_count) batch ∙ v.slots_match;
              ordered = omega (arith, v.ordered);
              bounded = ground (arith, length-contents q, v.bounded);
              is_word = omega arith;
            },
            ap (λ xs. (xs, true)) (push_room batch room open'),
          ))
    ]

    pub pop_ready :
        q.read_seq < q.write_seq
        → contents q
          ≡ get_or q.slots (q.read_seq % q.slot_count) empty
            ∷ contents (record q { read_seq = (q.read_seq + 1) % u64_mod })
    unfolding contents
    pop_ready lt =
        let count : q.write_seq - q.read_seq ≡ suc (q.write_seq - (q.read_seq + 1)) = omega arith in
        let next : q.read_seq + 1 ≡ (q.read_seq + 1) % u64_mod = omega (arith, v.is_word) in
        ap (window empty q.slot_count q.slots q.read_seq) count
        ∙ window-suc empty q.slot_count q.slots q.read_seq (q.write_seq - (q.read_seq + 1))
        ∙ ap
            (λ k.
              get_or q.slots (q.read_seq % q.slot_count) empty
              ∷ window empty q.slot_count q.slots k (q.write_seq - k))
            next

    pub pop_empty : q.read_seq ≡ q.write_seq → contents q ≡ []
    unfolding contents
    pop_empty e =
        let none_left : q.write_seq - q.read_seq ≡ 0 = omega arith in
        ap (window empty q.slot_count q.slots q.read_seq) none_left
        ∙ window-zero empty q.slot_count q.slots q.read_seq

    -- `pop` is the specification's pop, and keeps the queue well formed.
    pub pop_open-fifo_pop :
        let (q', batch) = pop_open empty q in
        IsQueue q' × ((contents q', batch) ≡ fifo_pop (contents q))
    unfolding pop_open
    pop_open-fifo_pop = elim (Bool-cases (cannot_pop q)) [
      | inl e ↦
          let same : q.read_seq ≡ q.write_seq = ground (arith, cannot_pop-eq q v) in
          rw (e, pop_empty same) (v, refl)
      | inr e ↦
          let lt : q.read_seq < q.write_seq = ground (arith, cannot_pop-eq q v, v.ordered) in
          rw (e, pop_ready lt)
            (
              record {
                has_slots = v.has_slots;
                slots_match = v.slots_match;
                ordered = omega (arith, v.is_word);
                bounded = omega (arith, v.bounded, v.is_word);
                is_word = v.is_word;
              },
              refl,
            )
    ]
