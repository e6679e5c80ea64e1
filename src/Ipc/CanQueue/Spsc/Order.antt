-- ===== src/Ipc/CanQueue/Spsc/Order.antt =====
-- Whatever the order of the steps, the batches arrive once each and in order.
use supercombo_k.Base.{
  ℕ, ◌+◌, ◌%◌, ◌≤◌, ◌<◌, ◌≡◌, refl, sym, ap, ◌∙◌, false, List, [], ◌∷◌, ◌++◌, arith, get_or, set,
  get_or-set_self, get_or-set_ne,
}
use mathlib.Core.List.{append_assoc}
use native.Mathlib.Nat.{mod-lt}
use supercombo_k.Ipc.CanQueue.{CanQueue, u64_mod, is_full, cannot_pop}
use supercombo_k.Ipc.CanQueue.Ring.{mod_ne}
use supercombo_k.Ipc.CanQueue.Fifo.{
  IsQueue, IsQueue-set, contents, length-contents, contents-set, contents-publish, is_full-eq,
  cannot_pop-eq, pop_ready, pop_empty,
}
use supercombo_k.Ipc.CanQueue.Spsc.{
  Producer, idle, loaded, copying, copied, Consumer, waiting, looking, taking, taken, System,
  system, Step, load_write_seq, refuse, accept, copy_part, copy_all, publish, load_read_seq,
  find_none, find_one, take_one, release, Reach, here, next,
}

module _ {ℓ} {A : Type ℓ} (empty : A) where
  abbrev slot : CanQueue A → ℕ → A
  slot q n = get_or q.slots (n % q.slot_count) empty

  -- What the producer knows at each point.
  abbrev IsProducer : CanQueue A → Producer A → Type ℓ
  IsProducer q idle = Unit {ℓ}
  IsProducer q (loaded batch w) = (w ≡ q.write_seq) × Unit {ℓ}
  IsProducer q (copying batch w) = (w ≡ q.write_seq) × (w < q.read_seq + q.slot_count) × Unit {ℓ}
  IsProducer q (copied batch w) =
      (w ≡ q.write_seq) × (w < q.read_seq + q.slot_count) × (slot q w ≡ batch)

  -- What the consumer knows.
  abbrev IsConsumer : CanQueue A → Consumer A → Type ℓ
  IsConsumer q waiting = Unit {ℓ}
  IsConsumer q (looking r) = (r ≡ q.read_seq) × Unit {ℓ}
  IsConsumer q (taking r) = (r ≡ q.read_seq) × (r < q.write_seq) × Unit {ℓ}
  IsConsumer q (taken batch r) = (r ≡ q.read_seq) × (r < q.write_seq) × (slot q r ≡ batch)

  -- The batches delivered are those sent, less the ones that still wait.
  abbrev IsConsistent : System A → Type ℓ
  IsConsistent (system q p c sent got) =
      IsQueue q × (sent ≡ got ++ contents empty q) × IsProducer q p × IsConsumer q c

  -- The producer's slot is not the consumer's.
  IsConsumer-set :
      (q : CanQueue A) (c : Consumer A) (w : ℕ) (a : A)
      → w ≡ q.write_seq
      → w < q.read_seq + q.slot_count
      → IsConsumer q c
      → IsConsumer (record q { slots = set q.slots (w % q.slot_count) a }) c
  IsConsumer-set q waiting w a e lt k = tt
  IsConsumer-set q (looking r) w a e lt k = k
  IsConsumer-set q (taking r) w a e lt k = k
  IsConsumer-set q (taken batch r) w a e lt (at, below, same) = (
    at,
    below,
    get_or-set_ne q.slots (w % q.slot_count) (r % q.slot_count) a empty
          (λ p. mod_ne q.slot_count r w (omega arith) (omega arith) (sym p))
        ∙ same,
  )

  IsConsumer-publish :
      (q : CanQueue A) (c : Consumer A) (w : ℕ)
      → q.write_seq ≤ w
      → IsConsumer q c
      → IsConsumer (record q { write_seq = w }) c
  IsConsumer-publish q waiting w le k = tt
  IsConsumer-publish q (looking r) w le k = k
  IsConsumer-publish q (taking r) w le (at, below, t) = (at, omega arith, t)
  IsConsumer-publish q (taken batch r) w le (at, below, same) = (at, omega arith, same)

  IsProducer-release :
      (q : CanQueue A) (p : Producer A) (r : ℕ)
      → q.read_seq ≤ r
      → IsProducer q p
      → IsProducer (record q { read_seq = r }) p
  IsProducer-release q idle r le k = tt
  IsProducer-release q (loaded batch w) r le k = k
  IsProducer-release q (copying batch w) r le (at, below, t) = (at, omega arith, t)
  IsProducer-release q (copied batch w) r le (at, below, same) = (at, omega arith, same)

  is_full-room :
      (q : CanQueue A) → IsQueue q → is_full q ≡ false → q.write_seq < q.read_seq + q.slot_count
  is_full-room q v e = ground (arith, is_full-eq empty q v, length-contents empty q)

  cannot_pop-some : (q : CanQueue A) → IsQueue q → cannot_pop q ≡ false → q.read_seq < q.write_seq
  cannot_pop-some q v e = ground (arith, cannot_pop-eq empty q v, v.ordered)

  Step-IsConsistent : {s t : System A} → Step empty s t → IsConsistent s → IsConsistent t
  Step-IsConsistent (load_write_seq q c sent got batch) (v, o, p, k) = (v, o, (refl, tt), k)
  Step-IsConsistent (refuse q c sent got batch w full) (v, o, p, k) = (v, o, tt, k)
  Step-IsConsistent (accept q c sent got batch w open') (v, o, (at, t), k) =
      let room : q.write_seq < q.read_seq + q.slot_count =
        is_full-room q v (ap (λ n. is_full (record q { write_seq = n })) (sym at) ∙ open') in
      (v, o, (at, omega arith, tt), k)
  Step-IsConsistent (copy_part q c sent got batch part w) (v, o, (at, lt, t), k) = (
    IsQueue-set empty q w part v,
    o ∙ ap (◌++◌ got) (sym (contents-set empty q w part v at lt)),
    (at, lt, tt),
    IsConsumer-set q c w part at lt k,
  )
  Step-IsConsistent (copy_all q c sent got batch w) (v, o, (at, lt, t), k) =
      let inside : w % q.slot_count < q.slot_count = mod-lt w v.has_slots in
      (
        IsQueue-set empty q w batch v,
        o ∙ ap (◌++◌ got) (sym (contents-set empty q w batch v at lt)),
        (
          at,
          lt,
          get_or-set_self q.slots (w % q.slot_count) batch empty (omega (arith, v.slots_match)),
        ),
        IsConsumer-set q c w batch at lt k,
      )
  Step-IsConsistent (publish q c sent got batch w room) (v, o, (at, lt, same), k) = rw at (
    record {
      has_slots = v.has_slots;
      slots_match = v.slots_match;
      ordered = omega (arith, v.ordered);
      bounded = omega arith;
      is_word = omega arith;
    },
    ap (λ xs. xs ++ batch ∷ []) o
        ∙ append_assoc got (contents empty q) (batch ∷ [])
        ∙ ap (◌++◌ got)
            (sym (contents-publish empty q batch v (omega arith) (ap (slot q) (sym at) ∙ same))),
    tt,
    IsConsumer-publish q c ((q.write_seq + 1) % u64_mod) (omega arith) k,
  )
  Step-IsConsistent (load_read_seq q p sent got) (v, o, k, c) = (v, o, k, (refl, tt))
  Step-IsConsistent (find_none q p sent got r none') (v, o, k, c) = (v, o, k, tt)
  Step-IsConsistent (find_one q p sent got r some') (v, o, k, (at, t)) =
      let ready : q.read_seq < q.write_seq =
        cannot_pop-some q v (ap (λ n. cannot_pop (record q { read_seq = n })) (sym at) ∙ some') in
      (v, o, k, (at, omega arith, tt))
  Step-IsConsistent (take_one q p sent got r) (v, o, k, (at, lt, t)) = (v, o, k, (at, lt, refl))
  Step-IsConsistent (release q p sent got batch r) (v, o, k, (at, lt, same)) = rw at (
    record {
      has_slots = v.has_slots;
      slots_match = v.slots_match;
      ordered = omega (arith, v.is_word);
      bounded = omega (arith, v.bounded, v.is_word);
      is_word = v.is_word;
    },
    o
        ∙ ap (◌++◌ got) (
            pop_ready empty q v (omega arith)
            ∙ ap (λ x. x ∷ contents empty (record q { read_seq = (q.read_seq + 1) % u64_mod }))
                (ap (slot q) (sym at) ∙ same))
        ∙ sym (
            append_assoc got (batch ∷ [])
              (contents empty (record q { read_seq = (q.read_seq + 1) % u64_mod }))),
    IsProducer-release q p ((q.read_seq + 1) % u64_mod) (omega (arith, v.is_word)) k,
    tt,
  )

  Reach-IsConsistent : {s t : System A} → Reach empty s t → IsConsistent s → IsConsistent t
  Reach-IsConsistent here i = i
  Reach-IsConsistent (next r e) i = Step-IsConsistent e (Reach-IsConsistent r i)

  -- From a well-formed queue with nothing in it and both sides at rest, the batches that `pop` has
  -- delivered and those that wait are, in order, the ones `push` has accepted; the queue stays well
  -- formed, so at most slot_count batches wait.
  pub spsc_order :
      (start q : CanQueue A) (p : Producer A) (c : Consumer A) (sent got : List A)
      → IsQueue start
      → start.read_seq ≡ start.write_seq
      → Reach empty (system start idle waiting [] []) (system q p c sent got)
      → IsQueue q × (sent ≡ got ++ contents empty q)
  spsc_order start q p c sent got v e r =
      let (v', o, k, k') = Reach-IsConsistent r (v, sym (pop_empty empty start v e), tt, tt) in
      (v', o)
