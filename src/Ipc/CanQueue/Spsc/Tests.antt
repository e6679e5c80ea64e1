-- ===== src/Ipc/CanQueue/Spsc/Tests.antt =====
-- One batch passed from the producer to the consumer, step by step.
use supercombo_k.Base.{ℕ, ◌≡◌, refl, [], ◌∷◌, ◌++◌, arith}
use supercombo_k.Ipc.CanQueue.{CanQueue, is_full, cannot_pop}
use supercombo_k.Ipc.CanQueue.Fifo.{IsQueue, contents}
use supercombo_k.Ipc.CanQueue.Spsc.{
  idle, waiting, system, load_write_seq, accept, copy_all, publish, load_read_seq, find_one,
  take_one, release, Reach, here, next,
}
use supercombo_k.Ipc.CanQueue.Spsc.Order.{spsc_order}

abbrev empty_queue : CanQueue ℕ
empty_queue = record { slot_count = 2; write_seq = 0; read_seq = 0; slots = 0 ∷ 0 ∷ [] }

abbrev one_sent : CanQueue ℕ
one_sent = record { slot_count = 2; write_seq = 1; read_seq = 0; slots = 5 ∷ 0 ∷ [] }

abbrev one_taken : CanQueue ℕ
one_taken = record one_sent { read_seq = 1 }

empty_queue-IsQueue : IsQueue empty_queue
empty_queue-IsQueue = record {
  has_slots = omega arith;
  slots_match = refl;
  ordered = omega arith;
  bounded = omega arith;
  is_word = omega arith;
}

sending : Reach 0 (system empty_queue idle waiting [] []) (system one_sent idle waiting (5 ∷ []) [])
unfolding is_full
sending =
    next
      (next
        (next (next here (load_write_seq empty_queue waiting [] [] 5))
          (accept empty_queue waiting [] [] 5 0 refl))
        (copy_all empty_queue waiting [] [] 5 0))
      (publish (record empty_queue { slots = 5 ∷ 0 ∷ [] }) waiting [] [] 5 0 (omega arith))

receiving :
    Reach 0
      (system empty_queue idle waiting [] [])
      (system one_taken idle waiting (5 ∷ []) (5 ∷ []))
unfolding cannot_pop
receiving =
    next
      (next
        (next (next sending (load_read_seq one_sent idle (5 ∷ []) []))
          (find_one one_sent idle (5 ∷ []) [] 0 refl))
        (take_one one_sent idle (5 ∷ []) [] 0))
      (release one_sent idle (5 ∷ []) [] 5 0)

spsc_order_example : IsQueue one_taken × ((5 ∷ []) ≡ (5 ∷ []) ++ contents 0 one_taken)
spsc_order_example =
    spsc_order 0 empty_queue one_taken idle waiting (5 ∷ []) (5 ∷ []) empty_queue-IsQueue refl
      receiving
