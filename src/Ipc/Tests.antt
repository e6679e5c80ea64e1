-- ===== src/Ipc/Tests.antt =====
-- Tests of the shared-memory channels of src/ipc_channels.cc, and their theorems at concrete states.
use supercombo_k.Base.{ℕ, ◌≡◌, refl, [], ◌∷◌, arith}
use supercombo_k.Ipc.CanQueue.{CanQueue, push_open, pop_open}
use supercombo_k.Ipc.CanQueue.Fifo.{
  IsQueue, contents, bounded_push, fifo_pop, push_open-bounded_push, pop_open-fifo_pop,
}

-- Batches 12 and 13 are waiting; the newest is past the end of the ring.
abbrev queue : CanQueue ℕ
queue = record { slot_count = 3; write_seq = 7; read_seq = 5; slots = 13 ∷ 11 ∷ 12 ∷ [] }

queue-IsQueue : IsQueue queue
queue-IsQueue = record {
  has_slots = omega arith;
  slots_match = refl;
  ordered = omega arith;
  bounded = omega arith;
  is_word = omega arith;
}

push_open-bounded_push_example :
    let (q', done) = push_open queue 14 in
    IsQueue q' × ((contents 0 q', done) ≡ bounded_push 3 (contents 0 queue) 14)
push_open-bounded_push_example = push_open-bounded_push 0 queue queue-IsQueue 14 (omega arith)

pop_open-fifo_pop_example :
    let (q', batch) = pop_open 0 queue in
    IsQueue q' × ((contents 0 q', batch) ≡ fifo_pop (contents 0 queue))
pop_open-fifo_pop_example = pop_open-fifo_pop 0 queue queue-IsQueue
