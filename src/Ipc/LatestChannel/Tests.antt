-- ===== src/Ipc/LatestChannel/Tests.antt =====
-- One payload published and read, and a read that a writer disturbs.
use supercombo_k.Base.{◌<◌, ◌≡◌, true, List, [], ◌∷◌, some, arith, replicate}
use supercombo_k.Ipc.LatestChannel.{LatestChannel, Attempt, publish_open, read, quiet_attempt}
use supercombo_k.Ipc.LatestChannel.Quiet.{read-publish}

abbrev fresh : LatestChannel
fresh = record {
  payload_capacity = 4;
  seq = 0;
  timestamp_ns = 0;
  payload_size = 0;
  payload = replicate 4 0;
}

-- A writer died in here.
abbrev broken : LatestChannel
broken = record fresh { seq = 7; payload = 9 ∷ 8 ∷ 7 ∷ 6 ∷ [] }

read-publish_example :
    let (channel', done) = publish_open broken (1 ∷ 2 ∷ 3 ∷ []) 50 in
    (done ≡ true)
    × (7 < channel'.seq)
    × (read (some channel') true 4 (quiet_attempt channel' ∷ [])
        ≡ some ((1 ∷ 2 ∷ 3 ∷ []), channel'.seq))
read-publish_example =
    read-publish broken (1 ∷ 2 ∷ 3 ∷ []) 50 4 [] (omega arith) (omega arith) (omega arith)
      (omega arith)

-- The second attempt succeeds.
abbrev attempts : List Attempt
attempts =
    record { before = 8; payload_size = 2; copied = 3 ∷ 6 ∷ []; after = 9 }
    ∷ record { before = 10; payload_size = 2; copied = 5 ∷ 6 ∷ []; after = 10 }
    ∷ []
