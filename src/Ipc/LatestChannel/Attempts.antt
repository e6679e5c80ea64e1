-- ===== src/Ipc/LatestChannel/Attempts.antt =====
-- Which attempt a read takes its result from, whatever the attempts see.
use supercombo_k.Base.{ℕ, zero, suc, ◌%◌, ◌≤◌, ◌<◌, ◌≡◌, ◌≢◌, List, [], ◌∷◌, ◌⊎◌}
use supercombo_k.Ipc.LatestChannel.{LatestChannel, Attempt}

-- The number that was loaded first is that of a finished publication, and there is room for its bytes.
pub record IsWorth (payload_capacity : ℕ) (a : Attempt) : Type 0 where
  pub even : a.before % 2 ≡ 0
  pub started : 0 < a.before
  pub nonempty : 0 < a.payload_size
  pub fits : a.payload_size ≤ payload_capacity

-- The first of the attempts, `left` at most, that finds its two numbers the same has copied the bytes
-- under that number, and it and all before it were worth a copy.
abbrev pub IsTaken : ℕ → ℕ → List Attempt → List ℕ → ℕ → Type 0
IsTaken zero payload_capacity attempts bytes seq = ⊥
IsTaken (suc left) payload_capacity [] bytes seq = ⊥
IsTaken (suc left) payload_capacity (a ∷ rest) bytes seq =
    IsWorth payload_capacity a
    × (((a.before ≡ a.after) × (a.copied ≡ bytes) × (a.after ≡ seq))
        ⊎ ((a.before ≢ a.after) × IsTaken left payload_capacity rest bytes seq))
