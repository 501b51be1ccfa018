-- ===== src/Hardware/Emergency.antt =====
-- hardware/src/emergency.rs: pre-allocated shards for failover. The memory arena of a shard is the
-- allocator's and is left out; the pool is borrowed mutably, so the atomic swap of `claim` is a
-- read and a write.
pub mod Claims
use ground_core.Common.Tests.{
  ℕ, zero, suc, ◌+◌, ◌*◌, Bool, true, false, not, List, [], ◌∷◌, if◌then◌else◌,
}
use ground_core.Common.Lists.{length, count}
use ground_core.Common.Result.{Result, ok, err}

pub record EmergencyShard : Type 0 where
  pub in_use : Bool
  pub last_claimed : ℕ
  pub size : ℕ

-- `GroundStationError::Hardware` with one of the two texts.
pub data ShardError : Type 0 where
  already_in_use none_available : ShardError

unfoldable pub new_shard : ℕ → EmergencyShard
new_shard size = record { in_use = false; last_claimed = 0; size = size }

unfoldable pub claim_shard : ℕ → EmergencyShard → Result ShardError (Unit {0}) × EmergencyShard
claim_shard now s =
    if s.in_use
    then (err already_in_use, record s { in_use = true })
    else (ok tt, record s { in_use = true; last_claimed = now })

unfoldable pub release_shard : EmergencyShard → EmergencyShard
release_shard s = record s { in_use = false }

abbrev pub is_available : EmergencyShard → Bool
is_available s = not s.in_use

pub record EmergencyShardPool : Type 0 where
  pub shards : List EmergencyShard
  pub total_size : ℕ

-- `(0..shard_count).map(|_| EmergencyShard::new(shard_size))`.
new_shards : ℕ → ℕ → List EmergencyShard
unfolding new_shard
new_shards zero size = []
new_shards (suc n) size = new_shard size ∷ new_shards n size

unfoldable pub new : ℕ → ℕ → EmergencyShardPool
unfolding new_shards
new shard_count shard_size = record {
  shards = new_shards shard_count shard_size;
  total_size = shard_count * shard_size;
}

-- The loop of `claim` from index `i` on.
claim_from : ℕ → ℕ → List EmergencyShard → Result ShardError ℕ × List EmergencyShard
unfolding claim_shard
claim_from now i [] = (err none_available, [])
claim_from now i (s ∷ ss) =
    let (claimed, s') = claim_shard now s in
    let (later, ss') = claim_from now (suc i) ss in
    if is_available s
    then (elim claimed [ ok _ ↦ ok i | err e ↦ err e ], s' ∷ ss)
    else (later, s ∷ ss')

unfoldable pub claim : ℕ → EmergencyShardPool → Result ShardError ℕ × EmergencyShardPool
unfolding claim_from
claim now p =
    let (result, shards) = claim_from now 0 p.shards in (result, record p { shards = shards })

-- `get_mut(index)` and then `release`.
release_at : ℕ → List EmergencyShard → List EmergencyShard
unfolding release_shard
release_at i [] = []
release_at zero (s ∷ ss) = release_shard s ∷ ss
release_at (suc i) (s ∷ ss) = s ∷ release_at i ss

unfoldable pub release : ℕ → EmergencyShardPool → EmergencyShardPool
unfolding release_at
release index p = record p { shards = release_at index p.shards }

unfoldable pub available_count : EmergencyShardPool → ℕ
available_count p = count is_available p.shards

unfoldable pub total_count : EmergencyShardPool → ℕ
total_count p = length p.shards
