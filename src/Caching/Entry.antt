-- ===== src/Caching/Entry.antt =====
-- caching/src/generic.rs, the entries that both generic caches hold.
use ground_core.Common.Tests.{ℕ}

pub record CacheEntry {ℓ} (V : Type ℓ) : Type ℓ where
  pub value : V
  pub last_accessed : ℕ
  pub created_at : ℕ

-- The two readings of the clock of `put` are stored apart.
abbrev pub made {ℓ} : {V : Type ℓ} → V → ℕ → ℕ → CacheEntry V
made value now now' = record { value = value; last_accessed = now; created_at = now' }

-- `entry.last_accessed = now`.
abbrev pub touched {ℓ} : {V : Type ℓ} → ℕ → CacheEntry V → CacheEntry V
touched now e = record e { last_accessed = now }
