-- ===== src/Caching/Ttl.antt =====
-- caching/src/generic.rs, `TimeBasedCache`. The readings of the clock are arguments.
pub mod Expiry
use ground_core.Common.Tests.{ℕ, Bool, [], Option, none, some, if◌then◌else◌, not}
use ground_core.Common.Int.{ℤ, leb_ℤ, ltb_ℤ}
use ground_core.Common.Clock.{num_seconds}
use ground_core.Common.Maps.{Map, get, insert, remove, modify}
use ground_core.Common.Select.{retain}
use ground_core.Caching.Entry.{CacheEntry, made, touched}

pub record TimeBasedCache {ℓ} (K V : Type ℓ) : Type ℓ where
  pub entries : Map K (CacheEntry V)
  pub ttl_seconds : ℤ

module _ {ℓ} {K V : Type ℓ} where
  unfoldable pub new : ℤ → TimeBasedCache K V
  new ttl_seconds = record { entries = []; ttl_seconds = ttl_seconds }

  unfoldable pub clear : TimeBasedCache K V → TimeBasedCache K V
  clear c = record c { entries = [] }

-- The test of `get` on an entry.
unfoldable pub is_expired {ℓ} : {V : Type ℓ} → ℕ → ℤ → CacheEntry V → Bool
is_expired now ttl_seconds e = ltb_ℤ ttl_seconds (num_seconds now e.created_at)

-- The test of `remove_expired` on an entry.
unfoldable pub is_live {ℓ} : {V : Type ℓ} → ℕ → ℤ → CacheEntry V → Bool
is_live now ttl_seconds e = leb_ℤ (num_seconds now e.created_at) ttl_seconds

module _ {ℓ} {K V : Type ℓ} (dec : Discrete K) where
  -- The clock is read for the test, and again for `last_accessed`.
  unfoldable pub get_value : ℕ → ℕ → K → TimeBasedCache K V → Option V × TimeBasedCache K V
  get_value now now' key c = elim (get dec key c.entries) [
    | none ↦ (none, c)
    | some e ↦
        if is_expired now c.ttl_seconds e
        then (none, record c { entries = remove dec key c.entries })
        else (some e.value, record c { entries = modify dec key (touched now') c.entries })
  ]

  unfoldable pub put : ℕ → ℕ → K → V → TimeBasedCache K V → TimeBasedCache K V
  put now now' key value c = record c { entries = insert dec key (made value now now') c.entries }

unfoldable pub remove_expired {ℓ} : {K V : Type ℓ} → ℕ → TimeBasedCache K V → TimeBasedCache K V
remove_expired now c = record c { entries = retain (is_live now c.ttl_seconds) c.entries }
