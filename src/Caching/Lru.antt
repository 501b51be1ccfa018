-- ===== src/Caching/Lru.antt =====
-- caching/src/generic.rs, `LruCache`. The readings of the clock are arguments.
pub mod Evict
use mathlib.Core.Option
use ground_core.Common.Tests.{ℕ, Bool, List, [], Option, none, some, if◌then◌else◌, leb, ◌==◌}
use ground_core.Common.Lists.{length}
use ground_core.Common.Maps.{Map, get, insert, remove, modify}
use ground_core.Common.Select.{min_by}
use ground_core.Caching.Entry.{CacheEntry, made, touched}

pub record LruCache {ℓ} (K V : Type ℓ) : Type ℓ where
  pub entries : Map K (CacheEntry V)
  pub max_size : ℕ

module _ {ℓ} {K V : Type ℓ} where
  unfoldable pub new : ℕ → LruCache K V
  new max_size = record { entries = []; max_size = max_size }

  unfoldable pub len : LruCache K V → ℕ
  len c = length c.entries

  unfoldable pub is_empty : LruCache K V → Bool
  is_empty c = length c.entries == 0

  unfoldable pub clear : LruCache K V → LruCache K V
  clear c = record c { entries = [] }

module _ {ℓ} {K V : Type ℓ} (dec : Discrete K) where
  unfoldable pub get_value : ℕ → K → LruCache K V → Option V × LruCache K V
  get_value now key c = elim (get dec key c.entries) [
    | none ↦ (none, c)
    | some e ↦ (some e.value, record c { entries = modify dec key (touched now) c.entries })
  ]

  unfoldable pub evict_lru : LruCache K V → LruCache K V
  evict_lru c = elim (min_by (λ e. e.last_accessed) c.entries) [
    | none ↦ c
    | some (lru_key, _) ↦ record c { entries = remove dec lru_key c.entries }
  ]

  unfoldable pub put : ℕ → ℕ → K → V → LruCache K V → LruCache K V
  put now now' key value c =
      let c' = if leb c.max_size (length c.entries) then evict_lru c else c in
      record c' { entries = insert dec key (made value now now') c'.entries }

  unfoldable pub remove_value : K → LruCache K V → Option V × LruCache K V
  remove_value key c = (
    Option.map (λ e. e.value) (get dec key c.entries),
    record c { entries = remove dec key c.entries },
  )
