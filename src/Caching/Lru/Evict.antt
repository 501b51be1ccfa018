-- ===== src/Caching/Lru/Evict.antt =====
-- What a `put` keeps and what it evicts.
use ground_core.Common.Tests.{
  ℕ, ◌≤◌, ◌<◌, [], none, some, ite, if_neg, ◌≡◌, ◌≢◌, ◌⊎◌, inl, inr, arith, leb, Bool-cases,
}
use ground_core.Common.Lists.{length, All, Distinct}
use ground_core.Common.Maps.{get, keys, values, remove, get-insert, get-insert_self, get-remove}
use ground_core.Common.Select.{min_by-cases}
use ground_core.Caching.Entry.{CacheEntry, made}
use ground_core.Caching.Lru.{LruCache, evict_lru, put}

module _ {ℓ} {K V : Type ℓ} (dec : Discrete K) where
  -- The entry that was used longest ago.
  abbrev pub Oldest : LruCache K V → K → Type ℓ
  Oldest c k =
      (e : CacheEntry V) × (get dec k c.entries ≡ some e)
      × All (λ x. e.last_accessed ≤ x.last_accessed) (values c.entries)

  evict_lru-cases :
      (c : LruCache K V)
      → Distinct (keys c.entries)
      → ((c.entries ≡ []) × (evict_lru dec c ≡ c))
        ⊎ ((k : K) × Oldest c k × (evict_lru dec c ≡ record c { entries = remove dec k c.entries }))
  unfolding evict_lru
  evict_lru-cases c d =
      elim (min_by-cases dec (λ (e : CacheEntry V). e.last_accessed) c.entries d) [
        | inl (e, n) ↦ inl (e, rw (n, evict_lru))
        | inr (k, v, n, g, a) ↦ inr (k, (v, g, a), rw (n, evict_lru))
      ]

  module _ (now now' : ℕ) (key : K) (value : V) (c : LruCache K V) where
    -- After a `put` the key has the new value. Below the maximal size every other entry is as it
    -- was. At the maximal size one key has been evicted, an entry that was used no later than any
    -- other, and every key but these two has the entry that it had.
    put_lem :
        Distinct (keys c.entries)
        → c.entries ≢ []
        → let c' = put dec now now' key value c in
          (get dec key c'.entries ≡ some (made value now now'))
          × (length c.entries < c.max_size
              → (j : K) → key ≢ j
              → get dec j c'.entries ≡ get dec j c.entries)
          × (c.max_size ≤ length c.entries
              → (k : K) × Oldest c k
                × ((j : K)
                    → key ≢ j
                    → get dec j c'.entries ≡ ite (dec k j) none (get dec j c.entries)))
    unfolding put
    put_lem d ne = elim (Bool-cases (leb c.max_size (length c.entries))) [
      | inl y ↦ elim (evict_lru-cases c d) [
        | inl (e, n) ↦ absurd (ne e)
        | inr (k, o, n) ↦ (
          rw (y, n) (get-insert_self dec key (made value now now') (remove dec k c.entries)),
          λ h. ground arith,
          λ h. (
            k,
            o,
            λ j nk.
                rw
                  (
                    y,
                    n,
                    get-insert dec j key (made value now now') (remove dec k c.entries),
                    if_neg _ nk,
                  )
                  (get-remove dec j k c.entries),
          ),
        )
      ]
      | inr y ↦ (
        rw y (get-insert_self dec key (made value now now') c.entries),
        λ h j nk. rw (y, get-insert dec j key (made value now now') c.entries, if_neg _ nk),
        λ h. ground arith,
      )
    ]
