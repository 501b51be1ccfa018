-- ===== src/Caching/Ttl/Expiry.antt =====
-- What a cache with a time to live answers, with and without the expired entries.
use ground_core.Common.Tests.{
  ℕ, ◌≤◌, true, Option, none, some, ◌≡◌, inl, inr, refl, arith, if◌then◌else◌, Bool-cases,
  Option-cases, not,
}
use ground_core.Common.Int.{ℤ, ◌≤ℤ◌, leb_ℤ, ltb_ℤ}
use ground_core.Common.Clock.{num_seconds}
use ground_core.Common.Lists.{Distinct}
use ground_core.Common.Maps.{get, keys}
use ground_core.Common.Select.{kept, get-retain}
use ground_core.Caching.Entry.{CacheEntry}
use ground_core.Caching.Ttl.{TimeBasedCache, is_expired, is_live, get_value, remove_expired}

pub is_live-is_expired {ℓ} :
    {V : Type ℓ} (now : ℕ) (ttl : ℤ) (e : CacheEntry V)
    → is_live now ttl e ≡ not (is_expired now ttl e)
unfolding is_live is_expired leb_ℤ ltb_ℤ
is_live-is_expired now ttl e = ground arith

-- Time only makes an entry older.
num_seconds-≤ :
    (created : ℕ) {t now : ℕ} → t ≤ now → num_seconds t created ≤ℤ num_seconds now created
num_seconds-≤ created h = ground arith

module _ {ℓ} {K V : Type ℓ} (dec : Discrete K) where
  is_expired_later :
      {t now : ℕ} (ttl : ℤ) (e : CacheEntry V)
      → t ≤ now
      → is_expired t ttl e ≡ true
      → is_expired now ttl e ≡ true
  unfolding is_expired ltb_ℤ
  is_expired_later ttl e h y = ground (arith, num_seconds-≤ e.created_at h)

  -- What `get` answers, from the entry under the key.
  abbrev answer : ℕ → ℤ → Option (CacheEntry V) → Option V
  answer now ttl none = none
  answer now ttl (some e) = if is_expired now ttl e then none else some e.value

  get_value_lem :
      (now now' : ℕ) (key : K) (c : TimeBasedCache K V)
      → (get_value dec now now' key c).0 ≡ answer now c.ttl_seconds (get dec key c.entries)
  unfolding get_value
  get_value_lem now now' key c = elim (Option-cases (get dec key c.entries)) [
    | inl n ↦ rw (n, get_value) refl
    | inr (e, s) ↦ elim (Bool-cases (is_expired now c.ttl_seconds e)) [
      | inl y ↦ rw (s, get_value, y) refl
      | inr y ↦ rw (s, get_value, y) refl
    ]
  ]

  answer-kept :
      {t now : ℕ} (ttl : ℤ) (o : Option (CacheEntry V))
      → t ≤ now
      → answer now ttl (kept dec (is_live t ttl) o) ≡ answer now ttl o
  answer-kept ttl none h = refl
  answer-kept {t} {now} ttl (some e) h =
      ground (arith, is_live-is_expired t ttl e, is_expired_later {t = t} {now = now} ttl e h)

  -- Dropping the expired entries never shows: a `get` at that reading of the clock or at a later
  -- one, of any key, answers as it does without the clean-up.
  pub get_value-remove_expired :
      (t now now' : ℕ) (key : K) (c : TimeBasedCache K V)
      → Distinct (keys c.entries)
      → t ≤ now
      → (get_value dec now now' key (remove_expired t c)).0 ≡ (get_value dec now now' key c).0
  unfolding remove_expired
  get_value-remove_expired t now now' key c d h =
      rw
        (
          get_value_lem now now' key (remove_expired t c),
          get_value_lem now now' key c,
          get-retain dec key (is_live t c.ttl_seconds) c.entries d,
        )
        (answer-kept c.ttl_seconds (get dec key c.entries) h)
