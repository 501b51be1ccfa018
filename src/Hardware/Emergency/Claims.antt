-- ===== src/Hardware/Emergency/Claims.antt =====
-- Claims and releases of emergency shards.
use ground_core.Common.Tests.{
  ℕ, zero, suc, ◌+◌, ◌<◌, true, false, List, [], ◌∷◌, map, some, ◌≡◌, ◌≢◌, ◌↔◌, refl, arith, inl,
  inr, ◌⊎◌, ap, Bool-cases,
}
use ground_core.Common.Lists.{count, get_elem?}
use ground_core.Common.Result.{ok, err}
use ground_core.Hardware.Emergency.{
  EmergencyShard, EmergencyShardPool, ShardError, none_available, is_available, claim_from, claim,
  release_at, release, available_count,
}

-- What a claim that returns index `i + k` does to the list that begins at index `i`.
record Claimed (now k : ℕ) (ss ss' : List EmergencyShard) : Type 0 where
  shard : EmergencyShard
  found : get_elem? ss k ≡ some shard
  was_free : shard.in_use ≡ false
  now_used : get_elem? ss' k ≡ some (record shard { in_use = true; last_claimed = now })
  others : (j : ℕ) → j ≢ k → get_elem? ss' j ≡ get_elem? ss j
  first : (j : ℕ) (s : EmergencyShard) → j < k → get_elem? ss j ≡ some s → s.in_use ≡ true
  one_fewer : count is_available ss' + 1 ≡ count is_available ss
  undone : map (λ s. s.in_use) (release_at k ss') ≡ map (λ s. s.in_use) ss

abbrev AllUsed : List EmergencyShard → Type 0
AllUsed ss = (j : ℕ) (s : EmergencyShard) → get_elem? ss j ≡ some s → s.in_use ≡ true

Claimed-here :
    (now : ℕ) (s : EmergencyShard) (ss : List EmergencyShard)
    → s.in_use ≡ false
    → Claimed now 0 (s ∷ ss) (record s { in_use = true; last_claimed = now } ∷ ss)
unfolding release_at
Claimed-here now s ss n = record {
  shard = s;
  found = refl;
  was_free = n;
  now_used = refl;
  others = λ j ne.
      elim j
          as (λ i.
            i ≢ 0
            → get_elem? (record s { in_use = true; last_claimed = now } ∷ ss) i
              ≡ get_elem? (s ∷ ss) i) [ zero ↦ λ ne. absurd (ne refl) | suc i ↦ λ ne. refl ]
        ne;
  first = λ j t h e. absurd (omega arith);
  one_fewer = ground arith;
  undone = ground arith;
}

Claimed-later :
    (now k : ℕ) (s : EmergencyShard) (ss ss' : List EmergencyShard)
    → s.in_use ≡ true
    → Claimed now k ss ss'
    → Claimed now (suc k) (s ∷ ss) (s ∷ ss')
unfolding release_at
Claimed-later now k s ss ss' y c = record {
  shard = c.shard;
  found = c.found;
  was_free = c.was_free;
  now_used = c.now_used;
  others = elim [ zero ↦ λ ne. refl | suc j ↦ λ ne. c.others j (λ e. ne (ap suc e)) ];
  first = elim [ zero ↦ λ t h e. ground arith | suc j ↦ λ t h e. c.first j t (omega arith) e ];
  one_fewer = ground (arith, c.one_fewer);
  undone = ground (arith, c.undone);
}

module _ (now i : ℕ) (s : EmergencyShard) (ss : List EmergencyShard) where
  claim_from_used :
      s.in_use ≡ true
      → claim_from now i (s ∷ ss)
        ≡ ((claim_from now (suc i) ss).0, s ∷ (claim_from now (suc i) ss).1)
  unfolding claim_from
  claim_from_used y = ground arith

  claim_from_free :
      s.in_use ≡ false
      → claim_from now i (s ∷ ss) ≡ (ok i, record s { in_use = true; last_claimed = now } ∷ ss)
  unfolding claim_from
  claim_from_free n = ground arith

-- The loop, by whether it meets a free shard.
claim_from-cases :
    (now i : ℕ) (ss : List EmergencyShard)
    → ((k : ℕ) × ((claim_from now i ss).0 ≡ ok (i + k)) × Claimed now k ss (claim_from now i ss).1)
      ⊎ ((claim_from now i ss ≡ (err none_available, ss))
          × (count is_available ss ≡ 0)
          × AllUsed ss)
claim_from-cases now i [] = unfold claim_from in inr (refl, refl, λ j s e. cc)
claim_from-cases now i (s ∷ ss) = elim (Bool-cases s.in_use) [
  | inl y ↦ elim (claim_from-cases now (suc i) ss) [
    | inl (k, e, c) ↦ inl (
      suc k,
      rw (claim_from_used now i s ss y) (ground (arith, e)),
      rw (claim_from_used now i s ss y) (Claimed-later now k s ss _ y c),
    )
    | inr (e, z, u) ↦ inr (
      rw (claim_from_used now i s ss y) (ground (arith, e)),
      ground arith,
      elim [ zero ↦ λ t h. ground arith | suc j ↦ λ t h. u j t h ],
    )
  ]
  | inr n ↦ inl (
    0,
    rw (claim_from_free now i s ss n) (ground arith),
    rw (claim_from_free now i s ss n) (Claimed-here now s ss n),
  )
]

-- A claim that succeeds, at `now`, returns the least index of a shard that was free; that shard is
-- in use and stamped with `now` afterwards, every other one is as it was, there is one available
-- shard fewer, and a release of the index makes the use of every shard what it was before.
claim_ok :
    (now : ℕ) (p : EmergencyShardPool) {i : ℕ}
    → (claim now p).0 ≡ ok i
    → let p' = (claim now p).1 in
      ((s : EmergencyShard) × (get_elem? p.shards i ≡ some s)
        × (s.in_use ≡ false)
        × (get_elem? p'.shards i ≡ some (record s { in_use = true; last_claimed = now })))
      × ((j : ℕ) (s : EmergencyShard) → j < i → get_elem? p.shards j ≡ some s → s.in_use ≡ true)
      × ((j : ℕ) → j ≢ i → get_elem? p'.shards j ≡ get_elem? p.shards j)
      × (available_count p' + 1 ≡ available_count p)
      × (map (λ s. s.in_use) (release i p').shards ≡ map (λ s. s.in_use) p.shards)
unfolding claim release available_count
claim_ok now p {i} h = elim (claim_from-cases now 0 p.shards) [
  | inl (k, e, c) ↦
      let same : k ≡ i = ground arith in
      rw (← same)
        ((c.shard, c.found, c.was_free, c.now_used), c.first, c.others, c.one_fewer, c.undone)
  | inr (e, z, u) ↦ absurd (ground arith)
]

-- A claim fails exactly if no shard is available, and then leaves the pool as it is.
claim_err_iff :
    (now : ℕ) (p : EmergencyShardPool)
    → ((claim now p ≡ (err none_available, p)) ↔ (available_count p ≡ 0))
      × ((e : ShardError) → (claim now p).0 ≡ err e → available_count p ≡ 0)
unfolding claim available_count
claim_err_iff now p = elim (claim_from-cases now 0 p.shards) [
  | inl (k, e, c) ↦ (
    (λ h. absurd (ground arith), λ z. absurd (ground (arith, c.one_fewer))),
    λ x h. absurd (ground arith),
  )
  | inr (e, z, u) ↦ ((λ h. z, λ h. ground arith), λ x h. z)
]
