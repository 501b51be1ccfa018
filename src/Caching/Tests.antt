-- ===== src/Caching/Tests.antt =====
-- The caches of caching/src at concrete entries.
use Prim.Native.String.{String}
use ground_core.Common.Tests.{
  String_discrete, min, ap, sym, ◌∙◌, ℕ, [], ◌∷◌, some, ◌≡◌, arith, ℕ_discrete,
}
use ground_core.Common.Int.{pos}
use ground_core.Common.Lists.{length}
use ground_core.Common.Maps.{get, insert}
use ground_core.Caching.Entry.{made}
use ground_core.Caching.Lru.{LruCache}
use ground_core.Caching.Fragments.{ScheduleFragment, ScheduleFragmentCache, add_fragment}
use ground_core.Caching.Fragments.Prune.{Keyed, Within, add_fragment_lem}
use ground_core.Caching.Ttl.{TimeBasedCache, get_value, remove_expired}
use ground_core.Caching.Ttl.Expiry.{get_value-remove_expired}

abbrev full_cache : LruCache ℕ ℕ
full_cache = record { entries = (1, made 10 5 5) ∷ (2, made 20 3 3) ∷ []; max_size = 2 }

abbrev seconds : TimeBasedCache ℕ ℕ
seconds = record {
  entries = (1, made 10 5000000000 5000000000) ∷ (2, made 20 3000000000 3000000000) ∷ [];
  ttl_seconds = pos 1;
}

get_value-remove_expired_example :
    (get_value ℕ_discrete 6000000000 6000000001 1 (remove_expired 5000000000 seconds)).0
    ≡ (get_value ℕ_discrete 6000000000 6000000001 1 seconds).0
get_value-remove_expired_example =
    get_value-remove_expired ℕ_discrete 5000000000 6000000000 6000000001 1 seconds
      ((ground arith, tt), (tt, tt)) (omega arith)

abbrev fragment_at : ℕ → String → ScheduleFragment
fragment_at now hash = record {
  pass_ids = "p" ∷ [];
  committed_at = now;
  immutable_until = pos 9;
  hash = hash;
}

abbrev one_fragment : ScheduleFragmentCache
one_fragment = record { fragments = ("a", fragment_at 3 "a") ∷ []; max_fragments = 1 }

one_fragment-Keyed : Keyed one_fragment.fragments
unfolding get
one_fragment-Keyed = record {
  under_hash = λ k f e. elim (String_discrete "a" k) [
    | yes p ↦ let same : fragment_at 3 "a" ≡ f = ground arith in ap (λ x. x.hash) (sym same) ∙ p
    | no n ↦ absurd (ground arith)
  ];
  distinct = (tt, tt);
}

add_fragment_lem_example :
    (c' : ScheduleFragmentCache) × (add_fragment 3 (fragment_at 5 "b") one_fragment ≡ some c')
    × (length c'.fragments
        ≡ min 1 (length (insert String_discrete "b" (fragment_at 5 "b") one_fragment.fragments)))
    × Keyed c'.fragments
    × Within c'.fragments (insert String_discrete "b" (fragment_at 5 "b") one_fragment.fragments)
add_fragment_lem_example =
    add_fragment_lem 3 (fragment_at 5 "b") one_fragment one_fragment-Keyed (omega arith)
