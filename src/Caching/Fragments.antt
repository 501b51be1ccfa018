-- ===== src/Caching/Fragments.antt =====
-- caching/src/schedule.rs: the cache of schedule fragments. The digest of the sha2 crate and the
-- bytes of a text are parameters. The pruning loop has fuel: `none` means that it has run out.
pub mod Prune
use Prim.Native.String.{String}
use ground_core.Common.Tests.{
  ℕ, zero, suc, ◌+◌, ◌-◌, ◌*◌, Bool, List, [], ◌∷◌, ◌++◌, Option, none, some, ltb, if◌then◌else◌,
  ◌&&◌, String_discrete,
}
use ground_core.Common.Int.{ℤ, pos, negsuc, sub_ℕ, ltb_ℤ}
use ground_core.Common.Clock.{nanos_per_second}
use ground_core.Common.Lists.{length, contains, count}
use ground_core.Common.Maps.{Map, get, insert, remove, values}
use ground_core.Common.Select.{retain, min_by}

-- `immutable_until` counts nanoseconds as the clock does; a negative duration may lead before its
-- start.
pub record ScheduleFragment : Type 0 where
  pub pass_ids : List String
  pub committed_at : ℕ
  pub immutable_until : ℤ
  pub hash : String

-- `now + Duration::seconds(n)`.
unfoldable pub add_seconds : ℕ → ℤ → ℤ
add_seconds now (pos n) = pos (now + n * nanos_per_second)
add_seconds now (negsuc n) = sub_ℕ now (suc n * nanos_per_second)

module _ (text_bytes : String → List ℕ) (digest : List ℕ → String) where
  unfoldable pub pass_bytes : List String → List ℕ
  pass_bytes [] = []
  pass_bytes (p ∷ ps) = text_bytes p ++ pass_bytes ps

  unfoldable pub compute_hash : List String → String
  compute_hash pass_ids = digest (pass_bytes pass_ids)

  unfoldable pub new_fragment : ℕ → List String → ℤ → ScheduleFragment
  new_fragment now pass_ids immutable_duration_sec = record {
    pass_ids = pass_ids;
    committed_at = now;
    immutable_until = add_seconds now immutable_duration_sec;
    hash = compute_hash pass_ids;
  }

unfoldable pub is_immutable : ℕ → ScheduleFragment → Bool
is_immutable now f = ltb_ℤ (pos now) f.immutable_until

unfoldable pub contains_pass : String → ScheduleFragment → Bool
contains_pass pass_id f = contains String_discrete f.pass_ids pass_id

pub record ScheduleFragmentCache : Type 0 where
  pub fragments : Map String ScheduleFragment
  pub max_fragments : ℕ

unfoldable pub new : ℕ → ScheduleFragmentCache
new max_fragments = record { fragments = []; max_fragments = max_fragments }

-- `while len > max { if let Some(oldest) = .. { remove } }`: without an oldest fragment the loop
-- goes on with the same map.
unfoldable pub prune : ℕ → ℕ → Map String ScheduleFragment → Option (Map String ScheduleFragment)
prune zero most m = none
prune (suc fuel) most m = elim (min_by (λ f. f.committed_at) m) [
  | none ↦ (let again = prune fuel most m in if ltb most (length m) then again else some m)
  | some (_, oldest) ↦
      (let rest = prune fuel most (remove String_discrete oldest.hash m) in
        if ltb most (length m) then rest else some m)
]

unfoldable pub add_fragment :
    ℕ → ScheduleFragment → ScheduleFragmentCache → Option ScheduleFragmentCache
add_fragment fuel f c =
    elim (prune fuel c.max_fragments (insert String_discrete f.hash f c.fragments)) [
      | none ↦ none
      | some m ↦ some (record c { fragments = m })
    ]

unfoldable pub get_fragment : String → ScheduleFragmentCache → Option ScheduleFragment
get_fragment hash c = get String_discrete hash c.fragments

-- `values().find(..)`; the clock is read for each fragment that contains the pass.
unfoldable pub find_for_pass :
    (String → ℕ) → String → List ScheduleFragment → Option ScheduleFragment
find_for_pass clock pass_id [] = none
find_for_pass clock pass_id (f ∷ fs) =
    let rest = find_for_pass clock pass_id fs in
    if contains_pass pass_id f && is_immutable (clock f.hash) f then some f else rest

unfoldable pub get_fragment_for_pass :
    (String → ℕ) → String → ScheduleFragmentCache → Option ScheduleFragment
get_fragment_for_pass clock pass_id c = find_for_pass clock pass_id (values c.fragments)

unfoldable pub invalidate_expired : ℕ → ScheduleFragmentCache → ScheduleFragmentCache
invalidate_expired now c = record c { fragments = retain (is_immutable now) c.fragments }

pub record ScheduleCacheStats : Type 0 where
  pub total_fragments : ℕ
  pub immutable_fragments : ℕ
  pub mutable_fragments : ℕ

-- The clock is read for each fragment; the subtraction cannot go below 0.
unfoldable pub stats : (String → ℕ) → ScheduleFragmentCache → ScheduleCacheStats
stats clock c =
    let total = length c.fragments in
    let immutable = count (λ f. is_immutable (clock f.hash) f) (values c.fragments) in
    record {
      total_fragments = total;
      immutable_fragments = immutable;
      mutable_fragments = total - immutable;
    }
