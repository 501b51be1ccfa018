-- ===== src/RfLayer/Tracker.antt =====
-- The pool of shadow SDRs of rf-layer/src/shadow.rs: `ShadowTracker`.
pub mod Kept
use Prim.Native.String.{String}
use ground_core.Common.Tests.{ℕ, List, [], ◌∷◌, ◌++◌, Option, none, some, String_discrete}
use ground_core.Common.Ends.{pop}
use ground_core.Common.Lists.{length}
use ground_core.Common.Maps.{Map, get, insert, remove}
use ground_core.RfLayer.Sdr.{SdrHandle}

pub record ShadowTracker : Type 0 where
  pub available_shadows : List SdrHandle
  pub allocated_shadows : Map String SdrHandle

unfoldable pub new_tracker : ShadowTracker
new_tracker = record { available_shadows = []; allocated_shadows = [] }

unfoldable pub add_shadow : SdrHandle → ShadowTracker → ShadowTracker
add_shadow shadow t = record t { available_shadows = t.available_shadows ++ (shadow ∷ []) }

-- `Ok` in every case.
unfoldable pub allocate_shadow : String → ShadowTracker → Option SdrHandle × ShadowTracker
allocate_shadow pass_id t = elim (pop t.available_shadows) [
  | none ↦ (none, t)
  | some (shadow, rest) ↦ (
    some shadow,
    record {
      available_shadows = rest;
      allocated_shadows = insert String_discrete pass_id shadow t.allocated_shadows;
    },
  )
]

unfoldable pub release_shadow : String → ShadowTracker → ShadowTracker
release_shadow pass_id t = elim (get String_discrete pass_id t.allocated_shadows) [
  | none ↦ t
  | some shadow ↦ record {
    available_shadows = t.available_shadows ++ (shadow ∷ []);
    allocated_shadows = remove String_discrete pass_id t.allocated_shadows;
  }
]

unfoldable pub available_count : ShadowTracker → ℕ
available_count t = length t.available_shadows

unfoldable pub allocated_count : ShadowTracker → ℕ
allocated_count t = length t.allocated_shadows
