-- ===== src/Common/Index.antt =====
-- An index from keys to lists of identifiers: `map.entry(key).or_default().push(id)`.
use mathlib.Core.List.{append-nil}
use ground_core.Common.Tests.{ℕ, List, [], ◌∷◌, ◌++◌, Option, none, some, ite, ◌≡◌, arith, ap}
use ground_core.Common.Maps.{Map, get, insert, get-insert}

abbrev pub ids_at : Option (List ℕ) → List ℕ
ids_at none = []
ids_at (some ids) = ids

module _ {K : Type 0} (dec : Discrete K) where
  unfoldable pub push_id : K → ℕ → Map K (List ℕ) → Map K (List ℕ)
  push_id key id m = insert dec key (ids_at (get dec key m) ++ (id ∷ [])) m

  pub ids_at-push_id :
      (j k : K) (id : ℕ) (m : Map K (List ℕ))
      → ids_at (get dec j (push_id k id m)) ≡ ids_at (get dec j m) ++ ite (dec k j) (id ∷ []) []
  unfolding push_id
  ids_at-push_id j k id m =
      let now = ids_at (get dec k m) ++ (id ∷ []) in
      elim (dec k j) [
        | yes p ↦
            ground (arith, get-insert dec j k now m, ap (λ i. ids_at (get dec i m) ++ (id ∷ [])) p)
        | no n ↦ ground (arith, get-insert dec j k now m, append-nil (ids_at (get dec j m)))
      ]
