-- ===== src/Common/Maps.antt =====
-- `std::collections::HashMap` as an association list. The order of the list stands for the map's
-- order of iteration, which the library leaves open.
use mathlib.Core.Option
use ground_core.Common.Tests.{
  ◌<◌, ◌≡◌, refl, ite, subst, List, [], ◌∷◌, Option, none, some, arith, ◌≤◌, suc,
}
use ground_core.Common.Lists.{length, All, Distinct}

abbrev pub Map {ℓ} : Type ℓ → Type ℓ → Type ℓ
Map K V = List (K × V)

module _ {ℓ} {K V : Type ℓ} where
  abbrev pub keys : Map K V → List K
  keys [] = []
  keys ((k, v) ∷ m) = k ∷ keys m

  abbrev pub values : Map K V → List V
  values [] = []
  values ((k, v) ∷ m) = v ∷ values m

module _ {ℓ} {K V : Type ℓ} (dec : Discrete K) where
  unfoldable pub get : K → Map K V → Option V
  get k [] = none
  get k ((j, v) ∷ m) = ite (dec j k) (some v) (get k m)

  -- A new key goes to the end, a known one gets the new value.
  unfoldable pub insert : K → V → Map K V → Map K V
  insert k v [] = (k, v) ∷ []
  insert k v ((j, w) ∷ m) = ite (dec j k) ((j, v) ∷ m) ((j, w) ∷ insert k v m)

  unfoldable pub remove : K → Map K V → Map K V
  remove k [] = []
  remove k ((j, w) ∷ m) = ite (dec j k) (remove k m) ((j, w) ∷ remove k m)

  -- `if let Some(v) = m.get_mut(k) { *v = f(v) }`.
  unfoldable pub modify : K → (V → V) → Map K V → Map K V
  modify k f [] = []
  modify k f ((j, w) ∷ m) = ite (dec j k) ((j, f w) ∷ m) ((j, w) ∷ modify k f m)

  pub get-insert :
      (j k : K) (v : V) (m : Map K V) → get j (insert k v m) ≡ ite (dec k j) (some v) (get j m)
  unfolding get insert
  get-insert j k v [] = refl
  get-insert j k v ((i, w) ∷ m) = ground (arith, get-insert j k v m)

  pub get-insert_self : (k : K) (v : V) (m : Map K V) → get k (insert k v m) ≡ some v
  get-insert_self k v m = ground (arith, get-insert k k v m)

  pub get-remove : (j k : K) (m : Map K V) → get j (remove k m) ≡ ite (dec k j) none (get j m)
  unfolding get remove
  get-remove j k [] = ground arith
  get-remove j k ((i, w) ∷ m) = ground (arith, get-remove j k m)

  pub get-modify :
      (j k : K) (f : V → V) (m : Map K V)
      → get j (modify k f m) ≡ ite (dec k j) (Option.map f (get j m)) (get j m)
  unfolding get modify
  get-modify j k f [] = ground arith
  get-modify j k f ((i, w) ∷ m) = ground (arith, get-modify j k f m)

  pub keys-modify : (k : K) (f : V → V) (m : Map K V) → keys (modify k f m) ≡ keys m
  unfolding modify
  keys-modify k f [] = refl
  keys-modify k f ((i, w) ∷ m) = ground (arith, keys-modify k f m)

  pub length-modify : (k : K) (f : V → V) (m : Map K V) → length (modify k f m) ≡ length m
  unfolding modify
  length-modify k f [] = refl
  length-modify k f ((i, w) ∷ m) = ground (arith, length-modify k f m)

  -- An insertion adds one entry exactly if the key was not there.
  pub length-insert :
      (k : K) (v : V) (m : Map K V)
      → length (insert k v m) ≡ elim (get k m) [ none ↦ suc (length m) | some _ ↦ length m ]
  unfolding insert get
  length-insert k v [] = refl
  length-insert k v ((i, w) ∷ m) = ground (arith, length-insert k v m)

  pub length-remove : (k : K) (m : Map K V) → length (remove k m) ≤ length m
  unfolding remove
  length-remove k [] = omega arith
  length-remove k ((i, w) ∷ m) = ground (arith, length-remove k m)

  -- Removing a known key makes the map smaller.
  pub length-remove_lt :
      (k : K) (m : Map K V) {v : V} → get k m ≡ some v → length (remove k m) < length m
  unfolding remove get
  length-remove_lt k [] h = cc
  length-remove_lt k ((i, w) ∷ m) {v} h =
      ground (arith, length-remove k m, length-remove_lt k m {v = v})

  -- The keys of a map are distinct; every operation keeps them so.
  module _ (x : K) where
    pub fresh-insert :
        (k : K) (v : V) (m : Map K V)
        → ¬ (x ≡ k)
        → All (λ y. ¬ (x ≡ y)) (keys m)
        → All (λ y. ¬ (x ≡ y)) (keys (insert k v m))
    unfolding insert
    fresh-insert k v [] h a = (h, tt)
    fresh-insert k v ((i, w) ∷ m) h a = ground (arith, fresh-insert k v m h a.1)

    pub fresh-remove :
        (k : K) (m : Map K V)
        → All (λ y. ¬ (x ≡ y)) (keys m)
        → All (λ y. ¬ (x ≡ y)) (keys (remove k m))
    unfolding remove
    fresh-remove k [] a = tt
    fresh-remove k ((i, w) ∷ m) a = ground (arith, fresh-remove k m a.1)

  pub insert-Distinct :
      (k : K) (v : V) (m : Map K V) → Distinct (keys m) → Distinct (keys (insert k v m))
  unfolding insert
  insert-Distinct k v [] d = (tt, tt)
  insert-Distinct k v ((i, w) ∷ m) d =
      ground (arith, insert-Distinct k v m d.1, λ (h : ¬ (i ≡ k)). fresh-insert i k v m h d.0)

  pub remove-Distinct : (k : K) (m : Map K V) → Distinct (keys m) → Distinct (keys (remove k m))
  unfolding remove
  remove-Distinct k [] d = tt
  remove-Distinct k ((i, w) ∷ m) d = ground (arith, remove-Distinct k m d.1, fresh-remove i k m d.0)

  pub modify-Distinct :
      (k : K) (f : V → V) (m : Map K V) → Distinct (keys m) → Distinct (keys (modify k f m))
  modify-Distinct k f m d = rw (keys-modify k f m) d

-- What holds of every value.
module _ {ℓ} {K V : Type ℓ} (dec : Discrete K) (P : V → Type ℓ) where
  pub insert-All :
      (k : K) (v : V) (m : Map K V) → P v → All P (values m) → All P (values (insert dec k v m))
  unfolding insert
  insert-All k v [] h a = (h, tt)
  insert-All k v ((j, x) ∷ m) h a = ground (arith, insert-All k v m h a.1)

  pub remove-All : (k : K) (m : Map K V) → All P (values m) → All P (values (remove dec k m))
  unfolding remove
  remove-All k [] a = tt
  remove-All k ((j, x) ∷ m) a = ground (arith, remove-All k m a.1)

  pub modify-All :
      (k : K) (f : V → V) (m : Map K V)
      → ((v : V) → P v → P (f v))
      → All P (values m)
      → All P (values (modify dec k f m))
  unfolding modify
  modify-All k f [] h a = tt
  modify-All k f ((j, x) ∷ m) h a = ground (arith, h x a.0, modify-All k f m h a.1)

  pub get-All : (k : K) (m : Map K V) {v : V} → All P (values m) → get dec k m ≡ some v → P v
  unfolding get
  get-All k [] a h = cc
  get-All k ((j, x) ∷ m) {v} a h = elim (dec j k) [
    | yes p ↦ let same : x ≡ v = ground arith in subst P same a.0
    | no n ↦ get-All k m {v = v} a.1 (ground arith)
  ]
