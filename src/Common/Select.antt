-- ===== src/Common/Select.antt =====
-- Selections from a map: `HashMap::retain`, and `Iterator::min_by_key`, which takes the entry that
-- the iteration meets first among those of the least measure.
use ground_core.Common.Tests.{
  ℕ, ◌≤◌, ◌≡◌, refl, if_pos, if_neg, subst, sym, leb, Bool, if◌then◌else◌, ◌⊎◌, inl, inr, [], ◌∷◌,
  Option, none, some, arith, Bool-cases,
}
use ground_core.Common.Lists.{All, Distinct, All-map}
use ground_core.Common.Maps.{Map, get, keys, values}

module _ {ℓ} {K V : Type ℓ} where
  unfoldable pub retain : (V → Bool) → Map K V → Map K V
  retain f [] = []
  retain f ((k, v) ∷ m) = let rest = retain f m in if f v then (k, v) ∷ rest else rest

  unfoldable pub min_by : (V → ℕ) → Map K V → Option (K × V)
  min_by f [] = none
  min_by f ((k, v) ∷ m) = elim (min_by f m) [
    | none ↦ some (k, v)
    | some (j, w) ↦ if leb (f v) (f w) then some (k, v) else some (j, w)
  ]

  pub fresh-retain :
      (f : V → Bool) (x : K) (m : Map K V)
      → All (λ y. ¬ (x ≡ y)) (keys m)
      → All (λ y. ¬ (x ≡ y)) (keys (retain f m))
  unfolding retain
  fresh-retain f x [] h = tt
  fresh-retain f x ((k, v) ∷ m) h = ground (arith, fresh-retain f x m h.1)

  pub retain-Distinct :
      (f : V → Bool) (m : Map K V) → Distinct (keys m) → Distinct (keys (retain f m))
  unfolding retain
  retain-Distinct f [] h = tt
  retain-Distinct f ((k, v) ∷ m) h = ground (arith, retain-Distinct f m h.1, fresh-retain f k m h.0)

module _ {ℓ} {K V : Type ℓ} (dec : Discrete K) where
  -- A value, if it passes the test.
  abbrev pub kept : (V → Bool) → Option V → Option V
  kept f none = none
  kept f (some v) = if f v then some v else none

  pub get_fresh : (k : K) (m : Map K V) → All (λ y. ¬ (k ≡ y)) (keys m) → get dec k m ≡ none
  unfolding get
  get_fresh k [] h = refl
  get_fresh k ((j, v) ∷ m) h = rw (if_neg _ (λ (e : j ≡ k). h.0 (sym e))) (get_fresh k m h.1)

  pub get-retain :
      (k : K) (f : V → Bool) (m : Map K V)
      → Distinct (keys m)
      → get dec k (retain f m) ≡ kept f (get dec k m)
  unfolding get retain
  get-retain k f [] h = refl
  get-retain k f ((j, v) ∷ m) h = elim (dec j k) [
    | yes p ↦ ground (
      arith,
      get_fresh k (retain f m)
          (fresh-retain f k m (subst (λ x. All (λ y. ¬ (x ≡ y)) (keys m)) p h.0)),
    )
    | no n ↦ ground (arith, get-retain k f m h.1)
  ]

  get_head : (k : K) (v : V) (m : Map K V) → get dec k ((k, v) ∷ m) ≡ some v
  unfolding get
  get_head k v m = rw (if_pos _ refl)

  get_tail :
      (j k : K) (v : V) (m : Map K V) {w : V}
      → All (λ y. ¬ (k ≡ y)) (keys m)
      → get dec j m ≡ some w
      → get dec j ((k, v) ∷ m) ≡ some w
  get_tail j k v m fresh g = elim (dec k j) [
    | yes p ↦
        absurd (
          let none_there = get_fresh j m (subst (λ x. All (λ y. ¬ (x ≡ y)) (keys m)) p fresh) in cc)
    | no n ↦ unfold get in rw (if_neg _ n) g
  ]

  -- What `min_by` finds is an entry of the map, and no entry measures less.
  pub min_by-cases :
      (f : V → ℕ) (m : Map K V)
      → Distinct (keys m)
      → ((m ≡ []) × (min_by f m ≡ none))
        ⊎ ((k : K) × (v : V) × (min_by f m ≡ some (k, v))
            × (get dec k m ≡ some v)
            × All (λ w. f v ≤ f w) (values m))
  unfolding min_by
  min_by-cases f [] d = inl (refl, refl)
  min_by-cases f ((k, v) ∷ m) d = elim (min_by-cases f m d.1) [
    | inl (e, n) ↦ inr (k, v, rw (n, min_by) refl, get_head k v m, (omega arith, rw e tt))
    | inr (j, w, n, g, a) ↦ elim (Bool-cases (leb (f v) (f w))) [
      | inl y ↦ inr (
        k,
        v,
        rw (n, min_by, y),
        get_head k v m,
        (omega arith, All-map (λ x. f w ≤ f x) (λ x. f v ≤ f x) (λ x h. ground arith) (values m) a),
      )
      | inr y ↦ inr (j, w, rw (n, min_by, y), get_tail j k v m d.0 g, (ground arith, a))
    ]
  ]
