-- ===== src/Common/Values.antt =====
-- The values of a map with distinct keys are those that its keys find.
use ground_core.Common.Tests.{
  Bool, true, [], ◌∷◌, none, some, ◌≡◌, refl, if_pos, if_neg, sym, ap, ◌∙◌, arith, Bool-cases, inl,
  inr, subst, Option-cases,
}
use ground_core.Common.Lists.{All, Distinct, any}
use ground_core.Common.Maps.{Map, get, keys, values, insert, get-insert, modify, get-modify}

module _ {ℓ} {K V : Type ℓ} (dec : Discrete K) where
  get-fresh : (k : K) (m : Map K V) → All (λ y. ¬ (k ≡ y)) (keys m) → get dec k m ≡ none
  unfolding get
  get-fresh k [] h = refl
  get-fresh k ((j, w) ∷ m) h = if_neg (dec j k) (λ (e : j ≡ k). h.0 (sym e)) _ _ ∙ get-fresh k m h.1

  get-later :
      (j k : K) (v w : V) (m : Map K V)
      → All (λ y. ¬ (j ≡ y)) (keys m)
      → get dec k m ≡ some v
      → get dec k ((j, w) ∷ m) ≡ some v
  unfolding get
  get-later j k v w m h e = elim (dec j k) [
    | yes p ↦
        absurd (let f : none ≡ some v = sym (get-fresh j m h) ∙ ap (λ i. get dec i m) p ∙ e in cc)
    | no n ↦ if_neg (dec j k) n _ _ ∙ e
  ]

  get-head : (k : K) (v : V) (m : Map K V) → get dec k ((k, v) ∷ m) ≡ some v
  unfolding get
  get-head k v m = if_pos (dec k k) refl _ _

  pub All-values {κ} :
      (P : V → Type κ) (m : Map K V)
      → Distinct (keys m)
      → ((k : K) (v : V) → get dec k m ≡ some v → P v)
      → All P (values m)
  All-values P [] d h = tt
  All-values P ((j, w) ∷ m) d h =
      (h j w (get-head j w m), All-values P m d.1 (λ k v e. h k v (get-later j k v w m d.0 e)))

  pub value_of_any :
      (test : V → Bool) (m : Map K V)
      → Distinct (keys m)
      → any test (values m) ≡ true
      → (k : K) × (v : V) × (get dec k m ≡ some v) × (test v ≡ true)
  value_of_any test [] d e = cc
  value_of_any test ((j, w) ∷ m) d e = elim (Bool-cases (test w)) [
    | inl y ↦ (j, w, get-head j w m, y)
    | inr n ↦
        let found = value_of_any test m d.1 (ground arith) in
        (found.0, found.1, get-later j found.0 found.1 w m d.0 found.2, found.3)
  ]

  pub any-values :
      (test : V → Bool) (k : K) (v : V) (m : Map K V)
      → get dec k m ≡ some v
      → test v ≡ true
      → any test (values m) ≡ true
  unfolding get
  any-values test k v [] e t = cc
  any-values test k v ((j, w) ∷ m) e t = ground (arith, any-values test k v m)

  -- What holds of every entry, and of a new one, holds of every entry after an insertion.
  abbrev pub Every {κ} : (K → V → Type κ) → Map K V → Type (ℓ ⊔ κ)
  Every P m = (k : K) (v : V) → get dec k m ≡ some v → P k v

  pub insert-Every {κ} :
      (P : K → V → Type κ) (k : K) (v : V) (m : Map K V)
      → P k v
      → Every P m
      → Every P (insert dec k v m)
  insert-Every P k v m p h j w e = elim (dec k j) [
    | yes q ↦
        let found : some v ≡ some w = ground (arith, get-insert dec j k v m) in
        let equal : v ≡ w = cc in subst (λ i. P i w) q (subst (P k) equal p)
    | no n ↦ h j w (ground (arith, get-insert dec j k v m))
  ]

  pub Every-empty {κ} : (P : K → V → Type κ) → Every P []
  unfolding get
  Every-empty P k v e = cc

  -- A change that keeps a property of an entry, made to one entry.
  pub modify-Every {κ} :
      (P : K → V → Type κ) (k : K) (f : V → V) (m : Map K V)
      → ((j : K) (v : V) → P j v → P j (f v))
      → Every P m
      → Every P (modify dec k f m)
  modify-Every P k f m keep h j w e = elim (dec k j) [
    | yes q ↦ elim (Option-cases (get dec j m)) [
      | inl n ↦ absurd (let g : none ≡ some w = ground (arith, get-modify dec j k f m) in cc)
      | inr (v, g) ↦
          let found : some (f v) ≡ some w = ground (arith, get-modify dec j k f m) in
          let equal : f v ≡ w = cc in subst (P j) equal (keep j v (h j v g))
    ]
    | no n ↦ h j w (ground (arith, get-modify dec j k f m))
  ]

  pub get-modify_self :
      (k : K) (f : V → V) (v : V) (m : Map K V)
      → get dec k m ≡ some v
      → get dec k (modify dec k f m) ≡ some (f v)
  get-modify_self k f v m e = ground (arith, get-modify dec k k f m)
