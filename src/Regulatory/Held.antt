-- ===== src/Regulatory/Held.antt =====
-- The keys of a holder in the licence store, and what a stored licence says of its end.
use Prim.Native.Char.{code}
use Prim.Native.String.{String}
use Prim.Native.String.append
use text.Mathlib.TextEquality.{Char-path}
use ground_core.Common.Tests.{
  ℕ, ltb, Bool, true, List, [], ◌∷◌, Option, none, some, ◌&&◌, ◌≡◌, ◌↔◌, refl, sym, ap, ◌∙◌, subst,
  arith, Option-cases, Bool-cases, inl, inr, String_discrete, if_pos,
}
use ground_core.Common.Lists.{filter, contains, All, Distinct}
use ground_core.Common.Maps.{Map, get, keys}
use ground_core.Common.Text.{starts_with, spaces_to_t, text_append}
use ground_core.Regulatory.Types.{Floats}
use ground_core.Regulatory.License.{
  Formats, LicenseStore, get_holder_licenses, check_license_validity,
}

starts_with-append : (t rest : String) → starts_with (text_append t rest) t ≡ true
unfolding starts_with
starts_with-append String.[] rest = unfold starts_with in refl
starts_with-append (String.◌∷◌ d t) rest =
    subst (λ s. starts_with s (String.◌∷◌ d t) ≡ true) (sym (append.cons d t rest))
      (ground (arith, starts_with-append t rest))

starts_with-split :
    (s t : String) → starts_with s t ≡ true → (rest : String) × (s ≡ text_append t rest)
unfolding starts_with
starts_with-split s String.[] h = (s, sym (append.nil s))
starts_with-split String.[] (String.◌∷◌ d t) h = absurd cc
starts_with-split (String.◌∷◌ c s) (String.◌∷◌ d t) h =
    let same : code c ≡ code d = ground (arith, h) in
    let later : starts_with s t ≡ true = ground (arith, h) in
    let (rest, e) = starts_with-split s t later in
    (
      rest,
      ap (λ x. String.◌∷◌ x s) (Char-path c d same)
          ∙ ap (λ x. String.◌∷◌ d x) e
          ∙ sym (append.cons d t rest),
    )

-- The text begins with this one.
abbrev pub Extends : String → String → Type 0
Extends t s = (rest : String) × (s ≡ text_append t rest)

starts_with_iff : (s t : String) → (starts_with s t ≡ true) ↔ Extends t s
starts_with_iff s t = (
  λ h. starts_with-split s t h,
  λ h. subst (λ x. starts_with x t ≡ true) (sym h.1) (starts_with-append t h.0),
)

contains-filter :
    (f : String → Bool) (ks : List String) (k : String)
    → contains String_discrete (filter f ks) k ≡ contains String_discrete ks k && f k
contains-filter f [] k = refl
contains-filter f (x ∷ ks) k = elim (String_discrete x k) [
  | yes p ↦ elim (Bool-cases (f x)) [
    | inl y ↦ ground (arith, contains-filter f ks k, ap f p)
    | inr y ↦ ground (arith, contains-filter f ks k, ap f p)
  ]
  | no n ↦ ground (arith, contains-filter f ks k)
]

filter-All :
    (P : String → Type 0) (f : String → Bool) (ks : List String) → All P ks → All P (filter f ks)
filter-All P f [] h = tt
filter-All P f (x ∷ ks) h = elim (Bool-cases (f x)) [
  | inl y ↦ rw y (h.0, filter-All P f ks h.1)
  | inr y ↦ rw y (filter-All P f ks h.1)
]

filter-Distinct : (f : String → Bool) (ks : List String) → Distinct ks → Distinct (filter f ks)
filter-Distinct f [] h = tt
filter-Distinct f (x ∷ ks) h = elim (Bool-cases (f x)) [
  | inl y ↦ rw y (filter-All (λ k. ¬ (x ≡ k)) f ks h.0, filter-Distinct f ks h.1)
  | inr y ↦ rw y (filter-Distinct f ks h.1)
]

module _ {V : Type 0} where
  contains-keys :
      (m : Map String V) (k : String)
      → (contains String_discrete (keys m) k ≡ true)
        ↔ ((v : V) × (get String_discrete k m ≡ some v))
  unfolding get
  contains-keys [] k = (λ h. absurd cc, λ h. absurd (let e = h.1 in cc))
  contains-keys ((j, w) ∷ m) k = elim (String_discrete j k) [
    | yes p ↦ (λ h. (w, rw (if_pos _ p) refl), λ h. rw (if_pos _ p) refl)
    | no n ↦
        let ih = contains-keys m k in
        (
          λ h. let (v, e) = ih.0 (ground (arith, h)) in (v, ground (arith, e)),
          λ h. let e = h.1 in let c = ih.1 (h.0, ground (arith, e)) in ground (arith, c),
        )
  ]

module _ (fl : Floats) (io : Formats fl) where
  -- The store has a licence under this key, which begins with the holder's name and a colon.
  abbrev pub Belongs : String → LicenseStore fl io → String → Type 0
  Belongs holder s k =
      ((v : io.Value) × (get String_discrete k s.licenses ≡ some v))
      × Extends (text_append holder ":") k

  pub get_holder_licenses-Belongs :
      (holder : String) (s : LicenseStore fl io) (k : String)
      → (contains String_discrete (get_holder_licenses fl io holder s) k ≡ true)
        ↔ Belongs holder s k
  unfolding get_holder_licenses
  get_holder_licenses-Belongs holder s k =
      let t = text_append holder ":" in
      let split = contains-filter (λ x. starts_with x t) (keys s.licenses) k in
      let stored = contains-keys s.licenses k in
      let begins = starts_with_iff k t in
      (
        λ h.
            let c : contains String_discrete (keys s.licenses) k ≡ true =
              ground (arith, split, h) in
            let b : starts_with k t ≡ true = ground (arith, split, h) in (stored.0 c, begins.0 b),
        λ h. let c = stored.1 h.0 in let b = begins.1 h.1 in split ∙ rw (c, b) refl,
      )

  pub get_holder_licenses-Distinct :
      (holder : String) (s : LicenseStore fl io)
      → Distinct (keys s.licenses)
      → Distinct (get_holder_licenses fl io holder s)
  unfolding get_holder_licenses
  get_holder_licenses-Distinct holder s h =
      filter-Distinct (λ x. starts_with x (text_append holder ":")) (keys s.licenses) h

  abbrev first_some : Option ℕ → Option ℕ → Option ℕ
  first_some none b = b
  first_some (some n) b = some n

  -- The time that a text stands for, if the parser reads it, as it is or with a `T` for each space.
  abbrev pub time_of : Option String → Option ℕ
  time_of none = none
  time_of (some s) = first_some (io.parse_from_rfc3339 s) (io.parse_from_rfc3339 (spaces_to_t s))

  abbrev pub is_later : ℕ → Option ℕ → Option Bool
  is_later now none = none
  is_later now (some end) = some (ltb now end)

  -- Does the licence end after `now`, by its field `valid_until`? No answer if there is no licence,
  -- or its end cannot be read.
  abbrev pub ends_later : ℕ → Option io.Value → Option Bool
  ends_later now none = none
  ends_later now (some v) = is_later now (time_of (io.str_at "valid_until" v))

  pub check_license_validity_lem :
      (now : ℕ) (key : String) (s : LicenseStore fl io)
      → check_license_validity fl io now key s ≡ ends_later now (get String_discrete key s.licenses)
  unfolding check_license_validity
  check_license_validity_lem now key s = elim (Option-cases (get String_discrete key s.licenses)) [
    | inl e ↦ rw (e, check_license_validity) refl
    | inr (v, e) ↦ elim (Option-cases (io.str_at "valid_until" v)) [
      | inl f ↦ rw (e, check_license_validity, f) refl
      | inr (u, f) ↦ elim (Option-cases (io.parse_from_rfc3339 u)) [
        | inr (end, g) ↦ rw (e, check_license_validity, f, g) refl
        | inl g ↦ elim (Option-cases (io.parse_from_rfc3339 (spaces_to_t u))) [
          | inl g' ↦ rw (e, check_license_validity, f, g, g') refl
          | inr (end, g') ↦ rw (e, check_license_validity, f, g, g') refl
        ]
      ]
    ]
  ]
