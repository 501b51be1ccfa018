-- ===== src/RfLayer/Tracker/Kept.antt =====
-- Which shadows the pool still knows after a sequence of calls.
use Prim.Native.String.{String}
use ground_core.Common.Tests.{
  ℕ, ◌+◌, Bool, List, [], ◌∷◌, ◌++◌, Option, none, some, ◌≡◌, refl, ap₂, subst, arith,
  String_discrete, Option-cases, inl, inr,
}
use ground_core.Common.Ends.{pop, split_last, count-split_last, split_last-append}
use ground_core.Common.Lists.{count, weight, All, Distinct}
use ground_core.Common.Maps.{
  Map, get, insert, remove, keys, values, insert-Distinct, remove-Distinct, get-insert_self,
}
use ground_core.RfLayer.Sdr.{SdrHandle}
use ground_core.RfLayer.Tracker.{ShadowTracker, add_shadow, allocate_shadow, release_shadow}

pub data Call : Type 0 where
  adds : SdrHandle → Call
  allocates releases : String → Call

unfoldable pub step : Call → ShadowTracker → ShadowTracker
step (adds shadow) t = add_shadow shadow t
step (allocates pass_id) t = (allocate_shadow pass_id t).1
step (releases pass_id) t = release_shadow pass_id t

unfoldable pub run : List Call → ShadowTracker → ShadowTracker
run [] t = t
run (c ∷ cs) t = run cs (step c t)

-- The shadows that the calls add.
abbrev pub added : List Call → List SdrHandle
added [] = []
added (adds shadow ∷ cs) = shadow ∷ added cs
added (allocates pass_id ∷ cs) = added cs
added (releases pass_id ∷ cs) = added cs

abbrev pub one_of {ℓ} : {A : Type ℓ} → Option A → List A
one_of none = []
one_of (some x) = x ∷ []

-- The shadow that an allocation overwrites: that of a pass which has one already, if another one
-- is available.
unfoldable pub overwritten : Call → ShadowTracker → List SdrHandle
overwritten (adds shadow) t = []
overwritten (allocates pass_id) t = elim (pop t.available_shadows) [
  | none ↦ []
  | some shadow ↦ one_of (get String_discrete pass_id t.allocated_shadows)
]
overwritten (releases pass_id) t = []

unfoldable pub all_overwritten : List Call → ShadowTracker → List SdrHandle
all_overwritten [] t = []
all_overwritten (c ∷ cs) t = overwritten c t ++ all_overwritten cs (step c t)

module _ (f : SdrHandle → Bool) where
  count-append : (xs ys : List SdrHandle) → count f (xs ++ ys) ≡ count f xs + count f ys
  count-append [] ys = omega arith
  count-append (x ∷ xs) ys = ground (arith, count-append xs ys)

  -- How many of the shadows that the pool knows pass the test.
  abbrev pub known : ShadowTracker → ℕ
  known t = count f t.available_shadows + count f (values t.allocated_shadows)

  count-values-insert :
      (k : String) (x : SdrHandle) (m : Map String SdrHandle)
      → count f (values (insert String_discrete k x m)) + count f (one_of (get String_discrete k m))
        ≡ count f (values m) + weight (f x)
  unfolding insert get
  count-values-insert k x [] = ground arith
  count-values-insert k x ((j, y) ∷ m) = ground (arith, count-values-insert k x m)

  remove_absent :
      (k : String) (m : Map String SdrHandle)
      → All (λ j. ¬ (k ≡ j)) (keys m)
      → remove String_discrete k m ≡ m
  unfolding remove
  remove_absent k [] h = refl
  remove_absent k ((j, y) ∷ m) h = ground (arith, remove_absent k m h.1)

  count-values-remove :
      (k : String) (m : Map String SdrHandle)
      → Distinct (keys m)
      → count f (values (remove String_discrete k m)) + count f (one_of (get String_discrete k m))
        ≡ count f (values m)
  unfolding remove get
  count-values-remove k [] d = omega arith
  count-values-remove k ((j, y) ∷ m) d = elim (String_discrete j k) [
    | yes e ↦ ground (arith, remove_absent k m (subst (λ i. All (λ l. ¬ (i ≡ l)) (keys m)) e d.0))
    | no n ↦ ground (arith, count-values-remove k m d.1)
  ]

  known-allocate_shadow :
      (pass_id : String) (free : List SdrHandle) (m : Map String SdrHandle)
      → let t : ShadowTracker = record { available_shadows = free; allocated_shadows = m } in
        known (allocate_shadow pass_id t).1 + count f (overwritten (allocates pass_id) t) ≡ known t
  unfolding overwritten allocate_shadow
  known-allocate_shadow pass_id [] m = omega arith
  known-allocate_shadow pass_id (x ∷ xs) m =
      omega (arith, count-values-insert pass_id (split_last x xs).0 m, count-split_last f x xs)

  known-release_shadow :
      (pass_id : String) (t : ShadowTracker)
      → Distinct (keys t.allocated_shadows)
      → known (release_shadow pass_id t) ≡ known t
  unfolding release_shadow
  known-release_shadow pass_id t d =
      let back = count-values-remove pass_id t.allocated_shadows d in
      elim (Option-cases (get String_discrete pass_id t.allocated_shadows)) [
        | inl n ↦ rw (n, release_shadow) refl
        | inr (x, e) ↦
            rw (e, release_shadow)
              (ground (arith, count-append t.available_shadows (x ∷ []), back, e))
      ]

  known-step :
      (c : Call) (t : ShadowTracker)
      → Distinct (keys t.allocated_shadows)
      → known (step c t) + count f (overwritten c t) ≡ known t + count f (added (c ∷ []))
  unfolding step overwritten add_shadow
  known-step (adds shadow) t d = ground (arith, count-append t.available_shadows (shadow ∷ []))
  known-step (allocates pass_id) t d =
      omega (arith, known-allocate_shadow pass_id t.available_shadows t.allocated_shadows)
  known-step (releases pass_id) t d = omega (arith, known-release_shadow pass_id t d)

count-added :
    (f : SdrHandle → Bool) (c : Call) (cs : List Call)
    → count f (added (c ∷ cs)) ≡ count f (added (c ∷ [])) + count f (added cs)
count-added f (adds shadow) cs = ground arith
count-added f (allocates pass_id) cs = omega arith
count-added f (releases pass_id) cs = omega arith

step-Distinct :
    (c : Call) (t : ShadowTracker)
    → Distinct (keys t.allocated_shadows)
    → Distinct (keys (step c t).allocated_shadows)
unfolding step add_shadow allocate_shadow release_shadow
step-Distinct (adds shadow) t d = d
step-Distinct (allocates pass_id) t d = elim (Option-cases (pop t.available_shadows)) [
  | inl n ↦ rw (n, step, allocate_shadow) d
  | inr ((x, rest), e) ↦
      rw (e, step, allocate_shadow)
        (insert-Distinct String_discrete pass_id x t.allocated_shadows d)
]
step-Distinct (releases pass_id) t d =
    elim (Option-cases (get String_discrete pass_id t.allocated_shadows)) [
      | inl n ↦ rw (n, step, release_shadow) d
      | inr (x, e) ↦
          rw (e, step, release_shadow)
            (remove-Distinct String_discrete pass_id t.allocated_shadows d)
    ]

-- After any sequence of calls from a pool whose map has distinct keys, and for any set of shadows:
-- those of them that are available or allocated, together with those that an allocation has
-- overwritten, are as many as those that were there at the start or have been added. So a shadow
-- gets lost exactly when a pass that has one is given another.
pub known-run :
    (f : SdrHandle → Bool) (cs : List Call) (t : ShadowTracker)
    → Distinct (keys t.allocated_shadows)
    → known f (run cs t) + count f (all_overwritten cs t) ≡ known f t + count f (added cs)
unfolding run all_overwritten
known-run f [] t d = omega arith
known-run f (c ∷ cs) t d = omega (
  arith,
  known-run f cs (step c t) (step-Distinct c t d),
  known-step f c t d,
  count-append f (overwritten c t) (all_overwritten cs (step c t)),
  count-added f c cs,
)

remove-insert :
    (k : String) (x : SdrHandle) (m : Map String SdrHandle)
    → get String_discrete k m ≡ none
    → remove String_discrete k (insert String_discrete k x m) ≡ m
unfolding remove insert get
remove-insert k x [] h = ground arith
remove-insert k x ((j, y) ∷ m) h = ground (arith, remove-insert k x m)

-- Releasing a pass to which a shadow has just been allocated, and which had none before, gives
-- back the pool as it was, also where no shadow was available.
release_shadow-allocate_shadow :
    (pass_id : String) (t : ShadowTracker)
    → get String_discrete pass_id t.allocated_shadows ≡ none
    → release_shadow pass_id (allocate_shadow pass_id t).1 ≡ t
unfolding allocate_shadow release_shadow
release_shadow-allocate_shadow pass_id t h = undone t.available_shadows t.allocated_shadows h
  where
    undone :
        (free : List SdrHandle) (m : Map String SdrHandle)
        → get String_discrete pass_id m ≡ none
        → release_shadow pass_id
            (allocate_shadow pass_id (record { available_shadows = free; allocated_shadows = m })).1
          ≡ record { available_shadows = free; allocated_shadows = m }
    undone [] m h = rw (h, release_shadow) refl
    undone (x ∷ xs) m h =
        let y = (split_last x xs).0 in
        rw (get-insert_self String_discrete pass_id y m, release_shadow)
          (ap₂ (λ free m'. record { available_shadows = free; allocated_shadows = m' })
            (split_last-append x xs) (remove-insert pass_id y m h))
