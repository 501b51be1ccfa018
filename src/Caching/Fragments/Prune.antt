-- ===== src/Caching/Fragments/Prune.antt =====
-- The pruning loop: its rounds, and what it leaves.
use Prim.Native.String.{String}
use ground_core.Common.Tests.{
  ℕ, min, zero, suc, ◌+◌, ◌≤◌, ◌<◌, false, [], ◌∷◌, some, ◌≡◌, refl, sym, ltb, ◌∙◌, subst,
  String_discrete, Bool-cases, inl, inr, arith, ap,
}
use ground_core.Common.Lists.{length, Distinct, All}
use ground_core.Common.Maps.{
  Map, get, keys, insert, remove, get-insert, get-remove, length-insert, insert-Distinct,
  remove-Distinct,
}
use ground_core.Common.Select.{min_by-cases}
use ground_core.Caching.Fragments.{ScheduleFragment, ScheduleFragmentCache, prune, add_fragment}

-- Each fragment stands under its own hash, once.
pub record Keyed (m : Map String ScheduleFragment) : Type 0 where
  pub under_hash :
      (k : String) (f : ScheduleFragment) → get String_discrete k m ≡ some f → f.hash ≡ k
  pub distinct : Distinct (keys m)

insert-Keyed :
    (f : ScheduleFragment) (m : Map String ScheduleFragment)
    → Keyed m
    → Keyed (insert String_discrete f.hash f m)
insert-Keyed f m v = record {
  under_hash = λ k g e. elim (String_discrete f.hash k) [
    | yes p ↦
        let same : f ≡ g = ground (arith, get-insert String_discrete k f.hash f m) in
        ap (λ x. x.hash) (sym same) ∙ p
    | no n ↦ v.under_hash k g (ground (arith, get-insert String_discrete k f.hash f m))
  ];
  distinct = insert-Distinct String_discrete f.hash f m v.distinct;
}

remove-Keyed :
    (j : String) (m : Map String ScheduleFragment) → Keyed m → Keyed (remove String_discrete j m)
remove-Keyed j m v = record {
  under_hash = λ k g e. v.under_hash k g (ground (arith, get-remove String_discrete k j m));
  distinct = remove-Distinct String_discrete j m v.distinct;
}

module _ (k : String) where
  length-remove_fresh :
      (m : Map String ScheduleFragment)
      → All (λ j. ¬ (k ≡ j)) (keys m)
      → length (remove String_discrete k m) ≡ length m
  unfolding remove
  length-remove_fresh [] h = refl
  length-remove_fresh ((j, f) ∷ m) h = ground (arith, length-remove_fresh m h.1)

  length-remove_one :
      (m : Map String ScheduleFragment) (f : ScheduleFragment)
      → Distinct (keys m)
      → get String_discrete k m ≡ some f
      → length m ≡ suc (length (remove String_discrete k m))
  unfolding remove get
  length-remove_one [] f d e = cc
  length-remove_one ((j, g) ∷ m) f d e = elim (String_discrete j k) [
    | yes p ↦
        ground (arith, length-remove_fresh m (subst (λ x. All (λ i. ¬ (x ≡ i)) (keys m)) p d.0))
    | no n ↦ ground (arith, length-remove_one m f d.1)
  ]

-- Every fragment of the one map stands in the other.
abbrev pub Within : Map String ScheduleFragment → Map String ScheduleFragment → Type 0
Within m' m =
    (k : String) (f : ScheduleFragment)
    → get String_discrete k m' ≡ some f
    → get String_discrete k m ≡ some f

Within-remove :
    (j : String) (m m' : Map String ScheduleFragment)
    → Within m' (remove String_discrete j m)
    → Within m' m
Within-remove j m m' w k f e = ground (arith, get-remove String_discrete k j m, w k f e)

-- With more fuel than fragments the loop ends with `most` of them, or with all.
prune_lem :
    (fuel most : ℕ) (m : Map String ScheduleFragment)
    → Keyed m
    → length m < fuel
    → (m' : Map String ScheduleFragment) × (prune fuel most m ≡ some m')
      × (length m' ≡ min most (length m))
      × Keyed m'
      × Within m' m
unfolding prune
prune_lem zero most m v h = absurd (omega (arith, h))
prune_lem (suc fuel) most m v h =
    elim (min_by-cases String_discrete (λ (f : ScheduleFragment). f.committed_at) m v.distinct) [
      | inl (e, n) ↦
          let none_over : ltb most (length m) ≡ false = rw e (ground arith) in
          (m, rw (n, prune, none_over) refl, ground arith, v, λ k f x. x)
      | inr (k, f, n, g, _) ↦ elim (Bool-cases (ltb most (length m))) [
        | inr y ↦ (m, rw (n, prune, y) refl, ground arith, v, λ k f x. x)
        | inl y ↦
            let at : f.hash ≡ k = v.under_hash k f g in
            let found : get String_discrete f.hash m ≡ some f =
              subst (λ x. get String_discrete x m ≡ some f) (sym at) g in
            let (m', e, l, v', w) =
              prune_lem fuel most (remove String_discrete f.hash m) (remove-Keyed f.hash m v)
                (omega (arith, h, length-remove_one f.hash m f v.distinct found)) in
            (
              m',
              rw (n, prune, y) e,
              ground (arith, l, length-remove_one f.hash m f v.distinct found),
              v',
              Within-remove f.hash m m' w,
            )
      ]
    ]

add_fragment-prune :
    (fuel : ℕ) (f : ScheduleFragment) (c : ScheduleFragmentCache) {m : Map String ScheduleFragment}
    → prune fuel c.max_fragments (insert String_discrete f.hash f c.fragments) ≡ some m
    → add_fragment fuel f c ≡ some (record c { fragments = m })
unfolding add_fragment
add_fragment-prune fuel f c e = rw (e, add_fragment) refl

-- Take a cache whose fragments stand under their own hashes. With fuel for its fragments and two
-- more rounds, `add_fragment` ends; the cache then has the maximal number of fragments, or
-- all of them with the new one if they are fewer, under their own hashes, and each of them is the
-- new one or stood there before.
pub add_fragment_lem :
    (fuel : ℕ) (f : ScheduleFragment) (c : ScheduleFragmentCache)
    → Keyed c.fragments
    → length c.fragments + 2 ≤ fuel
    → (c' : ScheduleFragmentCache) × (add_fragment fuel f c ≡ some c')
      × (length c'.fragments
          ≡ min c.max_fragments (length (insert String_discrete f.hash f c.fragments)))
      × Keyed c'.fragments
      × Within c'.fragments (insert String_discrete f.hash f c.fragments)
add_fragment_lem fuel f c v h =
    let (m', e, l, v', w) =
      prune_lem fuel c.max_fragments (insert String_discrete f.hash f c.fragments)
        (insert-Keyed f c.fragments v)
        (ground (arith, length-insert String_discrete f.hash f c.fragments)) in
    (record c { fragments = m' }, add_fragment-prune fuel f c e, l, v', w)
