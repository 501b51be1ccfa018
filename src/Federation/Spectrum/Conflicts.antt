-- ===== src/Federation/Spectrum/Conflicts.antt =====
-- The pairs of passes in conflict, whatever the readings of the clock.
use Prim.Native.String.{String}
use mathlib.Core.List.{append-nil, append_assoc}
use ground_core.Common.Tests.{
  ℕ, List, [], ◌∷◌, ◌++◌, ◌≡◌, refl, sym, ap, ◌∙◌, map, if◌then◌else◌, Bool-cases, inl, inr,
}
use ground_core.Common.Lists.{length}
use ground_core.Federation.Floats.{Floats}
use ground_core.Federation.Spectrum.{
  PassScheduleEntry, SpectrumConflict, in_conflict, conflict_of, detect_row, detect,
  detect_conflicts,
}

module _ (fl : Floats) where
  abbrev pub Entry : Type 0
  Entry = PassScheduleEntry fl

  -- The pairs of an entry of ours with entries of theirs that are in conflict.
  abbrev pub crossing_row : Entry → List Entry → List (Entry × Entry)
  crossing_row ours [] = []
  crossing_row ours (theirs ∷ entries) =
      let rest = crossing_row ours entries in
      if in_conflict fl ours theirs then (ours, theirs) ∷ rest else rest

  abbrev pub crossing : List Entry → List Entry → List (Entry × Entry)
  crossing [] entries = []
  crossing (ours ∷ our_entries) entries = crossing_row ours entries ++ crossing our_entries entries

  abbrev pub pair_of : SpectrumConflict fl → Entry × Entry
  pair_of c = (c.our_entry, c.peer_entry)

  pub map-append :
      (xs ys : List (SpectrumConflict fl))
      → map pair_of (xs ++ ys) ≡ map pair_of xs ++ map pair_of ys
  map-append [] ys = refl
  map-append (x ∷ xs) ys = ap (λ l. pair_of x ∷ l) (map-append xs ys)

  module _ (clock : ℕ → ℕ) (peer_id : String) where
    pairs-detect_row :
        (ours : Entry) (entries : List Entry) (found : List (SpectrumConflict fl))
        → map pair_of (detect_row fl clock peer_id ours entries found)
          ≡ map pair_of found ++ crossing_row ours entries
    unfolding detect_row conflict_of
    pairs-detect_row ours [] found = sym (append-nil (map pair_of found))
    pairs-detect_row ours (theirs ∷ entries) found =
        elim (Bool-cases (in_conflict fl ours theirs)) [
          | inl y ↦
              let c = conflict_of fl (clock (length found)) peer_id ours theirs in
              rw (y, detect_row, crossing_row)
                (pairs-detect_row ours entries (found ++ (c ∷ []))
                  ∙ ap (λ l. l ++ crossing_row ours entries) (map-append found (c ∷ []))
                  ∙ append_assoc (map pair_of found) ((ours, theirs) ∷ [])
                      (crossing_row ours entries))
          | inr y ↦ rw (y, detect_row, crossing_row) (pairs-detect_row ours entries found)
        ]

    pairs-detect :
        (our_entries entries : List Entry) (found : List (SpectrumConflict fl))
        → map pair_of (detect fl clock peer_id our_entries entries found)
          ≡ map pair_of found ++ crossing our_entries entries
    unfolding detect
    pairs-detect [] entries found = sym (append-nil (map pair_of found))
    pairs-detect (ours ∷ our_entries) entries found =
        pairs-detect our_entries entries (detect_row fl clock peer_id ours entries found)
        ∙ ap (λ l. l ++ crossing our_entries entries) (pairs-detect_row ours entries found)
        ∙ append_assoc (map pair_of found) (crossing_row ours entries)
            (crossing our_entries entries)

    pub pairs-detect_conflicts :
        (our_entries entries : List Entry)
        → map pair_of (detect_conflicts fl clock peer_id our_entries entries)
          ≡ crossing our_entries entries
    unfolding detect_conflicts
    pairs-detect_conflicts our_entries entries = pairs-detect our_entries entries []
