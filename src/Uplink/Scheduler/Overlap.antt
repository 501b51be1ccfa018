-- ===== src/Uplink/Scheduler/Overlap.antt =====
-- Overlapping transmissions, and what one call of `schedule` does.
use Prim.Native.String.{String}
use ground_core.Common.Tests.{
  ℕ, ◌≤◌, ◌<◌, true, false, List, [], ◌∷◌, some, ◌≡◌, ◌⊎◌, inl, inr, refl, arith, ℕ_discrete,
  Bool-cases, Option-cases, ap, ◌∙◌, subst,
}
use ground_core.Common.Lists.{any, All}
use ground_core.Common.Result.{ok, err, Result-cases}
use ground_core.Common.Maps.{Map, insert, remove, values, insert-All, remove-All}
use ground_core.Uplink.Command.{Command}
use ground_core.Uplink.Scheduler.{
  Floats, ScheduleError, no_window, TransmissionWindow, ScheduledTransmission,
  TransmissionScheduler, schedule, find_window, is_suitable, planned, overlaps, has_conflict,
  resolve, contains_time, time_until_start,
}

module _ (F : Floats) where
  abbrev pub Apart : ScheduledTransmission F → ScheduledTransmission F → Type 0
  Apart a b = overlaps F a b ≡ false

  -- No two transmissions of a list overlap.
  abbrev pub AllApart : List (ScheduledTransmission F) → Type 0
  AllApart [] = Unit {0}
  AllApart (t ∷ ts) = All (Apart t) ts × AllApart ts

  overlaps_comm : (a b : ScheduledTransmission F) → overlaps F a b ≡ overlaps F b a
  unfolding overlaps
  overlaps_comm a b = ground arith

  pub any-false :
      (t : ScheduledTransmission F) (ts : List (ScheduledTransmission F))
      → any (λ existing. overlaps F t existing) ts ≡ false
      → All (Apart t) ts
  any-false t [] h = tt
  any-false t (x ∷ ts) h = (ground arith, any-false t ts (ground arith))

  pub insert-AllApart :
      (k : ℕ) (t : ScheduledTransmission F) (m : Map ℕ (ScheduledTransmission F))
      → All (Apart t) (values m)
      → AllApart (values m)
      → AllApart (values (insert ℕ_discrete k t m))
  unfolding insert
  insert-AllApart k t [] a d = (tt, tt)
  insert-AllApart k t ((j, x) ∷ m) a d = ground (
    arith,
    insert-AllApart k t m a.1 d.1,
    insert-All ℕ_discrete (Apart x) k t m (overlaps_comm x t ∙ a.0) d.0,
  )

  pub remove-AllApart :
      (k : ℕ) (m : Map ℕ (ScheduledTransmission F))
      → AllApart (values m)
      → AllApart (values (remove ℕ_discrete k m))
  unfolding remove
  remove-AllApart k [] d = tt
  remove-AllApart k ((j, x) ∷ m) d =
      ground (arith, remove-AllApart k m d.1, remove-All ℕ_discrete (Apart x) k m d.0)

  find_window_suitable :
      (now : ℕ) (clock : String → ℕ) (ws : List (TransmissionWindow F)) (w : TransmissionWindow F)
      → find_window F now clock ws ≡ some w
      → is_suitable F now clock w ≡ true
  unfolding find_window
  find_window_suitable now clock [] w h = cc
  find_window_suitable now clock (x ∷ ws) w h = elim (Bool-cases (is_suitable F now clock x)) [
    | inl y ↦
        let same : x ≡ w = ground arith in subst (λ v. is_suitable F now clock v ≡ true) same y
    | inr n ↦ find_window_suitable now clock ws w (ground arith)
  ]

  -- The scheduler with a transmission stored for a command.
  abbrev pub stored :
      Command → ScheduledTransmission F → TransmissionScheduler F → TransmissionScheduler F
  stored command t s = record s { scheduled = insert ℕ_discrete command.id t s.scheduled }

  module _ (now : ℕ) (clock : String → ℕ) (command : Command) (s : TransmissionScheduler F) where
    -- When a planned transmission starts.
    abbrev IsPlanned : ScheduledTransmission F → Type 0
    IsPlanned t =
        (t.command_id ≡ command.id)
        × (t.window.start ≤ t.transmission_time)
        × (((t.transmission_time ≡ now) × (now ≤ t.window.stop))
            ⊎ ((t.transmission_time ≡ t.window.start) × (clock t.window.pass_id < t.window.start)))

    planned_lem :
        (w : TransmissionWindow F)
        → is_suitable F now clock w ≡ true
        → IsPlanned (planned F now command w)
    unfolding planned is_suitable contains_time time_until_start
    planned_lem w h = ground arith

    -- A call of `schedule`, by what it finds.
    pub schedule-cases :
        ((e : ScheduleError) × (schedule F now clock command s ≡ (err e, s)))
        ⊎ ((w : TransmissionWindow F) × (find_window F now clock (values s.windows) ≡ some w)
            × (schedule F now clock command s
                ≡ (ok (planned F now command w), stored command (planned F now command w) s))
            × ((has_conflict F (planned F now command w) s ≡ false)
                ⊎ (resolve F s.conflict_strategy command s ≡ ok tt)))
    unfolding schedule
    schedule-cases = elim (Option-cases (find_window F now clock (values s.windows))) [
      | inl e ↦ inl (no_window, rw (e, schedule))
      | inr (w, e) ↦ elim (Bool-cases (has_conflict F (planned F now command w) s)) [
        | inr n ↦ inr (w, e, rw (e, schedule, n), inl n)
        | inl y ↦ elim (Result-cases (resolve F s.conflict_strategy command s)) [
          | inl (tt, r) ↦ inr (w, e, rw (e, schedule, y, r), inr r)
          | inr (x, r) ↦ inl (x, rw (e, schedule, y, r))
        ]
      ]
    ]

    -- A successful `schedule` stores what it returns under the command's identifier and changes
    -- nothing else. The transmission is the command's, starts no earlier than its window, and
    -- starts at the current time if that lies in the window, otherwise with the window, whose start
    -- lay ahead when it was looked at. A failing call changes nothing.
    schedule_lem :
        ((t : ScheduledTransmission F)
          → (schedule F now clock command s).0 ≡ ok t
          → ((schedule F now clock command s).1 ≡ stored command t s)
            × (t.command_id ≡ command.id)
            × (t.window.start ≤ t.transmission_time)
            × (((t.transmission_time ≡ now) × (now ≤ t.window.stop))
                ⊎ ((t.transmission_time ≡ t.window.start)
                    × (clock t.window.pass_id < t.window.start))))
        × ((e : ScheduleError)
            → (schedule F now clock command s).0 ≡ err e
            → (schedule F now clock command s).1 ≡ s)
    schedule_lem = elim schedule-cases [
      | inl (x, e) ↦ rw e ((λ t h. cc), λ x' h. refl)
      | inr (w, found, e, _) ↦ rw e (
        (λ t h.
            let same : planned F now command w ≡ t = cc in
            let (id, late, start) =
              subst IsPlanned same
                (planned_lem w (find_window_suitable now clock (values s.windows) w found)) in
            (ap (λ x. stored command x s) same, id, late, start)),
        λ x' h. cc,
      )
    ]
