-- ===== src/Uplink/Scheduler/Histories.antt =====
-- The histories of a scheduler: which transmissions it can hold at once, by its strategy.
use Prim.Native.String.{String}
use ground_core.Common.Tests.{
  ℕ, Bool, false, List, [], ◌∷◌, none, some, ◌≡◌, ◌≢◌, inl, inr, refl, arith, ℕ_discrete,
  Bool-cases, sym, ap, subst,
}
use ground_core.Common.Int.{ℤ}
use ground_core.Common.Lists.{any}
use ground_core.Common.Result.{ok}
use ground_core.Common.Maps.{get-insert, values}
use ground_core.Uplink.Command.{Command}
use ground_core.Uplink.Scheduler.{
  Floats, ConflictStrategy, priority, fcfs, reject, TransmissionWindow, ScheduledTransmission,
  TransmissionScheduler, new, add_window, remove_window, schedule, remove_scheduled, find_window,
  planned, has_conflict, resolve, can_override, get_scheduled, find_command, blocks, panics,
  call_schedule,
}
use ground_core.Uplink.Scheduler.Overlap.{
  AllApart, any-false, insert-AllApart, remove-AllApart, schedule-cases, stored,
}

module _ (F : Floats) where
  -- The calls that change the scheduler.
  pub data Call : Type 0 where
    adds_window : TransmissionWindow F → Call
    removes_window : String → Call
    schedules : ℕ → (String → ℕ) → Command → Call
    removes_scheduled : ℕ → Call

  unfoldable pub step : Call → TransmissionScheduler F → TransmissionScheduler F
  step (adds_window w) s = add_window F w s
  step (removes_window pass_id) s = remove_window F pass_id s
  step (schedules now clock command) s = (schedule F now clock command s).1
  step (removes_scheduled id) s = remove_scheduled F id s

  -- The latest call at the head.
  unfoldable pub run : List Call → TransmissionScheduler F → TransmissionScheduler F
  run [] s = s
  run (c ∷ cs) s = step c (run cs s)

  -- What every history keeps.
  record Inv (strategy : ConflictStrategy) (s : TransmissionScheduler F) : Type 0 where
    same_strategy : s.conflict_strategy ≡ strategy
    none_pending : s.pending ≡ []
    apart : strategy ≢ priority → AllApart F (values s.scheduled)

  resolve_refuses :
      (strategy : ConflictStrategy) (command : Command) (s : TransmissionScheduler F)
      → strategy ≢ priority
      → resolve F strategy command s ≢ ok tt
  unfolding resolve
  resolve_refuses priority command s n = absurd (n refl)
  resolve_refuses fcfs command s n = λ h. cc
  resolve_refuses reject command s n = λ h. cc

  schedule-Inv :
      (strategy : ConflictStrategy) (now : ℕ) (clock : String → ℕ) (command : Command)
      (s : TransmissionScheduler F)
      → Inv strategy s
      → Inv strategy (schedule F now clock command s).1
  unfolding has_conflict
  schedule-Inv strategy now clock command s v = elim (schedule-cases F now clock command s) [
    | inl (x, e) ↦ rw e v
    | inr (w, _, e, why) ↦ rw e (record {
      same_strategy = v.same_strategy;
      none_pending = v.none_pending;
      apart = λ n. elim why [
        | inl free ↦
            insert-AllApart F command.id (planned F now command w) s.scheduled
              (any-false F (planned F now command w) (values s.scheduled) free) (v.apart n)
        | inr r ↦ absurd (
            resolve_refuses strategy command s n
              (subst (λ x. resolve F x command s ≡ ok tt) v.same_strategy r))
      ];
    })
  ]

  run-Inv : (strategy : ConflictStrategy) (cs : List Call) → Inv strategy (run cs (new F strategy))
  unfolding run step new add_window remove_window remove_scheduled
  run-Inv strategy [] = record { same_strategy = refl; none_pending = refl; apart = λ n. tt }
  run-Inv strategy (adds_window w ∷ cs) =
      let v = run-Inv strategy cs in
      record { same_strategy = v.same_strategy; none_pending = v.none_pending; apart = v.apart }
  run-Inv strategy (removes_window pass_id ∷ cs) =
      let v = run-Inv strategy cs in
      record { same_strategy = v.same_strategy; none_pending = v.none_pending; apart = v.apart }
  run-Inv strategy (schedules now clock command ∷ cs) =
      schedule-Inv strategy now clock command (run cs (new F strategy)) (run-Inv strategy cs)
  run-Inv strategy (removes_scheduled id ∷ cs) =
      let v = run-Inv strategy cs in
      record {
        same_strategy = v.same_strategy;
        none_pending = v.none_pending;
        apart = λ n. remove-AllApart F id (run cs (new F strategy)).scheduled (v.apart n);
      }

  -- In every history of a scheduler that refuses conflicts, by `Fcfs` or by `Reject`, no two
  -- transmissions that it holds overlap in time.
  pub run-AllApart :
      (strategy : ConflictStrategy) (cs : List Call)
      → strategy ≢ priority
      → AllApart F (values (run cs (new F strategy)).scheduled)
  run-AllApart strategy cs n = (run-Inv strategy cs).apart n

  nothing_blocks :
      (command : Command) (pending : List Command) (ts : List (ScheduledTransmission F))
      → pending ≡ []
      → any (λ existing. blocks F command (find_command F existing.command_id pending)) ts ≡ false
  unfolding find_command
  nothing_blocks command pending [] e = refl
  nothing_blocks command pending (t ∷ ts) e =
      rw e (ground (arith, nothing_blocks command pending ts e))

  resolve_accepts :
      (command : Command) (s : TransmissionScheduler F)
      → s.pending ≡ []
      → get_scheduled F command.id s ≡ none
      → resolve F priority command s ≡ ok tt
  unfolding resolve can_override get_scheduled
  resolve_accepts command s e fresh =
      let free = nothing_blocks command s.pending (values s.scheduled) e in ground arith

  schedule_stores :
      (now : ℕ) (clock : String → ℕ) (command : Command) (s : TransmissionScheduler F)
      (w : TransmissionWindow F)
      → find_window F now clock (values s.windows) ≡ some w
      → resolve F s.conflict_strategy command s ≡ ok tt
      → schedule F now clock command s
        ≡ (ok (planned F now command w), stored F command (planned F now command w) s)
  unfolding schedule
  schedule_stores now clock command s w found r =
      elim (Bool-cases (has_conflict F (planned F now command w) s)) [
        | inl y ↦ rw (found, schedule, y, r)
        | inr n ↦ rw (found, schedule, n)
      ]

  module _ (fits : ℕ → ℤ → Bool) (is_duration : ℕ → F.Float → Bool) where
    -- In every history of a scheduler with the strategy `Priority`, made of calls that do not
    -- panic, take a command that is not scheduled yet, and a call of `schedule` for it that finds a
    -- window and does not panic on a time or a duration out of range. Whatever the command's
    -- priority and whatever it overlaps, the call answers with the transmission planned in that
    -- window, that transmission is then scheduled for the command, and every transmission of
    -- another command stays as it was.
    pub schedule_priority :
        (cs : List Call) (now : ℕ) (clock : String → ℕ) (command : Command)
        {w : TransmissionWindow F}
        → let s = run cs (new F priority) in
          get_scheduled F command.id s ≡ none
          → find_window F now clock (values s.windows) ≡ some w
          → panics F fits is_duration now clock command s ≡ false
          → (s' : TransmissionScheduler F) × (call_schedule F fits is_duration now clock command s
              ≡ some (ok (planned F now command w), s'))
            × (get_scheduled F command.id s' ≡ some (planned F now command w))
            × ((id : ℕ) → id ≢ command.id → get_scheduled F id s' ≡ get_scheduled F id s)
    unfolding get_scheduled call_schedule
    schedule_priority cs now clock command {w} fresh found calm =
        let s = run cs (new F priority) in
        let v = run-Inv priority cs in
        let accepts : resolve F s.conflict_strategy command s ≡ ok tt =
          subst (λ x. resolve F x command s ≡ ok tt) (sym v.same_strategy)
            (resolve_accepts command s v.none_pending fresh) in
        let t = planned F now command w in
        (
          stored F command t s,
          rw (calm, call_schedule)
              (ap (λ r. some r) (schedule_stores now clock command s w found accepts)),
          ground (arith, get-insert ℕ_discrete command.id command.id t s.scheduled),
          λ id n. ground (arith, get-insert ℕ_discrete id command.id t s.scheduled),
        )
