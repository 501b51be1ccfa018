-- ===== src/Uplink/Tests.antt =====
-- The uplink crate's theorems at concrete inputs, over a last-in first-out list in the place of the
-- priority queue and whole numbers in the place of floating-point ones.
use Prim.Native.String.{String}
use ground_core.Common.Tests.{
  ℕ, zero, suc, ◌+◌, ◌*◌, ltb, leb, ◌≢◌, Bool, true, false, List, [], ◌∷◌, Option, none, some, ◌≡◌,
  refl, ℕ_discrete,
}
use ground_core.Common.Lists.{Distinct, contains}
use ground_core.Common.Result.{ok}
use ground_core.Common.Int.{ℤ, pos, pos_part}
use ground_core.Common.Maps.{get, insert, modify, keys, values}
use ground_core.Uplink.Command.{
  Command, CommandState-discrete, immediate, normal, awaiting_ack, transmitting,
}
use ground_core.Uplink.Queue.{
  PriorityQueue, QueuedCommand, RwLock, CommandQueue, blocked, dequeue, new_queued, is_in, stats,
}
use ground_core.Uplink.Queue
use ground_core.Uplink.Queue.Dequeue.{dequeue_lem}
use ground_core.Uplink.Confirmation.{
  ConfirmationEntry, ConfirmationTracker, check_timeouts, checker_round, get_entry, track, retry,
}
use ground_core.Uplink.Confirmation
use ground_core.Uplink.Confirmation.Timeouts.{
  check_timeouts_lem, checker_rounds, checker_rounds_settled,
}
use ground_core.Uplink.Confirmation.Histories as TrackHistories
use ground_core.Uplink.Confirmation.Histories.{tracks, checks, retries}
use ground_core.Uplink.Scheduler.{
  Floats, TransmissionWindow, TransmissionScheduler, fcfs, priority, schedule, planned, find_window,
}
use ground_core.Uplink.Scheduler
use ground_core.Uplink.Scheduler.Overlap.{AllApart}
use ground_core.Uplink.Scheduler.Histories as ScheduleHistories
use ground_core.Uplink.Scheduler.Histories.{adds_window, schedules, run-AllApart, schedule_priority}

abbrev reboot : Command
reboot = record {
  id = 4;
  satellite_id = "sat-1";
  payload = 1 ∷ 2 ∷ [];
  command_type = immediate;
  priority = normal;
  auth_token = 9 ∷ [];
  created_at = 5;
  version = 1;
  required_capabilities = "boot" ∷ [];
}

abbrev Stack : Type 0
Stack = List (ℕ × QueuedCommand)

abbrev pop_stack : Stack → Option ((ℕ × QueuedCommand) × Stack)
pop_stack [] = none
pop_stack (x ∷ xs) = some (x, xs)

stack_push_back :
    (q q' : Stack) (id : ℕ) (c : QueuedCommand)
    → pop_stack q ≡ some ((id, c), q')
    → (q'' : Stack) × (pop_stack ((id, c) ∷ q') ≡ some ((id, c), q''))
stack_push_back q q' id c e = (q', refl)

abbrev stack : PriorityQueue
stack = record {
  Queue = Stack;
  empty = [];
  push = λ id c q. (id, c) ∷ q;
  pop = pop_stack;
  pop-empty = refl;
  pop-push_back = stack_push_back;
}

abbrev free_only : ℕ → Bool
free_only zero = true
free_only (suc n) = false

abbrev lock : RwLock
lock = record { grants_write = free_only; waits_for_readers = λ n. refl; grants_if_free = refl }

abbrev waiting : CommandQueue stack
waiting = (Queue.enqueue stack 6 reboot (Queue.new stack)).1

dequeue_lem_example : dequeue stack lock 8 waiting ≡ blocked
unfolding Queue.enqueue Queue.new Queue.is_ready get
dequeue_lem_example = (dequeue_lem stack lock 7 waiting).1 4 (new_queued 6 reboot) [] refl

abbrev fresh_tracker : ConfirmationTracker
fresh_tracker = Confirmation.new (pos 10)

-- The command of above, transmitted at time 100 with a timeout of 10.
abbrev tracked : ConfirmationTracker
tracked = track reboot 77 100 101 fresh_tracker

tracked_keys : Distinct (keys tracked.entries)
unfolding track Confirmation.new insert
tracked_keys = (tt, tt)

check_timeouts_lem_example : contains ℕ_discrete (check_timeouts 111 tracked).0 4 ≡ true
unfolding track Confirmation.new insert get get_entry CommandState-discrete ℕ_discrete
check_timeouts_lem_example = (check_timeouts_lem 111 tracked tracked_keys).1 4

abbrev retried_entry : ConfirmationEntry
retried_entry = record {
  command_id = 4;
  transmission_id = 77;
  state = transmitting;
  retry_count = 1;
  max_retries = 3;
  transmitted_at = 120;
  timeout_after = pos 10;
  last_update = 121;
}

abbrev retry_clock : ℕ → ℕ × ℕ
retry_clock _ = (120, 121)

abbrev sent_entry : ConfirmationEntry
sent_entry = record retried_entry {
  state = awaiting_ack;
  retry_count = 0;
  transmitted_at = 100;
  last_update = 101;
}

checker_rounds_settled_example :
    get_entry 4 (
      checker_rounds
        ((900, retry_clock) ∷ (500, retry_clock) ∷ [])
        (checker_round 111 retry_clock tracked))
    ≡ some retried_entry
unfolding track Confirmation.new insert get get_entry CommandState-discrete ℕ_discrete
checker_rounds_settled_example =
    (checker_rounds_settled ((900, retry_clock) ∷ (500, retry_clock) ∷ []) tracked 4
        {e = sent_entry} tracked_keys refl).1
      111 retry_clock refl refl

abbrev tracking_calls : List TrackHistories.Call
tracking_calls = retries 4 120 121 ∷ checks 111 ∷ tracks reboot 77 100 101 ∷ []

retried_on_record :
    get_entry 4 (TrackHistories.run tracking_calls fresh_tracker) ≡ some retried_entry
unfolding TrackHistories.run TrackHistories.step track check_timeouts retry Confirmation.retry_entry
    Confirmation.check_entries Confirmation.new insert modify get get_entry Confirmation.is_overdue
    CommandState-discrete ℕ_discrete
retried_on_record = refl

abbrev whole : Floats
whole = record { Float = ℕ; zero_float = 0; estimate_ns = λ n r. pos (n * r) }

-- Each byte takes 20.
abbrev pass_window : TransmissionWindow whole
pass_window = record { pass_id = "p1"; start = 100; stop = 900; max_rate = 20; power_budget = 5 }

abbrev steady : String → ℕ
steady _ = 200

abbrev urgent : Command
urgent = record reboot { id = 5 }

abbrev planned_calls : List (ScheduleHistories.Call whole)
planned_calls =
    schedules 210 steady urgent ∷ schedules 200 steady reboot ∷ adds_window pass_window ∷ []

abbrev opened_up : TransmissionScheduler whole
opened_up = ScheduleHistories.run whole (adds_window pass_window ∷ []) (Scheduler.new whole fcfs)

first_planned :
    (schedule whole 200 steady reboot opened_up).0 ≡ ok (planned whole 200 reboot pass_window)
unfolding schedule find_window Scheduler.is_suitable planned Scheduler.has_conflict
    ScheduleHistories.run ScheduleHistories.step Scheduler.new Scheduler.add_window insert
first_planned = refl

run-AllApart_example :
    AllApart whole
      (values (ScheduleHistories.run whole planned_calls (Scheduler.new whole fcfs)).scheduled)
run-AllApart_example = run-AllApart whole fcfs planned_calls (λ e. cc)

-- The first transmission lasts from 200 to 240.
abbrev first_only : List (ScheduleHistories.Call whole)
first_only = schedules 200 steady reboot ∷ adds_window pass_window ∷ []

abbrev first_state : TransmissionScheduler whole
first_state = ScheduleHistories.run whole first_only (Scheduler.new whole priority)

urgent_fresh :
    (Scheduler.get_scheduled whole 5 first_state ≡ none)
    × (find_window whole 210 steady (values first_state.windows) ≡ some pass_window)
unfolding Scheduler.get_scheduled schedule find_window Scheduler.is_suitable planned
    Scheduler.has_conflict ScheduleHistories.run ScheduleHistories.step Scheduler.new
    Scheduler.add_window insert get ℕ_discrete
urgent_fresh = (refl, refl)

-- Times go up to 10000, and a rate of 0 gives no duration.
abbrev fits : ℕ → ℤ → Bool
fits time d = leb (time + pos_part d) 10000

abbrev is_duration : ℕ → ℕ → Bool
is_duration n rate = ltb 0 rate

urgent_calm : Scheduler.panics whole fits is_duration 210 steady urgent first_state ≡ false
unfolding Scheduler.panics Scheduler.overflows Scheduler.starts_before_end_of schedule find_window
    Scheduler.is_suitable planned Scheduler.has_conflict ScheduleHistories.run
    ScheduleHistories.step Scheduler.new Scheduler.add_window insert
urgent_calm = refl

schedule_priority_example :
    (s' : TransmissionScheduler whole) × (Scheduler.call_schedule whole fits is_duration 210 steady
        urgent first_state
      ≡ some (ok (planned whole 210 urgent pass_window), s'))
    × (Scheduler.get_scheduled whole 5 s' ≡ some (planned whole 210 urgent pass_window))
    × ((id : ℕ)
        → id ≢ 5
        → Scheduler.get_scheduled whole id s' ≡ Scheduler.get_scheduled whole id first_state)
schedule_priority_example =
    schedule_priority whole fits is_duration first_only 210 steady urgent {w = pass_window}
      urgent_fresh.0 urgent_fresh.1 urgent_calm
