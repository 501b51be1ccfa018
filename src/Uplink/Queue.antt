-- ===== src/Uplink/Queue.antt =====
-- uplink/src/queue.rs: the command queue. The priority queue of the `priority_queue` crate and the
-- lock of `tokio` are not in the repository: they are the records of operations and laws below, and
-- the queue is defined over them. A call that waits for a lock for ever is `blocked`, and a loop
-- that is cut off after `fuel` rounds is `unfinished`.
pub mod Dequeue
pub mod Counts
use ground_core.Common.Tests.{
  ℕ, zero, suc, ◌+◌, ◌%◌, Bool, true, false, not, List, [], ◌∷◌, Option, none, some, ite, ◌≡◌,
  if◌then◌else◌, ℕ_discrete, u32_mod,
}
use ground_core.Common.Lists.{length, all, count}
use ground_core.Common.Result.{Result, ok, err}
use ground_core.Common.Maps.{Map, get, insert, modify, values}
use ground_core.Uplink.Command.{
  Command, CommandState, CommandState-discrete, queued, scheduled, transmitting, awaiting_ack,
  acknowledged, failed, timeout, cancelled,
}

pub record QueuedCommand : Type 0 where
  pub command : Command
  pub state : CommandState
  pub queued_at : ℕ
  pub scheduled_at : Option ℕ
  pub retry_count : ℕ  -- u32
  pub max_retries : ℕ  -- u32

unfoldable pub new_queued : ℕ → Command → QueuedCommand
new_queued now command = record {
  command = command;
  state = queued;
  queued_at = now;
  scheduled_at = none;
  retry_count = 0;
  max_retries = 3;
}

-- `PriorityQueue<CommandId, QueuedCommand>`. `pop` takes off the entry of the highest priority; no
-- two commands compare as equal, so an entry that goes straight back in is the highest again.
pub record PriorityQueue : Type 1 where
  pub Queue : Type 0
  pub empty : Queue
  pub push : ℕ → QueuedCommand → Queue → Queue
  pub pop : Queue → Option ((ℕ × QueuedCommand) × Queue)
  pub pop-empty : pop empty ≡ none
  pub pop-push_back :
      (q q' : Queue) (id : ℕ) (c : QueuedCommand)
      → pop q ≡ some ((id, c), q')
      → (q'' : Queue) × (pop (push id c q') ≡ some ((id, c), q''))

-- `RwLock::write().await`, by the number of read guards that are held: does it get the lock, or
-- wait? A guard of the caller's own counts as any other.
pub record RwLock : Type 0 where
  pub grants_write : ℕ → Bool
  pub waits_for_readers : (n : ℕ) → grants_write (suc n) ≡ false
  pub grants_if_free : grants_write 0 ≡ true

pub data Outcome {ℓ} (A : Type ℓ) : Type ℓ where
  returns : A → Outcome A
  blocked unfinished : Outcome A

-- `GroundStationError::NotFound`, of the command named.
pub data QueueError : Type 0 where
  not_found : ℕ → QueueError

pub record QueueStats : Type 0 where
  pub total : ℕ
  pub n_queued : ℕ
  pub n_scheduled : ℕ
  pub n_transmitting : ℕ
  pub n_awaiting : ℕ
  pub n_acknowledged : ℕ
  pub n_failed : ℕ
  pub n_timeout : ℕ

-- `c.state == s`.
abbrev pub is_in : CommandState → QueuedCommand → Bool
is_in s c = ite (CommandState-discrete c.state s) true false

module _ (pq : PriorityQueue) where
  pub record CommandQueue : Type 0 where
    pub queue : pq.Queue
    pub commands : Map ℕ QueuedCommand
    pub dependencies : Map ℕ (List ℕ)

  unfoldable pub new : CommandQueue
  new = record { queue = pq.empty; commands = []; dependencies = [] }

  unfoldable pub enqueue : ℕ → Command → CommandQueue → ℕ × CommandQueue
  enqueue now command s =
      let c = new_queued now command in
      (
        command.id,
        record s {
          queue = pq.push command.id c s.queue;
          commands = insert ℕ_discrete command.id c s.commands;
        },
      )

  unfoldable pub enqueue_with_dependencies : ℕ → Command → List ℕ → CommandQueue → ℕ × CommandQueue
  enqueue_with_dependencies now command depends_on s =
      let c = new_queued now command in
      (
        command.id,
        record s {
          queue = pq.push command.id c s.queue;
          commands = insert ℕ_discrete command.id c s.commands;
          dependencies = insert ℕ_discrete command.id depends_on s.dependencies;
        },
      )

  -- The dependency is on record and acknowledged.
  unfoldable pub is_acknowledged : Map ℕ QueuedCommand → ℕ → Bool
  is_acknowledged commands dep_id = elim (get ℕ_discrete dep_id commands) [
    | none ↦ false
    | some c ↦ is_in acknowledged c
  ]

  unfoldable pub is_ready : CommandQueue → ℕ → Bool
  unfolding is_acknowledged
  is_ready s id = elim (get ℕ_discrete id s.dependencies) [
    | none ↦ true
    | some deps ↦ all (is_acknowledged s.commands) deps
  ]

  -- The loop of `dequeue`, with `readers` read guards held on the commands.
  unfoldable pub dequeue_loop :
      RwLock → ℕ → ℕ → CommandQueue → Outcome (Option Command × CommandQueue)
  dequeue_loop lock readers zero s = unfinished
  dequeue_loop lock readers (suc fuel) s = elim (pq.pop s.queue) [
    | none ↦ returns (none, s)
    | some ((id, c), q) ↦
        let put_back = dequeue_loop lock readers fuel (record s { queue = pq.push id c q }) in
        let skip = dequeue_loop lock readers fuel (record s { queue = q }) in
        if not (is_ready s id)
        then put_back
        else (if lock.grants_write readers
            then (elim (get ℕ_discrete id s.commands) [
              | none ↦ skip
              | some known ↦ returns (
                some known.command,
                record s {
                  queue = q;
                  commands = modify ℕ_discrete id (λ x. record x { state = scheduled }) s.commands;
                },
              )
            ])
            else blocked)
  ]

  -- The read guard of `commands` lives until the function returns.
  unfoldable pub dequeue : RwLock → ℕ → CommandQueue → Outcome (Option Command × CommandQueue)
  unfolding dequeue_loop
  dequeue lock fuel s = dequeue_loop lock 1 fuel s

  unfoldable pub get_command : ℕ → CommandQueue → Option QueuedCommand
  get_command id s = get ℕ_discrete id s.commands

  -- `if let Some(c) = commands.get_mut(&id) { .. Ok(()) } else { Err(NotFound) }`.
  abbrev pub on_command :
      ℕ
      → (QueuedCommand → QueuedCommand)
      → CommandQueue
      → Result QueueError (Unit {0}) × CommandQueue
  on_command id f s = elim (get ℕ_discrete id s.commands) [
    | none ↦ (err (not_found id), s)
    | some _ ↦ (ok tt, record s { commands = modify ℕ_discrete id f s.commands })
  ]

  unfoldable pub update_state :
      ℕ → CommandState → CommandQueue → Result QueueError (Unit {0}) × CommandQueue
  update_state id state = on_command id λ c. record c { state = state }

  unfoldable pub increment_retry : ℕ → CommandQueue → Result QueueError (Unit {0}) × CommandQueue
  increment_retry id = on_command id λ c. record c { retry_count = (c.retry_count + 1) % u32_mod }

  unfoldable pub cancel : ℕ → CommandQueue → Result QueueError (Unit {0}) × CommandQueue
  cancel id = on_command id λ c. record c { state = cancelled }

  unfoldable pub stats : CommandQueue → QueueStats
  stats s = record {
    total = length s.commands;
    n_queued = count (is_in queued) (values s.commands);
    n_scheduled = count (is_in scheduled) (values s.commands);
    n_transmitting = count (is_in transmitting) (values s.commands);
    n_awaiting = count (is_in awaiting_ack) (values s.commands);
    n_acknowledged = count (is_in acknowledged) (values s.commands);
    n_failed = count (is_in failed) (values s.commands);
    n_timeout = count (is_in timeout) (values s.commands);
  }
