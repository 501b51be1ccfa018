-- ===== src/Uplink/Queue/Counts.antt =====
-- What the statistics of the command queue count.
use ground_core.Common.Tests.{ℕ, ◌+◌, true, false, [], ◌∷◌, ◌≡◌, arith, ite}
use ground_core.Common.Lists.{length, count, weight, count-cons}
use ground_core.Common.Maps.{Map, values}
use ground_core.Uplink.Command.{
  CommandState, CommandState-discrete, queued, scheduled, transmitting, awaiting_ack, acknowledged,
  failed, timeout, cancelled,
}
use ground_core.Uplink.Queue.{PriorityQueue, QueuedCommand, CommandQueue, is_in, stats}

by_state :
    (c : QueuedCommand)
    → weight (is_in queued c)
        + weight (is_in scheduled c)
        + weight (is_in transmitting c)
        + weight (is_in awaiting_ack c)
        + weight (is_in acknowledged c)
        + weight (is_in failed c)
        + weight (is_in timeout c)
        + weight (is_in cancelled c)
      ≡ 1
by_state c = all_states c.state
  where
    all_states :
        (s : CommandState)
        → weight (ite (CommandState-discrete s queued) true false)
            + weight (ite (CommandState-discrete s scheduled) true false)
            + weight (ite (CommandState-discrete s transmitting) true false)
            + weight (ite (CommandState-discrete s awaiting_ack) true false)
            + weight (ite (CommandState-discrete s acknowledged) true false)
            + weight (ite (CommandState-discrete s failed) true false)
            + weight (ite (CommandState-discrete s timeout) true false)
            + weight (ite (CommandState-discrete s cancelled) true false)
          ≡ 1
    all_states queued = ground arith
    all_states _ = ground arith

counted :
    (m : Map ℕ QueuedCommand)
    → length m
      ≡ count (is_in queued) (values m)
        + count (is_in scheduled) (values m)
        + count (is_in transmitting) (values m)
        + count (is_in awaiting_ack) (values m)
        + count (is_in acknowledged) (values m)
        + count (is_in failed) (values m)
        + count (is_in timeout) (values m)
        + count (is_in cancelled) (values m)
counted [] = omega arith
counted ((j, c) ∷ m) = omega (
  arith,
  counted m,
  by_state c,
  count-cons (is_in queued) c (values m),
  count-cons (is_in scheduled) c (values m),
  count-cons (is_in transmitting) c (values m),
  count-cons (is_in awaiting_ack) c (values m),
  count-cons (is_in acknowledged) c (values m),
  count-cons (is_in failed) c (values m),
  count-cons (is_in timeout) c (values m),
  count-cons (is_in cancelled) c (values m),
)

-- The statistics leave out the cancelled commands and no other: the total is the sum of the seven
-- counts and the number of cancelled commands.
stats_total :
    (pq : PriorityQueue) (s : CommandQueue pq)
    → let n = stats pq s in
      n.total
      ≡ n.n_queued
        + n.n_scheduled
        + n.n_transmitting
        + n.n_awaiting
        + n.n_acknowledged
        + n.n_failed
        + n.n_timeout
        + count (is_in cancelled) (values s.commands)
unfolding stats
stats_total pq s = counted s.commands
