-- ===== src/Uplink/Queue/Dequeue.antt =====
-- How a call of `dequeue` ends.
use ground_core.Common.Tests.{
  ℕ, zero, suc, Bool, true, false, Option, none, some, ◌≡◌, ◌≢◌, refl, inl, inr, if◌then◌else◌,
  Bool-cases, Option-cases,
}
use ground_core.Uplink.Command.{Command}
use ground_core.Uplink.Queue.{
  QueuedCommand, PriorityQueue, RwLock, Outcome, returns, blocked, unfinished, CommandQueue,
  is_ready, dequeue, dequeue_loop,
}

module _ (pq : PriorityQueue) (lock : RwLock) where
  -- A command whose dependencies are not met goes back and comes out again.
  dequeue_loop_spins :
      (fuel : ℕ) (s : CommandQueue pq) (q : pq.Queue) (id : ℕ) (c : QueuedCommand)
      → pq.pop s.queue ≡ some ((id, c), q)
      → is_ready pq s id ≡ false
      → dequeue_loop pq lock 1 fuel s ≡ unfinished
  unfolding dequeue_loop is_ready
  dequeue_loop_spins zero s q id c e n = refl
  dequeue_loop_spins (suc fuel) s q id c e n =
      let (q'', e') = pq.pop-push_back s.queue q id c e in
      let again = dequeue_loop_spins fuel (record s { queue = pq.push id c q }) q'' id c e' n in
      rw (e, dequeue_loop, n) again

  dequeue_loop_waits :
      (fuel : ℕ) (s : CommandQueue pq) (q : pq.Queue) (id : ℕ) (c : QueuedCommand)
      → pq.pop s.queue ≡ some ((id, c), q)
      → is_ready pq s id ≡ true
      → dequeue_loop pq lock 1 (suc fuel) s ≡ blocked
  unfolding dequeue_loop
  dequeue_loop_waits fuel s q id c e y = rw (e, dequeue_loop, y, lock.waits_for_readers 0)

  dequeue_loop_empty :
      (fuel : ℕ) (s : CommandQueue pq)
      → pq.pop s.queue ≡ none
      → dequeue_loop pq lock 1 (suc fuel) s ≡ returns (none, s)
  unfolding dequeue_loop
  dequeue_loop_empty fuel s e = rw (e, dequeue_loop)

  dequeue_loop_ends :
      (fuel : ℕ) (s : CommandQueue pq) (q : pq.Queue) (id : ℕ) (c : QueuedCommand)
      → pq.pop s.queue ≡ some ((id, c), q)
      → dequeue_loop pq lock 1 (suc fuel) s ≡ (if is_ready pq s id then blocked else unfinished)
  dequeue_loop_ends fuel s q id c e = elim (Bool-cases (is_ready pq s id)) [
    | inl y ↦ rw y (dequeue_loop_waits fuel s q id c e y)
    | inr n ↦ rw n (dequeue_loop_spins (suc fuel) s q id c e n)
  ]

  ne_some :
      (b : Bool) (r : Outcome (Option Command × CommandQueue pq)) (c : Command)
      (s' : CommandQueue pq)
      → r ≡ (if b then blocked else unfinished)
      → r ≢ returns (some c, s')
  ne_some true r c s' e h = cc
  ne_some false r c s' e h = cc

  dequeue_loop_never :
      (fuel : ℕ) (s : CommandQueue pq) (c : Command) (s' : CommandQueue pq)
      → dequeue_loop pq lock 1 fuel s ≢ returns (some c, s')
  dequeue_loop_never zero s c s' = unfold dequeue_loop in λ h. cc
  dequeue_loop_never (suc fuel) s c s' = elim (Option-cases (pq.pop s.queue)) [
    | inl e ↦ λ h. let e' = dequeue_loop_empty fuel s e in cc
    | inr (((id, x), q), e) ↦ ne_some (is_ready pq s id) _ c s' (dequeue_loop_ends fuel s q id x e)
  ]

  -- `dequeue` returns `None` where the queue is empty. Where the command of the highest priority
  -- has a dependency that is not acknowledged, no number of rounds is enough; where it has none,
  -- the call waits for ever for its own read guard. So no call returns a command.
  pub dequeue_lem :
      (fuel : ℕ) (s : CommandQueue pq)
      → (pq.pop s.queue ≡ none → dequeue pq lock (suc fuel) s ≡ returns (none, s))
        × ((id : ℕ) (c : QueuedCommand) (q : pq.Queue)
            → pq.pop s.queue ≡ some ((id, c), q)
            → dequeue pq lock (suc fuel) s ≡ (if is_ready pq s id then blocked else unfinished))
        × ((c : Command) (s' : CommandQueue pq) → dequeue pq lock fuel s ≢ returns (some c, s'))
  unfolding dequeue
  dequeue_lem fuel s = (
    dequeue_loop_empty fuel s,
    λ id c q. dequeue_loop_ends fuel s q id c,
    dequeue_loop_never fuel s,
  )
