-- ===== src/Uplink/Confirmation/Histories.antt =====
-- The histories of a tracker: the number of retries, and the statistics.
use Prim.Native.String.{String}
use ground_core.Common.Tests.{ℕ, ◌+◌, ◌≤◌, List, [], ◌∷◌, some, ◌≡◌, refl, arith, ℕ_discrete}
use ground_core.Common.Lists.{All, length, count, weight}
use ground_core.Common.Int.{ℤ}
use ground_core.Common.Maps.{values, insert-All, remove-All, modify-All, get-All}
use ground_core.Uplink.Command.{
  Command, CommandState, transmitting, awaiting_ack, acknowledged, failed, timeout,
}
use ground_core.Uplink.Confirmation.{
  ConfirmationEntry, ConfirmationTracker, Entries, new, track, handle_ack, handle_nack,
  check_entries, check_timeouts, retry, retry_entry, remove_entry, stats, time_out, get_entry,
  is_in, is_lost,
}

-- The states that the tracker gives to a command.
abbrev IsTracked : CommandState → Type 0
IsTracked transmitting = Unit {0}
IsTracked awaiting_ack = Unit {0}
IsTracked acknowledged = Unit {0}
IsTracked failed = Unit {0}
IsTracked timeout = Unit {0}
IsTracked _ = ⊥

-- What holds of every entry.
pub record Sound (e : ConfirmationEntry) : Type 0 where
  pub three : e.max_retries ≡ 3
  pub bounded : e.retry_count ≤ e.max_retries
  pub tracked : IsTracked e.state

module _ (now : ℕ) where
  check_entries-Sound :
      (m : Entries) → All Sound (values m) → All Sound (values (check_entries now m).1)
  unfolding check_entries
  check_entries-Sound [] a = tt
  check_entries-Sound ((j, e) ∷ m) a =
      let later = check_entries-Sound m a.1 in
      let s : Sound (time_out now e) = record {
        three = a.0.three;
        bounded = a.0.bounded;
        tracked = tt;
      } in
      ground arith

retry_entry-Sound :
    (now now' : ℕ) (e : ConfirmationEntry) → Sound e → Sound (retry_entry now now' e).0
unfolding retry_entry
retry_entry-Sound now now' e s = ground arith

-- The calls that change the tracker, with the readings of the clock that they make.
pub data Call : Type 0 where
  tracks : Command → ℕ → ℕ → ℕ → Call
  acks : ℕ → ℕ → Call
  nacks : ℕ → String → ℕ → Call
  checks : ℕ → Call
  retries : ℕ → ℕ → ℕ → Call
  removes : ℕ → Call

unfoldable pub step : Call → ConfirmationTracker → ConfirmationTracker
step (tracks c transmission now now') t = track c transmission now now' t
step (acks id now) t = (handle_ack id now t).1
step (nacks id reason now) t = (handle_nack id reason now t).1
step (checks now) t = (check_timeouts now t).1
step (retries id now now') t = (retry id now now' t).1
step (removes id) t = remove_entry id t

-- The latest call at the head.
unfoldable pub run : List Call → ConfirmationTracker → ConfirmationTracker
run [] t = t
run (c ∷ cs) t = step c (run cs t)

abbrev AllSound : ConfirmationTracker → Type 0
AllSound t = All Sound (values t.entries)

step-AllSound : (c : Call) (t : ConfirmationTracker) → AllSound t → AllSound (step c t)
unfolding step track handle_ack handle_nack check_timeouts retry remove_entry
step-AllSound (tracks c x now now') t a =
    insert-All ℕ_discrete Sound c.id _ t.entries
      (record { three = refl; bounded = omega arith; tracked = tt }) a
step-AllSound (acks id now) t a = ground (
  arith,
  modify-All ℕ_discrete Sound id (λ e. record e { state = acknowledged; last_update = now })
      t.entries (λ e s. record { three = s.three; bounded = s.bounded; tracked = tt }) a,
)
step-AllSound (nacks id reason now) t a = ground (
  arith,
  modify-All ℕ_discrete Sound id (λ e. record e { state = failed; last_update = now }) t.entries
      (λ e s. record { three = s.three; bounded = s.bounded; tracked = tt }) a,
)
step-AllSound (checks now) t a = check_entries-Sound now t.entries a
step-AllSound (retries id now now') t a = ground (
  arith,
  modify-All ℕ_discrete Sound id (λ e. (retry_entry now now' e).0) t.entries
      (retry_entry-Sound now now') a,
)
step-AllSound (removes id) t a = remove-All ℕ_discrete Sound id t.entries a

run-AllSound : (default : ℤ) (cs : List Call) → AllSound (run cs (new default))
unfolding run new
run-AllSound default [] = tt
run-AllSound default (c ∷ cs) = step-AllSound c (run cs (new default)) (run-AllSound default cs)

-- In every history of a tracker, a command on record has been retried at most three times.
run-retry_count :
    (default : ℤ) (cs : List Call) (k : ℕ) {e : ConfirmationEntry}
    → get_entry k (run cs (new default)) ≡ some e
    → e.retry_count ≤ 3
unfolding get_entry
run-retry_count default cs k {e} h = omega (
  arith,
  get-All ℕ_discrete Sound k (run cs (new default)).entries {v = e} (run-AllSound default cs) h,
)

-- An entry is counted once.
by_state :
    (e : ConfirmationEntry)
    → Sound e
    → weight (is_in awaiting_ack e)
        + weight (is_in acknowledged e)
        + weight (is_lost e)
        + weight (is_in transmitting e)
      ≡ 1
by_state e s = ground arith

counted :
    (m : Entries)
    → All Sound (values m)
    → length m
      ≡ count (is_in awaiting_ack) (values m)
        + count (is_in acknowledged) (values m)
        + count is_lost (values m)
        + count (is_in transmitting) (values m)
counted [] a = omega arith
counted ((j, e) ∷ m) a = ground (arith, counted m a.1, by_state e a.0)

-- In every history of a tracker, the statistics account for every command on record: the total is
-- the sum of the commands pending, acknowledged, failed or timed out, and transmitting.
stats-run :
    (default : ℤ) (cs : List Call)
    → let s = stats (run cs (new default)) in
      s.total ≡ s.pending + s.acknowledged + s.failed + s.transmitting
unfolding stats
stats-run default cs = counted (run cs (new default)).entries (run-AllSound default cs)
