-- ===== src/Uplink/Confirmation.antt =====
-- uplink/src/confirmation.rs: acknowledgements, timeouts and retries of transmitted commands. The
-- locked map is the state; a method takes it, and each reading of the clock that it makes, to the
-- new map and its result. The back-off base is never read and is left out.
pub mod Overdue
pub mod Timeouts
pub mod Histories
pub mod Delay
use Prim.Native.String.{String}
use ground_core.Common.Tests.{
  ℕ, ◌+◌, ◌*◌, ◌^◌, ◌%◌, min, Bool, true, false, ◌&&◌, ◌||◌, List, [], ◌∷◌, Option, none, some, ite,
  leb, if◌then◌else◌, ℕ_discrete, u32_mod,
}
use ground_core.Common.Lists.{length, count, filter}
use ground_core.Common.Result.{Result, ok, err}
use ground_core.Common.Int.{ℤ, sub_ℕ, ltb_ℤ}
use ground_core.Common.Maps.{Map, get, insert, remove, modify, values}
use ground_core.Uplink.Command.{
  Command, CommandState, CommandState-discrete, transmitting, awaiting_ack, acknowledged, failed,
  timeout,
}

pub data CommandOutcome : Type 0 where
  outcome_acknowledged : CommandOutcome
  outcome_rejected : String → CommandOutcome
  outcome_timeout outcome_transmission_failed : CommandOutcome

pub record ConfirmationEntry : Type 0 where
  pub command_id : ℕ
  pub transmission_id : ℕ
  pub state : CommandState
  pub retry_count : ℕ  -- u32
  pub max_retries : ℕ  -- u32
  pub transmitted_at : ℕ
  pub timeout_after : ℤ  -- nanoseconds
  pub last_update : ℕ

abbrev pub Entries : Type 0
Entries = Map ℕ ConfirmationEntry

pub record ConfirmationTracker : Type 0 where
  pub entries : Entries
  pub default_timeout : ℤ

-- `GroundStationError::NotFound`, of the command named.
pub data TrackError : Type 0 where
  not_found : ℕ → TrackError

unfoldable pub new : ℤ → ConfirmationTracker
new default_timeout = record { entries = []; default_timeout = default_timeout }

unfoldable pub track : Command → ℕ → ℕ → ℕ → ConfirmationTracker → ConfirmationTracker
track command transmission_id now now' t = record t {
  entries =
      insert ℕ_discrete command.id
        (record {
          command_id = command.id;
          transmission_id = transmission_id;
          state = awaiting_ack;
          retry_count = 0;
          max_retries = 3;
          transmitted_at = now;
          timeout_after = t.default_timeout;
          last_update = now';
        })
        t.entries;
}

-- `e.state == s`.
abbrev pub is_in : CommandState → ConfirmationEntry → Bool
is_in s e = ite (CommandState-discrete e.state s) true false

-- `if let Some(entry) = entries.get_mut(&id) { .. Ok(r) } else { Err(NotFound) }`.
abbrev pub on_entry :
    {A : Type 0}
    → ℕ
    → (ConfirmationEntry → ConfirmationEntry × A)
    → ConfirmationTracker
    → Result TrackError A × ConfirmationTracker
on_entry id f t = elim (get ℕ_discrete id t.entries) [
  | none ↦ (err (not_found id), t)
  | some e ↦ (ok (f e).1, record t { entries = modify ℕ_discrete id (λ x. (f x).0) t.entries })
]

unfoldable pub handle_ack :
    ℕ → ℕ → ConfirmationTracker → Result TrackError CommandOutcome × ConfirmationTracker
handle_ack id now =
    on_entry id λ e. (record e { state = acknowledged; last_update = now }, outcome_acknowledged)

unfoldable pub handle_nack :
    ℕ → String → ℕ → ConfirmationTracker → Result TrackError CommandOutcome × ConfirmationTracker
handle_nack id reason now =
    on_entry id λ e. (record e { state = failed; last_update = now }, outcome_rejected reason)

-- The test and the body of the loop of `check_timeouts`.
unfoldable pub is_overdue : ℕ → ConfirmationEntry → Bool
is_overdue now e = is_in awaiting_ack e && ltb_ℤ e.timeout_after (sub_ℕ now e.transmitted_at)

abbrev pub time_out : ℕ → ConfirmationEntry → ConfirmationEntry
time_out now e = record e { state = timeout; last_update = now }

unfoldable pub check_entries : ℕ → Entries → List ℕ × Entries
check_entries now [] = ([], [])
check_entries now ((id, e) ∷ m) =
    let (ids, m') = check_entries now m in
    if is_overdue now e then (id ∷ ids, (id, time_out now e) ∷ m') else (ids, (id, e) ∷ m')

unfoldable pub check_timeouts : ℕ → ConfirmationTracker → List ℕ × ConfirmationTracker
check_timeouts now t =
    let (ids, entries) = check_entries now t.entries in (ids, record t { entries = entries })

-- `2_u64.pow(retry_count.min(6)) * 1000`, in milliseconds.
unfoldable pub retry_delay : ℕ → ℕ
retry_delay retry_count = 2 ^ min retry_count 6 * 1000

-- What `retry` does to an entry, and whether there will be a retry.
unfoldable pub retry_entry : ℕ → ℕ → ConfirmationEntry → ConfirmationEntry × Bool
retry_entry now now' e =
    if leb e.max_retries e.retry_count then (record e { state = failed }, false) else (
      record e {
        retry_count = (e.retry_count + 1) % u32_mod;
        state = transmitting;
        transmitted_at = now;
        last_update = now';
      },
      true,
    )

unfoldable pub retry :
    ℕ → ℕ → ℕ → ConfirmationTracker → Result TrackError Bool × ConfirmationTracker
retry id now now' = on_entry id (retry_entry now now')

unfoldable pub get_entry : ℕ → ConfirmationTracker → Option ConfirmationEntry
get_entry id t = get ℕ_discrete id t.entries

unfoldable pub remove_entry : ℕ → ConfirmationTracker → ConfirmationTracker
remove_entry id t = record t { entries = remove ℕ_discrete id t.entries }

unfoldable pub pending : ConfirmationTracker → List ConfirmationEntry
pending t = filter (is_in awaiting_ack) (values t.entries)

-- `matches!(e.state, Failed | Timeout)`.
abbrev pub is_lost : ConfirmationEntry → Bool
is_lost e = is_in failed e || is_in timeout e

unfoldable pub failed_entries : ConfirmationTracker → List ConfirmationEntry
failed_entries t = filter is_lost (values t.entries)

pub record ConfirmationStats : Type 0 where
  pub total : ℕ
  pub pending : ℕ
  pub acknowledged : ℕ
  pub failed : ℕ
  pub transmitting : ℕ

unfoldable pub stats : ConfirmationTracker → ConfirmationStats
stats t = record {
  total = length t.entries;
  pending = count (is_in awaiting_ack) (values t.entries);
  acknowledged = count (is_in acknowledged) (values t.entries);
  failed = count is_lost (values t.entries);
  transmitting = count (is_in transmitting) (values t.entries);
}

-- One round of `timeout_checker_task`: `retry` reads the clock for each command; its result is
-- only logged.
unfoldable pub retry_all : (ℕ → ℕ × ℕ) → List ℕ → ConfirmationTracker → ConfirmationTracker
retry_all clock [] t = t
retry_all clock (id ∷ ids) t = retry_all clock ids (retry id (clock id).0 (clock id).1 t).1

unfoldable pub checker_round : ℕ → (ℕ → ℕ × ℕ) → ConfirmationTracker → ConfirmationTracker
checker_round now clock t = let (ids, t') = check_timeouts now t in retry_all clock ids t'
