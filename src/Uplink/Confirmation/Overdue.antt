-- ===== src/Uplink/Confirmation/Overdue.antt =====
-- The loop of the timeout check against a description of what is overdue.
use mathlib.Core.Option
use ground_core.Common.Tests.{
  ℕ, Bool, true, false, ◌&&◌, [], ◌∷◌, Option, none, some, ite, ◌≡◌, refl, arith, subst,
  if◌then◌else◌, ℕ_discrete,
}
use ground_core.Common.Lists.{contains, All, Distinct, not_contains}
use ground_core.Common.Maps.{get, keys}
use ground_core.Common.Int.{sub_ℕ, ltb_ℤ}
use ground_core.Uplink.Command.{CommandState-discrete, awaiting_ack, timeout}
use ground_core.Uplink.Confirmation.{ConfirmationEntry, Entries, is_overdue, check_entries}

-- The entry awaits an acknowledgement, and at `now` more time than its timeout has passed since its
-- transmission.
abbrev pub overdue_at : ℕ → ConfirmationEntry → Bool
overdue_at now e =
    ite (CommandState-discrete e.state awaiting_ack) true false
    && ltb_ℤ e.timeout_after (sub_ℕ now e.transmitted_at)

-- An entry after the check at `now`.
abbrev pub expire : ℕ → ConfirmationEntry → ConfirmationEntry
expire now e = if overdue_at now e then record e { state = timeout; last_update = now } else e

-- Is the command on record, and overdue?
abbrev pub is_overdue_id : ℕ → Option ConfirmationEntry → Bool
is_overdue_id now none = false
is_overdue_id now (some e) = overdue_at now e

pub get-check_entries :
    (now k : ℕ) (m : Entries)
    → get ℕ_discrete k (check_entries now m).1 ≡ Option.map (expire now) (get ℕ_discrete k m)
unfolding check_entries get is_overdue
get-check_entries now k [] = refl
get-check_entries now k ((i, e) ∷ m) = ground (arith, get-check_entries now k m)

pub keys-check_entries : (now : ℕ) (m : Entries) → keys (check_entries now m).1 ≡ keys m
unfolding check_entries
keys-check_entries now [] = refl
keys-check_entries now ((i, e) ∷ m) = ground (arith, keys-check_entries now m)

check_entries_fresh :
    (x now : ℕ) (m : Entries)
    → All (λ y. ¬ (x ≡ y)) (keys m)
    → All (λ y. ¬ (x ≡ y)) (check_entries now m).0
unfolding check_entries
check_entries_fresh x now [] h = tt
check_entries_fresh x now ((i, e) ∷ m) h = ground (arith, check_entries_fresh x now m h.1)

pub check_entries-Distinct :
    (now : ℕ) (m : Entries) → Distinct (keys m) → Distinct (check_entries now m).0
unfolding check_entries
check_entries-Distinct now [] h = tt
check_entries-Distinct now ((i, e) ∷ m) h =
    ground (arith, check_entries-Distinct now m h.1, check_entries_fresh i now m h.0)

pub contains-check_entries :
    (now k : ℕ) (m : Entries)
    → Distinct (keys m)
    → contains ℕ_discrete (check_entries now m).0 k ≡ is_overdue_id now (get ℕ_discrete k m)
unfolding check_entries get is_overdue
contains-check_entries now k [] h = refl
contains-check_entries now k ((i, e) ∷ m) h = elim (ℕ_discrete i k) [
  | yes p ↦ ground (
    arith,
    not_contains ℕ_discrete k (check_entries now m).0 (
        subst (λ x. All (λ y. ¬ (x ≡ y)) (check_entries now m).0) p
          (check_entries_fresh i now m h.0)),
  )
  | no n ↦ ground (arith, contains-check_entries now k m h.1)
]

pub check_entries_again :
    (now : ℕ) (m : Entries) → (check_entries now (check_entries now m).1).0 ≡ []
unfolding check_entries is_overdue
check_entries_again now [] = refl
check_entries_again now ((i, e) ∷ m) = ground (arith, check_entries_again now m)
