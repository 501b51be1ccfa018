-- ===== src/Uplink/Confirmation/Timeouts.antt =====
-- What the timeout check and the retries of one round of the checker do to each entry.
use mathlib.Core.Option
use ground_core.Common.Tests.{
  ℕ, ◌+◌, ◌%◌, true, List, [], ◌∷◌, some, ite, ◌≡◌, ◌≢◌, refl, arith, inl, inr, ◌∙◌, subst,
  if◌then◌else◌, ℕ_discrete, ltb, Option-cases, u32_mod,
}
use ground_core.Common.Lists.{contains, All, Distinct, not_contains}
use ground_core.Common.Maps.{keys, get-modify, keys-modify}
use ground_core.Uplink.Command.{transmitting, awaiting_ack, failed}
use ground_core.Uplink.Confirmation.Overdue.{
  overdue_at, expire, is_overdue_id, get-check_entries, keys-check_entries, check_entries-Distinct,
  contains-check_entries, check_entries_again,
}
use ground_core.Uplink.Confirmation.{
  ConfirmationEntry, ConfirmationTracker, check_timeouts, get_entry, retry, retry_entry, retry_all,
  checker_round,
}

-- `check_timeouts` at `now` moves exactly the entries that await an acknowledgement and whose
-- timeout has passed since their transmission to `Timeout`, stamped `now`, and leaves every other entry as it is; it returns
-- exactly their identifiers, each once; and a second check at `now` returns none.
pub check_timeouts_lem :
    (now : ℕ) (t : ConfirmationTracker)
    → Distinct (keys t.entries)
    → let (ids, t') = check_timeouts now t in
      ((k : ℕ) → get_entry k t' ≡ Option.map (expire now) (get_entry k t))
      × ((k : ℕ) → contains ℕ_discrete ids k ≡ is_overdue_id now (get_entry k t))
      × Distinct ids
      × ((check_timeouts now t').0 ≡ [])
unfolding check_timeouts get_entry
check_timeouts_lem now t h = (
  λ k. get-check_entries now k t.entries,
  λ k. contains-check_entries now k t.entries h,
  check_entries-Distinct now t.entries h,
  check_entries_again now t.entries,
)

-- An entry after a retry.
abbrev pub retried : ℕ × ℕ → ConfirmationEntry → ConfirmationEntry
retried clock e = (retry_entry clock.0 clock.1 e).0

get-retry :
    (k id now now' : ℕ) (t : ConfirmationTracker)
    → get_entry k (retry id now now' t).1
      ≡ ite (ℕ_discrete id k) (Option.map (retried (now, now')) (get_entry k t)) (get_entry k t)
unfolding retry get_entry
get-retry k id now now' t =
    ground (arith, get-modify ℕ_discrete k id (retried (now, now')) t.entries)

get-retry_all :
    (clock : ℕ → ℕ × ℕ) (ids : List ℕ) (k : ℕ) (t : ConfirmationTracker)
    → Distinct ids
    → get_entry k (retry_all clock ids t) ≡ (
        if contains ℕ_discrete ids k
        then Option.map (retried (clock k)) (get_entry k t)
        else get_entry k t)
unfolding retry_all
get-retry_all clock [] k t h = refl
get-retry_all clock (id ∷ ids) k t h =
    let t' = (retry id (clock id).0 (clock id).1 t).1 in
    elim (ℕ_discrete id k) [
      | yes p ↦ ground (
        arith,
        get-retry_all clock ids k t' h.1,
        not_contains ℕ_discrete k ids (subst (λ x. All (λ y. ¬ (x ≡ y)) ids) p h.0),
        get-retry k id (clock id).0 (clock id).1 t,
      )
      | no n ↦
          ground
            (arith, get-retry_all clock ids k t' h.1, get-retry k id (clock id).0 (clock id).1 t)
    ]

-- What one round of the checker makes of an entry.
abbrev pub after_round : ℕ → ℕ × ℕ → ConfirmationEntry → ConfirmationEntry
after_round now clock e =
    if overdue_at now e
    then (if ltb e.retry_count e.max_retries
        then record e {
          state = transmitting;
          retry_count = (e.retry_count + 1) % u32_mod;
          transmitted_at = clock.0;
          last_update = clock.1;
        }
        else record e { state = failed; last_update = now })
    else e

retried-time_out :
    (now : ℕ) (clock : ℕ × ℕ) (e : ConfirmationEntry)
    → (if overdue_at now e then retried clock (expire now e) else e) ≡ after_round now clock e
unfolding retry_entry
retried-time_out now clock e = ground arith

-- One round of the checker times out and retries exactly the entries that are overdue, each once,
-- and leaves every other entry as it is. A retried entry with retries left is `Transmitting`, with
-- one retry more and stamped with the clock readings of its retry; one without is `Failed`.
checker_round_lem :
    (now : ℕ) (clock : ℕ → ℕ × ℕ) (t : ConfirmationTracker) (k : ℕ)
    → Distinct (keys t.entries)
    → get_entry k (checker_round now clock t)
      ≡ Option.map (after_round now (clock k)) (get_entry k t)
unfolding checker_round
checker_round_lem now clock t k h =
    let (entry, overdue, distinct, _) = check_timeouts_lem now t h in
    let (ids, t') = check_timeouts now t in
    elim (Option-cases (get_entry k t)) [
      | inl e ↦ ground (arith, get-retry_all clock ids k t' distinct, entry k, overdue k)
      | inr (x, e) ↦ ground (
        arith,
        get-retry_all clock ids k t' distinct,
        entry k,
        overdue k,
        retried-time_out now (clock k) x,
      )
    ]

keys-retry_all :
    (clock : ℕ → ℕ × ℕ) (ids : List ℕ) (t : ConfirmationTracker)
    → keys (retry_all clock ids t).entries ≡ keys t.entries
unfolding retry_all retry
keys-retry_all clock [] t = refl
keys-retry_all clock (id ∷ ids) t = ground (
  arith,
  keys-retry_all clock ids (retry id (clock id).0 (clock id).1 t).1,
  keys-modify ℕ_discrete id (retried (clock id)) t.entries,
)

keys-checker_round :
    (now : ℕ) (clock : ℕ → ℕ × ℕ) (t : ConfirmationTracker)
    → keys (checker_round now clock t).entries ≡ keys t.entries
unfolding checker_round check_timeouts
keys-checker_round now clock t = keys-retry_all clock _ _ ∙ keys-check_entries now t.entries

-- Rounds of the checker with nothing between them, the latest at the head.
unfoldable pub checker_rounds : List (ℕ × (ℕ → ℕ × ℕ)) → ConfirmationTracker → ConfirmationTracker
checker_rounds [] t = t
checker_rounds ((now, clock) ∷ rs) t = checker_round now clock (checker_rounds rs t)

keys-checker_rounds :
    (rs : List (ℕ × (ℕ → ℕ × ℕ))) (t : ConfirmationTracker)
    → keys (checker_rounds rs t).entries ≡ keys t.entries
unfolding checker_rounds
keys-checker_rounds [] t = refl
keys-checker_rounds ((now, clock) ∷ rs) t =
    keys-checker_round now clock (checker_rounds rs t) ∙ keys-checker_rounds rs t

settled_once :
    (now : ℕ) (clock : ℕ → ℕ × ℕ) (rs : List (ℕ × (ℕ → ℕ × ℕ))) (t : ConfirmationTracker) (k : ℕ)
    (e : ConfirmationEntry)
    → Distinct (keys t.entries)
    → e.state ≢ awaiting_ack
    → get_entry k (checker_rounds rs t) ≡ some e
    → get_entry k (checker_rounds ((now, clock) ∷ rs) t) ≡ some e
unfolding checker_rounds
settled_once now clock rs t k e h settled found =
    checker_round_lem now clock (checker_rounds rs t) k (rw (keys-checker_rounds rs t) h)
    ∙ ground arith

checker_rounds_untouched :
    (rs : List (ℕ × (ℕ → ℕ × ℕ))) (t : ConfirmationTracker) (k : ℕ) {e : ConfirmationEntry}
    → Distinct (keys t.entries)
    → get_entry k t ≡ some e
    → e.state ≢ awaiting_ack
    → get_entry k (checker_rounds rs t) ≡ some e
checker_rounds_untouched [] t k h found settled = unfold checker_rounds in found
checker_rounds_untouched ((now, clock) ∷ rs) t k {e} h found settled =
    settled_once now clock rs t k e h settled
      (checker_rounds_untouched rs t k {e = e} h found settled)

-- The entry of a command that a round retries, with the clock readings of the retry.
abbrev pub retried_once : ℕ × ℕ → ConfirmationEntry → ConfirmationEntry
retried_once clock e = record e {
  state = transmitting;
  retry_count = (e.retry_count + 1) % u32_mod;
  transmitted_at = clock.0;
  last_update = clock.1;
}

-- The checker never touches a command that awaits no acknowledgement, however many rounds it makes.
-- So a command that a round finds overdue with retries left is retried by that round: it is then
-- `Transmitting`, with one retry more and the clock readings of the retry; and it is just that after
-- any further rounds, with nothing between them, whatever their times: it is neither retried again
-- nor given up.
pub checker_rounds_settled :
    (rs : List (ℕ × (ℕ → ℕ × ℕ))) (t : ConfirmationTracker) (k : ℕ) {e : ConfirmationEntry}
    → Distinct (keys t.entries)
    → get_entry k t ≡ some e
    → (e.state ≢ awaiting_ack → get_entry k (checker_rounds rs t) ≡ some e)
      × ((now : ℕ) (clock : ℕ → ℕ × ℕ)
          → overdue_at now e ≡ true
          → ltb e.retry_count e.max_retries ≡ true
          → get_entry k (checker_rounds rs (checker_round now clock t))
            ≡ some (retried_once (clock k) e))
checker_rounds_settled rs t k {e} h found = (
  λ settled. checker_rounds_untouched rs t k {e = e} h found settled,
  λ now clock overdue left.
      checker_rounds_untouched rs (checker_round now clock t) k {e = retried_once (clock k) e}
        (rw (keys-checker_round now clock t) h)
        (checker_round_lem now clock t k h ∙ rw (found, overdue, left) refl)
        (λ (y : transmitting ≡ awaiting_ack). absurd cc),
)
