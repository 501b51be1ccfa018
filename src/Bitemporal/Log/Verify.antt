-- ===== src/Bitemporal/Log/Verify.antt =====
-- What `verify_chain` answers for the logs that `append` builds.
use Prim.Native.String.{String}
use ground_core.Common.Tests.{
  ℕ, ◌≤◌, ◌<◌, true, false, List, [], ◌∷◌, ◌++◌, Option, none, some, ite, String_discrete, ◌≡◌,
  refl, sym, ◌∙◌, arith, ◌&&◌, ◌⊎◌, ◌↔◌, Bool, inl, inr, Bool-cases, subst, ap,
}
use mathlib.Core.List.{append_assoc}
use ground_core.Common.Lists.{All}
use ground_core.Common.Result.{Result, ok}
use ground_core.Common.Maps.{Map, get, insert, values}
use ground_core.Bitemporal.Log.{
  Encoding, LogEntry, LogError, verification_failed, chain_broken, BitemporalLog, new, append,
  verify, verify_chain, check_chain, sort, insert_sorted, same_hash, follows, get_entry,
  compute_hash, previous_bytes,
}

module _ (enc : Encoding) where
  -- Every entry of the log was received before this one.
  abbrev pub Later : LogEntry enc → BitemporalLog enc → Type 0
  Later e log = All (λ x. x.reception_time < e.reception_time) (values log.entries)

  -- The hash that the next entry has to follow on.
  abbrev last_hash : Option String → List (LogEntry enc) → Option String
  last_hash p [] = p
  last_hash p (e ∷ es) = last_hash (some e.hash) es

  values-insert :
      (k : String) (v : LogEntry enc) (m : Map String (LogEntry enc))
      → get String_discrete k m ≡ none
      → values (insert String_discrete k v m) ≡ values m ++ (v ∷ [])
  unfolding get insert
  values-insert k v [] h = refl
  values-insert k v ((j, w) ∷ m) h = ground (arith, values-insert k v m)

  insert_sorted-snoc :
      (x e : LogEntry enc) (ys : List (LogEntry enc))
      → x.reception_time ≤ e.reception_time
      → insert_sorted enc x (ys ++ (e ∷ [])) ≡ insert_sorted enc x ys ++ (e ∷ [])
  unfolding insert_sorted
  insert_sorted-snoc x e [] h = ground arith
  insert_sorted-snoc x e (y ∷ ys) h = ground (arith, insert_sorted-snoc x e ys h)

  sort-snoc :
      (e : LogEntry enc) (xs : List (LogEntry enc))
      → All (λ x. x.reception_time < e.reception_time) xs
      → sort enc (xs ++ (e ∷ [])) ≡ sort enc xs ++ (e ∷ [])
  unfolding sort insert_sorted
  sort-snoc e [] h = refl
  sort-snoc e (x ∷ xs) h =
      ap (insert_sorted enc x) (sort-snoc e xs h.1)
      ∙ insert_sorted-snoc x e (sort enc xs) (omega (arith, h.0))

  check_chain-snoc :
      (p : Option String) (es : List (LogEntry enc)) (e : LogEntry enc)
      → check_chain enc p (es ++ (e ∷ []))
        ≡ (check_chain enc p es && (same_hash enc e.previous_hash (last_hash p es) && verify enc e))
  unfolding check_chain
  check_chain-snoc p [] e = ground arith
  check_chain-snoc p (x ∷ es) e = ground (arith, check_chain-snoc (some x.hash) es e)

  last_hash-snoc :
      (p : Option String) (es : List (LogEntry enc)) (e : LogEntry enc)
      → last_hash p (es ++ (e ∷ [])) ≡ some e.hash
  last_hash-snoc p [] e = refl
  last_hash-snoc p (x ∷ es) e = last_hash-snoc (some x.hash) es e

  -- The latest hash is that of the entry received last.
  abbrev pub Connected : BitemporalLog enc → Type 0
  Connected log = last_hash none (sort enc (values log.entries)) ≡ log.latest_hash

  append-cases :
      (e : LogEntry enc) (log : BitemporalLog enc)
      → ((verify enc e ≡ true)
          × (follows enc log.latest_hash e ≡ true)
          × ((append enc e log).0 ≡ ok tt)
          × ((append enc e log).1.entries ≡ insert String_discrete e.entry_id e log.entries)
          × ((append enc e log).1.latest_hash ≡ some e.hash))
        ⊎ (((err : LogError) × ((append enc e log).0 ≡ Result.err err))
            × ((append enc e log).1 ≡ log))
  unfolding append
  append-cases e log = elim (Bool-cases (verify enc e)) [
    | inl y ↦ elim (Bool-cases (follows enc log.latest_hash e)) [
      | inl z ↦ inl (y, z, rw (y, z) refl, rw (y, z) refl, rw (y, z) refl)
      | inr z ↦ inr ((chain_broken, rw (y, z) refl), rw (y, z) refl)
    ]
    | inr y ↦ inr ((verification_failed, rw y refl), rw y refl)
  ]

  module _ (e : LogEntry enc) (log : BitemporalLog enc)
      (fresh : get_entry enc e.entry_id log ≡ none) (later : Later e log) where
    sorted_entries :
        {m : Map String (LogEntry enc)}
        → m ≡ insert String_discrete e.entry_id e log.entries
        → sort enc (values m) ≡ sort enc (values log.entries) ++ (e ∷ [])
    unfolding get_entry
    sorted_entries c =
        ap (λ x. sort enc (values x)) c
        ∙ ap (sort enc) (values-insert e.entry_id e log.entries fresh)
        ∙ sort-snoc e (values log.entries) later

    append-Connected : Connected log → Connected (append enc e log).1
    append-Connected v = elim (append-cases e log) [
      | inr (_, c) ↦ subst (λ x. Connected x) (sym c) v
      | inl (_, _, _, c, l) ↦
          ap (last_hash none) (sorted_entries c)
          ∙ last_hash-snoc none (sort enc (values log.entries)) e
          ∙ sym l
    ]

  -- What `append` asks of an entry's previous hash: a log with a latest hash wants just that.
  abbrev pub MayFollow : LogEntry enc → BitemporalLog enc → Type 0
  MayFollow e log = (log.latest_hash ≡ none) ⊎ (e.previous_hash ≡ log.latest_hash)

  same_hash_iff : (a b : Option String) → (same_hash enc a b ≡ true) ↔ (a ≡ b)
  unfolding same_hash
  same_hash_iff none none = (λ h. refl, λ h. refl)
  same_hash_iff none (some b) = (λ h. absurd cc, λ h. absurd cc)
  same_hash_iff (some a) none = (λ h. absurd cc, λ h. absurd cc)
  same_hash_iff (some a) (some b) = (λ h. ground arith, λ h. ground arith)

  follows_iff :
      (o : Option String) (e : LogEntry enc)
      → (follows enc o e ≡ true) ↔ ((o ≡ none) ⊎ (e.previous_hash ≡ o))
  unfolding follows
  follows_iff none e = (λ h. inl refl, λ h. refl)
  follows_iff (some h) e = (
    λ y. inr ((same_hash_iff e.previous_hash (some h)).0 y),
    λ y. elim y [ inl n ↦ absurd cc | inr m ↦ (same_hash_iff e.previous_hash (some h)).1 m ],
  )

  append_ok_iff :
      (e : LogEntry enc) (log : BitemporalLog enc)
      → ((append enc e log).0 ≡ ok tt) ↔ ((verify enc e ≡ true) × MayFollow e log)
  unfolding append
  append_ok_iff e log = (
    λ accepted. elim (append-cases e log) [
      | inr ((x, c), _) ↦ absurd cc
      | inl (y, f, _, _, _) ↦ (y, (follows_iff log.latest_hash e).0 f)
    ],
    λ h. rw (h.0, (follows_iff log.latest_hash e).1 h.1, append) refl,
  )

  accepted-verify_chain :
      (e : LogEntry enc) (log : BitemporalLog enc)
      → Connected log
      → get_entry enc e.entry_id log ≡ none
      → Later e log
      → (append enc e log).0 ≡ ok tt
      → verify_chain enc (append enc e log).1
        ≡ (verify_chain enc log && same_hash enc e.previous_hash log.latest_hash)
  unfolding verify_chain
  accepted-verify_chain e log v fresh later accepted = elim (append-cases e log) [
    | inr ((x, c), _) ↦ absurd cc
    | inl (y, _, _, c, _) ↦
        ap (check_chain enc none) (sorted_entries e log fresh later c)
        ∙ check_chain-snoc none (sort enc (values log.entries)) e
        ∙ rw (v, y) (ground arith)
  ]

  both_hold :
      (b : Bool) (p q : Option String) → ((b && same_hash enc p q) ≡ true) ↔ ((b ≡ true) × (p ≡ q))
  both_hold true p q = (λ h. (refl, (same_hash_iff p q).0 h), λ h. (same_hash_iff p q).1 h.1)
  both_hold false p q = (λ h. absurd cc, λ h. absurd (let f : false ≡ true = h.0 in cc))

  -- Take a log whose latest hash is that of the entry received last, and an entry with a new
  -- identifier that is received after all others. `append` accepts the entry exactly if the entry
  -- verifies and either the log has no latest hash or the entry's previous hash is the latest
  -- hash. If it accepts the entry, the log verifies afterwards exactly if it did before and the
  -- entry's previous hash is the latest hash, both being absent in an empty log.
  pub append-verify_chain :
      (e : LogEntry enc) (log : BitemporalLog enc)
      → Connected log
      → get_entry enc e.entry_id log ≡ none
      → Later e log
      → (((append enc e log).0 ≡ ok tt) ↔ ((verify enc e ≡ true) × MayFollow e log))
        × ((append enc e log).0 ≡ ok tt
            → (verify_chain enc (append enc e log).1 ≡ true)
              ↔ ((verify_chain enc log ≡ true) × (e.previous_hash ≡ log.latest_hash)))
  append-verify_chain e log v fresh later = (
    append_ok_iff e log,
    λ accepted.
        let l = accepted-verify_chain e log v fresh later accepted in
        let (there, back) = both_hold (verify_chain enc log) e.previous_hash log.latest_hash in
        (λ h. there (sym l ∙ h), λ h. l ∙ back h),
  )

  -- An entry with a new identifier, received after all others; the first has no previous hash.
  pub record Proper (e : LogEntry enc) (log : BitemporalLog enc) : Type 0 where
    pub is_new : get_entry enc e.entry_id log ≡ none
    pub is_later : Later e log
    pub starts : log.latest_hash ≡ none → e.previous_hash ≡ none

  pub data Reach : BitemporalLog enc → Type 0 where
    start : Reach (new enc)
    next :
        {log : BitemporalLog enc}
        → Reach log
        → (e : LogEntry enc) → Proper e log
        → Reach (append enc e log).1

  Reach-Connected : {log : BitemporalLog enc} → Reach log → Connected log
  unfolding new sort
  Reach-Connected start = refl
  Reach-Connected (next {log} r e p) =
      append-Connected e log p.is_new p.is_later (Reach-Connected r)

  proper_follows :
      (o : Option String) (e : LogEntry enc)
      → (o ≡ none → e.previous_hash ≡ none)
      → follows enc o e ≡ true
      → same_hash enc e.previous_hash o ≡ true
  unfolding follows same_hash
  proper_follows none e s f = rw (s refl) refl
  proper_follows (some l) e s f = f

  -- A log that was filled by `append`, with entries of new identifiers in the order of their
  -- reception, the first without a previous hash, verifies: also if some of the entries were
  -- refused.
  pub Reach-verify_chain : {log : BitemporalLog enc} → Reach log → verify_chain enc log ≡ true
  unfolding new
  Reach-verify_chain start = unfold verify_chain sort check_chain in refl
  Reach-verify_chain (next {log} r e p) = elim (append-cases e log) [
    | inr (_, c) ↦ subst (λ x. verify_chain enc x ≡ true) (sym c) (Reach-verify_chain r)
    | inl (_, f, o, _, _) ↦
        accepted-verify_chain e log (Reach-Connected r) p.is_new p.is_later o
        ∙ rw (Reach-verify_chain r) (proper_follows log.latest_hash e p.starts f)
  ]

  -- The fields are hashed without a separator: moving bytes from the pass to the identifier of an
  -- entry, or back, is not seen by `verify`.
  verify_moved :
      (e : LogEntry enc) (entry_id pass_id : String)
      → enc.text_bytes entry_id ++ enc.text_bytes pass_id
        ≡ enc.text_bytes e.entry_id ++ enc.text_bytes e.pass_id
      → verify enc (record e { entry_id = entry_id; pass_id = pass_id }) ≡ verify enc e
  unfolding verify compute_hash
  verify_moved e entry_id pass_id h =
      let rest : List ℕ =
        enc.type_bytes e.entry_type
        ++ (enc.time_bytes e.event_time
            ++ (enc.time_bytes e.reception_time
                ++ (enc.json_bytes e.data_value ++ previous_bytes enc e.previous_hash))) in
      ap (λ bytes. ite (String_discrete (enc.digest bytes) e.hash) true false)
        (sym (append_assoc (enc.text_bytes entry_id) (enc.text_bytes pass_id) rest)
          ∙ ap (λ bytes. bytes ++ rest) h
          ∙ append_assoc (enc.text_bytes e.entry_id) (enc.text_bytes e.pass_id) rest)
