-- ===== src/RfLayer/Shadow/Failover.antt =====
-- What a promotion of the shadow restores, over the samples that the acquisition has processed.
use Prim.Native.String.{String}
use ground_core.Common.Tests.{
  ℕ, ◌+◌, ◌≤◌, ◌<◌, true, false, List, [], ◌∷◌, ◌++◌, Option, none, some, ◌≡◌, refl, ap, sym, subst,
  arith, u64_mod, inl, inr, ◌⊎◌, if◌then◌else◌,
}
use ground_core.Common.Lists.{length, All}
use ground_core.Common.Result.{ok}
use ground_core.RfLayer.Floats.{Floats}
use ground_core.RfLayer.Sdr.{Sample, SdrHandle}
use ground_core.RfLayer.Demodulator
use ground_core.RfLayer.Demodulator.{DemodState, process_sample}
use ground_core.RfLayer.Demodulator.Snapshot
use ground_core.RfLayer.Demodulator.Snapshot.{
  DemodulatorSnapshot, SnapshotManager, capture, capture_if_needed, latest, restore, snapshot_count,
  add_snapshot,
}
use ground_core.RfLayer.Demodulator.Snapshot.Capture.{
  captured, capture_if_needed-cases, length-captured, latest-captured,
}
use ground_core.RfLayer.Shadow.{
  PassAcquisition, new, process_primary_sample, promote_shadow, restored,
}

module _ (fl : Floats) (sha256 : List ℕ → List ℕ) (Doppler A : Type 0) where
  abbrev Acquisition : Type 0
  Acquisition = PassAcquisition fl sha256 Doppler A

  -- The demodulator's state after these samples, the newest being the first of the list.
  abbrev pub state_after : List (Sample fl.F32) → DemodState fl
  state_after [] = Demodulator.new fl
  state_after (x ∷ xs) = (process_sample fl x (state_after xs)).1

  -- The acquisitions that have processed these samples, the newest first, whose identifiers never
  -- decrease.
  pub data Received : List (Sample fl.F32) → Acquisition → Type 0 where
    begins :
        (now : ℕ) (pass_id : String) (primary : SdrHandle) (shadow : Option SdrHandle) (d : Doppler)
        → Received [] (new fl sha256 Doppler A now pass_id primary shadow d)
    receives :
        {xs : List (Sample fl.F32)} {a : Acquisition}
        → Received xs a
        → (x : Sample fl.F32) → a.last_committed_sample ≤ x.id
        → x.id < u64_mod
        → Received (x ∷ xs) (process_primary_sample fl sha256 Doppler A x a).1

  abbrev pub Near : ℕ → Sample fl.F32 → Type 0
  Near first x = (first ≤ x.id) × (x.id < first + 50)

  -- The state after the samples before the last snapshot, which was taken at the first of `recent`.
  pub record Since (xs : List (Sample fl.F32)) (first : ℕ) (s : DemodState fl) : Type 0 where
    pub recent : List (Sample fl.F32)
    pub older : List (Sample fl.F32)
    pub parts : xs ≡ recent ++ older
    pub some_recent : 1 ≤ length recent
    pub near : All (Near first) recent
    pub before : s ≡ state_after older

  -- Where the manager stands.
  abbrev Stands : List (Sample fl.F32) → SnapshotManager fl sha256 → Type 0
  Stands xs m =
      ((latest fl sha256 m ≡ none) × (m.last_snapshot_sample ≡ 0) × All (Near 0) xs)
      ⊎ ((s : DemodulatorSnapshot fl sha256) × (latest fl sha256 m ≡ some s)
          × (s.sample_id ≡ m.last_snapshot_sample)
          × (50 ≤ m.last_snapshot_sample)
          × Since xs m.last_snapshot_sample s.state)

  pub record Tracks (xs : List (Sample fl.F32)) (a : Acquisition) : Type 0 where
    pub primary : a.primary_state ≡ state_after xs
    pub synced : a.shadow_active ≡ true → a.shadow_state ≡ state_after xs
    pub interval : a.snapshot_manager.snapshot_interval_samples ≡ 50
    pub most : a.snapshot_manager.max_snapshots ≡ 100
    pub few : length a.snapshot_manager.snapshots ≤ a.snapshot_manager.max_snapshots
    pub behind : a.snapshot_manager.last_snapshot_sample ≤ a.last_committed_sample
    pub close : a.last_committed_sample < a.snapshot_manager.last_snapshot_sample + 50
    pub stands : Stands xs a.snapshot_manager

  module _ (x : Sample fl.F32) (xs : List (Sample fl.F32)) (a : Acquisition) (v : Tracks xs a)
      (later : a.last_committed_sample ≤ x.id) where
    abbrev manager : SnapshotManager fl sha256
    manager = a.snapshot_manager

    Stands-kept : x.id < manager.last_snapshot_sample + 50 → Stands (x ∷ xs) manager
    Stands-kept h = elim v.stands [
      | inl (n, z, near) ↦ inl (n, z, (omega (arith, h, z), near))
      | inr (s, e, i, after, since) ↦ inr (
        s,
        e,
        i,
        after,
        record {
          recent = x ∷ since.recent;
          older = since.older;
          parts = ap (λ ys. x ∷ ys) since.parts;
          some_recent = omega arith;
          near = (omega (arith, h, v.behind, later), since.near);
          before = since.before;
        },
      )
    ]

    Stands-captured : 50 ≤ x.id → Stands (x ∷ xs) (captured fl sha256 a.primary_state x manager)
    unfolding capture
    Stands-captured after = inr (
      capture fl sha256 a.primary_state x,
      latest-captured fl sha256 a.primary_state x manager (omega (arith, v.most)),
      refl,
      after,
      record {
        recent = x ∷ [];
        older = xs;
        parts = refl;
        some_recent = omega arith;
        near = (omega arith, tt);
        before = v.primary;
      },
    )

    Tracks-process :
        x.id < u64_mod → Tracks (x ∷ xs) (process_primary_sample fl sha256 Doppler A x a).1
    unfolding process_primary_sample add_snapshot
    Tracks-process small =
        let next : (process_sample fl x a.primary_state).1 ≡ state_after (x ∷ xs) =
          ap (λ s. (process_sample fl x s).1) v.primary in
        let shadow_synced : a.shadow_active ≡ true
            → (if a.shadow_active then (process_sample fl x a.primary_state).1 else a.shadow_state)
              ≡ state_after (x ∷ xs) =
          λ active. rw active next in
        elim (capture_if_needed-cases fl sha256 a.primary_state x manager
          (omega (arith, v.behind, later)) small) [
            | inl (past, e) ↦
                rw (e, process_primary_sample)
                  (record {
                    primary = next;
                    synced = shadow_synced;
                    interval = v.interval;
                    most = v.most;
                    few = length-captured fl sha256 a.primary_state x manager v.few;
                    behind = omega arith;
                    close = omega arith;
                    stands = Stands-captured (omega (arith, past, v.interval));
                  })
            | inr (soon, e) ↦
                let near : x.id < manager.last_snapshot_sample + 50 =
                  omega (arith, soon, v.interval) in
                rw (e, process_primary_sample)
                  (record {
                    primary = next;
                    synced = shadow_synced;
                    interval = v.interval;
                    most = v.most;
                    few = v.few;
                    behind = omega (arith, v.behind, later);
                    close = near;
                    stands = Stands-kept near;
                  })
          ]

  pub Received-Tracks : {xs : List (Sample fl.F32)} {a : Acquisition} → Received xs a → Tracks xs a
  unfolding new Snapshot.new latest
  Received-Tracks (begins now pass_id primary shadow d) = record {
    primary = refl;
    synced = λ active. refl;
    interval = refl;
    most = refl;
    few = omega arith;
    behind = omega arith;
    close = omega arith;
    stands = inl (refl, refl, tt);
  }
  Received-Tracks (receives {xs} {a} r x later small) =
      Tracks-process x xs a (Received-Tracks r) later small

  -- What the last snapshot of the manager, if it has one, makes of the demodulator after these
  -- samples.
  abbrev pub Restored : List (Sample fl.F32) → SnapshotManager fl sha256 → DemodState fl → Type 0
  Restored xs m s =
      ((latest fl sha256 m ≡ none) × (s ≡ state_after xs) × All (Near 0) xs)
      ⊎ ((last : DemodulatorSnapshot fl sha256) × (latest fl sha256 m ≡ some last)
          × (50 ≤ last.sample_id)
          × Since xs last.sample_id s)

  restored-Restored :
      (xs : List (Sample fl.F32)) (a : Acquisition)
      → Tracks xs a
      → Restored xs a.snapshot_manager (restored fl sha256 Doppler A a)
  unfolding restored restore
  restored-Restored xs a v = elim v.stands [
    | inl (n, z, near) ↦ inl (n, rw (n, restored) v.primary, near)
    | inr (s, e, i, after, since) ↦ inr (
      s,
      e,
      omega (arith, i, after),
      subst (λ first. Since xs first (restored fl sha256 Doppler A a)) (sym i)
          (rw (e, restored) since),
    )
  ]

  -- After any samples whose identifiers never decrease, an acquisition with an active shadow holds
  -- for the shadow the demodulator's state of all of them. A promotion then succeeds, makes the
  -- shadow the primary and leaves no shadow. Either no snapshot was taken: then every identifier is
  -- below 50, and the demodulator is in the state of all the samples. Or the demodulator is set
  -- back: the last snapshot's identifier is 50 or more, and the demodulator is in the state before
  -- one or more of the last samples, whose identifiers lie within 50 from that of the snapshot on.
  pub promote_shadow-Received :
      {xs : List (Sample fl.F32)} {a : Acquisition} (handle : SdrHandle)
      → Received xs a
      → a.shadow ≡ some handle
      → a.shadow_active ≡ true
      → let (answer, a') = promote_shadow fl sha256 Doppler A a in
        (a.shadow_state ≡ state_after xs)
        × (answer ≡ ok tt)
        × (a'.primary ≡ handle)
        × (a'.shadow ≡ none)
        × (a'.shadow_active ≡ false)
        × Restored xs a.snapshot_manager a'.primary_state
  unfolding promote_shadow
  promote_shadow-Received {xs} {a} handle r e active =
      let v = Received-Tracks r in
      rw (e, promote_shadow) (v.synced active, refl, refl, refl, refl, restored-Restored xs a v)
