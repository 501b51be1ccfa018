-- ===== src/Hardware/Pool/Keys.antt =====
-- The keys of the devices in the histories of a pool, and what they mean for `find_available`.
use Prim.Native.String.{String}
use ground_core.Common.Tests.{
  ℕ, false, List, [], ◌∷◌, some, ◌≡◌, refl, arith, inl, inr, if_pos, if_neg, String_discrete, sym,
  ◌∙◌, Option-cases, ◌≤◌,
}
use ground_core.Common.Lists.{All, Distinct, length}
use ground_core.Common.Result.{ok}
use ground_core.Common.Maps.{get, insert, modify, keys, insert-Distinct, modify-Distinct}
use ground_core.Hardware.Device
use ground_core.Hardware.Device.{HardwareDevice, HardwareType}
use ground_core.Hardware.Pool.{
  HardwarePool, new, add_device, find_available, allocate, allocate_all, release, release_all,
  release_or_keep, check_health, mark_unhealthy, record_success,
}
use ground_core.Hardware.Pool.Held.{Devices, assign}
use ground_core.Hardware.Pool.Allocate.{written, allocate-cases, allocate_all-cons, allocation_of}
use ground_core.Hardware.Pool.Release.{release_found}
use ground_core.Hardware.Pool.Find.{Keyed, Offered, find_available_sound, allocate-find_available}
use ground_core.Hardware.Pool.Owners.{
  Call, adds, finds, allocates, releases, checks, marks, succeeds, step,
}

-- Devices under their own identifiers, each once.
abbrev pub WellKeyed : Devices → Type 0
WellKeyed m = Keyed m × Distinct (keys m)

get-Keyed :
    (k : String) (m : Devices) {d : HardwareDevice}
    → Keyed m
    → get String_discrete k m ≡ some d
    → d.device_id ≡ k
unfolding get
get-Keyed k [] h e = cc
get-Keyed k ((j, v) ∷ m) {d} h e = ground (arith, get-Keyed k m {d = d} h.1)

insert-Keyed :
    (d : HardwareDevice) (m : Devices) → Keyed m → Keyed (insert String_discrete d.device_id d m)
unfolding insert
insert-Keyed d [] h = (refl, tt)
insert-Keyed d ((j, v) ∷ m) h = ground (arith, insert-Keyed d m h.1)

modify-Keyed :
    (k : String) (f : HardwareDevice → HardwareDevice) (m : Devices)
    → ((d : HardwareDevice) → d.device_id ≡ k → (f d).device_id ≡ k)
    → Keyed m
    → Keyed (modify String_discrete k f m)
unfolding modify
modify-Keyed k f [] g h = tt
modify-Keyed k f ((j, v) ∷ m) g h = elim (String_discrete j k) [
  | yes p ↦ rw (if_pos _ p) (g v (h.0 ∙ p) ∙ sym p, h.1)
  | no n ↦ rw (if_neg _ n) (h.0, modify-Keyed k f m g h.1)
]

modify-WellKeyed :
    (k : String) (f : HardwareDevice → HardwareDevice) (m : Devices)
    → ((d : HardwareDevice) → d.device_id ≡ k → (f d).device_id ≡ k)
    → WellKeyed m
    → WellKeyed (modify String_discrete k f m)
modify-WellKeyed k f m g h = (modify-Keyed k f m g h.0, modify-Distinct String_discrete k f m h.1)

allocate_all-WellKeyed :
    (q : String) (ds : List String) (m : Devices) → WellKeyed m → WellKeyed (allocate_all q ds m).1
allocate_all-WellKeyed q [] m h = unfold allocate_all in h
allocate_all-WellKeyed q (d ∷ ds) m h = elim (allocate_all-cons q d ds m) [
  | inl (dev, found, y, e) ↦ rw e (
      allocate_all-WellKeyed q ds (written q d dev m)
        (modify-WellKeyed d (λ _. assign q dev) m (λ _ _. get-Keyed d m h.0 found) h))
  | inr (x, e) ↦ rw e h
]

release_or_keep-device_id :
    (q : String) (d : HardwareDevice) → (release_or_keep q d).device_id ≡ d.device_id
unfolding release_or_keep Device.release
release_or_keep-device_id q d = ground arith

release_all-WellKeyed :
    (q : String) (ds : List String) (m : Devices) → WellKeyed m → WellKeyed (release_all q ds m)
unfolding release_all
release_all-WellKeyed q [] m h = h
release_all-WellKeyed q (d ∷ ds) m h =
    release_all-WellKeyed q ds (modify String_discrete d (release_or_keep q) m)
      (modify-WellKeyed d (release_or_keep q) m (λ x e. release_or_keep-device_id q x ∙ e) h)

allocate-WellKeyed :
    (q : String) (ds : List String) (duration now : ℕ) (p : HardwarePool)
    → WellKeyed p.devices
    → WellKeyed (allocate q ds duration now p).1.devices
allocate-WellKeyed q ds duration now p h =
    let h' = allocate_all-WellKeyed q ds p.devices h in
    elim (allocate-cases q ds duration now p) [ inl (_, e) ↦ rw e h' | inr (_, _, e) ↦ rw e h' ]

release-WellKeyed :
    (q : String) (p : HardwarePool) → WellKeyed p.devices → WellKeyed (release q p).1.devices
unfolding release
release-WellKeyed q p h = elim (Option-cases (get String_discrete q p.allocations)) [
  | inl e ↦ rw (e, release) h
  | inr (a, e) ↦ rw (release_found q p a e) (release_all-WellKeyed q a.devices p.devices h)
]

module _ (j : String) (now : ℕ) (p : HardwarePool) (h : WellKeyed p.devices) where
  check_health-WellKeyed : WellKeyed (check_health j now p).1.devices
  unfolding check_health
  check_health-WellKeyed = elim (Option-cases (get String_discrete j p.devices)) [
    | inl e ↦ rw (e, check_health) h
    | inr (d, e) ↦
        rw (e, check_health)
          (modify-WellKeyed j (λ x. record x { last_health_check = now }) p.devices (λ x r. r) h)
  ]

  mark_unhealthy-WellKeyed : WellKeyed (mark_unhealthy j now p).1.devices
  unfolding mark_unhealthy
  mark_unhealthy-WellKeyed = elim (Option-cases (get String_discrete j p.devices)) [
    | inl e ↦ rw (e, mark_unhealthy) h
    | inr (d, e) ↦
        rw (e, mark_unhealthy)
          (modify-WellKeyed j (λ x. record x { healthy = false }) p.devices (λ x r. r) h)
  ]

step-WellKeyed : (c : Call) (p : HardwarePool) → WellKeyed p.devices → WellKeyed (step c p).devices
unfolding step record_success add_device find_available
step-WellKeyed (adds d) p h =
    (insert-Keyed d p.devices h.0, insert-Distinct String_discrete d.device_id d p.devices h.1)
step-WellKeyed (finds clock ty count) p h = h
step-WellKeyed (allocates q ds duration now) p h = allocate-WellKeyed q ds duration now p h
step-WellKeyed (releases q) p h = release-WellKeyed q p h
step-WellKeyed (checks j now) p h = check_health-WellKeyed j now p h
step-WellKeyed (marks j now) p h = mark_unhealthy-WellKeyed j now p h
step-WellKeyed (succeeds j) p h = h

-- A new pool after any calls, the latest at the head.
unfoldable pub after : List Call → HardwarePool
after [] = new
after (c ∷ cs) = step c (after cs)

pub after-WellKeyed : (cs : List Call) → WellKeyed (after cs).devices
unfolding after new
after-WellKeyed [] = (tt, tt)
after-WellKeyed (c ∷ cs) = step-WellKeyed c (after cs) (after-WellKeyed cs)

module _ (clock : String → ℕ) (ty : HardwareType) (count : ℕ) (cs : List Call) where
  -- After any calls of the methods of a new pool, `find_available` returns at most `count` distinct
  -- identifiers, of devices of the type asked for that are healthy, not allocated, and whose
  -- circuit breaker permits an allocation at the time it is looked at; it changes neither the
  -- devices nor the allocations on record.
  pub after-find_available :
      let (ids, p') = find_available clock ty count (after cs) in
      All (Offered clock ty (after cs).devices (after cs).circuit_breakers) ids
      × Distinct ids
      × (length ids ≤ count)
      × (p'.devices ≡ (after cs).devices)
      × (p'.allocations ≡ (after cs).allocations)
  after-find_available =
      let (k, d) = after-WellKeyed cs in find_available_sound clock ty count (after cs) k d

  -- After any calls of the methods of a new pool, also such that add a device under an identifier
  -- that is taken, an `allocate` of what `find_available` has just returned succeeds, for any pass.
  pub after-allocate-find_available :
      (pass_id : String) (duration_sec now : ℕ)
      → let (ids, p') = find_available clock ty count (after cs) in
        (allocate pass_id ids duration_sec now p').0
        ≡ ok (allocation_of pass_id ids duration_sec now)
  after-allocate-find_available pass_id duration_sec now =
      let (k, d) = after-WellKeyed cs in
      allocate-find_available clock ty count pass_id duration_sec now (after cs) k d
