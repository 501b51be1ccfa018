-- ===== src/Hardware/Pool/Allocate.antt =====
-- What `HardwarePool::allocate` does to the devices.
use Prim.Native.String.{String}
use ground_core.Common.Tests.{
  ℕ, true, List, [], ◌∷◌, some, ite, ◌≡◌, refl, sym, arith, ◌⊎◌, inl, inr, String_discrete,
  Option-cases, Bool-cases, ap, ◌∙◌, subst, ◌↔◌,
}
use ground_core.Common.Lists.{All, Distinct, not_contains}
use ground_core.Common.Result.{ok, err, Result-cases}
use ground_core.Common.Maps.{get, insert, modify, get-modify, get-insert}
use ground_core.Hardware.Device
use ground_core.Hardware.Device.{HardwareDevice, HardwareError, not_found, not_available}
use ground_core.Hardware.Pool.Held.{
  Devices, assign, Free, Idle, HeldBy, assigned, All-Idle, All-HeldBy,
}
use ground_core.Hardware.Pool.{
  HardwarePool, HardwareAllocation, allocate, allocate_all, get_device, get_allocation,
}

-- The first step of the loop at a free device.
pub allocate_all_free :
    (pass_id d : String) (dev : HardwareDevice) (ds : List String) (m : Devices)
    → get String_discrete d m ≡ some dev
    → Device.is_available dev ≡ true
    → allocate_all pass_id (d ∷ ds) m
      ≡ allocate_all pass_id ds (modify String_discrete d (λ _. assign pass_id dev) m)
unfolding allocate_all Device.allocate
allocate_all_free pass_id d dev ds m e y = rw (e, allocate_all, y, Device.allocate)

-- The first step of the loop, by what the device is.
pub allocate_all-cons :
    (pass_id d : String) (ds : List String) (m : Devices)
    → ((dev : HardwareDevice) × (get String_discrete d m ≡ some dev)
        × (Device.is_available dev ≡ true)
        × (allocate_all pass_id (d ∷ ds) m
            ≡ allocate_all pass_id ds (modify String_discrete d (λ _. assign pass_id dev) m)))
      ⊎ ((e : HardwareError) × (allocate_all pass_id (d ∷ ds) m ≡ (err e, m)))
unfolding allocate_all Device.allocate
allocate_all-cons pass_id d ds m = elim (Option-cases (get String_discrete d m)) [
  | inl e ↦ inr (not_found d, rw (e, allocate_all))
  | inr (dev, e) ↦ elim (Bool-cases (Device.is_available dev)) [
    | inl y ↦ inl (dev, e, y, allocate_all_free pass_id d dev ds m e y)
    | inr n ↦ inr (not_available dev.device_id, rw (e, allocate_all, n, Device.allocate))
  ]
]

module _ (pass_id d : String) (dev : HardwareDevice) (m : Devices) where
  -- The map after the loop's write to `d`.
  abbrev pub written : Devices
  written = modify String_discrete d (λ _. assign pass_id dev) m

  module _ (found : get String_discrete d m ≡ some dev) where
    pub get-written :
        (j : String)
        → get String_discrete j written
          ≡ ite (String_discrete d j) (some (assign pass_id dev)) (get String_discrete j m)
    get-written j = ground (arith, get-modify String_discrete j d (λ _. assign pass_id dev) m)

    Free-before : (j : String) → Free written j → (¬ (d ≡ j)) × Free m j
    unfolding Device.is_available
    Free-before j (x, e, a) = elim (String_discrete d j) [
      | yes p ↦ absurd (ground (arith, get-written j))
      | no n ↦ (n, (x, ground (arith, get-written j), a))
    ]

    Free-after : (j : String) → (¬ (d ≡ j)) × Free m j → Free written j
    Free-after j (n, (x, e, a)) = (x, ground (arith, get-written j), a)

  All-Free-before :
      get String_discrete d m ≡ some dev
      → (ds : List String) → All (Free written) ds
      → All (λ j. ¬ (d ≡ j)) ds × All (Free m) ds
  All-Free-before found [] h = (tt, tt)
  All-Free-before found (x ∷ ds) h =
      let (n, f) = Free-before found x h.0 in
      let (ns, fs) = All-Free-before found ds h.1 in ((n, ns), (f, fs))

  All-Free-after :
      get String_discrete d m ≡ some dev
      → (ds : List String) → All (λ j. ¬ (d ≡ j)) ds
      → All (Free m) ds
      → All (Free written) ds
  All-Free-after found [] ns fs = tt
  All-Free-after found (x ∷ ds) ns fs =
      (Free-after found x (ns.0, fs.0), All-Free-after found ds ns.1 fs.1)

assigned-cons :
    (pass_id d : String) (dev : HardwareDevice) (ds : List String) (m : Devices)
    → get String_discrete d m ≡ some dev
    → All (λ j. ¬ (d ≡ j)) ds
    → (j : String) → assigned pass_id ds (written pass_id d dev m) j ≡ assigned pass_id (d ∷ ds) m j
assigned-cons pass_id d dev ds m found ne j = elim (String_discrete d j) [
  | yes p ↦ ground (
    arith,
    get-written pass_id d dev m found j,
    not_contains String_discrete j ds (subst (λ k. All (λ i. ¬ (k ≡ i)) ds) p ne),
  )
  | no n ↦ ground (arith, get-written pass_id d dev m found j)
]

-- The loop succeeds on distinct free devices.
pub allocate_all-total :
    (pass_id : String) (ds : List String) (m : Devices)
    → All (Free m) ds
    → Distinct ds
    → (allocate_all pass_id ds m).0 ≡ ok tt
allocate_all-total pass_id [] m f n = unfold allocate_all in refl
allocate_all-total pass_id (d ∷ ds) m f n =
    let (dev, found, y) = f.0 in
    rw (allocate_all_free pass_id d dev ds m found y) (
      allocate_all-total pass_id ds (written pass_id d dev m)
        (All-Free-after pass_id d dev m found ds n.0 f.1) n.1)

-- What success of the loop says of the devices before and after.
pub allocate_all-ok :
    (pass_id : String) (ds : List String) (m : Devices)
    → (allocate_all pass_id ds m).0 ≡ ok tt
    → All (Free m) ds
      × Distinct ds
      × ((j : String)
          → get String_discrete j (allocate_all pass_id ds m).1 ≡ assigned pass_id ds m j)
allocate_all-ok pass_id [] m h = (tt, tt, λ j. unfold allocate_all in refl)
allocate_all-ok pass_id (d ∷ ds) m h = elim (allocate_all-cons pass_id d ds m) [
  | inl (dev, found, y, e) ↦
      let m' = written pass_id d dev m in
      let (free, distinct, after) = allocate_all-ok pass_id ds m' (ap (λ r. r.0) (sym e) ∙ h) in
      let (ne, free') = All-Free-before pass_id d dev m found ds free in
      (
        ((dev, found, y), free'),
        (ne, distinct),
        λ j. rw (e, after j) (assigned-cons pass_id d dev ds m found ne j),
      )
  | inr (x, e) ↦ absurd (let q = ap (λ r. r.0) (sym e) ∙ h in cc)
]

-- The record that a successful call returns and stores.
abbrev pub allocation_of : String → List String → ℕ → ℕ → HardwareAllocation
allocation_of pass_id ds duration_sec now = record {
  pass_id = pass_id;
  devices = ds;
  allocated_at = now;
  expected_duration_sec = duration_sec;
}

module _ (pass_id : String) (ds : List String) (duration_sec now : ℕ) (p : HardwarePool) where
  -- By whether the loop succeeds.
  pub allocate-cases :
      (((allocate_all pass_id ds p.devices).0 ≡ ok tt)
        × (allocate pass_id ds duration_sec now p ≡ (
          ok (allocation_of pass_id ds duration_sec now),
          record p {
            devices = (allocate_all pass_id ds p.devices).1;
            allocations =
                insert String_discrete pass_id
                  (allocation_of pass_id ds duration_sec now)
                  p.allocations;
          },
        )))
      ⊎ ((e : HardwareError) × ((allocate_all pass_id ds p.devices).0 ≡ err e)
          × (allocate pass_id ds duration_sec now p
              ≡ (err e, record p { devices = (allocate_all pass_id ds p.devices).1 })))
  unfolding allocate
  allocate-cases = elim (Result-cases (allocate_all pass_id ds p.devices).0) [
    | inl (tt, e) ↦ inl (e, rw (e, allocate))
    | inr (x, e) ↦ inr (x, e, rw (e, allocate))
  ]

  -- `allocate` succeeds exactly if the devices asked for are distinct and each of them is in the
  -- pool, healthy and not allocated.
  pub allocate_ok_iff :
      ((allocate pass_id ds duration_sec now p).0 ≡ ok (allocation_of pass_id ds duration_sec now))
      ↔ (All (Free p.devices) ds × Distinct ds)
  allocate_ok_iff = (
    λ h. elim allocate-cases [
      | inl (r, e) ↦ let (f, n, _) = allocate_all-ok pass_id ds p.devices r in (f, n)
      | inr (x, r, e) ↦ absurd (let q = ap (λ s. s.0) (sym e) ∙ h in cc)
    ],
    λ h. elim allocate-cases [
      | inl (r, e) ↦ ap (λ s. s.0) e
      | inr (x, r, e) ↦
          absurd (let q = sym r ∙ allocate_all-total pass_id ds p.devices h.0 h.1 in cc)
    ],
  )

  -- A successful `allocate` has found every device asked for in the pool, healthy and
  -- allocated to no pass, and no device twice in the request. After it each of these devices belongs to the
  -- pass and is otherwise as it was, every other device is as it was, the pass has the new
  -- allocation on record, every other pass the one it had, and the circuit breakers are as they
  -- were.
  pub allocate_effect :
      {a : HardwareAllocation}
      → (allocate pass_id ds duration_sec now p).0 ≡ ok a
      → let p' = (allocate pass_id ds duration_sec now p).1 in
        ((j : String) → get_device j p' ≡ assigned pass_id ds p.devices j)
        × ((q : String)
            → get_allocation q p'
              ≡ ite
                  (String_discrete pass_id q)
                  (some (allocation_of pass_id ds duration_sec now))
                  (get_allocation q p))
        × (p'.circuit_breakers ≡ p.circuit_breakers)
        × All (Idle p.devices) ds
        × Distinct ds
        × All (HeldBy pass_id p'.devices) ds
  unfolding get_device get_allocation
  allocate_effect h = elim allocate-cases [
    | inl (r, e) ↦
        let (free, distinct, after) = allocate_all-ok pass_id ds p.devices r in
        rw e (
          after,
          λ q. get-insert String_discrete q pass_id _ p.allocations,
          refl,
          All-Idle p.devices ds free,
          distinct,
          All-HeldBy pass_id ds p.devices (allocate_all pass_id ds p.devices).1 free after,
        )
    | inr (x, r, e) ↦ absurd (let q = ap (λ s. s.0) (sym e) ∙ h in cc)
  ]
