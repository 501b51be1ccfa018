-- ===== src/Hardware/Pool/Owners.antt =====
-- The histories of a pool, and the owners of its devices in each.
use Prim.Native.String.{String}
use ground_core.Common.Tests.{
  ℕ, true, false, List, none, some, ◌≡◌, ◌≢◌, refl, arith, inl, inr, String_discrete, ◌∙◌, subst,
  Bool-cases, Option-cases,
}
use ground_core.Common.Lists.{contains, All, All-contains, All-zip, contains_self, All-map}
use ground_core.Common.Maps.{get, modify, get-modify, get-insert, get-remove}
use ground_core.Hardware.Device.{HardwareDevice, HardwareType}
use ground_core.Hardware.Pool.{
  HardwarePool, HardwareAllocation, new, add_device, find_available, allocate, allocate_all,
  release, release_all, check_health, mark_unhealthy, record_success, get_device, get_allocation,
}
use ground_core.Hardware.Pool.Held.{Devices, HeldBy, Free, assigned}
use ground_core.Hardware.Pool.Allocate.{allocation_of, allocate-cases, allocate_all-ok}
use ground_core.Hardware.Pool.Leak.{allocate_all-HeldBy}
use ground_core.Hardware.Pool.Release.{release_found, release_all-HeldBy}

-- The calls that change the pool.
pub data Call : Type 0 where
  adds : HardwareDevice → Call
  finds : (String → ℕ) → HardwareType → ℕ → Call
  allocates : String → List String → ℕ → ℕ → Call
  releases : String → Call
  checks : String → ℕ → Call
  marks : String → ℕ → Call
  succeeds : String → Call

unfoldable pub step : Call → HardwarePool → HardwarePool
step (adds d) p = add_device d p
step (finds clock ty count) p = (find_available clock ty count p).1
step (allocates q ds duration now) p = (allocate q ds duration now p).1
step (releases q) p = (release q p).1
step (checks j now) p = (check_health j now p).1
step (marks j now) p = (mark_unhealthy j now p).1
step (succeeds j) p = record_success j p

-- `add_device` would replace a device of the same identifier: it is called with new ones.
abbrev pub Permitted : Call → HardwarePool → Type 0
Permitted (adds d) p = get_device d.device_id p ≡ none
Permitted _ p = Unit {0}

pub data Reach : HardwarePool → Type 0 where
  start : Reach new
  next : {p : HardwarePool} → Reach p → (c : Call) → Permitted c p → Reach (step c p)

-- Every allocation on record holds its devices.
pub record Backed (p : HardwarePool) : Type 0 where
  pub holds :
      (q : String) (a : HardwareAllocation)
      → get_allocation q p ≡ some a
      → All (HeldBy q p.devices) a.devices

new-Backed : Backed new
unfolding new get_allocation get
new-Backed = record { holds = λ q a h. cc }

-- A write that keeps every device's owner keeps every holding.
modify-HeldBy :
    (j q i : String) (f : HardwareDevice → HardwareDevice) (m : Devices)
    → ((d : HardwareDevice) → (f d).current_allocation ≡ d.current_allocation)
    → HeldBy q m i
    → HeldBy q (modify String_discrete j f m) i
modify-HeldBy j q i f m keeps (d, e, h) = elim (String_discrete j i) [
  | yes p ↦ (f d, ground (arith, get-modify String_discrete i j f m), keeps d ∙ h)
  | no n ↦ (d, ground (arith, get-modify String_discrete i j f m), h)
]

module _ (p : HardwarePool) (v : Backed p) where
  -- The allocations stay, and so do the holdings.
  keep :
      (p' : HardwarePool)
      → p'.allocations ≡ p.allocations
      → ((q i : String) → HeldBy q p.devices i → HeldBy q p'.devices i)
      → Backed p'
  unfolding get_allocation
  keep p' e h = record {
    holds = λ q a found.
        All-map (HeldBy q p.devices) (HeldBy q p'.devices) (h q) a.devices
          (v.holds q a (rw (← e) found));
  }

  add_device-Backed :
      (d : HardwareDevice) → get_device d.device_id p ≡ none → Backed (add_device d p)
  unfolding add_device get_device
  add_device-Backed d fresh = keep _ refl λ q i held.
      let (x, e, h) = held in
      (x, ground (arith, get-insert String_discrete i d.device_id d p.devices), h)

  find_available-Backed :
      (clock : String → ℕ) (ty : HardwareType) (count : ℕ)
      → Backed (find_available clock ty count p).1
  unfolding find_available
  find_available-Backed clock ty count = keep _ refl λ q i held. held

  check_health-Backed : (j : String) (now : ℕ) → Backed (check_health j now p).1
  unfolding check_health
  check_health-Backed j now = elim (Option-cases (get String_discrete j p.devices)) [
    | inl e ↦ rw (e, check_health) v
    | inr (d, e) ↦
        rw (e, check_health)
          (keep _ refl λ q i.
            modify-HeldBy j q i (λ x. record x { last_health_check = now }) p.devices λ x. refl)
  ]

  mark_unhealthy-Backed : (j : String) (now : ℕ) → Backed (mark_unhealthy j now p).1
  unfolding mark_unhealthy
  mark_unhealthy-Backed j now = elim (Option-cases (get String_discrete j p.devices)) [
    | inl e ↦ rw (e, mark_unhealthy) v
    | inr (d, e) ↦
        rw (e, mark_unhealthy)
          (keep _ refl
            λ q i. modify-HeldBy j q i (λ x. record x { healthy = false }) p.devices λ x. refl)
  ]

  release-Backed : (q : String) → Backed (release q p).1
  unfolding get_allocation release
  release-Backed q = elim (Option-cases (get String_discrete q p.allocations)) [
    | inl e ↦ rw (e, release) v
    | inr (a, e) ↦ rw (release_found q p a e) (record {
      holds = λ q' a' found. elim (String_discrete q q') [
        | yes s ↦ absurd (ground (arith, get-remove String_discrete q' q p.allocations))
        | no n ↦
            All-map (HeldBy q' p.devices) (HeldBy q' (release_all q a.devices p.devices))
              (λ j. release_all-HeldBy q q' a.devices p.devices j n) a'.devices
              (v.holds q' a' (ground (arith, get-remove String_discrete q' q p.allocations)))
      ];
    })
  ]

-- What the loop of a successful `allocate` gives to the pass.
allocate_all-gives :
    (q : String) (ds : List String) (m m' : Devices)
    → All (Free m) ds
    → ((j : String) → get String_discrete j m' ≡ assigned q ds m j)
    → All (HeldBy q m') ds
allocate_all-gives q ds m m' free after =
    All-map (λ j. Free m j × (contains String_discrete ds j ≡ true)) (HeldBy q m')
      (λ j h. (record h.0.0 { current_allocation = some q }, after j ∙ rw (h.1, h.0.1) refl, refl))
      ds
      (All-zip (Free m) (λ j. contains String_discrete ds j ≡ true) ds free
        (contains_self String_discrete ds))

allocate-Backed :
    (p : HardwarePool)
    → Backed p
    → (q : String) (ds : List String) (duration now : ℕ) → Backed (allocate q ds duration now p).1
unfolding get_allocation
allocate-Backed p v q ds duration now = elim (allocate-cases q ds duration now p) [
  | inl (r, e) ↦
      let a = allocation_of q ds duration now in
      let m' = (allocate_all q ds p.devices).1 in
      let (free, _, after) = allocate_all-ok q ds p.devices r in
      rw e (record {
        holds = λ q' a' found. elim (String_discrete q q') [
          | yes s ↦
              let same : a ≡ a' = ground (arith, get-insert String_discrete q' q a p.allocations) in
              subst (λ x. All (HeldBy q' m') x.devices) same
                (subst (λ x. All (HeldBy x m') ds) s
                  (allocate_all-gives q ds p.devices m' free after))
          | no n ↦
              All-map (HeldBy q' p.devices) (HeldBy q' m')
                (λ j. allocate_all-HeldBy q' j q ds p.devices) a'.devices
                (v.holds q' a' (ground (arith, get-insert String_discrete q' q a p.allocations)))
        ];
      })
  | inr (_, _, e) ↦ rw e (keep p v _ refl (λ q' j. allocate_all-HeldBy q' j q ds p.devices))
]

step-Backed : (c : Call) (p : HardwarePool) → Permitted c p → Backed p → Backed (step c p)
unfolding step record_success
step-Backed (adds d) p h v = add_device-Backed p v d h
step-Backed (finds clock ty count) p h v = find_available-Backed p v clock ty count
step-Backed (allocates q ds duration now) p h v = allocate-Backed p v q ds duration now
step-Backed (releases q) p h v = release-Backed p v q
step-Backed (checks j now) p h v = check_health-Backed p v j now
step-Backed (marks j now) p h v = mark_unhealthy-Backed p v j now
step-Backed (succeeds j) p h v = keep p v _ refl (λ q i held. held)

-- In every history of a pool in which devices are added under new identifiers only, each
-- allocation on record holds all of its devices: each is in the pool and belongs to the pass.
pub Reach-Backed : {p : HardwarePool} → Reach p → Backed p
Reach-Backed start = new-Backed
Reach-Backed (next {p} r c h) = step-Backed c p h (Reach-Backed r)

shared_owner :
    {p : HardwarePool} (q q' j : String) {a a' : HardwareAllocation}
    → Reach p
    → get_allocation q p ≡ some a
    → get_allocation q' p ≡ some a'
    → contains String_discrete a.devices j ≡ true
    → contains String_discrete a'.devices j ≡ true
    → q ≡ q'
shared_owner {p} q q' j {a} {a'} r e e' h h' =
    let v = Reach-Backed r in
    let (d, f, o) =
      All-contains String_discrete (HeldBy q p.devices) j a.devices (v.holds q a e) h in
    let (d', f', o') =
      All-contains String_discrete (HeldBy q' p.devices) j a'.devices (v.holds q' a' e') h' in
    ground arith

-- In every history of a pool in which devices are added under new identifiers only, two different
-- passes with allocations on record have no device in common.
pub Reach-exclusive :
    {p : HardwarePool} (q q' : String) {a a' : HardwareAllocation}
    → Reach p
    → q ≢ q'
    → get_allocation q p ≡ some a
    → get_allocation q' p ≡ some a'
    → (j : String) → contains String_discrete a.devices j ≡ true
    → contains String_discrete a'.devices j ≡ false
Reach-exclusive q q' {a} {a'} r n e e' j h =
    elim (Bool-cases (contains String_discrete a'.devices j)) [
      | inl h' ↦ absurd (n (shared_owner q q' j {a = a} {a' = a'} r e e' h h'))
      | inr h' ↦ h'
    ]
