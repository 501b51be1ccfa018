-- ===== src/Hardware/Pool/Release.antt =====
-- What `HardwarePool::release` does to the devices, also after `allocate`.
use Prim.Native.String.{String}
use mathlib.Core.Option
use ground_core.Common.Tests.{
  ℕ, true, List, [], ◌∷◌, Option, none, some, ◌≡◌, refl, arith, inl, inr, ite, String_discrete, ap,
  sym, ◌∙◌, if◌then◌else◌, Bool-cases,
}
use ground_core.Common.Lists.{contains, All, All-contains}
use ground_core.Common.Result.{ok}
use ground_core.Common.Maps.{
  get, insert, remove, modify, get-modify, get-insert, get-insert_self, get-remove,
}
use ground_core.Hardware.Device
use ground_core.Hardware.Device.{HardwareDevice}
use ground_core.Hardware.Pool.{
  HardwarePool, HardwareAllocation, allocate, allocate_all, release, release_all, release_or_keep,
  get_device, get_allocation,
}
use ground_core.Hardware.Pool.Held.{Devices, Free, HeldBy, assign, assigned}
use ground_core.Hardware.Pool.Allocate.{allocation_of, allocate-cases, allocate_all-ok}

module _ (pass_id : String) where
  release_or_keep_idem :
      (d : HardwareDevice)
      → release_or_keep pass_id (release_or_keep pass_id d) ≡ release_or_keep pass_id d
  unfolding release_or_keep Device.release
  release_or_keep_idem d = ground arith

  -- A device that another pass holds is kept.
  release_or_keep_other :
      (q : String) (d : HardwareDevice)
      → d.current_allocation ≡ some q
      → ¬ (pass_id ≡ q)
      → release_or_keep pass_id d ≡ d
  unfolding release_or_keep Device.release
  release_or_keep_other q d e n = ground arith

  -- A device given to the pass is free again.
  release_or_keep-assign :
      (d : HardwareDevice)
      → Device.is_available d ≡ true
      → release_or_keep pass_id (assign pass_id d) ≡ d
  unfolding release_or_keep Device.release Device.is_available
  release_or_keep-assign d y = ground arith

  map-release_or_keep_idem :
      (o : Option HardwareDevice)
      → Option.map (release_or_keep pass_id) (Option.map (release_or_keep pass_id) o)
        ≡ Option.map (release_or_keep pass_id) o
  map-release_or_keep_idem none = refl
  map-release_or_keep_idem (some d) = ap some (release_or_keep_idem d)

  pub get-release_all :
      (ds : List String) (m : Devices) (j : String)
      → get String_discrete j (release_all pass_id ds m) ≡ (
          if contains String_discrete ds j
          then Option.map (release_or_keep pass_id) (get String_discrete j m)
          else get String_discrete j m)
  unfolding release_all
  get-release_all [] m j = refl
  get-release_all (d ∷ ds) m j = ground (
    arith,
    get-release_all ds (modify String_discrete d (release_or_keep pass_id) m) j,
    get-modify String_discrete j d (release_or_keep pass_id) m,
    map-release_or_keep_idem (get String_discrete j m),
  )

  -- Another pass keeps what it holds.
  pub release_all-HeldBy :
      (q : String) (ds : List String) (m : Devices) (j : String)
      → ¬ (pass_id ≡ q)
      → HeldBy q m j
      → HeldBy q (release_all pass_id ds m) j
  release_all-HeldBy q ds m j n (d, e, h) =
      (d, ground (arith, get-release_all ds m j, release_or_keep_other q d h n), h)

  -- Taking the devices of a list back from a pass, read at one key.
  pub released-assigned :
      (ds : List String) (m : Devices)
      → All (Free m) ds
      → (j : String)
      → (if contains String_discrete ds j
          then Option.map (release_or_keep pass_id) (assigned pass_id ds m j)
          else assigned pass_id ds m j)
        ≡ get String_discrete j m
  released-assigned ds m free j = elim (Bool-cases (contains String_discrete ds j)) [
    | inl y ↦
        let (d, e, a) = All-contains String_discrete (Free m) j ds free y in
        rw (y, e) (ap some (release_or_keep-assign d a))
    | inr n ↦ rw n refl
  ]

pub release_found :
    (pass_id : String) (p : HardwarePool) (a : HardwareAllocation)
    → get String_discrete pass_id p.allocations ≡ some a
    → release pass_id p ≡ (
      ok tt,
      record p {
        devices = release_all pass_id a.devices p.devices;
        allocations = remove String_discrete pass_id p.allocations;
      },
    )
unfolding release
release_found pass_id p a e = rw (e, release)

-- A successful `allocate` followed by `release` succeeds and gives back every device of the pool as
-- it was; the pass has no allocation on record then, and every other pass the one it had.
pub release-allocate :
    (pass_id : String) (ds : List String) (duration_sec now : ℕ) (p : HardwarePool)
    {a : HardwareAllocation}
    → (allocate pass_id ds duration_sec now p).0 ≡ ok a
    → let (result, p') = release pass_id (allocate pass_id ds duration_sec now p).1 in
      (result ≡ ok tt)
      × ((j : String) → get_device j p' ≡ get_device j p)
      × ((q : String)
          → get_allocation q p' ≡ ite (String_discrete pass_id q) none (get_allocation q p))
unfolding get_device get_allocation
release-allocate pass_id ds duration_sec now p h =
    elim (allocate-cases pass_id ds duration_sec now p) [
      | inl (r, e) ↦
          let (free, _, after) = allocate_all-ok pass_id ds p.devices r in
          let a = allocation_of pass_id ds duration_sec now in
          let found : get String_discrete pass_id (insert String_discrete pass_id a p.allocations)
              ≡ some a =
            get-insert_self String_discrete pass_id a p.allocations in
          let m' = (allocate_all pass_id ds p.devices).1 in
          let p' : HardwarePool = record p {
            devices = m';
            allocations = insert String_discrete pass_id a p.allocations;
          } in
          rw (e, release_found pass_id p' a found)
            (
              refl,
              λ j. ground (
                arith,
                get-release_all pass_id ds m' j,
                after j,
                released-assigned pass_id ds p.devices free j,
              ),
              λ q. ground (
                arith,
                get-remove String_discrete q pass_id
                    (insert String_discrete pass_id a p.allocations),
                get-insert String_discrete q pass_id a p.allocations,
              ),
            )
      | inr (_, _, e) ↦ absurd (let q = ap (λ s. s.0) (sym e) ∙ h in cc)
    ]
