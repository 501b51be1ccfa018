-- ===== src/Hardware/Pool/Leak.antt =====
-- What a failing `HardwarePool::allocate` leaves behind.
use Prim.Native.String.{String}
use ground_core.Common.Tests.{
  ℕ, true, List, [], ◌∷◌, none, some, ◌≡◌, refl, arith, inl, inr, String_discrete, ap, sym, ◌∙◌,
  subst,
}
use ground_core.Common.Result.{err}
use ground_core.Common.Maps.{get}
use ground_core.Hardware.Device
use ground_core.Hardware.Device.{HardwareDevice, HardwareError, no_allocation}
use ground_core.Hardware.Pool.{HardwarePool, allocate, allocate_all, release, get_allocation}
use ground_core.Hardware.Pool.Held.{Devices, Free, HeldBy, assign}
use ground_core.Hardware.Pool.Allocate.{
  allocate_all_free, allocate_all-cons, allocate-cases, written, get-written,
}

module _ (q j : String) where
  -- A device that some pass holds is not free, so the loop does not write to it.
  written-HeldBy :
      (pass_id d : String) (dev : HardwareDevice) (m : Devices)
      → get String_discrete d m ≡ some dev
      → Device.is_available dev ≡ true
      → HeldBy q m j
      → HeldBy q (written pass_id d dev m) j
  unfolding Device.is_available
  written-HeldBy pass_id d dev m found y (x, e, h) = elim (String_discrete d j) [
    | yes p ↦
        absurd (let e' = subst (λ k. get String_discrete k m ≡ some dev) p found in ground arith)
    | no n ↦ (x, ground (arith, get-written pass_id d dev m found j), h)
  ]

  pub allocate_all-HeldBy :
      (pass_id : String) (ds : List String) (m : Devices)
      → HeldBy q m j
      → HeldBy q (allocate_all pass_id ds m).1 j
  allocate_all-HeldBy pass_id [] m h = unfold allocate_all in h
  allocate_all-HeldBy pass_id (d ∷ ds) m h = elim (allocate_all-cons pass_id d ds m) [
    | inl (dev, found, y, e) ↦ rw e (
        allocate_all-HeldBy pass_id ds (written pass_id d dev m)
          (written-HeldBy pass_id d dev m found y h))
    | inr (x, e) ↦ rw e h
  ]

  -- Whatever its result, `allocate` takes no device from the pass that holds it.
  allocate-HeldBy :
      (pass_id : String) (ds : List String) (duration_sec now : ℕ) (p : HardwarePool)
      → HeldBy q p.devices j
      → HeldBy q (allocate pass_id ds duration_sec now p).1.devices j
  allocate-HeldBy pass_id ds duration_sec now p h =
      let held = allocate_all-HeldBy pass_id ds p.devices h in
      elim (allocate-cases pass_id ds duration_sec now p) [
        | inl (_, e) ↦ rw e held
        | inr (_, _, e) ↦ rw e held
      ]

-- Where `allocate` fails for a pass with no allocation on record, and the first device asked for
-- was free, that device belongs to the pass afterwards; the pass still has no allocation on record,
-- so `release` refuses it and leaves the pool as it is.
pub allocate-err_leaks :
    (pass_id d : String) (ds : List String) (duration_sec now : ℕ) (p : HardwarePool)
    {e : HardwareError}
    → Free p.devices d
    → get_allocation pass_id p ≡ none
    → (allocate pass_id (d ∷ ds) duration_sec now p).0 ≡ err e
    → let p' = (allocate pass_id (d ∷ ds) duration_sec now p).1 in
      HeldBy pass_id p'.devices d × (release pass_id p' ≡ (err (no_allocation pass_id), p'))
unfolding get_allocation release
allocate-err_leaks pass_id d ds duration_sec now p (dev, found, y) no_record failed =
    elim (allocate-cases pass_id (d ∷ ds) duration_sec now p) [
      | inl (_, e) ↦ absurd (let q = ap (λ s. s.0) (sym e) ∙ failed in cc)
      | inr (_, _, e) ↦ rw e (
        rw (allocate_all_free pass_id d dev ds p.devices found y) (
            allocate_all-HeldBy pass_id d pass_id ds (written pass_id d dev p.devices) (
              assign pass_id dev,
              ground (arith, get-written pass_id d dev p.devices found d),
              refl,
            )),
        rw (no_record, release),
      )
    ]
