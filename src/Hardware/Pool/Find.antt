-- ===== src/Hardware/Pool/Find.antt =====
-- What `HardwarePool::find_available` returns, and what `allocate` makes of it.
use Prim.Native.String.{String}
use ground_core.Common.Tests.{
  ℕ, zero, suc, ◌≤◌, true, List, [], ◌∷◌, some, ◌≡◌, refl, arith, inl, inr, ◌⊎◌, if_neg,
  String_discrete, sym, ◌∙◌, subst, Bool-cases,
}
use ground_core.Common.Lists.{length, All, Distinct, All-map}
use ground_core.Common.Result.{ok}
use ground_core.Common.Maps.{Map, get, keys, values, get-insert}
use ground_core.Hardware.Breaker
use ground_core.Hardware.Breaker.{CircuitBreaker}
use ground_core.Hardware.Device
use ground_core.Hardware.Device.{HardwareDevice, HardwareType, HardwareType-discrete}
use ground_core.Hardware.Pool.{
  HardwarePool, allocate, find_in, find_available, passes, entry_or_new,
}
use ground_core.Hardware.Pool.Held.{Devices, Free}
use ground_core.Hardware.Pool.Allocate.{allocation_of, allocate_ok_iff}

-- Every device stands under its own identifier.
abbrev pub Keyed : Devices → Type 0
Keyed [] = Unit {0}
Keyed ((k, v) ∷ m) = (v.device_id ≡ k) × Keyed m

-- Every entry of the first map is found in the second.
abbrev Sub : Devices → Devices → Type 0
Sub [] M = Unit {0}
Sub ((k, v) ∷ m) M = (get String_discrete k M ≡ some v) × Sub m M

Sub-cons :
    (k : String) (v : HardwareDevice) (m M : Devices)
    → All (λ y. ¬ (k ≡ y)) (keys m)
    → Sub m M
    → Sub m ((k, v) ∷ M)
unfolding get
Sub-cons k v [] M n s = tt
Sub-cons k v ((j, w) ∷ m) M n s = (rw (if_neg _ n.0) s.0, Sub-cons k v m M n.1 s.1)

Sub-self : (m : Devices) → Distinct (keys m) → Sub m m
Sub-self [] d = tt
Sub-self ((k, v) ∷ m) d = (unfold get in ground arith, Sub-cons k v m m d.0 (Sub-self m d.1))

module _ (clock : String → ℕ) (ty : HardwareType) where
  -- What a device that passes the filter is.
  abbrev pub Allowed : Map String CircuitBreaker → String → Type 0
  Allowed bs j = (Breaker.allows_allocation (clock j) (entry_or_new j bs)).0 ≡ true

  passes-true :
      (d : HardwareDevice) (bs : Map String CircuitBreaker)
      → (passes clock ty d bs).0 ≡ true
      → (Device.is_available d ≡ true) × (d.hardware_type ≡ ty) × Allowed bs d.device_id
  unfolding passes
  passes-true d bs h = ground arith

  -- The filter moves no other device's breaker.
  passes_frame :
      (d : HardwareDevice) (bs : Map String CircuitBreaker) (j : String)
      → ¬ (d.device_id ≡ j)
      → entry_or_new j (passes clock ty d bs).1 ≡ entry_or_new j bs
  unfolding passes entry_or_new
  passes_frame d bs j n =
      let b = (Breaker.allows_allocation (clock d.device_id) (entry_or_new d.device_id bs)).1 in
      ground (arith, get-insert String_discrete j d.device_id b bs)

  abbrev Agree : Map String CircuitBreaker → Map String CircuitBreaker → String → Type 0
  Agree bs bs0 j = entry_or_new j bs ≡ entry_or_new j bs0

  passes-Agree :
      (d : HardwareDevice) (bs bs0 : Map String CircuitBreaker) (js : List String)
      → All (λ j. ¬ (d.device_id ≡ j)) js
      → All (Agree bs bs0) js
      → All (Agree (passes clock ty d bs).1 bs0) js
  passes-Agree d bs bs0 [] n a = tt
  passes-Agree d bs bs0 (j ∷ js) n a =
      (passes_frame d bs j n.0 ∙ a.0, passes-Agree d bs bs0 js n.1 a.1)

  -- What is said of a device that is returned.
  abbrev pub Offered : Devices → Map String CircuitBreaker → String → Type 0
  Offered M bs j =
      (d : HardwareDevice) × (get String_discrete j M ≡ some d)
      × (Device.is_available d ≡ true)
      × (d.hardware_type ≡ ty)
      × Allowed bs j

  offered :
      (d : HardwareDevice) (bs bs0 : Map String CircuitBreaker) (M : Devices)
      → (passes clock ty d bs).0 ≡ true
      → get String_discrete d.device_id M ≡ some d
      → Agree bs bs0 d.device_id
      → Offered M bs0 d.device_id
  offered d bs bs0 M y found agree =
      let (available, type, allowed) = passes-true d bs y in
      (
        d,
        found,
        available,
        type,
        subst (λ b. (Breaker.allows_allocation (clock d.device_id) b).0 ≡ true) agree allowed,
      )

  -- One step of the scan, by whether the device passes.
  find_in-cons :
      (n : ℕ) (d : HardwareDevice) (ds : List HardwareDevice) (bs : Map String CircuitBreaker)
      → let bs' = (passes clock ty d bs).1 in
        (((passes clock ty d bs).0 ≡ true)
          × ((find_in clock ty (suc n) (d ∷ ds) bs).0
              ≡ d.device_id ∷ (find_in clock ty n ds bs').0))
        ⊎ ((find_in clock ty (suc n) (d ∷ ds) bs).0 ≡ (find_in clock ty (suc n) ds bs').0)
  unfolding find_in
  find_in-cons n d ds bs = elim (Bool-cases (passes clock ty d bs).0) [
    | inl y ↦ inl (y, rw y)
    | inr y ↦ inr (rw y)
  ]

  find_in-Offered :
      (n : ℕ) (m M : Devices) (bs bs0 : Map String CircuitBreaker)
      → Keyed m
      → Distinct (keys m)
      → Sub m M
      → All (Agree bs bs0) (keys m)
      → All (Offered M bs0) (find_in clock ty n (values m) bs).0
  find_in-Offered zero m M bs bs0 k n s a = unfold find_in in tt
  find_in-Offered (suc c) [] M bs bs0 k n s a = unfold find_in in tt
  find_in-Offered (suc c) ((j, d) ∷ m) M bs bs0 k n s a =
      let bs' = (passes clock ty d bs).1 in
      let a' =
        passes-Agree d bs bs0 (keys m) (subst (λ i. All (λ y. ¬ (i ≡ y)) (keys m)) (sym k.0) n.0)
          a.1 in
      elim (find_in-cons c d (values m) bs) [
        | inl (y, e) ↦ rw e (
          offered d bs bs0 M y (subst (λ i. get String_discrete i M ≡ some d) (sym k.0) s.0)
              (subst (Agree bs bs0) (sym k.0) a.0),
          find_in-Offered c m M bs' bs0 k.1 n.1 s.1 a',
        )
        | inr e ↦ rw e (find_in-Offered (suc c) m M bs' bs0 k.1 n.1 s.1 a')
      ]

  find_in_fresh :
      (x : String) (n : ℕ) (m : Devices) (bs : Map String CircuitBreaker)
      → Keyed m
      → All (λ y. ¬ (x ≡ y)) (keys m)
      → All (λ y. ¬ (x ≡ y)) (find_in clock ty n (values m) bs).0
  find_in_fresh x zero m bs k f = unfold find_in in tt
  find_in_fresh x (suc c) [] bs k f = unfold find_in in tt
  find_in_fresh x (suc c) ((j, d) ∷ m) bs k f =
      let bs' = (passes clock ty d bs).1 in
      elim (find_in-cons c d (values m) bs) [
        | inl (y, e) ↦ rw e (rw k.0 f.0, find_in_fresh x c m bs' k.1 f.1)
        | inr e ↦ rw e (find_in_fresh x (suc c) m bs' k.1 f.1)
      ]

  find_in-Distinct :
      (n : ℕ) (m : Devices) (bs : Map String CircuitBreaker)
      → Keyed m
      → Distinct (keys m)
      → Distinct (find_in clock ty n (values m) bs).0
        × (length (find_in clock ty n (values m) bs).0 ≤ n)
  find_in-Distinct zero m bs k f = unfold find_in in (tt, omega arith)
  find_in-Distinct (suc c) [] bs k f = unfold find_in in (tt, omega arith)
  find_in-Distinct (suc c) ((j, d) ∷ m) bs k f =
      let bs' = (passes clock ty d bs).1 in
      elim (find_in-cons c d (values m) bs) [
        | inl (y, e) ↦
            let (i, l) = find_in-Distinct c m bs' k.1 f.1 in
            let fresh = subst (λ x. All (λ y. ¬ (x ≡ y)) (keys m)) (sym k.0) f.0 in
            rw e ((find_in_fresh d.device_id c m bs' k.1 fresh, i), omega arith)
        | inr e ↦ rw e (find_in-Distinct (suc c) m bs' k.1 f.1)
      ]

Agree_refl :
    (bs : Map String CircuitBreaker) (js : List String)
    → All (λ j. entry_or_new j bs ≡ entry_or_new j bs) js
Agree_refl bs [] = tt
Agree_refl bs (j ∷ js) = (refl, Agree_refl bs js)

-- In a pool whose devices stand under their own identifiers, each once, `find_available` returns
-- at most `count` distinct identifiers, of devices of the type asked for that are healthy, not
-- allocated, and whose circuit breaker permits an allocation at the time it is looked at; it
-- changes neither the devices nor the allocations.
pub find_available_sound :
    (clock : String → ℕ) (ty : HardwareType) (count : ℕ) (p : HardwarePool)
    → Keyed p.devices
    → Distinct (keys p.devices)
    → let (ids, p') = find_available clock ty count p in
      All (Offered clock ty p.devices p.circuit_breakers) ids
      × Distinct ids
      × (length ids ≤ count)
      × (p'.devices ≡ p.devices)
      × (p'.allocations ≡ p.allocations)
unfolding find_available
find_available_sound clock ty count p k n =
    let (d, l) = find_in-Distinct clock ty count p.devices p.circuit_breakers k n in
    (
      find_in-Offered clock ty count p.devices p.devices p.circuit_breakers p.circuit_breakers k n
          (Sub-self p.devices n) (Agree_refl p.circuit_breakers (keys p.devices)),
      d,
      l,
      refl,
      refl,
    )

-- In such a pool an `allocate` of what `find_available` has just returned succeeds, for any pass.
pub allocate-find_available :
    (clock : String → ℕ) (ty : HardwareType) (count : ℕ) (pass_id : String) (duration_sec now : ℕ)
    (p : HardwarePool)
    → Keyed p.devices
    → Distinct (keys p.devices)
    → let (ids, p') = find_available clock ty count p in
      (allocate pass_id ids duration_sec now p').0 ≡ ok (allocation_of pass_id ids duration_sec now)
allocate-find_available clock ty count pass_id duration_sec now p k n =
    let (ids, p') = find_available clock ty count p in
    let (offered, distinct, _, same, _) = find_available_sound clock ty count p k n in
    let free =
      All-map (Offered clock ty p.devices p.circuit_breakers) (Free p.devices)
        (λ j o. (o.0, o.1, o.2)) ids offered in
    (allocate_ok_iff pass_id ids duration_sec now p').1 (rw same free, distinct)
