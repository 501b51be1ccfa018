-- ===== src/Scheduling/Schedule/Devices.antt =====
-- What the index of `check_conflicts` has for each device.
use mathlib.Core.List.{append-nil, append_assoc}
use Prim.Native.String.{String}
use ground_core.Common.Tests.{
  ℕ, suc, List, [], ◌∷◌, ◌++◌, Option, none, some, ◌≡◌, refl, arith, if◌then◌else◌, ap, subst, sym,
  ◌∙◌, ite, String_discrete,
}
use ground_core.Common.Lists.{All, All-map, contains, not_contains, Distinct}
use ground_core.Common.Maps.{Map, get, keys, insert-Distinct}
use ground_core.Common.Index.{ids_at, push_id, ids_at-push_id}
use ground_core.Scheduling.Schedule.{
  HardwareAllocation, ScheduledPass, index_devices, index_shadow, index_pass, index_passes,
}

-- The devices of an allocation.
abbrev pub shadow_devices : Option String → List String
shadow_devices none = []
shadow_devices (some shadow) = shadow ∷ []

abbrev pub devices : HardwareAllocation → List String
devices a = a.sdr_devices ++ (shadow_devices a.shadow_sdr ++ (a.antenna_id ∷ a.rotator_id ∷ []))

index_devices-append :
    (es fs : List String) (k : ℕ) (m : Map String (List ℕ))
    → index_devices (es ++ fs) k m ≡ index_devices fs k (index_devices es k m)
unfolding index_devices
index_devices-append [] fs k m = refl
index_devices-append (e ∷ es) fs k m = index_devices-append es fs k (push_id String_discrete e k m)

index_shadow-devices :
    (shadow : Option String) (k : ℕ) (m : Map String (List ℕ))
    → index_devices (shadow_devices shadow) k m ≡ index_shadow shadow k m
unfolding index_devices index_shadow
index_shadow-devices none k m = refl
index_shadow-devices (some shadow) k m = refl

-- A pass is indexed as if all its devices were in one list.
index_pass-devices :
    (a : HardwareAllocation) (k : ℕ) (m : Map String (List ℕ))
    → index_pass a k m ≡ index_devices (devices a) k m
unfolding index_pass index_devices
index_pass-devices a k m =
    let last = a.antenna_id ∷ a.rotator_id ∷ [] in
    let with_sdrs = index_devices a.sdr_devices k m in
    sym (
      index_devices-append a.sdr_devices (shadow_devices a.shadow_sdr ++ last) k m
      ∙ index_devices-append (shadow_devices a.shadow_sdr) last k with_sdrs
      ∙ ap (λ n. index_devices last k n) (index_shadow-devices a.shadow_sdr k with_sdrs))

module _ (d : String) where
  -- The number of a pass, once for each time that it lists the device.
  abbrev entries : ℕ → List String → List ℕ
  entries k [] = []
  entries k (e ∷ es) = ite (String_discrete e d) (k ∷ []) [] ++ entries k es

  entries-append :
      (k : ℕ) (es fs : List String) → entries k (es ++ fs) ≡ entries k es ++ entries k fs
  entries-append k [] fs = refl
  entries-append k (e ∷ es) fs =
      ap (λ l. ite (String_discrete e d) (k ∷ []) [] ++ l) (entries-append k es fs)
      ∙ sym (append_assoc (ite (String_discrete e d) (k ∷ []) []) (entries k es) (entries k fs))

  entries-Distinct :
      (k : ℕ) (es : List String)
      → Distinct es
      → entries k es ≡ (if contains String_discrete es d then k ∷ [] else [])
  entries-Distinct k [] h = refl
  entries-Distinct k (e ∷ es) h = elim (String_discrete e d) [
    | yes p ↦
        let absent =
          not_contains String_discrete d es
            (All-map (λ y. ¬ (e ≡ y)) (λ y. ¬ (d ≡ y)) (λ y n q. n (p ∙ q)) es h.0) in
        ground (arith, entries-Distinct k es h.1, absent)
    | no n ↦ ground (arith, entries-Distinct k es h.1)
  ]

  -- The entries of the device.
  abbrev pub at_device : Map String (List ℕ) → List ℕ
  at_device m = ids_at (get String_discrete d m)

  at_device-push_id :
      (e : String) (k : ℕ) (m : Map String (List ℕ))
      → at_device (push_id String_discrete e k m)
        ≡ at_device m ++ ite (String_discrete e d) (k ∷ []) []
  at_device-push_id e k m = ids_at-push_id String_discrete d e k m

  at_device-index_devices :
      (es : List String) (k : ℕ) (m : Map String (List ℕ))
      → at_device (index_devices es k m) ≡ at_device m ++ entries k es
  unfolding index_devices
  at_device-index_devices [] k m = sym (append-nil (at_device m))
  at_device-index_devices (e ∷ es) k m =
      at_device-index_devices es k (push_id String_discrete e k m)
      ∙ ap (λ l. l ++ entries k es) (at_device-push_id e k m)
      ∙ append_assoc (at_device m) (ite (String_discrete e d) (k ∷ []) []) (entries k es)

  at_device-index_pass :
      (a : HardwareAllocation) (k : ℕ) (m : Map String (List ℕ))
      → at_device (index_pass a k m) ≡ at_device m ++ entries k (devices a)
  at_device-index_pass a k m =
      ap at_device (index_pass-devices a k m) ∙ at_device-index_devices (devices a) k m

  module _ {F64 : Type 0} where
    -- The numbers of the passes that use the device.
    abbrev pub users : ℕ → List (ScheduledPass F64) → List ℕ
    users k [] = []
    users k (p ∷ ps) =
        let rest = users (suc k) ps in
        if contains String_discrete (devices p.hardware_allocation) d then k ∷ rest else rest

    pub at_device-index_passes :
        (k : ℕ) (ps : List (ScheduledPass F64)) (m : Map String (List ℕ))
        → All (λ p. Distinct (devices p.hardware_allocation)) ps
        → at_device (index_passes F64 k ps m) ≡ at_device m ++ users k ps
    unfolding index_passes
    at_device-index_passes k [] m h = sym (append-nil (at_device m))
    at_device-index_passes k (p ∷ ps) m h =
        at_device-index_passes (suc k) ps (index_pass p.hardware_allocation k m) h.1
        ∙ ap (λ l. l ++ users (suc k) ps)
            (at_device-index_pass p.hardware_allocation k m
              ∙ ap (λ l. at_device m ++ l) (entries-Distinct k (devices p.hardware_allocation) h.0))
        ∙ append_assoc (at_device m) _ (users (suc k) ps)
        ∙ ap (λ l. at_device m ++ l) (one k p ps)
      where
        one :
            (k : ℕ) (p : ScheduledPass F64) (ps : List (ScheduledPass F64))
            → (if contains String_discrete (devices p.hardware_allocation) d then k ∷ [] else [])
                ++ users (suc k) ps
              ≡ users k (p ∷ ps)
        one k p ps = ground arith

index_devices-Distinct :
    (es : List String) (k : ℕ) (m : Map String (List ℕ))
    → Distinct (keys m)
    → Distinct (keys (index_devices es k m))
unfolding index_devices push_id
index_devices-Distinct [] k m h = h
index_devices-Distinct (e ∷ es) k m h =
    index_devices-Distinct es k (push_id String_discrete e k m)
      (insert-Distinct String_discrete e (at_device e m ++ (k ∷ [])) m h)

pub index_passes-Distinct :
    {F64 : Type 0} (k : ℕ) (ps : List (ScheduledPass F64)) (m : Map String (List ℕ))
    → Distinct (keys m)
    → Distinct (keys (index_passes F64 k ps m))
unfolding index_passes
index_passes-Distinct k [] m h = h
index_passes-Distinct k (p ∷ ps) m h =
    index_passes-Distinct (suc k) ps (index_pass p.hardware_allocation k m) (
      subst (λ n. Distinct (keys n)) (sym (index_pass-devices p.hardware_allocation k m))
        (index_devices-Distinct (devices p.hardware_allocation) k m h))
