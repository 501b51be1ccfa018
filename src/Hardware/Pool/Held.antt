-- ===== src/Hardware/Pool/Held.antt =====
-- Devices of hardware/src/pool.rs by whom they belong to.
use Prim.Native.String.{String}
use mathlib.Core.Option
use ground_core.Common.Tests.{
  true, List, [], ◌∷◌, Option, none, some, ◌≡◌, refl, arith, inl, inr, String_discrete,
  Option-cases, if◌then◌else◌, ◌∙◌,
}
use ground_core.Common.Lists.{contains, All}
use ground_core.Common.Maps.{Map, get}
use ground_core.Hardware.Device
use ground_core.Hardware.Device.{HardwareDevice, HardwareError, not_found, not_available}

abbrev pub assign : String → HardwareDevice → HardwareDevice
assign pass_id d = record d { current_allocation = some pass_id }

abbrev pub Devices : Type 0
Devices = Map String HardwareDevice

-- The device is in the map and may be allocated.
abbrev pub Free : Devices → String → Type 0
Free m j =
    (d : HardwareDevice) × (get String_discrete j m ≡ some d) × (Device.is_available d ≡ true)

-- The device is in the map, healthy, and belongs to no pass.
abbrev pub Idle : Devices → String → Type 0
Idle m j =
    (d : HardwareDevice) × (get String_discrete j m ≡ some d)
    × (d.healthy ≡ true)
    × (d.current_allocation ≡ none)

Free-Idle : (m : Devices) (j : String) → Free m j → Idle m j
unfolding Device.is_available
Free-Idle m j (d, e, y) = elim (Option-cases d.current_allocation) [
  | inl n ↦ (d, e, ground (arith, y), n)
  | inr (q, held) ↦ absurd (ground (arith, y, held))
]

pub All-Idle : (m : Devices) (ds : List String) → All (Free m) ds → All (Idle m) ds
All-Idle m [] h = tt
All-Idle m (d ∷ ds) h = (Free-Idle m d h.0, All-Idle m ds h.1)

-- The device is in the map and belongs to the pass.
abbrev pub HeldBy : String → Devices → String → Type 0
HeldBy pass_id m j =
    (d : HardwareDevice) × (get String_discrete j m ≡ some d)
    × (d.current_allocation ≡ some pass_id)

-- The map with the devices of a list given to a pass, read at one key.
abbrev pub assigned : String → List String → Devices → String → Option HardwareDevice
assigned pass_id ds m j =
    if contains String_discrete ds j
    then Option.map (assign pass_id) (get String_discrete j m)
    else get String_discrete j m

HeldBy-assigned :
    (pass_id j : String) (ds : List String) (m m' : Devices)
    → Free m j
    → contains String_discrete ds j ≡ true
    → get String_discrete j m' ≡ assigned pass_id ds m j
    → HeldBy pass_id m' j
HeldBy-assigned pass_id j ds m m' (d, e, y) h after =
    (assign pass_id d, after ∙ rw (h, e) refl, refl)

contains-head : (j : String) (ds : List String) → contains String_discrete (j ∷ ds) j ≡ true
contains-head j ds = ground arith

contains-tail :
    (j d : String) (ds : List String)
    → contains String_discrete ds j ≡ true
    → contains String_discrete (d ∷ ds) j ≡ true
contains-tail j d ds h = ground (arith, h)

-- What is said of every device of a list within a longer one.
All-HeldBy_within :
    (pass_id : String) (all ds : List String) (m m' : Devices)
    → ((j : String) → contains String_discrete ds j ≡ true → contains String_discrete all j ≡ true)
    → All (Free m) ds
    → ((j : String) → get String_discrete j m' ≡ assigned pass_id all m j)
    → All (HeldBy pass_id m') ds
All-HeldBy_within pass_id all [] m m' within free after = tt
All-HeldBy_within pass_id all (d ∷ ds) m m' within free after = (
  HeldBy-assigned pass_id d all m m' free.0 (within d (contains-head d ds)) (after d),
  All-HeldBy_within pass_id all ds m m' (λ j h. within j (contains-tail j d ds h)) free.1 after,
)

pub All-HeldBy :
    (pass_id : String) (ds : List String) (m m' : Devices)
    → All (Free m) ds
    → ((j : String) → get String_discrete j m' ≡ assigned pass_id ds m j)
    → All (HeldBy pass_id m') ds
All-HeldBy pass_id ds m m' free after = All-HeldBy_within pass_id ds ds m m' (λ j h. h) free after
