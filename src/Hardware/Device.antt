-- ===== src/Hardware/Device.antt =====
-- hardware/src/pool.rs, a hardware device. A method returns the new device, or the error.
use Prim.Native.String.{String}
use ground_core.Common.Tests.{
  ℕ, Bool, true, false, ◌&&◌, not, List, [], Option, none, some, if◌then◌else◌, ite,
  String_discrete,
}
use ground_core.Common.Result.{Result, ok, err}

pub data FrequencyBand : Type 0 where
  l_band s_band c_band x_band ku_band ka_band : FrequencyBand

pub data HardwareType : Type 0 where
  sdr rotator antenna amplifier : HardwareType

unfoldable pub HardwareType-discrete : Discrete HardwareType
HardwareType-discrete = hlevel

pub record HardwareCapabilities : Type 0 where
  pub frequency_range : ℕ × ℕ
  pub max_sample_rate : ℕ
  pub supported_bands : List FrequencyBand
  pub can_transmit : Bool

unfoldable pub new_capabilities : ℕ × ℕ → ℕ → HardwareCapabilities
new_capabilities frequency_range max_sample_rate = record {
  frequency_range = frequency_range;
  max_sample_rate = max_sample_rate;
  supported_bands = [];
  can_transmit = false;
}

pub record HardwareDevice : Type 0 where
  pub device_id : String
  pub hardware_type : HardwareType
  pub healthy : Bool
  pub current_allocation : Option String
  pub capabilities : HardwareCapabilities
  pub last_health_check : ℕ

-- The errors of the pool: `GroundStationError::Hardware` with the text that names the identifiers.
pub data HardwareError : Type 0 where
  not_available : String → HardwareError
  not_allocated : String → String → HardwareError
  not_found : String → HardwareError
  no_allocation : String → HardwareError

unfoldable pub new : String → HardwareType → HardwareCapabilities → ℕ → HardwareDevice
new device_id hardware_type capabilities now = record {
  device_id = device_id;
  hardware_type = hardware_type;
  healthy = true;
  current_allocation = none;
  capabilities = capabilities;
  last_health_check = now;
}

abbrev is_none : Option String → Bool
is_none none = true
is_none (some _) = false

unfoldable pub is_available : HardwareDevice → Bool
is_available d = d.healthy && is_none d.current_allocation

unfoldable pub allocate : String → HardwareDevice → Result HardwareError HardwareDevice
unfolding is_available
allocate pass_id d =
    if not (is_available d)
    then err (not_available d.device_id)
    else ok (record d { current_allocation = some pass_id })

-- `self.current_allocation.as_ref() == Some(pass_id)`.
abbrev holds : Option String → String → Bool
holds none pass_id = false
holds (some p) pass_id = ite (String_discrete p pass_id) true false

unfoldable pub release : String → HardwareDevice → Result HardwareError HardwareDevice
release pass_id d =
    if not (holds d.current_allocation pass_id)
    then err (not_allocated d.device_id pass_id)
    else ok (record d { current_allocation = none })
