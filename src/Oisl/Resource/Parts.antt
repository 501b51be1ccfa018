-- ===== src/Oisl/Resource/Parts.antt =====
-- oisl/src/resource/manager.rs: the parts of a satellite's resources, with their defaults.
use Prim.Native.String.{String}
use ground_core.Common.Tests.{ℕ, Bool, false, List, []}
use ground_core.Common.Maps.{Map}
use ground_core.Oisl.Resource.Allocator.{Floats}

pub data Vendor : Type 0 where
  mynaric tesat skyloom caci : Vendor
  other : String → Vendor

pub data SensorType : Type 0 where
  optical sar infrared hyperspectral : SensorType

pub record StorageResources : Type 0 where
  pub total_bytes : ℕ
  pub used_bytes : ℕ
  pub available_bytes : ℕ

unfoldable pub new_storage : StorageResources
new_storage = record {
  total_bytes = 1000000000000;
  used_bytes = 0;
  available_bytes = 1000000000000;
}

module _ (fl : Floats) where
  pub record TerminalCapability : Type 0 where
    pub terminal_id : ℕ
    pub vendor : Vendor
    pub model : String
    pub max_data_rate : ℕ
    pub max_pointing_accuracy_rad : fl.F64
    pub power_consumption_watts : fl.F64
    pub available : Bool

  pub record RfCapability : Type 0 where
    pub terminal_id : ℕ
    pub frequency_bands : List ℕ
    pub max_data_rate : ℕ
    pub power_consumption_watts : fl.F64

  pub record SensorCapability : Type 0 where
    pub sensor_type : SensorType
    pub resolution : String
    pub swath_width_km : fl.F64
    pub power_consumption_watts : fl.F64

  pub record ComputeResources : Type 0 where
    pub cpu_cores : ℕ
    pub memory_gb : fl.F64
    pub gpu_available : Bool
    pub allocated_cpu : fl.F64
    pub allocated_memory : fl.F64

  unfoldable pub new_compute : ComputeResources
  new_compute = record {
    cpu_cores = 4;
    memory_gb = fl.literal 16 0;
    gpu_available = false;
    allocated_cpu = fl.zero_f64;
    allocated_memory = fl.zero_f64;
  }

  pub record PowerBudget : Type 0 where
    pub total_watts : fl.F64
    pub allocated_watts : fl.F64
    pub available_watts : fl.F64
    pub battery_capacity_wh : fl.F64
    pub battery_charge_percent : fl.F64

  unfoldable pub new_power : PowerBudget
  new_power = record {
    total_watts = fl.literal 500 0;
    allocated_watts = fl.zero_f64;
    available_watts = fl.literal 500 0;
    battery_capacity_wh = fl.literal 2000 0;
    battery_charge_percent = fl.literal 100 0;
  }

  pub record ThermalState : Type 0 where
    pub current_temperature_c : fl.F64
    pub max_temperature_c : fl.F64
    pub thermal_margin_c : fl.F64

  unfoldable pub new_thermal : ThermalState
  new_thermal = record {
    current_temperature_c = fl.literal 20 0;
    max_temperature_c = fl.literal 50 0;
    thermal_margin_c = fl.literal 30 0;
  }

  pub record HealthMetrics : Type 0 where
    pub overall_health : fl.F64
    pub last_check : ℕ
    pub component_health : Map String fl.F64

  unfoldable pub new_health : ℕ → HealthMetrics
  new_health now = record {
    overall_health = fl.literal 1 0;
    last_check = now;
    component_health = [];
  }

  pub record DegradationForecast : Type 0 where
    pub component : String
    pub predicted_degradation_time : ℕ
    pub confidence : fl.F64
    pub recommended_mitigation : String
