-- ===== src/Regulatory/Types.antt =====
-- regulatory/src/types.rs: bands, and the frequencies and proofs that belong to one. A marker type
-- that implements `Band` is a value of the record of the trait's constants, and the types that
-- take it as a phantom parameter are indexed by it. `f64` is a record of what the code uses.
use Prim.Native.String.{String}
use ground_core.Common.Tests.{ℕ, leb, Bool, List, Option, none, some, ◌&&◌, if◌then◌else◌}

pub record Band : Type 0 where
  pub name : String
  pub min_frequency : ℕ
  pub max_frequency : ℕ

abbrev pub l_band : Band
l_band = record { name = "L-band"; min_frequency = 1000000000; max_frequency = 2000000000 }

abbrev pub s_band : Band
s_band = record { name = "S-band"; min_frequency = 2000000000; max_frequency = 4000000000 }

abbrev pub c_band : Band
c_band = record { name = "C-band"; min_frequency = 4000000000; max_frequency = 8000000000 }

pub record Frequency (b : Band) : Type 0 where
  pub hz : ℕ

unfoldable pub new_frequency : (b : Band) → ℕ → Option (Frequency b)
new_frequency b hz =
    if leb b.min_frequency hz && leb hz b.max_frequency then some (record { hz = hz }) else none

pub record CoordinationProof (b : Band) : Type 0 where
  pub coordinated_with : List String
  pub coordination_date : ℕ

-- `now` is the reading of the clock.
unfoldable pub new_coordination : (b : Band) → ℕ → List String → CoordinationProof b
new_coordination b now coordinated_with = record {
  coordinated_with = coordinated_with;
  coordination_date = now;
}

-- `f64`: `m / 10^k` for `literal m k`, its comparison, operations and printing, and the printing
-- of a `u64`.
pub record Floats : Type 1 where
  pub F64 : Type 0
  pub literal : ℕ → ℕ → F64
  pub le : F64 → F64 → Bool
  pub plus : F64 → F64 → F64
  pub minus : F64 → F64 → F64
  pub times : F64 → F64 → F64
  pub over : F64 → F64 → F64
  pub powf : F64 → F64 → F64
  pub log10 : F64 → F64
  pub show_f64 : F64 → String
  pub show_u64 : ℕ → String

module _ (fl : Floats) where
  pub record Power : Type 0 where
    pub dbm : fl.F64

  unfoldable pub to_watts : Power → fl.F64
  to_watts p =
      fl.powf (fl.literal 10 0) (fl.over (fl.minus p.dbm (fl.literal 30 0)) (fl.literal 10 0))

  unfoldable pub from_watts : fl.F64 → Power
  from_watts watts = record {
    dbm = fl.plus (fl.times (fl.literal 10 0) (fl.log10 watts)) (fl.literal 30 0);
  }
