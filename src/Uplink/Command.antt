-- ===== src/Uplink/Command.antt =====
-- uplink/src/command.rs: commands and their validation. A `Uuid` is a number, a byte string a list
-- of numbers, and an error is named by the text that the source gives it.
pub mod Valid
use Prim.Native.String.{String}
use ground_core.Common.Tests.{
  ℕ, Bool, true, false, not, List, [], ◌∷◌, ◌++◌, Option, none, some, if◌then◌else◌, leb, ltb,
  String_discrete,
}
use ground_core.Common.Lists.{length, contains}
use ground_core.Common.Result.{Result, ok, err, ◌>>=◌, ◌>>◌, fail_if}

pub data CommandPriority : Type 0 where
  emergency high normal low : CommandPriority

pub data CommandType : Type 0 where
  immediate : CommandType
  time_tagged : ℕ → CommandType
  conditional : String → CommandType

pub data CommandState : Type 0 where
  queued scheduled transmitting awaiting_ack acknowledged failed timeout cancelled : CommandState

unfoldable pub CommandState-discrete : Discrete CommandState
CommandState-discrete = hlevel

pub record Command : Type 0 where
  pub id : ℕ
  pub satellite_id : String
  pub payload : List ℕ
  pub command_type : CommandType
  pub priority : CommandPriority
  pub auth_token : List ℕ
  pub created_at : ℕ
  pub version : ℕ
  pub required_capabilities : List String

-- `Uuid::new_v4()` and the clock are arguments.
unfoldable pub new : ℕ → ℕ → String → List ℕ → CommandType → CommandPriority → List ℕ → Command
new id now satellite_id payload command_type priority auth_token = record {
  id = id;
  satellite_id = satellite_id;
  payload = payload;
  command_type = command_type;
  priority = priority;
  auth_token = auth_token;
  created_at = now;
  version = 1;
  required_capabilities = [];
}

-- `GroundStationError::Validation` with one of its texts.
pub data ValidationError : Type 0 where
  lacks_capability : String → ValidationError
  payload_empty payload_too_large token_missing : ValidationError

-- The loop over the required capabilities.
unfoldable pub check_capabilities : List String → List String → Result ValidationError (Unit {0})
check_capabilities satellite_capabilities [] = ok tt
check_capabilities satellite_capabilities (required ∷ rest) =
    let later = check_capabilities satellite_capabilities rest in
    if not (contains String_discrete satellite_capabilities required)
    then err (lacks_capability required)
    else later

abbrev pub is_empty : List ℕ → Bool
is_empty [] = true
is_empty (_ ∷ _) = false

unfoldable pub validate : List String → Command → Result ValidationError (Unit {0})
validate satellite_capabilities c = do
  check_capabilities satellite_capabilities c.required_capabilities
  fail_if (is_empty c.payload) payload_empty
  fail_if (ltb 65536 (length c.payload)) payload_too_large
  fail_if (is_empty c.auth_token) token_missing
  ok tt

unfoldable pub execution_time_of : CommandType → Option ℕ
execution_time_of (time_tagged time) = some time
execution_time_of _ = none

unfoldable pub execution_time : Command → Option ℕ
unfolding execution_time_of
execution_time c = execution_time_of c.command_type

unfoldable pub should_execute_by : CommandType → ℕ → Bool
should_execute_by immediate now = true
should_execute_by (time_tagged time) now = leb time now
should_execute_by (conditional _) now = false

unfoldable pub should_execute : Command → ℕ → Bool
unfolding should_execute_by
should_execute c now = should_execute_by c.command_type now

pub record ValidationResult : Type 0 where
  pub is_valid : Bool
  pub errors : List String
  pub warnings : List String

unfoldable pub new_result : ValidationResult
new_result = record { is_valid = true; errors = []; warnings = [] }

-- `push` appends.
unfoldable pub add_error : String → ValidationResult → ValidationResult
add_error error r = record r { errors = r.errors ++ error ∷ []; is_valid = false }

unfoldable pub add_warning : String → ValidationResult → ValidationResult
add_warning warning r = record r { warnings = r.warnings ++ warning ∷ [] }
