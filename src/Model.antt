-- ===== src/Model.antt =====
-- internal/model/model.go: the domain types. Times are nanoseconds, the zero time is 0.
use poligon.Base.{Bool, List, Option, Text, ℕ, ℤ, ◌*◌}

abbrev pub second : ℕ
second = 1_000_000_000

abbrev pub minute : ℕ
minute = 60 * second

pub data Platform : Type 0 where
  android ios : Platform

pub data DeviceStatus : Type 0 where
  offline unauthorized free reserved busy running_test degraded maintenance : DeviceStatus

pub data Source : Type 0 where
  config auto : Source

pub record Specs : Type 0 where
  pub model : Text
  pub manufacturer : Text
  pub soc : Text
  pub os_version : Text
  pub api_level : Text
  pub build : Text
  pub ram : Text
  pub storage : Text
  pub screen_size : Text
  pub screen_density : Text
  pub battery : Option ℕ
  pub battery_temp_c : Text
  pub input_injection : Text

pub record Device : Type 0 where
  pub id : Text
  pub platform : Platform
  pub serial : Text
  pub udid : Text
  pub tags : List Text
  pub status : DeviceStatus
  pub source : Source
  pub specs : Specs
  pub last_seen : ℕ
  pub adopted : Bool

-- A row of the table `reservations`: the struct with its batch.
pub record Reservation : Type 0 where
  pub id : ℕ
  pub device_id : Text
  pub user : Text
  pub batch : Text
  pub created_at : ℕ
  pub expires_at : ℕ
  pub renewed_at : ℕ
  pub released : Bool

-- A row of the table `users`: the struct with its password hash.
pub record User : Type 0 where
  pub name : Text
  pub token_hash : Text
  pub disabled : Bool
  pub pass_hash : Text
  pub pass_set : Bool
  pub created_at : ℕ

pub data RunStatus : Type 0 where
  queued running passed failed error canceled pending skipped : RunStatus

pub record RunDevice : Type 0 where
  pub run_id : Text
  pub device_id : Text
  pub platform : Platform
  pub status : RunStatus
  pub detail : Text
  pub package_name : Text
  pub artifacts : List Text
  pub started_at : Option ℕ
  pub finished_at : Option ℕ

-- The inputs of a run; a map is a list without a repeated key.
pub record RunSpec : Type 0 where
  pub artifacts : List (Platform × Text)
  pub test_artifacts : List (Platform × Text)
  pub watch_seconds : ℤ
  pub flow_path : Text
  pub env : List (Text × Text)
  pub include_tags : Text
  pub exclude_tags : Text
  pub command : Text
  pub timeout_seconds : ℤ
  pub callback_url : Text

pub record Run : Type 0 where
  pub id : Text
  pub user : Text
  pub kind : Text
  pub status : RunStatus
  pub trigger : Text
  pub batch : Text
  pub spec : RunSpec
  pub detail : Text
  pub created_at : ℕ
  pub started_at : Option ℕ
  pub finished_at : Option ℕ

-- A row of the table `sessions`: the struct with its token hash.
pub record Session : Type 0 where
  pub id : ℕ
  pub user : Text
  pub token_hash : Text
  pub created_at : ℕ
  pub last_seen : ℕ
  pub expires_at : ℕ
  pub revoked : Bool
