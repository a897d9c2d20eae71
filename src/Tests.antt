-- ===== src/Tests.antt =====
-- Sample data for the theorems at concrete inputs; the children hold them by component.
pub mod Booking
pub mod Pool
pub mod Access
pub mod Screens
pub mod Watch
pub mod Requests
pub mod Jobs
pub mod Runs
use poligon.Base.{Text, [], arith, codes, false, pos, true, ℕ, ◌*◌, ◌+◌, ◌∷◌}
use poligon.Model.{
  Device, DeviceStatus, Reservation, RunSpec, User, android, config, free, minute, reserved,
}
use poligon.Reserve.{Manager, new_row}
use poligon.Reserve.Rows.{IsUnique}
use poligon.Store.{Db}
use poligon.Store.Devices.{no_specs}

abbrev pub hour : ℕ
hour = 60 * minute

abbrev pub manager : Manager
manager = record { idle_timeout = 15 * minute; max_lease = 4 * hour }

abbrev pub account : Text → User
account name = record {
  name = name;
  token_hash = [];
  disabled = false;
  pass_hash = codes "h";
  pass_set = true;
  created_at = 0;
}

abbrev pub alice : Text
alice = codes "alice"

abbrev pub bob : Text
bob = codes "bob"

abbrev pub phone : Text → DeviceStatus → Device
phone i st = record {
  id = i;
  platform = android;
  serial = i;
  udid = [];
  tags = [];
  status = st;
  source = config;
  specs = no_specs;
  last_seen = 0;
  adopted = true;
}

abbrev pub pixel : Text
pixel = codes "pixel"

abbrev pub redmi : Text
redmi = codes "redmi"

-- Two free phones and two accounts.
abbrev pub farm : Db
farm = record {
  devices = phone pixel free ∷ phone redmi free ∷ [];
  users = account alice ∷ account bob ∷ [];
  reservations = [];
  next_reservation = 1;
  sessions = [];
  next_session = 1;
  enroll_tokens = [];
  api_tokens = [];
  tunnel_ports = [];
  runs = [];
  run_devices = [];
  installs = [];
  ios_screens = [];
}

abbrev pub lease : Reservation
lease = new_row 1 pixel alice (codes "b1") 100 (100 + 4 * hour)

-- Alice holds the pixel.
abbrev pub leased : Db
leased = record farm {
  devices = phone pixel reserved ∷ phone redmi free ∷ [];
  reservations = lease ∷ [];
  next_reservation = 2;
}

pub leased-IsUnique : IsUnique leased
leased-IsUnique i = ground arith

abbrev pub no_inputs : RunSpec
no_inputs = record {
  artifacts = [];
  test_artifacts = [];
  watch_seconds = pos 0;
  flow_path = [];
  env = [];
  include_tags = [];
  exclude_tags = [];
  command = [];
  timeout_seconds = pos 0;
  callback_url = [];
}
