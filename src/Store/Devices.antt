-- ===== src/Store/Devices.antt =====
-- internal/store/store.go: the statements on the table `devices`.
use poligon.Base.{
  Bool, List, Text, [], any, arith, find_first, if◌then◌else◌, insert_by, map, mem, none, not,
  order_by, refl, select, some, text_leb, text_leb_refl, true, update_where, ℕ, ◌&&◌, ◌++◌, ◌==◌,
  ◌||◌, ◌∷◌, ◌≡◌,
}
use poligon.Model.{Device, DeviceStatus, Specs, auto, config, offline}
use poligon.Store.{Db, Result, constraint, err, not_found, ok}

-- What a Scan leaves of the column default '{}'.
abbrev pub no_specs : Specs
no_specs = record {
  model = [];
  manufacturer = [];
  soc = [];
  os_version = [];
  api_level = [];
  build = [];
  ram = [];
  storage = [];
  screen_size = [];
  screen_density = [];
  battery = some 0;
  battery_temp_c = [];
  input_injection = [];
}

-- INSERT … ON CONFLICT(id) DO UPDATE: runtime columns of an existing row stay as they are.
unfoldable pub upsert_device_inventory : Device → Db → Db
upsert_device_inventory d db =
    if any (λ r. r.id == d.id) db.devices
    then record db {
      devices =
          update_where (λ r. r.id == d.id)
            (λ r. record r {
              platform = d.platform;
              serial = d.serial;
              udid = d.udid;
              tags = d.tags;
              source = config;
              adopted = true;
            })
            db.devices;
    }
    else record db {
      devices =
          db.devices
          ++ (record d {
            status = offline;
            source = config;
            specs = no_specs;
            last_seen = 0;
            adopted = true;
          })
            ∷ [];
    }

-- INSERT … ON CONFLICT(id) DO NOTHING.
unfoldable pub create_auto_device : Device → Db → Db
create_auto_device d db =
    if any (λ r. r.id == d.id) db.devices
    then db
    else record db { devices = db.devices ++ (record d { source = auto }) ∷ [] }

unfoldable pub set_device_status : Text → DeviceStatus → ℕ → Db → Db
set_device_status i st seen db = record db {
  devices =
      update_where (λ d. d.id == i) (λ d. record d { status = st; last_seen = seen }) db.devices;
}

-- Whether a row of another table names the device: a reservation, released or not, an install or the
-- iOS screen.
abbrev pub is_referenced : Text → Db → Bool
is_referenced i db =
    any (λ r. r.device_id == i) db.reservations || mem i db.installs || mem i db.ios_screens

-- A foreign key refuses to lose a device that a row names.
unfoldable pub delete_device : Text → Db → Result Db
delete_device i db =
    if any (λ d. d.id == i) db.devices && is_referenced i db
    then err constraint
    else ok (record db { devices = select (λ d. not (d.id == i)) db.devices })

abbrev pub has_active : Text → Db → Bool
has_active i db = any (λ r. r.device_id == i && not r.released) db.reservations

abbrev pub rename_id : Text → Text → Text → Text
rename_id old new i = if i == old then new else i

-- RenameDevice, in one transaction: the primary key of the devices and the unique index on the
-- active reservations are checked at once, the foreign keys at the end.
unfoldable pub rename_device : Text → Text → Db → Result Db
rename_device old new db =
    let known = any (λ d. d.id == old) db.devices in
    let clash = any (λ d. d.id == new) db.devices in
    if not (old == new)
      && ((known && clash)
          || (has_active old db && has_active new db)
          || (is_referenced old db && not known && not clash))
    then err constraint
    else ok record db {
      devices = update_where (λ d. d.id == old) (λ d. record d { id = new }) db.devices;
      reservations =
          update_where (λ r. r.device_id == old) (λ r. record r { device_id = new })
            db.reservations;
      installs = map (rename_id old new) db.installs;
      ios_screens = map (rename_id old new) db.ios_screens;
    }

unfoldable pub set_device_specs : Text → Specs → Db → Db
set_device_specs i sp db = record db {
  devices = update_where (λ d. d.id == i) (λ d. record d { specs = sp }) db.devices;
}

unfoldable pub set_adopted : Text → Bool → Db → Db
set_adopted i v db = record db {
  devices = update_where (λ d. d.id == i) (λ d. record d { adopted = v }) db.devices;
}

-- SELECT … ORDER BY id.
abbrev pub all_devices : Db → List Device
all_devices db = order_by (λ a b. text_leb a.id b.id) db.devices

unfoldable pub device : Text → Db → Result Device
device i db = elim (find_first (λ d. d.id == i) (all_devices db)) [
  | none ↦ err not_found
  | some d ↦ ok d
]

-- The order of the listing does not matter to a lookup by id.
find_first-insert_by :
    (i : Text) (x : Device) (xs : List Device)
    → find_first (λ d. d.id == i) (insert_by (λ a b. text_leb a.id b.id) x xs)
      ≡ (if x.id == i then some x else find_first (λ d. d.id == i) xs)
find_first-insert_by i x [] = refl
find_first-insert_by i x (y ∷ ys) = ground (arith, find_first-insert_by i x ys, text_leb_refl x.id)

find_first-order_by :
    (i : Text) (xs : List Device)
    → find_first (λ d. d.id == i) (order_by (λ a b. text_leb a.id b.id) xs)
      ≡ find_first (λ d. d.id == i) xs
find_first-order_by i [] = refl
find_first-order_by i (x ∷ xs) =
    rw
      (find_first-insert_by i x (order_by (λ a b. text_leb a.id b.id) xs), find_first-order_by i xs)

pub device_lem :
    (i : Text) (db : Db)
    → device i db
      ≡ (elim (find_first (λ d. d.id == i) db.devices) [ none ↦ err not_found | some d ↦ ok d ])
unfolding device
device_lem i db = rw (device, find_first-order_by i db.devices)
