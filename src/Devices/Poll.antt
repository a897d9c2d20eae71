-- ===== src/Devices/Poll.antt =====
-- internal/devices/devices.go: pollOnce, and how devices get into the pool. What adb and
-- libimobiledevice answer is an argument: a map is a list of its entries, in the order of the range
-- loop, and a failed poll is the empty list, as in the code.
use poligon.Base.{
  Bool, List, Option, Text, [], codes, false, get, has_prefix, if◌then◌else◌, is_empty, map, mem,
  none, not, select, some, true, ℕ, ◌&&◌, ◌++◌, ◌==◌, ◌||◌, ◌∷◌,
}
use poligon.Devices.{Poller, reconcile}
use poligon.Model.{
  Device, DeviceStatus, Platform, Source, Specs, android, auto, busy, config, degraded, free, ios,
  maintenance, offline, reserved, running_test, unauthorized,
}
use poligon.Naming.{short_serial, slug, unique_id}
use poligon.Reserve.{is_held}
use poligon.Store.{Db, Result, err, ok}
use poligon.Store.Devices.{
  all_devices, create_auto_device, delete_device, no_specs, set_device_specs, set_device_status,
}

-- The answers of one poll. `ios_specs` also tells whether the device could be asked.
pub record Connected : Type 0 where
  pub android_states : List (Text × Text)
  pub ios_online : List Text
  pub adb_specs : Text → Specs
  pub ios_specs : Text → Specs × Bool

-- What the loop over the pool carries.
pub record PollState : Type 0 where
  pub db : Db
  pub poller : Poller
  pub taken_ids : List Text

abbrev pub authorized_state : Option Text → Bool
authorized_state none = false
authorized_state (some st) = st == codes "device"

-- Whether a device is connected, and whether it is authorized.
unfoldable pub presence : Connected → Device → Bool × Bool
presence con d = elim d.platform [
  | android ↦
      let st = get d.serial con.android_states in
      (elim st [ none ↦ false | some _ ↦ true ], authorized_state st)
  | ios ↦ let online = mem d.udid con.ios_online in (online, online)
]

abbrev pub auto_device : Text → Platform → Text → Text → Specs → DeviceStatus → ℕ → Device
auto_device i plat serial udid sp st now = record {
  id = i;
  platform = plat;
  serial = serial;
  udid = udid;
  tags = codes "auto" ∷ [];
  status = st;
  source = auto;
  specs = sp;
  last_seen = now;
  adopted = false;
}

abbrev pub pending_id : Text → Text
pending_id s = codes "pending-" ++ short_serial s

-- A new row, and its name is taken.
unfoldable pub register_device : Device → PollState → PollState
register_device d s = record s { db = create_auto_device d s.db; taken_ids = d.id ∷ s.taken_ids }

abbrev pub device_of : Option Text → (Text → Device) → Option Device
device_of none make = none
device_of (some i) make = some (make i)

-- The named device of a vendor and a model; UniqueID always returns a name.
abbrev pub named : Text → Specs → (Text → Device) → PollState → Option Device
named vendor sp make s = device_of (unique_id (slug (vendor ∷ sp.model ∷ [])) s.taken_ids) make

abbrev pub register_some : Option Device → PollState → PollState
register_some none s = s
register_some (some d) s = register_device d s

abbrev pub left_over : Db → Result Db → Db
left_over db (err e) = db
left_over db (ok db') = db'

-- The specs that a pending device shows, and its vendor.
abbrev pub shown_specs : Connected → Device → Specs
shown_specs con d = elim d.platform [
  | android ↦ con.adb_specs d.serial
  | ios ↦ (con.ios_specs d.udid).0
]

abbrev pub shown_vendor : Connected → Device → Text
shown_vendor con d = elim d.platform [
  | android ↦ (shown_specs con d).manufacturer
  | ios ↦ codes "apple"
]

-- The row of a pending device is replaced by one with a proper name; an error of the DELETE is
-- ignored.
unfoldable pub replace_row : Text → Option Device → PollState → PollState
replace_row i none s = s
replace_row i (some new) s =
    let s' = register_device new s in record s' { db = left_over s'.db (delete_device i s'.db) }

unfoldable pub upgrade_pending : Connected → ℕ → Device → PollState → PollState
unfolding replace_row
upgrade_pending con now d s =
    let sp = shown_specs con d in
    replace_row d.id
      (named (shown_vendor con d) sp (λ i. auto_device i d.platform d.serial d.udid sp free now) s)
      s

abbrev is_auto : Source → Bool
is_auto auto = true
is_auto config = false

abbrev pub is_pending : Device → Bool
is_pending d =
    is_auto d.source && (elim (has_prefix (codes "pending-") d.id) [ none ↦ false | some _ ↦ true ])

abbrev pub same_status : DeviceStatus → DeviceStatus → Bool
same_status offline offline = true
same_status unauthorized unauthorized = true
same_status free free = true
same_status reserved reserved = true
same_status busy busy = true
same_status running_test running_test = true
same_status degraded degraded = true
same_status maintenance maintenance = true
same_status _ _ = false

-- The status of a device is stored if it changes or the device is there.
unfoldable pub see : Connected → ℕ → Device → PollState → PollState
unfolding presence
see con now d s =
    let (online, authorized) = presence con d in
    let (next, p') = reconcile d online authorized (is_held d.id s.db) now s.poller in
    record s {
      db =
          if not (same_status next d.status) || online
          then set_device_status d.id next now s.db
          else s.db;
      poller = p';
    }

-- One device of the pool; a pending one that was just authorized is replaced.
unfoldable pub visit : Connected → ℕ → Device → PollState → PollState
unfolding see upgrade_pending register_device presence
visit con now d s =
    if is_pending d && (presence con d).1
    then (let s' = upgrade_pending con now d (see con now d s) in
        record s' { taken_ids = select (λ i. not (i == d.id)) s'.taken_ids })
    else see con now d s

unfoldable pub visit_all : Connected → ℕ → List Device → PollState → PollState
unfolding visit
visit_all con now [] s = s
visit_all con now (d ∷ ds) s = visit_all con now ds (visit con now d s)

unfoldable pub auto_register_android : Connected → ℕ → Text → Bool → PollState → PollState
unfolding register_device
auto_register_android con now serial authorized s =
    if authorized
    then (let sp = con.adb_specs serial in
        register_some
          (named sp.manufacturer sp (λ i. auto_device i android serial [] sp free now) s) s)
    else register_device
        (auto_device (pending_id serial) android serial [] no_specs unauthorized now) s

unfoldable pub auto_register_ios : Connected → ℕ → Text → PollState → PollState
unfolding register_device
auto_register_ios con now udid s =
    let (sp, readable) = con.ios_specs udid in
    if readable
    then register_some (named (codes "apple") sp (λ i. auto_device i ios [] udid sp free now) s) s
    else register_device (auto_device (pending_id udid) ios [] udid no_specs unauthorized now) s

-- The loops over what is connected and not known yet.
unfoldable pub discover_android :
    Connected → ℕ → List (Text × Text) → List Text → PollState → PollState
discover_android con now [] known s = s
discover_android con now ((serial, st) ∷ rest) known s =
    let skip = discover_android con now rest known s in
    let s' = auto_register_android con now serial (st == codes "device") s in
    let go = discover_android con now rest (serial ∷ known) s' in
    if mem serial known || st == codes "offline" then skip else go

unfoldable pub discover_ios : Connected → ℕ → List Text → List Text → PollState → PollState
discover_ios con now [] known s = s
discover_ios con now (udid ∷ rest) known s =
    let skip = discover_ios con now rest known s in
    let go = discover_ios con now rest (udid ∷ known) (auto_register_ios con now udid s) in
    if mem udid known then skip else go

abbrev pub known_serials : List Device → List Text
known_serials ds = select (λ t. not (is_empty t)) (map (λ d. d.serial) ds)

abbrev pub known_udids : List Device → List Text
known_udids ds = select (λ t. not (is_empty t)) (map (λ d. d.udid) ds)

-- pollOnce, with the setting `auto_discover`.
unfoldable pub poll_once : Bool → Connected → ℕ → Poller → Db → Db × Poller
unfolding visit_all discover_android discover_ios
poll_once auto_discover con now p db =
    let pool = all_devices db in
    let s =
      visit_all con now pool (record { db = db; poller = p; taken_ids = map (λ d. d.id) pool }) in
    if not auto_discover
    then (s.db, s.poller)
    else (let s1 = discover_android con now con.android_states (known_serials pool) s in
        let s2 = discover_ios con now con.ios_online (known_udids pool) s1 in (s2.db, s2.poller))

abbrev specs_of : Connected → (Text → Bool) → Device → Option Specs
specs_of con adb_ok d = elim d.platform [
  | android ↦ if adb_ok d.serial then some (con.adb_specs d.serial) else none
  | ios ↦ let (sp, readable) = con.ios_specs d.udid in if readable then some sp else none
]

-- refreshSpecs; `adb_ok` tells whether adb could read the specs of a serial.
unfoldable pub refresh_specs : Connected → (Text → Bool) → List Device → Db → Db
refresh_specs con adb_ok [] db = db
refresh_specs con adb_ok (d ∷ ds) db =
    refresh_specs con adb_ok ds
      (elim (specs_of con adb_ok d) [ none ↦ db | some sp ↦ set_device_specs d.id sp db ])
