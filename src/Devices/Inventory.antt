-- ===== src/Devices/Inventory.antt =====
-- internal/devices/devices.go: New, which writes the inventory of the configuration into the store.
use poligon.Base.{
  ==-refl, ==-sym, ==_eq, All, Bool, Bool-cases, List, Text, [], any, ap, arith, codes, false,
  find_first, find_first-append_none, find_first-append_reject, find_first-none-any, if◌then◌else◌,
  inl, inr, map, mem, none, refl, some, true, update_where, ◌&&◌, ◌++◌, ◌==◌, ◌∙◌, ◌∷◌, ◌≡◌,
}
use poligon.Config.{DeviceSpec, validate}
use poligon.Config.Validate.{are_distinct, validate-accepts}
use poligon.Model.{Device, Platform, Source, android, auto, config, ios, offline}
use poligon.Store.{Db}
use poligon.Store.Devices.{no_specs, upsert_device_inventory}

-- The platform of an entry that was validated.
abbrev pub platform_of : Text → Platform
platform_of p = if p == codes "ios" then ios else android

abbrev pub inventory_device : DeviceSpec → Device
inventory_device d = record {
  id = d.id;
  platform = platform_of d.platform;
  serial = d.serial;
  udid = d.udid;
  tags = d.tags;
  status = offline;
  source = config;
  specs = no_specs;
  last_seen = 0;
  adopted = false;
}

unfoldable pub load_inventory : List DeviceSpec → Db → Db
load_inventory [] db = db
load_inventory (d ∷ ds) db = load_inventory ds (upsert_device_inventory (inventory_device d) db)

abbrev is_config : Source → Bool
is_config auto = false
is_config config = true

-- The row of a device has the addresses of an entry, and is on the farm.
abbrev pub is_row_of : DeviceSpec → Device → Bool
is_row_of d r =
    r.id == d.id && r.serial == d.serial && r.udid == d.udid && r.adopted && is_config r.source

abbrev pub is_loaded : DeviceSpec → Db → Bool
is_loaded d db = elim (find_first (λ r. r.id == d.id) db.devices) [
  | none ↦ false
  | some r ↦ is_row_of d r
]

-- What the UPDATE of an entry does to a row, and the row that the INSERT writes.
abbrev updated_row : DeviceSpec → Device → Device
updated_row d r = record r {
  platform = platform_of d.platform;
  serial = d.serial;
  udid = d.udid;
  tags = d.tags;
  source = config;
  adopted = true;
}

abbrev inserted_row : DeviceSpec → Device
inserted_row d = record (inventory_device d) { adopted = true }

abbrev loaded_in : DeviceSpec → List Device → Bool
loaded_in d rows = elim (find_first (λ r. r.id == d.id) rows) [
  | none ↦ false
  | some r ↦ is_row_of d r
]

update-loaded_in :
    (d : DeviceSpec) (rows : List Device)
    → any (λ r. r.id == d.id) rows ≡ true
    → loaded_in d (update_where (λ r. r.id == d.id) (updated_row d) rows) ≡ true
update-loaded_in d [] h = absurd (ground arith)
update-loaded_in d (r ∷ rows) h = elim (Bool-cases (r.id == d.id)) [
  | inl e ↦ ground (arith, e, ==-refl d.serial, ==-refl d.udid)
  | inr e ↦ ground (arith, e, update-loaded_in d rows)
]

insert-loaded_in :
    (d : DeviceSpec) (rows : List Device)
    → any (λ r. r.id == d.id) rows ≡ false
    → loaded_in d (rows ++ inserted_row d ∷ []) ≡ true
insert-loaded_in d rows h = ground (
  arith,
  ==-refl d.id,
  ==-refl d.serial,
  ==-refl d.udid,
  find_first-append_none (λ r. r.id == d.id) rows (inserted_row d ∷ [])
      (find_first-none-any (λ r. r.id == d.id) rows h),
)

update-loaded_in_other :
    (d e : DeviceSpec) (rows : List Device)
    → (d.id == e.id) ≡ false
    → loaded_in d (update_where (λ r. r.id == e.id) (updated_row e) rows) ≡ loaded_in d rows
update-loaded_in_other d e [] ne = refl
update-loaded_in_other d e (r ∷ rows) ne = elim (Bool-cases (r.id == d.id)) [
  | inl h ↦ ground (arith, h, ne, ==_eq r.id d.id h)
  | inr h ↦ ground (arith, h, update-loaded_in_other d e rows ne)
]

upsert-is_loaded :
    (d : DeviceSpec) (db : Db)
    → is_loaded d (upsert_device_inventory (inventory_device d) db) ≡ true
unfolding upsert_device_inventory
upsert-is_loaded d db = elim (Bool-cases (any (λ r. r.id == d.id) db.devices)) [
  | inl h ↦ rw (upsert_device_inventory, h) (update-loaded_in d db.devices h)
  | inr h ↦ rw (upsert_device_inventory, h) (insert-loaded_in d db.devices h)
]

upsert-is_loaded_other :
    (d e : DeviceSpec) (db : Db)
    → (d.id == e.id) ≡ false
    → is_loaded d (upsert_device_inventory (inventory_device e) db) ≡ is_loaded d db
unfolding upsert_device_inventory
upsert-is_loaded_other d e db ne = elim (Bool-cases (any (λ r. r.id == e.id) db.devices)) [
  | inl h ↦ rw (upsert_device_inventory, h) (update-loaded_in_other d e db.devices ne)
  | inr h ↦
      rw (upsert_device_inventory, h)
        (ap (λ o. elim o [ none ↦ false | some r ↦ is_row_of d r ])
          (find_first-append_reject (λ r. r.id == d.id) db.devices (inserted_row e)
            (ground (arith, ne, ==-sym d.id e.id))))
]

load-is_loaded :
    (d : DeviceSpec) (ds : List DeviceSpec) (db : Db)
    → mem d.id (map (λ e. e.id) ds) ≡ false
    → is_loaded d (load_inventory ds db) ≡ is_loaded d db
unfolding load_inventory
load-is_loaded d [] db h = refl
load-is_loaded d (e ∷ ds) db h =
    load-is_loaded d ds (upsert_device_inventory (inventory_device e) db) (ground (arith, h))
    ∙ upsert-is_loaded_other d e db (ground (arith, ==-sym d.id e.id, h))

distinct-All :
    (ds : List DeviceSpec) (db : Db)
    → are_distinct (map (λ e. e.id) ds) ≡ true
    → All (λ d. is_loaded d (load_inventory ds db) ≡ true) ds
unfolding load_inventory
distinct-All [] db h = tt
distinct-All (d ∷ ds) db h = (
  load-is_loaded d ds (upsert_device_inventory (inventory_device d) db) (ground (arith, h))
      ∙ upsert-is_loaded d db,
  distinct-All ds (upsert_device_inventory (inventory_device d) db) (ground (arith, h)),
)

-- If the inventory passes validation, then after New every entry of it is a device of the farm, whose
-- row has the serial and the UDID of the entry, whatever the store held before.
pub validate-is_loaded :
    (ds : List DeviceSpec) (db : Db)
    → validate ds ≡ none
    → All (λ d. is_loaded d (load_inventory ds db) ≡ true) ds
validate-is_loaded ds db h = distinct-All ds db (ground (arith, h, validate-accepts ds))
