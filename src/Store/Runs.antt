-- ===== src/Store/Runs.antt =====
-- internal/store/runs.go: the statements on the tables `runs` and `run_devices`.
use poligon.Base.{
  Bool, List, Option, Text, [], any, false, find_first, if◌then◌else◌, leb, map, none, order_by,
  select, some, text_leb, true, update_where, ℕ, ◌&&◌, ◌++◌, ◌==◌, ◌∷◌, ◌≡◌,
}
use poligon.Model.{
  Platform, Run, RunDevice, RunStatus, canceled, error, failed, passed, pending, queued, running,
  skipped,
}
use poligon.Store.{Db, Result, Tx, constraint, err, not_found, ok}

-- The rows of `run_devices` for a new run; a device may not be named twice.
unfoldable pub insert_run_devices :
    Text → List (Text × Platform) → List RunDevice → Result (List RunDevice)
insert_run_devices rid [] rows = ok rows
insert_run_devices rid ((i, plat) ∷ ds) rows =
    let rest = insert_run_devices rid ds (
      rows
      ++ (record {
        run_id = rid;
        device_id = i;
        platform = plat;
        status = pending;
        detail = [];
        package_name = [];
        artifacts = [];
        started_at = none;
        finished_at = none;
      })
        ∷ []) in
    if any (λ d. d.run_id == rid && d.device_id == i) rows then err constraint else rest

-- The run starts queued and its devices pending, all in one transaction.
unfoldable pub create_run : ℕ → Run → List (Text × Platform) → Tx (Unit {0})
unfolding insert_run_devices
create_run now r ds db =
    if any (λ x. x.id == r.id) db.runs
    then err constraint
    else elim (insert_run_devices r.id ds db.run_devices) [
      | err e ↦ err e
      | ok rows ↦ ok (
        tt,
        record db {
          runs =
              db.runs
              ++ (record r {
                status = queued;
                detail = [];
                created_at = now;
                started_at = none;
                finished_at = none;
              })
                ∷ [];
          run_devices = rows;
        },
      )
    ]

unfoldable pub get_run : Text → Db → Result Run
get_run i db = elim (find_first (λ r. r.id == i) db.runs) [ none ↦ err not_found | some r ↦ ok r ]

-- SELECT … WHERE run_id = ? ORDER BY device_id
unfoldable pub devices_of : Text → Db → List RunDevice
devices_of i db =
    order_by (λ a b. text_leb a.device_id b.device_id) (select (λ d. d.run_id == i) db.run_devices)

abbrev pub status_is : RunStatus → RunStatus → Bool
status_is queued queued = true
status_is running running = true
status_is passed passed = true
status_is failed failed = true
status_is error error = true
status_is canceled canceled = true
status_is pending pending = true
status_is skipped skipped = true
status_is _ _ = false

-- SELECT id … WHERE status = 'queued' ORDER BY created_at ASC
unfoldable pub queued_run_ids : Db → List Text
queued_run_ids db =
    map (λ r. r.id)
      (order_by (λ a b. leb a.created_at b.created_at)
        (select (λ r. status_is queued r.status) db.runs))

abbrev pub coalesce : Option ℕ → Option ℕ → Option ℕ
coalesce none old = old
coalesce (some t) old = some t

unfoldable pub set_run_status : Text → RunStatus → Text → Option ℕ → Option ℕ → Db → Db
set_run_status i st text started finished db = record db {
  runs =
      update_where (λ r. r.id == i)
        (λ r. record r {
          status = st;
          detail = text;
          started_at = coalesce started r.started_at;
          finished_at = coalesce finished r.finished_at;
        })
        db.runs;
}

unfoldable pub set_run_device : RunDevice → Db → Db
set_run_device d db = record db {
  run_devices =
      update_where (λ r. r.run_id == d.run_id && r.device_id == d.device_id)
        (λ r. record r {
          status = d.status;
          detail = d.detail;
          package_name = d.package_name;
          artifacts = d.artifacts;
          started_at = coalesce d.started_at r.started_at;
          finished_at = coalesce d.finished_at r.finished_at;
        })
        db.run_devices;
}

-- Runs left running by a process that died, with their batches.
unfoldable pub orphan_runs : Db → List (Text × Text)
orphan_runs db = map (λ r. (r.id, r.batch)) (select (λ r. status_is running r.status) db.runs)

abbrev pub is_unfinished : RunStatus → Bool
is_unfinished pending = true
is_unfinished running = true
is_unfinished _ = false

unfoldable pub fail_run_devices_not_done : Text → Text → Db → Db
fail_run_devices_not_done i text db = record db {
  run_devices =
      update_where (λ d. d.run_id == i && is_unfinished d.status)
        (λ d. record d { status = error; detail = text }) db.run_devices;
}

unfoldable pub run_owner : Text → Db → Result Text
run_owner i db = elim (find_first (λ r. r.id == i) db.runs) [
  | none ↦ err not_found
  | some r ↦ ok r.user
]

pub get_run-found :
    (i : Text) (db : Db) (run : Run)
    → find_first (λ r. r.id == i) db.runs ≡ some run
    → get_run i db ≡ ok run
unfolding get_run
get_run-found i db run h = rw (get_run, h)
