-- ===== src/Runner/Execute.antt =====
-- internal/runner/runner.go: execute, runDevice, smoke, recover and drainQueue.
use poligon.Base.{
  Bool, List, Text, [], codes, eqb, if◌then◌else◌, is_empty, length, ltb, none, not, select, some,
  true, ℕ, ◌&&◌, ◌∷◌,
}
use poligon.Model.{
  Platform, RunDevice, RunStatus, android, canceled, error, failed, ios, passed, queued, running,
  skipped,
}
use poligon.Reserve.{release_batch}
use poligon.Store.{Db, err, ok}
use poligon.Store.Runs.{
  devices_of, fail_run_devices_not_done, get_run, orphan_runs, run_owner, set_run_device,
  set_run_status, status_is,
}

-- What smoke finds out about an Android device, in the order of its steps; `has_controller` is
-- about iOS only.
pub record Smoke : Type 0 where
  pub has_controller : Bool
  pub has_artifact : Bool
  pub install_ok : Bool
  pub deadline_hit : Bool
  pub crash_found : Bool
  pub alive : Bool
  pub package_known : Bool
  pub wda_ok : Bool
  pub is_foreground : Bool
  pub pid : ℕ

abbrev pub verdict_android : Smoke → RunStatus
verdict_android s = if s.crash_found then failed else if not s.alive then failed else passed

abbrev pub verdict_ios : Smoke → RunStatus
verdict_ios s =
    if not s.package_known
    then error
    else if not s.wda_ok
    then error
    else if not s.is_foreground
    then failed
    else if eqb s.pid 0
    then failed
    else passed

-- The status that smoke leaves in the row of the device.
unfoldable pub smoke : Platform → Smoke → RunStatus
smoke android s =
    if not s.has_artifact
    then skipped
    else if not s.install_ok
    then error
    else if s.deadline_hit
    then canceled
    else verdict_android s
smoke ios s =
    if not s.has_controller
    then skipped
    else if not s.has_artifact
    then skipped
    else if not s.install_ok
    then error
    else if s.deadline_hit
    then canceled
    else verdict_ios s

-- What runDevice makes of the status that its handler left: the test for the timeout, then the
-- deferred one for a handler without a verdict.
unfoldable pub conclude : Bool → RunStatus → RunStatus
conclude timed_out running = error
conclude timed_out st = st

-- runDevice, with the handler's status and the time of its end.
unfoldable pub run_device : ℕ → ℕ → Bool → RunStatus → RunDevice → Db → Db
run_device start fin timed_out st rd db =
    let started = record rd { started_at = some start; status = running } in
    set_run_device (record started { finished_at = some fin; status = conclude timed_out st })
      (set_run_device started db)

abbrev pub count_status : RunStatus → List RunDevice → ℕ
count_status st ds = length (select (λ d. status_is st d.status) ds)

-- The status of a run, from the rows of its devices.
unfoldable pub aggregate : Bool → List RunDevice → RunStatus
aggregate canceled_by_caller ds =
    if canceled_by_caller
    then canceled
    else if ltb 0 (count_status error ds)
    then error
    else if ltb 0 (count_status failed ds)
    then failed
    else if eqb (count_status passed ds) 0 && ltb 0 (count_status skipped ds)
    then error
    else passed

-- What the devices of a run did: for each row its start, its end, whether the deadline was
-- exceeded, and the status of its handler.
pub record Outcome : Type 0 where
  pub start : ℕ
  pub fin : ℕ
  pub timed_out : Bool
  pub handler : RunStatus

unfoldable pub run_all_devices : (Text → Outcome) → List RunDevice → Db → Db
run_all_devices did [] db = db
run_all_devices did (rd ∷ rds) db =
    let o = did rd.device_id in
    run_all_devices did rds (run_device o.start o.fin o.timed_out o.handler rd db)

-- execute: only a queued run is started; in the end its status is set and its own batch released.
-- The heartbeats of its batch, which end no lease, are left out, and so are the detail texts.
unfoldable pub execute : (Text → Outcome) → Bool → ℕ → ℕ → Text → Db → Db
execute did canceled_by_caller start fin i db = elim (get_run i db) [
  | err _ ↦ db
  | ok run ↦
      if not (status_is queued run.status)
      then db
      else let begun = set_run_status i running [] (some start) none db in
        let ended = run_all_devices did (devices_of i begun) begun in
        let st = aggregate canceled_by_caller (devices_of i ended) in
        let closed = set_run_status i st [] none (some fin) ended in
        if is_empty run.batch then closed else (release_batch run.batch run.user true closed).0
]

abbrev pub restarted : Text
restarted = codes "poligon restarted mid-run"

-- One orphan of a process that died.
abbrev pub recover_run : ℕ → Text → Text → Db → Db
recover_run fin i batch db =
    let db' =
      set_run_status i error restarted none (some fin) (fail_run_devices_not_done i restarted db) in
    elim (run_owner i db') [
      | err _ ↦ db'
      | ok owner ↦ if is_empty batch then db' else (release_batch batch owner true db').0
    ]

unfoldable pub recover_all : ℕ → List (Text × Text) → Db → Db
recover_all fin [] db = db
recover_all fin ((i, batch) ∷ os) db = recover_all fin os (recover_run fin i batch db)

unfoldable pub recover : ℕ → Db → Db
recover fin db = recover_all fin (orphan_runs db) db
