-- ===== src/Runner/Closing.antt =====
-- Runs that end: what execute leaves behind, and what recover cleans up.
use poligon.Base.{
  Bool, List, Option, Text, [], any, any-cong, any-update, ap, arith, false, find_first,
  find_first-true, find_first-update, inl, inr, map, mem, none, not, refl, select, some, subst, sym,
  true, ℕ, ◌&&◌, ◌==◌, ◌∙◌, ◌∷◌, ◌≡◌,
}
use poligon.Model.{Run, RunDevice, RunStatus, error, queued, running}
use poligon.Reserve.{any_batch_rows, batch_devices, release, release_all, release_batch}
use poligon.Runner.Execute.{
  Outcome, aggregate, execute, recover, recover_all, recover_run, restarted, run_all_devices,
  run_device,
}
use poligon.Store.{Db, Result, Result-cases, err, ok}
use poligon.Store.Runs.{
  coalesce, devices_of, fail_run_devices_not_done, get_run, is_unfinished, orphan_runs, run_owner,
  set_run_device, set_run_status, status_is,
}

-- What release_batch does not touch.
release-frame :
    (i user : Text) (admin : Bool) (db : Db) → (release i user admin db).0.runs ≡ db.runs
unfolding release
release-frame i user admin db = ground arith

release_all-frame :
    (is : List Text) (user : Text) (admin : Bool) (db : Db)
    → (release_all is user admin db).runs ≡ db.runs
unfolding release_all
release_all-frame [] user admin db = refl
release_all-frame (i ∷ is) user admin db =
    release_all-frame is user admin (release i user admin db).0 ∙ release-frame i user admin db

release_batch-frame :
    (batch user : Text) (admin : Bool) (db : Db)
    → (release_batch batch user admin db).0.runs ≡ db.runs
unfolding release_batch
release_batch-frame batch user admin db = elim (Result-cases (batch_devices batch user db)) [
  | inl (is, c) ↦ ground (arith, release_all-frame is user admin db)
  | inr (x, c) ↦ ground (arith, release_all-frame (any_batch_rows batch db) user admin db)
]

pub run_all_devices-frame :
    (did : Text → Outcome) (rds : List RunDevice) (db : Db)
    → (run_all_devices did rds db).runs ≡ db.runs
unfolding run_all_devices run_device set_run_device
run_all_devices-frame did [] db = refl
run_all_devices-frame did (rd ∷ rds) db =
    run_all_devices-frame did rds (run_device o.start o.fin o.timed_out o.handler rd db)
  where
    o : Outcome
    o = did rd.device_id

abbrev pub is_running : Run → Bool
is_running r = status_is running r.status

unfoldable pub marked : ℕ → Text → Db → Db
marked fin i db =
    set_run_status i error restarted none (some fin) (fail_run_devices_not_done i restarted db)

pub recover_run-frame :
    (fin : ℕ) (i batch : Text) (db : Db)
    → (recover_run fin i batch db).runs ≡ (marked fin i db).runs
unfolding marked
recover_run-frame fin i batch db = elim (Result-cases (run_owner i (marked fin i db))) [
  | inl (owner, c) ↦ ground (arith, release_batch-frame batch owner true (marked fin i db))
  | inr (x, c) ↦ ground arith
]

-- Recovering one run leaves the running runs of another id as they were.
recover_run-running :
    (fin : ℕ) (i batch : Text) (db : Db) (q : Text → Bool)
    → any (λ r. is_running r && q r.id) (recover_run fin i batch db).runs
      ≡ any (λ r. is_running r && q r.id && not (r.id == i)) db.runs
unfolding marked set_run_status fail_run_devices_not_done
recover_run-running fin i batch db q =
    ap (any (λ r. is_running r && q r.id)) (recover_run-frame fin i batch db)
    ∙ any-update (λ r. is_running r && q r.id) (λ r. is_running r && q r.id && not (r.id == i))
        (λ r. r.id == i) _ db.runs (λ r. ground arith)

abbrev ids_of : List (Text × Text) → List Text
ids_of os = map (λ o. o.0) os

recover_all-running :
    (fin : ℕ) (os : List (Text × Text)) (db : Db) (q : Text → Bool)
    → any (λ r. is_running r && q r.id) (recover_all fin os db).runs
      ≡ any (λ r. is_running r && q r.id && not (mem r.id (ids_of os))) db.runs
unfolding recover_all
recover_all-running fin [] db q =
    any-cong (λ r. is_running r && q r.id) (λ r. is_running r && q r.id && true) db.runs
      (λ r. ground arith)
recover_all-running fin ((i, batch) ∷ os) db q =
    recover_all-running fin os (recover_run fin i batch db) q
    ∙ any-cong (λ r. is_running r && q r.id && not (mem r.id (ids_of os)))
        (λ r. is_running r && (q r.id && not (mem r.id (ids_of os))))
        (recover_run fin i batch db).runs (λ r. ground arith)
    ∙ recover_run-running fin i batch db (λ x. q x && not (mem x (ids_of os)))
    ∙ any-cong _ (λ r. is_running r && q r.id && not (mem r.id (i ∷ ids_of os))) db.runs
        (λ r. ground arith)

orphans_cover :
    (rows all_rows : List Run)
    → ((x : Text)
        → mem x (map (λ r. r.id) (select is_running rows)) ≡ true
        → mem x (map (λ r. r.id) (select is_running all_rows)) ≡ true)
    → any
        (λ r. is_running r && true && not (mem r.id (map (λ r. r.id) (select is_running all_rows))))
        rows
      ≡ false
orphans_cover [] all_rows h = refl
orphans_cover (r ∷ rows) all_rows h =
    ground (arith, h r.id, orphans_cover rows all_rows (λ x e. h x (ground arith)))

ids_of-orphans : (rows : List Run) → ids_of (map (λ r. (r.id, r.batch)) rows) ≡ map (λ r. r.id) rows
ids_of-orphans [] = refl
ids_of-orphans (r ∷ rows) = ap (λ l. r.id ∷ l) (ids_of-orphans rows)

-- After recover no run is left running.
pub recover-running : (fin : ℕ) (db : Db) → any is_running (recover fin db).runs ≡ false
unfolding recover orphan_runs
recover-running fin db =
    any-cong is_running (λ r. is_running r && true) (recover fin db).runs (λ r. ground arith)
    ∙ recover_all-running fin (orphan_runs db) db (λ x. true)
    ∙ ap (λ ids. any (λ r. is_running r && true && not (mem r.id ids)) db.runs)
        (ids_of-orphans (select is_running db.runs))
    ∙ orphans_cover db.runs db.runs (λ x e. e)

-- The run of an id, as execute leaves it: closed, at the given time.
abbrev IsClosed : ℕ → Result Run → Type 0
IsClosed fin (ok r) =
    (is_unfinished r.status ≡ false)
    × (status_is queued r.status ≡ false)
    × (r.finished_at ≡ some fin)
IsClosed fin (err e) = ⊥

pub aggregate-done :
    (c : Bool) (ds : List RunDevice)
    → (is_unfinished (aggregate c ds) ≡ false) × (status_is queued (aggregate c ds) ≡ false)
unfolding aggregate
aggregate-done c ds = ground arith

set_run_status-get :
    (i : Text) (st : RunStatus) (text : Text) (started finished : Option ℕ) (db : Db) (run : Run)
    → find_first (λ r. r.id == i) db.runs ≡ some run
    → find_first (λ r. r.id == i) (set_run_status i st text started finished db).runs
      ≡ some (record run {
        status = st;
        detail = text;
        started_at = coalesce started run.started_at;
        finished_at = coalesce finished run.finished_at;
      })
unfolding set_run_status
set_run_status-get i st text started finished db run h = ground (
  arith,
  find_first-update (λ r. r.id == i) (λ r. r.id == i)
      (λ r. record r {
        status = st;
        detail = text;
        started_at = coalesce started r.started_at;
        finished_at = coalesce finished r.finished_at;
      })
      db.runs (λ r. refl),
  find_first-true (λ r. r.id == i) db.runs run h,
)

pub get_run-find :
    (i : Text) (db : Db) (run : Run)
    → get_run i db ≡ ok run
    → find_first (λ r. r.id == i) db.runs ≡ some run
unfolding get_run
get_run-find i db run h = ground arith

-- The database that execute has at its end, before it gives the batch back.
unfoldable pub closed : (Text → Outcome) → Bool → ℕ → ℕ → Text → Db → Db
closed did c start fin i db =
    let begun = set_run_status i running [] (some start) none db in
    let ended = run_all_devices did (devices_of i begun) begun in
    set_run_status i (aggregate c (devices_of i ended)) [] none (some fin) ended

pub closed-get :
    (did : Text → Outcome) (c : Bool) (start fin : ℕ) (i : Text) (db : Db) (run : Run)
    → get_run i db ≡ ok run
    → (let begun = set_run_status i running [] (some start) none db in
        let ended = run_all_devices did (devices_of i begun) begun in
        get_run i (closed did c start fin i db)
        ≡ ok (record run {
          status = aggregate c (devices_of i ended);
          detail = [];
          started_at = some start;
          finished_at = some fin;
        }))
unfolding closed get_run
closed-get did c start fin i db run h =
    let begun = set_run_status i running [] (some start) none db in
    let ended = run_all_devices did (devices_of i begun) begun in
    let st = aggregate c (devices_of i ended) in
    let r1 = record run { status = running; detail = []; started_at = some start } in
    let first =
      set_run_status-get i running [] (some start) none db run (get_run-find i db run h) in
    let kept =
      ap (find_first (λ r. r.id == i)) (run_all_devices-frame did (devices_of i begun) begun)
      ∙ first in
    let last = set_run_status-get i st [] none (some fin) ended r1 kept in rw (get_run, last)

closed-IsClosed :
    (did : Text → Outcome) (c : Bool) (start fin : ℕ) (i : Text) (db : Db) (run : Run)
    → get_run i db ≡ ok run
    → IsClosed fin (get_run i (closed did c start fin i db))
closed-IsClosed did c start fin i db run h =
    let begun = set_run_status i running [] (some start) none db in
    let ended = run_all_devices did (devices_of i begun) begun in
    let (d0, d1) = aggregate-done c (devices_of i ended) in
    subst (IsClosed fin) (sym (closed-get did c start fin i db run h)) (d0, d1, refl)

pub execute-runs :
    (did : Text → Outcome) (c : Bool) (start fin : ℕ) (i : Text) (db : Db) (run : Run)
    → get_run i db ≡ ok run
    → run.status ≡ queued
    → (execute did c start fin i db).runs ≡ (closed did c start fin i db).runs
unfolding execute closed
execute-runs did c start fin i db run h q =
    ground (arith, release_batch-frame run.batch run.user true (closed did c start fin i db))

pub execute-get :
    (did : Text → Outcome) (c : Bool) (start fin : ℕ) (i : Text) (db : Db) (run : Run)
    → get_run i db ≡ ok run
    → run.status ≡ queued
    → get_run i (execute did c start fin i db) ≡ get_run i (closed did c start fin i db)
execute-get did c start fin i db run h q =
    get_run-runs (execute did c start fin i db) (closed did c start fin i db)
      (execute-runs did c start fin i db run h q)
  where
    get_run-runs : (a b : Db) → a.runs ≡ b.runs → get_run i a ≡ get_run i b
    get_run-runs a b e = unfold get_run in ground arith

-- Executing a run that is stored as queued ends it: whatever its devices did, its status is a final one afterwards
-- and its finishing time is recorded, so the scheduler does not take it up again.
execute-IsClosed :
    (did : Text → Outcome) (canceled_by_caller : Bool) (start fin : ℕ) (i : Text) (db : Db)
    (run : Run)
    → get_run i db ≡ ok run
    → run.status ≡ queued
    → IsClosed fin (get_run i (execute did canceled_by_caller start fin i db))
execute-IsClosed did canceled_by_caller start fin i db run h q =
    subst (IsClosed fin) (sym (execute-get did canceled_by_caller start fin i db run h q))
      (closed-IsClosed did canceled_by_caller start fin i db run h)
