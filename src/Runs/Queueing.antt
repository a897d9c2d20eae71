-- ===== src/Runs/Queueing.antt =====
-- internal/api/runs.go and internal/runner/runner.go: a run that createRun answers with is in the queue.
use poligon.Base.{
  ==-refl, List, Text, [], arith, find_first-append_none, find_first-none-any, if_keeps,
  if◌then◌else◌, inl, inr, is_empty, map, mem, none, not, refl, subst, sym, true, ℕ, ◌==◌, ◌∷◌, ◌≡◌,
  ◌⊎◌,
}
use poligon.Model.{Platform, Run, RunSpec, queued}
use poligon.Reserve.{Manager, release_batch}
use poligon.Runner.{
  RunError, Submitted, accepted, acquire, no_devices_given, platforms, rejected, run_types,
  store_acquired, store_failed, store_run, submit,
}
use poligon.Runs.{
  RunAnswer, RunServer, answer_submitted, canceling, create_run_of, create_with, form_devices,
  redacted, run_failure, run_is, runs_are, submit_form, trigger_of, upload_dir,
}
use poligon.Runs.Accepting.{IsRead, read_spec-IsRead}
use poligon.Runs.Form.{RunForm, Step, accept, refuse}
use poligon.Runs.Inputs.{kind_of}
use poligon.Store.{Db, Result, err, ok}
use poligon.Store.Runs.{create_run, get_run}

-- What Submit promises of a run that it accepts.
pub record IsQueued (user typ : Text) (spec : RunSpec) (db : Db) (r : Run) : Type 0 where
  pub stored : get_run r.id db ≡ ok r
  pub waits : r.status ≡ queued
  pub owner : r.user ≡ user
  pub type : r.kind ≡ typ
  pub inputs : r.spec ≡ spec

abbrev Queued : Text → Text → RunSpec → Db × Submitted → Type 0
Queued user typ spec (db, accepted r) = IsQueued user typ spec db r
Queued user typ spec (db, rejected e) = Unit

abbrev as_queued : ℕ → Run → Run
as_queued now run = record run {
  status = queued;
  detail = [];
  created_at = now;
  started_at = none;
  finished_at = none;
}

-- The row of a new run is found by its id.
get_run-create_run :
    (now : ℕ) (run : Run) (plats : List (Text × Platform)) (db db' : Db)
    → create_run now run plats db ≡ ok (tt, db')
    → get_run run.id db' ≡ ok (as_queued now run)
unfolding create_run get_run
get_run-create_run now run plats db db' e =
    let last =
      find_first-append_none (λ (r : Run). r.id == run.id) db.runs (as_queued now run ∷ []) in
    ground (arith, last, find_first-none-any (λ (r : Run). r.id == run.id) db.runs, ==-refl run.id)

store_run-Queued :
    (now : ℕ) (run : Run) (plats : List (Text × Platform)) (db : Db)
    → Queued run.user run.kind run.spec (store_run now run plats db)
store_run-Queued now run plats db = of_created (create_run now run plats db) refl
  where
    of_created :
        (c : Result (Unit {0} × Db))
        → create_run now run plats db ≡ c
        → Queued run.user run.kind run.spec (
            let stored : Db × Result (Unit {0}) = elim c [
              | ok (a, db') ↦ (db', ok a)
              | err e ↦ (db, err e)
            ] in
            let answer : Db × Submitted = elim stored.1 [
              | ok _ ↦ elim (get_run run.id stored.0) [
                | ok r ↦ (stored.0, accepted r)
                | err e ↦ (stored.0, rejected (store_failed e))
              ]
              | err e ↦ (
                if is_empty run.batch
                    then stored.0
                    else (release_batch run.batch run.user true stored.0).0,
                rejected (store_failed e),
              )
            ] in
            answer)
    of_created (err e) p = tt
    of_created (ok (tt, db')) p =
        let found = get_run-create_run now run plats db db' p in
        rw found (record { stored = found; waits = refl; owner = refl; type = refl; inputs = refl })

store_acquired-Queued :
    (now : ℕ) (rid user typ : Text) (spec : RunSpec) (trigger : Text)
    (plats : List (Text × Platform)) (x : Db × (Text ⊎ RunError))
    → Queued user typ spec (store_acquired now rid user typ spec trigger plats x)
store_acquired-Queued now rid user typ spec trigger plats (db, inr e) = tt
store_acquired-Queued now rid user typ spec trigger plats (db, inl held) =
    store_run-Queued now _ plats db

submit-Queued :
    (m : Manager) (now : ℕ) (batch rid user typ : Text) (spec : RunSpec) (ids : List Text)
    (trigger : Text) (db : Db)
    → Queued user typ spec (submit m now batch rid user typ spec ids trigger db)
unfolding submit
submit-Queued m now batch rid user typ spec ids trigger db =
    if_keeps (Queued user typ spec) (not (mem typ run_types)) _ _ tt
      (of_platforms (platforms ids [] db))
  where
    of_platforms :
        (p : Result (List (Text × Platform)))
        → Queued user typ spec (
            let answer : Db × Submitted = elim p [
              | err e ↦ (db, rejected (store_failed e))
              | ok [] ↦ (db, rejected no_devices_given)
              | ok (x ∷ plats) ↦
                  store_acquired now rid user typ spec trigger
                    (x ∷ plats)
                    (acquire m now batch user (map (λ y. y.0) (x ∷ plats)) db)
            ] in
            answer)
    of_platforms (err e) = tt
    of_platforms (ok []) = tt
    of_platforms (ok (x ∷ plats)) =
        store_acquired-Queued now rid user typ spec trigger (x ∷ plats) _

-- A run in the queue, with the inputs that its type needs.
pub record IsAccepted (user : Text) (db : Db) (shown : Run) (r : Run) : Type 0 where
  pub answered : shown ≡ redacted r
  pub stored : get_run r.id db ≡ ok r
  pub waits : r.status ≡ queued
  pub owner : r.user ≡ user
  pub read : IsRead r.kind r.spec

abbrev pub Accepts : Text → Db × RunAnswer → Type 0
Accepts user (db, run_is shown ds) = (r : Run) × IsAccepted user db shown r
Accepts user (db, runs_are rs n) = Unit
Accepts user (db, canceling) = Unit
Accepts user (db, run_failure n) = Unit

answer_submitted-Accepts :
    (user typ : Text) (spec : RunSpec) (x : Db × Submitted)
    → IsRead typ spec
    → Queued user typ spec x
    → Accepts user (answer_submitted x)
answer_submitted-Accepts user typ spec (db, rejected e) h q = tt
answer_submitted-Accepts user typ spec (db, accepted r) h q = (
  r,
  record {
    answered = refl;
    stored = q.stored;
    waits = q.waits;
    owner = q.owner;
    read = subst (λ s. IsRead r.kind s) (sym q.inputs) (subst (λ t. IsRead t spec) (sym q.type) h);
  },
)

module _ (srv : RunServer) (now : ℕ) (batch rid user : Text) (form : RunForm) (db : Db) where
  submit_form-Accepts :
      (spec : RunSpec) (is : Step (List Text))
      → IsRead (kind_of form) spec
      → Accepts user (submit_form srv now batch rid user form spec db is)
  submit_form-Accepts spec (refuse n) h = tt
  submit_form-Accepts spec (accept is) h =
      answer_submitted-Accepts user (kind_of form) spec _ h
        (submit-Queued srv.manager now batch rid user (kind_of form) spec is (trigger_of form) db)

  create_with-Accepts :
      (s : Step RunSpec)
      → ((spec : RunSpec) → s ≡ accept spec → IsRead (kind_of form) spec)
      → Accepts user (create_with srv now batch rid user form db s)
  create_with-Accepts (refuse n) h = tt
  create_with-Accepts (accept spec) h =
      submit_form-Accepts spec (form_devices form db) (h spec refl)

-- Whatever the form and the files are: a run that createRun answers with is stored, waits in the
-- queue and is the caller's. It is of a known type and has the inputs that this type needs, with at
-- most one build and one test build for each platform; the names of its environment variables are
-- words of letters, digits and underscores that do not begin with POLIGON_.
pub create_run_of-Accepts :
    (srv : RunServer) (now : ℕ) (stamp batch rid user : Text) (form : RunForm) (db : Db)
    → Accepts user (create_run_of srv now stamp batch rid user form db)
unfolding create_run_of
create_run_of-Accepts srv now stamp batch rid user form db =
    create_with-Accepts srv now batch rid user form db _
      (λ spec e. read_spec-IsRead srv.files (upload_dir srv.storage stamp) form spec e)
