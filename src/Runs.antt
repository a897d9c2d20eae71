-- ===== src/Runs.antt =====
-- internal/api/runs.go: the handlers of test runs, for a user who is signed in. A handler is its effect
-- on the store and its answer.
pub mod Form
pub mod Inputs
pub mod Selecting
pub mod Bookable
pub mod Hiding
pub mod Accepting
pub mod Checking
pub mod Queueing
use poligon.Base.{
  Bool, List, Text, [], all, any, codes, eqb, false, has_prefix, if◌then◌else◌, is_empty, length,
  map, mem, none, not, select, some, ℕ, ◌&&◌, ◌*◌, ◌++◌, ◌+◌, ◌==◌, ◌||◌, ◌∷◌,
}
use poligon.Model.{
  Platform, Run, RunDevice, RunSpec, RunStatus, canceled, error, failed, passed, pending, queued,
  running, skipped,
}
use poligon.Paths.{FilePath, base_name, clean, join_path, render_path, slash, split_at}
use poligon.Reserve.{Manager}
use poligon.Runner.{Submitted, accepted, rejected, submit}
use poligon.Runner.Workspace.{Disk}
use poligon.Runs.Form.{Files, RunForm, Step, accept, or_refuse, refuse, require, ◌>>=◌, ◌>>◌}
use poligon.Runs.Inputs.{kind_of, number_or_zero, read_spec}
use poligon.Runs.Selecting.{select_devices}
use poligon.Store.{Db, Result, err, ok}
use poligon.Store.Listing.{RunFilter, list_runs, run_status_text, trim_space}
use poligon.Store.Runs.{devices_of, get_run, run_owner}

pub data RunAnswer : Type 0 where
  run_is : Run → List RunDevice → RunAnswer
  runs_are : List Run → ℕ → RunAnswer
  canceling : RunAnswer
  run_failure : ℕ → RunAnswer

-- The parts that the handlers use, with the directory of the storage.
pub record RunServer : Type 0 where
  pub manager : Manager
  pub files : Files
  pub storage : FilePath

abbrev pub base_names : List (Platform × Text) → List (Platform × Text)
base_names arts = map (λ x. (x.0, base_name x.1)) arts

-- Run.Redacted, which an answer holds in place of the run.
unfoldable pub redacted : Run → Run
unfolding base_name
redacted run = record run {
  spec = record run.spec {
    flow_path = if is_empty run.spec.flow_path then [] else base_name run.spec.flow_path;
    env = map (λ x. (x.0, codes "***")) run.spec.env;
    artifacts = base_names run.spec.artifacts;
    test_artifacts = base_names run.spec.test_artifacts;
  };
}

abbrev pub answer_submitted : Db × Submitted → Db × RunAnswer
answer_submitted (db, accepted run) = (db, run_is (redacted run) (devices_of run.id db))
answer_submitted (db, rejected e) = (db, run_failure 409)

-- The devices of the form, or else those that it selects.
unfoldable pub form_devices : RunForm → Db → Step (List Text)
unfolding select_devices
form_devices form db =
    if is_empty form.devices
    then (or_refuse (select_devices form.platform form.tag form.count db) 400 >>= λ is.
        require (not (is_empty is)) 400 >> accept is)
    else accept form.devices

abbrev pub trigger_of : RunForm → Text
trigger_of form =
    if not form.is_multipart || form.has_authorization then codes "api" else codes "ui"

abbrev pub upload_dir : FilePath → Text → FilePath
upload_dir storage stamp = join_path (join_path storage (codes "uploads")) (stamp ++ codes "-run")

-- The submission of the inputs that were read, on the devices of the form.
abbrev pub submit_form :
    RunServer → ℕ → Text → Text → Text → RunForm → RunSpec → Db → Step (List Text) → Db × RunAnswer
submit_form srv now batch rid user form spec db (refuse n) = (db, run_failure n)
submit_form srv now batch rid user form spec db (accept is) =
    answer_submitted
      (submit srv.manager now batch rid user (kind_of form) spec is (trigger_of form) db)

abbrev pub create_with :
    RunServer → ℕ → Text → Text → Text → RunForm → Db → Step RunSpec → Db × RunAnswer
create_with srv now batch rid user form db (refuse n) = (db, run_failure n)
create_with srv now batch rid user form db (accept spec) =
    submit_form srv now batch rid user form spec db (form_devices form db)

-- createRun, with the time stamp of the directory and the random ids of the batch and the run.
unfoldable pub create_run_of :
    RunServer → ℕ → Text → Text → Text → Text → RunForm → Db → Db × RunAnswer
create_run_of srv now stamp batch rid user form db =
    create_with srv now batch rid user form db
      (read_spec srv.files (upload_dir srv.storage stamp) form)

-- getRun
unfoldable pub show_run : Text → Db → RunAnswer
unfolding redacted
show_run i db = elim (get_run i db) [
  | err _ ↦ run_failure 404
  | ok run ↦ run_is (redacted run) (devices_of i db)
]

-- The query of a list, as text.
pub record RunQuery : Type 0 where
  pub kind : Text
  pub user : Text
  pub search : Text
  pub status : Text
  pub limit : Text
  pub offset : Text

abbrev pub comma : ℕ
comma = b','

-- A status with a comma is a list of statuses.
unfoldable pub filter_of : RunQuery → RunFilter
unfolding split_at trim_space
filter_of q =
    let many = any (λ c. eqb c comma) q.status in
    record {
      status = if many then [] else q.status;
      statuses =
          if many
          then select (λ s. not (is_empty s)) (map trim_space (split_at comma q.status))
          else [];
      kind = q.kind;
      user = q.user;
      search = q.search;
      limit = number_or_zero q.limit;
      offset = number_or_zero q.offset;
    }

abbrev pub answer_listed : Result (List Run × ℕ) → RunAnswer
answer_listed (err e) = run_failure 500
answer_listed (ok (rs, total)) = runs_are (map redacted rs) total

-- listRuns
unfoldable pub show_runs : (Text → Run → List RunDevice → Bool) → RunQuery → Db → RunAnswer
show_runs likes q db = answer_listed (list_runs likes (filter_of q) db)

-- The files of the first submission have to be there still.
abbrev pub inputs_exist : Disk → RunSpec → Bool
inputs_exist disk spec =
    all (λ x. disk.exists x.1) spec.artifacts
    && all (λ x. disk.exists x.1) spec.test_artifacts
    && (is_empty spec.flow_path || disk.exists spec.flow_path)

abbrev pub rerun_with : RunServer → ℕ → Text → Text → Text → Db → Result Run → Db × RunAnswer
rerun_with srv now batch rid user db (err e) = (db, run_failure 404)
rerun_with srv now batch rid user db (ok old) =
    if not (inputs_exist srv.files.disk old.spec)
    then (db, run_failure 410)
    else answer_submitted (
        submit srv.manager now batch rid user old.kind old.spec
          (map (λ d. d.device_id) (devices_of old.id db)) (codes "ui") db)

-- rerunRun
unfoldable pub rerun : RunServer → ℕ → Text → Text → Text → Text → Db → Db × RunAnswer
rerun srv now batch rid user i db = rerun_with srv now batch rid user db (get_run i db)

-- cancelRun; the ids of the runs that execute and, of these, of those that are told to stop.
unfoldable pub cancel_run : Text → Text → List Text → List Text → Db → List Text × RunAnswer
cancel_run user i active told db = elim (run_owner i db) [
  | err _ ↦ (told, run_failure 404)
  | ok owner ↦
      if not (owner == user)
      then (told, run_failure 403)
      else if not (mem i active)
      then (told, run_failure 409)
      else (i ∷ told, canceling)
]

abbrev pub status_color : RunStatus → Text
status_color passed = codes "#3fb950"
status_color failed = codes "#e5534b"
status_color error = codes "#e5534b"
status_color running = codes "#d29922"
status_color queued = codes "#d29922"
status_color canceled = codes "#8b949e"
status_color pending = codes "#9f9f9f"
status_color skipped = codes "#9f9f9f"

-- runBadge, for an id without its suffix: the label, its colour, and the width of the badge.
unfoldable pub run_badge : Text → Db → Text × Text × ℕ
run_badge i db =
    let (label, color) : Text × Text = elim (get_run i db) [
      | err _ ↦ (codes "unknown", codes "#9f9f9f")
      | ok run ↦ (run_status_text run.status, status_color run.status)
    ] in
    (label, color, 44 + (8 * length label + 20))

abbrev pub names_dir : Text → Bool
names_dir s = any (λ c. eqb c b'/' || eqb c 0x5C) s

abbrev pub has_dots : Text → Bool
has_dots [] = false
has_dots (c ∷ []) = false
has_dots (c ∷ d ∷ s) = (eqb c b'.' && eqb d b'.') || has_dots (d ∷ s)

-- runArtifact: the path of the file that is served, or the code of a refusal.
unfoldable pub run_artifact : FilePath → Text → Text → Text → Db → Step FilePath
unfolding join_path clean render_path
run_artifact storage i dev rel db =
    if names_dir i || names_dir dev || has_dots rel || any (λ c. eqb c 0x5C) rel
    then refuse 400
    else elim (get_run i db) [
      | err _ ↦ refuse 404
      | ok _ ↦
          let root = join_path storage (codes "runs") in
          let path =
            join_path (join_path (join_path root i) dev) (render_path (clean (slash ∷ rel))) in
          if render_path path == render_path root
          then accept path
          else elim (has_prefix (render_path root ++ slash ∷ []) (render_path path)) [
            | none ↦ refuse 400
            | some _ ↦ accept path
          ]
    ]
