-- ===== src/Runs/Hiding.antt =====
-- internal/model/model.go and internal/api/runs.go: what the answers about runs keep back.
use poligon.Base.{
  ==-refl, Bool, List, Text, [], all, any, arith, codes, eqb, false, if_keeps, if◌then◌else◌,
  is_empty, map, not, refl, select, text_discrete, true, ℕ, ℕ_discrete, ◌&&◌, ◌==◌, ◌||◌, ◌∷◌, ◌≡◌,
}
use poligon.Model.{Platform, Run, RunDevice, RunSpec}
use poligon.Paths.{base_name, last_or, onto_first, slash, split_at}
use poligon.Runner.{Submitted, accepted, rejected}
use poligon.Runs.{
  RunAnswer, RunQuery, RunServer, answer_listed, answer_submitted, base_names, canceling,
  create_run_of, create_with, filter_of, form_devices, inputs_exist, redacted, rerun, rerun_with,
  run_failure, run_is, runs_are, show_run, show_runs, submit_form, upload_dir,
}
use poligon.Runs.Form.{RunForm, Step, accept, refuse}
use poligon.Runs.Inputs.{read_spec}
use poligon.Store.{Db, Result, err, ok}
use poligon.Store.Listing.{list_runs}
use poligon.Store.Runs.{devices_of, get_run}

abbrev has_slash : Text → Bool
has_slash s = any (λ c. eqb c slash) s

-- A name with no directory; the root alone is its own base name.
abbrev pub is_plain : Text → Bool
is_plain s = not (has_slash s) || s == codes "/"

split_at-plain : (s : Text) → any has_slash (split_at slash s) ≡ false
unfolding split_at
split_at-plain [] = refl
split_at-plain (c ∷ s) = with_rest (split_at slash s) (split_at-plain s)
  where
    with_rest :
        (ws : List Text)
        → any has_slash ws ≡ false
        → any has_slash (if eqb c slash then [] ∷ ws else onto_first c ws) ≡ false
    with_rest [] h = ground arith
    with_rest (w ∷ ws) h = ground arith

last_plain :
    (w : Text) (ws : List Text)
    → is_plain w ≡ true
    → any has_slash ws ≡ false
    → is_plain (last_or w ws) ≡ true
last_plain w [] h k = h
last_plain w (v ∷ vs) h k = last_plain v vs (ground arith) (ground arith)

select_plain :
    (ws : List Text)
    → any has_slash ws ≡ false
    → any has_slash (select (λ w. not (is_empty w)) ws) ≡ false
select_plain [] h = refl
select_plain (w ∷ ws) h = ground (arith, select_plain ws)

base_name-plain : (s : Text) → is_plain (base_name s) ≡ true
unfolding base_name text_discrete ℕ_discrete
base_name-plain [] = refl
base_name-plain (c ∷ s) =
    let ws = split_at slash (c ∷ s) in
    last_plain (codes "/") (select (λ w. not (is_empty w)) ws) refl
      (select_plain ws (split_at-plain (c ∷ s)))

base_names-plain :
    (arts : List (Platform × Text)) → all (λ x. is_plain x.1) (base_names arts) ≡ true
base_names-plain [] = refl
base_names-plain (x ∷ arts) = ground (arith, base_name-plain x.1, base_names-plain arts)

stars_hidden :
    (env : List (Text × Text))
    → all
        (λ (x : Text × Text). x.1 == codes "***")
        (map (λ (x : Text × Text). (x.0, codes "***")) env)
      ≡ true
stars_hidden [] = refl
stars_hidden (x ∷ env) = ground (arith, ==-refl (codes "***"), stars_hidden env)

-- A run that shows no value of its environment and no directory of the server.
abbrev pub shows_nothing : Run → Bool
shows_nothing run =
    all (λ x. x.1 == codes "***") run.spec.env
    && (is_empty run.spec.flow_path || is_plain run.spec.flow_path)
    && all (λ x. is_plain x.1) run.spec.artifacts
    && all (λ x. is_plain x.1) run.spec.test_artifacts

-- The runs that an answer holds.
abbrev pub runs_in : RunAnswer → List Run
runs_in (run_is run ds) = run ∷ []
runs_in (runs_are runs n) = runs
runs_in canceling = []
runs_in (run_failure n) = []

redacted-shows_nothing : (run : Run) → shows_nothing (redacted run) ≡ true
unfolding redacted
redacted-shows_nothing run = ground (
  arith,
  stars_hidden run.spec.env,
  base_name-plain run.spec.flow_path,
  base_names-plain run.spec.artifacts,
  base_names-plain run.spec.test_artifacts,
)

submitted-shows_nothing :
    (x : Db × Submitted) → all shows_nothing (runs_in (answer_submitted x).1) ≡ true
submitted-shows_nothing (db, accepted run) = ground (arith, redacted-shows_nothing run)
submitted-shows_nothing (db, rejected e) = refl

all-redacted : (runs : List Run) → all shows_nothing (map redacted runs) ≡ true
all-redacted [] = refl
all-redacted (run ∷ runs) = ground (arith, redacted-shows_nothing run, all-redacted runs)

listed-shows_nothing :
    (x : Result (List Run × ℕ)) → all shows_nothing (runs_in (answer_listed x)) ≡ true
listed-shows_nothing (err e) = refl
listed-shows_nothing (ok (runs, n)) = all-redacted runs

show_run-shows_nothing : (i : Text) (db : Db) → all shows_nothing (runs_in (show_run i db)) ≡ true
unfolding show_run
show_run-shows_nothing i db =
    elim (get_run i db)
      as (λ (g : Result Run).
        all shows_nothing (
          runs_in
            (elim g [ err _ ↦ run_failure 404 | ok run ↦ run_is (redacted run) (devices_of i db) ]))
        ≡ true) [ err e ↦ refl | ok run ↦ ground (arith, redacted-shows_nothing run) ]

module _ (srv : RunServer) (now : ℕ) (batch rid user : Text) (db : Db) where
  submit_form-shows_nothing :
      (form : RunForm) (spec : RunSpec) (is : Step (List Text))
      → all shows_nothing (runs_in (submit_form srv now batch rid user form spec db is).1) ≡ true
  submit_form-shows_nothing form spec (refuse n) = refl
  submit_form-shows_nothing form spec (accept is) = submitted-shows_nothing _

  create_with-shows_nothing :
      (form : RunForm) (spec : Step RunSpec)
      → all shows_nothing (runs_in (create_with srv now batch rid user form db spec).1) ≡ true
  create_with-shows_nothing form (refuse n) = refl
  create_with-shows_nothing form (accept spec) =
      submit_form-shows_nothing form spec (form_devices form db)

  rerun_with-shows_nothing :
      (old : Result Run)
      → all shows_nothing (runs_in (rerun_with srv now batch rid user db old).1) ≡ true
  rerun_with-shows_nothing (err e) = refl
  rerun_with-shows_nothing (ok old) =
      if_keeps (λ (x : Db × RunAnswer). all shows_nothing (runs_in x.1) ≡ true)
        (not (inputs_exist srv.files.disk old.spec)) (db, run_failure 410) _ refl
        (submitted-shows_nothing _)

-- Whatever run is stored or submitted: each run in the answers of getRun, listRuns, createRun and
-- rerunRun has no value of an environment variable and no directory in its flow path and in the
-- paths of its builds. The texts of errors and of the devices of a run are not spoken of.
pub answers-shows_nothing :
    (srv : RunServer) (now : ℕ) (stamp batch rid user i : Text) (form : RunForm)
    (likes : Text → Run → List RunDevice → Bool) (q : RunQuery) (db : Db)
    → (all shows_nothing (runs_in (show_run i db)) ≡ true)
      × (all shows_nothing (runs_in (show_runs likes q db)) ≡ true)
      × (all shows_nothing (runs_in (create_run_of srv now stamp batch rid user form db).1) ≡ true)
      × (all shows_nothing (runs_in (rerun srv now batch rid user i db).1) ≡ true)
unfolding create_run_of rerun show_runs
answers-shows_nothing srv now stamp batch rid user i form likes q db = (
  show_run-shows_nothing i db,
  listed-shows_nothing (list_runs likes (filter_of q) db),
  create_with-shows_nothing srv now batch rid user db form
      (read_spec srv.files (upload_dir srv.storage stamp) form),
  rerun_with-shows_nothing srv now batch rid user db (get_run i db),
)
