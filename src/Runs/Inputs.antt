-- ===== src/Runs/Inputs.antt =====
-- internal/api/runs.go: the inputs of a run that createRun puts together and checks.
use poligon.Base.{
  Bool, List, Option, Text, [], all, atoi, codes, eqb, false, has_prefix, if◌then◌else◌, is_empty,
  leb, mem, none, not, pos, put, some, true, ℕ, ℤ, ◌&&◌, ◌==◌, ◌||◌, ◌∷◌,
}
use poligon.Model.{RunSpec}
use poligon.Paths.{FilePath, join_path, render_path}
use poligon.Runner.{run_types}
use poligon.Runner.Workspace.{extract_workspace}
use poligon.Runs.Form.{
  Files, RunForm, Step, accept, all_artifacts, download_artifact, or_refuse, refuse, require,
  save_upload, ◌>>=◌, ◌>>◌,
}

abbrev pub env_letter : ℕ → Bool
env_letter c = (leb b'A' c && leb c b'Z') || (leb b'a' c && leb c b'z') || eqb c b'_'

-- envKey
unfoldable pub is_env_key : Text → Bool
is_env_key [] = false
is_env_key (c ∷ s) = env_letter c && all (λ d. env_letter d || (leb b'0' d && leb d b'9')) s

-- strings.Cut by one byte.
unfoldable pub cut_at : ℕ → Text → Option (Text × Text)
cut_at sep [] = none
cut_at sep (c ∷ s) =
    let rest : Option (Text × Text) = elim (cut_at sep s) [
      | none ↦ none
      | some (k, v) ↦ some (c ∷ k, v)
    ] in
    if eqb c sep then some ([], s) else rest

abbrev pub is_reserved_key : Text → Bool
is_reserved_key k = elim (has_prefix (codes "POLIGON_") k) [ some _ ↦ true | none ↦ false ]

-- One pair.
unfoldable pub add_env : Text → List (Text × Text) → Step (List (Text × Text))
unfolding is_env_key cut_at has_prefix
add_env kv env = elim (cut_at b'=' kv) [
  | none ↦ refuse 400
  | some (k, v) ↦
      if not (is_env_key k)
      then refuse 400
      else if is_reserved_key k
      then refuse 400
      else accept (put k v env)
]

unfoldable pub add_envs : List Text → List (Text × Text) → Step (List (Text × Text))
unfolding add_env
add_envs [] env = accept env
add_envs (kv ∷ kvs) env = add_env kv env >>= λ env'. add_envs kvs env'

-- parseEnv
abbrev pub parse_env : List Text → Step (List (Text × Text))
parse_env pairs = add_envs pairs []

-- The flow: an upload, or else the file of a URL.
unfoldable pub flow_upload : Files → FilePath → RunForm → Step Text
unfolding save_upload
flow_upload files dir form = if not form.is_multipart then accept [] else elim form.flows [
  | [] ↦ accept []
  | name ∷ [] ↦ or_refuse (save_upload files dir name) 500
  | name ∷ second_name ∷ names ↦ refuse 400
]

unfoldable pub flow_download : Files → FilePath → RunForm → Text → Step Text
unfolding download_artifact
flow_download files dir form path =
    if not (is_empty path)
    then accept path
    else if is_empty form.flow_url
    then accept []
    else or_refuse (download_artifact files form.flow_url dir (codes "flow.yaml")) 502

-- A zipped workspace is unpacked beside the upload.
unfoldable pub flow_target : Files → FilePath → RunForm → Text → Step Text
unfolding extract_workspace join_path render_path
flow_target files dir form path =
    if not (is_empty path) && files.is_zip path
    then elim (extract_workspace files.disk path (join_path dir (codes "workspace"))
        form.flow_path).1 [ none ↦ refuse 400 | some target ↦ accept (render_path target) ]
    else if not (is_empty form.flow_path)
    then refuse 400
    else accept path

-- checkRunSpec
unfoldable pub check_run_spec : Text → RunSpec → Bool
check_run_spec typ spec =
    if typ == codes "install_smoke"
    then not (is_empty spec.artifacts)
    else if typ == codes "maestro"
    then not (is_empty spec.flow_path)
    else if typ == codes "command"
    then not (is_empty spec.command)
    else if typ == codes "integration_test"
    then not (is_empty spec.artifacts) && not (is_empty spec.test_artifacts)
    else true

-- A number that cannot be read is left at zero.
abbrev pub number_or_zero : Text → ℤ
number_or_zero s = elim (atoi s) [ none ↦ pos 0 | some n ↦ n ]

abbrev pub kind_of : RunForm → Text
kind_of form = if is_empty form.kind then codes "install_smoke" else form.kind

-- The checked inputs of a run: createRun up to the choice of the devices.
unfoldable pub read_spec : Files → FilePath → RunForm → Step RunSpec
read_spec files dir form = do
  require form.parses 400
  require (mem (kind_of form) run_types) 400
  require (files.disk.makes dir) 500
  uploaded ← flow_upload files dir form
  flow ← flow_download files dir form uploaded
  target ← flow_target files dir form flow
  env ← parse_env form.env
  apps ← all_artifacts files dir form.is_multipart form.artifacts form.artifact_url
  tests ← all_artifacts files dir form.is_multipart form.test_artifacts form.test_artifact_url
  let spec : RunSpec = record {
    artifacts = apps;
    test_artifacts = tests;
    watch_seconds = number_or_zero form.watch_seconds;
    flow_path = target;
    env = env;
    include_tags = form.include_tags;
    exclude_tags = form.exclude_tags;
    command = form.command;
    timeout_seconds = number_or_zero form.timeout_seconds;
    callback_url = form.callback_url;
  }
  require (check_run_spec (kind_of form) spec) 400
  accept spec
