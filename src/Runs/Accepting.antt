-- ===== src/Runs/Accepting.antt =====
-- internal/api/runs.go: what createRun lets into the queue.
use poligon.Base.{
  All, Bool, List, Text, [], any-append, ap, arith, false, if◌then◌else◌, mem, not, refl, subst,
  sym, true, ℕ, ◌&&◌, ◌++◌, ◌∙◌, ◌∷◌, ◌≡◌,
}
use poligon.Model.{Platform, RunSpec, android, ios}
use poligon.Paths.{FilePath, base_name}
use poligon.Runner.{run_types}
use poligon.Runs.Checking.{HasInputs, IsKey, add_envs-keys, check_run_spec-HasInputs}
use poligon.Runs.Form.{
  >>=-accept, Artifacts, Files, RunForm, Step, accept, add_artifact, add_download, add_uploads,
  all_artifacts, before_query, download_artifact, has_platform, or_refuse, platform_for_ext,
  require, same_platform,
}
use poligon.Runs.Inputs.{
  check_run_spec, flow_download, flow_target, flow_upload, kind_of, parse_env, read_spec,
}

-- Each platform has one build at most.
abbrev pub one_each : Artifacts → Bool
one_each [] = true
one_each (x ∷ arts) = not (has_platform x.0 arts) && one_each arts

same_platform-sym : (p q : Platform) → same_platform p q ≡ same_platform q p
same_platform-sym android android = refl
same_platform-sym android ios = refl
same_platform-sym ios android = refl
same_platform-sym ios ios = refl

one_each-append :
    (arts : Artifacts) (p : Platform) (path : Text)
    → one_each arts ≡ true
    → has_platform p arts ≡ false
    → one_each (arts ++ (p, path) ∷ []) ≡ true
one_each-append [] p path h k = refl
one_each-append (x ∷ arts) p path h k =
    let last = any-append (λ (y : Platform × Text). same_platform y.0 x.0) arts ((p, path) ∷ []) in
    ground (arith, last, same_platform-sym x.0 p, one_each-append arts p path)

add_artifact-one_each :
    (name : Text) (stored : Step Text) (arts arts' : Artifacts)
    → one_each arts ≡ true
    → add_artifact name stored arts ≡ accept arts'
    → one_each arts' ≡ true
unfolding add_artifact
add_artifact-one_each name stored arts arts' h e =
    let (plat, p1, q1) = >>=-accept (or_refuse (platform_for_ext name) 400) _ e in
    let (u, p2, q2) = >>=-accept (require (not (has_platform plat arts)) 400) _ q1 in
    let (path, p3, q3) = >>=-accept stored _ q2 in
    let same : arts ++ (plat, path) ∷ [] ≡ arts' = ground arith in
    let absent : has_platform plat arts ≡ false = ground arith in
    ap one_each (sym same) ∙ one_each-append arts plat path h absent

add_uploads-one_each :
    (files : Files) (dir : FilePath) (names : List Text) (arts arts' : Artifacts)
    → one_each arts ≡ true
    → add_uploads files dir names arts ≡ accept arts'
    → one_each arts' ≡ true
unfolding add_uploads
add_uploads-one_each files dir [] arts arts' h e =
    let same : arts ≡ arts' = ground arith in ap one_each (sym same) ∙ h
add_uploads-one_each files dir (name ∷ names) arts arts' h e =
    let (arts1, p, q) = >>=-accept (add_artifact name _ arts) _ e in
    add_uploads-one_each files dir names arts1 arts' (add_artifact-one_each name _ arts arts1 h p) q

add_download-one_each :
    (files : Files) (dir : FilePath) (url : Text) (arts arts' : Artifacts)
    → one_each arts ≡ true
    → add_download files dir url arts ≡ accept arts'
    → one_each arts' ≡ true
unfolding add_download
add_download-one_each files dir [] arts arts' h e =
    let same : arts ≡ arts' = ground arith in ap one_each (sym same) ∙ h
add_download-one_each files dir (c ∷ url) arts arts' h e =
    let name = before_query (base_name (c ∷ url)) in
    add_artifact-one_each name (or_refuse (download_artifact files (c ∷ url) dir name) 502) arts
      arts' h e

all_artifacts-one_each :
    (files : Files) (dir : FilePath) (multipart : Bool) (names : List Text) (url : Text)
    (arts : Artifacts)
    → all_artifacts files dir multipart names url ≡ accept arts
    → one_each arts ≡ true
unfolding all_artifacts
all_artifacts-one_each files dir multipart names url arts e =
    let (arts1, p, q) =
      >>=-accept (add_uploads files dir (if multipart then names else []) []) _ e in
    let h = add_uploads-one_each files dir (if multipart then names else []) [] arts1 refl p in
    add_download-one_each files dir url arts1 arts h q

accepted_value {ℓ} : {A : Type ℓ} {a b : A} → accept a ≡ accept b → a ≡ b
accepted_value e = cc

required : (b : Bool) (n : ℕ) {u : Unit {0}} → require b n ≡ accept u → b ≡ true
required true n e = refl
required false n e = absurd (ground arith)

-- The inputs that createRun has read.
pub record IsRead (typ : Text) (spec : RunSpec) : Type 0 where
  pub known : mem typ run_types ≡ true
  pub inputs : HasInputs typ spec
  pub keys : All (λ x. IsKey x.0) spec.env
  pub builds : one_each spec.artifacts ≡ true
  pub test_builds : one_each spec.test_artifacts ≡ true

pub read_spec-IsRead :
    (files : Files) (dir : FilePath) (form : RunForm) (spec : RunSpec)
    → read_spec files dir form ≡ accept spec
    → IsRead (kind_of form) spec
unfolding read_spec
read_spec-IsRead files dir form spec e =
    let (u1, p1, q1) = >>=-accept (require form.parses 400) _ e in
    let (u2, p2, q2) = >>=-accept (require (mem (kind_of form) run_types) 400) _ q1 in
    let (u3, p3, q3) = >>=-accept (require (files.disk.makes dir) 500) _ q2 in
    let (uploaded, p4, q4) = >>=-accept (flow_upload files dir form) _ q3 in
    let (flow, p5, q5) = >>=-accept (flow_download files dir form uploaded) _ q4 in
    let (target, p6, q6) = >>=-accept (flow_target files dir form flow) _ q5 in
    let (env, p7, q7) = >>=-accept (parse_env form.env) _ q6 in
    let (apps, p8, q8) = >>=-accept (all_artifacts files dir _ form.artifacts _) _ q7 in
    let (tests, p9, q9) = >>=-accept (all_artifacts files dir _ form.test_artifacts _) _ q8 in
    let (u10, p10, q10) = >>=-accept (require (check_run_spec (kind_of form) _) 400) _ q9 in
    subst (IsRead (kind_of form)) (accepted_value q10) (record {
      known = required _ _ p2;
      inputs = check_run_spec-HasInputs (kind_of form) _ (required _ _ p10);
      keys = add_envs-keys form.env [] env p7 tt;
      builds = all_artifacts-one_each files dir _ form.artifacts _ apps p8;
      test_builds = all_artifacts-one_each files dir _ form.test_artifacts _ tests p9;
    })
