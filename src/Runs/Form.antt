-- ===== src/Runs/Form.antt =====
-- internal/api/runs.go and internal/api/batch.go: how createRun reads the form of a run. A refusal is
-- the code of the answer.
use poligon.Base.{
  Bool, List, Option, Text, [], any, arith, codes, eqb, false, has_prefix, if◌then◌else◌, is_empty,
  map, mem, none, not, refl, some, true, ℕ, ◌++◌, ◌==◌, ◌||◌, ◌∷◌, ◌≡◌,
}
use poligon.Model.{Platform, android, ios}
use poligon.Naming.{to_lower}
use poligon.Paths.{FilePath, base_name, extension, join_path, render_path}
use poligon.Runner.Workspace.{Disk}

pub data Step {ℓ} (A : Type ℓ) : Type ℓ where
  accept : A → Step A
  refuse : ℕ → Step A

infixl 5 ◌>>=◌ ◌>>◌
abbrev pub ◌>>=◌ {ℓ κ} : {A : Type ℓ} {B : Type κ} → Step A → (A → Step B) → Step B
accept a >>= f = f a
refuse n >>= f = refuse n

abbrev pub ◌>>◌ {ℓ} : {B : Type ℓ} → Step (Unit {0}) → Step B → Step B
m >> k = m >>= λ _. k

pub >>=-accept {ℓ κ} :
    {A : Type ℓ} {B : Type κ} (m : Step A) (f : A → Step B) {b : B}
    → (m >>= f) ≡ accept b
    → (a : A) × (m ≡ accept a) × (f a ≡ accept b)
>>=-accept (accept a) f h = (a, refl, h)
>>=-accept (refuse n) f h = absurd (ground arith)

-- A test that has to hold.
abbrev pub require : Bool → ℕ → Step (Unit {0})
require true n = accept tt
require false n = refuse n

abbrev pub or_refuse {ℓ} : {A : Type ℓ} → Option A → ℕ → Step A
or_refuse none n = refuse n
or_refuse (some a) n = accept a

-- The request: its form values, and the names of the files that are attached.
pub record RunForm : Type 0 where
  pub parses : Bool
  pub is_multipart : Bool
  pub has_authorization : Bool
  pub kind : Text
  pub flows : List Text
  pub flow_url : Text
  pub flow_path : Text
  pub env : List Text
  pub include_tags : Text
  pub exclude_tags : Text
  pub artifacts : List Text
  pub artifact_url : Text
  pub test_artifacts : List Text
  pub test_artifact_url : Text
  pub command : Text
  pub watch_seconds : Text
  pub timeout_seconds : Text
  pub callback_url : Text
  pub devices : List Text
  pub platform : Text
  pub tag : Text
  pub count : Text

-- The disk and the network: whether a URL can be fetched, and whether a file is a zip archive.
pub record Files : Type 0 where
  pub disk : Disk
  pub fetches : Text → Bool
  pub is_zip : Text → Bool

abbrev pub platform_of_ext : Text → Option Platform
platform_of_ext e =
    if mem e (codes ".apk" ∷ codes ".aab" ∷ codes ".apks" ∷ [])
    then some android
    else if e == codes ".ipa"
    then some ios
    else none

-- platformForExt
unfoldable pub platform_for_ext : Text → Option Platform
unfolding extension to_lower
platform_for_ext name = platform_of_ext (map to_lower (extension name))

-- saveUpload: the path of the stored file.
unfoldable pub save_upload : Files → FilePath → Text → Option Text
unfolding join_path base_name render_path
save_upload files dir name =
    let path = join_path dir (base_name name) in
    if files.disk.creates path then some (render_path path) else none

abbrev pub is_http : Text → Bool
is_http url = elim (has_prefix (codes "http://") url) [
  | some _ ↦ true
  | none ↦ elim (has_prefix (codes "https://") url) [ some _ ↦ true | none ↦ false ]
]

-- downloadArtifact
unfoldable pub download_artifact : Files → Text → FilePath → Text → Option Text
unfolding save_upload
download_artifact files url dir name =
    if not (is_http url)
    then none
    else if not (files.fetches url)
    then none
    else save_upload files dir name

abbrev pub Artifacts : Type 0
Artifacts = List (Platform × Text)

abbrev pub same_platform : Platform → Platform → Bool
same_platform android android = true
same_platform ios ios = true
same_platform android ios = false
same_platform ios android = false

abbrev pub has_platform : Platform → Artifacts → Bool
has_platform p arts = any (λ x. same_platform x.0 p) arts

-- One build for a platform, stored by the step.
unfoldable pub add_artifact : Text → Step Text → Artifacts → Step Artifacts
unfolding platform_for_ext
add_artifact name stored arts = do
  plat ← or_refuse (platform_for_ext name) 400
  require (not (has_platform plat arts)) 400
  path ← stored
  accept (arts ++ (plat, path) ∷ [])

-- The uploaded builds.
unfoldable pub add_uploads : Files → FilePath → List Text → Artifacts → Step Artifacts
unfolding add_artifact
add_uploads files dir [] arts = accept arts
add_uploads files dir (name ∷ names) arts =
    add_artifact name (or_refuse (save_upload files dir name) 500) arts >>= λ arts'.
    add_uploads files dir names arts'

-- What stands before a query or a fragment.
abbrev pub before_query : Text → Text
before_query [] = []
before_query (c ∷ s) =
    let rest = before_query s in if eqb c b'?' || eqb c b'#' then [] else c ∷ rest

-- The build of a URL, if there is one.
unfoldable pub add_download : Files → FilePath → Text → Artifacts → Step Artifacts
unfolding add_artifact base_name
add_download files dir url arts =
    if is_empty url
    then accept arts
    else let name = before_query (base_name url) in
      add_artifact name (or_refuse (download_artifact files url dir name) 502) arts

-- Uploads, which only a multipart form has, and then the URL.
unfoldable pub all_artifacts : Files → FilePath → Bool → List Text → Text → Step Artifacts
unfolding add_uploads add_download
all_artifacts files dir multipart names url =
    add_uploads files dir (if multipart then names else []) [] >>= λ arts.
    add_download files dir url arts
