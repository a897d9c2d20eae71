-- ===== src/Tests/Runs.antt =====
-- The theorems on the handlers of runs at concrete inputs.
use poligon.Base.{
  Bool, List, Text, [], all, arith, atoi, codes, false, length, map, none, not, pos, refl, some,
  text_discrete, true, ℕ_discrete, ◌&&◌, ◌*◌, ◌∷◌, ◌≡◌, ◌≤◌,
}
use poligon.Model.{Run, RunDevice, failed, passed, queued}
use poligon.Reserve.{holder, is_held, reserve_many}
use poligon.Reserve.Booking.{has_no_repeat, has_user, is_free}
use poligon.Runs.{RunQuery, RunServer, create_run_of, rerun, show_run, show_runs}
use poligon.Runs.Bookable.{succeeds-select}
use poligon.Runs.Form.{RunForm, accept, refuse}
use poligon.Runs.Hiding.{answers-shows_nothing, runs_in, shows_nothing}
use poligon.Runs.Inputs.{add_envs, parse_env}
use poligon.Runs.Queueing.{Accepts, create_run_of-Accepts}
use poligon.Runs.Selecting.{first_wanted, select_devices, select_devices-first}
use poligon.Store.{Db, ok, succeeds}
use poligon.Store.Listing.{RunFilter, matching_rows, page_limit, run_matches}
use poligon.Store.Paging.{all_pages, all_pages-matching}
use poligon.Tests.{alice, farm, manager, pixel}
use poligon.Tests.Jobs.{sample_disk}
use poligon.Tests.Pool.{queue, run_of}

abbrev pub run_server : RunServer
run_server = record {
  manager = manager;
  files = record { disk = sample_disk; fetches = λ u. true; is_zip = λ p. false };
  storage = record { rooted = true; parts = codes "data" ∷ [] };
}

-- The form of a command on one free Android phone.
abbrev form : RunForm
form = record {
  parses = true;
  is_multipart = false;
  has_authorization = false;
  kind = codes "command";
  flows = [];
  flow_url = [];
  flow_path = [];
  env = codes "TOKEN=secret" ∷ [];
  include_tags = [];
  exclude_tags = [];
  artifacts = [];
  artifact_url = [];
  test_artifacts = [];
  test_artifact_url = [];
  command = codes "make test";
  watch_seconds = codes "30";
  timeout_seconds = [];
  callback_url = [];
  devices = [];
  platform = codes "android";
  tag = [];
  count = codes "1";
}

create_run_of-Accepts_example :
    Accepts alice
      (create_run_of run_server 100 (codes "1") (codes "b1") (codes "r1") alice form farm)
create_run_of-Accepts_example =
    create_run_of-Accepts run_server 100 (codes "1") (codes "b1") (codes "r1") alice form farm

abbrev likes_none : Text → Run → List RunDevice → Bool
likes_none q r ds = false

-- The failed runs of Alice.
abbrev failed_runs : RunQuery
failed_runs = record {
  kind = [];
  user = alice;
  search = [];
  status = codes "failed, error";
  limit = codes "20";
  offset = [];
}

answers-shows_nothing_example :
    (all shows_nothing (runs_in (show_run (codes "r1") queue)) ≡ true)
    × (all shows_nothing (runs_in (show_runs likes_none failed_runs queue)) ≡ true)
    × (all shows_nothing (
          runs_in
            (create_run_of run_server 100 (codes "1") (codes "b1") (codes "r1") alice form queue).1)
        ≡ true)
    × (all shows_nothing
          (runs_in (rerun run_server 100 (codes "b1") (codes "r1") alice (codes "r1") queue).1)
        ≡ true)
answers-shows_nothing_example =
    answers-shows_nothing run_server 100 (codes "1") (codes "b1") (codes "r1") alice (codes "r1")
      form likes_none failed_runs queue

select_devices-first_example :
    select_devices (codes "android") [] (codes "1") farm
    ≡ (elim (atoi (codes "1")) [ none ↦ none | some n ↦ first_wanted (codes "android") [] farm n ])
select_devices-first_example = select_devices-first (codes "android") [] (codes "1") farm

selected : select_devices (codes "android") [] (codes "1") farm ≡ some (pixel ∷ [])
unfolding select_devices atoi text_discrete ℕ_discrete
selected = refl

known_ids : has_no_repeat (map (λ d. d.id) farm.devices) ≡ true
unfolding text_discrete ℕ_discrete
known_ids = refl

all_unheld : all (λ d. not (is_free d.status && is_held d.id farm)) farm.devices ≡ true
unfolding is_held holder
all_unheld = refl

alice_known : has_user alice farm ≡ true
unfolding text_discrete ℕ_discrete
alice_known = refl

succeeds-select_example :
    succeeds (reserve_many manager 100 (codes "b1") (pixel ∷ []) alice farm).1 ≡ true
succeeds-select_example =
    succeeds-select manager 100 (codes "b1") alice (codes "android") [] (codes "1") farm alice_known
      known_ids all_unheld selected

-- Two of three runs to a page.
abbrev listing : Db
listing = record farm {
  runs =
      run_of (codes "r1") queued 50
      ∷ run_of (codes "r2") passed 70
      ∷ run_of (codes "r3") failed 60
      ∷ [];
}

abbrev two_to_a_page : RunFilter
two_to_a_page = record {
  status = [];
  statuses = [];
  kind = [];
  user = alice;
  search = [];
  limit = pos 2;
  offset = pos 0;
}

listed_ids : has_no_repeat (map (λ r. r.id) listing.runs) ≡ true
unfolding text_discrete ℕ_discrete
listed_ids = refl

two_pages :
    length (matching_rows likes_none two_to_a_page listing) ≤ 2 * page_limit two_to_a_page.limit
unfolding run_matches text_discrete ℕ_discrete
two_pages = omega arith

all_pages-matching_example :
    all_pages likes_none two_to_a_page 2 0 listing
    ≡ ok (matching_rows likes_none two_to_a_page listing)
all_pages-matching_example =
    all_pages-matching likes_none two_to_a_page 2 listing listed_ids two_pages

-- Runs of the code: a form that names a reserved variable is refused.
env_runs :
    (parse_env (codes "TOKEN=secret" ∷ []) ≡ accept ((codes "TOKEN", codes "secret") ∷ []))
    × (parse_env (codes "POLIGON_DEVICE=x" ∷ []) ≡ refuse 400)
unfolding add_envs text_discrete ℕ_discrete
env_runs = (refl, refl)
