-- ===== src/Tests/Pool.antt =====
-- The theorems on the poll loop, the runner and the names at concrete inputs.
use poligon.Base.{
  All, List, Text, [], any, arith, codes, false, if◌then◌else◌, inl, leb, length, mem, none, not,
  refl, some, text_discrete, true, ℕ, ℕ_discrete, ◌&&◌, ◌*◌, ◌||◌, ◌∷◌, ◌≡◌, ◌⊎◌,
}
use poligon.Devices.{Poller, is_flapping, recent, reconcile}
use poligon.Devices.Flapping.{transitions, watch, watch-transitions}
use poligon.Devices.Reconcile.{is_degraded, is_free_status, is_idle, reconcile-free}
use poligon.Model.{Run, RunDevice, RunStatus, android, degraded, passed, pending, queued, second}
use poligon.Naming.{candidate, is_slug_byte, slug, unique_id}
use poligon.Naming.Unique.{IsFirst, unique_id-IsFirst}
use poligon.Reserve.{is_held}
use poligon.Runner.{acquire}
use poligon.Runner.Deadline.{WaitedOut, execute-deadline, stored_status}
use poligon.Runner.Execute.{Outcome, Smoke, execute, smoke}
use poligon.Runner.Holding.{acquire-holds, is_mine, is_mixed, is_of_another, is_reserved}
use poligon.Store.{Db, ok}
use poligon.Store.Runs.{devices_of, get_run}
use poligon.Tests.{alice, bob, leased, manager, no_inputs, phone, pixel, redmi}

abbrev pub poller : Poller
poller = record { flaps = []; held_since = [] }

watch-transitions_example :
    (watch pixel
      ((0, true) ∷ (second, false) ∷ (2 * second, true) ∷ (3 * second, false) ∷ [])
      poller).0
    ≡ leb 3 (
        length (
          recent
            (3 * second)
            (transitions true ((second, false) ∷ (2 * second, true) ∷ (3 * second, false) ∷ []))))
watch-transitions_example =
    watch-transitions pixel 0 true (3 * second) second false
      ((2 * second, true) ∷ (3 * second, false) ∷ []) poller refl (omega arith)

reconcile-free_example :
    is_free_status (reconcile (phone pixel degraded) true true true 100 poller).0 ≡ (
      not (is_flapping pixel true 100 poller).0
      && true
      && true
      && (is_degraded degraded || (is_idle degraded && not true)))
reconcile-free_example = reconcile-free (phone pixel degraded) true true true 100 poller

acquire-holds_example :
    (is_reserved (acquire manager 200 (codes "b2") bob (redmi ∷ pixel ∷ []) leased).1
      ≡ any (is_of_another bob leased) (redmi ∷ pixel ∷ []))
    × (is_mixed (acquire manager 200 (codes "b2") bob (redmi ∷ pixel ∷ []) leased).1 ≡ (
        not (any (is_of_another bob leased) (redmi ∷ pixel ∷ []))
        && any (is_mine bob leased) (redmi ∷ pixel ∷ [])
        && any (λ i. not (is_held i leased)) (redmi ∷ pixel ∷ [])))
    × ((if any (is_of_another bob leased) (redmi ∷ pixel ∷ [])
            || any (λ i. not (is_held i leased)) (redmi ∷ pixel ∷ [])
          then (leased, inl [])
          else acquire manager 200 (codes "b2") bob (redmi ∷ pixel ∷ []) leased)
        ≡ (leased, inl []))
acquire-holds_example = acquire-holds manager 200 (codes "b2") bob (redmi ∷ pixel ∷ []) leased

abbrev smoke_run : Run
smoke_run = record {
  id = codes "r1";
  user = alice;
  kind = codes "install_smoke";
  status = queued;
  trigger = codes "api";
  batch = codes "b1";
  spec = no_inputs;
  detail = [];
  created_at = 50;
  started_at = none;
  finished_at = none;
}

abbrev pub run_of : Text → RunStatus → ℕ → Run
run_of i st t = record smoke_run { id = i; status = st; batch = []; created_at = t }

abbrev pub run_row : RunDevice
run_row = record {
  run_id = codes "r1";
  device_id = pixel;
  platform = android;
  status = pending;
  detail = [];
  package_name = [];
  artifacts = [];
  started_at = none;
  finished_at = none;
}

abbrev pub queue : Db
queue = record leased { runs = smoke_run ∷ []; run_devices = run_row ∷ [] }

abbrev pub all_pass : Text → Outcome
all_pass i = record { start = 110; fin = 120; timed_out = false; handler = passed }

abbrev name_pixel : List Text
name_pixel = codes "Google" ∷ codes "Pixel 6" ∷ []

abbrev names : List Text
names = codes "pixel" ∷ codes "pixel-2" ∷ []

unique_id-IsFirst_example :
    ((mem pixel names ≡ false) × (unique_id pixel names ≡ some pixel))
    ⊎ ((n : ℕ) × (mem pixel names ≡ true)
        × (unique_id pixel names ≡ some (candidate pixel n))
        × IsFirst pixel 2 n names)
unique_id-IsFirst_example = unique_id-IsFirst pixel names

-- Runs of the code.
names_run :
    (slug name_pixel ≡ codes "google-pixel-6") × (unique_id pixel names ≡ some (codes "pixel-3"))
unfolding slug is_slug_byte unique_id text_discrete ℕ_discrete
names_run = (refl, refl)

-- Smoke finds nothing wrong and is told to stop while it waits.
abbrev late : Text → Smoke
late i = record {
  has_controller = true;
  has_artifact = true;
  install_ok = true;
  deadline_hit = true;
  crash_found = false;
  alive = false;
  package_known = true;
  wda_ok = true;
  is_foreground = false;
  pid = 0;
}

abbrev all_late : Text → Outcome
all_late i = record { start = 610; fin = 690; timed_out = true; handler = smoke android (late i) }

run_stored : get_run (codes "r1") queue ≡ ok smoke_run
unfolding get_run text_discrete ℕ_discrete
run_stored = refl

all_waited : All (WaitedOut late all_late) (devices_of (codes "r1") queue)
unfolding devices_of text_discrete ℕ_discrete
all_waited = ((refl, refl, refl, refl, refl), tt)

execute-deadline_example :
    stored_status (codes "r1") (execute all_late false 600 700 (codes "r1") queue) ≡ some passed
execute-deadline_example =
    execute-deadline late all_late 600 700 (codes "r1") queue smoke_run run_stored refl all_waited
