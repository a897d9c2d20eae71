-- ===== src/Tests/Watch.antt =====
-- The theorems on the watchdog, the configuration and the UI tree at concrete inputs.
use poligon.Base.{
  All, Bool, List, Text, [], arith, codes, false, has_prefix, length, none, pos, refl, some,
  text_discrete, true, ℕ, ℕ_discrete, ◌*◌, ◌∷◌, ◌≡◌, ◌≤◌,
}
use poligon.Config.{DeviceSpec, duplicate_id, validate, validate_from}
use poligon.Devices.Inventory.{is_loaded, load_inventory, validate-is_loaded}
use poligon.Model.{second}
use poligon.Screen.{stream_dead}
use poligon.Tests.{farm, pixel, redmi}
use poligon.Tests.Screens.{controller}
use poligon.Uitree.{Element, classify, contains, find, gather, number, pick_from}
use poligon.Uitree.Choice.{chosen, counted, find-first_best, match_count}
use poligon.Uitree.Ranks.{first_best, rank}
use poligon.Watchdog.{
  AdbAnswers, ScreenAnswers, Tick, check, count_probe, follow_server, heal_one, heal_row, heal_rows,
  new_adb_guard, restart_adb, run_ticks, slide_window, tick,
}
use poligon.Watchdog.Attempts.{restart_times}
use poligon.Watchdog.Heals.{heal_times, heals_le}
use poligon.Watchdog.Restarts.{restarts_le}
use poligon.Watchdog.Windows.{TicksFrom, count_in}

-- Two servers run, and a screen does not answer.
abbrev two_servers : AdbAnswers
two_servers = record {
  servers = 17 ∷ 18 ∷ [];
  managed = true;
  listening = true;
  listed = some [];
  on_usb = [];
}

abbrev no_answer : ScreenAnswers
no_answer = record {
  rows = some ((pixel, codes "127.0.0.1:18100") ∷ []);
  probe_status = λ wda. false;
  is_provisioning = λ i. false;
  screens = controller;
}

abbrev tick_at : ℕ → Tick
tick_at t = record { now = t; adb = two_servers; ios = no_answer }

abbrev four_ticks : List Tick
four_ticks =
    tick_at (30 * second)
    ∷ tick_at (60 * second)
    ∷ tick_at (90 * second)
    ∷ tick_at (120 * second)
    ∷ []

forwards : TicksFrom 0 four_ticks
forwards = (omega arith, (omega arith, (omega arith, (omega arith, tt))))

restarts_le_example :
    count_in
      (30 * 60 * second)
      (30 * second)
      (restart_times (run_ticks four_ticks (record { guard = new_adb_guard; heal = [] })))
    ≤ 3
restarts_le_example = restarts_le (30 * second) four_ticks [] forwards

heals_le_example :
    count_in
      (10 * 60 * second)
      (30 * second)
      (heal_times pixel (run_ticks four_ticks (record { guard = new_adb_guard; heal = [] })))
    ≤ 6
heals_le_example = heals_le pixel (30 * second) four_ticks new_adb_guard forwards

-- A run of the watchdog: three restarts of the server, two of the screen.
watchdog_runs :
    (length (restart_times (run_ticks four_ticks (record { guard = new_adb_guard; heal = [] })))
      ≡ 3)
    × (length
          (heal_times pixel (run_ticks four_ticks (record { guard = new_adb_guard; heal = [] })))
        ≡ 2)
unfolding run_ticks tick check restart_adb count_probe follow_server heal_rows heal_row heal_one
    slide_window stream_dead text_discrete ℕ_discrete
watchdog_runs = (refl, refl)

abbrev spec : Text → DeviceSpec
spec i = record { id = i; platform = codes "android"; serial = codes "S1"; udid = []; tags = [] }

-- Runs of the code: one inventory is accepted, one repeats an id.
validate_runs :
    (validate (spec pixel ∷ spec redmi ∷ []) ≡ none)
    × (validate (spec pixel ∷ spec pixel ∷ []) ≡ some (duplicate_id pixel))
unfolding validate validate_from text_discrete ℕ_discrete
validate_runs = (refl, refl)

inventory_valid : validate (spec pixel ∷ spec redmi ∷ []) ≡ none
unfolding validate validate_from text_discrete ℕ_discrete
inventory_valid = refl

validate-is_loaded_example :
    All
      (λ d. is_loaded d (load_inventory (spec pixel ∷ spec redmi ∷ []) farm) ≡ true)
      (spec pixel ∷ spec redmi ∷ [])
validate-is_loaded_example = validate-is_loaded (spec pixel ∷ spec redmi ∷ []) farm inventory_valid

abbrev button : Text → Bool → Element
button t tappable = record {
  index = 0;
  class = codes "Button";
  text = t;
  id = [];
  desc = [];
  value = [];
  x = pos 10;
  y = pos 10;
  w = pos 40;
  h = pos 20;
  clickable = tappable;
  scrollable = false;
  checkable = false;
  checked = false;
  enabled = true;
  focused = false;
  selected = false;
  editable = false;
}

abbrev elements : List Element
elements =
    number
      (button (codes "log in") true ∷ button (codes "log") false ∷ button (codes "x") true ∷ [])

abbrev same_text : Text → Text
same_text t = t

find-first_best_example :
    (let m = classify same_text (same_text (codes "log")) (same_text []) in
      let found = find same_text elements (record { index = none; text = codes "log"; id = [] }) in
      (chosen found ≡ first_best (λ e. rank (m e) e) elements)
      × (counted found ≡ match_count m elements))
find-first_best_example = find-first_best same_text elements (codes "log") []

-- A run of the code: the exact match wins over the one that can be tapped.
find_runs :
    chosen (find same_text elements (record { index = none; text = codes "log"; id = [] }))
    ≡ some (record (button (codes "log") false) { index = 1 })
unfolding find classify gather pick_from contains has_prefix number text_discrete ℕ_discrete
find_runs = refl
