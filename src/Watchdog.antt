-- ===== src/Watchdog.antt =====
-- cmd/poligon/adbguard.go and cmd/poligon/watchdog.go: the guard of the adb server and the healing of
-- the iOS screens. What the machine answers at a tick is an argument; the clock is read once a tick.
pub mod Windows
pub mod Attempts
pub mod Restarts
pub mod Budget
pub mod Heals
pub mod Recovery
use poligon.Base.{
  Bool, List, Option, Text, [], codes, eqb, false, get, if◌then◌else◌, is_empty, leb, length, ltb,
  map, negsuc, none, not, pos, put, select, some, true, ℕ, ℤ, ◌&&◌, ◌*◌, ◌++◌, ◌+◌, ◌==◌, ◌||◌, ◌∷◌,
}
use poligon.Model.{second}
use poligon.Screen.{Controller, stream_dead}

-- A pid; 0 for none seen yet.
pub record AdbGuard : Type 0 where
  pub last_pid : ℕ
  pub wedged : ℕ
  pub unseen : ℕ
  pub restarts : List ℕ

-- `listed` is none if `adb devices` fails.
pub record AdbAnswers : Type 0 where
  pub servers : List ℕ
  pub managed : Bool
  pub listening : Bool
  pub listed : Option (List (Text × Text))
  pub on_usb : List Text

-- What the watchdog makes launchd do, and provisioning.
pub data Action : Type 0 where
  restart_adb_server restart_sidecar : Action
  restart_screen : Text → Action

abbrev pub restart_window : ℕ
restart_window = 30 * 60 * second

abbrev pub new_adb_guard : AdbGuard
new_adb_guard = record { last_pid = 0; wedged = 0; unseen = 0; restarts = [] }

-- The restarts that count against the limit.
abbrev pub kept_restarts : ℕ → List ℕ → List ℕ
kept_restarts now ts = select (λ t. ltb now (t + restart_window)) ts

unfoldable pub restart_adb : ℕ → Bool → AdbGuard → AdbGuard × List Action
restart_adb now managed g =
    let kept = kept_restarts now g.restarts in
    if not managed
    then (g, [])
    else if leb 3 (length kept)
    then (record g { restarts = kept }, [])
    else (record g { restarts = kept ++ now ∷ []; wedged = 0; unseen = 0 }, restart_adb_server ∷ [])

-- The phones on USB that adb does not list.
abbrev pub missing_phones : List Text → List (Text × Text) → List Text
missing_phones on_usb listed =
    select (λ i. elim (get i listed) [ none ↦ true | some _ ↦ false ]) on_usb

-- What the probe tells the guard.
unfoldable pub count_probe : AdbAnswers → AdbGuard → AdbGuard × ℤ
count_probe a g = elim a.listed [
  | none ↦ (record g { wedged = g.wedged + 1 }, negsuc 0)
  | some rows ↦ (
    record g {
      wedged = 0;
      unseen = if ltb 0 (length (missing_phones a.on_usb rows)) then g.unseen + 1 else 0;
    },
    pos (length (select (λ r. r.1 == codes "device") rows)),
  )
]

-- Whether the server has to be restarted.
abbrev pub has_cause : AdbAnswers → AdbGuard → Bool
has_cause a g = ltb 1 (length a.servers) || leb 2 g.wedged || leb 2 g.unseen

-- The sidecar follows a change of the server.
unfoldable pub follow_server : List ℕ → AdbGuard → AdbGuard × List Action
follow_server (pid ∷ []) g = (
  record g { last_pid = pid },
  if not (eqb g.last_pid 0) && not (eqb pid g.last_pid) then restart_sidecar ∷ [] else [],
)
follow_server [] g = (g, [])
follow_server (p ∷ q ∷ ps) g = (g, [])

-- check, with the number of devices that it returns.
unfoldable pub check : ℕ → AdbAnswers → AdbGuard → (AdbGuard × ℤ) × List Action
unfolding restart_adb count_probe follow_server
check now a g =
    let (g1, n) = count_probe a g in
    let (g2, acts) = if has_cause a g1 then restart_adb now a.managed g1 else (g1, []) in
    let (g3, more) = follow_server a.servers g2 in
    if not a.listening then ((g, negsuc 0), []) else ((g3, n), acts ++ more)

pub record HealState : Type 0 where
  pub fails : ℕ
  pub heal_count : ℕ
  pub window_start : ℕ

-- What the watchdog learns of the screens: the rows of the store with their WebDriverAgent address,
-- whether an address answers, and whether a job of provisioning is running.
pub record ScreenAnswers : Type 0 where
  pub rows : Option (List (Text × Text))
  pub probe_status : Text → Bool
  pub is_provisioning : Text → Bool
  pub screens : Controller

abbrev pub heal_window : ℕ
heal_window = 10 * 60 * second

abbrev pub new_heal : ℕ → HealState
new_heal now = record { fails = 0; heal_count = 0; window_start = now }

-- A window that is over is followed by a new one.
unfoldable pub slide_window : ℕ → HealState → HealState
slide_window now hs =
    if ltb (hs.window_start + heal_window) now
    then record hs { heal_count = 0; window_start = now }
    else hs

-- One check of a screen, and whether it is restarted.
unfoldable pub heal_one : Bool → Bool → ℕ → HealState → HealState × Bool
unfolding slide_window
heal_one healthy provisioning now hs₀ =
    let hs = slide_window now hs₀ in
    if healthy
    then (record hs { fails = 0 }, false)
    else if ltb (hs.fails + 1) 2 || provisioning || leb 3 hs.heal_count
    then (record hs { fails = hs.fails + 1 }, false)
    else (record hs { heal_count = hs.heal_count + 1; fails = 0 }, true)

abbrev pub heal_of : ℕ → Text → List (Text × HealState) → HealState
heal_of now i heals = elim (get i heals) [ none ↦ new_heal now | some hs ↦ hs ]

abbrev pub is_healthy : ℕ → ScreenAnswers → Text → Text → Bool
is_healthy now a i wda = a.probe_status wda && not (stream_dead now i (45 * second) a.screens)

unfoldable pub heal_row :
    ℕ → ScreenAnswers → Text × Text → List (Text × HealState) → List (Text × HealState) × List Text
unfolding heal_one stream_dead
heal_row now a (i, wda) heals =
    let (hs, did) =
      heal_one (is_healthy now a i wda) (a.is_provisioning i) now (heal_of now i heals) in
    if is_empty wda then (heals, []) else (put i hs heals, if did then i ∷ [] else [])

-- The screens that are restarted, in the order of the rows.
unfoldable pub heal_rows :
    ℕ
    → ScreenAnswers
    → List (Text × Text)
    → List (Text × HealState)
    → List (Text × HealState) × List Text
unfolding heal_row
heal_rows now a [] heals = (heals, [])
heal_rows now a (row ∷ rows) heals =
    let (heals1, acts) = heal_row now a row heals in
    let (heals2, more) = heal_rows now a rows heals1 in (heals2, acts ++ more)

pub record Watchdog : Type 0 where
  pub guard : AdbGuard
  pub heal : List (Text × HealState)

-- One tick of depsWatchdog.
unfoldable pub tick : ℕ → AdbAnswers → ScreenAnswers → Watchdog → Watchdog × List Action
unfolding check heal_rows
tick now a sa w =
    let ((g, n), acts) = check now a w.guard in
    elim sa.rows [
      | none ↦ (record w { guard = g }, acts)
      | some rows ↦
          let (heals, is) = heal_rows now sa rows w.heal in
          (record { guard = g; heal = heals }, acts ++ map restart_screen is)
    ]

-- The actions of the ticks, each with its time.
pub record Tick : Type 0 where
  pub now : ℕ
  pub adb : AdbAnswers
  pub ios : ScreenAnswers

unfoldable pub run_ticks : List Tick → Watchdog → List (ℕ × Action)
unfolding tick
run_ticks [] w = []
run_ticks (k ∷ ks) w =
    let (w', acts) = tick k.now k.adb k.ios w in map (λ x. (k.now, x)) acts ++ run_ticks ks w'
