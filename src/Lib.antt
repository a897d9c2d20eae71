-- ===== src/Lib.antt =====
-- A verification library of poligon, the daemon of a farm of Android and iOS devices: users book
-- devices, open their screens, install builds, and submit test runs.
--
-- The parts and how they interact
--   internal/store keeps devices, accounts, sessions, reservations, runs and tunnel ports in SQLite.
--   internal/reserve books devices for users on that store, renews the leases by heartbeats, and
--   ends them on request or, by a ticker, when they are idle or too old. internal/devices polls the
--   connected devices and sets their statuses. internal/runner takes a queued run, works on its
--   devices and releases what it had booked. internal/adbfilter stands between a user's adb client
--   and the adb server and shows only the devices he holds; internal/api/debugtunnel.go keeps it in
--   step with the reservations. internal/auth signs users in. internal/iosscreen reads the screen of
--   an iOS device once for all its viewers. cmd/poligon runs a watchdog, which restarts the adb server
--   and the iOS screens. internal/uitree finds elements on a screen, internal/config checks the
--   inventory.
--
-- Files
--   Model: internal/model/model.go, its structs as records and its enumerations as data types.
--   Store, Store/: internal/store, with internal/store/schema.sql. A table is the list of its rows
--     in the order of their rowids, `Db` has all tables, and each statement is a function that
--     carries its name in snake_case (SetRunStatus is `set_run_status`; the store's Run is `get_run`,
--     its User `get_user`, its SetPassword `set_password_hash`). Constraints that a statement can
--     meet are errors, and a transaction drops its state on an error. Listing is the Runs of the store
--     (`list_runs`), and Paging is about it.
--   Reserve, Reserve/: internal/reserve/reserve.go, one function per method of Manager; Booking and
--     Many are about bookings, Ending and Expiry about the end of leases, Invariant about all calls,
--     and Batches has the two queries UserBatches and ActiveUsers.
--   Naming, Naming/: internal/naming/naming.go.
--   Devices, Devices/: internal/devices/devices.go, reconcile with the two maps that it keeps; Poll
--     is pollOnce with the discovery of devices, Keeping and Discovery are about it. Inventory is New.
--   Runner, Runner/: internal/runner/runner.go; Runner is Submit, Queue is drainQueue and the start of
--     Run, Execute the rest; Holding is about whose devices Submit takes, Closing, Settling and
--     Deadline about the end of runs. Crash is internal/runner/crash.go. Workspace is internal/runner/workspace.go,
--     with Confined and Budget about it.
--   Runs, Runs/: internal/api/runs.go, one function per handler (createRun is `create_run_of`, getRun
--     `show_run`, listRuns `show_runs`, rerunRun `rerun`); Form and Inputs read the form, Selecting is
--     selectDevices. Checking, Accepting, Queueing, Bookable and Hiding are about them. Redacted of
--     internal/model/model.go is `redacted`.
--   Provision, Provision/: the jobs of internal/provision (provision.go, ios.go) and, in Ports, the ports
--     of the iOS screens (lifecycle.go, ios.go); Working, Renaming and Pairs are about them. A job is named
--     by its key in the map of jobs.
--   Adb, Adb/: the command lines of internal/adb/adb.go; Quoting reads them as a POSIX shell does.
--   Paths: path/filepath on Unix.
--   Adbfilter, Adbfilter/: internal/adbfilter/adbfilter.go, with the bytes of a connection as texts.
--   Auth, Auth/: internal/auth/auth.go; Limiter is its limiter of failed logins,
--     Signup its Register and its set-password links, Middleware its checks of requests.
--   Screen, Screen/: internal/iosscreen/stream.go and the endpoints of iosscreen.go. Streams are
--     objects on a heap. Frames is scanJPEGs; Splitting, Chunks and Images are about it, Counting,
--     Idle, Arrival and Viewers about the viewers, with each operation at one go; Race is about the
--     sections of Subscribe and stopIfIdle in another order, Rebinding about a change of endpoint.
--   Tunnels, Tunnels/: the registry of tunnels in internal/adbfilter/adbfilter.go and
--     internal/api/debugtunnel.go; its syncUserTunnel is `sync_user_tunnel`.
--   Api, Api/: internal/api/api.go (reserve, release, heartbeat) and internal/api/batch.go, one function
--     per handler, with `handle_request` for these routes and those of runs.go that book; Ports,
--     Tunnelled and Unsynced are about the tunnels, Install is batchInstall.
--   Watchdog, Watchdog/: cmd/poligon/adbguard.go (check, restartADB) and cmd/poligon/watchdog.go (one
--     round of depsWatchdog is `tick`); Attempts and Restarts are about the adb server, Budget, Heals
--     and Recovery about the screens.
--   Uitree, Uitree/: internal/uitree/uitree.go; Ranks and Choice are about Find.
--   Config, Config/: internal/config/config.go.
--   Base, Base/: Boolean tests, texts, operations on lists and association lists, and their lemmas.
--   Tests, Tests/: sample data, the theorems at concrete inputs, and runs of the code.
--
-- Conventions
--   A string is the list of its bytes. A time is a number of nanoseconds; time.Now() and the random
--   ids are arguments, and a comparison with `now.Add(-d)` has `d` added on the other side, as times
--   are natural numbers here. Each call of the store is one step: the program gives the store a
--   single connection. I/O errors of the database are left out, and so are log lines. The order in
--   which Go walks a map is the order of a list that is an argument or part of the state. A timer is
--   what its callback has captured; a timer that was stopped does not fire. What runs under one lock
--   is one step. A handler of the HTTP API is one step too, although no lock spans it: requests come one
--   after the other. The tools of internal/api/mcp_tools.go that reserve and release make the same
--   calls as the handlers of reservations.
--
-- Bounds and fuel
--   search_id gets one more than the number of taken names, of which it can meet each once;
--   digits_onto gets one more than the number, high_hex the number and track the length of what it
--   reads, and each of their steps makes that smaller. split_frames gets one more than the
--   length of the buffer, of which every image takes four bytes. drain_queue gets a list of its turns,
--   of which the runs that are queued use up one each. first_free_port gets the 500 ports of freePort.
--
-- Parameters
--   bcrypt and SHA-256 are the record Crypto. What a device did in a run is the argument `Outcome`,
--   what smoke saw of it the record Smoke. What adb, libimobiledevice, launchd and
--   WebDriverAgent answer are the records Connected, AdbAnswers and ScreenAnswers; whether a port can
--   be listened on, the folding of Unicode text, and whether a run matches a search by LIKE are functions.
--   What the disk answers is the record Disk, with the entries of an archive; Files adds which URLs can be
--   fetched.
--
-- Not modelled
--   Of the tables `installs` and `ios_screen` all but the devices that their rows name, and the
--   statements that write them.
--   In the runner: the texts of details, artifacts, logs, the callback, the heartbeats of a run's own
--   batch, which end no lease, the cancel functions, and the statuses that smoke gives to the device.
--   In the adb filter the accept loop and the copying of bytes, and in auth the cookies' attributes,
--   normEmail and clientIP.
--   strings.ToLower, strings.TrimSpace and strings.Fields are modelled on ASCII. In iosscreen the
--   reader of the network, the requests to WebDriverAgent and the end of a viewer's own context; in
--   uitree the reading of the XML and the printing; of the configuration the YAML. In provision what a
--   job does on a device, in the handlers of runs the text of the badge, of adb all but some command
--   lines. The packages that run external tools (ios, capture, install, live) and the other handlers of
--   the HTTP API are not part of the development.
pub mod Base
pub mod Config
pub mod Model
pub mod Store
pub mod Reserve
pub mod Naming
pub mod Paths
pub mod Runs
pub mod Provision
pub mod Adb
pub mod Devices
pub mod Adbfilter
pub mod Auth
pub mod Screen
pub mod Tunnels
pub mod Watchdog
pub mod Uitree
pub mod Api
pub mod Tests
pub mod Runner
