-- ===== src/Tests/Jobs.antt =====
-- The theorems on the queue, on provisioning and on archives at concrete inputs.
use poligon.Adb.{force_stop_line, list_dir_line, remove_line, rename_line}
use poligon.Adb.Quoting.{words_of, words_of-lines}
use poligon.Base.{
  Bool, List, Text, [], any, arith, codes, false, has_prefix, is_empty, map, none, not, refl, some,
  text_discrete, true, ℕ, ℕ_discrete, ◌++◌, ◌+◌, ◌∷◌, ◌≡◌,
}
use poligon.Model.{free, ios, queued, running}
use poligon.Paths.{FilePath, is_up, split_at}
use poligon.Provision.{JobEvent, ends, restarts, starts}
use poligon.Provision.Ports.{Procs}
use poligon.Reserve.Booking.{has_no_repeat}
use poligon.Runner.Crash.{
  exception_at, has_crash, scan_crash, scan_crash-is_empty, scan_crash_lines,
}
use poligon.Runner.Queue.{Turn, is_waiting, start_up}
use poligon.Runner.Settling.{start_up-settled}
use poligon.Runner.Workspace.{
  Disk, Entry, extract_workspace, max_workspace_bytes, unpack, unpack_entry,
}
use poligon.Runner.Workspace.Budget.{IsConfined, extract_workspace-IsConfined}
use poligon.Runner.Workspace.Confined.{is_clean}
use poligon.Store.{Db}
use poligon.Store.Listing.{trim_space}
use poligon.Tests.{farm, leased, phone, pixel}
use poligon.Tests.Pool.{all_pass, run_of, run_row}
use poligon.Uitree.{contains}

-- One run that a process which died has left running, and one in the queue.
abbrev at_start : Db
at_start = record leased {
  runs = run_of (codes "r0") running 50 ∷ run_of (codes "r1") queued 60 ∷ [];
  run_devices = run_row ∷ [];
}

abbrev turn : Turn
turn = record { is_stopped = false; did = all_pass; is_canceled = false; start = 600; fin = 700 }

different_ids : has_no_repeat (map (λ r. r.id) at_start.runs) ≡ true
unfolding text_discrete ℕ_discrete
different_ids = refl

start_up-settled_example : any is_waiting (start_up 500 (turn ∷ []) at_start).runs ≡ false
start_up-settled_example =
    start_up-settled 500 (turn ∷ []) at_start different_ids refl (omega arith)

abbrev iphone : Text
iphone = codes "iphone"

abbrev iphones : Db
iphones = record farm {
  devices =
      record (phone iphone free) { platform = ios; udid = iphone }
      ∷ record (phone pixel free) { adopted = false }
      ∷ [];
}

-- The pixel is adopted twice while it is worked on, and the screen of the iPhone is restarted.
abbrev job_calls : List JobEvent
job_calls =
    starts pixel iphones
    ∷ starts pixel iphones
    ∷ ends iphone true
    ∷ restarts iphone iphones
    ∷ ends pixel false
    ∷ []

-- Two screens.
abbrev one_screen : Procs
one_screen =
    (
      codes "U1",
      record { for_udid = codes "U1"; wda_port = 18100; mjpeg_port = 19100; has_run = false },
    )
    ∷ []

abbrev two_screens : Procs
two_screens =
    one_screen
    ++ (
      codes "U2",
      record { for_udid = codes "U2"; wda_port = 18101; mjpeg_port = 19101; has_run = false },
    )
      ∷ []

abbrev any_port_listens : ℕ → Bool
any_port_listens n = true

-- An archive with a flow and an entry that points out of the directory.
abbrev entry : Text → Entry
entry name = record {
  name = name;
  is_dir = false;
  is_regular = true;
  opens = true;
  readable = 10;
  is_damaged = false;
}

abbrev pub sample_disk : Disk
sample_disk = record {
  makes = λ p. true;
  creates = λ p. true;
  archive = λ p. some (entry (codes "flows/a.yaml") ∷ entry (codes "../../etc/passwd") ∷ []);
  lone_dirs = λ p. [];
  has_yaml = λ p. true;
  exists = λ p. true;
}

abbrev workspace_dir : FilePath
workspace_dir = record { rooted = true; parts = codes "workspace" ∷ codes "uploads" ∷ [] }

clean_dir : is_clean workspace_dir.parts ≡ true
unfolding is_up text_discrete ℕ_discrete
clean_dir = refl

extract_workspace-IsConfined_example :
    IsConfined workspace_dir
      (max_workspace_bytes + 1)
      (extract_workspace sample_disk (codes "w.zip") workspace_dir []).0
extract_workspace-IsConfined_example =
    extract_workspace-IsConfined sample_disk (codes "w.zip") workspace_dir [] clean_dir

-- Runs of the code: the flow is unpacked, the other entry ends the extraction.
extract_run : extract_workspace sample_disk (codes "w.zip") workspace_dir [] ≡ (
  record {
    made =
        record {
          rooted = true;
          parts = codes "a.yaml" ∷ codes "flows" ∷ codes "workspace" ∷ codes "uploads" ∷ [];
        }
        ∷ [];
    bytes = 10;
  },
  none,
)
unfolding extract_workspace unpack_entry unpack text_discrete ℕ_discrete has_prefix
extract_run = refl

words_of-lines_example :
    (words_of (list_dir_line (codes "/sdcard/it's"))
      ≡ some (codes "ls" ∷ codes "-laL" ∷ codes "/sdcard/it's" ∷ []))
    × (words_of (remove_line (codes "/sdcard/it's"))
        ≡ some (codes "rm" ∷ codes "-rf" ∷ codes "--" ∷ codes "/sdcard/it's" ∷ []))
    × (words_of (rename_line (codes "a b") (codes "c;d"))
        ≡ some (codes "mv" ∷ codes "--" ∷ codes "a b" ∷ codes "c;d" ∷ []))
    × (words_of (force_stop_line (codes "com.app"))
        ≡ some (codes "am" ∷ codes "force-stop" ∷ codes "com.app" ∷ []))
words_of-lines_example =
    words_of-lines (codes "/sdcard/it's") (codes "a b") (codes "c;d") (codes "com.app")

-- A log with the crash of another app, and one of the app itself.
abbrev crash_log : Text → Text
crash_log app =
    codes "E AndroidRuntime: FATAL EXCEPTION: main"
    ++ b'\n' ∷ codes "E AndroidRuntime: Process: "
    ++ app
    ++ b'\n' ∷ []

scan_crash-is_empty_example :
    is_empty (scan_crash (crash_log (codes "com.other")) (codes "com.app"))
    ≡ not (has_crash (codes "com.app") (split_at b'\n' (crash_log (codes "com.other"))))
scan_crash-is_empty_example = scan_crash-is_empty (crash_log (codes "com.other")) (codes "com.app")

-- Runs of the code: the other app's crash is passed over, the app's own is told.
crash_other : scan_crash (crash_log (codes "com.other")) (codes "com.app") ≡ []
unfolding scan_crash scan_crash_lines exception_at split_at contains has_prefix trim_space
crash_other = refl

crash_own :
    scan_crash (crash_log (codes "com.app")) (codes "com.app")
    ≡ codes "E AndroidRuntime: FATAL EXCEPTION: main — E AndroidRuntime: Process: com.app"
unfolding scan_crash scan_crash_lines exception_at split_at contains has_prefix trim_space
crash_own = refl
