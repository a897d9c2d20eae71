-- ===== src/Provision.antt =====
-- internal/provision: the jobs that prepare a device for the farm or restart its screen, one function
-- per method of Manager. What a job does on the device is left out; a worker is its goroutine.
pub mod Working
pub mod Renaming
pub mod Ports
pub mod Pairs
use poligon.Base.{
  Bool, List, Option, Text, [], false, get, if◌then◌else◌, is_empty, mem, none, not, put, select,
  some, true, ◌==◌, ◌∷◌,
}
use poligon.Store.{Db, err, ok}
use poligon.Store.Devices.{device}

pub data JobState : Type 0 where
  job_running job_done job_failed : JobState

-- The state under the manager's lock: the map of the jobs, by the device's id at the beginning of the
-- job, with the field DeviceID of each, and the jobs that a worker is at.
pub record Jobs : Type 0 where
  pub states : List (Text × JobState)
  pub device_ids : List (Text × Text)
  pub workers : List Text

abbrev pub no_jobs : Jobs
no_jobs = record { states = []; device_ids = []; workers = [] }

abbrev pub is_running_job : Option JobState → Bool
is_running_job (some job_running) = true
is_running_job _ = false

abbrev pub begin_job : Text → Jobs → Jobs
begin_job i j = record {
  states = put i job_running j.states;
  device_ids = put i i j.device_ids;
  workers = i ∷ j.workers;
}

-- The common end of Start and RestartScreen: a running job is the answer, or a new one begins.
unfoldable pub start_unless_running : Text → Jobs → Jobs
start_unless_running i j = if is_running_job (get i j.states) then j else begin_job i j

-- Start; `none` is an error.
unfoldable pub start_job : Text → Db → Jobs → Option Jobs
unfolding start_unless_running
start_job i db j = elim (device i db) [
  | err _ ↦ none
  | ok d ↦ if d.adopted then none else some (start_unless_running i j)
]

-- RestartScreen
unfoldable pub restart_screen : Text → Db → Jobs → Option Jobs
unfolding start_unless_running
restart_screen i db j = elim (device i db) [ err _ ↦ none | ok _ ↦ some (start_unless_running i j) ]

-- A worker ends.
unfoldable pub end_job : Text → Bool → Jobs → Jobs
end_job i fine j =
    if mem i j.workers
    then record j {
      states = put i (if fine then job_done else job_failed) j.states;
      workers = select (λ k. not (k == i)) j.workers;
    }
    else j

-- finishRegistration, in a worker: the device has a new id, and the job stays where it is in the map.
unfoldable pub rename_in_job : Text → Text → Jobs → Jobs
rename_in_job i new j =
    if mem i j.workers then record j { device_ids = put i new j.device_ids } else j

-- Resume, for the devices of the stored screens.
unfoldable pub resume_jobs : List Text → Db → Jobs → Jobs
resume_jobs [] db j = j
resume_jobs (i ∷ is) db j =
    let skip = resume_jobs is db j in
    let begin = resume_jobs is db (begin_job i j) in
    elim (device i db) [ err _ ↦ skip | ok d ↦ if is_empty d.udid then skip else begin ]

-- What may happen after Resume.
pub data JobEvent : Type 0 where
  starts restarts : Text → Db → JobEvent
  ends : Text → Bool → JobEvent
  renames_device : Text → Text → JobEvent

abbrev pub kept_or : Jobs → Option Jobs → Jobs
kept_or j none = j
kept_or j (some j') = j'

abbrev pub on_event : JobEvent → Jobs → Jobs
on_event (starts i db) j = kept_or j (start_job i db j)
on_event (restarts i db) j = kept_or j (restart_screen i db j)
on_event (ends i fine) j = end_job i fine j
on_event (renames_device i new) j = rename_in_job i new j

unfoldable pub job_events : List JobEvent → Jobs → Jobs
unfolding start_job restart_screen end_job rename_in_job
job_events [] j = j
job_events (e ∷ es) j = job_events es (on_event e j)
