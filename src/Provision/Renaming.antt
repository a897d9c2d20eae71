-- ===== src/Provision/Renaming.antt =====
-- internal/provision: a device that is renamed by the job that is at it.
use poligon.Base.{
  ==-refl, ==-sym, Text, arith, false, get, get-put, inl, inr, mem, put, some, true, ◌==◌, ◌≡◌,
}
use poligon.Provision.{
  Jobs, is_running_job, on_event, rename_in_job, renames_device, restart_screen, restarts,
  start_unless_running,
}
use poligon.Store.{Db, Result-cases, succeeds}
use poligon.Store.Devices.{device}

-- A job that renames its device leaves the new id free in the map: a restart of the screen under that
-- id, while the job is running, begins a second worker for the same device. The new id is a
-- stored device, and no job is running under it.
restart_screen-renamed :
    (i new : Text) (db : Db) (j : Jobs)
    → mem i j.workers ≡ true
    → (i == new) ≡ false
    → succeeds (device new db) ≡ true
    → is_running_job (get new j.states) ≡ false
    → (let j' = on_event (restarts new db) (on_event (renames_device i new) j) in
        (mem i j'.workers ≡ true)
        × (mem new j'.workers ≡ true)
        × (get i j'.device_ids ≡ some new)
        × (get new j'.device_ids ≡ some new))
unfolding restart_screen start_unless_running rename_in_job
restart_screen-renamed i new db j w apart known idle = elim (Result-cases (device new db)) [
  | inr (x, c) ↦ absurd (ground arith)
  | inl (d, c) ↦ ground (
    arith,
    get-put i i new j.device_ids,
    get-put i new new (put i new j.device_ids),
    get-put new new new (put i new j.device_ids),
    ==-refl i,
    ==-refl new,
    ==-sym i new,
  )
]
