-- ===== src/Provision/Working.antt =====
-- internal/provision: no job of the map has two workers at a time.
use poligon.Base.{Text, get, mem, true, ◌≡◌}
use poligon.Provision.{Jobs, is_running_job}
use poligon.Reserve.Booking.{has_no_repeat}

-- A worker's job is running, and has one worker only.
pub record IsExclusive (j : Jobs) : Type 0 where
  pub once : has_no_repeat j.workers ≡ true
  pub running : (i : Text) → mem i j.workers ≡ is_running_job (get i j.states)
