-- ===== src/Api/Unsynced.antt =====
-- internal/api/runs.go: the submissions of runs, which book devices and do not sync the tunnel.
use poligon.Api.{Server, Shared, answered_run, create_run_from, handle_request, rerun_run}
use poligon.Base.{List, Text, refl, ℕ, ◌≡◌}
use poligon.Runs.{RunAnswer, canceling, create_run_of, rerun, run_failure, run_is, runs_are}
use poligon.Runs.Form.{RunForm}
use poligon.Store.{Db}
use poligon.Tunnels.{UserTunnel}

-- Whatever a submission of a run or a rerun books: no tunnel changes, so that of the caller lists
-- the serials that it listed before.
pub runs-unsynced :
    (srv : Server) (now : ℕ) (fresh user stamp rid i : Text) (form : RunForm) (s : Shared)
    → ((handle_request srv now fresh user (create_run_from stamp rid form) s).0.1 ≡ s.1)
      × ((handle_request srv now fresh user (rerun_run rid i) s).0.1 ≡ s.1)
unfolding handle_request
runs-unsynced srv now fresh user stamp rid i form (db, ts) = (
  same_tunnels ts (create_run_of srv.runs now stamp fresh rid user form db),
  same_tunnels ts (rerun srv.runs now fresh rid user i db),
)
  where
    same_tunnels :
        (ts : List (Text × UserTunnel)) (x : Db × RunAnswer) → (answered_run ts x).0.1 ≡ ts
    same_tunnels ts (db, run_is run ds) = refl
    same_tunnels ts (db, runs_are rs n) = refl
    same_tunnels ts (db, canceling) = refl
    same_tunnels ts (db, run_failure n) = refl
