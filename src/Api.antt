-- ===== src/Api.antt =====
-- internal/api: the handlers of reservations in api.go and batch.go, those of runs.go that book, and
-- the lookup of the tunnel in
-- debugtunnel.go, for a user who is signed in. A handler is its effect on the store and the tunnels and
-- its answer; the decoding of the request and the encoding of the answer are left out.
pub mod Ports
pub mod Tunnelled
pub mod Unsynced
pub mod Install
use poligon.Base.{Bool, List, Text, [], false, inl, inr, true, ℕ, ◌∷◌}
use poligon.Model.{Device, Reservation}
use poligon.Reserve.{
  Manager, batch_devices, heartbeat, heartbeat_batch, release, release_batch, reserve, reserve_many,
}
use poligon.Reserve.Batches.{UserBatch, user_batches}
use poligon.Runs.{RunAnswer, RunServer, create_run_of, rerun, run_failure}
use poligon.Runs.Form.{RunForm}
use poligon.Store.{Db, Error, Result, err, not_holder, ok, taken, unavailable}
use poligon.Store.Devices.{device}
use poligon.Tunnels.{
  InfoError, TunnelConfig, UserTunnel, cannot_listen, debug_tunnel_info, no_port, sync_user_tunnel,
  tunnels_disabled,
}

-- The parts that the handlers use.
pub record Server : Type 0 where
  pub manager : Manager
  pub tunnels : TunnelConfig
  pub listens : ℕ → Bool
  pub runs : RunServer

-- The state that the handlers share: the store and the tunnels.
abbrev pub Shared : Type 0
Shared = Db × List (Text × UserTunnel)

pub data Request : Type 0 where
  reserve_device release_device heartbeat_device : Text → Request
  create_batch : List Text → Request
  heartbeat_of_batch release_of_batch get_batch : Text → Request
  list_batches tunnel_info : Request
  -- The random parts of the upload directory and of the run's id come with these two.
  create_run_from : Text → Text → RunForm → Request
  rerun_run : Text → Text → Request

pub data Answer : Type 0 where
  reservation : Reservation → Answer
  batch_reserved : Text → List Reservation → Answer
  batches : List UserBatch → Answer
  batch_devices_of : Text → List Device → Answer
  tunnel_port_is : ℕ → Answer
  success : Answer
  run_answer : RunAnswer → Answer
  failure : ℕ → Answer

-- An operation of the reservations, whose success is followed by syncUserTunnel; a failure is
-- answered by a code.
unfoldable pub followed_by_sync {ℓ} :
    {A : Type ℓ}
    → Server
    → Text
    → List (Text × UserTunnel)
    → (Error → ℕ)
    → (A → Answer)
    → Db × Result A
    → Shared × Answer
unfolding sync_user_tunnel
followed_by_sync srv user ts code answer (db, err e) = ((db, ts), failure (code e))
followed_by_sync srv user ts code answer (db, ok x) =
    (sync_user_tunnel srv.tunnels srv.listens user (db, ts), answer x)

abbrev pub conflict_code : Error → ℕ
conflict_code taken = 409
conflict_code unavailable = 409
conflict_code _ = 500

abbrev pub release_code : Error → ℕ
release_code not_holder = 403
release_code _ = 500

abbrev pub info_code : InfoError → ℕ
info_code tunnels_disabled = 503
info_code no_port = 500
info_code cannot_listen = 500

-- The devices of the ids; one that is gone is passed over.
unfoldable pub devices_by_id : List Text → Db → List Device
devices_by_id [] db = []
devices_by_id (i ∷ is) db =
    let rest = devices_by_id is db in elim (device i db) [ err _ ↦ rest | ok d ↦ d ∷ rest ]

-- The handlers, for a caller, with a new batch id.
abbrev pub handle_reserve : Server → ℕ → Text → Text → Text → Shared → Shared × Answer
handle_reserve srv now fresh user i (db, ts) =
    followed_by_sync srv user ts conflict_code reservation (reserve srv.manager now fresh i user db)

abbrev pub handle_release : Server → ℕ → Text → Text → Text → Shared → Shared × Answer
handle_release srv now fresh user i (db, ts) =
    followed_by_sync srv user ts release_code (λ _. success) (release i user false db)

abbrev pub handle_heartbeat : Server → ℕ → Text → Text → Text → Shared → Shared × Answer
handle_heartbeat srv now fresh user i (db, ts) =
    followed_by_sync srv user ts (λ _. 403) (λ _. success) (heartbeat now i user db)

abbrev pub batch_create : Server → ℕ → Text → Text → List Text → Shared → Shared × Answer
batch_create srv now fresh user is (db, ts) =
    followed_by_sync srv user ts (λ _. 409) (batch_reserved fresh)
      (reserve_many srv.manager now fresh is user db)

abbrev pub batch_heartbeat : Server → ℕ → Text → Text → Text → Shared → Shared × Answer
batch_heartbeat srv now fresh user batch (db, ts) =
    followed_by_sync srv user ts (λ _. 403) (λ _. success) (heartbeat_batch now batch user db)

abbrev pub batch_release : Server → ℕ → Text → Text → Text → Shared → Shared × Answer
batch_release srv now fresh user batch (db, ts) =
    followed_by_sync srv user ts (λ _. 403) (λ _. success) (release_batch batch user false db)

abbrev pub batch_get : Server → ℕ → Text → Text → Text → Shared → Shared × Answer
batch_get srv now fresh user batch (db, ts) = elim (batch_devices batch user db) [
  | err _ ↦ ((db, ts), failure 404)
  | ok is ↦ ((db, ts), batch_devices_of batch (devices_by_id is db))
]

abbrev pub batch_list : Server → ℕ → Text → Text → Shared → Shared × Answer
batch_list srv now fresh user (db, ts) = ((db, ts), batches (user_batches user db))

abbrev pub device_debug_tunnel_info : Server → ℕ → Text → Text → Shared → Shared × Answer
device_debug_tunnel_info srv now fresh user (db, ts) =
    let (s', res) = debug_tunnel_info srv.tunnels srv.listens user (db, ts) in
    (s', elim res [ inl p ↦ tunnel_port_is p | inr e ↦ failure (info_code e) ])

-- createRun and rerunRun; none of the two calls syncUserTunnel.
abbrev pub answered_run : List (Text × UserTunnel) → Db × RunAnswer → Shared × Answer
answered_run ts (db, run_failure n) = ((db, ts), failure n)
answered_run ts (db, a) = ((db, ts), run_answer a)

abbrev pub handle_create_run :
    Server → ℕ → Text → Text → Text → Text → RunForm → Shared → Shared × Answer
handle_create_run srv now fresh user stamp rid form (db, ts) =
    answered_run ts (create_run_of srv.runs now stamp fresh rid user form db)

abbrev pub handle_rerun : Server → ℕ → Text → Text → Text → Text → Shared → Shared × Answer
handle_rerun srv now fresh user rid i (db, ts) =
    answered_run ts (rerun srv.runs now fresh rid user i db)

-- The routes.
unfoldable pub handle_request : Server → ℕ → Text → Text → Request → Shared → Shared × Answer
unfolding followed_by_sync devices_by_id create_run_of rerun
handle_request srv now fresh user (reserve_device i) (db, ts) =
    handle_reserve srv now fresh user i (db, ts)
handle_request srv now fresh user (release_device i) (db, ts) =
    handle_release srv now fresh user i (db, ts)
handle_request srv now fresh user (heartbeat_device i) (db, ts) =
    handle_heartbeat srv now fresh user i (db, ts)
handle_request srv now fresh user (create_batch is) (db, ts) =
    batch_create srv now fresh user is (db, ts)
handle_request srv now fresh user (heartbeat_of_batch batch) (db, ts) =
    batch_heartbeat srv now fresh user batch (db, ts)
handle_request srv now fresh user (release_of_batch batch) (db, ts) =
    batch_release srv now fresh user batch (db, ts)
handle_request srv now fresh user (get_batch batch) (db, ts) =
    batch_get srv now fresh user batch (db, ts)
handle_request srv now fresh user list_batches (db, ts) = batch_list srv now fresh user (db, ts)
handle_request srv now fresh user tunnel_info (db, ts) =
    device_debug_tunnel_info srv now fresh user (db, ts)
handle_request srv now fresh user (create_run_from stamp rid form) (db, ts) =
    handle_create_run srv now fresh user stamp rid form (db, ts)
handle_request srv now fresh user (rerun_run rid i) (db, ts) =
    handle_rerun srv now fresh user rid i (db, ts)

-- The requests of the users, in the order of their arrival.
pub record Call : Type 0 where
  pub now : ℕ
  pub fresh : Text
  pub user : Text
  pub request : Request

unfoldable pub handle_calls : Server → List Call → Shared → Shared
unfolding handle_request
handle_calls srv [] s = s
handle_calls srv (c ∷ cs) s =
    handle_calls srv cs (handle_request srv c.now c.fresh c.user c.request s).0

-- Whether a handler ends with syncUserTunnel.
abbrev pub syncs : Request → Bool
syncs (reserve_device i) = true
syncs (release_device i) = true
syncs (heartbeat_device i) = true
syncs (create_batch is) = true
syncs (heartbeat_of_batch b) = true
syncs (release_of_batch b) = true
syncs (get_batch b) = false
syncs list_batches = false
syncs tunnel_info = false
syncs (create_run_from stamp rid form) = false
syncs (rerun_run rid i) = false

abbrev pub is_failure : Answer → Bool
is_failure (failure n) = true
is_failure _ = false
