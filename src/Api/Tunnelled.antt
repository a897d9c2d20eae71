-- ===== src/Api/Tunnelled.antt =====
-- internal/api: the tunnels are in step with the reservations after every request.
use poligon.Api.{
  Answer, Call, Request, Server, answered_run, batch_reserved, conflict_code, create_batch,
  create_run_from, followed_by_sync, get_batch, handle_calls, handle_request, heartbeat_device,
  heartbeat_of_batch, is_failure, list_batches, release_code, release_device, release_of_batch,
  rerun_run, reservation, reserve_device, success, syncs, tunnel_info,
}
use poligon.Api.Ports.{
  SamePorts, create_run_of-SamePorts, heartbeat-SamePorts, heartbeat_batch-SamePorts,
  release-SamePorts, release_batch-SamePorts, rerun-SamePorts, reserve-SamePorts,
  reserve_many-SamePorts,
}
use poligon.Base.{
  ==_eq, Bool-cases, List, Option-cases, Text, [], any, ap, arith, eqb, false, get, get-put, inl,
  inr, mem, put, some, subst, sym, true, ℕ, ◌&&◌, ◌==◌, ◌∙◌, ◌∷◌, ◌≡◌, ◌⊎◌,
}
use poligon.Reserve.{
  batch_devices, heartbeat, heartbeat_batch, release, release_batch, reserve, reserve_many,
}
use poligon.Runs.{RunAnswer, canceling, create_run_of, rerun, run_failure, run_is, runs_are}
use poligon.Store.{Db, Error, Result, Result-cases, err, ok, succeeds}
use poligon.Store.TunnelPorts.{port_of, tunnel_port}
use poligon.Tunnels.{UserTunnel, debug_tunnel_info, ensure, held_serials, is_shown}
use poligon.Tunnels.Held.{mem-held_serials}
use poligon.Tunnels.Ports.{
  HasPorts, Shows, State, has_port, has_port-tunnel_port, tunnel_port-has_port,
}
use poligon.Tunnels.Sync.{sync_user-HasPorts, sync_user-Shows, sync_user-held}

same-HasPorts :
    (db db' : Db) (ts : List (Text × UserTunnel))
    → SamePorts db db'
    → HasPorts (db, ts)
    → HasPorts (db', ts)
unfolding port_of
same-HasPorts db db' ts same h u t g = ground (arith, same, h u t g)

module _ (srv : Server) (on : eqb srv.tunnels.adb_tunnel_port 0 ≡ false) where
  followed-HasPorts :
      {A : Type 0} (user : Text) (ts : List (Text × UserTunnel)) (code : Error → ℕ)
      (answer : A → Answer) (db : Db) (r : Db × Result A)
      → SamePorts db r.0
      → HasPorts (db, ts)
      → HasPorts (followed_by_sync srv user ts code answer r).0
  unfolding followed_by_sync
  followed-HasPorts user ts code answer db (db', err e) same h = same-HasPorts db db' ts same h
  followed-HasPorts user ts code answer db (db', ok x) same h =
      sync_user-HasPorts srv.tunnels srv.listens on user (db', ts) (same-HasPorts db db' ts same h)

  followed-Shows :
      {A : Type 0} (user : Text) (ts : List (Text × UserTunnel)) (code : Error → ℕ)
      (answer : A → Answer) (db : Db) (r : Db × Result A)
      → SamePorts db r.0
      → HasPorts (db, ts)
      → is_failure (followed_by_sync srv user ts code answer r).1 ≡ false
      → (let s' = (followed_by_sync srv user ts code answer r).0 in
          Shows user (held_serials user s'.0) s')
  unfolding followed_by_sync
  followed-Shows user ts code answer db (db', err e) same h f t g = absurd (ground arith)
  followed-Shows user ts code answer db (db', ok x) same h f t g =
      sync_user-Shows srv.tunnels srv.listens on user (db', ts) (same-HasPorts db db' ts same h) t g
      ∙ sym (sync_user-held srv.tunnels srv.listens on user user (db', ts))

  -- The lookup of a tunnel leaves the tunnels alone, or opens an empty one for a user with a port.
  info_state :
      (user : Text) (s : State)
      → (let stored = tunnel_port user srv.tunnels.range_start srv.tunnels.range_end s.0 in
          let s' = (debug_tunnel_info srv.tunnels srv.listens user s).0 in
          (s' ≡ (stored.0, s.1))
          ⊎ ((p : ℕ) × (s' ≡ (stored.0, put user (record { port = p; allowed = [] }) s.1))
              × (succeeds stored.1 ≡ true)))
  unfolding debug_tunnel_info ensure
  info_state user (db, ts) =
      elim (Result-cases (tunnel_port user srv.tunnels.range_start srv.tunnels.range_end db).1) [
        | inr (x, e) ↦ inl (ground arith)
        | inl (p, e) ↦ elim (Option-cases (get user ts)) [
          | inr (t, k) ↦ inl (ground arith)
          | inl k ↦ elim (Bool-cases (srv.listens p)) [
            | inr l ↦ inl (ground arith)
            | inl l ↦ inr (p, ground arith, ground arith)
          ]
        ]
      ]

  opened-HasPorts :
      (user : Text) (p : ℕ) (s : State)
      → (let stored = tunnel_port user srv.tunnels.range_start srv.tunnels.range_end s.0 in
          succeeds stored.1 ≡ true
          → HasPorts s
          → HasPorts (stored.0, put user (record { port = p; allowed = [] }) s.1))
  opened-HasPorts user p (db, ts) ok_port h u t g = elim (Bool-cases (user == u)) [
    | inl e ↦
        subst
          (λ w.
            has_port w (tunnel_port user srv.tunnels.range_start srv.tunnels.range_end db).0 ≡ true)
          (==_eq user u e)
          (tunnel_port-has_port user srv.tunnels.range_start srv.tunnels.range_end db ok_port)
    | inr e ↦
        has_port-tunnel_port user u srv.tunnels.range_start srv.tunnels.range_end db
          (h u t (ground (arith, e, g, get-put u user (record { port = p; allowed = [] }) ts)))
  ]

  info-HasPorts :
      (user : Text) (s : State)
      → HasPorts s
      → HasPorts (debug_tunnel_info srv.tunnels srv.listens user s).0
  info-HasPorts user s h = elim (info_state user s) [
    | inl e ↦ subst HasPorts (sym e) (λ u t g.
        has_port-tunnel_port user u srv.tunnels.range_start srv.tunnels.range_end s.0 (h u t g))
    | inr (p, e, q) ↦ subst HasPorts (sym e) (opened-HasPorts user p s q h)
  ]

  get_batch_state :
      (now : ℕ) (fresh user b : Text) (s : State)
      → (handle_request srv now fresh user (get_batch b) s).0 ≡ s
  unfolding handle_request batch_devices
  get_batch_state now fresh user b (db, ts) = ground arith

  answered-HasPorts :
      (ts : List (Text × UserTunnel)) (x : Db × RunAnswer)
      → HasPorts (x.0, ts)
      → HasPorts (answered_run ts x).0
  answered-HasPorts ts (db, run_is run ds) h = h
  answered-HasPorts ts (db, runs_are rs n) h = h
  answered-HasPorts ts (db, canceling) h = h
  answered-HasPorts ts (db, run_failure n) h = h

  request-HasPorts :
      (now : ℕ) (fresh user : Text) (r : Request) (s : State)
      → HasPorts s
      → HasPorts (handle_request srv now fresh user r s).0
  unfolding handle_request
  request-HasPorts now fresh user (reserve_device i) (db, ts) h =
      followed-HasPorts user ts conflict_code reservation db
        (reserve srv.manager now fresh i user db)
        (reserve-SamePorts srv.manager now fresh i user db) h
  request-HasPorts now fresh user (release_device i) (db, ts) h =
      followed-HasPorts user ts release_code (λ _. success) db (release i user false db)
        (release-SamePorts i user false db) h
  request-HasPorts now fresh user (heartbeat_device i) (db, ts) h =
      followed-HasPorts user ts (λ _. 403) (λ _. success) db (heartbeat now i user db)
        (heartbeat-SamePorts now i user db) h
  request-HasPorts now fresh user (create_batch is) (db, ts) h =
      followed-HasPorts user ts (λ _. 409) (batch_reserved fresh) db
        (reserve_many srv.manager now fresh is user db)
        (reserve_many-SamePorts srv.manager now fresh is user db) h
  request-HasPorts now fresh user (heartbeat_of_batch b) (db, ts) h =
      followed-HasPorts user ts (λ _. 403) (λ _. success) db (heartbeat_batch now b user db)
        (heartbeat_batch-SamePorts now b user db) h
  request-HasPorts now fresh user (release_of_batch b) (db, ts) h =
      followed-HasPorts user ts (λ _. 403) (λ _. success) db (release_batch b user false db)
        (release_batch-SamePorts b user false db) h
  request-HasPorts now fresh user (get_batch b) (db, ts) h =
      subst HasPorts (sym (get_batch_state now fresh user b (db, ts))) h
  request-HasPorts now fresh user list_batches (db, ts) h = h
  request-HasPorts now fresh user tunnel_info (db, ts) h = info-HasPorts user (db, ts) h
  request-HasPorts now fresh user (create_run_from stamp rid form) (db, ts) h =
      answered-HasPorts ts (create_run_of srv.runs now stamp fresh rid user form db) (
        same-HasPorts db (create_run_of srv.runs now stamp fresh rid user form db).0 ts
          (create_run_of-SamePorts srv.runs now fresh rid user db stamp form) h)
  request-HasPorts now fresh user (rerun_run rid i) (db, ts) h =
      answered-HasPorts ts (rerun srv.runs now fresh rid user i db) (
        same-HasPorts db (rerun srv.runs now fresh rid user i db).0 ts
          (rerun-SamePorts srv.runs now fresh rid user db i) h)

  request-Shows :
      (now : ℕ) (fresh user : Text) (r : Request) (s : State)
      → HasPorts s
      → syncs r ≡ true
      → is_failure (handle_request srv now fresh user r s).1 ≡ false
      → (let s' = (handle_request srv now fresh user r s).0 in
          Shows user (held_serials user s'.0) s')
  unfolding handle_request
  request-Shows now fresh user (reserve_device i) (db, ts) h y =
      followed-Shows user ts conflict_code reservation db (reserve srv.manager now fresh i user db)
        (reserve-SamePorts srv.manager now fresh i user db) h
  request-Shows now fresh user (release_device i) (db, ts) h y =
      followed-Shows user ts release_code (λ _. success) db (release i user false db)
        (release-SamePorts i user false db) h
  request-Shows now fresh user (heartbeat_device i) (db, ts) h y =
      followed-Shows user ts (λ _. 403) (λ _. success) db (heartbeat now i user db)
        (heartbeat-SamePorts now i user db) h
  request-Shows now fresh user (create_batch is) (db, ts) h y =
      followed-Shows user ts (λ _. 409) (batch_reserved fresh) db
        (reserve_many srv.manager now fresh is user db)
        (reserve_many-SamePorts srv.manager now fresh is user db) h
  request-Shows now fresh user (heartbeat_of_batch b) (db, ts) h y =
      followed-Shows user ts (λ _. 403) (λ _. success) db (heartbeat_batch now b user db)
        (heartbeat_batch-SamePorts now b user db) h
  request-Shows now fresh user (release_of_batch b) (db, ts) h y =
      followed-Shows user ts (λ _. 403) (λ _. success) db (release_batch b user false db)
        (release_batch-SamePorts b user false db) h
  request-Shows now fresh user (get_batch b) s h y = absurd (ground arith)
  request-Shows now fresh user list_batches s h y = absurd (ground arith)
  request-Shows now fresh user tunnel_info s h y = absurd (ground arith)
  request-Shows now fresh user (create_run_from stamp rid form) s h y = absurd (ground arith)
  request-Shows now fresh user (rerun_run rid i) s h y = absurd (ground arith)

  calls-HasPorts : (cs : List Call) (s : State) → HasPorts s → HasPorts (handle_calls srv cs s)
  unfolding handle_calls
  calls-HasPorts [] s h = h
  calls-HasPorts (c ∷ cs) s h =
      calls-HasPorts cs (handle_request srv c.now c.fresh c.user c.request s).0
        (request-HasPorts c.now c.fresh c.user c.request s h)

  -- Whatever users have asked for since the start, when no tunnel was open, submissions of runs among it,
  -- one request after the other: a request on a reservation or a batch that books, renews or
  -- releases and is not refused leaves its caller's tunnel, if he has one, with exactly the serials
  -- of the Android devices that he then holds. A submission of a run is not such a request.
  pub mem-requested :
      (cs : List Call) (db : Db) (now : ℕ) (fresh user serial : Text) (r : Request) (t : UserTunnel)
      → (let s = handle_calls srv cs (db, []) in
          let out = handle_request srv now fresh user r s in
          syncs r ≡ true
          → is_failure out.1 ≡ false
          → get user out.0.1 ≡ some t
          → mem serial t.allowed
            ≡ any (λ d. is_shown user out.0.0 d && d.serial == serial) out.0.0.devices)
  mem-requested cs db now fresh user serial r t y f g =
      let s = handle_calls srv cs (db, []) in
      let ports : HasPorts s = calls-HasPorts cs (db, []) (λ u t e. absurd (ground arith)) in
      ap (mem serial) (request-Shows now fresh user r s ports y f t g)
      ∙ mem-held_serials user serial (handle_request srv now fresh user r s).0.0
