-- ===== src/Tunnels.antt =====
-- internal/adbfilter/adbfilter.go, the registry of the users' tunnels, and
-- internal/api/debugtunnel.go, which keeps it in step with the reservations. Whether a port can be
-- listened on is an argument.
pub mod Held
pub mod Ports
pub mod Sync
use poligon.Base.{
  Bool, List, Option, Text, [], eqb, false, get, if◌then◌else◌, inl, inr, is_empty, map, none, not,
  put, select, some, true, ℕ, ◌&&◌, ◌++◌, ◌==◌, ◌∷◌, ◌⊎◌,
}
use poligon.Model.{Device, Platform, android, ios}
use poligon.Reserve.{holder}
use poligon.Reserve.Batches.{active_users, distinct}
use poligon.Store.{Db, err, ok}
use poligon.Store.Devices.{all_devices}
use poligon.Store.TunnelPorts.{tunnel_port}

-- A listener is given by its port.
pub record UserTunnel : Type 0 where
  pub port : ℕ
  pub allowed : List Text

-- Ensure; `none` if the port cannot be listened on.
unfoldable pub ensure :
    (ℕ → Bool) → Text → ℕ → List (Text × UserTunnel) → Option (List (Text × UserTunnel))
ensure listens user p ts = elim (get user ts) [
  | some _ ↦ some ts
  | none ↦ if listens p then some (put user (record { port = p; allowed = [] }) ts) else none
]

unfoldable pub set_allowed : Text → List Text → List (Text × UserTunnel) → List (Text × UserTunnel)
set_allowed user serials ts = elim (get user ts) [
  | none ↦ ts
  | some t ↦ put user (record t { allowed = serials }) ts
]

-- Users, in some order.
unfoldable pub tunnel_users : List (Text × UserTunnel) → List Text
tunnel_users ts = map (λ e. e.0) ts

-- The part of the configuration that the tunnels read; no tunnels if `adb_tunnel_port` is 0.
pub record TunnelConfig : Type 0 where
  pub adb_tunnel_port : ℕ
  pub range_start : ℕ
  pub range_end : ℕ

abbrev pub is_android : Platform → Bool
is_android android = true
is_android ios = false

abbrev pub holds : Text → Text → Db → Bool
holds user i db = elim (holder i db) [ none ↦ false | some r ↦ r.user == user ]

-- Whether the loop of syncUserTunnel takes the device.
abbrev pub is_shown : Text → Db → Device → Bool
is_shown user db d = is_android d.platform && not (is_empty d.serial) && holds user d.id db

unfoldable pub held_serials : Text → Db → List Text
held_serials user db = map (λ d. d.serial) (select (is_shown user db) (all_devices db))

unfoldable pub sync_user_tunnel :
    TunnelConfig → (ℕ → Bool) → Text → Db × List (Text × UserTunnel) → Db × List (Text × UserTunnel)
unfolding ensure set_allowed held_serials
sync_user_tunnel cfg listens user (db, ts) =
    if eqb cfg.adb_tunnel_port 0
    then (db, ts)
    else (let (db', res) = tunnel_port user cfg.range_start cfg.range_end db in
        elim res [
          | err _ ↦ (db', ts)
          | ok p ↦ elim (ensure listens user p ts) [
            | none ↦ (db', ts)
            | some ts' ↦ (db', set_allowed user (held_serials user db) ts')
          ]
        ])

unfoldable pub sync_users :
    TunnelConfig
    → (ℕ → Bool)
    → List Text
    → Db × List (Text × UserTunnel)
    → Db × List (Text × UserTunnel)
unfolding sync_user_tunnel
sync_users cfg listens [] s = s
sync_users cfg listens (u ∷ us) s = sync_users cfg listens us (sync_user_tunnel cfg listens u s)

-- SyncADBTunnels: everybody with a tunnel or an active reservation, in some order.
unfoldable pub sync_adb_tunnels :
    TunnelConfig → (ℕ → Bool) → Db × List (Text × UserTunnel) → Db × List (Text × UserTunnel)
unfolding sync_users tunnel_users
sync_adb_tunnels cfg listens s =
    sync_users cfg listens (distinct (tunnel_users s.1 ++ active_users s.0)) s

pub data InfoError : Type 0 where
  tunnels_disabled no_port cannot_listen : InfoError

-- deviceDebugTunnelInfo: the port of the caller.
unfoldable pub debug_tunnel_info :
    TunnelConfig
    → (ℕ → Bool)
    → Text
    → Db × List (Text × UserTunnel)
    → (Db × List (Text × UserTunnel)) × (ℕ ⊎ InfoError)
unfolding ensure
debug_tunnel_info cfg listens user (db, ts) =
    if eqb cfg.adb_tunnel_port 0
    then ((db, ts), inr tunnels_disabled)
    else (let (db', res) = tunnel_port user cfg.range_start cfg.range_end db in
        elim res [
          | err _ ↦ ((db', ts), inr no_port)
          | ok p ↦ elim (ensure listens user p ts) [
            | none ↦ ((db', ts), inr cannot_listen)
            | some ts' ↦ ((db', ts'), inl p)
          ]
        ])
