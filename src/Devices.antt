-- ===== src/Devices.antt =====
-- internal/devices/devices.go: the poll loop's decisions. A Poller is the part of the Manager that
-- its mutex guards: the maps `flaps` and `heldSince`, as association lists without a repeated key.
pub mod Flapping
pub mod Reconcile
pub mod Inventory
pub mod Poll
pub mod Keeping
pub mod Discovery
use poligon.Base.{
  Bool, List, Option, Text, [], false, get, if◌then◌else◌, leb, length, ltb, none, not, put, remove,
  select, some, true, ℕ, ◌&&◌, ◌*◌, ◌++◌, ◌+◌, ◌∷◌,
}
use poligon.Model.{
  Device, DeviceStatus, busy, degraded, free, maintenance, offline, reserved, running_test, second,
  unauthorized,
}

pub record Flap : Type 0 where
  pub changes : List ℕ
  pub online : Bool

pub record Poller : Type 0 where
  pub flaps : List (Text × Flap)
  pub held_since : List (Text × ℕ)

abbrev pub held_offline_grace : ℕ
held_offline_grace = 90 * second

-- The changes of the last 60 seconds: `t.After(now.Add(-60s))`.
unfoldable pub recent : ℕ → List ℕ → List ℕ
recent now ts = select (λ t. ltb now (t + 60 * second)) ts

abbrev pub bool_eq : Bool → Bool → Bool
bool_eq true b = b
bool_eq false b = not b

-- One sight of a device: a change of connectivity is noted, and old ones are dropped.
unfoldable pub observe : Bool → ℕ → Option Flap → Flap
observe online now none = record { changes = []; online = online }
observe online now (some f) =
    if bool_eq f.online online
    then record f { changes = recent now f.changes }
    else record { changes = recent now (f.changes ++ now ∷ []); online = online }

unfoldable pub is_flapping : Text → Bool → ℕ → Poller → Bool × Poller
is_flapping i online now p =
    let f = observe online now (get i p.flaps) in
    (leb 3 (length f.changes), record p { flaps = put i f p.flaps })

unfoldable pub held_offline_too_long : Text → ℕ → Poller → Bool × Poller
held_offline_too_long i now p = elim (get i p.held_since) [
  | none ↦ (false, record p { held_since = put i now p.held_since })
  | some since ↦ (ltb (since + held_offline_grace) now, p)
]

unfoldable pub clear_held_since : Text → Poller → Poller
clear_held_since i p = record p { held_since = remove i p.held_since }

-- `isHeld` is reserve.Manager's; here its answer for the device.
abbrev pub settle : Bool → Bool → Bool → DeviceStatus
settle online authorized held =
    if online && authorized
    then if held then reserved else free
    else if online
    then unauthorized
    else offline

-- A device in use: a brief absence is tolerated.
abbrev pub keep_in_use : DeviceStatus → Text → Bool → ℕ → Poller → DeviceStatus × Poller
keep_in_use st i online now p =
    if online
    then (st, clear_held_since i p)
    else let (gone, p') = held_offline_too_long i now p in (if gone then offline else st, p')

-- `reconcile` behind its test for flapping, by the stored status.
unfoldable pub reconcile_steady :
    DeviceStatus → Text → Bool → Bool → Bool → ℕ → Poller → DeviceStatus × Poller
reconcile_steady maintenance i online authorized held now p = (maintenance, p)
reconcile_steady reserved i online authorized held now p = keep_in_use reserved i online now p
reconcile_steady busy i online authorized held now p = keep_in_use busy i online now p
reconcile_steady running_test i online authorized held now p =
    keep_in_use running_test i online now p
reconcile_steady degraded i online authorized held now p =
    (if online && authorized then free else degraded, p)
reconcile_steady _ i online authorized held now p = (settle online authorized held, p)

unfoldable pub reconcile : Device → Bool → Bool → Bool → ℕ → Poller → DeviceStatus × Poller
unfolding reconcile_steady
reconcile d online authorized held now p =
    let (flapping, p') = is_flapping d.id online now p in
    if flapping
    then (degraded, p')
    else reconcile_steady d.status d.id online authorized held now p'
