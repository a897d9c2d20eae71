-- ===== src/Devices/Reconcile.antt =====
-- reconcile: when a device becomes free, and how long one in use may be absent.
use poligon.Base.{
  Bool, Option, Text, arith, false, get, get-put, get-remove, if◌then◌else◌, leb, none, not, refl,
  some, true, ℕ, ◌&&◌, ◌+◌, ◌||◌, ◌≡◌,
}
use poligon.Devices.{
  Poller, clear_held_since, held_offline_grace, held_offline_too_long, is_flapping, reconcile,
  reconcile_steady,
}
use poligon.Model.{Device, DeviceStatus, degraded, free, offline, reserved, unauthorized}
use poligon.Reserve.{in_use}

abbrev pub is_free_status : DeviceStatus → Bool
is_free_status free = true
is_free_status _ = false

-- The statuses of a device that nobody uses and nothing is wrong with.
abbrev pub is_idle : DeviceStatus → Bool
is_idle offline = true
is_idle unauthorized = true
is_idle free = true
is_idle _ = false

abbrev pub is_degraded : DeviceStatus → Bool
is_degraded degraded = true
is_degraded _ = false

-- A poll sets a device free exactly when it does not flap, is connected and authorized, and either
-- was degraded, also if it is still held, or was idle and is held by nobody.
pub reconcile-free :
    (d : Device) (online authorized held : Bool) (now : ℕ) (p : Poller)
    → is_free_status (reconcile d online authorized held now p).0 ≡ (
        not (is_flapping d.id online now p).0
        && online
        && authorized
        && (is_degraded d.status || (is_idle d.status && not held)))
unfolding reconcile
reconcile-free d online authorized held now p = by_status d.status
  where
    by_status :
        (st : DeviceStatus)
        → is_free_status
            (if (is_flapping d.id online now p).0
              then (degraded, (is_flapping d.id online now p).1)
              else reconcile_steady st d.id online authorized held now
                  (is_flapping d.id online now p).1).0
          ≡ (not (is_flapping d.id online now p).0
              && online
              && authorized
              && (is_degraded st || (is_idle st && not held)))
    by_status reserved = ground arith
    by_status _ = ground arith

-- The first moment of an absence: the one on record, or this one.
abbrev pub absent_since : Option ℕ → ℕ → ℕ
absent_since none now = now
absent_since (some t) now = t

module _ (online authorized held : Bool) (now : ℕ) where
  steady-in_use :
      (st : DeviceStatus) (i : Text) (p : Poller)
      → in_use st ≡ true
      → ((reconcile_steady st i online authorized held now p).0 ≡ (
          if online || leb now (absent_since (get i p.held_since) now + held_offline_grace)
          then st
          else offline))
        × (get i (reconcile_steady st i online authorized held now p).1.held_since
            ≡ (if online then none else some (absent_since (get i p.held_since) now)))
  unfolding reconcile_steady held_offline_too_long clear_held_since
  steady-in_use reserved i p e =
      ground (arith, get-put i i now p.held_since, get-remove i i p.held_since)
  steady-in_use _ i p e = ground (arith, get-put i i now p.held_since, get-remove i i p.held_since)

  is_flapping-held_since :
      (i : Text) (p : Poller) → (is_flapping i online now p).1.held_since ≡ p.held_since
  unfolding is_flapping
  is_flapping-held_since i p = refl

  -- A device in use that does not flap keeps its status while it is connected, and while it has been
  -- away for at most the grace of 90 seconds; then it goes offline. A sight of it forgets the absence,
  -- and the first poll without it starts a new one.
  pub reconcile-in_use :
      (d : Device) (p : Poller)
      → in_use d.status ≡ true
      → (is_flapping d.id online now p).0 ≡ false
      → ((reconcile d online authorized held now p).0 ≡ (
          if online || leb now (absent_since (get d.id p.held_since) now + held_offline_grace)
          then d.status
          else offline))
        × (get d.id (reconcile d online authorized held now p).1.held_since
            ≡ (if online then none else some (absent_since (get d.id p.held_since) now)))
  unfolding reconcile
  reconcile-in_use d p u no_flap =
      rw (reconcile, no_flap)
        (rw is_flapping-held_since at
          (steady-in_use d.status d.id (is_flapping d.id online now p).1 u))
