-- ===== src/Devices/Discovery.antt =====
-- internal/devices/devices.go: what a poll does to the pool.
use poligon.Base.{
  ==-refl, Bool, Bool-cases, Text, [], any-append, ap, arith, codes, false, inl, inr, map, not,
  refl, true, ℕ, ◌&&◌, ◌++◌, ◌==◌, ◌∷◌, ◌≡◌,
}
use poligon.Devices.{Poller}
use poligon.Devices.Keeping.{
  Keeps, Keeps-trans, discover_android-Keeps, discover_ios-Keeps, is_adopted, visit_all-Keeps,
}
use poligon.Devices.Poll.{
  Connected, PollState, auto_device, auto_register_android, discover_android, discover_ios,
  known_serials, known_udids, pending_id, poll_once, register_device, visit_all,
}
use poligon.Model.{android, unauthorized}
use poligon.Naming.{short_serial}
use poligon.Store.{Db}
use poligon.Store.Devices.{all_devices, create_auto_device, no_specs}

-- A poll changes no lease, and adopts nothing: an id that is adopted afterwards was so before. So no
-- device that is only discovered can be booked.
pub poll-adopts_nothing :
    (auto_discover : Bool) (con : Connected) (now : ℕ) (p : Poller) (db : Db) (i : Text)
    → ((poll_once auto_discover con now p db).0.reservations ≡ db.reservations)
      × ((is_adopted i (poll_once auto_discover con now p db).0 && not (is_adopted i db)) ≡ false)
unfolding poll_once
poll-adopts_nothing auto_discover con now p db i =
    let pool = all_devices db in
    let s =
      visit_all con now pool (record { db = db; poller = p; taken_ids = map (λ d. d.id) pool }) in
    let s1 = discover_android con now con.android_states (known_serials pool) s in
    let s2 = discover_ios con now con.ios_online (known_udids pool) s1 in
    let seen : Keeps db s.db =
      visit_all-Keeps con now pool
        (record { db = db; poller = p; taken_ids = map (λ d. d.id) pool }) in
    let found : Keeps db s2.db =
      Keeps-trans db s1.db s2.db
        (Keeps-trans db s.db s1.db seen
          (discover_android-Keeps con now con.android_states (known_serials pool) s))
        (discover_ios-Keeps con now con.ios_online (known_udids pool) s1) in
    elim (Bool-cases auto_discover) [
      | inl e ↦ rw e (found.0, nothing (is_adopted i s2.db) (is_adopted i db) (found.1 i))
      | inr e ↦ rw e (seen.0, nothing (is_adopted i s.db) (is_adopted i db) (seen.1 i))
    ]
  where
    nothing : (a b : Bool) → (a ≡ true → b ≡ true) → (a && not b) ≡ false
    nothing true b h = ground (arith, h refl)
    nothing false b h = refl

-- Two devices that are not authorized yet and whose serials agree in the first eight bytes share one
-- row: the second is not registered.
register-same_prefix :
    (con : Connected) (now later : ℕ) (a b : Text) (s : PollState)
    → short_serial a ≡ short_serial b
    → (auto_register_android con later b false (auto_register_android con now a false s)).db
      ≡ (auto_register_android con now a false s).db
unfolding auto_register_android register_device create_auto_device
register-same_prefix con now later a b s e =
    let same : pending_id a ≡ pending_id b = ap (λ t. codes "pending-" ++ t) e in
    ground (
      arith,
      same,
      any-append (λ r. r.id == pending_id b) s.db.devices
          (auto_device (pending_id a) android a [] no_specs unauthorized now ∷ []),
      ==-refl (pending_id b),
    )
