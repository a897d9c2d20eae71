-- ===== src/Reserve/Lease.antt =====
-- The life of one lease: heartbeats against the clock, and the count of the reaper.
use poligon.Base.{
  Bool-cases, List, Text, [], any, arith, false, find_first, if◌then◌else◌, inl, inr, length, ltb,
  none, not, refl, select, some, true, ℕ, ◌&&◌, ◌+◌, ◌==◌, ◌||◌, ◌∷◌, ◌≡◌, ◌≤◌,
}
use poligon.Model.{Reservation}
use poligon.Reserve.{
  Manager, active_on, heartbeat, held_by, holder, is_held, is_stale, reap_expired, reap_rows,
  release, renew_at, stale_rows,
}
use poligon.Reserve.Ending.{release-IsUnique, release-effect}
use poligon.Reserve.Expiry.{heartbeat-effect, reap_expired-effect}
use poligon.Reserve.Invariant.{heartbeat-IsUnique}
use poligon.Reserve.Rows.{IsUnique, active_count, holder-release_other}
use poligon.Store.{Db}

lease_row :
    (i : Text) (rows : List Reservation) (r : Reservation)
    → find_first (active_on i) rows ≡ some r
    → active_on i r ≡ true
lease_row i [] r h = absurd (ground arith)
lease_row i (x ∷ rows) r h = ground (arith, lease_row i rows r)

held_by-holder :
    (i user : Text) (db : Db) (r : Reservation)
    → holder i db ≡ some r
    → r.user ≡ user
    → held_by i user r ≡ true
unfolding holder
held_by-holder i user db r h e = ground (arith, lease_row i db.reservations r h)

-- In a database where no device has two active reservations, a heartbeat of the holder buys one idle
-- timeout: ReapExpired then ends the lease exactly when more
-- than the idle timeout has passed since the heartbeat, or the hard cap, which no heartbeat moves.
reap-heartbeat :
    (m : Manager) (t now : ℕ) (i user : Text) (db : Db) (r : Reservation)
    → IsUnique db
    → holder i db ≡ some r
    → r.user ≡ user
    → holder i (reap_expired m now (heartbeat t i user db).0).0
      ≡ (if ltb (t + m.idle_timeout) now || ltb r.expires_at now then none else some (renew_at t r))
reap-heartbeat m t now i user db r u h e = ground (
  arith,
  reap_expired-effect m now (heartbeat t i user db).0 (heartbeat-IsUnique t i user db u) i,
  heartbeat-effect t i user db i,
  held_by-holder i user db r h e,
)

-- Rows that name held devices, no device twice.
abbrev AreLeases : List Reservation → Db → Type 0
AreLeases [] db = Unit
AreLeases (r ∷ rs) db =
    (is_held r.device_id db ≡ true)
    × (any (λ s. s.device_id == r.device_id) rs ≡ false)
    × AreLeases rs db

AreLeases-release :
    (i user : Text) (rs : List Reservation) (db : Db)
    → any (λ s. s.device_id == i) rs ≡ false
    → AreLeases rs db
    → AreLeases rs (release i user true db).0
unfolding is_held
AreLeases-release i user [] db n l = tt
AreLeases-release i user (r ∷ rs) db n l = (
  ground (arith, holder-release_other r.device_id i user true db (ground arith)),
  l.1,
  AreLeases-release i user rs db (ground arith) l.2,
)

reap_rows-count :
    (rs : List Reservation) (db : Db)
    → IsUnique db
    → AreLeases rs db
    → (reap_rows rs db).1 ≡ length rs
unfolding reap_rows is_held
reap_rows-count [] db u l = refl
reap_rows-count (r ∷ rs) db u l =
    let E = release-effect r.device_id r.user true db u in
    let next = (release r.device_id r.user true db).0 in
    let rest =
      reap_rows-count rs next (release-IsUnique r.device_id r.user true db u)
        (AreLeases-release r.device_id r.user rs db l.1 l.2) in
    ground (arith, E.0, rest)

stale_none :
    (m : Manager) (now : ℕ) (i : Text) (rows : List Reservation)
    → active_count i rows ≡ 0
    → any (λ r. r.device_id == i) (select (λ r. not r.released && is_stale m now r) rows) ≡ false
stale_none m now i [] h = refl
stale_none m now i (r ∷ rows) h = ground (arith, stale_none m now i rows)

AreLeases-more :
    (rs : List Reservation) (db db' : Db)
    → ((i : Text) → is_held i db ≡ true → is_held i db' ≡ true)
    → AreLeases rs db
    → AreLeases rs db'
AreLeases-more [] db db' h l = tt
AreLeases-more (r ∷ rs) db db' h l = (h r.device_id l.0, l.1, AreLeases-more rs db db' h l.2)

stale-AreLeases :
    (m : Manager) (now : ℕ) (rows : List Reservation) (db : Db)
    → ((i : Text) → active_count i rows ≤ 1)
    → AreLeases
        (select (λ r. not r.released && is_stale m now r) rows)
        (record db { reservations = rows })
unfolding is_held holder
stale-AreLeases m now [] db u = tt
stale-AreLeases m now (r ∷ rows) db u =
    let later =
      AreLeases-more (select (λ r. not r.released && is_stale m now r) rows)
        (record db { reservations = rows }) (record db { reservations = r ∷ rows })
        (λ i h. ground arith) (stale-AreLeases m now rows db (λ i. ground (arith, u i))) in
    elim (Bool-cases (not r.released && is_stale m now r)) [
      | inl over ↦
          rw over
            (ground arith, stale_none m now r.device_id rows (ground (arith, u r.device_id)), later)
      | inr fresh ↦ rw fresh later
    ]

-- In a database where no device has two active reservations, the number that ReapExpired reports is
-- the number of leases that were stale.
reap_expired-count :
    (m : Manager) (now : ℕ) (db : Db)
    → IsUnique db
    → (reap_expired m now db).1 ≡ length (stale_rows m now db)
unfolding reap_expired
reap_expired-count m now db u =
    reap_rows-count (stale_rows m now db) db u (stale-AreLeases m now db.reservations db u)
