-- ===== src/Reserve/Expiry.antt =====
-- Heartbeats and ReapExpired: which leases end by themselves.
use poligon.Base.{
  ==_eq, Bool, Bool-cases, List, Option, Text, [], any, arith, false, find_first, find_first-update,
  if◌then◌else◌, inl, inr, none, not, refl, some, true, update_where, ℕ, ◌&&◌, ◌==◌, ◌∷◌, ◌≡◌,
}
use poligon.Model.{Reservation}
use poligon.Reserve.{
  Manager, active_on, heartbeat, heartbeat_batch, held_by, holder, in_batch, is_stale, reap_expired,
  reap_rows, release, renew_at, stale_rows,
}
use poligon.Reserve.Ending.{any_device-select}
use poligon.Reserve.Rows.{IsUnique, holder-release_admin, holder-release_other}
use poligon.Store.{Db}

-- The same lease, seen after an UPDATE of renewed_at for the rows that pass the test.
abbrev pub renewed_if : (Reservation → Bool) → ℕ → Option Reservation → Option Reservation
renewed_if p now none = none
renewed_if p now (some r) = some (if p r then renew_at now r else r)

find_first-renew :
    (p : Reservation → Bool) (now : ℕ) (i : Text) (rows : List Reservation)
    → find_first (active_on i) (update_where p (renew_at now) rows)
      ≡ renewed_if p now (find_first (active_on i) rows)
find_first-renew p now i rows =
    ground (arith, find_first-update (active_on i) p (renew_at now) rows (λ r. refl))

no_match :
    (p : Reservation → Bool) (i : Text) (now : ℕ) (rows : List Reservation)
    → any p rows ≡ false
    → renewed_if p now (find_first (active_on i) rows) ≡ find_first (active_on i) rows
no_match p i now [] h = refl
no_match p i now (r ∷ rows) h = ground (arith, no_match p i now rows)

-- A heartbeat renews the lease of the device if the caller holds it, and no other lease.
pub heartbeat-effect :
    (now : ℕ) (i user : Text) (db : Db) (j : Text)
    → holder j (heartbeat now i user db).0 ≡ renewed_if (held_by i user) now (holder j db)
unfolding heartbeat holder
heartbeat-effect now i user db j = ground (
  arith,
  find_first-renew (held_by i user) now j db.reservations,
  no_match (held_by i user) j now db.reservations,
)

-- A heartbeat of a batch renews the leases of the caller in the batch, and no other lease.
heartbeat_batch-effect :
    (now : ℕ) (batch user : Text) (db : Db) (j : Text)
    → holder j (heartbeat_batch now batch user db).0
      ≡ renewed_if (in_batch batch user) now (holder j db)
unfolding heartbeat_batch holder
heartbeat_batch-effect now batch user db j = ground (
  arith,
  find_first-renew (in_batch batch user) now j db.reservations,
  no_match (in_batch batch user) j now db.reservations,
)

holder-reap_rows :
    (rs : List Reservation) (db : Db) (j : Text)
    → holder j (reap_rows rs db).0 ≡ (if any (λ r. r.device_id == j) rs then none else holder j db)
unfolding reap_rows
holder-reap_rows [] db j = refl
holder-reap_rows (r ∷ rs) db j =
    let rest = holder-reap_rows rs (release r.device_id r.user true db).0 j in
    elim (Bool-cases (j == r.device_id)) [
      | inl same ↦
          let e : j ≡ r.device_id = ==_eq j r.device_id same in
          let gone : holder j (release r.device_id r.user true db).0 ≡ none =
            rw e (holder-release_admin r.device_id r.user db) in
          ground (arith, rest, gone)
      | inr differs ↦
          ground (arith, rest, holder-release_other j r.device_id r.user true db differs)
    ]

-- The leases that are left by ReapExpired: those that are neither idle nor past their cap.
abbrev pub unless_stale : Manager → ℕ → Option Reservation → Option Reservation
unless_stale m now none = none
unless_stale m now (some r) = if is_stale m now r then none else some r

-- In a database where no device has two active reservations, ReapExpired ends every lease that is past its idle timeout or its hard cap, whoever holds it, and
-- leaves every other lease as it was.
pub reap_expired-effect :
    (m : Manager) (now : ℕ) (db : Db)
    → IsUnique db
    → (j : Text) → holder j (reap_expired m now db).0 ≡ unless_stale m now (holder j db)
unfolding reap_expired holder
reap_expired-effect m now db u j = ground (
  arith,
  holder-reap_rows (stale_rows m now db) db j,
  any_device-select (λ r. not r.released && is_stale m now r) j db.reservations
      (λ r h. ground arith) (u j),
  is_active j db.reservations,
)
  where
    is_active :
        (j : Text) (rows : List Reservation)
        → (elim (find_first (active_on j) rows) [ none ↦ false | some r ↦ r.released ]) ≡ false
    is_active j [] = refl
    is_active j (r ∷ rows) = ground (arith, is_active j rows)
