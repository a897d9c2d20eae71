-- ===== src/Reserve.antt =====
-- internal/reserve/reserve.go: one active holder per device, leases renewed by heartbeats. A time
-- is an argument of each call, and so is a batch id drawn by newBatchID. A comparison with
-- `now.Add(-d)` is written with `d` added on the other side.
pub mod Batches
pub mod Rows
pub mod Booking
pub mod Many
pub mod Ending
pub mod Expiry
pub mod Invariant
pub mod Lease
use poligon.Base.{
  Bool, List, Option, Text, [], any, codes, false, find_first, if◌then◌else◌, ltb, map, none, not,
  order_by, select, some, suc, text_leb, true, update_where, ℕ, ◌&&◌, ◌++◌, ◌+◌, ◌==◌, ◌||◌, ◌∷◌,
}
use poligon.Model.{DeviceStatus, Reservation, busy, free, reserved, running_test}
use poligon.Store.{
  Db, Result, Tx, constraint, err, no_devices, not_holder, ok, taken, transaction, unavailable,
}
use poligon.Store.Devices.{device}

pub record Manager : Type 0 where
  pub idle_timeout : ℕ
  pub max_lease : ℕ

-- What each booking asks of the device first: adopted and free.
unfoldable pub check_available : Text → Db → Result (Unit {0})
check_available i db = elim (device i db) [
  | err e ↦ err e
  | ok d ↦
      if d.adopted
      then elim d.status [
        | free ↦ ok tt
        | reserved ↦ err taken
        | busy ↦ err taken
        | running_test ↦ err taken
        | _ ↦ err unavailable
      ]
      else err unavailable
]

abbrev pub active_on : Text → Reservation → Bool
active_on i r = r.device_id == i && not r.released

-- The row that a booking writes, and the struct that it returns.
abbrev pub new_row : ℕ → Text → Text → Text → ℕ → ℕ → Reservation
new_row rid i user batch now exp = record {
  id = rid;
  device_id = i;
  user = user;
  batch = batch;
  created_at = now;
  expires_at = exp;
  renewed_at = now;
  released = false;
}

-- The INSERT with the constraints it can run into: the foreign keys on devices and users, and the
-- unique index on the device of the active rows.
unfoldable pub insert_reservation : Text → Text → Text → ℕ → ℕ → Tx ℕ
insert_reservation i user batch now exp db =
    if any (λ d. d.id == i) db.devices
      && any (λ u. u.name == user) db.users
      && not (any (active_on i) db.reservations)
    then ok (
      db.next_reservation,
      record db {
        reservations = db.reservations ++ new_row db.next_reservation i user batch now exp ∷ [];
        next_reservation = db.next_reservation + 1;
      },
    )
    else err constraint

-- UPDATE devices SET status = ? WHERE id = ?
abbrev pub update_status : Text → DeviceStatus → Db → Db
update_status i st db = record db {
  devices = update_where (λ d. d.id == i) (λ d. record d { status = st }) db.devices;
}

-- The two statements that book one device. Any error of the INSERT is reported as ErrTaken.
unfoldable pub book : ℕ → ℕ → Text → Text → Text → Tx Reservation
book now exp batch i user db = elim (insert_reservation i user batch now exp db) [
  | err _ ↦ err taken
  | ok (rid, db') ↦ ok (new_row rid i user batch now exp, update_status i reserved db')
]

unfoldable pub reserve : Manager → ℕ → Text → Text → Text → Db → Db × Result Reservation
unfolding book
reserve m now batch i user db = elim (check_available i db) [
  | err e ↦ (db, err e)
  | ok _ ↦ transaction (book now (now + m.max_lease) batch i user) db
]

-- The loop of checks before the transaction.
unfoldable pub check_all : List Text → Db → Result (Unit {0})
check_all [] db = ok tt
check_all (i ∷ is) db =
    let rest = check_all is db in elim (check_available i db) [ err e ↦ err e | ok _ ↦ rest ]

-- The loop of the transaction.
unfoldable pub book_all : ℕ → ℕ → Text → Text → List Text → Tx (List Reservation)
book_all now exp batch user [] db = ok ([], db)
book_all now exp batch user (i ∷ is) db = elim (book now exp batch i user db) [
  | err e ↦ err e
  | ok (r, db') ↦ elim (book_all now exp batch user is db') [
    | err e ↦ err e
    | ok (rs, db'') ↦ ok (r ∷ rs, db'')
  ]
]

unfoldable pub reserve_many :
    Manager → ℕ → Text → List Text → Text → Db → Db × Result (List Reservation)
reserve_many m now batch [] user db = (db, err no_devices)
reserve_many m now batch (i ∷ is) user db = elim (check_all (i ∷ is) db) [
  | err e ↦ (db, err e)
  | ok _ ↦ transaction (book_all now (now + m.max_lease) batch user (i ∷ is)) db
]

-- The virtual batch of all that a user holds.
abbrev pub mine : Text
mine = codes "mine"

abbrev pub in_batch : Text → Text → Reservation → Bool
in_batch batch user r = (batch == mine || r.batch == batch) && r.user == user && not r.released

-- SELECT device_id … ORDER BY device_id.
abbrev pub batch_rows : Text → Text → Db → List Text
batch_rows batch user db =
    order_by text_leb (map (λ r. r.device_id) (select (in_batch batch user) db.reservations))

unfoldable pub batch_devices : Text → Text → Db → Result (List Text)
batch_devices batch user db = elim (batch_rows batch user db) [
  | [] ↦ err not_holder
  | i ∷ is ↦ ok (i ∷ is)
]

abbrev pub renew_at : ℕ → Reservation → Reservation
renew_at now r = record r { renewed_at = now }

-- An UPDATE on reservations that must affect at least one row.
abbrev pub update_some : (Reservation → Bool) → (Reservation → Reservation) → Tx (Unit {0})
update_some p f db =
    if any p db.reservations
    then ok (tt, record db { reservations = update_where p f db.reservations })
    else err not_holder

unfoldable pub heartbeat_batch : ℕ → Text → Text → Db → Db × Result (Unit {0})
heartbeat_batch now batch user db =
    transaction (update_some (in_batch batch user) (renew_at now)) db

abbrev pub held_by : Text → Text → Reservation → Bool
held_by i user r = r.device_id == i && r.user == user && not r.released

unfoldable pub heartbeat : ℕ → Text → Text → Db → Db × Result (Unit {0})
heartbeat now i user db = transaction (update_some (held_by i user) (renew_at now)) db

abbrev pub in_use : DeviceStatus → Bool
in_use reserved = true
in_use busy = true
in_use running_test = true
in_use _ = false

-- The second statement of Release.
abbrev pub free_device : Text → Db → Db
free_device i db = record db {
  devices =
      update_where (λ d. d.id == i && in_use d.status) (λ d. record d { status = free }) db.devices;
}

-- The rows that Release ends; an admin's do not have to be his.
abbrev pub releasable : Text → Text → Bool → Reservation → Bool
releasable i user admin r = r.device_id == i && not r.released && (admin || r.user == user)

abbrev pub end_lease : Reservation → Reservation
end_lease r = record r { released = true }

unfoldable pub release : Text → Text → Bool → Db → Db × Result (Unit {0})
release i user admin db =
    transaction
      (λ db'. elim (update_some (releasable i user admin) end_lease db') [
        | err e ↦ err e
        | ok (_, db'') ↦ ok (tt, free_device i db'')
      ])
      db

-- A loop of releases whose errors are ignored.
unfoldable pub release_all : List Text → Text → Bool → Db → Db
release_all [] user admin db = db
release_all (i ∷ is) user admin db = release_all is user admin (release i user admin db).0

-- The admin's query, which does not ask whose the batch is.
abbrev pub any_batch_rows : Text → Db → List Text
any_batch_rows batch db =
    map (λ r. r.device_id) (select (λ r. r.batch == batch && not r.released) db.reservations)

unfoldable pub release_batch : Text → Text → Bool → Db → Db × Result (Unit {0})
release_batch batch user admin db = elim (batch_devices batch user db) [
  | ok is ↦ (release_all is user admin db, ok tt)
  | err e ↦
      if admin then (release_all (any_batch_rows batch db) user admin db, ok tt) else (db, err e)
]

unfoldable pub holder : Text → Db → Option Reservation
holder i db = find_first (active_on i) db.reservations

unfoldable pub is_held : Text → Db → Bool
unfolding holder
is_held i db = elim (holder i db) [ none ↦ false | some _ ↦ true ]

-- Past the idle timeout or the hard cap.
abbrev pub is_stale : Manager → ℕ → Reservation → Bool
is_stale m now r = ltb (r.renewed_at + m.idle_timeout) now || ltb r.expires_at now

abbrev pub stale_rows : Manager → ℕ → Db → List Reservation
stale_rows m now db = select (λ r. not r.released && is_stale m now r) db.reservations

-- Each stale lease is released as by an admin; the successes are counted.
unfoldable pub reap_rows : List Reservation → Db → Db × ℕ
reap_rows [] db = (db, 0)
reap_rows (r ∷ rs) db =
    let (db', res) = release r.device_id r.user true db in
    let (db'', n) = reap_rows rs db' in (db'', elim res [ ok _ ↦ suc n | err _ ↦ n ])

unfoldable pub reap_expired : Manager → ℕ → Db → Db × ℕ
reap_expired m now db = reap_rows (stale_rows m now db) db
