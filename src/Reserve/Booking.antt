-- ===== src/Reserve/Booking.antt =====
-- What Reserve and ReserveMany promise: when they book, and what a booking changes.
use poligon.Base.{
  Bool, List, Text, [], any, arith, false, find_first, find_first-none-any, if◌then◌else◌, inl, inr,
  map, mem, none, not, refl, some, true, update_where-map, ℕ, ◌&&◌, ◌++◌, ◌+◌, ◌==◌, ◌∷◌, ◌≡◌,
}
use poligon.Model.{Device, DeviceStatus, Reservation, free, reserved}
use poligon.Reserve.{
  Manager, book, check_available, holder, insert_reservation, is_held, new_row, reserve,
  update_status,
}
use poligon.Reserve.Rows.{holder-insert, succeeds-insert}
use poligon.Store.{Db, Result, Result-cases, err, ok, succeeds, transaction, transaction_rule}
use poligon.Store.Devices.{device, device_lem}

abbrev pub is_free : DeviceStatus → Bool
is_free free = true
is_free _ = false

-- The device is known, adopted and free.
abbrev pub is_available : Text → Db → Bool
is_available i db = elim (device i db) [ err _ ↦ false | ok d ↦ d.adopted && is_free d.status ]

abbrev pub has_user : Text → Db → Bool
has_user user db = any (λ u. u.name == user) db.users

abbrev pub has_device : Text → Db → Bool
has_device i db = any (λ d. d.id == i) db.devices

abbrev pub has_no_repeat : List Text → Bool
has_no_repeat [] = true
has_no_repeat (i ∷ is) = not (mem i is) && has_no_repeat is

pub succeeds-check : (i : Text) (db : Db) → succeeds (check_available i db) ≡ is_available i db
unfolding check_available
succeeds-check i db = ground arith

find_first-any :
    (i : Text) (ds : List Device)
    → any (λ d. d.id == i) ds ≡ false
    → find_first (λ d. d.id == i) ds ≡ none
find_first-any i ds = find_first-none-any (λ d. d.id == i) ds

pub has_device-available : (i : Text) (db : Db) → is_available i db ≡ true → has_device i db ≡ true
has_device-available i db h = ground (arith, device_lem i db, find_first-any i db.devices)

pub succeeds-book :
    (now exp : ℕ) (batch i user : Text) (db : Db)
    → succeeds (book now exp batch i user db)
      ≡ (has_device i db && has_user user db && not (is_held i db))
unfolding book
succeeds-book now exp batch i user db = ground (arith, succeeds-insert i user batch now exp db)

-- A successful booking: the returned row is written at the end of the table, the device gets its
-- status, and no other column, row or table changes. What this means for the holders is told too.
pub record Booked (now exp : ℕ) (batch i user : Text) (db : Db) (r : Reservation) (db' : Db)
    : Type 0 where
  pub row : r ≡ new_row r.id i user batch now exp
  pub holders : (j : Text) → holder j db' ≡ (if j == i then some r else holder j db)
  pub devices : db'.devices ≡ (update_status i reserved db).devices
  pub users : db'.users ≡ db.users
  pub number : r.id ≡ db.next_reservation
  pub written : db' ≡ record db {
    reservations = db.reservations ++ r ∷ [];
    next_reservation = db.next_reservation + 1;
    devices = map (λ d. if d.id == i then record d { status = reserved } else d) db.devices;
  }

insert_frame :
    (i user batch : Text) (now exp : ℕ) (db : Db) {rid : ℕ} {db' : Db}
    → insert_reservation i user batch now exp db ≡ ok (rid, db')
    → (db'.devices ≡ db.devices) × (db'.users ≡ db.users)
unfolding insert_reservation
insert_frame i user batch now exp db e = ground arith

insert_written :
    (i user batch : Text) (now exp : ℕ) (db : Db) {rid : ℕ} {db' : Db}
    → insert_reservation i user batch now exp db ≡ ok (rid, db')
    → (rid ≡ db.next_reservation)
      × (db' ≡ record db {
        reservations = db.reservations ++ new_row rid i user batch now exp ∷ [];
        next_reservation = db.next_reservation + 1;
      })
unfolding insert_reservation
insert_written i user batch now exp db e = ground arith

pub book-Booked :
    (now exp : ℕ) (batch i user : Text) (db : Db) {r : Reservation} {db' : Db}
    → book now exp batch i user db ≡ ok (r, db')
    → Booked now exp batch i user db r db'
unfolding book holder
book-Booked now exp batch i user db {r} {db'} e =
    elim (Result-cases (insert_reservation i user batch now exp db)) [
      | inl ((rid, db1), ins) ↦ record {
        row = ground arith;
        holders = λ j. ground (arith, holder-insert i user batch now exp db j ins);
        devices = ground (arith, insert_frame i user batch now exp db ins);
        users = ground (arith, insert_frame i user batch now exp db ins);
        number = ground (arith, insert_written i user batch now exp db ins);
        written = ground (
          arith,
          insert_written i user batch now exp db ins,
          update_where-map (λ d. d.id == i) (λ d. record d { status = reserved }) db.devices,
        );
      }
      | inr (x, ins) ↦ absurd (ground arith)
    ]

-- Reserve succeeds exactly when the device is known, adopted and free, the user has an account,
-- and nobody holds an active reservation of the device.
pub succeeds-reserve :
    (m : Manager) (now : ℕ) (batch i user : Text) (db : Db)
    → succeeds (reserve m now batch i user db).1
      ≡ (is_available i db && has_user user db && not (is_held i db))
unfolding reserve
succeeds-reserve m now batch i user db = ground (
  arith,
  succeeds-check i db,
  succeeds-book now (now + m.max_lease) batch i user db,
  has_device-available i db,
)

abbrev pub BookingOutcome : ℕ → ℕ → Text → Text → Text → Db → Db × Result Reservation → Type 0
BookingOutcome now exp batch i user db (db', ok r) = Booked now exp batch i user db r db'
BookingOutcome now exp batch i user db (db', err e) = db' ≡ db

book-outcome :
    (now exp : ℕ) (batch i user : Text) (db : Db)
    → BookingOutcome now exp batch i user db (transaction (book now exp batch i user) db)
book-outcome now exp batch i user db =
    transaction_rule (BookingOutcome now exp batch i user db) (book now exp batch i user) db
      (λ r db' b. book-Booked now exp batch i user db b) (λ e. refl)

-- A successful Reserve makes the returned reservation, with the hard cap of the configuration, the
-- active one of that device and leaves the holder of each other device; it sets the status of that
-- device to reserved. A refused Reserve leaves the database as it was.
pub reserve-outcome :
    (m : Manager) (now : ℕ) (batch i user : Text) (db : Db)
    → BookingOutcome now (now + m.max_lease) batch i user db (reserve m now batch i user db)
unfolding reserve
reserve-outcome m now batch i user db = elim (Result-cases (check_available i db)) [
  | inl (u, c) ↦ rw (reserve, c) (book-outcome now (now + m.max_lease) batch i user db)
  | inr (x, c) ↦ rw (reserve, c)
]
