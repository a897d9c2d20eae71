-- ===== src/Reserve/Many.antt =====
-- ReserveMany: the whole list or nothing.
use poligon.Base.{
  All, Bool-cases, List, Text, [], all, any, ap, arith, false, if◌then◌else◌, inl, inr, is_empty,
  map, mem, not, refl, some, sym, true, update_where, ℕ, ◌&&◌, ◌+◌, ◌==◌, ◌∙◌, ◌∷◌, ◌≡◌,
}
use poligon.Model.{Device, Reservation, reserved}
use poligon.Reserve.{
  Manager, book, book_all, check_all, holder, is_held, new_row, reserve_many, update_status,
}
use poligon.Reserve.Booking.{
  book-Booked, has_device, has_device-available, has_no_repeat, has_user, is_available,
  succeeds-book, succeeds-check,
}
use poligon.Store.{Db, Result, Result-cases, err, ok, succeeds, transaction, transaction_rule}

pub succeeds-check_all :
    (is : List Text) (db : Db) → succeeds (check_all is db) ≡ all (λ i. is_available i db) is
unfolding check_all
succeeds-check_all [] db = refl
succeeds-check_all (i ∷ is) db = ground (arith, succeeds-check i db, succeeds-check_all is db)

-- What one booking does to the conditions of the later ones.
all_unheld-after :
    (i : Text) (r : Reservation) (db db' : Db)
    → ((j : Text) → holder j db' ≡ (if j == i then some r else holder j db))
    → (is : List Text)
    → all (λ j. not (is_held j db')) is ≡ (all (λ j. not (is_held j db)) is && not (mem i is))
unfolding is_held
all_unheld-after i r db db' h [] = refl
all_unheld-after i r db db' h (j ∷ is) = ground (arith, h j, all_unheld-after i r db db' h is)

has_device-update :
    (i j : Text) (ds : List Device)
    → any (λ d. d.id == j) (update_where (λ d. d.id == i) (λ d. record d { status = reserved }) ds)
      ≡ any (λ d. d.id == j) ds
has_device-update i j [] = refl
has_device-update i j (d ∷ ds) = ground (arith, has_device-update i j ds)

all_known-after :
    (i : Text) (db db' : Db)
    → db'.devices ≡ (update_status i reserved db).devices
    → (is : List Text) → all (λ j. has_device j db') is ≡ all (λ j. has_device j db) is
all_known-after i db db' e [] = refl
all_known-after i db db' e (j ∷ is) = ground (
  arith,
  ap (any (λ d. d.id == j)) e ∙ has_device-update i j db.devices,
  all_known-after i db db' e is,
)

pub succeeds-book_all :
    (now exp : ℕ) (batch user : Text) (is : List Text) (db : Db)
    → has_user user db ≡ true
    → succeeds (book_all now exp batch user is db)
      ≡ (all (λ j. has_device j db) is && all (λ j. not (is_held j db)) is && has_no_repeat is)
unfolding book_all
succeeds-book_all now exp batch user [] db u = refl
succeeds-book_all now exp batch user (i ∷ is) db u =
    elim (Result-cases (book now exp batch i user db)) [
      | inl ((r, db'), b) ↦
          let B = book-Booked now exp batch i user db b in
          let rest =
            succeeds-book_all now exp batch user is db'
              (ap (any (λ w. w.name == user)) B.users ∙ u) in
          ground (
            arith,
            succeeds-book now exp batch i user db,
            rest,
            all_unheld-after i r db db' B.holders is,
            all_known-after i db db' B.devices is,
          )
      | inr (x, b) ↦ ground (arith, succeeds-book now exp batch i user db)
    ]

all_available-known :
    (is : List Text) (db : Db)
    → all (λ i. is_available i db) is ≡ true
    → all (λ i. has_device i db) is ≡ true
all_available-known [] db h = refl
all_available-known (i ∷ is) db h =
    ground (arith, has_device-available i db, all_available-known is db)

book_all_without_user :
    (now exp : ℕ) (batch i : Text) (is : List Text) (user : Text) (db : Db)
    → has_user user db ≡ false
    → succeeds (book_all now exp batch user (i ∷ is) db) ≡ false
unfolding book_all
book_all_without_user now exp batch i is user db u =
    ground (arith, succeeds-book now exp batch i user db)

-- ReserveMany succeeds exactly when the list is not empty and repeats no device, each device is
-- known, adopted and free, nobody holds any of them, and the user has an account.
pub succeeds-reserve_many :
    (m : Manager) (now : ℕ) (batch : Text) (is : List Text) (user : Text) (db : Db)
    → succeeds (reserve_many m now batch is user db).1 ≡ (
        not (is_empty is)
        && has_user user db
        && all (λ i. is_available i db) is
        && all (λ i. not (is_held i db)) is
        && has_no_repeat is)
unfolding reserve_many
succeeds-reserve_many m now batch [] user db = refl
succeeds-reserve_many m now batch (i ∷ is) user db = elim (Bool-cases (has_user user db)) [
  | inl u ↦ ground (
    arith,
    succeeds-check_all (i ∷ is) db,
    succeeds-book_all now (now + m.max_lease) batch user (i ∷ is) db u,
    all_available-known (i ∷ is) db,
  )
  | inr u ↦ ground (arith, book_all_without_user now (now + m.max_lease) batch i is user db u)
]

-- A lease survives the bookings of other devices, and no booking takes its device.
holder-book_all :
    (now exp : ℕ) (batch user : Text) (is : List Text) (db : Db) {rs : List Reservation} {db' : Db}
    → book_all now exp batch user is db ≡ ok (rs, db')
    → (i : Text) (r : Reservation) → holder i db ≡ some r
    → holder i db' ≡ some r
unfolding book_all is_held
holder-book_all now exp batch user [] db e i r h = ground arith
holder-book_all now exp batch user (j ∷ is) db {rs} {db'} e i r h =
    elim (Result-cases (book now exp batch j user db)) [
      | inl ((r1, db1), b) ↦ elim (Result-cases (book_all now exp batch user is db1)) [
        | inl ((rs2, db2), c) ↦
            let B = book-Booked now exp batch j user db b in
            ground (
              arith,
              B.holders i,
              succeeds-book now exp batch j user db,
              holder-book_all now exp batch user is db1 c i r,
            )
        | inr (x, c) ↦ absurd (ground arith)
      ]
      | inr (x, b) ↦ absurd (ground arith)
    ]

-- The rows returned are the new leases, one for each device of the list, and no other lease changes.
pub record BookedAll (now exp : ℕ) (batch : Text) (is : List Text) (user : Text) (db : Db)
    (rs : List Reservation) (db' : Db) : Type 0 where
  pub listed : map (λ r. r.device_id) rs ≡ is
  pub leased :
      All
        (λ r. (r ≡ new_row r.id r.device_id user batch now exp) × (holder r.device_id db' ≡ some r))
        rs
  pub others : (j : Text) → mem j is ≡ false → holder j db' ≡ holder j db

book_all-BookedAll :
    (now exp : ℕ) (batch user : Text) (is : List Text) (db : Db) {rs : List Reservation} {db' : Db}
    → book_all now exp batch user is db ≡ ok (rs, db')
    → BookedAll now exp batch is user db rs db'
unfolding book_all
book_all-BookedAll now exp batch user [] db {rs} {db'} e =
    let p : rs ≡ [] = ground arith in
    record { listed = rw p; leased = rw p tt; others = λ j h. ground arith }
book_all-BookedAll now exp batch user (i ∷ is) db {rs} {db'} e =
    elim (Result-cases (book now exp batch i user db)) [
      | inl ((r1, db1), b) ↦ elim (Result-cases (book_all now exp batch user is db1)) [
        | inl ((rs2, db2), c) ↦
            let B = book-Booked now exp batch i user db b in
            let R = book_all-BookedAll now exp batch user is db1 c in
            let kept = holder-book_all now exp batch user is db1 c i r1 in
            let p : rs ≡ r1 ∷ rs2 = ground arith in
            let q : db' ≡ db2 = ground arith in
            let d : r1.device_id ≡ i = ap (λ (r : Reservation). r.device_id) B.row in
            rw (p, q)
              (record {
                listed = ground (arith, R.listed);
                leased = (
                  (
                    B.row ∙ ap (λ j. new_row r1.id j user batch now exp) (sym d),
                    ap (λ j. holder j db2) d ∙ kept (ground (arith, B.holders i)),
                  ),
                  R.leased,
                );
                others = λ j h. ground (arith, B.holders j, R.others j);
              })
        | inr (x, c) ↦ absurd (ground arith)
      ]
      | inr (x, b) ↦ absurd (ground arith)
    ]

abbrev pub ManyOutcome :
    ℕ → ℕ → Text → List Text → Text → Db → Db × Result (List Reservation) → Type 0
ManyOutcome now exp batch is user db (db', ok rs) = BookedAll now exp batch is user db rs db'
ManyOutcome now exp batch is user db (db', err e) = db' ≡ db

book_all-outcome :
    (now exp : ℕ) (batch user : Text) (is : List Text) (db : Db)
    → ManyOutcome now exp batch is user db (transaction (book_all now exp batch user is) db)
book_all-outcome now exp batch user is db =
    transaction_rule (ManyOutcome now exp batch is user db) (book_all now exp batch user is) db
      (λ rs db' b. book_all-BookedAll now exp batch user is db b) (λ e. refl)

-- A successful ReserveMany returns one row for each device of the list, in its order, each row the
-- active lease of its device with the shared batch and the hard cap of the configuration, and no
-- other lease changes. A refused ReserveMany leaves the database as it was.
pub reserve_many-outcome :
    (m : Manager) (now : ℕ) (batch : Text) (is : List Text) (user : Text) (db : Db)
    → ManyOutcome now (now + m.max_lease) batch is user db (reserve_many m now batch is user db)
unfolding reserve_many
reserve_many-outcome m now batch [] user db = refl
reserve_many-outcome m now batch (i ∷ is) user db = elim (Result-cases (check_all (i ∷ is) db)) [
  | inl (u, c) ↦
      rw (reserve_many, c) (book_all-outcome now (now + m.max_lease) batch user (i ∷ is) db)
  | inr (x, c) ↦ rw (reserve_many, c)
]
