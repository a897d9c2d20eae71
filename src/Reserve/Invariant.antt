-- ===== src/Reserve/Invariant.antt =====
-- Every call of the manager keeps the unique index, whatever the calls of the device pool do in
-- between.
use poligon.Base.{
  ==-refl, ==-sym, ==_eq, Bool, List, Text, [], arith, false, if◌then◌else◌, inl, inr,
  length-select-any, true, update_where, ℕ, ◌+◌, ◌==◌, ◌∷◌, ◌≡◌,
}
use poligon.Model.{Device, DeviceStatus, Reservation, Specs}
use poligon.Reserve.{
  Manager, active_on, any_batch_rows, batch_devices, book, book_all, check_all, check_available,
  heartbeat, heartbeat_batch, held_by, in_batch, insert_reservation, reap_expired, reap_rows,
  release, release_all, release_batch, renew_at, reserve, reserve_many, stale_rows, update_some,
}
use poligon.Reserve.Ending.{release-IsUnique, release_all-IsUnique}
use poligon.Reserve.Rows.{IsUnique, active_count, insert-IsUnique, update-IsUnique}
use poligon.Store.{Db, Error, Result, Result-cases, err, ok, transaction, transaction_rule}
use poligon.Store.Devices.{
  create_auto_device, delete_device, rename_device, set_adopted, set_device_specs,
  set_device_status, upsert_device_inventory,
}

pub data Call : Type 0 where
  reserves : Text → Text → Text → Call
  reserves_many : Text → List Text → Text → Call
  heartbeats : Text → Text → Call
  heartbeats_batch : Text → Text → Call
  releases : Text → Text → Bool → Call
  releases_batch : Text → Text → Bool → Call
  reaps : Call
  upserts : Device → Call
  creates : Device → Call
  sets_status : Text → DeviceStatus → Call
  sets_specs : Text → Specs → Call
  sets_adopted : Text → Bool → Call
  deletes : Text → Call
  renames : Text → Text → Call

-- A statement that may fail.
abbrev kept_on_error : Db → Result Db → Db
kept_on_error db (ok db') = db'
kept_on_error db (err e) = db

-- One call at a time of the clock: the store has a single connection.
pub step : Manager → ℕ × Call → Db → Db
step m (now, reserves batch i user) db = (reserve m now batch i user db).0
step m (now, reserves_many batch is user) db = (reserve_many m now batch is user db).0
step m (now, heartbeats i user) db = (heartbeat now i user db).0
step m (now, heartbeats_batch batch user) db = (heartbeat_batch now batch user db).0
step m (now, releases i user admin) db = (release i user admin db).0
step m (now, releases_batch batch user admin) db = (release_batch batch user admin db).0
step m (now, reaps) db = (reap_expired m now db).0
step m (now, upserts d) db = upsert_device_inventory d db
step m (now, creates d) db = create_auto_device d db
step m (now, sets_status i st) db = set_device_status i st now db
step m (now, sets_specs i sp) db = set_device_specs i sp db
step m (now, sets_adopted i v) db = set_adopted i v db
step m (now, deletes i) db = kept_on_error db (delete_device i db)
step m (now, renames old new) db = kept_on_error db (rename_device old new db)

pub run_calls : Manager → List (ℕ × Call) → Db → Db
run_calls m [] db = db
run_calls m (c ∷ cs) db = run_calls m cs (step m c db)

book-IsUnique :
    (now exp : ℕ) (batch i user : Text) (db : Db) {r : Reservation} {db' : Db}
    → book now exp batch i user db ≡ ok (r, db')
    → IsUnique db
    → IsUnique db'
unfolding book
book-IsUnique now exp batch i user db {r} {db'} e u j =
    elim (Result-cases (insert_reservation i user batch now exp db)) [
      | inl ((rid, db1), ins) ↦ ground (arith, insert-IsUnique i user batch now exp db ins u j)
      | inr (x, ins) ↦ absurd (ground arith)
    ]

reserve-IsUnique :
    (m : Manager) (now : ℕ) (batch i user : Text) (db : Db)
    → IsUnique db
    → IsUnique (reserve m now batch i user db).0
unfolding reserve
reserve-IsUnique m now batch i user db u = elim (Result-cases (check_available i db)) [
  | inl (t, c) ↦
      rw (reserve, c)
        (transaction_rule (λ s. IsUnique s.0) (book now (now + m.max_lease) batch i user) db
          (λ r db' b. book-IsUnique now (now + m.max_lease) batch i user db b u) (λ e. u))
  | inr (x, c) ↦ rw (reserve, c) u
]

book_all-IsUnique :
    (now exp : ℕ) (batch user : Text) (is : List Text) (db : Db) {rs : List Reservation} {db' : Db}
    → book_all now exp batch user is db ≡ ok (rs, db')
    → IsUnique db
    → IsUnique db'
unfolding book_all
book_all-IsUnique now exp batch user [] db e u j = ground (arith, u j)
book_all-IsUnique now exp batch user (i ∷ is) db e u j =
    elim (Result-cases (book now exp batch i user db)) [
      | inl ((r1, db1), b) ↦ elim (Result-cases (book_all now exp batch user is db1)) [
        | inl ((rs2, db2), c) ↦
            let u1 = book-IsUnique now exp batch i user db b u in
            ground (arith, book_all-IsUnique now exp batch user is db1 c u1 j)
        | inr (x, c) ↦ absurd (ground arith)
      ]
      | inr (x, b) ↦ absurd (ground arith)
    ]

reserve_many-IsUnique :
    (m : Manager) (now : ℕ) (batch : Text) (is : List Text) (user : Text) (db : Db)
    → IsUnique db
    → IsUnique (reserve_many m now batch is user db).0
unfolding reserve_many
reserve_many-IsUnique m now batch [] user db u = u
reserve_many-IsUnique m now batch (i ∷ is) user db u = elim (Result-cases (check_all (i ∷ is) db)) [
  | inl (t, c) ↦
      rw (reserve_many, c)
        (transaction_rule (λ s. IsUnique s.0) (book_all now (now + m.max_lease) batch user (i ∷ is))
          db (λ r db' b. book_all-IsUnique now (now + m.max_lease) batch user (i ∷ is) db b u)
          (λ e. u))
  | inr (x, c) ↦ rw (reserve_many, c) u
]

renewal-IsUnique :
    (p : Reservation → Bool) (now : ℕ) (db : Db)
    → IsUnique db
    → IsUnique (transaction (update_some p (renew_at now)) db).0
renewal-IsUnique p now db u =
    transaction_rule (λ s. IsUnique s.0) (update_some p (renew_at now)) db
      (λ t db' e. update-IsUnique p (renew_at now) db (λ i r h. h) e u) (λ e. u)

pub heartbeat-IsUnique :
    (now : ℕ) (i user : Text) (db : Db) → IsUnique db → IsUnique (heartbeat now i user db).0
unfolding heartbeat
heartbeat-IsUnique now i user db u = renewal-IsUnique (held_by i user) now db u

reap_rows-IsUnique : (rs : List Reservation) (db : Db) → IsUnique db → IsUnique (reap_rows rs db).0
unfolding reap_rows
reap_rows-IsUnique [] db u = u
reap_rows-IsUnique (r ∷ rs) db u =
    reap_rows-IsUnique rs (release r.device_id r.user true db).0
      (release-IsUnique r.device_id r.user true db u)

release_batch-IsUnique :
    (batch user : Text) (admin : Bool) (db : Db)
    → IsUnique db
    → IsUnique (release_batch batch user admin db).0
unfolding release_batch
release_batch-IsUnique batch user admin db u = elim (Result-cases (batch_devices batch user db)) [
  | inl (is, c) ↦ rw (release_batch, c) (release_all-IsUnique is user admin db u)
  | inr (x, c) ↦ rw (release_batch, c) (by_admin admin x)
]
  where
    by_admin :
        (a : Bool) (x : Error)
        → IsUnique
            (if◌then◌else◌ {A = Db × Result (Unit {0})} a
              (release_all (any_batch_rows batch db) user a db, ok tt)
              (db, err x)).0
    by_admin true x = release_all-IsUnique (any_batch_rows batch db) user true db u
    by_admin false x = u

-- The active rows of a device, after those of `old` were moved to `new`.
active_count-moved :
    (old new i : Text) (rows : List Reservation)
    → active_count i
        (update_where (λ r. r.device_id == old) (λ r. record r { device_id = new }) rows)
      ≡ (if i == new
          then active_count new rows + (if old == new then 0 else active_count old rows)
          else if i == old
          then 0
          else active_count i rows)
active_count-moved old new i [] = ground arith
active_count-moved old new i (r ∷ rows) = ground (
  arith,
  active_count-moved old new i rows,
  ==_eq r.device_id old,
  ==_eq i old,
  ==_eq i new,
  ==_eq old new,
  ==-refl i,
  ==-refl new,
  ==-sym new i,
)

rename-IsUnique :
    (old new : Text) (db : Db)
    → IsUnique db
    → IsUnique (kept_on_error db (rename_device old new db))
unfolding rename_device
rename-IsUnique old new db u j = ground (
  arith,
  u j,
  u new,
  u old,
  active_count-moved old new j db.reservations,
  length-select-any (active_on old) db.reservations,
  length-select-any (active_on new) db.reservations,
)

-- At most one active reservation for each device, after any call.
pub step-IsUnique : (m : Manager) (c : ℕ × Call) (db : Db) → IsUnique db → IsUnique (step m c db)
unfolding step
step-IsUnique m (now, reserves batch i user) db u j = reserve-IsUnique m now batch i user db u j
step-IsUnique m (now, reserves_many batch is user) db u j =
    reserve_many-IsUnique m now batch is user db u j
step-IsUnique m (now, heartbeats i user) db u j = heartbeat-IsUnique now i user db u j
step-IsUnique m (now, heartbeats_batch batch user) db u j =
    unfold heartbeat_batch in renewal-IsUnique (in_batch batch user) now db u j
step-IsUnique m (now, releases i user admin) db u j = release-IsUnique i user admin db u j
step-IsUnique m (now, releases_batch batch user admin) db u j =
    release_batch-IsUnique batch user admin db u j
step-IsUnique m (now, reaps) db u j =
    unfold reap_expired in reap_rows-IsUnique (stale_rows m now db) db u j
step-IsUnique m (now, upserts d) db u j = unfold upsert_device_inventory in ground (arith, u j)
step-IsUnique m (now, creates d) db u j = unfold create_auto_device in ground (arith, u j)
step-IsUnique m (now, sets_status i st) db u j = unfold set_device_status in u j
step-IsUnique m (now, sets_specs i sp) db u j = unfold set_device_specs in u j
step-IsUnique m (now, sets_adopted i v) db u j = unfold set_adopted in u j
step-IsUnique m (now, deletes i) db u j = unfold delete_device in ground (arith, u j)
step-IsUnique m (now, renames old new) db u j = rename-IsUnique old new db u j

-- Whatever calls of the manager and statements on the devices reach the store, renames among them,
-- in whatever order and at whatever times: no device has two active reservations afterwards if none
-- had before.
pub run_calls-IsUnique :
    (m : Manager) (cs : List (ℕ × Call)) (db : Db) → IsUnique db → IsUnique (run_calls m cs db)
unfolding run_calls
run_calls-IsUnique m [] db u = u
run_calls-IsUnique m (c ∷ cs) db u = run_calls-IsUnique m cs (step m c db) (step-IsUnique m c db u)
