-- ===== src/Reserve/Ending.antt =====
-- Release and the loops that use it, and how a query for leases reads under the unique index.
use poligon.Base.{
  ==_eq, Bool, Bool-cases, List, Text, [], any, any-map, any-order_by, arith, false, find_first,
  if◌then◌else◌, inl, inr, is_empty, length-select-update_le, map, mem, none, not, refl, select,
  some, text_leb, true, update_where, ◌&&◌, ◌==◌, ◌||◌, ◌∙◌, ◌∷◌, ◌≡◌, ◌≤◌,
}
use poligon.Model.{Device, Reservation, busy, free, reserved, running_test}
use poligon.Reserve.{
  active_on, batch_devices, batch_rows, end_lease, holder, in_batch, in_use, releasable, release,
  release_all, release_batch,
}
use poligon.Reserve.Rows.{IsUnique, active_count, holder-release_other, no_lease}
use poligon.Store.{Db, succeeds}

-- Whether Release accepts the call: the device is held, by the caller unless he is an admin.
abbrev pub may_release : Text → Text → Bool → Db → Bool
may_release i user admin db = elim (holder i db) [ none ↦ false | some r ↦ admin || r.user == user ]

abbrev pub freed : Device → Device
freed d = elim d.status [
  | reserved ↦ record d { status = free }
  | busy ↦ record d { status = free }
  | running_test ↦ record d { status = free }
  | _ ↦ d
]

abbrev pub freed_if : Text → Device → Device
freed_if i d = if d.id == i then freed d else d

-- The database after the lease of a device: its active row is ended and its status is free again.
abbrev pub ended_on : Text → Db → Db
ended_on i db = record db {
  reservations =
      map (λ r. if r.device_id == i && not r.released then record r { released = true } else r)
        db.reservations;
  devices = map (freed_if i) db.devices;
}

-- A query that returns active rows only, read at one device: it returns the lease of the device
-- exactly when its test accepts that lease.
pub any_device-select :
    (q : Reservation → Bool) (i : Text) (rows : List Reservation)
    → ((r : Reservation) → q r ≡ true → r.released ≡ false)
    → active_count i rows ≤ 1
    → any (λ r. r.device_id == i) (select q rows)
      ≡ (elim (find_first (active_on i) rows) [ none ↦ false | some r ↦ q r ])
any_device-select q i [] h u = refl
any_device-select q i (r ∷ rows) h u =
    ground (arith, h r, any_device-select q i rows h, no_lease i rows)

any-releasable :
    (i user : Text) (admin : Bool) (rows : List Reservation)
    → active_count i rows ≤ 1
    → any (releasable i user admin) rows
      ≡ (elim (find_first (active_on i) rows) [ none ↦ false | some r ↦ admin || r.user == user ])
any-releasable i user admin [] u = refl
any-releasable i user admin (r ∷ rows) u =
    ground (arith, any-releasable i user admin rows, no_lease i rows)

find_first-end :
    (i user : Text) (admin : Bool) (rows : List Reservation)
    → active_count i rows ≤ 1
    → find_first (active_on i) (update_where (releasable i user admin) end_lease rows)
      ≡ (elim (find_first (active_on i) rows) [
        | none ↦ none
        | some r ↦ if admin || r.user == user then none else some r
      ])
find_first-end i user admin [] u = refl
find_first-end i user admin (r ∷ rows) u =
    ground (arith, find_first-end i user admin rows, no_lease i rows)

none_ended :
    (i user : Text) (admin : Bool) (rows : List Reservation)
    → active_count i rows ≤ 0
    → (any (releasable i user admin) rows ≡ false)
      × (update_where (releasable i user admin) end_lease rows
          ≡ map (λ r. if active_on i r then end_lease r else r) rows)
none_ended i user admin [] u = (refl, refl)
none_ended i user admin (r ∷ rows) u = ground (arith, none_ended i user admin rows)

-- Under the unique index the rows that an accepted Release ends are all the active ones of the device.
releasable_all :
    (i user : Text) (admin : Bool) (rows : List Reservation)
    → active_count i rows ≤ 1
    → any (releasable i user admin) rows ≡ true
    → update_where (releasable i user admin) end_lease rows
      ≡ map (λ r. if active_on i r then end_lease r else r) rows
releasable_all i user admin [] u h = refl
releasable_all i user admin (r ∷ rows) u h =
    ground (arith, releasable_all i user admin rows, none_ended i user admin rows)

freed_rows :
    (i : Text) (ds : List Device)
    → update_where (λ d. d.id == i && in_use d.status) (λ d. record d { status = free }) ds
      ≡ map (freed_if i) ds
freed_rows i [] = refl
freed_rows i (d ∷ ds) = ground (arith, freed_rows i ds)

-- In a database where no device has two active reservations, Release is accepted exactly for a
-- device that is held, by the caller or on behalf of an admin. It then ends the active lease of the
-- device and sets its status to free if it is reserved, busy or running_test; no other column, row
-- or table changes. A refused Release changes nothing. So the holder of the device is gone, and the
-- leases of other devices stay.
pub release-effect :
    (i user : Text) (admin : Bool) (db : Db)
    → IsUnique db
    → (succeeds (release i user admin db).1 ≡ may_release i user admin db)
      × ((j : Text)
          → holder j (release i user admin db).0
            ≡ (if j == i && may_release i user admin db then none else holder j db))
      × ((release i user admin db).0 ≡ (if may_release i user admin db then ended_on i db else db))
unfolding release holder
release-effect i user admin db u = (
  ground (arith, any-releasable i user admin db.reservations (u i)),
  λ j. elim (Bool-cases (j == i)) [
    | inl same ↦
        let e : j ≡ i = ==_eq j i same in
        ground (
          arith,
          any-releasable i user admin db.reservations (u i),
          find_first-end i user admin db.reservations (u i),
        )
    | inr apart ↦ ground (
      arith,
      holder-release_other j i user admin db apart,
      any-releasable i user admin db.reservations (u i),
    )
  ],
  ground (
    arith,
    any-releasable i user admin db.reservations (u i),
    releasable_all i user admin db.reservations (u i),
    freed_rows i db.devices,
  ),
)

pub release-IsUnique :
    (i user : Text) (admin : Bool) (db : Db) → IsUnique db → IsUnique (release i user admin db).0
unfolding release
release-IsUnique i user admin db u j = ground (
  arith,
  u j,
  length-select-update_le (active_on j) (releasable i user admin) end_lease db.reservations
      (λ r h. ground arith),
)

pub release_all-IsUnique :
    (is : List Text) (user : Text) (admin : Bool) (db : Db)
    → IsUnique db
    → IsUnique (release_all is user admin db)
unfolding release_all
release_all-IsUnique [] user admin db u = u
release_all-IsUnique (i ∷ is) user admin db u =
    release_all-IsUnique is user admin (release i user admin db).0
      (release-IsUnique i user admin db u)

pub holder-release_all :
    (is : List Text) (user : Text) (admin : Bool) (db : Db)
    → IsUnique db
    → (j : Text)
    → holder j (release_all is user admin db)
      ≡ (if mem j is && may_release j user admin db then none else holder j db)
unfolding release_all
holder-release_all [] user admin db u j = refl
holder-release_all (i ∷ is) user admin db u j =
    let E = release-effect i user admin db u in
    let rest =
      holder-release_all is user admin (release i user admin db).0
        (release-IsUnique i user admin db u) j in
    ground (arith, E.1 j, rest)

-- A batch names a device exactly when its lease is in the batch.
mem-batch_rows :
    (batch user : Text) (db : Db) (j : Text)
    → IsUnique db
    → mem j (batch_rows batch user db)
      ≡ (elim (holder j db) [ none ↦ false | some r ↦ in_batch batch user r ])
unfolding holder
mem-batch_rows batch user db j u =
    let rows = select (in_batch batch user) db.reservations in
    any-order_by text_leb (λ i. i == j) (map (λ r. r.device_id) rows)
    ∙ any-map (λ i. i == j) (λ r. r.device_id) rows
    ∙ any_device-select (in_batch batch user) j db.reservations (λ r h. ground arith) (u j)

-- In a database where no device has two active reservations, ReleaseBatch by a user who is not an
-- admin ends exactly the leases of the batch that are his, or all of his for
-- the batch "mine", and fails if there are none; every other lease stays.
pub release_batch-effect :
    (batch user : Text) (db : Db)
    → IsUnique db
    → (succeeds (release_batch batch user false db).1 ≡ not (is_empty (batch_rows batch user db)))
      × ((j : Text)
          → holder j (release_batch batch user false db).0 ≡ (elim (holder j db) [
            | none ↦ none
            | some r ↦ if in_batch batch user r then none else some r
          ]))
unfolding release_batch batch_devices
release_batch-effect batch user db u = (
  ground arith,
  λ j. ground (
    arith,
    mem-batch_rows batch user db j u,
    holder-release_all (batch_rows batch user db) user false db u j,
  ),
)
