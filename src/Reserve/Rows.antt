-- ===== src/Reserve/Rows.antt =====
-- What each operation does to the reservation rows of one device, and to the active holders.
use poligon.Base.{
  Bool, List, Text, [], any, any-find_first-none, arith, false, find_first, find_first-append_none,
  find_first-append_reject, find_first-none-any, find_first-update_none, find_first-update_same,
  if◌then◌else◌, length, length-append, length-select-any, length-select-update_le, none, not, refl,
  select, select-append, some, true, ℕ, ◌&&◌, ◌++◌, ◌+◌, ◌==◌, ◌∷◌, ◌≡◌, ◌≤◌,
}
use poligon.Model.{Reservation}
use poligon.Reserve.{
  active_on, end_lease, holder, insert_reservation, is_held, new_row, releasable, release,
  update_some,
}
use poligon.Store.{Db, ok, succeeds}

-- The number of active rows of a device.
abbrev pub active_count : Text → List Reservation → ℕ
active_count i rows = length (select (active_on i) rows)

-- The unique index: at most one active row for each device.
abbrev pub IsUnique : Db → Type 0
IsUnique db = (i : Text) → active_count i db.reservations ≤ 1

pub active_count-insert :
    (i : Text) (r : Reservation) (rows : List Reservation)
    → active_count i (rows ++ r ∷ []) ≡ active_count i rows + (if active_on i r then 1 else 0)
active_count-insert i r rows =
    rw (select-append (active_on i) rows (r ∷ []))
      (ground (arith, length-append (select (active_on i) rows) (select (active_on i) (r ∷ []))))

module _ (j user batch : Text) (now exp : ℕ) (db : Db) where
  new : Reservation
  new = new_row db.next_reservation j user batch now exp

  pub insert-IsUnique :
      {rid : ℕ} {db' : Db}
      → insert_reservation j user batch now exp db ≡ ok (rid, db')
      → IsUnique db
      → IsUnique db'
  unfolding insert_reservation new
  insert-IsUnique e u i = ground (
    arith,
    u i,
    length-select-any (active_on j) db.reservations,
    active_count-insert i new db.reservations,
  )

  -- A booking adds one active row of a device that had none, and touches no other row.
  pub holder-insert :
      {rid : ℕ} {db' : Db} (i : Text)
      → insert_reservation j user batch now exp db ≡ ok (rid, db')
      → holder i db' ≡ (if i == j then some (new_row rid j user batch now exp) else holder i db)
  unfolding insert_reservation holder new
  holder-insert i e = ground (
    arith,
    find_first-append_none (active_on i) db.reservations (new ∷ []),
    find_first-append_reject (active_on i) db.reservations new,
    find_first-none-any (active_on j) db.reservations,
  )

  -- What a booking needs, and that it needs no more.
  pub succeeds-insert : succeeds (insert_reservation j user batch now exp db) ≡ (
      any (λ d. d.id == j) db.devices && any (λ u. u.name == user) db.users && not (is_held j db))
  unfolding insert_reservation is_held holder
  succeeds-insert = ground (
    arith,
    find_first-none-any (active_on j) db.reservations,
    any-find_first-none (active_on j) db.reservations,
  )

-- Renewals and releases make no row active.
pub update-IsUnique :
    (p : Reservation → Bool) (f : Reservation → Reservation) (db : Db) {db' : Db}
    → ((i : Text) (r : Reservation) → active_on i (f r) ≡ true → active_on i r ≡ true)
    → update_some p f db ≡ ok (tt, db')
    → IsUnique db
    → IsUnique db'
update-IsUnique p f db h e u i =
    ground (arith, u i, length-select-update_le (active_on i) p f db.reservations (h i))

-- A release ends the leases of one device, and touches no other device.
pub holder-release_other :
    (i j user : Text) (admin : Bool) (db : Db)
    → (i == j) ≡ false
    → holder i (release j user admin db).0 ≡ holder i db
unfolding holder release
holder-release_other i j user admin db ne = ground (
  arith,
  find_first-update_same (active_on i) (releasable j user admin) end_lease db.reservations
      (λ r h. ground arith),
)

pub holder-release_admin : (i user : Text) (db : Db) → holder i (release i user true db).0 ≡ none
unfolding holder release
holder-release_admin i user db = ground (
  arith,
  find_first-update_none (active_on i) (releasable i user true) end_lease db.reservations
      (λ r. ground arith),
  any-releasable db.reservations,
  find_first-none-any (active_on i) db.reservations,
)
  where
    any-releasable :
        (rows : List Reservation) → any (releasable i user true) rows ≡ any (active_on i) rows
    any-releasable [] = refl
    any-releasable (r ∷ rows) = ground (arith, any-releasable rows)

pub no_lease :
    (i : Text) (rows : List Reservation)
    → active_count i rows ≡ 0
    → find_first (active_on i) rows ≡ none
no_lease i [] e = refl
no_lease i (r ∷ rows) e = ground (arith, no_lease i rows)
