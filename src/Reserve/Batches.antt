-- ===== src/Reserve/Batches.antt =====
-- internal/reserve/reserve.go: the queries UserBatches and ActiveUsers.
use poligon.Base.{
  ==_eq, Bool, Bool-cases, List, Text, [], any, any-append, any-cong, any-map, any-order_by,
  any-select, arith, eqb, false, if◌then◌else◌, inl, inr, is_empty, ltb, map, mem, not, order_by,
  refl, select, text_leb, ℕ, ◌&&◌, ◌++◌, ◌==◌, ◌||◌, ◌∙◌, ◌∷◌, ◌≡◌,
}
use poligon.Model.{Reservation}
use poligon.Store.{Db}

pub record UserBatch : Type 0 where
  pub batch : Text
  pub devices : List Text
  pub created_at : ℕ

-- A row joins its batch, which is made at the end if it is new.
unfoldable pub add_row : Reservation → List UserBatch → List UserBatch
add_row r [] =
    (record { batch = r.batch; devices = r.device_id ∷ []; created_at = r.created_at }) ∷ []
add_row r (b ∷ bs) =
    let rest = add_row r bs in
    if b.batch == r.batch
    then (record b { devices = b.devices ++ r.device_id ∷ [] }) ∷ bs
    else b ∷ rest

unfoldable pub add_rows : List Reservation → List UserBatch → List UserBatch
unfolding add_row
add_rows [] bs = bs
add_rows (r ∷ rows) bs = add_rows rows (add_row r bs)

-- ORDER BY created_at DESC, device_id
abbrev pub newest_first : Reservation → Reservation → Bool
newest_first a b =
    ltb b.created_at a.created_at
    || (eqb a.created_at b.created_at && text_leb a.device_id b.device_id)

abbrev pub is_batched : Text → Reservation → Bool
is_batched user r = r.user == user && not r.released && not (is_empty r.batch)

unfoldable pub user_batches : Text → Db → List UserBatch
unfolding add_rows
user_batches user db =
    add_rows (order_by newest_first (select (is_batched user) db.reservations)) []

-- SELECT DISTINCT
unfoldable pub distinct : List Text → List Text
distinct [] = []
distinct (u ∷ us) = u ∷ select (λ v. not (v == u)) (distinct us)

unfoldable pub active_users : Db → List Text
unfolding distinct
active_users db = distinct (map (λ r. r.user) (select (λ r. not r.released) db.reservations))

abbrev pub lists : Text → Text → UserBatch → Bool
lists batch i b = b.batch == batch && mem i b.devices

any-add_row :
    (batch i : Text) (r : Reservation) (bs : List UserBatch)
    → any (lists batch i) (add_row r bs)
      ≡ (any (lists batch i) bs || (r.batch == batch && r.device_id == i))
unfolding add_row
any-add_row batch i r [] = ground arith
any-add_row batch i r (b ∷ bs) = elim (Bool-cases (b.batch == r.batch)) [
  | inl same ↦
      let e : b.batch ≡ r.batch = ==_eq b.batch r.batch same in
      ground (arith, any-append (λ j. j == i) b.devices (r.device_id ∷ []))
  | inr apart ↦ ground (arith, any-add_row batch i r bs)
]

any-add_rows :
    (batch i : Text) (rows : List Reservation) (bs : List UserBatch)
    → any (lists batch i) (add_rows rows bs)
      ≡ (any (lists batch i) bs || any (λ r. r.batch == batch && r.device_id == i) rows)
unfolding add_rows
any-add_rows batch i [] bs = ground arith
any-add_rows batch i (r ∷ rows) bs =
    ground (arith, any-add_rows batch i rows (add_row r bs), any-add_row batch i r bs)

-- UserBatches lists a device under a batch exactly when the user has an active reservation of the
-- device in that batch, and the batch has a name.
user_batches-lists :
    (user batch i : Text) (db : Db)
    → any (lists batch i) (user_batches user db)
      ≡ any (λ r. is_batched user r && (r.batch == batch && r.device_id == i)) db.reservations
unfolding user_batches
user_batches-lists user batch i db =
    any-add_rows batch i (order_by newest_first (select (is_batched user) db.reservations)) []
    ∙ any-order_by newest_first (λ r. r.batch == batch && r.device_id == i)
        (select (is_batched user) db.reservations)
    ∙ any-select (is_batched user) (λ r. r.batch == batch && r.device_id == i) db.reservations

pub mem-distinct : (u : Text) (us : List Text) → mem u (distinct us) ≡ mem u us
unfolding distinct
mem-distinct u [] = refl
mem-distinct u (v ∷ us) = elim (Bool-cases (v == u)) [
  | inl same ↦ ground arith
  | inr apart ↦ ground (
    arith,
    any-select (λ w. not (w == v)) (λ w. w == u) (distinct us),
    any-cong (λ w. not (w == v) && w == u) (λ w. w == u) (distinct us) (λ w. third w v u apart),
    mem-distinct u us,
  )
]
  where
    third : (w v u : Text) → (v == u) ≡ false → (not (w == v) && w == u) ≡ (w == u)
    third w v u apart = elim (Bool-cases (w == v)) [
      | inl same ↦ let e : w ≡ v = ==_eq w v same in ground arith
      | inr unlike ↦ ground arith
    ]

-- ActiveUsers holds a user exactly when he has an active reservation.
mem-active_users :
    (u : Text) (db : Db)
    → mem u (active_users db) ≡ any (λ r. not r.released && r.user == u) db.reservations
unfolding active_users
mem-active_users u db =
    mem-distinct u (map (λ r. r.user) (select (λ r. not r.released) db.reservations))
    ∙ any-map (λ v. v == u) (λ r. r.user) (select (λ r. not r.released) db.reservations)
    ∙ any-select (λ r. not r.released) (λ r. r.user == u) db.reservations
