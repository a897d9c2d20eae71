-- ===== src/Runs/Bookable.antt =====
-- internal/api/runs.go and internal/reserve/reserve.go: the devices that selectDevices finds can be
-- booked.
use poligon.Base.{
  ==-refl, ==-sym, Bool, Bool-cases, List, Option, Text, [], all, all-order_by, arith, atoi, false,
  find_first, inl, inr, insert_by, is_empty, leb, length, map, mem, negsuc, none, not, order_by,
  pos, refl, some, suc, sym, text_leb, true, zero, ℕ, ℤ, ◌&&◌, ◌==◌, ◌||◌, ◌∙◌, ◌∷◌, ◌≡◌,
}
use poligon.Model.{Device}
use poligon.Reserve.{Manager, is_held, reserve_many}
use poligon.Reserve.Booking.{has_no_repeat, has_user, is_available, is_free}
use poligon.Reserve.Many.{succeeds-reserve_many}
use poligon.Runs.Selecting.{
  first_wanted, is_wanted, select_devices, select_devices-first, wanted_ids,
}
use poligon.Store.{Db, succeeds}
use poligon.Store.Devices.{all_devices, device}
use poligon.Store.Listing.{first_rows}

abbrev ids_of : List Device → List Text
ids_of ds = map (λ d. d.id) ds

mem-insert_by :
    (le : Device → Device → Bool) (i : Text) (d : Device) (ds : List Device)
    → mem i (ids_of (insert_by le d ds)) ≡ (d.id == i || mem i (ids_of ds))
mem-insert_by le i d [] = refl
mem-insert_by le i d (e ∷ ds) = ground (arith, mem-insert_by le i d ds)

has_no_repeat-insert_by :
    (le : Device → Device → Bool) (d : Device) (ds : List Device)
    → has_no_repeat (ids_of (insert_by le d ds))
      ≡ (not (mem d.id (ids_of ds)) && has_no_repeat (ids_of ds))
has_no_repeat-insert_by le d [] = refl
has_no_repeat-insert_by le d (e ∷ ds) =
    ground (arith, has_no_repeat-insert_by le d ds, mem-insert_by le e.id d ds, ==-sym d.id e.id)

mem-order_by :
    (le : Device → Device → Bool) (i : Text) (ds : List Device)
    → mem i (ids_of (order_by le ds)) ≡ mem i (ids_of ds)
mem-order_by le i [] = refl
mem-order_by le i (d ∷ ds) =
    ground (arith, mem-insert_by le i d (order_by le ds), mem-order_by le i ds)

has_no_repeat-order_by :
    (le : Device → Device → Bool) (ds : List Device)
    → has_no_repeat (ids_of (order_by le ds)) ≡ has_no_repeat (ids_of ds)
has_no_repeat-order_by le [] = refl
has_no_repeat-order_by le (d ∷ ds) = ground (
  arith,
  has_no_repeat-insert_by le d (order_by le ds),
  mem-order_by le d.id ds,
  has_no_repeat-order_by le ds,
)

module _ (platform tag : Text) where
  mem-wanted_ids :
      (i : Text) (ds : List Device)
      → mem i (ids_of ds) ≡ false
      → mem i (wanted_ids platform tag ds) ≡ false
  mem-wanted_ids i [] h = refl
  mem-wanted_ids i (d ∷ ds) h = elim (Bool-cases (is_wanted platform tag d)) [
    | inl w ↦ rw w (ground (arith, mem-wanted_ids i ds))
    | inr w ↦ rw w (ground (arith, mem-wanted_ids i ds))
  ]

  has_no_repeat-wanted_ids :
      (ds : List Device)
      → has_no_repeat (ids_of ds) ≡ true
      → has_no_repeat (wanted_ids platform tag ds) ≡ true
  has_no_repeat-wanted_ids [] h = refl
  has_no_repeat-wanted_ids (d ∷ ds) h = elim (Bool-cases (is_wanted platform tag d)) [
    | inl w ↦ rw w (ground (arith, has_no_repeat-wanted_ids ds, mem-wanted_ids d.id ds))
    | inr w ↦ rw w (ground (arith, has_no_repeat-wanted_ids ds))
  ]

  wanted_ids-unheld :
      (db : Db) (ds : List Device)
      → all (λ d. not (is_free d.status && is_held d.id db)) ds ≡ true
      → all (λ i. not (is_held i db)) (wanted_ids platform tag ds) ≡ true
  wanted_ids-unheld db [] h = refl
  wanted_ids-unheld db (d ∷ ds) h = ground (arith, wanted_ids-unheld db ds)

abbrev is_ready : Text → List Device → Bool
is_ready i ds = elim (find_first (λ d. d.id == i) ds) [
  | none ↦ false
  | some d ↦ d.adopted && is_free d.status
]

all_skip :
    (d : Device) (ds : List Device) (is : List Text)
    → mem d.id is ≡ false
    → all (λ i. is_ready i (d ∷ ds)) is ≡ all (λ i. is_ready i ds) is
all_skip d ds [] h = refl
all_skip d ds (i ∷ is) h = ground (arith, all_skip d ds is, ==-sym d.id i)

wanted_ids-ready :
    (platform tag : Text) (ds : List Device)
    → has_no_repeat (ids_of ds) ≡ true
    → all (λ i. is_ready i ds) (wanted_ids platform tag ds) ≡ true
wanted_ids-ready platform tag [] h = refl
wanted_ids-ready platform tag (d ∷ ds) h =
    let rest = wanted_ids-ready platform tag ds (ground arith) in
    let skip =
      all_skip d ds (wanted_ids platform tag ds)
        (mem-wanted_ids platform tag d.id ds (ground arith)) in
    elim (Bool-cases (is_wanted platform tag d)) [
      | inl w ↦ rw w (rw skip (ground (arith, rest, ==-refl d.id)))
      | inr w ↦ rw w (rw skip rest)
    ]

all-first_rows :
    (p : Text → Bool) (n : ℕ) (is : List Text) → all p is ≡ true → all p (first_rows n is) ≡ true
all-first_rows p zero is h = refl
all-first_rows p (suc n) [] h = refl
all-first_rows p (suc n) (i ∷ is) h = ground (arith, all-first_rows p n is)

mem-first_rows :
    (i : Text) (n : ℕ) (is : List Text) → mem i is ≡ false → mem i (first_rows n is) ≡ false
mem-first_rows i zero is h = refl
mem-first_rows i (suc n) [] h = refl
mem-first_rows i (suc n) (j ∷ is) h = ground (arith, mem-first_rows i n is)

has_no_repeat-first_rows :
    (n : ℕ) (is : List Text) → has_no_repeat is ≡ true → has_no_repeat (first_rows n is) ≡ true
has_no_repeat-first_rows zero is h = refl
has_no_repeat-first_rows (suc n) [] h = refl
has_no_repeat-first_rows (suc n) (i ∷ is) h =
    ground (arith, has_no_repeat-first_rows n is, mem-first_rows i n is)

is_ready-available : (i : Text) (db : Db) → is_available i db ≡ is_ready i (all_devices db)
unfolding device
is_ready-available i db = ground arith

all_available :
    (db : Db) (is : List Text)
    → all (λ i. is_available i db) is ≡ all (λ i. is_ready i (all_devices db)) is
all_available db [] = refl
all_available db (i ∷ is) = ground (arith, is_ready-available i db, all_available db is)

module _ (m : Manager) (now : ℕ) (batch user platform tag : Text) (db : Db)
    (u : has_user user db ≡ true) (keys : has_no_repeat (ids_of db.devices) ≡ true)
    (unheld : all (λ d. not (is_free d.status && is_held d.id db)) db.devices ≡ true) where
  -- The first of the devices that match.
  reserve_first :
      (n : ℕ)
      → is_empty (first_rows n (wanted_ids platform tag (all_devices db))) ≡ false
      → succeeds
          (reserve_many m now batch
            (first_rows n (wanted_ids platform tag (all_devices db)))
            user
            db).1
        ≡ true
  reserve_first n e =
      let ids = wanted_ids platform tag (all_devices db) in
      let le = λ (a b : Device). text_leb a.id b.id in
      let keys' = has_no_repeat-order_by le db.devices ∙ keys in
      let ready =
        all_available db (first_rows n ids)
        ∙ all-first_rows (λ i. is_ready i (all_devices db)) n ids
            (wanted_ids-ready platform tag (all_devices db) keys') in
      let free_all =
        all-first_rows (λ i. not (is_held i db)) n ids
          (wanted_ids-unheld platform tag db (all_devices db) (
            all-order_by le (λ d. not (is_free d.status && is_held d.id db)) db.devices
            ∙ unheld)) in
      let once =
        has_no_repeat-first_rows n ids
          (has_no_repeat-wanted_ids platform tag (all_devices db) keys') in
      succeeds-reserve_many m now batch (first_rows n ids) user db
      ∙ rw (e, u, ready, free_all, once)

first_rows_some {ℓ} :
    {A : Type ℓ} (n : ℕ) (xs : List A)
    → leb 1 n ≡ true
    → leb n (length xs) ≡ true
    → is_empty (first_rows n xs) ≡ false
first_rows_some zero xs h k = absurd (ground arith)
first_rows_some (suc n) [] h k = absurd (ground arith)
first_rows_some (suc n) (x ∷ xs) h k = refl

-- Where every id stands once in the table of devices, no free device is held, and the user has an
-- account: what selectDevices finds can be booked, all of it, by ReserveMany.
pub succeeds-select :
    (m : Manager) (now : ℕ) (batch user platform tag count : Text) (db : Db) {is : List Text}
    → has_user user db ≡ true
    → has_no_repeat (map (λ d. d.id) db.devices) ≡ true
    → all (λ d. not (is_free d.status && is_held d.id db)) db.devices ≡ true
    → select_devices platform tag count db ≡ some is
    → succeeds (reserve_many m now batch is user db).1 ≡ true
succeeds-select m now batch user platform tag count db {is} u keys unheld e =
    of_number (atoi count) (sym (select_devices-first platform tag count db) ∙ e)
  where
    of_number :
        (o : Option ℤ)
        → (elim o [ none ↦ none | some n ↦ first_wanted platform tag db n ]) ≡ some is
        → succeeds (reserve_many m now batch is user db).1 ≡ true
    of_number none p = absurd (ground arith)
    of_number (some (negsuc n)) p = absurd (ground arith)
    of_number (some (pos n)) p =
        let same : first_rows n (wanted_ids platform tag (all_devices db)) ≡ is = ground arith in
        rw (← same) (
          reserve_first m now batch user platform tag db u keys unheld n (
            first_rows_some n (wanted_ids platform tag (all_devices db)) (ground arith)
              (ground arith)))
