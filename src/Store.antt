-- ===== src/Store.antt =====
-- internal/store: the SQLite tables of schema.sql as lists of rows, in the order of their rowids,
-- with the constraints that the statements of the program can run into.
pub mod Devices
pub mod Runs
pub mod Listing
pub mod Paging
pub mod TunnelPorts
pub mod Accounts
use poligon.Base.{
  Bool, List, Option, Text, arith, false, inl, inr, refl, subst, sym, true, ℕ, ◌≡◌, ◌⊎◌,
}
use poligon.Model.{Device, Reservation, Run, RunDevice, Session, User}

-- A row of the table `enroll_tokens`.
pub record EnrollToken : Type 0 where
  pub token_hash : Text
  pub user : Text
  pub expires_at : ℕ
  pub used_at : Option ℕ

-- A row of the table `api_tokens`.
pub record ApiToken : Type 0 where
  pub hash : Text
  pub user : Text
  pub name : Text
  pub created_at : ℕ
  pub last_used_at : Option ℕ

-- A row of the table `adb_tunnel_ports`.
pub record TunnelPort : Type 0 where
  pub user : Text
  pub port : ℕ

-- The database; `next_reservation` and `next_session` are the AUTOINCREMENT counters.
pub record Db : Type 0 where
  pub devices : List Device
  pub users : List User
  pub reservations : List Reservation
  pub next_reservation : ℕ
  pub sessions : List Session
  pub next_session : ℕ
  pub enroll_tokens : List EnrollToken
  pub api_tokens : List ApiToken
  pub tunnel_ports : List TunnelPort
  pub runs : List Run
  pub run_devices : List RunDevice
  -- The column device_id of the tables `installs` and `ios_screen`.
  pub installs : List Text
  pub ios_screens : List Text

-- The errors that callers tell apart.
pub data Error : Type 0 where
  not_found taken not_holder unavailable no_devices constraint : Error
  no_user no_session user_exists no_free_port : Error

pub data Result {ℓ} (V : Type ℓ) : Type ℓ where
  err : Error → Result V
  ok : V → Result V

abbrev pub succeeds {κ} : {V : Type κ} → Result V → Bool
succeeds (err why) = false
succeeds (ok v) = true

-- The body of a transaction: on an error `defer tx.Rollback()` drops its state.
abbrev pub Tx : Type 0 → Type 0
Tx A = Db → Result (A × Db)

-- `tx.Commit()` or the deferred rollback.
abbrev pub transaction : {A : Type 0} → Tx A → Db → Db × Result A
transaction body db = elim (body db) [ ok (a, db') ↦ (db', ok a) | err e ↦ (db, err e) ]

pub Result-cases {κ} :
    {V : Type κ} (got : Result V) → ((v : V) × (got ≡ ok v)) ⊎ ((why : Error) × (got ≡ err why))
Result-cases (err why) = inr (why, refl)
Result-cases (ok v) = inl (v, refl)

-- Either the body succeeds and its state is committed, or it is rolled back.
pub transaction_rule {ℓ} :
    {A : Type 0} (P : Db × Result A → Type ℓ) (body : Tx A) (db : Db)
    → ((a : A) (db' : Db) → body db ≡ ok (a, db') → P (db', ok a))
    → ((e : Error) → P (db, err e))
    → P (transaction body db)
transaction_rule P body db good bad = elim (Result-cases (body db)) [
  | inl ((a, db'), b) ↦
      let p : transaction body db ≡ (db', ok a) = ground arith in subst P (sym p) (good a db' b)
  | inr (e, b) ↦ let p : transaction body db ≡ (db, err e) = ground arith in subst P (sym p) (bad e)
]
