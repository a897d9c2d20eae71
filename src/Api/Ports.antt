-- ===== src/Api/Ports.antt =====
-- internal/reserve/reserve.go: no operation of the reservations touches the ports of the tunnels.
use poligon.Base.{
  Bool, List, Text, [], ap, arith, codes, false, if_keeps, if◌then◌else◌, inl, inr, map, mem, not,
  refl, true, ℕ, ◌+◌, ◌∙◌, ◌∷◌, ◌≡◌, ◌⊎◌,
}
use poligon.Model.{Platform, Reservation, Run, RunDevice, RunSpec}
use poligon.Reserve.{
  Manager, any_batch_rows, batch_devices, book, book_all, check_all, check_available, heartbeat,
  heartbeat_batch, insert_reservation, release, release_all, release_batch, reserve, reserve_many,
}
use poligon.Runner.{
  RunError, Submitted, accepted, acquire, no_devices_given, platforms, rejected, run_types,
  store_acquired, store_failed, store_run, submit, unknown_type,
}
use poligon.Runs.{
  RunAnswer, RunServer, answer_submitted, create_run_of, create_with, form_devices, inputs_exist,
  rerun, rerun_with, run_failure, submit_form, trigger_of, upload_dir,
}
use poligon.Runs.Form.{RunForm, Step, accept, refuse}
use poligon.Runs.Inputs.{kind_of, read_spec}
use poligon.Store.{Db, Error, Result, Result-cases, Tx, err, ok, transaction}
use poligon.Store.Runs.{create_run, devices_of, get_run}

-- The ports of the tunnels are left as they are.
abbrev pub SamePorts : Db → Db → Type 0
SamePorts a b = b.tunnel_ports ≡ a.tunnel_ports

book-SamePorts :
    (now exp : ℕ) (batch i user : Text) (db : Db) (r : Reservation) (db' : Db)
    → book now exp batch i user db ≡ ok (r, db')
    → SamePorts db db'
unfolding book insert_reservation
book-SamePorts now exp batch i user db r db' e = ground (arith, e)

book_all-SamePorts :
    (now exp : ℕ) (batch user : Text) (is : List Text) (db : Db) (rs : List Reservation) (db' : Db)
    → book_all now exp batch user is db ≡ ok (rs, db')
    → SamePorts db db'
unfolding book_all
book_all-SamePorts now exp batch user [] db rs db' e = ground (arith, e)
book_all-SamePorts now exp batch user (i ∷ is) db rs db' e =
    elim (Result-cases (book now exp batch i user db)) [
      | inr (x, f) ↦ absurd (ground (arith, e, f))
      | inl ((r, db1), f) ↦ elim (Result-cases (book_all now exp batch user is db1)) [
        | inr (x, g) ↦ absurd (ground (arith, e, f, g))
        | inl ((rs1, db2), g) ↦ ground (
          arith,
          e,
          f,
          g,
          book_all-SamePorts now exp batch user is db1 rs1 db2 g,
          book-SamePorts now exp batch i user db r db1 f,
        )
      ]
    ]

transaction-SamePorts :
    {A : Type 0} (f : Tx A) (db : Db)
    → ((x : A) (db' : Db) → f db ≡ ok (x, db') → SamePorts db db')
    → SamePorts db (transaction f db).0
unfolding transaction
transaction-SamePorts f db h = elim (Result-cases (f db)) [
  | inr (e, g) ↦ rw (transaction, g) refl
  | inl ((x, db'), g) ↦ rw (transaction, g) (h x db' g)
]

pub reserve-SamePorts :
    (m : Manager) (now : ℕ) (batch i user : Text) (db : Db)
    → SamePorts db (reserve m now batch i user db).0
unfolding reserve
reserve-SamePorts m now batch i user db = elim (Result-cases (check_available i db)) [
  | inr (e, f) ↦ rw (reserve, f) refl
  | inl (x, f) ↦
      rw (reserve, f)
        (transaction-SamePorts (book now (now + m.max_lease) batch i user) db
          (book-SamePorts now (now + m.max_lease) batch i user db))
]

pub reserve_many-SamePorts :
    (m : Manager) (now : ℕ) (batch : Text) (is : List Text) (user : Text) (db : Db)
    → SamePorts db (reserve_many m now batch is user db).0
unfolding reserve_many
reserve_many-SamePorts m now batch [] user db = refl
reserve_many-SamePorts m now batch (i ∷ is) user db = elim (Result-cases (check_all (i ∷ is) db)) [
  | inr (e, f) ↦ rw (reserve_many, f) refl
  | inl (x, f) ↦
      rw (reserve_many, f)
        (transaction-SamePorts (book_all now (now + m.max_lease) batch user (i ∷ is)) db
          (book_all-SamePorts now (now + m.max_lease) batch user (i ∷ is) db))
]

pub heartbeat-SamePorts :
    (now : ℕ) (i user : Text) (db : Db) → SamePorts db (heartbeat now i user db).0
unfolding heartbeat transaction
heartbeat-SamePorts now i user db = ground arith

pub heartbeat_batch-SamePorts :
    (now : ℕ) (batch user : Text) (db : Db) → SamePorts db (heartbeat_batch now batch user db).0
unfolding heartbeat_batch transaction
heartbeat_batch-SamePorts now batch user db = ground arith

pub release-SamePorts :
    (i user : Text) (admin : Bool) (db : Db) → SamePorts db (release i user admin db).0
unfolding release transaction
release-SamePorts i user admin db = ground arith

release_all-SamePorts :
    (is : List Text) (user : Text) (admin : Bool) (db : Db)
    → SamePorts db (release_all is user admin db)
unfolding release_all
release_all-SamePorts [] user admin db = refl
release_all-SamePorts (i ∷ is) user admin db =
    release_all-SamePorts is user admin (release i user admin db).0
    ∙ release-SamePorts i user admin db

pub release_batch-SamePorts :
    (batch user : Text) (admin : Bool) (db : Db)
    → SamePorts db (release_batch batch user admin db).0
unfolding release_batch
release_batch-SamePorts batch user admin db = elim (Result-cases (batch_devices batch user db)) [
  | inr (e, f) ↦ rw (release_batch, f) (by_admin admin e)
  | inl (is, f) ↦ rw (release_batch, f) (release_all-SamePorts is user admin db)
]
  where
    by_admin :
        (a : Bool) (e : Error)
        → SamePorts db
            (if◌then◌else◌ {A = Db × Result (Unit {0})} a
              (release_all (any_batch_rows batch db) user a db, ok tt)
              (db, err e)).0
    by_admin true e = release_all-SamePorts (any_batch_rows batch db) user true db
    by_admin false e = refl

-- The runs, which book and give back batches.
create_run-SamePorts :
    (now : ℕ) (run : Run) (plats : List (Text × Platform)) (db : Db) (x : Unit {0}) (db' : Db)
    → create_run now run plats db ≡ ok (x, db')
    → SamePorts db db'
unfolding create_run
create_run-SamePorts now run plats db x db' e = ground (arith, e)

acquire-SamePorts :
    (m : Manager) (now : ℕ) (batch user : Text) (is : List Text) (db : Db)
    → SamePorts db (acquire m now batch user is db).0
unfolding acquire
acquire-SamePorts m now batch user is db =
    ground (arith, reserve_many-SamePorts m now batch is user db)

store_run-SamePorts :
    (now : ℕ) (run : Run) (plats : List (Text × Platform)) (db : Db)
    → SamePorts db (store_run now run plats db).0
store_run-SamePorts now run plats db =
    let db' = (transaction (create_run now run plats) db).0 in
    ground (
      arith,
      transaction-SamePorts (create_run now run plats) db (create_run-SamePorts now run plats db),
      release_batch-SamePorts run.batch run.user true db',
    )

store_acquired-SamePorts :
    (now : ℕ) (rid user typ : Text) (spec : RunSpec) (trigger : Text)
    (plats : List (Text × Platform)) (x : Db × (Text ⊎ RunError))
    → SamePorts x.0 (store_acquired now rid user typ spec trigger plats x).0
store_acquired-SamePorts now rid user typ spec trigger plats (db, inr e) = refl
store_acquired-SamePorts now rid user typ spec trigger plats (db, inl held) =
    store_run-SamePorts now _ plats db

submit-SamePorts :
    (m : Manager) (now : ℕ) (batch rid user typ : Text) (spec : RunSpec) (is : List Text)
    (trigger : Text) (db : Db)
    → SamePorts db (submit m now batch rid user typ spec is trigger db).0
unfolding submit
submit-SamePorts m now batch rid user typ spec is trigger db =
    if_keeps (λ (x : Db × Submitted). SamePorts db x.0) (not (mem typ run_types))
      (db, rejected unknown_type) _ refl (on_platforms (platforms is [] db))
  where
    on_platforms :
        (r : Result (List (Text × Platform)))
        → SamePorts db
            (elim r as (λ _. Db × Submitted) [
              | err e ↦ (db, rejected (store_failed e))
              | ok ps ↦ elim ps as (λ _. Db × Submitted) [
                | [] ↦ (db, rejected no_devices_given)
                | x ∷ plats ↦
                    store_acquired now rid user typ spec trigger
                      (x ∷ plats)
                      (acquire m now batch user (map (λ y. y.0) (x ∷ plats)) db)
              ]
            ]).0
    on_platforms (err e) = refl
    on_platforms (ok []) = refl
    on_platforms (ok (x ∷ plats)) =
        store_acquired-SamePorts now rid user typ spec trigger (x ∷ plats)
          (acquire m now batch user (map (λ y. y.0) (x ∷ plats)) db)
        ∙ acquire-SamePorts m now batch user (map (λ y. y.0) (x ∷ plats)) db

answer_submitted-db : (x : Db × Submitted) → (answer_submitted x).0 ≡ x.0
answer_submitted-db (db, accepted run) = refl
answer_submitted-db (db, rejected e) = refl

module _ (srv : RunServer) (now : ℕ) (batch rid user : Text) (db : Db) where
  submit_form-SamePorts :
      (form : RunForm) (spec : RunSpec) (is : Step (List Text))
      → SamePorts db (submit_form srv now batch rid user form spec db is).0
  submit_form-SamePorts form spec (refuse n) = refl
  submit_form-SamePorts form spec (accept is) =
      let x = submit srv.manager now batch rid user (kind_of form) spec is (trigger_of form) db in
      ap (λ (d : Db). d.tunnel_ports) (answer_submitted-db x)
      ∙ submit-SamePorts srv.manager now batch rid user (kind_of form) spec is (trigger_of form) db

  create_with-SamePorts :
      (form : RunForm) (spec : Step RunSpec)
      → SamePorts db (create_with srv now batch rid user form db spec).0
  create_with-SamePorts form (refuse n) = refl
  create_with-SamePorts form (accept spec) = submit_form-SamePorts form spec (form_devices form db)

  pub create_run_of-SamePorts :
      (stamp : Text) (form : RunForm)
      → SamePorts db (create_run_of srv now stamp batch rid user form db).0
  unfolding create_run_of
  create_run_of-SamePorts stamp form =
      create_with-SamePorts form (read_spec srv.files (upload_dir srv.storage stamp) form)

  rerun_with-SamePorts :
      (old : Result Run) → SamePorts db (rerun_with srv now batch rid user db old).0
  rerun_with-SamePorts (err e) = refl
  rerun_with-SamePorts (ok old) =
      let is = map (λ (d : RunDevice). d.device_id) (devices_of old.id db) in
      let x = submit srv.manager now batch rid user old.kind old.spec is (codes "ui") db in
      if_keeps (λ (y : Db × RunAnswer). SamePorts db y.0)
        (not (inputs_exist srv.files.disk old.spec)) (db, run_failure 410) (answer_submitted x) refl
        (ap (λ (d : Db). d.tunnel_ports) (answer_submitted-db x)
          ∙ submit-SamePorts srv.manager now batch rid user old.kind old.spec is (codes "ui") db)

  pub rerun-SamePorts : (i : Text) → SamePorts db (rerun srv now batch rid user i db).0
  unfolding rerun
  rerun-SamePorts i = rerun_with-SamePorts (get_run i db)
