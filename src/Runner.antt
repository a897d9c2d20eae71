-- ===== src/Runner.antt =====
-- internal/runner: how a run is submitted, executed and judged. What a device did is taken as the
-- verdict of its handler; the artifacts, the logs and the callback are left out.
pub mod Execute
pub mod Verdict
pub mod Holding
pub mod Closing
pub mod Workspace
pub mod Queue
pub mod Settling
pub mod Crash
pub mod Deadline
use poligon.Base.{
  List, Text, [], any, codes, eqb, if◌then◌else◌, inl, inr, is_empty, map, mem, none, not, some,
  suc, true, ℕ, ◌++◌, ◌==◌, ◌∷◌, ◌⊎◌,
}
use poligon.Model.{Device, Platform, Run, RunSpec, queued}
use poligon.Reserve.{Manager, holder, release_batch, reserve_many}
use poligon.Store.{Db, Error, Result, err, ok, transaction}
use poligon.Store.Devices.{device}
use poligon.Store.Runs.{create_run, get_run}

pub data RunError : Type 0 where
  unknown_type no_devices_given mixed_hold : RunError
  reserved_by : Text → RunError
  store_failed : Error → RunError

pub data Submitted : Type 0 where
  accepted : Run → Submitted
  rejected : RunError → Submitted

-- The set `Types`.
abbrev pub run_types : List Text
run_types =
    codes "install_smoke" ∷ codes "maestro" ∷ codes "command" ∷ codes "integration_test" ∷ []

-- The device ids, each once, with their platforms; the map has them in some order, here that of
-- their first mention.
unfoldable pub platforms : List Text → List (Text × Platform) → Db → Result (List (Text × Platform))
platforms [] seen db = ok seen
platforms (i ∷ is) seen db =
    let skip = platforms is seen db in
    let add = λ (d : Device). platforms is (seen ++ (i, d.platform) ∷ []) db in
    if any (λ x. x.0 == i) seen then skip else elim (device i db) [ err e ↦ err e | ok d ↦ add d ]

-- How many devices the user holds, and how many are free; somebody else's is refused.
pub data Holds : Type 0 where
  counts : ℕ → ℕ → Holds
  other : Text → Holds

unfoldable pub count_holds : Text → List Text → Db → Holds
count_holds user [] db = counts 0 0
count_holds user (i ∷ is) db =
    let rest = count_holds user is db in
    elim (holder i db) [
      | none ↦ elim rest [ counts h f ↦ counts h (suc f) | other u ↦ other u ]
      | some r ↦
          if r.user == user
          then elim rest [ counts h f ↦ counts (suc h) f | other u ↦ other u ]
          else other r.user
    ]

-- The devices of a run: borrowed from the user's own hold, with no batch, or booked as a new batch.
unfoldable pub acquire : Manager → ℕ → Text → Text → List Text → Db → Db × (Text ⊎ RunError)
acquire m now batch user is db = elim (count_holds user is db) [
  | other u ↦ (db, inr (reserved_by u))
  | counts h f ↦
      if eqb f 0
      then (db, inl [])
      else if eqb h 0
      then (let (db', res) = reserve_many m now batch is user db in
          (db', elim res [ ok _ ↦ inl batch | err e ↦ inr (store_failed e) ]))
      else (db, inr mixed_hold)
]

-- A run that cannot be stored gives its batch back.
abbrev pub store_run : ℕ → Run → List (Text × Platform) → Db → Db × Submitted
store_run now run plats db =
    let (db', res) = transaction (create_run now run plats) db in
    elim res [
      | ok _ ↦ elim (get_run run.id db') [
        | ok r ↦ (db', accepted r)
        | err e ↦ (db', rejected (store_failed e))
      ]
      | err e ↦ (
        if is_empty run.batch then db' else (release_batch run.batch run.user true db').0,
        rejected (store_failed e),
      )
    ]

-- The devices of the run are acquired: the run is stored.
abbrev pub store_acquired :
    ℕ
    → Text
    → Text
    → Text
    → RunSpec
    → Text
    → List (Text × Platform)
    → Db × (Text ⊎ RunError)
    → Db × Submitted
store_acquired now rid user typ spec trigger plats (db, inr e) = (db, rejected e)
store_acquired now rid user typ spec trigger plats (db, inl held) =
    store_run now
      (record {
        id = rid;
        user = user;
        kind = typ;
        status = queued;
        trigger = trigger;
        batch = held;
        spec = spec;
        detail = [];
        created_at = now;
        started_at = none;
        finished_at = none;
      })
      plats db

-- Submit, with the random ids of the batch and the run.
unfoldable pub submit :
    Manager → ℕ → Text → Text → Text → Text → RunSpec → List Text → Text → Db → Db × Submitted
submit m now batch rid user typ spec ids trigger db =
    if not (mem typ run_types) then (db, rejected unknown_type) else elim (platforms ids [] db) [
      | err e ↦ (db, rejected (store_failed e))
      | ok [] ↦ (db, rejected no_devices_given)
      | ok (x ∷ plats) ↦
          store_acquired now rid user typ spec trigger (x ∷ plats)
            (acquire m now batch user (map (λ y. y.0) (x ∷ plats)) db)
    ]
