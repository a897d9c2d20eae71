-- ===== src/Runner/Deadline.antt =====
-- internal/runner/runner.go: a smoke run whose devices all wait past their deadline.
use poligon.Base.{
  ==-refl, ==_eq, All, Bool, List, Option, Text, [], all, all-order_by, any, any-cong, any-map,
  any-order_by, any-select, any-update, ap, arith, false, map, mem, none, not, order_by, refl,
  select, some, text_leb, true, ℕ, ◌&&◌, ◌==◌, ◌||◌, ◌∙◌, ◌∷◌, ◌≡◌,
}
use poligon.Model.{
  Platform, Run, RunDevice, RunStatus, canceled, error, failed, passed, queued, running, skipped,
}
use poligon.Runner.Closing.{closed-get, execute-get}
use poligon.Runner.Execute.{
  Outcome, Smoke, aggregate, conclude, execute, run_all_devices, run_device, smoke,
}
use poligon.Runner.Verdict.{aggregate-passed, has_status, status_is-passed}
use poligon.Store.{Db, Result, err, ok}
use poligon.Store.Runs.{devices_of, get_run, set_run_device, set_run_status, status_is}

abbrev is_bad : RunStatus → Bool
is_bad st = status_is error st || status_is failed st || status_is skipped st

abbrev is_bad_row : Text → (Text → Bool) → RunDevice → Bool
is_bad_row i p r = r.run_id == i && is_bad r.status && p r.device_id

-- A write of a device's row with a status that is not bad.
bad-set_run_device :
    (i : Text) (p : Text → Bool) (d : RunDevice) (db : Db)
    → d.run_id ≡ i
    → is_bad d.status ≡ false
    → any (is_bad_row i p) (set_run_device d db).run_devices
      ≡ any (is_bad_row i (λ j. p j && not (j == d.device_id))) db.run_devices
unfolding set_run_device
bad-set_run_device i p d db a f =
    any-update (is_bad_row i p) (is_bad_row i (λ j. p j && not (j == d.device_id)))
      (λ r. r.run_id == d.run_id && r.device_id == d.device_id) _ db.run_devices
      (λ r. ground (arith, ap (λ k. r.run_id == k) a))

bad-run_device :
    (i : Text) (p : Text → Bool) (start fin : ℕ) (timed_out : Bool) (rd : RunDevice) (db : Db)
    → rd.run_id ≡ i
    → any (is_bad_row i p) (run_device start fin timed_out canceled rd db).run_devices
      ≡ any (is_bad_row i (λ j. p j && not (j == rd.device_id))) db.run_devices
unfolding run_device conclude
bad-run_device i p start fin timed_out rd db a =
    let started = record rd { started_at = some start; status = running } in
    bad-set_run_device i p (record started { finished_at = some fin; status = canceled })
      (set_run_device started db) a refl
    ∙ bad-set_run_device i (λ j. p j && not (j == rd.device_id)) started db a refl
    ∙ any-cong _ (is_bad_row i (λ j. p j && not (j == rd.device_id))) db.run_devices
        (λ r. ground arith)

-- The rows of a run that are bad after its devices were all canceled.
bad-run_all :
    (i : Text) (did : Text → Outcome) (p : Text → Bool) (rds : List RunDevice) (db : Db)
    → All (λ rd. (rd.run_id ≡ i) × ((did rd.device_id).handler ≡ canceled)) rds
    → any (is_bad_row i p) (run_all_devices did rds db).run_devices
      ≡ any (is_bad_row i (λ j. p j && not (mem j (map (λ d. d.device_id) rds)))) db.run_devices
unfolding run_all_devices
bad-run_all i did p [] db h =
    any-cong (is_bad_row i p) (is_bad_row i (λ j. p j && true)) db.run_devices (λ r. ground arith)
bad-run_all i did p (rd ∷ rds) db h =
    let o = did rd.device_id in
    let q : Text → Bool = λ j. p j && not (mem j (map (λ (d : RunDevice). d.device_id) rds)) in
    bad-run_all i did p rds (run_device o.start o.fin o.timed_out o.handler rd db) h.1
    ∙ ap (λ st. any (is_bad_row i q) (run_device o.start o.fin o.timed_out st rd db).run_devices)
        (h.0.1)
    ∙ bad-run_device i q o.start o.fin o.timed_out rd db (h.0.0)
    ∙ any-cong _ _ db.run_devices (λ r. ground arith)

-- Every row of the run is among the devices of the run.
rows_covered :
    (i : Text) (rows all_rows : List RunDevice)
    → ((j : Text)
        → any (λ d. d.run_id == i && d.device_id == j) rows ≡ true
        → any (λ d. d.run_id == i && d.device_id == j) all_rows ≡ true)
    → any
        (is_bad_row i (λ j. true && not (any (λ d. d.run_id == i && d.device_id == j) all_rows)))
        rows
      ≡ false
rows_covered i [] all_rows h = refl
rows_covered i (r ∷ rows) all_rows h = ground (
  arith,
  h r.device_id,
  ==-refl r.device_id,
  rows_covered i rows all_rows (λ j e. h j (ground arith)),
)

mem-devices :
    (i j : Text) (db : Db)
    → mem j (map (λ d. d.device_id) (devices_of i db))
      ≡ any (λ d. d.run_id == i && d.device_id == j) db.run_devices
unfolding devices_of
mem-devices i j db =
    let le : RunDevice → RunDevice → Bool = λ a b. text_leb a.device_id b.device_id in
    let mine = select (λ d. d.run_id == i) db.run_devices in
    any-map (λ k. k == j) (λ (d : RunDevice). d.device_id) (order_by le mine)
    ∙ any-order_by le (λ d. d.device_id == j) mine
    ∙ any-select (λ d. d.run_id == i) (λ d. d.device_id == j) db.run_devices

bad-devices :
    (i : Text) (db : Db)
    → any (λ d. is_bad d.status) (devices_of i db) ≡ any (is_bad_row i (λ j. true)) db.run_devices
unfolding devices_of
bad-devices i db =
    let le : RunDevice → RunDevice → Bool = λ a b. text_leb a.device_id b.device_id in
    let mine = select (λ d. d.run_id == i) db.run_devices in
    any-order_by le (λ d. is_bad d.status) mine
    ∙ any-select (λ d. d.run_id == i) (λ d. is_bad d.status) db.run_devices
    ∙ any-cong _ (is_bad_row i (λ j. true)) db.run_devices (λ r. ground arith)

all_of_run : (i : Text) (db : Db) → all (λ d. d.run_id == i) (devices_of i db) ≡ true
unfolding devices_of
all_of_run i db =
    let le : RunDevice → RunDevice → Bool = λ a b. text_leb a.device_id b.device_id in
    all-order_by le (λ d. d.run_id == i) (select (λ d. d.run_id == i) db.run_devices)
    ∙ selected db.run_devices
  where
    selected :
        (rows : List RunDevice) → all (λ d. d.run_id == i) (select (λ d. d.run_id == i) rows) ≡ true
    selected [] = refl
    selected (r ∷ rows) = ground (arith, selected rows)

none_bad :
    (ds : List RunDevice)
    → any (λ d. is_bad d.status) ds ≡ false
    → (has_status error ds ≡ false)
      × (has_status failed ds ≡ false)
      × (has_status skipped ds ≡ false)
none_bad [] h = (refl, refl, refl)
none_bad (d ∷ ds) h = ground (arith, none_bad ds)

-- The handler of the device was smoke, and it was told to stop while it waited, after an install that
-- worked.
abbrev pub WaitedOut : (Text → Smoke) → (Text → Outcome) → RunDevice → Type 0
WaitedOut obs did d =
    ((did d.device_id).handler ≡ smoke d.platform (obs d.device_id))
    × ((obs d.device_id).has_controller ≡ true)
    × ((obs d.device_id).has_artifact ≡ true)
    × ((obs d.device_id).install_ok ≡ true)
    × ((obs d.device_id).deadline_hit ≡ true)

canceled_all :
    (i : Text) (obs : Text → Smoke) (did : Text → Outcome) (ds : List RunDevice)
    → all (λ d. d.run_id == i) ds ≡ true
    → All (WaitedOut obs did) ds
    → All (λ rd. (rd.run_id ≡ i) × ((did rd.device_id).handler ≡ canceled)) ds
unfolding smoke
canceled_all i obs did [] a h = tt
canceled_all i obs did (d ∷ ds) a h = (
  (
    ==_eq d.run_id i (ground arith),
    let (e, a1, a2, a3, a4) = h.0 in e ∙ stopped d.platform (obs d.device_id) (a1, a2, a3, a4),
  ),
  canceled_all i obs did ds (ground arith) h.1,
)
  where
    stopped :
        (p : Platform) (s : Smoke)
        → (s.has_controller ≡ true)
          × (s.has_artifact ≡ true)
          × (s.install_ok ≡ true)
          × (s.deadline_hit ≡ true)
        → smoke p s ≡ canceled
    stopped p s (c, e, t, d) = ground arith

-- After the devices of a run have all waited past their deadline, none of its rows is an error, a
-- failure or skipped.
rows_not_bad :
    (obs : Text → Smoke) (did : Text → Outcome) (i : Text) (db : Db)
    → All (WaitedOut obs did) (devices_of i db)
    → any (λ d. is_bad d.status) (devices_of i (run_all_devices did (devices_of i db) db)) ≡ false
rows_not_bad obs did i db h =
    bad-devices i (run_all_devices did (devices_of i db) db)
    ∙ bad-run_all i did (λ j. true) (devices_of i db) db
        (canceled_all i obs did (devices_of i db) (all_of_run i db) h)
    ∙ any-cong _ _ db.run_devices (λ r. ground (arith, mem-devices i r.device_id db))
    ∙ rows_covered i db.run_devices db.run_devices (λ j e. e)

abbrev pub stored_status : Text → Db → Option RunStatus
stored_status i db = elim (get_run i db) [ err _ ↦ none | ok run ↦ some run.status ]

-- A queued run whose devices have smoke for a handler and are all told to stop by their own deadline
-- while it waits, after an install that worked, and which its user does not cancel: execute stores
-- it as passed, though the app was never looked at. A controller of iOS screens is there.
pub execute-deadline :
    (obs : Text → Smoke) (did : Text → Outcome) (start fin : ℕ) (i : Text) (db : Db) (run : Run)
    → get_run i db ≡ ok run
    → run.status ≡ queued
    → All (WaitedOut obs did) (devices_of i db)
    → stored_status i (execute did false start fin i db) ≡ some passed
unfolding set_run_status devices_of
execute-deadline obs did start fin i db run h q w =
    let begun = set_run_status i running [] (some start) none db in
    let ended = run_all_devices did (devices_of i begun) begun in
    let bad = rows_not_bad obs did i begun w in
    let st : aggregate false (devices_of i ended) ≡ passed =
      status_is-passed (aggregate false (devices_of i ended)) (
        ground (
          arith,
          aggregate-passed false (devices_of i ended),
          none_bad (devices_of i ended) bad,
        )) in
    ap
      (λ (g : Result Run). elim g as (λ x. Option RunStatus) [
        | err _ ↦ none
        | ok r ↦ some r.status
      ])
      (execute-get did false start fin i db run h q ∙ closed-get did false start fin i db run h)
    ∙ ap some st
