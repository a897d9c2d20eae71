-- ===== src/Runner/Settling.antt =====
-- internal/runner/runner.go: the queue is worked off.
use poligon.Base.{
  Bool, List, Text, [], all, any, ap, arith, false, if◌then◌else◌, length, map, none, not, refl,
  select, some, true, update_where, ℕ, ◌<◌, ◌==◌, ◌∙◌, ◌∷◌, ◌≡◌, ◌≤◌,
}
use poligon.Model.{Run, error, running}
use poligon.Reserve.Booking.{has_no_repeat}
use poligon.Runner.Closing.{
  aggregate-done, closed, execute-runs, is_running, marked, recover-running, recover_run-frame,
  run_all_devices-frame,
}
use poligon.Runner.Execute.{
  Outcome, aggregate, execute, recover, recover_all, recover_run, restarted, run_all_devices,
}
use poligon.Runner.Queue.{
  Turn, drain_queue, found_queued, head_queued, is_queued, is_waiting, none_queued, start_up,
  update_ids, update_one_less, update_queued, update_running, update_twice,
}
use poligon.Store.{Db}
use poligon.Store.Runs.{
  coalesce, devices_of, fail_run_devices_not_done, get_run-found, orphan_runs, queued_run_ids,
  set_run_status,
}

-- How the rows of the runs change: none is added, none begins to wait.
record Settles (db db' : Db) : Type 0 where
  ids : map (λ r. r.id) db'.runs ≡ map (λ r. r.id) db.runs
  running_ended : any is_running db.runs ≡ false → any is_running db'.runs ≡ false
  queued_le : length (select is_queued db'.runs) ≤ length (select is_queued db.runs)

module _ (did : Text → Outcome) (c : Bool) (start fin : ℕ) (i : Text) (db : Db) where
  -- The row of the run, as it is in the end.
  last_row : Run → Run
  last_row r =
      let begun = set_run_status i running [] (some start) none db in
      let ended = run_all_devices did (devices_of i begun) begun in
      record r {
        status = aggregate c (devices_of i ended);
        detail = [];
        started_at = some start;
        finished_at = some fin;
      }

  closed_rows : (closed did c start fin i db).runs ≡ update_where (λ r. r.id == i) last_row db.runs
  unfolding closed set_run_status last_row
  closed_rows =
      let begun = set_run_status i running [] (some start) none db in
      let kept = run_all_devices-frame did (devices_of i begun) begun in
      ap (update_where (λ r. r.id == i) _) kept
      ∙ update_twice (λ r. r.id == i) _ _ db.runs (λ r. refl)

  last_row-ends : (r : Run) → is_waiting (last_row r) ≡ false
  unfolding last_row
  last_row-ends r =
      let begun = set_run_status i running [] (some start) none db in
      let ended = run_all_devices did (devices_of i begun) begun in
      ground (arith, aggregate-done c (devices_of i ended))

  last_row-id : (r : Run) → (last_row r).id ≡ r.id
  unfolding last_row
  last_row-id r = refl

  -- The queue is one shorter.
  execute_shortens :
      (is : List Text)
      → has_no_repeat (map (λ r. r.id) db.runs) ≡ true
      → queued_run_ids db ≡ i ∷ is
      → Settles db (execute did c start fin i db)
        × (length (select is_queued (execute did c start fin i db).runs)
            < length (select is_queued db.runs))
  execute_shortens is keys e =
      let there = head_queued i is db e in
      let (run, found, waits) = found_queued i db.runs keys there in
      let rows =
        execute-runs did c start fin i db run (get_run-found i db run found) waits ∙ closed_rows in
      let shorter =
        update_one_less (λ r. r.id == i) last_row last_row-ends last_row-id db.runs there in
      let p = λ (r : Run). r.id == i in
      let count = ap (λ rs. length (select is_queued rs)) rows in
      (
        record {
          ids = ap (map (λ r. r.id)) rows ∙ update_ids p last_row last_row-ends last_row-id db.runs;
          running_ended = λ h.
              ap (any is_running) rows
              ∙ update_running p last_row last_row-ends last_row-id db.runs h;
          queued_le = omega (arith, count, shorter);
        },
        omega (arith, count, shorter),
      )

recover_run-Settles : (fin : ℕ) (i batch : Text) (db : Db) → Settles db (recover_run fin i batch db)
unfolding marked set_run_status fail_run_devices_not_done
recover_run-Settles fin i batch db =
    let p = λ (r : Run). r.id == i in
    let f = λ (r : Run). record r {
      status = error;
      detail = restarted;
      started_at = coalesce none r.started_at;
      finished_at = coalesce (some fin) r.finished_at;
    } in
    let rows : (recover_run fin i batch db).runs ≡ update_where p f db.runs =
      recover_run-frame fin i batch db in
    let count = ap (λ rs. length (select is_queued rs)) rows in
    record {
      ids = ap (map (λ r. r.id)) rows ∙ update_ids p f (λ r. refl) (λ r. refl) db.runs;
      running_ended =
          λ h. ap (any is_running) rows ∙ update_running p f (λ r. refl) (λ r. refl) db.runs h;
      queued_le = omega (arith, count, update_queued p f (λ r. refl) (λ r. refl) db.runs);
    }

recover_all-Settles :
    (fin : ℕ) (os : List (Text × Text)) (db : Db) → Settles db (recover_all fin os db)
unfolding recover_all
recover_all-Settles fin [] db = record {
  ids = refl;
  running_ended = λ h. h;
  queued_le = omega arith;
}
recover_all-Settles fin ((i, batch) ∷ os) db =
    let first = recover_run-Settles fin i batch db in
    let rest = recover_all-Settles fin os (recover_run fin i batch db) in
    record {
      ids = rest.ids ∙ first.ids;
      running_ended = λ h. rest.running_ended (first.running_ended h);
      queued_le = omega (arith, rest.queued_le, first.queued_le);
    }

recovered : (fin : ℕ) (db : Db) → Settles db (recover fin db)
unfolding recover
recovered fin db = recover_all-Settles fin (orphan_runs db) db

none_counted : (rs : List Run) → length (select is_queued rs) ≤ 0 → any is_queued rs ≡ false
none_counted [] h = refl
none_counted (r ∷ rs) h = ground (arith, none_counted rs)

none_waiting :
    (rs : List Run)
    → any is_queued rs ≡ false
    → any is_running rs ≡ false
    → any is_waiting rs ≡ false
none_waiting [] h k = refl
none_waiting (r ∷ rs) h k = ground (arith, none_waiting rs)

drain_queue-settled :
    (turns : List Turn) (db : Db)
    → has_no_repeat (map (λ r. r.id) db.runs) ≡ true
    → any is_running db.runs ≡ false
    → all (λ t. not t.is_stopped) turns ≡ true
    → length (select is_queued db.runs) ≤ length turns
    → any is_waiting (drain_queue turns db).runs ≡ false
unfolding drain_queue
drain_queue-settled [] db keys h alive enough = none_waiting db.runs (none_counted db.runs enough) h
drain_queue-settled (t ∷ ts) db keys h alive enough =
    of_queue (queued_run_ids db) refl
      (λ db' k h' le. drain_queue-settled ts db' k h' (ground arith) le)
  where
    of_queue :
        (q : List Text)
        → queued_run_ids db ≡ q
        → ((db' : Db)
            → has_no_repeat (map (λ r. r.id) db'.runs) ≡ true
            → any is_running db'.runs ≡ false
            → length (select is_queued db'.runs) ≤ length ts
            → any is_waiting (drain_queue ts db').runs ≡ false)
        → any is_waiting
            (let db' : Db = elim q [
              | [] ↦ db
              | i ∷ is ↦
                  if t.is_stopped
                  then db
                  else drain_queue ts (execute t.did t.is_canceled t.start t.fin i db)
            ] in
              db').runs
          ≡ false
    of_queue [] e next = none_waiting db.runs (none_queued db e) h
    of_queue (i ∷ is) e next =
        let on : t.is_stopped ≡ false = ground arith in
        let (S, less) = execute_shortens t.did t.is_canceled t.start t.fin i db is keys e in
        rw on (
          next (execute t.did t.is_canceled t.start t.fin i db) (ap has_no_repeat S.ids ∙ keys)
            (S.running_ended h) (omega (arith, less)))

-- What Run does before its first wait leaves no run that is queued or running: those of a process
-- that died are ended, and the queue is worked off. The runs have different ids, the context does
-- not end, and the turns of the loop are as many as the runs that are queued.
pub start_up-settled :
    (fin : ℕ) (turns : List Turn) (db : Db)
    → has_no_repeat (map (λ r. r.id) db.runs) ≡ true
    → all (λ t. not t.is_stopped) turns ≡ true
    → length (select is_queued db.runs) ≤ length turns
    → any is_waiting (start_up fin turns db).runs ≡ false
unfolding start_up
start_up-settled fin turns db keys alive enough =
    let S = recovered fin db in
    drain_queue-settled turns (recover fin db) (ap has_no_repeat S.ids ∙ keys)
      (recover-running fin db) alive (omega (arith, S.queued_le))
