-- ===== src/Runner/Queue.antt =====
-- internal/runner/runner.go: Run up to its first wait, and drainQueue.
use poligon.Base.{
  ==-refl, ==_eq, Bool, Bool-cases, List, Text, [], any, any-cong, any-map, any-order_by,
  any-select, ap, arith, false, find_first, if◌then◌else◌, inl, inr, leb, length, map, mem,
  order_by, refl, select, some, subst, sym, true, update_where, ℕ, ◌&&◌, ◌<◌, ◌==◌, ◌||◌, ◌∙◌, ◌∷◌,
  ◌≡◌, ◌≤◌,
}
use poligon.Model.{Run, RunStatus, queued}
use poligon.Reserve.Booking.{has_no_repeat}
use poligon.Runner.Closing.{is_running}
use poligon.Runner.Execute.{Outcome, execute, recover}
use poligon.Store.{Db}
use poligon.Store.Runs.{queued_run_ids, status_is}

-- One turn of the loop: whether the context has ended before it, and what the run that it executes
-- meets.
pub record Turn : Type 0 where
  pub is_stopped : Bool
  pub did : Text → Outcome
  pub is_canceled : Bool
  pub start : ℕ
  pub fin : ℕ

-- drainQueue, for as many turns as are listed.
unfoldable pub drain_queue : List Turn → Db → Db
drain_queue [] db = db
drain_queue (t ∷ ts) db = elim (queued_run_ids db) [
  | [] ↦ db
  | i ∷ is ↦
      if t.is_stopped then db else drain_queue ts (execute t.did t.is_canceled t.start t.fin i db)
]

-- Run: what the process before left running, then the queue.
unfoldable pub start_up : ℕ → List Turn → Db → Db
unfolding drain_queue
start_up fin turns db = drain_queue turns (recover fin db)

abbrev pub is_queued : Run → Bool
is_queued r = status_is queued r.status

abbrev pub is_waiting : Run → Bool
is_waiting r = is_queued r || is_running r

-- Rows that may only lose the status of a run that waits.
module _ (p : Run → Bool) (f : Run → Run) (ends : (r : Run) → is_waiting (f r) ≡ false)
    (keeps : (r : Run) → (f r).id ≡ r.id) where
  pub update_ids : (rs : List Run) → map (λ r. r.id) (update_where p f rs) ≡ map (λ r. r.id) rs
  update_ids [] = refl
  update_ids (r ∷ rs) = ground (arith, keeps r, update_ids rs)

  pub update_running :
      (rs : List Run) → any is_running rs ≡ false → any is_running (update_where p f rs) ≡ false
  update_running [] h = refl
  update_running (r ∷ rs) h = ground (arith, ends r, update_running rs)

  pub update_queued :
      (rs : List Run)
      → length (select is_queued (update_where p f rs)) ≤ length (select is_queued rs)
  update_queued [] = omega arith
  update_queued (r ∷ rs) = ground (arith, ends r, update_queued rs)

  pub update_one_less :
      (rs : List Run)
      → any (λ r. p r && is_queued r) rs ≡ true
      → length (select is_queued (update_where p f rs)) < length (select is_queued rs)
  update_one_less [] h = absurd (ground arith)
  update_one_less (r ∷ rs) h = ground (arith, ends r, update_queued rs, update_one_less rs)

pub update_twice :
    (p : Run → Bool) (f g : Run → Run) (rs : List Run)
    → ((r : Run) → p (f r) ≡ p r)
    → update_where p g (update_where p f rs) ≡ update_where p (λ r. g (f r)) rs
update_twice p f g [] h = refl
update_twice p f g (r ∷ rs) h = ground (arith, h r, update_twice p f g rs h)

is_queued-eq : (st : RunStatus) → status_is queued st ≡ true → st ≡ queued
is_queued-eq queued h = refl
is_queued-eq _ h = absurd (ground arith)

any_absent :
    (i : Text) (rs : List Run)
    → mem i (map (λ r. r.id) rs) ≡ false
    → any (λ r. r.id == i && is_queued r) rs ≡ false
any_absent i [] h = refl
any_absent i (r ∷ rs) h = ground (arith, any_absent i rs)

-- With unique ids, the row of a queued id is the one that is found.
pub found_queued :
    (i : Text) (rs : List Run)
    → has_no_repeat (map (λ r. r.id) rs) ≡ true
    → any (λ r. r.id == i && is_queued r) rs ≡ true
    → (r : Run) × (find_first (λ r. r.id == i) rs ≡ some r) × (r.status ≡ queued)
found_queued i [] k h = absurd (ground arith)
found_queued i (r ∷ rs) k h = elim (Bool-cases (r.id == i)) [
  | inl e ↦
      let same = ==_eq r.id i e in
      let alone : mem i (map (λ r. r.id) rs) ≡ false =
        subst (λ j. mem j (map (λ r. r.id) rs) ≡ false) same (ground arith) in
      (r, rw e, is_queued-eq r.status (ground (arith, any_absent i rs alone)))
  | inr e ↦
      let (found, f, q) = found_queued i rs (ground arith) (ground arith) in (found, rw e f, q)
]

pub head_queued :
    (i : Text) (is : List Text) (db : Db)
    → queued_run_ids db ≡ i ∷ is
    → any (λ r. r.id == i && is_queued r) db.runs ≡ true
unfolding queued_run_ids
head_queued i is db e =
    let le = λ (a b : Run). leb a.created_at b.created_at in
    let there = ap (mem i) e in
    let mapped =
      any-map (λ j. j == i) (λ (r : Run). r.id) (order_by le (select is_queued db.runs)) in
    let ordered = any-order_by le (λ (r : Run). r.id == i) (select is_queued db.runs) in
    let chosen = any-select is_queued (λ (r : Run). r.id == i) db.runs in
    let turned =
      any-cong (λ (r : Run). r.id == i && is_queued r) (λ r. is_queued r && r.id == i) db.runs
        (λ r. ground arith) in
    ground (arith, there, mapped, ordered, chosen, turned, ==-refl i)

pub none_queued : (db : Db) → queued_run_ids db ≡ [] → any is_queued db.runs ≡ false
unfolding queued_run_ids
none_queued db e =
    let le = λ (a b : Run). leb a.created_at b.created_at in
    let mapped =
      any-map {B = Text} (λ _. true) (λ (r : Run). r.id) (order_by le (select is_queued db.runs)) in
    let ordered = any-order_by le (λ (r : Run). true) (select is_queued db.runs) in
    let chosen = any-select is_queued (λ (r : Run). true) db.runs in
    let same = any-cong (λ r. is_queued r) (λ r. is_queued r && true) db.runs (λ r. ground arith) in
    same ∙ sym chosen ∙ sym ordered ∙ sym mapped ∙ ap (any (λ (j : Text). true)) e
