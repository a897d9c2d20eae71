-- ===== src/Store/Listing.antt =====
-- internal/store/runs.go: Runs, which lists the runs that a filter lets through, page by page.
use mathlib.Core.List.{reverse}
use poligon.Base.{
  Bool, List, Text, [], above, codes, eqb, if◌then◌else◌, is_empty, leb, leb_ℤ, length, ltb_ℤ, map,
  mem, not, order_by, pos, select, suc, zero, ℕ, ℤ, ◌&&◌, ◌==◌, ◌||◌, ◌∷◌,
}
use poligon.Model.{
  Run, RunDevice, RunStatus, canceled, error, failed, passed, pending, queued, running, skipped,
}
use poligon.Store.{Db, Result, err, ok}
use poligon.Store.Runs.{get_run}

pub record RunFilter : Type 0 where
  pub status : Text
  pub statuses : List Text
  pub kind : Text
  pub user : Text
  pub search : Text
  pub limit : ℤ
  pub offset : ℤ

abbrev pub run_status_text : RunStatus → Text
run_status_text queued = codes "queued"
run_status_text running = codes "running"
run_status_text passed = codes "passed"
run_status_text failed = codes "failed"
run_status_text error = codes "error"
run_status_text canceled = codes "canceled"
run_status_text pending = codes "pending"
run_status_text skipped = codes "skipped"

abbrev pub page_limit : ℤ → ℕ
page_limit n = if leb_ℤ n (pos 0) || ltb_ℤ (pos 500) n then 50 else above n

abbrev pub is_space : ℕ → Bool
is_space c = eqb c 0x20 || (leb 9 c && leb c 13)

abbrev pub drop_spaces : Text → Text
drop_spaces [] = []
drop_spaces (c ∷ s) = let rest = drop_spaces s in if is_space c then rest else c ∷ s

-- strings.TrimSpace, on ASCII.
unfoldable pub trim_space : Text → Text
trim_space s = reverse (drop_spaces (reverse (drop_spaces s)))

abbrev pub by_status : RunFilter → Run → Bool
by_status f r =
    if not (is_empty f.statuses)
    then mem (run_status_text r.status) f.statuses
    else is_empty f.status || run_status_text r.status == f.status

-- The WHERE clause; whether a row matches a search is asked of SQLite's LIKE.
unfoldable pub run_matches : (Text → Run → List RunDevice → Bool) → RunFilter → Db → Run → Bool
unfolding trim_space
run_matches likes f db r =
    by_status f r
    && (is_empty f.kind || r.kind == f.kind)
    && (is_empty f.user || r.user == f.user)
    && (is_empty (trim_space f.search)
        || likes (trim_space f.search) r (select (λ d. d.run_id == r.id) db.run_devices))

-- LIMIT … OFFSET …
abbrev pub first_rows {ℓ} : {A : Type ℓ} → ℕ → List A → List A
first_rows zero xs = []
first_rows (suc n) [] = []
first_rows (suc n) (x ∷ xs) = x ∷ first_rows n xs

abbrev pub skip_rows {ℓ} : {A : Type ℓ} → ℕ → List A → List A
skip_rows zero xs = xs
skip_rows (suc n) [] = []
skip_rows (suc n) (x ∷ xs) = skip_rows n xs

-- All rows that match, newest first.
abbrev pub matching_rows : (Text → Run → List RunDevice → Bool) → RunFilter → Db → List Run
matching_rows likes f db =
    order_by (λ a b. leb b.created_at a.created_at) (select (run_matches likes f db) db.runs)

-- Each id of the page is loaded again.
unfoldable pub load_runs : List Text → Db → Result (List Run)
load_runs [] db = ok []
load_runs (i ∷ is) db =
    let rest = load_runs is db in
    elim (get_run i db) [ err e ↦ err e | ok r ↦ elim rest [ err e ↦ err e | ok rs ↦ ok (r ∷ rs) ] ]

-- Runs: the page and the number of all matches.
unfoldable pub list_runs :
    (Text → Run → List RunDevice → Bool) → RunFilter → Db → Result (List Run × ℕ)
unfolding load_runs
list_runs likes f db =
    let page =
      first_rows (page_limit f.limit) (skip_rows (above f.offset) (matching_rows likes f db)) in
    elim (load_runs (map (λ r. r.id) page) db) [
      | err e ↦ err e
      | ok rs ↦ ok (rs, length (select (run_matches likes f db) db.runs))
    ]
