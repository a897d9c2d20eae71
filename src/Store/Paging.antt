-- ===== src/Store/Paging.antt =====
-- internal/store/runs.go: the pages of Runs.
use poligon.Base.{
  ==-refl, ==-sym, All, Bool, List, Text, [], ap, arith, false, find_first, if_keeps, insert_by,
  leb, length, map, mem, order_by, pos, refl, select, some, subst, suc, sym, true, zero, ℕ, ◌*◌,
  ◌++◌, ◌+◌, ◌==◌, ◌∙◌, ◌∷◌, ◌≡◌, ◌≤◌,
}
use poligon.Model.{Run, RunDevice}
use poligon.Reserve.Booking.{has_no_repeat}
use poligon.Store.{Db, Result, err, ok}
use poligon.Store.Listing.{
  RunFilter, first_rows, list_runs, load_runs, matching_rows, page_limit, run_matches, skip_rows,
}
use poligon.Store.Runs.{get_run, get_run-found}

module _ {A : Type 0} (P : A → Type 0) where
  All-select : (q : A → Bool) (xs : List A) → All P xs → All P (select q xs)
  All-select q [] h = tt
  All-select q (x ∷ xs) (h, hs) =
      if_keeps (All P) (q x) (x ∷ select q xs) (select q xs) (h, All-select q xs hs)
        (All-select q xs hs)

  All-insert_by :
      (le : A → A → Bool) (x : A) (xs : List A) → P x → All P xs → All P (insert_by le x xs)
  All-insert_by le x [] h hs = (h, tt)
  All-insert_by le x (y ∷ ys) h (k, ks) =
      if_keeps (All P) (le x y) (x ∷ y ∷ ys) (y ∷ insert_by le x ys) (h, (k, ks))
        (k, All-insert_by le x ys h ks)

  All-order_by : (le : A → A → Bool) (xs : List A) → All P xs → All P (order_by le xs)
  All-order_by le [] h = tt
  All-order_by le (x ∷ xs) (h, hs) = All-insert_by le x (order_by le xs) h (All-order_by le xs hs)

  All-first_rows : (n : ℕ) (xs : List A) → All P xs → All P (first_rows n xs)
  All-first_rows zero xs h = tt
  All-first_rows (suc n) [] h = tt
  All-first_rows (suc n) (x ∷ xs) (h, hs) = (h, All-first_rows n xs hs)

  All-skip_rows : (n : ℕ) (xs : List A) → All P xs → All P (skip_rows n xs)
  All-skip_rows zero xs h = h
  All-skip_rows (suc n) [] h = tt
  All-skip_rows (suc n) (x ∷ xs) (h, hs) = All-skip_rows n xs hs

module _ {A : Type 0} where
  first-skip : (n : ℕ) (xs : List A) → first_rows n xs ++ skip_rows n xs ≡ xs
  first-skip zero xs = refl
  first-skip (suc n) [] = refl
  first-skip (suc n) (x ∷ xs) = ap (λ ys. x ∷ ys) (first-skip n xs)

  skip-nil : (n : ℕ) → skip_rows {A = A} n [] ≡ []
  skip-nil zero = refl
  skip-nil (suc n) = refl

  skip-skip : (m n : ℕ) (xs : List A) → skip_rows n (skip_rows m xs) ≡ skip_rows (m + n) xs
  skip-skip zero n xs = let e : 0 + n ≡ n = omega arith in rw e
  skip-skip (suc m) n [] = skip-nil n ∙ sym (skip-nil (suc m + n))
  skip-skip (suc m) n (x ∷ xs) =
      let e : suc m + n ≡ suc (m + n) = omega arith in rw e (skip-skip m n xs)

  skip-all : (n : ℕ) (xs : List A) → length xs ≤ n → skip_rows n xs ≡ []
  skip-all n [] h = skip-nil n
  skip-all zero (x ∷ xs) h = absurd (omega arith)
  skip-all (suc n) (x ∷ xs) h = skip-all n xs (omega arith)

-- The row that is found by its id.
abbrev IsFound : List Run → Run → Type 0
IsFound rows r = find_first (λ x. x.id == r.id) rows ≡ some r

IsFound-later :
    (x : Run) (rows rs : List Run)
    → mem x.id (map (λ r. r.id) rs) ≡ false
    → All (IsFound rows) rs
    → All (IsFound (x ∷ rows)) rs
IsFound-later x rows [] h g = tt
IsFound-later x rows (r ∷ rs) h (g, gs) =
    (ground (arith, ==-sym x.id r.id), IsFound-later x rows rs (ground arith) gs)

all-IsFound :
    (rows : List Run) → has_no_repeat (map (λ r. r.id) rows) ≡ true → All (IsFound rows) rows
all-IsFound [] h = tt
all-IsFound (r ∷ rows) h =
    (rw (==-refl r.id), IsFound-later r rows rows (ground arith) (all-IsFound rows (ground arith)))

load_runs-found :
    (db : Db) (rs : List Run) → All (IsFound db.runs) rs → load_runs (map (λ r. r.id) rs) db ≡ ok rs
unfolding load_runs get_run
load_runs-found db [] h = refl
load_runs-found db (r ∷ rs) (h, hs) =
    let e : get_run r.id db ≡ ok r = get_run-found r.id db r h in
    ground (arith, e, load_runs-found db rs hs)

-- The pages from one on, put together.
unfoldable pub all_pages :
    (Text → Run → List RunDevice → Bool) → RunFilter → ℕ → ℕ → Db → Result (List Run)
all_pages likes f zero k db = ok []
all_pages likes f (suc n) k db =
    let rest = all_pages likes f n (k + 1) db in
    elim (list_runs likes (record f { offset = pos (k * page_limit f.limit) }) db) [
      | err e ↦ err e
      | ok (rs, total) ↦ elim rest [ err e ↦ err e | ok more ↦ ok (rs ++ more) ]
    ]

list_runs-page :
    (likes : Text → Run → List RunDevice → Bool) (f : RunFilter) (o : ℕ) (db : Db)
    → has_no_repeat (map (λ r. r.id) db.runs) ≡ true
    → list_runs likes (record f { offset = pos o }) db
      ≡ ok (
        first_rows (page_limit f.limit) (skip_rows o (matching_rows likes f db)),
        length (select (run_matches likes f db) db.runs),
      )
unfolding list_runs run_matches
list_runs-page likes f o db keys =
    let rows = matching_rows likes f db in
    let there =
      All-order_by (IsFound db.runs) (λ (a b : Run). leb b.created_at a.created_at) _
        (All-select (IsFound db.runs) (run_matches likes f db) db.runs
          (all-IsFound db.runs keys)) in
    let page = first_rows (page_limit f.limit) (skip_rows o rows) in
    let loaded = load_runs-found db page (
      All-first_rows (IsFound db.runs) (page_limit f.limit) (skip_rows o rows)
        (All-skip_rows (IsFound db.runs) o rows there)) in
    rw (list_runs, loaded)

all_pages-from :
    (likes : Text → Run → List RunDevice → Bool) (f : RunFilter) (n k : ℕ) (db : Db)
    → has_no_repeat (map (λ r. r.id) db.runs) ≡ true
    → length (matching_rows likes f db) ≤ (k + n) * page_limit f.limit
    → all_pages likes f n k db ≡ ok (skip_rows (k * page_limit f.limit) (matching_rows likes f db))
unfolding all_pages
all_pages-from likes f zero k db keys h =
    let z : k + 0 ≡ k = omega arith in
    let e = ap (λ (m : ℕ). m * page_limit f.limit) z in
    rw (
      skip-all (k * page_limit f.limit) (matching_rows likes f db)
        (subst (λ m. length (matching_rows likes f db) ≤ m) e h))
all_pages-from likes f (suc n) k db keys h =
    let l = page_limit f.limit in
    let rows = matching_rows likes f db in
    let z : k + suc n ≡ k + 1 + n = omega arith in
    let e = ap (λ (m : ℕ). m * l) z in
    let dist : k * l + l ≡ (k + 1) * l = omega arith in
    let page = list_runs-page likes f (k * l) db keys in
    let rest = all_pages-from likes f n (k + 1) db keys (subst (λ m. length rows ≤ m) e h) in
    let next : skip_rows l (skip_rows (k * l) rows) ≡ skip_rows ((k + 1) * l) rows =
      skip-skip (k * l) l rows ∙ ap (λ m. skip_rows m rows) dist in
    let whole = first-skip l (skip_rows (k * l) rows) in
    let joined =
      ap (λ (ys : List Run). first_rows l (skip_rows (k * l) rows) ++ ys) (sym next) ∙ whole in
    rw (all_pages, page, rest, joined)

-- For any filter, with any limit: the pages that begin at the multiples of the limit in force, as
-- many as it takes, put together are all the runs that match, each once and newest first. Runs does
-- not fail. The runs have different ids.
pub all_pages-matching :
    (likes : Text → Run → List RunDevice → Bool) (f : RunFilter) (n : ℕ) (db : Db)
    → has_no_repeat (map (λ r. r.id) db.runs) ≡ true
    → length (matching_rows likes f db) ≤ n * page_limit f.limit
    → all_pages likes f n 0 db ≡ ok (matching_rows likes f db)
all_pages-matching likes f n db keys h =
    let z : 0 + n ≡ n = omega arith in
    let e = ap (λ (m : ℕ). m * page_limit f.limit) (sym z) in
    let none_skipped : 0 * page_limit f.limit ≡ 0 = omega arith in
    all_pages-from likes f n 0 db keys (subst (λ m. length (matching_rows likes f db) ≤ m) e h)
    ∙ ap (λ m. ok (skip_rows m (matching_rows likes f db))) none_skipped
