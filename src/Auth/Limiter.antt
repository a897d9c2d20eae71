-- ===== src/Auth/Limiter.antt =====
-- The limiter of failed logins.
use poligon.Base.{
  Bool, List, Option, Text, [], ap, arith, false, get, get-put, if◌then◌else◌, leb, ltb, none, not,
  put, refl, remove, select, some, ℕ, ◌&&◌, ◌*◌, ◌+◌, ◌==◌, ◌∙◌, ◌∷◌, ◌≡◌,
}
use poligon.Model.{minute}

pub record Bucket : Type 0 where
  pub fails : ℕ
  pub until : ℕ
  pub seen : ℕ

abbrev pub max_login_fails : ℕ
max_login_fails = 5

abbrev pub lock_window : ℕ
lock_window = 15 * minute

unfoldable pub blocked : ℕ → Text → List (Text × Bucket) → Bool
blocked now key l = elim (get key l) [ none ↦ false | some b ↦ ltb now b.until ]

-- One more failure, on a bucket that is made if there is none.
unfoldable pub count_fail : ℕ → Option Bucket → Bucket
count_fail now none = record { fails = 1; until = 0; seen = now }
count_fail now (some b) =
    if leb max_login_fails (b.fails + 1)
    then record { fails = 0; until = now + lock_window; seen = now }
    else record b { fails = b.fails + 1; seen = now }

unfoldable pub fail : ℕ → Text → List (Text × Bucket) → List (Text × Bucket)
fail now key l = put key (count_fail now (get key l)) l

unfoldable pub succeed : Text → List (Text × Bucket) → List (Text × Bucket)
succeed key l = remove key l

-- One tick of the cleaner.
unfoldable pub gc : ℕ → List (Text × Bucket) → List (Text × Bucket)
gc now l = select (λ e. not (ltb ((e.1).seen + lock_window) now && ltb (e.1).until now)) l

-- Failures of one key, at the given times.
unfoldable pub fail_all : List ℕ → Text → List (Text × Bucket) → List (Text × Bucket)
fail_all [] key l = l
fail_all (t ∷ ts) key l = fail_all ts key (fail t key l)

-- A login of another key changes nothing for a key.
pub blocked-fail_other :
    (now t : ℕ) (key other_key : Text) (l : List (Text × Bucket))
    → (other_key == key) ≡ false
    → blocked now key (fail t other_key l) ≡ blocked now key l
unfolding blocked fail
blocked-fail_other now t key other_key l h =
    ground (arith, get-put key other_key (count_fail t (get other_key l)) l)

get-fail :
    (t : ℕ) (key : Text) (l : List (Text × Bucket))
    → get key (fail t key l) ≡ some (count_fail t (get key l))
unfolding fail
get-fail t key l = ground (arith, get-put key key (count_fail t (get key l)) l)

-- The bucket of a key after some failures.
abbrev count_all : List ℕ → Option Bucket → Option Bucket
count_all [] b = b
count_all (t ∷ ts) b = count_all ts (some (count_fail t b))

get-fail_all :
    (ts : List ℕ) (key : Text) (l : List (Text × Bucket))
    → get key (fail_all ts key l) ≡ count_all ts (get key l)
unfolding fail_all
get-fail_all [] key l = refl
get-fail_all (t ∷ ts) key l =
    get-fail_all ts key (fail t key l) ∙ ap (count_all ts) (get-fail t key l)

-- A key that has no bucket is open after four failures, and the fifth locks it until 15 minutes after
-- that failure.
blocked-fifth :
    (now a b c d e : ℕ) (key : Text) (l : List (Text × Bucket))
    → get key l ≡ none
    → (blocked now key (fail_all (a ∷ b ∷ c ∷ d ∷ []) key l) ≡ false)
      × (blocked now key (fail_all (a ∷ b ∷ c ∷ d ∷ e ∷ []) key l) ≡ ltb now (e + lock_window))
unfolding blocked count_fail
blocked-fifth now a b c d e key l h = (
  ground (arith, get-fail_all (a ∷ b ∷ c ∷ d ∷ []) key l),
  ground (arith, get-fail_all (a ∷ b ∷ c ∷ d ∷ e ∷ []) key l),
)
