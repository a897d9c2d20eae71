-- ===== src/Runner/Holding.antt =====
-- internal/runner/runner.go: whose devices Submit takes.
use poligon.Base.{
  Bool, List, Text, [], any, arith, false, if◌then◌else◌, inl, inr, ltb, none, not, refl, some,
  true, ℕ, ◌&&◌, ◌==◌, ◌||◌, ◌∷◌, ◌≡◌, ◌⊎◌,
}
use poligon.Reserve.{Manager, holder, is_held}
use poligon.Runner.{Holds, RunError, acquire, count_holds, counts, mixed_hold, other, reserved_by}
use poligon.Store.{Db}

-- How a device is held, as seen by a user.
abbrev pub is_mine : Text → Db → Text → Bool
is_mine user db i = elim (holder i db) [ none ↦ false | some r ↦ r.user == user ]

abbrev pub is_of_another : Text → Db → Text → Bool
is_of_another user db i = elim (holder i db) [ none ↦ false | some r ↦ not (r.user == user) ]

abbrev Counted : Text → Db → List Text → Holds → Type 0
Counted user db is (counts h f) =
    (any (is_of_another user db) is ≡ false)
    × (ltb 0 h ≡ any (is_mine user db) is)
    × (ltb 0 f ≡ any (λ i. not (is_held i db)) is)
Counted user db is (other u) = any (is_of_another user db) is ≡ true

count_holds-Counted :
    (user : Text) (is : List Text) (db : Db) → Counted user db is (count_holds user is db)
unfolding count_holds is_held
count_holds-Counted user [] db = (refl, refl, refl)
count_holds-Counted user (i ∷ is) db = ground (arith, count_holds-Counted user is db)

abbrev pub is_reserved : Text ⊎ RunError → Bool
is_reserved (inr (reserved_by u)) = true
is_reserved _ = false

abbrev pub is_mixed : Text ⊎ RunError → Bool
is_mixed (inr mixed_hold) = true
is_mixed _ = false

-- Submit refuses the devices as somebody else's exactly when one of them is; it refuses them as a
-- mix exactly when otherwise some are the caller's and some are free; and if all are the caller's,
-- it borrows them, which changes nothing.
pub acquire-holds :
    (m : Manager) (now : ℕ) (batch user : Text) (is : List Text) (db : Db)
    → (is_reserved (acquire m now batch user is db).1 ≡ any (is_of_another user db) is)
      × (is_mixed (acquire m now batch user is db).1 ≡ (
          not (any (is_of_another user db) is)
          && any (is_mine user db) is
          && any (λ i. not (is_held i db)) is))
      × ((if any (is_of_another user db) is || any (λ i. not (is_held i db)) is
            then (db, inl [])
            else acquire m now batch user is db)
          ≡ (db, inl []))
unfolding acquire
acquire-holds m now batch user is db = (
  ground (arith, count_holds-Counted user is db),
  ground (arith, count_holds-Counted user is db),
  ground (arith, count_holds-Counted user is db),
)
