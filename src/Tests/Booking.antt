-- ===== src/Tests/Booking.antt =====
-- The reservation theorems at concrete inputs.
use poligon.Base.{
  Text, [], all, codes, false, if◌then◌else◌, is_empty, none, not, refl, some, text_discrete, true,
  ℕ_discrete, ◌&&◌, ◌*◌, ◌+◌, ◌==◌, ◌∷◌, ◌≡◌,
}
use poligon.Reserve.{
  batch_rows, book, check_available, holder, in_batch, insert_reservation, is_held, mine,
  reap_expired, reap_rows, release, release_batch, reserve, reserve_many,
}
use poligon.Reserve.Booking.{
  BookingOutcome, has_no_repeat, has_user, is_available, reserve-outcome, succeeds-reserve,
}
use poligon.Reserve.Ending.{ended_on, may_release, release-effect, release_batch-effect}
use poligon.Reserve.Expiry.{reap_expired-effect, unless_stale}
use poligon.Reserve.Invariant.{reaps, releases, renames, reserves, run_calls, run_calls-IsUnique}
use poligon.Reserve.Many.{ManyOutcome, reserve_many-outcome, succeeds-reserve_many}
use poligon.Reserve.Rows.{IsUnique}
use poligon.Store.{succeeds}
use poligon.Store.Devices.{device}
use poligon.Tests.{alice, bob, farm, hour, lease, leased, leased-IsUnique, manager, pixel, redmi}

run_calls-IsUnique_example : IsUnique (
    run_calls manager
      ((200, reserves (codes "b2") redmi bob)
        ∷ (300, releases pixel bob false)
        ∷ (350, renames redmi (codes "mi"))
        ∷ (400, reaps)
        ∷ [])
      leased)
run_calls-IsUnique_example =
    run_calls-IsUnique manager
      ((200, reserves (codes "b2") redmi bob)
        ∷ (300, releases pixel bob false)
        ∷ (350, renames redmi (codes "mi"))
        ∷ (400, reaps)
        ∷ [])
      leased leased-IsUnique

succeeds-reserve_example :
    succeeds (reserve manager 200 (codes "b2") redmi bob leased).1
    ≡ (is_available redmi leased && has_user bob leased && not (is_held redmi leased))
succeeds-reserve_example = succeeds-reserve manager 200 (codes "b2") redmi bob leased

reserve-outcome_example :
    BookingOutcome 200
      (200 + 4 * hour)
      (codes "b2")
      redmi
      bob
      leased
      (reserve manager 200 (codes "b2") redmi bob leased)
reserve-outcome_example = reserve-outcome manager 200 (codes "b2") redmi bob leased

succeeds-reserve_many_example :
    succeeds (reserve_many manager 200 (codes "b2") (pixel ∷ redmi ∷ []) bob farm).1 ≡ (
      not (is_empty (pixel ∷ redmi ∷ []))
      && has_user bob farm
      && all (λ i. is_available i farm) (pixel ∷ redmi ∷ [])
      && all (λ i. not (is_held i farm)) (pixel ∷ redmi ∷ [])
      && has_no_repeat (pixel ∷ redmi ∷ []))
succeeds-reserve_many_example =
    succeeds-reserve_many manager 200 (codes "b2") (pixel ∷ redmi ∷ []) bob farm

reserve_many-outcome_example :
    ManyOutcome 200
      (200 + 4 * hour)
      (codes "b2")
      (pixel ∷ redmi ∷ [])
      bob
      farm
      (reserve_many manager 200 (codes "b2") (pixel ∷ redmi ∷ []) bob farm)
reserve_many-outcome_example =
    reserve_many-outcome manager 200 (codes "b2") (pixel ∷ redmi ∷ []) bob farm

release-effect_example :
    (succeeds (release pixel alice false leased).1 ≡ may_release pixel alice false leased)
    × ((j : Text)
        → holder j (release pixel alice false leased).0
          ≡ (if j == pixel && may_release pixel alice false leased then none else holder j leased))
    × ((release pixel alice false leased).0
        ≡ (if may_release pixel alice false leased then ended_on pixel leased else leased))
release-effect_example = release-effect pixel alice false leased leased-IsUnique

release_batch-effect_example :
    (succeeds (release_batch mine alice false leased).1
      ≡ not (is_empty (batch_rows mine alice leased)))
    × ((j : Text)
        → holder j (release_batch mine alice false leased).0 ≡ (elim (holder j leased) [
          | none ↦ none
          | some r ↦ if in_batch mine alice r then none else some r
        ]))
release_batch-effect_example = release_batch-effect mine alice leased leased-IsUnique

reap_expired-effect_example :
    holder pixel (reap_expired manager (2 * hour) leased).0
    ≡ unless_stale manager (2 * hour) (holder pixel leased)
reap_expired-effect_example = reap_expired-effect manager (2 * hour) leased leased-IsUnique pixel

leased_holder : holder pixel leased ≡ some lease
unfolding holder text_discrete ℕ_discrete
leased_holder = refl

-- Runs of the code: a booking takes a free phone, a second one of it is refused, and the reaper
-- counts one lease after the idle timeout.
reserve_runs :
    (succeeds (reserve manager 200 (codes "b2") redmi bob leased).1 ≡ true)
    × (succeeds (reserve manager 200 (codes "b2") pixel bob leased).1 ≡ false)
    × ((reap_expired manager (2 * hour) leased).1 ≡ 1)
unfolding reserve reap_expired check_available device book insert_reservation reap_rows release
    text_discrete ℕ_discrete
reserve_runs = (refl, refl, refl)
