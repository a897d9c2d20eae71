-- ===== src/Runner/Verdict.antt =====
-- The status of a run against the statuses of its devices.
use poligon.Base.{Bool, List, any, arith, ltb-length-select, not, refl, true, ◌&&◌, ◌||◌, ◌≡◌}
use poligon.Model.{RunDevice, RunStatus, error, failed, passed, skipped}
use poligon.Runner.Execute.{aggregate}
use poligon.Store.Runs.{status_is}

abbrev pub has_status : RunStatus → List RunDevice → Bool
has_status st ds = any (λ d. status_is st d.status) ds

-- A run passes exactly when it was not canceled, no device errored or failed, and a device passed
-- or none was skipped. So a run whose devices were all canceled, or that has no device, passes too.
pub aggregate-passed :
    (canceled_by_caller : Bool) (ds : List RunDevice)
    → status_is passed (aggregate canceled_by_caller ds) ≡ (
        not canceled_by_caller
        && not (has_status error ds)
        && not (has_status failed ds)
        && (has_status passed ds || not (has_status skipped ds)))
unfolding aggregate
aggregate-passed c ds = ground (
  arith,
  ltb-length-select (λ d. status_is error d.status) ds,
  ltb-length-select (λ d. status_is failed d.status) ds,
  ltb-length-select (λ d. status_is passed d.status) ds,
  ltb-length-select (λ d. status_is skipped d.status) ds,
)

pub status_is-passed : (st : RunStatus) → status_is passed st ≡ true → st ≡ passed
status_is-passed passed e = refl
status_is-passed _ e = ground arith
