-- ===== src/Watchdog/Restarts.antt =====
-- cmd/poligon/adbguard.go: how often the adb server is restarted.
use mathlib.Core.List.{append-nil}
use poligon.Base.{
  List, Option-cases, Text, [], ap, arith, inl, inr, map, refl, subst, ℕ, ◌*◌, ◌++◌, ◌+◌, ◌∙◌, ◌∷◌,
  ◌≡◌, ◌≤◌,
}
use poligon.Model.{second}
use poligon.Watchdog.{
  AdbAnswers, HealState, ScreenAnswers, Tick, Watchdog, check, heal_rows, kept_restarts,
  new_adb_guard, restart_screen, restart_window, run_ticks, tick,
}
use poligon.Watchdog.Attempts.{
  Ticked, calm, check-Ticked, count_in-kept, refused, restart_times, restart_times-append,
  restart_times-screens, restarted, restarts_at, restarts_at-append,
}
use poligon.Watchdog.Windows.{TicksFrom, count_in, count_in-append, count_in-length, ticked}

count_in_kept-le :
    (from now : ℕ) (ts : List ℕ)
    → count_in restart_window from (kept_restarts now ts) ≤ count_in restart_window from ts
count_in_kept-le from now [] = omega arith
count_in_kept-le from now (t ∷ ts) = ground (arith, count_in_kept-le from now ts)

count-step :
    {now : ℕ} {old new ts : List ℕ} (from rest : ℕ)
    → Ticked now old new ts
    → (count_in restart_window from new ≤ 3 → count_in restart_window from new + rest ≤ 3)
    → (from + restart_window ≤ now → rest ≡ 0)
    → count_in restart_window from old ≤ 3
    → count_in restart_window from old + (count_in restart_window from ts + rest) ≤ 3
count-step from rest calm next late h = omega (arith, next h)
count-step {now} {old} from rest refused next late h =
    ground (arith, count_in_kept-le from now old, count_in-kept from now old)
count-step {now} {old} from rest (restarted room) next late h = ground (
  arith,
  count_in-append restart_window from (kept_restarts now old) (now ∷ []),
  count_in-length restart_window from (kept_restarts now old),
  count_in-kept from now old,
)

-- A tick of the watchdog restarts what its guard does.
tick-guard :
    (now : ℕ) (a : AdbAnswers) (sa : ScreenAnswers) (w : Watchdog)
    → ((tick now a sa w).0.guard ≡ (check now a w.guard).0.0)
      × (restarts_at now (tick now a sa w).1 ≡ restarts_at now (check now a w.guard).1)
unfolding tick
tick-guard now a sa w = elim (Option-cases sa.rows) [
  | inl e ↦ rw e (refl, refl)
  | inr (rows, e) ↦ rw e (
    refl,
    restarts_at-append now (check now a w.guard).1
          (map restart_screen (heal_rows now sa rows w.heal).1)
        ∙ ap (λ l. restarts_at now (check now a w.guard).1 ++ l)
            (restart_times-screens now (heal_rows now sa rows w.heal).1)
        ∙ append-nil (restarts_at now (check now a w.guard).1),
  )
]

run_ticks-cons :
    (from : ℕ) (k : Tick) (ks : List Tick) (w : Watchdog)
    → count_in restart_window from (restart_times (run_ticks (k ∷ ks) w))
      ≡ count_in restart_window from (restarts_at k.now (check k.now k.adb w.guard).1)
        + count_in restart_window from (restart_times (run_ticks ks (ticked k w)))
unfolding run_ticks
run_ticks-cons from k ks w =
    let acts = (tick k.now k.adb k.ios w).1 in
    let rest = run_ticks ks (ticked k w) in
    ap (count_in restart_window from) (restart_times-append (map (λ x. (k.now, x)) acts) rest)
    ∙ count_in-append restart_window from (restarts_at k.now acts) (restart_times rest)
    ∙ ap (λ l. count_in restart_window from l + count_in restart_window from (restart_times rest))
        (tick-guard k.now k.adb k.ios w).1

count-late :
    {now : ℕ} {old new ts : List ℕ} (from : ℕ)
    → Ticked now old new ts
    → from + restart_window ≤ now
    → count_in restart_window from ts ≡ 0
count-late from calm h = refl
count-late from refused h = refl
count-late from (restarted room) h = ground (arith, h)

run_ticks-late :
    (from now : ℕ) (ks : List Tick) (w : Watchdog)
    → TicksFrom now ks
    → from + restart_window ≤ now
    → count_in restart_window from (restart_times (run_ticks ks w)) ≡ 0
run_ticks-late from now [] w t h = unfold run_ticks in refl
run_ticks-late from now (k ∷ ks) w t h = omega (
  arith,
  run_ticks-cons from k ks w,
  count-late from (check-Ticked k.now k.adb w.guard) (omega (arith, t.0)),
  run_ticks-late from k.now ks (ticked k w) t.1 (omega (arith, t.0)),
)

run_ticks-count :
    (from now : ℕ) (ks : List Tick) (w : Watchdog)
    → TicksFrom now ks
    → count_in restart_window from w.guard.restarts ≤ 3
    → count_in restart_window from w.guard.restarts
        + count_in restart_window from (restart_times (run_ticks ks w))
      ≤ 3
run_ticks-count from now [] w t h = unfold run_ticks in omega arith
run_ticks-count from now (k ∷ ks) w t h =
    let rest = count_in restart_window from (restart_times (run_ticks ks (ticked k w))) in
    let same : (ticked k w).guard ≡ (check k.now k.adb w.guard).0.0 =
      (tick-guard k.now k.adb k.ios w).0 in
    rw (run_ticks-cons from k ks w) (
      count-step from rest (check-Ticked k.now k.adb w.guard)
        (subst
          (λ g.
            count_in restart_window from g.restarts ≤ 3
            → count_in restart_window from g.restarts + rest ≤ 3)
          same (run_ticks-count from k.now ks (ticked k w) t.1))
        (run_ticks-late from k.now ks (ticked k w) t.1) h)

-- However the machine answers, the adb server is restarted at most three times in any half hour, from
-- the start of the watchdog on. The clock does not run backwards.
pub restarts_le :
    (from : ℕ) (ks : List Tick) (heals : List (Text × HealState))
    → TicksFrom 0 ks
    → count_in
        (30 * 60 * second)
        from
        (restart_times (run_ticks ks (record { guard = new_adb_guard; heal = heals })))
      ≤ 3
restarts_le from ks heals t = omega (
  arith,
  run_ticks-count from 0 ks (record { guard = new_adb_guard; heal = heals }) t (omega arith),
)
