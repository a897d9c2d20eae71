-- ===== src/Watchdog/Heals.antt =====
-- cmd/poligon/watchdog.go: how often the screen of a device is restarted.
use poligon.Base.{
  Bool, Bool-cases, List, Option, Option-cases, Text, [], ap, arith, false, get, if◌then◌else◌, inl,
  inr, leb, ltb, map, negsuc, none, not, refl, select, some, subst, sym, true, ℕ, ℤ, ◌*◌, ◌++◌, ◌+◌,
  ◌==◌, ◌∙◌, ◌∷◌, ◌≡◌, ◌≤◌,
}
use poligon.Model.{second}
use poligon.Watchdog.{
  Action, AdbAnswers, AdbGuard, HealState, ScreenAnswers, Tick, Watchdog, check, count_probe,
  follow_server, has_cause, heal_rows, heal_window, restart_adb, restart_adb_server, restart_screen,
  restart_sidecar, run_ticks, tick,
}
use poligon.Watchdog.Budget.{IsCapped, budget, healed, healed-Spends, hits}
use poligon.Watchdog.Windows.{TicksFrom, count_in, count_in-append, in_window, ticked}

abbrev pub is_heal : Text → ℕ × Action → Bool
is_heal i (t, restart_adb_server) = false
is_heal i (t, restart_sidecar) = false
is_heal i (t, restart_screen j) = j == i

-- When the screen of a device was restarted.
abbrev pub heal_times : Text → List (ℕ × Action) → List ℕ
heal_times i acts = map (λ x. x.0) (select (is_heal i) acts)

heals_at : Text → ℕ → List Action → List ℕ
heals_at i now acts = heal_times i (map (λ x. (now, x)) acts)

heals_at-append :
    (i : Text) (now : ℕ) (xs ys : List Action)
    → heals_at i now (xs ++ ys) ≡ heals_at i now xs ++ heals_at i now ys
unfolding heals_at
heals_at-append i now [] ys = refl
heals_at-append i now (x ∷ xs) ys = ground (arith, heals_at-append i now xs ys)

heals_at-screens :
    (i : Text) (from now : ℕ) (is : List Text)
    → count_in heal_window from (heals_at i now (map restart_screen is))
      ≡ (if in_window heal_window from now then hits i is else 0)
unfolding heals_at
heals_at-screens i from now [] = ground arith
heals_at-screens i from now (j ∷ is) = ground (arith, heals_at-screens i from now is)

restart-heals :
    (i : Text) (now : ℕ) (managed cause : Bool) (g : AdbGuard)
    → heals_at i now (if cause then restart_adb now managed g else (g, [])).1 ≡ []
unfolding heals_at restart_adb
restart-heals i now managed cause g = ground arith

follow-heals :
    (i : Text) (now : ℕ) (servers : List ℕ) (g : AdbGuard)
    → heals_at i now (follow_server servers g).1 ≡ []
unfolding heals_at follow_server
follow-heals i now [] g = refl
follow-heals i now (p ∷ []) g = ground arith
follow-heals i now (p ∷ q ∷ ps) g = refl

gate-heals :
    (i : Text) (now : ℕ) (listening : Bool) (g : AdbGuard) (r : (AdbGuard × ℤ) × List Action)
    → heals_at i now r.1 ≡ []
    → heals_at i now (if not listening then ((g, negsuc 0), []) else r).1 ≡ []
unfolding heals_at
gate-heals i now true g r h = h
gate-heals i now false g r h = refl

check-heals :
    (i : Text) (now : ℕ) (a : AdbAnswers) (g : AdbGuard) → heals_at i now (check now a g).1 ≡ []
unfolding check
check-heals i now a g =
    let g1 = (count_probe a g).0 in
    let r = (if has_cause a g1 then restart_adb now a.managed g1 else (g1, [])) in
    let f = follow_server a.servers r.0 in
    gate-heals i now a.listening g ((f.0, (count_probe a g).1), r.1 ++ f.1)
      (heals_at-append i now r.1 f.1
        ∙ ap (λ l. l ++ heals_at i now f.1) (restart-heals i now a.managed (has_cause a g1) g1)
        ∙ follow-heals i now a.servers r.0)

tick-healed :
    (i : Text) (now : ℕ) (a : AdbAnswers) (sa : ScreenAnswers) (w : Watchdog)
    → ((tick now a sa w).0.heal ≡ (healed now sa w.heal).0)
      × (heals_at i now (tick now a sa w).1
          ≡ heals_at i now (map restart_screen (healed now sa w.heal).1))
unfolding tick heals_at
tick-healed i now a sa w = elim (Option-cases sa.rows) [
  | inl e ↦ rw e (refl, check-heals i now a w.guard ∙ refl)
  | inr (rows, e) ↦
      let is = (heal_rows now sa rows w.heal).1 in
      rw e (
        refl,
        heals_at-append i now (check now a w.guard).1 (map restart_screen is)
            ∙ ap (λ l. l ++ heals_at i now (map restart_screen is)) (check-heals i now a w.guard),
      )
]

heal_times-append :
    (i : Text) (xs ys : List (ℕ × Action))
    → heal_times i (xs ++ ys) ≡ heal_times i xs ++ heal_times i ys
heal_times-append i [] ys = refl
heal_times-append i (x ∷ xs) ys = ground (arith, heal_times-append i xs ys)

-- One tick, and the rest of the run.
run-heals :
    (i : Text) (from : ℕ) (k : Tick) (ks : List Tick) (w : Watchdog)
    → count_in heal_window from (heal_times i (run_ticks (k ∷ ks) w))
      ≡ (if in_window heal_window from k.now then hits i (healed k.now k.ios w.heal).1 else 0)
        + count_in heal_window from (heal_times i (run_ticks ks (ticked k w)))
unfolding run_ticks heals_at
run-heals i from k ks w =
    let acts = (tick k.now k.adb k.ios w).1 in
    let is = (healed k.now k.ios w.heal).1 in
    let rest = heal_times i (run_ticks ks (ticked k w)) in
    ap (count_in heal_window from)
      (heal_times-append i (map (λ x. (k.now, x)) acts) (run_ticks ks (ticked k w)))
    ∙ count_in-append heal_window from (heals_at i k.now acts) rest
    ∙ ap (λ l. count_in heal_window from l + count_in heal_window from rest)
        (tick-healed i k.now k.adb k.ios w).1
    ∙ ap (λ n. n + count_in heal_window from rest) (heals_at-screens i from k.now is)

ticked-IsCapped :
    (i : Text) (k : Tick) (w : Watchdog)
    → IsCapped (get i w.heal)
    → IsCapped (get i (ticked k w).heal)
ticked-IsCapped i k w c =
    subst (λ h. IsCapped (get i h)) (sym (tick-healed i k.now k.adb k.ios w).0)
      (healed-Spends k.now i k.now k.ios w.heal (omega arith) (omega arith) c).0

run-late :
    (i : Text) (from now : ℕ) (ks : List Tick) (w : Watchdog)
    → TicksFrom now ks
    → from + heal_window ≤ now
    → count_in heal_window from (heal_times i (run_ticks ks w)) ≡ 0
run-late i from now [] w t h = unfold run_ticks in refl
run-late i from now (k ∷ ks) w t h =
    ground (
      arith,
      run-heals i from k ks w,
      run-late i from k.now ks (ticked k w) t.1 (omega (arith, t.0)),
    )

-- From the start of the window on, the budget is kept.
run-budget :
    (i : Text) (from now : ℕ) (ks : List Tick) (w : Watchdog)
    → TicksFrom now ks
    → from ≤ now
    → IsCapped (get i w.heal)
    → count_in heal_window from (heal_times i (run_ticks ks w)) ≤ budget from (get i w.heal)
run-budget i from now [] w t h c = unfold run_ticks in omega arith
run-budget i from now (k ∷ ks) w t h c = elim (Bool-cases (ltb k.now (from + heal_window))) [
  | inl e ↦
      let step =
        healed-Spends from i k.now k.ios w.heal (omega (arith, t.0)) (ground (arith, e)) c in
      let same = (tick-healed i k.now k.adb k.ios w).0 in
      ground (
        arith,
        run-heals i from k ks w,
        step.1,
        ap (λ h. budget from (get i h)) same,
        run-budget i from k.now ks (ticked k w) t.1 (omega (arith, t.0)) (ticked-IsCapped i k w c),
      )
  | inr e ↦ ground (
    arith,
    run-heals i from k ks w,
    run-late i from k.now ks (ticked k w) t.1 (ground (arith, e)),
  )
]

budget-six : (from : ℕ) (o : Option HealState) → budget from o ≤ 6
budget-six from none = omega arith
budget-six from (some hs) = ground arith

run-heals_le :
    (i : Text) (from now : ℕ) (ks : List Tick) (w : Watchdog)
    → TicksFrom now ks
    → IsCapped (get i w.heal)
    → count_in heal_window from (heal_times i (run_ticks ks w)) ≤ 6
run-heals_le i from now [] w t c = unfold run_ticks in omega arith
run-heals_le i from now (k ∷ ks) w t c = elim (Bool-cases (leb from k.now)) [
  | inl e ↦ omega (
    arith,
    run-budget i from k.now (k ∷ ks) w (omega arith, t.1) (ground (arith, e)) c,
    budget-six from (get i w.heal),
  )
  | inr e ↦ ground (
    arith,
    run-heals i from k ks w,
    run-heals_le i from k.now ks (ticked k w) t.1 (ticked-IsCapped i k w c),
  )
]

-- However the screens and the machine answer, the screen of a device is restarted at most six times in
-- any ten minutes from the start of the watchdog on, three for each window of the code that they
-- meet. The clock does not run backwards.
pub heals_le :
    (i : Text) (from : ℕ) (ks : List Tick) (g : AdbGuard)
    → TicksFrom 0 ks
    → count_in
        (10 * 60 * second)
        from
        (heal_times i (run_ticks ks (record { guard = g; heal = [] })))
      ≤ 6
heals_le i from ks g t = run-heals_le i from 0 ks (record { guard = g; heal = [] }) t tt
