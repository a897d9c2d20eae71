-- ===== src/Watchdog/Attempts.antt =====
-- cmd/poligon/adbguard.go: what one check does to the restarts that count against the limit.
use mathlib.Core.List.{append-nil}
use poligon.Base.{
  Bool, Bool-cases, List, Text, [], arith, false, if◌then◌else◌, inl, inr, leb, length, map, negsuc,
  not, refl, select, subst, true, ℕ, ℤ, ◌++◌, ◌+◌, ◌<◌, ◌∷◌, ◌≡◌, ◌≤◌,
}
use poligon.Watchdog.{
  Action, AdbAnswers, AdbGuard, check, count_probe, follow_server, has_cause, kept_restarts,
  restart_adb, restart_adb_server, restart_screen, restart_sidecar, restart_window,
}
use poligon.Watchdog.Windows.{count_in}

abbrev pub is_restart : ℕ × Action → Bool
is_restart (t, restart_adb_server) = true
is_restart (t, restart_sidecar) = false
is_restart (t, restart_screen i) = false

-- When the adb server was restarted.
abbrev pub restart_times : List (ℕ × Action) → List ℕ
restart_times acts = map (λ x. x.0) (select is_restart acts)

pub count_in-kept :
    (from now : ℕ) (ts : List ℕ)
    → now < from + restart_window
    → count_in restart_window from ts ≤ count_in restart_window from (kept_restarts now ts)
count_in-kept from now [] h = omega arith
count_in-kept from now (t ∷ ts) h = ground (arith, count_in-kept from now ts h)

pub restart_times-append :
    (xs ys : List (ℕ × Action)) → restart_times (xs ++ ys) ≡ restart_times xs ++ restart_times ys
restart_times-append [] ys = refl
restart_times-append (x ∷ xs) ys = ground (arith, restart_times-append xs ys)

pub restart_times-screens :
    (t : ℕ) (is : List Text) → restart_times (map (λ x. (t, x)) (map restart_screen is)) ≡ []
restart_times-screens t [] = refl
restart_times-screens t (i ∷ is) = ground (arith, restart_times-screens t is)

-- What one tick does: no restart and the list is the old one or what counts of it, or one restart,
-- if fewer than three count.
pub data Ticked : ℕ → List ℕ → List ℕ → List ℕ → Type 0 where
  calm : {now : ℕ} {old : List ℕ} → Ticked now old old []
  refused : {now : ℕ} {old : List ℕ} → Ticked now old (kept_restarts now old) []
  restarted :
      {now : ℕ} {old : List ℕ}
      → length (kept_restarts now old) < 3
      → Ticked now old (kept_restarts now old ++ now ∷ []) (now ∷ [])

restart-Ticked :
    (now : ℕ) (managed : Bool) (g : AdbGuard)
    → Ticked now g.restarts
        (restart_adb now managed g).0.restarts
        (restart_times (map (λ x. (now, x)) (restart_adb now managed g).1))
unfolding restart_adb
restart-Ticked now managed g = elim (Bool-cases managed) [
  | inr e ↦ rw (restart_adb, e) calm
  | inl e ↦ elim (Bool-cases (leb 3 (length (kept_restarts now g.restarts)))) [
    | inl full ↦ rw (restart_adb, e, full) refused
    | inr room ↦ rw (restart_adb, e, room) (restarted (ground (arith, room)))
  ]
]

probe-restarts : (a : AdbAnswers) (g : AdbGuard) → (count_probe a g).0.restarts ≡ g.restarts
unfolding count_probe
probe-restarts a g = ground arith

follow-restarts :
    (servers : List ℕ) (g : AdbGuard) → (follow_server servers g).0.restarts ≡ g.restarts
unfolding follow_server
follow-restarts [] g = refl
follow-restarts (p ∷ []) g = refl
follow-restarts (p ∷ q ∷ ps) g = refl

follow-restart_times :
    (now : ℕ) (servers : List ℕ) (g : AdbGuard)
    → restart_times (map (λ x. (now, x)) (follow_server servers g).1) ≡ []
unfolding follow_server
follow-restart_times now [] g = refl
follow-restart_times now (p ∷ []) g = ground arith
follow-restart_times now (p ∷ q ∷ ps) g = refl

-- The restarts among the actions of one call, each at the time of the call.
abbrev pub restarts_at : ℕ → List Action → List ℕ
restarts_at now acts = restart_times (map (λ x. (now, x)) acts)

pub restarts_at-append :
    (now : ℕ) (xs ys : List Action)
    → restarts_at now (xs ++ ys) ≡ restarts_at now xs ++ restarts_at now ys
restarts_at-append now [] ys = refl
restarts_at-append now (x ∷ xs) ys = ground (arith, restarts_at-append now xs ys)

guarded-Ticked :
    (now : ℕ) (a : AdbAnswers) (g : AdbGuard) (r : AdbGuard × List Action)
    → Ticked now g.restarts r.0.restarts (restarts_at now r.1)
    → Ticked now g.restarts
        (follow_server a.servers r.0).0.restarts
        (restarts_at now (r.1 ++ (follow_server a.servers r.0).1))
guarded-Ticked now a g (g', acts) h =
    rw
      (
        restarts_at-append now acts (follow_server a.servers g').1,
        follow-restarts a.servers g',
        follow-restart_times now a.servers g',
        append-nil (restarts_at now acts),
      )
      h

caused-Ticked :
    (now : ℕ) (managed cause : Bool) (g : AdbGuard)
    → (let r = (if cause then restart_adb now managed g else (g, [])) in
        Ticked now g.restarts r.0.restarts (restarts_at now r.1))
caused-Ticked now managed true g = restart-Ticked now managed g
caused-Ticked now managed false g = calm

listening-Ticked :
    (now : ℕ) (listening : Bool) (g : AdbGuard) (r : (AdbGuard × ℤ) × List Action)
    → Ticked now g.restarts r.0.0.restarts (restarts_at now r.1)
    → (let q = (if not listening then ((g, negsuc 0), []) else r) in
        Ticked now g.restarts q.0.0.restarts (restarts_at now q.1))
listening-Ticked now true g r h = h
listening-Ticked now false g r h = calm

pub check-Ticked :
    (now : ℕ) (a : AdbAnswers) (g : AdbGuard)
    → Ticked now g.restarts (check now a g).0.0.restarts (restarts_at now (check now a g).1)
unfolding check
check-Ticked now a g =
    let g1 = (count_probe a g).0 in
    let r = (if has_cause a g1 then restart_adb now a.managed g1 else (g1, [])) in
    let f = follow_server a.servers r.0 in
    listening-Ticked now a.listening g ((f.0, (count_probe a g).1), r.1 ++ f.1)
      (subst (λ old. Ticked now old f.0.restarts (restarts_at now (r.1 ++ f.1)))
        (probe-restarts a g)
        (guarded-Ticked now a g1 r (caused-Ticked now a.managed (has_cause a g1) g1)))
