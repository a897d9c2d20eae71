-- ===== src/Watchdog/Budget.antt =====
-- cmd/poligon/watchdog.go: what one tick does to the count of restarts of a screen.
use poligon.Base.{
  ==-refl, ==_eq, Bool, Bool-cases, List, Option, Option-cases, Text, [], ap, arith, false, get,
  get-put, if◌then◌else◌, inl, inr, is_empty, leb, length, none, not, put, refl, select, some,
  subst, sym, true, ℕ, ◌&&◌, ◌++◌, ◌+◌, ◌-◌, ◌<◌, ◌==◌, ◌∷◌, ◌≡◌, ◌≤◌,
}
use poligon.Watchdog.{
  HealState, ScreenAnswers, heal_of, heal_one, heal_row, heal_rows, heal_window, is_healthy,
  slide_window,
}

-- What is left of the restarts in the window of `from`, in which a count is reset once.
abbrev pub budget : ℕ → Option HealState → ℕ
budget from none = 6
budget from (some hs) = (if leb from hs.window_start then 3 else 6) - hs.heal_count

abbrev pub IsCapped : Option HealState → Type 0
IsCapped none = Unit
IsCapped (some hs) = hs.heal_count ≤ 3

abbrev one_if : Bool → ℕ
one_if true = 1
one_if false = 0

heal_of-IsCapped :
    (now : ℕ) (i : Text) (heals : List (Text × HealState))
    → IsCapped (get i heals)
    → (heal_of now i heals).heal_count ≤ 3
heal_of-IsCapped now i heals h = elim (Option-cases (get i heals)) [
  | inl e ↦ rw (heal_of, e) (omega arith)
  | inr (hs, e) ↦ rw (heal_of, e) (subst IsCapped e h)
]

heal_of-budget :
    (from now : ℕ) (i : Text) (heals : List (Text × HealState))
    → from ≤ now
    → budget from (some (heal_of now i heals)) ≤ budget from (get i heals)
heal_of-budget from now i heals h = elim (Option-cases (get i heals)) [
  | inl e ↦ rw (heal_of, e) (ground arith)
  | inr (hs, e) ↦ rw (heal_of, e) (ground arith)
]

heal_one-IsCapped :
    (healthy provisioning : Bool) (now : ℕ) (hs : HealState)
    → hs.heal_count ≤ 3
    → (heal_one healthy provisioning now hs).0.heal_count ≤ 3
unfolding heal_one slide_window
heal_one-IsCapped healthy provisioning now hs h = ground arith

heal_one-budget :
    (healthy provisioning : Bool) (from now : ℕ) (hs : HealState)
    → hs.heal_count ≤ 3
    → from ≤ now
    → now < from + heal_window
    → one_if (heal_one healthy provisioning now hs).1
        + budget from (some (heal_one healthy provisioning now hs).0)
      ≤ budget from (some hs)
unfolding heal_one slide_window
heal_one-budget healthy provisioning from now hs c h l = ground arith

-- How often a device is among those restarted.
abbrev pub hits : Text → List Text → ℕ
hits i is = length (select (λ k. k == i) is)

-- What a row leaves of the budget.
abbrev pub Spends :
    ℕ → Text → List (Text × HealState) → List (Text × HealState) × List Text → Type 0
Spends from i heals r =
    IsCapped (get i r.0) × (hits i r.1 + budget from (get i r.0) ≤ budget from (get i heals))

own_row-Spends :
    (from : ℕ) (i : Text) (now : ℕ) (a : ScreenAnswers) (wda : Text)
    (heals : List (Text × HealState))
    → is_empty wda ≡ false
    → from ≤ now
    → now < from + heal_window
    → IsCapped (get i heals)
    → Spends from i heals (heal_row now a (i, wda) heals)
unfolding heal_row
own_row-Spends from i now a wda heals f h l c =
    let hs = heal_of now i heals in
    let healthy = is_healthy now a i wda in
    let r = heal_one healthy (a.is_provisioning i) now hs in
    let capped = heal_of-IsCapped now i heals c in
    let put_here : get i (put i r.0 heals) ≡ some r.0 =
      rw (get-put i i r.0 heals, ==-refl i) refl in
    rw (heal_row, f, put_here)
      (
        heal_one-IsCapped healthy (a.is_provisioning i) now hs capped,
        ground (
          arith,
          ==-refl i,
          heal_one-budget healthy (a.is_provisioning i) from now hs capped h l,
          heal_of-budget from now i heals h,
        ),
      )

heal_row-other :
    (i : Text) (now : ℕ) (a : ScreenAnswers) (j wda : Text) (heals : List (Text × HealState))
    → (j == i && not (is_empty wda)) ≡ false
    → (get i (heal_row now a (j, wda) heals).0 ≡ get i heals)
      × (length (select (λ k. k == i) (heal_row now a (j, wda) heals).1) ≡ 0)
unfolding heal_row
heal_row-other i now a j wda heals e =
    let r = heal_one (is_healthy now a j wda) (a.is_provisioning j) now (heal_of now j heals) in
    (ground (arith, get-put i j r.0 heals), ground arith)

row-Spends :
    (from : ℕ) (i : Text) (now : ℕ) (a : ScreenAnswers) (row : Text × Text)
    (heals : List (Text × HealState))
    → from ≤ now
    → now < from + heal_window
    → IsCapped (get i heals)
    → Spends from i heals (heal_row now a row heals)
row-Spends from i now a (j, wda) heals h l c = elim (Bool-cases (j == i && not (is_empty wda))) [
  | inr e ↦
      let other = heal_row-other i now a j wda heals e in
      (subst IsCapped (sym other.0) c, omega (arith, other.1, ap (budget from) other.0))
  | inl e ↦
      subst (λ j. Spends from i heals (heal_row now a (j, wda) heals))
        (sym (==_eq j i (ground (arith, e))))
        (own_row-Spends from i now a wda heals (ground (arith, e)) h l c)
]

hits-append : (i : Text) (xs ys : List Text) → hits i (xs ++ ys) ≡ hits i xs + hits i ys
hits-append i [] ys = omega arith
hits-append i (x ∷ xs) ys = ground (arith, hits-append i xs ys)

rows-Spends :
    (from : ℕ) (i : Text) (now : ℕ) (a : ScreenAnswers) (rows : List (Text × Text))
    (heals : List (Text × HealState))
    → from ≤ now
    → now < from + heal_window
    → IsCapped (get i heals)
    → Spends from i heals (heal_rows now a rows heals)
unfolding heal_rows
rows-Spends from i now a [] heals h l c = (c, omega arith)
rows-Spends from i now a (row ∷ rows) heals h l c =
    let first = row-Spends from i now a row heals h l c in
    let r = heal_row now a row heals in
    let rest = rows-Spends from i now a rows r.0 h l first.0 in
    (rest.0, omega (arith, first.1, rest.1, hits-append i r.1 (heal_rows now a rows r.0).1))

-- The part of a tick that heals screens.
abbrev pub healed :
    ℕ → ScreenAnswers → List (Text × HealState) → List (Text × HealState) × List Text
healed now a heals = elim a.rows [ none ↦ (heals, []) | some rows ↦ heal_rows now a rows heals ]

pub healed-Spends :
    (from : ℕ) (i : Text) (now : ℕ) (a : ScreenAnswers) (heals : List (Text × HealState))
    → from ≤ now
    → now < from + heal_window
    → IsCapped (get i heals)
    → Spends from i heals (healed now a heals)
healed-Spends from i now a heals h l c = elim (Option-cases a.rows) [
  | inl e ↦ rw e (c, omega arith)
  | inr (rows, e) ↦ rw e (rows-Spends from i now (record a { rows = some rows }) rows heals h l c)
]
