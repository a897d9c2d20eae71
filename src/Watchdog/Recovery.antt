-- ===== src/Watchdog/Recovery.antt =====
-- cmd/poligon/watchdog.go: a screen that stays down is restarted.
use poligon.Base.{
  ==-refl, List, Text, [], arith, false, get-put, if◌then◌else◌, is_empty, mem, put, refl, true, ℕ,
  ◌<◌, ◌||◌, ◌∷◌, ◌≡◌,
}
use poligon.Watchdog.{
  HealState, ScreenAnswers, heal_of, heal_one, heal_row, is_healthy, slide_window,
}

heal_one-twice :
    (t₁ t₂ : ℕ) (hs : HealState)
    → hs.heal_count < 3
    → ((heal_one false false t₁ hs).1 || (heal_one false false t₂ (heal_one false false t₁ hs).0).1)
      ≡ true
unfolding heal_one slide_window
heal_one-twice t₁ t₂ hs h = ground arith

down_row :
    (i wda : Text) (now : ℕ) (a : ScreenAnswers) (heals : List (Text × HealState))
    → is_empty wda ≡ false
    → is_healthy now a i wda ≡ false
    → a.is_provisioning i ≡ false
    → (let r = heal_one false false now (heal_of now i heals) in
        heal_row now a (i, wda) heals ≡ (put i r.0 heals, if r.1 then i ∷ [] else []))
unfolding heal_row
down_row i wda now a heals f u p = rw (heal_row, f, u, p) refl

heal_of-put :
    (now : ℕ) (i : Text) (hs : HealState) (heals : List (Text × HealState))
    → heal_of now i (put i hs heals) ≡ hs
heal_of-put now i hs heals = rw (heal_of, get-put i i hs heals, ==-refl i) refl

-- The screen of a row is restarted at one of two checks in a row if it is unhealthy at both, no job of
-- provisioning is running for it, and less than three restarts are counted for it.
heal_row-twice :
    (i wda : Text) (t₁ t₂ : ℕ) (a₁ a₂ : ScreenAnswers) (heals : List (Text × HealState))
    → is_empty wda ≡ false
    → is_healthy t₁ a₁ i wda ≡ false
    → is_healthy t₂ a₂ i wda ≡ false
    → a₁.is_provisioning i ≡ false
    → a₂.is_provisioning i ≡ false
    → (heal_of t₁ i heals).heal_count < 3
    → (let first = heal_row t₁ a₁ (i, wda) heals in
        (mem i first.1 || mem i (heal_row t₂ a₂ (i, wda) first.0).1) ≡ true)
heal_row-twice i wda t₁ t₂ a₁ a₂ heals f u₁ u₂ p₁ p₂ c =
    let r = heal_one false false t₁ (heal_of t₁ i heals) in
    rw
      (
        down_row i wda t₁ a₁ heals f u₁ p₁,
        down_row i wda t₂ a₂ (put i r.0 heals) f u₂ p₂,
        heal_of-put t₂ i r.0 heals,
      )
      (ground (arith, ==-refl i, heal_one-twice t₁ t₂ (heal_of t₁ i heals) c))
