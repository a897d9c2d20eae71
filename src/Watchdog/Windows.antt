-- ===== src/Watchdog/Windows.antt =====
-- Times in a window, and the ticks of a clock.
use poligon.Base.{
  Bool, List, [], ap, arith, leb, length, length-append, ltb, select, select-append, ℕ, ◌&&◌, ◌++◌,
  ◌+◌, ◌∙◌, ◌∷◌, ◌≡◌, ◌≤◌,
}
use poligon.Watchdog.{Tick, Watchdog, tick}

-- Whether a time lies in the window of a width that starts at `from`.
abbrev pub in_window : ℕ → ℕ → ℕ → Bool
in_window width from t = leb from t && ltb t (from + width)

abbrev pub count_in : ℕ → ℕ → List ℕ → ℕ
count_in width from ts = length (select (in_window width from) ts)

-- The clock does not run backwards.
abbrev pub TicksFrom : ℕ → List Tick → Type 0
TicksFrom t [] = Unit
TicksFrom t (k ∷ ks) = (t ≤ k.now) × TicksFrom k.now ks

-- The rest of the ticks after the first.
abbrev pub ticked : Tick → Watchdog → Watchdog
ticked k w = (tick k.now k.adb k.ios w).0

pub count_in-append :
    (width from : ℕ) (xs ys : List ℕ)
    → count_in width from (xs ++ ys) ≡ count_in width from xs + count_in width from ys
count_in-append width from xs ys =
    ap length (select-append (in_window width from) xs ys)
    ∙ length-append (select (in_window width from) xs) (select (in_window width from) ys)

pub count_in-length : (width from : ℕ) (ts : List ℕ) → count_in width from ts ≤ length ts
count_in-length width from [] = omega arith
count_in-length width from (t ∷ ts) = ground (arith, count_in-length width from ts)
