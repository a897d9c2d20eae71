-- ===== src/Uitree/Ranks.antt =====
-- internal/uitree/uitree.go: the matches of Find in the order of their ranks.
use poligon.Base.{
  Bool, List, Option, Option-cases, [], ap, arith, eqb, false, find_first, find_first-true,
  if◌then◌else◌, inl, inr, leb, length, ltb, none, refl, select, some, true, ℕ, ◌∙◌, ◌∷◌, ◌≡◌,
}
use poligon.Uitree.{Element, Match, exact, gather, is_tappable, misses, partial}

-- The better the match, the smaller the rank; 4 for none.
abbrev pub rank : Match → Element → ℕ
rank exact e = if is_tappable e then 0 else 1
rank partial e = if is_tappable e then 2 else 3
rank misses e = 4

-- The first element of the least rank below 4.
abbrev pub first_best : (Element → ℕ) → List Element → Option Element
first_best r [] = none
first_best r (e ∷ es) = elim (first_best r es) [
  | none ↦ if ltb (r e) 4 then some e else none
  | some b ↦ if leb (r e) (r b) then some e else some b
]

-- How many elements have a rank of a kind.
abbrev pub count_rank : (ℕ → Bool) → (Element → ℕ) → List Element → ℕ
count_rank p r es = length (select (λ e. p (r e)) es)

abbrev pub is_exact : Match → Bool
is_exact exact = true
is_exact partial = false
is_exact misses = false

abbrev pub is_partial : Match → Bool
is_partial exact = false
is_partial partial = true
is_partial misses = false

pub gather-select :
    (m : Element → Match) (es : List Element)
    → gather m es ≡ (select (λ e. is_exact (m e)) es, select (λ e. is_partial (m e)) es)
unfolding gather
gather-select m [] = refl
gather-select m (e ∷ es) = ground (arith, gather-select m es)

-- The first element that one of four tests accepts, the earlier tests first.
abbrev pub or_else : Option Element → Option Element → Option Element
or_else none o = o
or_else (some e) o = some e

abbrev pub has_rank : ℕ → (Element → ℕ) → Element → Bool
has_rank n r e = eqb (r e) n

abbrev AtRank : ℕ → (Element → ℕ) → Option Element → Type 0
AtRank n r none = Unit
AtRank n r (some b) = r b ≡ n

find_first-AtRank :
    (n : ℕ) (r : Element → ℕ) (es : List Element) → AtRank n r (find_first (has_rank n r) es)
find_first-AtRank n r es = elim (Option-cases (find_first (has_rank n r) es)) [
  | inl e ↦ rw e tt
  | inr (b, e) ↦ rw e (ground (arith, find_first-true (has_rank n r) es b e))
]

best_step :
    (r : Element → ℕ) (e : Element) (o₀ o₁ o₂ o₃ : Option Element)
    → AtRank 0 r o₀
    → AtRank 1 r o₁
    → AtRank 2 r o₂
    → AtRank 3 r o₃
    → (elim (or_else o₀ (or_else o₁ (or_else o₂ o₃))) [
      | none ↦ if ltb (r e) 4 then some e else none
      | some b ↦ if leb (r e) (r b) then some e else some b
    ])
      ≡ or_else (if eqb (r e) 0 then some e else o₀) (
          or_else
            (if eqb (r e) 1 then some e else o₁)
            (or_else (if eqb (r e) 2 then some e else o₂) (if eqb (r e) 3 then some e else o₃)))
best_step r e (some b) o₁ o₂ o₃ h₀ h₁ h₂ h₃ = ground (arith, h₀)
best_step r e none (some b) o₂ o₃ h₀ h₁ h₂ h₃ = ground (arith, h₁)
best_step r e none none (some b) o₃ h₀ h₁ h₂ h₃ = ground (arith, h₂)
best_step r e none none none (some b) h₀ h₁ h₂ h₃ = ground (arith, h₃)
best_step r e none none none none h₀ h₁ h₂ h₃ = ground arith

pub first_best-find_first :
    (r : Element → ℕ) (es : List Element)
    → first_best r es
      ≡ or_else (find_first (has_rank 0 r) es) (
          or_else
            (find_first (has_rank 1 r) es)
            (or_else (find_first (has_rank 2 r) es) (find_first (has_rank 3 r) es)))
first_best-find_first r [] = refl
first_best-find_first r (e ∷ es) =
    ap
      (λ o. elim o [
        | none ↦ if ltb (r e) 4 then some e else none
        | some b ↦ if leb (r e) (r b) then some e else some b
      ])
      (first_best-find_first r es)
    ∙ best_step r e (find_first (has_rank 0 r) es) (find_first (has_rank 1 r) es)
        (find_first (has_rank 2 r) es) (find_first (has_rank 3 r) es) (find_first-AtRank 0 r es)
        (find_first-AtRank 1 r es) (find_first-AtRank 2 r es) (find_first-AtRank 3 r es)
