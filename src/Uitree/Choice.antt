-- ===== src/Uitree/Choice.antt =====
-- internal/uitree/uitree.go: which element Find chooses.
use poligon.Base.{
  Bool, Bool-cases, List, Option, Text, [], any, ap, arith, eqb, false, find_first, if◌then◌else◌,
  inl, inr, length, ltb, ltb-length-select, none, not, refl, select, some, sym, true, ℕ, ◌&&◌, ◌∙◌,
  ◌∷◌, ◌≡◌,
}
use poligon.Uitree.{Element, Match, classify, exact, find, is_tappable, misses, partial, pick_from}
use poligon.Uitree.Ranks.{
  first_best, first_best-find_first, gather-select, has_rank, is_exact, is_partial, or_else, rank,
}

abbrev pub chosen : Option (Element × ℕ) → Option Element
chosen none = none
chosen (some (e, n)) = some e

abbrev taps : (Element → Bool) → Element → Bool
taps p e = p e && is_tappable e

abbrev untaps : (Element → Bool) → Element → Bool
untaps p e = p e && not (is_tappable e)

chosen-pick_from :
    (es : List Element)
    → chosen (pick_from es)
      ≡ or_else (find_first is_tappable es) (find_first (λ e. not (is_tappable e)) es)
unfolding pick_from
chosen-pick_from [] = refl
chosen-pick_from (e ∷ es) = ground arith

find_first-select :
    (p q : Element → Bool) (es : List Element)
    → find_first q (select p es) ≡ find_first (λ e. p e && q e) es
find_first-select p q [] = refl
find_first-select p q (e ∷ es) = ground (arith, find_first-select p q es)

find_first-cong :
    (p q : Element → Bool) (es : List Element)
    → ((e : Element) → p e ≡ q e)
    → find_first p es ≡ find_first q es
find_first-cong p q [] h = refl
find_first-cong p q (e ∷ es) h = ground (arith, h e, find_first-cong p q es h)

none_of :
    (p q : Element → Bool) (es : List Element)
    → any p es ≡ false
    → find_first (λ e. p e && q e) es ≡ none
none_of p q [] h = refl
none_of p q (e ∷ es) h = ground (arith, none_of p q es)

some_of :
    (p : Element → Bool) (o : Option Element) (es : List Element)
    → any p es ≡ true
    → or_else (find_first (taps p) es) (or_else (find_first (untaps p) es) o)
      ≡ or_else (find_first (taps p) es) (find_first (untaps p) es)
some_of p o [] h = absurd (ground arith)
some_of p o (e ∷ es) h = ground (arith, some_of p o es)

pick-select :
    (p : Element → Bool) (es : List Element)
    → chosen (pick_from (select p es)) ≡ or_else (find_first (taps p) es) (find_first (untaps p) es)
pick-select p es =
    chosen-pick_from (select p es)
    ∙ ap (λ o. or_else o (find_first (λ e. not (is_tappable e)) (select p es)))
        (find_first-select p is_tappable es)
    ∙ ap (or_else (find_first (taps p) es)) (find_first-select p (λ e. not (is_tappable e)) es)

rank-zero : (k : Match) (e : Element) → eqb (rank k e) 0 ≡ (is_exact k && is_tappable e)
rank-zero exact e = ground arith
rank-zero partial e = ground arith
rank-zero misses e = refl

rank-one : (k : Match) (e : Element) → eqb (rank k e) 1 ≡ (is_exact k && not (is_tappable e))
rank-one exact e = ground arith
rank-one partial e = ground arith
rank-one misses e = refl

rank-two : (k : Match) (e : Element) → eqb (rank k e) 2 ≡ (is_partial k && is_tappable e)
rank-two exact e = ground arith
rank-two partial e = ground arith
rank-two misses e = refl

rank-three : (k : Match) (e : Element) → eqb (rank k e) 3 ≡ (is_partial k && not (is_tappable e))
rank-three exact e = ground arith
rank-three partial e = ground arith
rank-three misses e = refl

best-four :
    (m : Element → Match) (es : List Element)
    → first_best (λ e. rank (m e) e) es
      ≡ or_else (find_first (taps (λ e. is_exact (m e))) es) (
          or_else (find_first (untaps (λ e. is_exact (m e))) es) (
            or_else
              (find_first (taps (λ e. is_partial (m e))) es)
              (find_first (untaps (λ e. is_partial (m e))) es)))
best-four m es =
    let r : Element → ℕ = λ e. rank (m e) e in
    first_best-find_first r es
    ∙ rw
        (
          find_first-cong (has_rank 0 r) (taps (λ e. is_exact (m e))) es (λ e. rank-zero (m e) e),
          find_first-cong (has_rank 1 r) (untaps (λ e. is_exact (m e))) es (λ e. rank-one (m e) e),
          find_first-cong (has_rank 2 r) (taps (λ e. is_partial (m e))) es (λ e. rank-two (m e) e),
          find_first-cong (has_rank 3 r) (untaps (λ e. is_partial (m e))) es
              (λ e. rank-three (m e) e),
        )
        refl

chosen-gather :
    (m : Element → Match) (es : List Element)
    → (let found = select (λ e. is_exact (m e)) es in
        chosen
          (pick_from (if ltb 0 (length found) then found else select (λ e. is_partial (m e)) es)))
      ≡ first_best (λ e. rank (m e) e) es
chosen-gather m es =
    let x : Element → Bool = λ e. is_exact (m e) in
    let p : Element → Bool = λ e. is_partial (m e) in
    let least = best-four m es in
    elim (Bool-cases (any x es)) [
      | inl e ↦
          rw (ltb-length-select x es, e)
            (pick-select x es
              ∙ sym (some_of x (or_else (find_first (taps p) es) (find_first (untaps p) es)) es e)
              ∙ sym least)
      | inr e ↦
          rw (ltb-length-select x es, e)
            (pick-select p es
              ∙ sym (
                  least
                  ∙ ap
                      (λ o. or_else o (
                        or_else (find_first (untaps x) es)
                          (or_else (find_first (taps p) es) (find_first (untaps p) es))))
                      (none_of x is_tappable es e)
                  ∙ ap
                      (λ o. or_else o (or_else (find_first (taps p) es) (find_first (untaps p) es)))
                      (none_of x (λ e. not (is_tappable e)) es e)))
    ]

-- How many elements match, to the code: the exact matches, if there are any, else the partial ones.
abbrev pub match_count : (Element → Match) → List Element → ℕ
match_count m es =
    if any (λ e. is_exact (m e)) es
    then length (select (λ e. is_exact (m e)) es)
    else length (select (λ e. is_partial (m e)) es)

abbrev pub counted : Option (Element × ℕ) → ℕ
counted none = 0
counted (some (e, n)) = n

pick_from-counted : (es : List Element) → counted (pick_from es) ≡ length es
unfolding pick_from
pick_from-counted [] = refl
pick_from-counted (e ∷ es) = ground arith

-- A query by text and id finds the first element of the least rank: an exact match that can be tapped,
-- an exact match, a partial match that can be tapped, a partial match. It also tells how many
-- exact matches there are, or how many partial ones if there is no exact one.
pub find-first_best :
    (norm : Text → Text) (es : List Element) (text id : Text)
    → (let m = classify norm (norm text) (norm id) in
        let found = find norm es (record { index = none; text = text; id = id }) in
        (chosen found ≡ first_best (λ e. rank (m e) e) es) × (counted found ≡ match_count m es))
unfolding find
find-first_best norm es text id =
    let m = classify norm (norm text) (norm id) in
    let x = select (λ e. is_exact (m e)) es in
    let p = select (λ e. is_partial (m e)) es in
    rw (gather-select m es) (
      chosen-gather m es,
      pick_from-counted (if ltb 0 (length x) then x else p)
          ∙ ground (arith, ltb-length-select (λ e. is_exact (m e)) es),
    )
