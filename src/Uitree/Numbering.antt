-- ===== src/Uitree/Numbering.antt =====
-- internal/uitree/uitree.go: the indexes of elements, which Interesting keeps.
use poligon.Base.{
  All, Bool, Bool-cases, List, Text, [], arith, eqb_ℤ, find_first, inl, inr, pos, refl, select,
  some, ℕ, ℤ, ◌+◌, ◌∷◌, ◌≡◌, ◌≤◌,
}
use poligon.Uitree.{Element, find, interesting, is_interesting, number, number_from}

module _ {ℓ ℓ'} {A : Type ℓ} where
  All-select : (P : A → Type ℓ') (q : A → Bool) (xs : List A) → All P xs → All P (select q xs)
  All-select P q [] h = tt
  All-select P q (x ∷ xs) h = elim (Bool-cases (q x)) [
    | inl e ↦ rw e (h.0, All-select P q xs h.1)
    | inr e ↦ rw e (All-select P q xs h.1)
  ]

  All-weaken : (P Q : A → Type ℓ') (xs : List A) → ((x : A) → P x → Q x) → All P xs → All Q xs
  All-weaken P Q [] f h = tt
  All-weaken P Q (x ∷ xs) f h = (f x h.0, All-weaken P Q xs f h.1)

-- The element is the first with its index, and its index is no less than `n`.
abbrev IsNumbered : ℕ → List Element → Element → Type 0
IsNumbered n es e =
    (n ≤ e.index) × (find_first (λ d. eqb_ℤ (pos d.index) (pos e.index)) es ≡ some e)

number_from-IsNumbered :
    (n : ℕ) (es : List Element) → All (IsNumbered n (number_from n es)) (number_from n es)
number_from-IsNumbered n [] = tt
number_from-IsNumbered n (e ∷ es) =
    let rest = number_from (n + 1) es in
    (
      (omega arith, ground arith),
      All-weaken (IsNumbered (n + 1) rest) (IsNumbered n (number_from n (e ∷ es))) rest
          (λ d h. (omega (arith, h.0), ground (arith, h.0, h.1)))
          (number_from-IsNumbered (n + 1) es),
    )

-- Every element that Interesting keeps of a numbered screen is found in the whole screen by its index.
find-interesting :
    (norm : Text → Text) (screen_w screen_h : ℤ) (es : List Element) (text id : Text)
    → All
        (λ e.
          find norm (number es) (record { index = some (pos e.index); text = text; id = id })
          ≡ some (e, 1))
        (interesting screen_w screen_h (number es))
unfolding find interesting number
find-interesting norm screen_w screen_h es text id =
    All-select
      (λ e.
        find norm (number es) (record { index = some (pos e.index); text = text; id = id })
        ≡ some (e, 1))
      (is_interesting screen_w screen_h) (number es)
      (All-weaken (IsNumbered 0 (number es))
        (λ e.
          find norm (number es) (record { index = some (pos e.index); text = text; id = id })
          ≡ some (e, 1))
        (number es) (λ e h. rw (find, h.1) refl) (number_from-IsNumbered 0 es))
