-- ===== src/Base/Lists.antt =====
-- Lists by Boolean tests, measured by native numbers.
use Prim.Native.Nat.{ℕ, suc, ◌+◌, ◌≤◌}
use mathlib.Core.Bool.{Bool, true, false, ◌&&◌, ◌||◌}
use mathlib.Core.List.{List, [], ◌∷◌, ◌++◌, map}
use mathlib.Core.Option.{Option, none, some}
use mathlib.Core.Path.{◌≡◌, refl}
use native.Mathlib.Omega.{arith}
use poligon.Base.Tests.{Text, eqb, ltb, ◌==◌, if◌then◌else◌}

module _ {ℓ} {A : Type ℓ} where
  abbrev pub length : List A → ℕ
  length [] = 0
  length (x ∷ xs) = suc (length xs)

  -- The rows for which the test holds, in their order: SELECT with its WHERE clause.
  abbrev pub select : (A → Bool) → List A → List A
  select p [] = []
  select p (x ∷ xs) = let rest = select p xs in if p x then x ∷ rest else rest

  abbrev pub find_first : (A → Bool) → List A → Option A
  find_first p [] = none
  find_first p (x ∷ xs) = let rest = find_first p xs in if p x then some x else rest

  abbrev pub is_empty : List A → Bool
  is_empty [] = true
  is_empty (x ∷ xs) = false

  abbrev pub any : (A → Bool) → List A → Bool
  any p [] = false
  any p (x ∷ xs) = p x || any p xs

  abbrev pub all : (A → Bool) → List A → Bool
  all p [] = true
  all p (x ∷ xs) = p x && all p xs

  -- UPDATE with its WHERE clause.
  abbrev pub update_where : (A → Bool) → (A → A) → List A → List A
  update_where p f [] = []
  update_where p f (x ∷ xs) = (if p x then f x else x) ∷ update_where p f xs

  -- ORDER BY, as a stable insertion sort.
  abbrev pub insert_by : (A → A → Bool) → A → List A → List A
  insert_by le x [] = x ∷ []
  insert_by le x (y ∷ ys) = let rest = insert_by le x ys in if le x y then x ∷ y ∷ ys else y ∷ rest

  abbrev pub order_by : (A → A → Bool) → List A → List A
  order_by le [] = []
  order_by le (x ∷ xs) = insert_by le x (order_by le xs)

  pub length-append : (xs ys : List A) → length (xs ++ ys) ≡ length xs + length ys
  length-append [] ys = omega arith
  length-append (x ∷ xs) ys = omega (arith, length-append xs ys)

  pub select-append :
      (p : A → Bool) (xs ys : List A) → select p (xs ++ ys) ≡ select p xs ++ select p ys
  select-append p [] ys = refl
  select-append p (x ∷ xs) ys = ground (arith, select-append p xs ys)

  pub find_first-append_none :
      (p : A → Bool) (xs ys : List A)
      → find_first p xs ≡ none
      → find_first p (xs ++ ys) ≡ find_first p ys
  find_first-append_none p [] ys h = refl
  find_first-append_none p (x ∷ xs) ys h = ground (arith, find_first-append_none p xs ys)

  pub find_first-append :
      (p : A → Bool) (xs ys : List A)
      → find_first p (xs ++ ys)
        ≡ (elim (find_first p xs) [ none ↦ find_first p ys | some x ↦ some x ])
  find_first-append p [] ys = refl
  find_first-append p (x ∷ xs) ys = ground (arith, find_first-append p xs ys)

  pub find_first-append_reject :
      (p : A → Bool) (xs : List A) (y : A)
      → p y ≡ false
      → find_first p (xs ++ y ∷ []) ≡ find_first p xs
  find_first-append_reject p [] y h = rw h
  find_first-append_reject p (x ∷ xs) y h = ground (arith, find_first-append_reject p xs y)

  pub find_first-none-any : (p : A → Bool) (xs : List A) → any p xs ≡ false → find_first p xs ≡ none
  find_first-none-any p [] h = refl
  find_first-none-any p (x ∷ xs) h = ground (arith, find_first-none-any p xs)

  pub any-find_first-none : (p : A → Bool) (xs : List A) → find_first p xs ≡ none → any p xs ≡ false
  any-find_first-none p [] h = refl
  any-find_first-none p (x ∷ xs) h = ground (arith, any-find_first-none p xs)

  pub length-select-any : (p : A → Bool) (xs : List A) → any p xs ≡ false → length (select p xs) ≡ 0
  length-select-any p [] h = refl
  length-select-any p (x ∷ xs) h = ground (arith, length-select-any p xs)

  -- An update that creates no new match of `q` does not raise the number of matches.
  pub length-select-update_le :
      (q p : A → Bool) (f : A → A) (xs : List A)
      → ((x : A) → q (f x) ≡ true → q x ≡ true)
      → length (select q (update_where p f xs)) ≤ length (select q xs)
  length-select-update_le q p f [] h = omega arith
  length-select-update_le q p f (x ∷ xs) h = ground (arith, h x, length-select-update_le q p f xs h)

  -- An update that makes no difference to `q`.
  pub find_first-update_none :
      (q p : A → Bool) (f : A → A) (xs : List A)
      → ((x : A) → q (if p x then f x else x) ≡ false)
      → find_first q (update_where p f xs) ≡ none
  find_first-update_none q p f [] h = refl
  find_first-update_none q p f (x ∷ xs) h = ground (arith, h x, find_first-update_none q p f xs h)

  pub find_first-update_same :
      (q p : A → Bool) (f : A → A) (xs : List A)
      → ((x : A) → p x ≡ true → (q x ≡ false) × (q (f x) ≡ false))
      → find_first q (update_where p f xs) ≡ find_first q xs
  find_first-update_same q p f [] h = refl
  find_first-update_same q p f (x ∷ xs) h = ground (arith, h x, find_first-update_same q p f xs h)

-- A row that passes a test is found.
pub any-find_first {ℓ} :
    {A : Type ℓ} (p : A → Bool) (xs : List A)
    → any p xs ≡ (elim (find_first p xs) [ none ↦ false | some _ ↦ true ])
any-find_first p [] = refl
any-find_first p (x ∷ xs) = ground (arith, any-find_first p xs)

-- A predicate that holds of each entry, by recursion.
abbrev pub All {α β} : {X : Type α} → (X → Type β) → List X → Type β
All holds [] = Unit
All holds (y ∷ ys) = holds y × All holds ys

-- An update that keeps the test finds the same row, updated.
pub find_first-update {ℓ} :
    {A : Type ℓ} (q p : A → Bool) (f : A → A) (xs : List A)
    → ((x : A) → q (f x) ≡ q x)
    → find_first q (update_where p f xs)
      ≡ (elim (find_first q xs) [ none ↦ none | some x ↦ some (if p x then f x else x) ])
find_first-update q p f [] h = refl
find_first-update q p f (x ∷ xs) h = ground (arith, h x, find_first-update q p f xs h)

pub any-insert_by {ℓ} :
    {A : Type ℓ} (le : A → A → Bool) (q : A → Bool) (x : A) (xs : List A)
    → any q (insert_by le x xs) ≡ (q x || any q xs)
any-insert_by le q x [] = refl
any-insert_by le q x (y ∷ ys) = ground (arith, any-insert_by le q x ys)

pub any-order_by {ℓ} :
    {A : Type ℓ} (le : A → A → Bool) (q : A → Bool) (xs : List A)
    → any q (order_by le xs) ≡ any q xs
any-order_by le q [] = refl
any-order_by le q (x ∷ xs) =
    ground (arith, any-insert_by le q x (order_by le xs), any-order_by le q xs)

pub all-insert_by {ℓ} :
    {A : Type ℓ} (le : A → A → Bool) (q : A → Bool) (x : A) (xs : List A)
    → all q (insert_by le x xs) ≡ (q x && all q xs)
all-insert_by le q x [] = refl
all-insert_by le q x (y ∷ ys) = ground (arith, all-insert_by le q x ys)

pub all-order_by {ℓ} :
    {A : Type ℓ} (le : A → A → Bool) (q : A → Bool) (xs : List A)
    → all q (order_by le xs) ≡ all q xs
all-order_by le q [] = refl
all-order_by le q (x ∷ xs) =
    ground (arith, all-insert_by le q x (order_by le xs), all-order_by le q xs)

pub any-append {ℓ} :
    {A : Type ℓ} (q : A → Bool) (xs ys : List A) → any q (xs ++ ys) ≡ (any q xs || any q ys)
any-append q [] ys = refl
any-append q (x ∷ xs) ys = ground (arith, any-append q xs ys)

pub any-select {ℓ} :
    {A : Type ℓ} (p q : A → Bool) (xs : List A) → any q (select p xs) ≡ any (λ x. p x && q x) xs
any-select p q [] = refl
any-select p q (x ∷ xs) = ground (arith, any-select p q xs)

pub any-select-true {ℓ} :
    {A : Type ℓ} (p q : A → Bool) (xs : List A) → any q (select p xs) ≡ true → any q xs ≡ true
any-select-true p q [] h = h
any-select-true p q (x ∷ xs) h = ground (arith, any-select-true p q xs)

pub any-map {ℓ κ} :
    {A : Type ℓ} {B : Type κ} (q : B → Bool) (f : A → B) (xs : List A)
    → any q (map f xs) ≡ any (λ x. q (f x)) xs
any-map q f [] = refl
any-map q f (x ∷ xs) = ground (arith, any-map q f xs)

-- A Go set of strings, as a list.
abbrev pub mem : Text → List Text → Bool
mem i is = any (λ j. j == i) is

-- Go counts matches and asks whether the count is positive.
pub ltb-length-select {ℓ} :
    {A : Type ℓ} (p : A → Bool) (xs : List A) → ltb 0 (length (select p xs)) ≡ any p xs
ltb-length-select p [] = refl
ltb-length-select p (x ∷ xs) = ground (arith, ltb-length-select p xs)

pub any-cong {ℓ} :
    {A : Type ℓ} (p q : A → Bool) (xs : List A) → ((x : A) → p x ≡ q x) → any p xs ≡ any q xs
any-cong p q [] h = refl
any-cong p q (x ∷ xs) h = ground (arith, h x, any-cong p q xs h)

pub any-update {ℓ} :
    {A : Type ℓ} (q q' p : A → Bool) (f : A → A) (xs : List A)
    → ((x : A) → q (if p x then f x else x) ≡ q' x)
    → any q (update_where p f xs) ≡ any q' xs
any-update q q' p f [] h = refl
any-update q q' p f (x ∷ xs) h = ground (arith, h x, any-update q q' p f xs h)

pub find_first-true {ℓ} :
    {A : Type ℓ} (q : A → Bool) (xs : List A) (x : A) → find_first q xs ≡ some x → q x ≡ true
find_first-true q [] x h = absurd (ground arith)
find_first-true q (y ∷ xs) x h = ground (arith, find_first-true q xs x)

-- strings.HasPrefix and strings.TrimPrefix: what follows the prefix.
unfoldable pub has_prefix : Text → Text → Option Text
has_prefix [] s = some s
has_prefix (p ∷ ps) [] = none
has_prefix (p ∷ ps) (c ∷ s) = let rest = has_prefix ps s in if eqb p c then rest else none

pub update_where-map {ℓ} :
    {A : Type ℓ} (p : A → Bool) (f : A → A) (xs : List A)
    → update_where p f xs ≡ map (λ x. if p x then f x else x) xs
update_where-map p f [] = refl
update_where-map p f (x ∷ xs) = ground (arith, update_where-map p f xs)
