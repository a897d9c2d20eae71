-- ===== src/Uitree.antt =====
-- internal/uitree/uitree.go: the elements of a screen. What the XML decoder reads is an argument: the
-- start elements in their order, each with its local name and its attributes, and whether the
-- document was read to its end. The case folding and trimming of Unicode text is the argument `norm`.
pub mod Ranks
pub mod Choice
pub mod Numbering
use poligon.Base.{
  Bool, List, Option, Text, [], any, eqb_ℤ, false, find_first, has_prefix, if◌then◌else◌, is_empty,
  leb_ℤ, length, ltb, ltb_ℤ, none, not, pos, select, some, true, ℕ, ℤ, ◌&&◌, ◌+ℤ◌, ◌+◌, ◌==◌, ◌||◌,
  ◌∷◌,
}

pub record Element : Type 0 where
  pub index : ℕ
  pub class : Text
  pub text : Text
  pub id : Text
  pub desc : Text
  pub value : Text
  pub x : ℤ
  pub y : ℤ
  pub w : ℤ
  pub h : ℤ
  pub clickable : Bool
  pub scrollable : Bool
  pub checkable : Bool
  pub checked : Bool
  pub enabled : Bool
  pub focused : Bool
  pub selected : Bool
  pub editable : Bool

pub record Query : Type 0 where
  pub index : Option ℤ
  pub text : Text
  pub id : Text

-- strings.Contains.
unfoldable pub contains : Text → Text → Bool
contains [] t = is_empty t
contains (c ∷ s) t =
    let rest = contains s t in
    (elim (has_prefix t (c ∷ s)) [ none ↦ false | some _ ↦ true ]) || rest

abbrev pub number_from : ℕ → List Element → List Element
number_from n [] = []
number_from n (e ∷ es) = record e { index = n } ∷ number_from (n + 1) es

unfoldable pub number : List Element → List Element
number es = number_from 0 es

abbrev pub has_size : Element → Bool
has_size e = not (leb_ℤ e.w (pos 0)) && not (leb_ℤ e.h (pos 0))

abbrev pub is_off_screen : ℤ → ℤ → Element → Bool
is_off_screen screen_w screen_h e =
    ltb_ℤ (pos 0) screen_w
    && ltb_ℤ (pos 0) screen_h
    && (leb_ℤ screen_w e.x
        || leb_ℤ screen_h e.y
        || leb_ℤ (e.x +ℤ e.w) (pos 0)
        || leb_ℤ (e.y +ℤ e.h) (pos 0))

abbrev pub is_interesting : ℤ → ℤ → Element → Bool
is_interesting screen_w screen_h e =
    has_size e
    && not (is_off_screen screen_w screen_h e)
    && (not (is_empty e.text)
        || not (is_empty e.id)
        || not (is_empty e.desc)
        || not (is_empty e.value)
        || e.clickable
        || e.scrollable
        || e.editable
        || e.checkable)

-- Interesting, for a screen of a width and a height.
unfoldable pub interesting : ℤ → ℤ → List Element → List Element
interesting screen_w screen_h es = select (is_interesting screen_w screen_h) es

pub data Match : Type 0 where
  exact partial misses : Match

-- How an element matches a text and an id, both of them normed.
unfoldable pub classify : (Text → Text) → Text → Text → Element → Match
unfolding contains
classify norm text id e =
    let fields = norm e.text ∷ norm e.desc ∷ norm e.value ∷ [] in
    if not (has_size e) || not (is_empty id || norm e.id == id)
    then misses
    else if is_empty text || any (λ f. f == text) fields
    then exact
    else if any (λ f. not (is_empty f) && contains f text) fields
    then partial
    else misses

-- The exact matches and the partial ones.
unfoldable pub gather : (Element → Match) → List Element → List Element × List Element
gather match_of [] = ([], [])
gather match_of (e ∷ es) =
    let (all_exact, all_partial) = gather match_of es in
    elim (match_of e) [
      | exact ↦ (e ∷ all_exact, all_partial)
      | partial ↦ (all_exact, e ∷ all_partial)
      | misses ↦ (all_exact, all_partial)
    ]

abbrev pub is_tappable : Element → Bool
is_tappable e = e.clickable && e.enabled

-- The first that can be tapped, else the first.
unfoldable pub pick_from : List Element → Option (Element × ℕ)
pick_from [] = none
pick_from (e ∷ es) = elim (find_first is_tappable (e ∷ es)) [
  | some t ↦ some (t, length (e ∷ es))
  | none ↦ some (e, length (e ∷ es))
]

-- Find, with the number of elements that match.
unfoldable pub find : (Text → Text) → List Element → Query → Option (Element × ℕ)
unfolding classify gather pick_from
find norm es q = elim q.index [
  | some i ↦ elim (find_first (λ e. eqb_ℤ (pos e.index) i) es) [
    | none ↦ none
    | some e ↦ some (e, 1)
  ]
  | none ↦
      let (all_exact, all_partial) = gather (classify norm (norm q.text) (norm q.id)) es in
      pick_from (if ltb 0 (length all_exact) then all_exact else all_partial)
]
