-- ===== src/Runner/Workspace/Confined.antt =====
-- internal/runner/workspace.go: where the entries of an archive go, and how much they fill.
use mathlib.Core.List.{reverse, reverse-append, reverse-cons, reverse-reverse}
use poligon.Base.{
  ==-refl, ==_eq, Bool, Bool-cases, List, Option, Text, [], all, any, ap, arith, codes, false,
  if_keeps, if◌then◌else◌, inl, inr, is_empty, map, none, refl, some, subst, sym, true, ◌++◌, ◌==◌,
  ◌∙◌, ◌∷◌, ◌≡◌,
}
use poligon.Paths.{
  FilePath, dot_dot, enter, is_abs, is_up, join_path, parent, relative, slash, split_at, starts_up,
  strip_common, walk,
}
use poligon.Runner.Workspace.{inside_dir}

-- The first path is the second or below it.
abbrev pub Inside : FilePath → FilePath → Type 0
Inside target dest =
    (rest : List Text) × (target.parts ≡ rest ++ dest.parts)
    × (target.rooted ≡ dest.rooted)
    × (any is_up rest ≡ false)

-- A clean path goes up only at its start, if at all.
abbrev pub is_clean : List Text → Bool
is_clean [] = true
is_clean (p ∷ ps) = if is_up p then all is_up ps else is_clean ps

strip_common-same : (bs ts rest : List Text) → strip_common bs ts ≡ ([], rest) → ts ≡ bs ++ rest
unfolding strip_common
strip_common-same [] ts rest e = ground arith
strip_common-same (b ∷ bs) [] rest e = absurd (ground arith)
strip_common-same (b ∷ bs) (t ∷ ts) rest e = ground (arith, strip_common-same bs ts rest, ==_eq b t)

all_up-clean : (ps : List Text) → all is_up ps ≡ true → is_clean ps ≡ true
all_up-clean [] h = refl
all_up-clean (p ∷ ps) h = ground arith

dot_dot_up : is_up dot_dot ≡ true
unfolding is_up
dot_dot_up = ==-refl dot_dot

parent-clean : (r : Bool) (ps : List Text) → is_clean ps ≡ true → is_clean (parent r ps) ≡ true
parent-clean r [] h = ground (arith, dot_dot_up)
parent-clean r (p ∷ ps) h = ground (arith, all_up-clean ps, dot_dot_up)

push_clean :
    (r : Bool) (w : Text) (ps : List Text)
    → is_clean ps ≡ true
    → is_clean (if is_up w then parent r ps else w ∷ ps) ≡ true
push_clean r w ps h = ground (arith, parent-clean r ps)

enter-clean :
    (r : Bool) (ps : List Text) (w : Text) → is_clean ps ≡ true → is_clean (enter r ps w) ≡ true
enter-clean r ps w h =
    if_keeps (λ qs. is_clean qs ≡ true) (is_empty w) ps _ h
      (if_keeps (λ qs. is_clean qs ≡ true) (w == codes ".") ps _ h (push_clean r w ps h))

walk-clean : (r : Bool) (ps ws : List Text) → is_clean ps ≡ true → is_clean (walk r ps ws) ≡ true
unfolding walk
walk-clean r ps [] h = h
walk-clean r ps (w ∷ ws) h = walk-clean r (enter r ps w) ws (enter-clean r ps w h)

starts_up-append :
    (xs : List Text) (x : Text)
    → starts_up (xs ++ x ∷ []) ≡ (if is_empty xs then is_up x else starts_up xs)
starts_up-append [] x = refl
starts_up-append (y ∷ xs) x = refl

is_empty-append : (xs : List Text) (x : Text) → is_empty (xs ++ x ∷ []) ≡ false
is_empty-append [] x = refl
is_empty-append (y ∷ xs) x = refl

last_of :
    (x y : Text) (xs : List Text) → starts_up (reverse (x ∷ y ∷ xs)) ≡ starts_up (reverse (y ∷ xs))
last_of x y xs = rw (
  reverse-cons x (y ∷ xs),
  starts_up-append (reverse (y ∷ xs)) x,
  reverse-cons y xs,
  is_empty-append (reverse xs) y,
)

all_up-below :
    (xs ys : List Text)
    → all is_up (xs ++ ys) ≡ true
    → starts_up (reverse xs) ≡ false
    → is_empty xs ≡ true
all_up-below [] ys h k = refl
all_up-below (x ∷ []) ys h k = absurd (ground arith)
all_up-below (x ∷ y ∷ xs) ys h k =
    let last : starts_up (reverse (x ∷ y ∷ xs)) ≡ starts_up (reverse (y ∷ xs)) = last_of x y xs in
    ground (arith, last, all_up-below (y ∷ xs) ys)

-- Where a clean path goes on from another without going up, it goes up nowhere after it.
clean_below :
    (xs ys : List Text)
    → is_clean (xs ++ ys) ≡ true
    → starts_up (reverse xs) ≡ false
    → any is_up xs ≡ false
clean_below [] ys h k = refl
clean_below (x ∷ []) ys h k = ground arith
clean_below (x ∷ y ∷ xs) ys h k =
    let last : starts_up (reverse (x ∷ y ∷ xs)) ≡ starts_up (reverse (y ∷ xs)) = last_of x y xs in
    ground (arith, last, clean_below (y ∷ xs) ys, all_up-below (y ∷ xs) ys)

relative_parts :
    (bs ts bs' ts' rel : List Text)
    → strip_common bs ts ≡ (bs', ts')
    → (if starts_up bs' then none else some (map (λ _. dot_dot) bs' ++ ts')) ≡ some rel
    → starts_up rel ≡ false
    → ts ≡ bs ++ rel
relative_parts bs ts [] ts' rel s e h = ground (arith, strip_common-same bs ts ts')
relative_parts bs ts (b ∷ bs') ts' rel s e h = absurd (ground (arith, dot_dot_up))

-- What relative and the test of insideDir leave: nothing of the directory, and no way up.
relative-below :
    (dir target : FilePath) (rel : List Text)
    → relative dir target ≡ some rel
    → starts_up rel ≡ false
    → reverse target.parts ≡ reverse dir.parts ++ rel
unfolding relative
relative-below dir target rel e h =
    let s = strip_common (reverse dir.parts) (reverse target.parts) in
    relative_parts (reverse dir.parts) (reverse target.parts) s.0 s.1 rel refl e h

Inside-from_root :
    (dir target : FilePath) (rel : List Text)
    → is_clean target.parts ≡ true
    → target.rooted ≡ dir.rooted
    → reverse target.parts ≡ reverse dir.parts ++ rel
    → starts_up rel ≡ false
    → Inside target dir
Inside-from_root dir target rel c r e h =
    let parts : target.parts ≡ reverse rel ++ dir.parts =
      sym (reverse-reverse target.parts)
      ∙ ap reverse e
      ∙ reverse-append (reverse dir.parts) rel
      ∙ ap (λ (ps : List Text). reverse rel ++ ps) (reverse-reverse dir.parts) in
    (
      reverse rel,
      parts,
      r,
      clean_below (reverse rel) dir.parts (ap is_clean (sym parts) ∙ c)
          (ap starts_up (reverse-reverse rel) ∙ h),
    )

Inside-of_some :
    (dir target goal : FilePath) (o : Option (List Text))
    → relative dir target ≡ o
    → is_clean target.parts ≡ true
    → target.rooted ≡ dir.rooted
    → (elim o [ none ↦ none | some rel ↦ if starts_up rel then none else some target ]) ≡ some goal
    → Inside goal dir
Inside-of_some dir target goal none e c r g = absurd (ground arith)
Inside-of_some dir target goal (some rel) e c r g = elim (Bool-cases (starts_up rel)) [
  | inl up ↦ absurd (ground arith)
  | inr down ↦
      let same : target ≡ goal = ground arith in
      subst (λ t. Inside t dir) same
        (Inside-from_root dir target rel c r (relative-below dir target rel e down) down)
]

-- What insideDir accepts lies inside the directory.
pub inside_dir-Inside :
    (dir : FilePath) (name : Text) {target : FilePath}
    → is_clean dir.parts ≡ true
    → inside_dir dir name ≡ some target
    → Inside target dir
unfolding inside_dir join_path
inside_dir-Inside dir name {target} c e = elim (Bool-cases (is_abs name)) [
  | inl a ↦ absurd (ground arith)
  | inr a ↦
      Inside-of_some dir (join_path dir name) target (relative dir (join_path dir name)) refl
        (walk-clean dir.rooted dir.parts (split_at slash name) c) refl (ground arith)
]
