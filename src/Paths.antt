-- ===== src/Paths.antt =====
-- strings and path/filepath on Unix, as far as internal/api and internal/runner use them.
use mathlib.Core.List.{reverse}
use poligon.Base.{
  Bool, List, Option, Text, [], codes, eqb, false, if◌then◌else◌, is_empty, map, none, not, select,
  some, ℕ, ◌++◌, ◌==◌, ◌∷◌,
}

abbrev pub slash : ℕ
slash = b'/'

abbrev pub onto_first : ℕ → List Text → List Text
onto_first c [] = (c ∷ []) ∷ []
onto_first c (w ∷ ws) = (c ∷ w) ∷ ws

-- strings.Split by one byte: what stands between the separators.
unfoldable pub split_at : ℕ → Text → List Text
split_at sep [] = [] ∷ []
split_at sep (c ∷ s) =
    let rest = split_at sep s in if eqb c sep then [] ∷ rest else onto_first c rest

abbrev pub last_or : Text → List Text → Text
last_or w [] = w
last_or w (v ∷ vs) = last_or v vs

-- filepath.Base: the last component.
unfoldable pub base_name : Text → Text
unfolding split_at
base_name [] = codes "."
base_name (c ∷ s) = last_or (codes "/") (select (λ w. not (is_empty w)) (split_at slash (c ∷ s)))

abbrev pub after_dot : List Text → Text
after_dot [] = []
after_dot (w ∷ []) = []
after_dot (w ∷ v ∷ ws) = b'.' ∷ last_or v ws

-- filepath.Ext: from the last dot of what follows the last slash.
unfoldable pub extension : Text → Text
unfolding split_at
extension s = after_dot (split_at b'.' (last_or [] (split_at slash s)))

-- A path as filepath.Clean leaves it: its components, the last one first.
pub record FilePath : Type 0 where
  pub rooted : Bool
  pub parts : List Text

abbrev pub dot_dot : Text
dot_dot = codes ".."

unfoldable pub is_up : Text → Bool
is_up w = w == dot_dot

abbrev pub parent : Bool → List Text → List Text
parent r [] = if r then [] else dot_dot ∷ []
parent r (p ∷ ps) = if is_up p then dot_dot ∷ p ∷ ps else ps

abbrev pub enter : Bool → List Text → Text → List Text
enter r ps w =
    if is_empty w
    then ps
    else if w == codes "."
    then ps
    else if is_up w
    then parent r ps
    else w ∷ ps

unfoldable pub walk : Bool → List Text → List Text → List Text
unfolding is_up
walk r ps [] = ps
walk r ps (w ∷ ws) = walk r (enter r ps w) ws

abbrev pub is_abs : Text → Bool
is_abs [] = false
is_abs (c ∷ s) = eqb c slash

unfoldable pub clean : Text → FilePath
unfolding walk split_at
clean s = record { rooted = is_abs s; parts = walk (is_abs s) [] (split_at slash s) }

-- filepath.Join of a clean path and a name.
unfoldable pub join_path : FilePath → Text → FilePath
unfolding walk split_at
join_path p name = record { rooted = p.rooted; parts = walk p.rooted p.parts (split_at slash name) }

abbrev pub slashed : List Text → Text
slashed [] = []
slashed (w ∷ []) = w
slashed (w ∷ v ∷ ws) = w ++ (slash ∷ slashed (v ∷ ws))

-- The path as a string.
unfoldable pub render_path : FilePath → Text
render_path p =
    if p.rooted
    then slash ∷ slashed (reverse p.parts)
    else if is_empty p.parts
    then codes "."
    else slashed (reverse p.parts)

-- What is left of two paths after the components that they share.
unfoldable pub strip_common : List Text → List Text → List Text × List Text
strip_common [] ts = ([], ts)
strip_common (b ∷ bs) [] = (b ∷ bs, [])
strip_common (b ∷ bs) (t ∷ ts) =
    let rest = strip_common bs ts in if b == t then rest else (b ∷ bs, t ∷ ts)

abbrev pub starts_up : List Text → Bool
starts_up [] = false
starts_up (w ∷ ws) = is_up w

-- filepath.Rel of two clean paths, as components.
unfoldable pub relative : FilePath → FilePath → Option (List Text)
unfolding strip_common is_up
relative dir target =
    let (bs, ts) = strip_common (reverse dir.parts) (reverse target.parts) in
    if starts_up bs then none else some (map (λ _. dot_dot) bs ++ ts)

-- filepath.Dir of a clean path.
abbrev pub drop_first : List Text → List Text
drop_first [] = []
drop_first (p ∷ ps) = ps
