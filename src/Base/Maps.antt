-- ===== src/Base/Maps.antt =====
-- A Go map with string keys, as an association list without a repeated key.
use mathlib.Core.List.{List, [], ◌∷◌}
use mathlib.Core.Option.{Option, none, some}
use mathlib.Core.Path.{◌≡◌, refl}
use native.Mathlib.Omega.{arith}
use poligon.Base.Tests.{Text, ◌==◌, if◌then◌else◌}

module _ {ℓ} {V : Type ℓ} where
  abbrev pub get : Text → List (Text × V) → Option V
  get k [] = none
  get k ((j, v) ∷ m) = let rest = get k m in if j == k then some v else rest

  abbrev pub put : Text → V → List (Text × V) → List (Text × V)
  put k v [] = (k, v) ∷ []
  put k v ((j, w) ∷ m) = let rest = put k v m in if j == k then (k, v) ∷ m else (j, w) ∷ rest

  abbrev pub remove : Text → List (Text × V) → List (Text × V)
  remove k [] = []
  remove k ((j, w) ∷ m) = let rest = remove k m in if j == k then rest else (j, w) ∷ rest

  pub get-put :
      (i j : Text) (v : V) (m : List (Text × V))
      → get i (put j v m) ≡ (if j == i then some v else get i m)
  get-put i j v [] = refl
  get-put i j v ((k, w) ∷ m) = ground (arith, get-put i j v m)

  pub get-remove :
      (i j : Text) (m : List (Text × V)) → get i (remove j m) ≡ (if j == i then none else get i m)
  get-remove i j [] = ground arith
  get-remove i j ((k, w) ∷ m) = ground (arith, get-remove i j m)
