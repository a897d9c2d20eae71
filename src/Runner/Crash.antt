-- ===== src/Runner/Crash.antt =====
-- internal/runner/crash.go: the search of a device's log for a crash of the app.
use mathlib.Core.List.{reverse, reverse-cons}
use poligon.Adbfilter.{is_space}
use poligon.Base.{
  Bool, Bool-cases, List, Text, [], any, any-append, ap, arith, codes, eqb, false, has_prefix,
  if◌then◌else◌, inl, inr, is_empty, not, refl, true, ℕ, ◌&&◌, ◌++◌, ◌||◌, ◌∙◌, ◌∷◌, ◌≡◌,
}
use poligon.Paths.{split_at}
use poligon.Store.Listing.{drop_spaces, trim_space}
use poligon.Uitree.{contains}

abbrev fatal : Text
fatal = codes "FATAL EXCEPTION"

abbrev process : Text
process = codes "Process:"

abbrev anr_in : Text → Text
anr_in pkg = codes "ANR in " ++ pkg

abbrev finishing : Text
finishing = codes "Force finishing activity"

-- The line with the exception, by the line after it.
unfoldable pub exception_at : Text → Text → List Text → Text → Text
unfolding contains trim_space
exception_at pkg line [] later = trim_space line
exception_at pkg line (next ∷ lines) later =
    if contains next process
    then if is_empty pkg || contains next pkg
      then trim_space line ++ codes " — " ++ trim_space next
      else later
    else trim_space line

unfoldable pub scan_crash_lines : Text → List Text → Text
unfolding exception_at contains trim_space
scan_crash_lines pkg [] = []
scan_crash_lines pkg (line ∷ lines) =
    let later = scan_crash_lines pkg lines in
    if contains line fatal
    then exception_at pkg line lines later
    else if not (is_empty pkg) && contains line (anr_in pkg)
    then trim_space line
    else if not (is_empty pkg) && contains line finishing && contains line pkg
    then trim_space line
    else later

unfoldable pub scan_crash : Text → Text → Text
unfolding scan_crash_lines split_at
scan_crash log pkg = if is_empty log then [] else scan_crash_lines pkg (split_at b'\n' log)

-- The process that the next line names, if it names one, may be the app's.
abbrev pub blames_other : Text → List Text → Bool
blames_other pkg [] = false
blames_other pkg (next ∷ lines) =
    contains next process && not (is_empty pkg) && not (contains next pkg)

abbrev is_crash : Text → Text → List Text → Bool
is_crash pkg line lines =
    if contains line fatal
    then not (blames_other pkg lines)
    else not (is_empty pkg)
      && (contains line (anr_in pkg) || (contains line finishing && contains line pkg))

abbrev pub has_crash : Text → List Text → Bool
has_crash pkg [] = false
has_crash pkg (line ∷ lines) = is_crash pkg line lines || has_crash pkg lines

abbrev has_ink : Text → Bool
has_ink s = any (λ c. not (is_space c)) s

has_ink-drop : (s : Text) → has_ink (drop_spaces s) ≡ has_ink s
has_ink-drop [] = refl
has_ink-drop (c ∷ s) = ground (arith, has_ink-drop s)

has_ink-reverse : (s : Text) → has_ink (reverse s) ≡ has_ink s
has_ink-reverse [] = refl
has_ink-reverse (c ∷ s) = ground (
  arith,
  ap has_ink (reverse-cons c s),
  any-append (λ c. not (is_space c)) (reverse s) (c ∷ []),
  has_ink-reverse s,
)

has_ink-trim : (s : Text) → has_ink (trim_space s) ≡ has_ink s
unfolding trim_space
has_ink-trim s =
    has_ink-reverse (drop_spaces (reverse (drop_spaces s)))
    ∙ has_ink-drop (reverse (drop_spaces s))
    ∙ has_ink-reverse (drop_spaces s)
    ∙ has_ink-drop s

has_ink-nonempty : (s : Text) → has_ink s ≡ true → is_empty s ≡ false
has_ink-nonempty [] h = absurd (ground arith)
has_ink-nonempty (c ∷ s) h = refl

-- A word that begins with ink brings ink.
has_ink-contains :
    (s t : Text) (d : ℕ) → is_space d ≡ false → contains s (d ∷ t) ≡ true → has_ink s ≡ true
unfolding contains has_prefix
has_ink-contains [] t d i h = absurd (ground arith)
has_ink-contains (c ∷ s) t d i h = elim (Bool-cases (eqb d c)) [
  | inl e ↦ ground arith
  | inr e ↦ ground (arith, has_ink-contains s t d i)
]

trimmed :
    (s t : Text) (d : ℕ)
    → is_space d ≡ false
    → contains s (d ∷ t) ≡ true
    → is_empty (trim_space s) ≡ false
trimmed s t d i h = has_ink-nonempty (trim_space s) (has_ink-trim s ∙ has_ink-contains s t d i h)

exception-is_empty :
    (pkg line : Text) (lines : List Text) (later : Text)
    → contains line fatal ≡ true
    → is_empty (exception_at pkg line lines later) ≡ (blames_other pkg lines && is_empty later)
unfolding exception_at
exception-is_empty pkg line [] later h = trimmed line _ _ refl h
exception-is_empty pkg line (next ∷ lines) later h = ground (
  arith,
  trimmed line _ _ refl h,
  append-is_empty (trim_space line) (codes " — " ++ trim_space next),
)
  where
    append-is_empty : (s t : Text) → is_empty (s ++ t) ≡ (is_empty s && is_empty t)
    append-is_empty [] t = refl
    append-is_empty (c ∷ s) t = refl

scan_crash_lines-is_empty :
    (pkg : Text) (lines : List Text)
    → is_empty (scan_crash_lines pkg lines) ≡ not (has_crash pkg lines)
unfolding scan_crash_lines
scan_crash_lines-is_empty pkg [] = refl
scan_crash_lines-is_empty pkg (line ∷ lines) = ground (
  arith,
  scan_crash_lines-is_empty pkg lines,
  exception-is_empty pkg line lines (scan_crash_lines pkg lines),
  trimmed line (codes "NR in " ++ pkg) 65 refl,
  trimmed line (codes "orce finishing activity") 70 refl,
)

-- Whatever the log and the package: scanCrash answers with the empty text exactly if no line of the
-- log is a crash. That is a line with FATAL EXCEPTION, unless a package is given and the next line
-- names a process but not the package; or, for a package that is given, a line without these words
-- that has its ANR or the forced end of one of its activities.
pub scan_crash-is_empty :
    (log pkg : Text) → is_empty (scan_crash log pkg) ≡ not (has_crash pkg (split_at b'\n' log))
unfolding scan_crash split_at
scan_crash-is_empty [] pkg = ground arith
scan_crash-is_empty (c ∷ log) pkg = scan_crash_lines-is_empty pkg (split_at b'\n' (c ∷ log))
