-- ===== src/Adb/Quoting.antt =====
-- internal/adb/adb.go: the words that a POSIX shell reads in a command line.
use mathlib.Core.List.{append_assoc}
use poligon.Adb.{
  backslash, force_stop_line, list_dir_line, quote, remove_line, rename_line, replace_quotes,
  sh_quote, shell_line,
}
use poligon.Base.{
  Bool, Bool-cases, List, Option, Text, [], any, ap, arith, codes, eqb, if◌then◌else◌, inl, inr,
  none, refl, some, subst, ℕ, ◌++◌, ◌||◌, ◌∙◌, ◌∷◌, ◌≡◌,
}

data Mode : Type 0 where
  between unquoted quoted : Mode

-- Bytes with a meaning of their own outside of quotes.
abbrev is_special : ℕ → Bool
is_special c = any (λ d. eqb c d) (codes "|&;<>()$`\"*?[#~=%" ++ 9 ∷ 10 ∷ 13 ∷ [])

abbrev Words : Type 0
Words = Option (Text × List Text)

abbrev with_byte : ℕ → Words → Words
with_byte c none = none
with_byte c (some (w, ws)) = some (c ∷ w, ws)

abbrev as_word : Words → Words
as_word none = none
as_word (some (w, ws)) = some ([], w ∷ ws)

-- What is left of the word at hand, and the words after it; `none` where the line does more than list
-- words, or ends in quotes.
sh_read : Mode → Text → Words
sh_read between [] = some ([], [])
sh_read unquoted [] = some ([], [])
sh_read quoted [] = none
sh_read quoted (c ∷ s) =
    let out = sh_read unquoted s in
    let more = with_byte c (sh_read quoted s) in if eqb c quote then out else more
sh_read between (c ∷ s) =
    let skip = sh_read between s in
    let opened = as_word (sh_read quoted s) in
    let word = as_word (with_byte c (sh_read unquoted s)) in
    if eqb c b' '
    then skip
    else if eqb c quote
    then opened
    else if eqb c backslash || is_special c
    then none
    else word
sh_read unquoted (c ∷ []) =
    if eqb c b' '
    then some ([], [])
    else if eqb c quote || eqb c backslash || is_special c
    then none
    else some (c ∷ [], [])
sh_read unquoted (c ∷ d ∷ s) =
    let after = sh_read between (d ∷ s) in
    let opened = sh_read quoted (d ∷ s) in
    let escaped = with_byte d (sh_read unquoted s) in
    let more = with_byte c (sh_read unquoted (d ∷ s)) in
    if eqb c b' '
    then after
    else if eqb c quote
    then opened
    else if eqb c backslash
    then escaped
    else if is_special c
    then none
    else more

abbrev prefixed : Text → Words → Words
prefixed s none = none
prefixed s (some (w, ws)) = some (s ++ w, ws)

unquoted_quote : (t : Text) → sh_read unquoted (quote ∷ t) ≡ sh_read quoted t
unfolding sh_read
unquoted_quote [] = refl
unquoted_quote (c ∷ t) = refl

unquoted_space : (t : Text) → sh_read unquoted (b' ' ∷ t) ≡ sh_read between t
unfolding sh_read
unquoted_space [] = refl
unquoted_space (c ∷ t) = refl

prefixed-cons : (c : ℕ) (s : Text) (o : Words) → with_byte c (prefixed s o) ≡ prefixed (c ∷ s) o
prefixed-cons c s none = refl
prefixed-cons c s (some (w, ws)) = refl

prefixed-nil : (o : Words) → o ≡ prefixed [] o
prefixed-nil none = refl
prefixed-nil (some (w, ws)) = refl

-- The inside of a quoted word.
sh_read-quoted :
    (s t : Text) → sh_read quoted (replace_quotes s ++ quote ∷ t) ≡ prefixed s (sh_read unquoted t)
unfolding sh_read replace_quotes
sh_read-quoted [] t = prefixed-nil (sh_read unquoted t)
sh_read-quoted (c ∷ s) t =
    let rest = replace_quotes s ++ quote ∷ t in
    let ih = ap (with_byte c) (sh_read-quoted s t) ∙ prefixed-cons c s (sh_read unquoted t) in
    elim (Bool-cases (eqb c quote)) [
      | inl q ↦
          let same : c ≡ quote = ground arith in
          let reopened = ap (with_byte quote) (unquoted_quote rest) in
          rw q (
            reopened
            ∙ subst
                (λ (b : ℕ).
                  with_byte b (sh_read quoted rest) ≡ prefixed (c ∷ s) (sh_read unquoted t))
                same ih)
      | inr q ↦ rw q (rw q ih)
    ]

-- The words that a shell finds in a line.
pub words_of : Text → Option (List Text)
unfolding sh_read
words_of line = elim (sh_read between line) [ none ↦ none | some (w, ws) ↦ some ws ]

append_nil : (s : Text) → s ++ [] ≡ s
append_nil [] = refl
append_nil (c ∷ s) = ap (λ t. c ∷ t) (append_nil s)

last_quoted : (s : Text) → sh_read quoted (replace_quotes s ++ quote ∷ []) ≡ some (s, [])
unfolding sh_read
last_quoted s = sh_read-quoted s [] ∙ ap (λ (t : Text). some (t, [])) (append_nil s)

two_quoted :
    (s t : Text)
    → sh_read quoted ((replace_quotes s ++ quote ∷ []) ++ b' ' ∷ sh_quote t) ≡ some (s, t ∷ [])
unfolding sh_read sh_quote
two_quoted s t =
    ap (sh_read quoted) (append_assoc (replace_quotes s) (quote ∷ []) (b' ' ∷ sh_quote t))
    ∙ sh_read-quoted s (b' ' ∷ sh_quote t)
    ∙ ap (prefixed s) (ap as_word (last_quoted t))
    ∙ ap (λ (u : Text). some (u, t ∷ [])) (append_nil s)

-- Whatever a path or a package is called: the shell of the device reads the command that was meant,
-- with the name as one word, in ListDir, Remove, Rename and ForceStop.
pub words_of-lines :
    (path from to pkg : Text)
    → (words_of (list_dir_line path) ≡ some (codes "ls" ∷ codes "-laL" ∷ path ∷ []))
      × (words_of (remove_line path) ≡ some (codes "rm" ∷ codes "-rf" ∷ codes "--" ∷ path ∷ []))
      × (words_of (rename_line from to) ≡ some (codes "mv" ∷ codes "--" ∷ from ∷ to ∷ []))
      × (words_of (force_stop_line pkg) ≡ some (codes "am" ∷ codes "force-stop" ∷ pkg ∷ []))
unfolding words_of shell_line sh_quote
words_of-lines path from to pkg = (
  rw (words_of, last_quoted path),
  rw (words_of, last_quoted path),
  rw (words_of, two_quoted from to),
  rw (words_of, last_quoted pkg),
)
