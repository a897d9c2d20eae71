-- ===== src/Adb.antt =====
-- internal/adb/adb.go: the command lines that adb hands to the shell of a device.
pub mod Quoting
use poligon.Base.{List, Text, [], codes, eqb, if◌then◌else◌, ℕ, ◌++◌, ◌∷◌}

abbrev pub quote : ℕ
quote = 0x27

abbrev pub backslash : ℕ
backslash = 0x5C

-- strings.ReplaceAll(s, "'", `'\''`)
unfoldable pub replace_quotes : Text → Text
replace_quotes [] = []
replace_quotes (c ∷ s) =
    let rest = replace_quotes s in
    if eqb c quote then quote ∷ backslash ∷ quote ∷ quote ∷ rest else c ∷ rest

-- shQuote
unfoldable pub sh_quote : Text → Text
unfolding replace_quotes
sh_quote s = quote ∷ replace_quotes s ++ quote ∷ []

-- `adb shell` joins its arguments with spaces.
unfoldable pub shell_line : List Text → Text
shell_line [] = []
shell_line (w ∷ []) = w
shell_line (w ∷ v ∷ ws) = w ++ b' ' ∷ shell_line (v ∷ ws)

-- The lines of ListDir, Remove, Rename, ForceStop and ClearData, and of Running.
abbrev pub list_dir_line : Text → Text
list_dir_line path = shell_line (codes "ls" ∷ codes "-laL" ∷ sh_quote path ∷ [])

abbrev pub remove_line : Text → Text
remove_line path = shell_line (codes "rm" ∷ codes "-rf" ∷ codes "--" ∷ sh_quote path ∷ [])

abbrev pub rename_line : Text → Text → Text
rename_line from to = shell_line (codes "mv" ∷ codes "--" ∷ sh_quote from ∷ sh_quote to ∷ [])

abbrev pub force_stop_line : Text → Text
force_stop_line pkg = shell_line (codes "am" ∷ codes "force-stop" ∷ sh_quote pkg ∷ [])

abbrev pub running_line : Text → Text
running_line pkg = shell_line (codes "pidof" ∷ pkg ∷ [])
