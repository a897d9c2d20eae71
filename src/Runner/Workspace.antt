-- ===== src/Runner/Workspace.antt =====
-- internal/runner/workspace.go: a Maestro workspace that arrives as a zip archive.
pub mod Confined
pub mod Budget
use poligon.Base.{
  Bool, List, Option, Text, [], codes, false, has_prefix, if◌then◌else◌, is_empty, leb, length, ltb,
  none, not, some, true, ℕ, ◌&&◌, ◌*◌, ◌++◌, ◌+◌, ◌-◌, ◌==◌, ◌^◌, ◌∷◌,
}
use poligon.Paths.{
  FilePath, base_name, drop_first, is_abs, is_up, join_path, relative, render_path, starts_up,
}
use poligon.Watchdog.Budget.{budget}

abbrev pub max_workspace_files : ℕ
max_workspace_files = 2000

abbrev pub max_workspace_bytes : ℕ
max_workspace_bytes = 512 * 2 ^ 20

-- An entry of the archive: how many bytes of it can be read, and whether an error follows them.
pub record Entry : Type 0 where
  pub name : Text
  pub is_dir : Bool
  pub is_regular : Bool
  pub opens : Bool
  pub readable : ℕ
  pub is_damaged : Bool

-- What the disk answers: whether a directory or a file can be made, the entries of an archive, and
-- below a directory the lone directories, each the only entry of the one before.
pub record Disk : Type 0 where
  pub makes : FilePath → Bool
  pub creates : FilePath → Bool
  pub archive : Text → Option (List Entry)
  pub lone_dirs : FilePath → List Text
  pub has_yaml : FilePath → Bool
  pub exists : Text → Bool

-- insideDir; `none` is its error.
unfoldable pub inside_dir : FilePath → Text → Option FilePath
unfolding relative join_path is_up
inside_dir dir name =
    if is_abs name
    then none
    else let target = join_path dir name in
      elim (relative dir target) [
        | none ↦ none
        | some rel ↦ if starts_up rel then none else some target
      ]

-- copyZipFile: the bytes that reach the disk, and whether all went well.
unfoldable pub copy_zip_file : Disk → Entry → FilePath → ℕ → ℕ × Bool
copy_zip_file disk e target budget =
    if not e.opens
    then (0, false)
    else if not (disk.creates target)
    then (0, false)
    else if leb (budget + 1) e.readable
    then (budget + 1, false)
    else (e.readable, not e.is_damaged)

-- What is unpacked so far: the directories and files that the entries name, and the bytes written.
pub record Unpacked : Type 0 where
  pub made : List FilePath
  pub bytes : ℕ

abbrev pub is_passed_over : Entry → Bool
is_passed_over e = elim (has_prefix (codes "__MACOSX/") e.name) [
  | some _ ↦ true
  | none ↦ base_name e.name == codes ".DS_Store"
]

abbrev pub made_too : FilePath → ℕ → Unpacked → Unpacked
made_too target n u = record { made = u.made ++ target ∷ []; bytes = u.bytes + n }

-- One entry at its target.
abbrev pub unpack_at : Disk → Entry → FilePath → Unpacked → Unpacked × Bool
unpack_at disk e target u =
    if e.is_dir
    then (if disk.makes target then (made_too target 0 u, true) else (u, false))
    else if not e.is_regular
    then (u, false)
    else if not (disk.makes (record target { parts = drop_first target.parts }))
    then (u, false)
    else let (n, fine) = copy_zip_file disk e target (max_workspace_bytes - u.bytes) in
      (if disk.creates target && e.opens then made_too target n u else u, fine)

unfoldable pub unpack_entry : Disk → FilePath → Entry → Unpacked → Unpacked × Bool
unfolding inside_dir copy_zip_file base_name
unpack_entry disk dest e u = if is_passed_over e then (u, true) else elim (inside_dir dest e.name) [
  | none ↦ (u, false)
  | some target ↦ unpack_at disk e target u
]

-- The loop over the entries; an error ends it.
unfoldable pub unpack : Disk → FilePath → List Entry → Unpacked → Unpacked × Bool
unpack disk dest [] u = (u, true)
unpack disk dest (e ∷ es) u =
    let (u', fine) = unpack_entry disk dest e u in
    elim fine [ true ↦ unpack disk dest es u' | false ↦ (u', false) ]

-- workspaceRoot
unfoldable pub descend : FilePath → List Text → FilePath
descend dir [] = dir
descend dir (w ∷ ws) = descend (join_path dir w) ws

-- The target in the unpacked workspace.
unfoldable pub workspace_target : Disk → FilePath → Text → Option FilePath
unfolding descend inside_dir
workspace_target disk dest flow_path =
    let root = descend dest (disk.lone_dirs dest) in
    if is_empty flow_path
    then (if disk.has_yaml root then some root else none)
    else elim (inside_dir root flow_path) [
      | none ↦ none
      | some target ↦ if disk.exists (render_path target) then some target else none
    ]

abbrev pub nothing_yet : Unpacked
nothing_yet = record { made = []; bytes = 0 }

-- The loop behind its guards.
unfoldable pub unpack_all : Disk → FilePath → List Entry → Unpacked × Bool
unfolding unpack
unpack_all disk dest es =
    if ltb max_workspace_files (length es)
    then (nothing_yet, false)
    else if not (disk.makes dest)
    then (nothing_yet, false)
    else unpack disk dest es nothing_yet

unfoldable pub extract_workspace : Disk → Text → FilePath → Text → Unpacked × Option FilePath
unfolding unpack_all workspace_target
extract_workspace disk zip dest flow_path = elim (disk.archive zip) [
  | none ↦ (nothing_yet, none)
  | some es ↦
      let (u, fine) = unpack_all disk dest es in
      (u, if fine then workspace_target disk dest flow_path else none)
]
